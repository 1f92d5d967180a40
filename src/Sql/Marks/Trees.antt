-- ===== src/Sql/Marks/Trees.antt =====
-- What parseGroup accepts cannot end a string of a statement, and the WHERE clause of a group
-- that stands in a request has one placeholder for each argument.
use myrest.Prelude.{
  ℕ, zero, suc, ◌≡◌, Bool, List, [], ◌∷◌, length, ok, All-append, AllOk, AllOk-bind, AllOk-any,
  AllOk-ok, if-both, Option-cases, inl, inr,
}
use myrest.Text.{Text, codes, cut, cut_prefix, cut_suffix, trim_space}
use myrest.Text.Unicode.{Unicode}
use myrest.ReadQuery.Query.{Group, group, Groups, end, also, append_group}
use myrest.ReadQuery.Failure.{Parsed}
use myrest.ReadQuery.Filter.{strip_not, parse_filter}
use myrest.ReadQuery.Groups.{
  split_top_level, require_non_empty_group, is_nested_group, with_negated, parse_nested_group,
  add_condition, add_nested, append_group_part, append_trimmed, append_parts, parse_list,
  parse_body, parse_group_on, parse_group,
}
use myrest.Schema.{Table}
use myrest.Sql.Filter.{Condition}
use myrest.Sql.Where.{group_sql}
use myrest.Sql.Marks.{plain, marks, marks-Marked}
use myrest.Sql.Marks.Conditions.{Fits, SafeFilter}
use myrest.Sql.Marks.Clauses.{SafeGroup, SafeGroups, group_sql-Fits}
use myrest.Sql.Marks.Accepted.{parse_filter-SafeFilter}

pub append_group-SafeGroups :
    (gs : Groups) (g : Group) → SafeGroups gs → SafeGroup g → SafeGroups (append_group gs g)
unfolding append_group
append_group-SafeGroups end g h k = (k, tt)
append_group-SafeGroups (also x gs) g h k = (h.0, append_group-SafeGroups gs g h.1 k)

require_non_empty_group-SafeGroup :
    (g : Group) → SafeGroup g → AllOk SafeGroup (require_non_empty_group g)
unfolding require_non_empty_group
require_non_empty_group-SafeGroup (group is_or [] end negated) h = tt
require_non_empty_group-SafeGroup (group is_or [] (also g gs) negated) h = h
require_non_empty_group-SafeGroup (group is_or (f ∷ fs) gs negated) h = h

with_negated-SafeGroup :
    (negated : Bool) (g : Group) → SafeGroup g → SafeGroup (with_negated negated g)
with_negated-SafeGroup negated (group is_or filters groups n) h = h

module _ ⦃u : Unicode⦄ where
  module _ (parse : Text → Bool → Parsed Group)
      (safe : (s : Text) (is_or : Bool) → AllOk SafeGroup (parse s is_or)) where
    parse_nested_group-SafeGroup : (part : Text) → AllOk SafeGroup (parse_nested_group parse part)
    unfolding parse_nested_group
    parse_nested_group-SafeGroup part =
        AllOk-bind SafeGroup SafeGroup (parse _ _) _ (safe _ _)
          (λ g h. with_negated-SafeGroup (strip_not part).0 g h)

    add_condition-SafeGroup :
        (g : Group) (part : Text) → SafeGroup g → AllOk SafeGroup (add_condition g part)
    unfolding add_condition
    add_condition-SafeGroup (group is_or filters groups negated) part h =
        elim (Option-cases (cut part b'.')) [
          | inl e ↦ rw (e, AllOk) tt
          | inr (p, e) ↦
              rw (e, AllOk)
                (AllOk-bind SafeFilter SafeGroup (parse_filter p.0 p.1) _
                  (parse_filter-SafeFilter p.0 p.1)
                  (λ filter f. (All-append SafeFilter filters (filter ∷ []) h.0 (f, tt), h.1)))
        ]

    add_nested-SafeGroup :
        (g : Group) (part : Text) → SafeGroup g → AllOk SafeGroup (add_nested parse g part)
    unfolding add_nested
    add_nested-SafeGroup (group is_or filters groups negated) part h =
        AllOk-bind SafeGroup SafeGroup (parse_nested_group parse part) _
          (parse_nested_group-SafeGroup part)
          (λ nested k. (h.0, append_group-SafeGroups groups nested h.1 k))

    append_trimmed-SafeGroup :
        (g : Group) (part : Text) → SafeGroup g → AllOk SafeGroup (append_trimmed parse g part)
    unfolding append_trimmed append_group_part
    append_trimmed-SafeGroup g [] h = h
    append_trimmed-SafeGroup g (c ∷ part) h =
        if-both (AllOk SafeGroup) (is_nested_group (c ∷ part)) (add_nested-SafeGroup g (c ∷ part) h)
          (add_condition-SafeGroup g (c ∷ part) h)

    append_parts-SafeGroup :
        (g : Group) (parts : List Text) → SafeGroup g → AllOk SafeGroup (append_parts parse g parts)
    unfolding append_parts
    append_parts-SafeGroup g [] h = h
    append_parts-SafeGroup g (part ∷ parts) h =
        AllOk-bind SafeGroup SafeGroup (append_trimmed parse g (trim_space part)) _
          (append_trimmed-SafeGroup g (trim_space part) h)
          (λ g' k. append_parts-SafeGroup g' parts k)

    parse_list-SafeGroup :
        (is_or negated : Bool) (inner : Text)
        → AllOk SafeGroup (parse_list parse is_or negated inner)
    unfolding parse_list
    parse_list-SafeGroup is_or negated inner =
        AllOk-bind (λ x. Unit {0}) SafeGroup (split_top_level inner) _ (AllOk-any _ (λ x. tt) _)
          (λ parts x.
            AllOk-bind SafeGroup SafeGroup (append_parts parse (group is_or [] end negated) parts) _
              (append_parts-SafeGroup (group is_or [] end negated) parts (tt, tt))
              (λ g h. require_non_empty_group-SafeGroup g h))

    parse_body-SafeGroup :
        (is_or negated : Bool) (body : Text) → AllOk SafeGroup (parse_body parse is_or negated body)
    unfolding parse_body
    parse_body-SafeGroup is_or negated body = elim (Option-cases (cut_prefix body (codes "("))) [
      | inl e ↦ rw (e, AllOk) tt
      | inr (rest, e) ↦ elim (Option-cases (cut_suffix rest (codes ")"))) [
        | inl f ↦ rw (e, f, AllOk) tt
        | inr (inner, f) ↦ rw (e, f, AllOk) (parse_list-SafeGroup is_or negated inner)
      ]
    ]

  pub parse_group_on-SafeGroup :
      (fuel : ℕ) (raw : Text) (is_or : Bool) → AllOk SafeGroup (parse_group_on fuel raw is_or)
  unfolding parse_group_on
  parse_group_on-SafeGroup zero raw is_or = tt
  parse_group_on-SafeGroup (suc fuel) raw is_or =
      parse_body-SafeGroup (parse_group_on fuel) (parse_group_on-SafeGroup fuel) is_or
        (strip_not raw).0 (strip_not raw).1

  -- From the text of a request to SQL: when an or=(...) or and=(...) text is accepted, and the SQL
  -- of its group is built for a table, that SQL has, outside its quoted identifiers and strings,
  -- exactly one placeholder for each of its arguments, whatever the text holds.
  pub group_sql-parse_group :
      (raw : Text) (is_or : Bool) (g : Group) (table : Table) (condition : Condition)
      → parse_group raw is_or ≡ ok g
      → group_sql table g ≡ ok condition
      → marks plain condition.0 ≡ length condition.1
  unfolding parse_group
  group_sql-parse_group raw is_or g table condition e f = marks-Marked condition.0 (
      AllOk-ok Fits (group_sql table g)
        (group_sql-Fits table g (
          AllOk-ok SafeGroup (parse_group raw is_or)
            (parse_group_on-SafeGroup (suc (length raw)) raw is_or) e))
        f)
