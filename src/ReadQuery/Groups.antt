-- ===== src/ReadQuery/Groups.antt =====
-- internal/readquery/filter_parse.go: the logical trees or=(...) and and=(...).
pub mod Lengths
pub mod Fuel
pub mod Split
pub mod Print
pub mod Parts
pub mod Nested
pub mod Appending
pub mod Shapes
pub mod Depth
pub mod RoundTrip
use myrest.Prelude.{
  ℕ, zero, suc, ◌+◌, ◌-◌, Bool, true, false, ◌&&◌, ◌||◌, not, Option, none, some, List, [], ◌∷◌,
  ◌++◌, ◌==◌, if◌then◌else◌, length, Result, ok, err, ◌>>=◌,
}
use myrest.Text.{Text, codes, cut_prefix, cut_suffix, has_prefix, trim_prefix, cut, trim_space}
use myrest.Text.Unicode.{Unicode}
use myrest.ReadQuery.Query.{Filter, Group, group, Groups, end, also, append_group}
use myrest.ReadQuery.Failure.{
  Message, group_needs_condition, group_needs_parentheses, group_unbalanced_parentheses,
  group_unbalanced, condition_needs_operator, Failure, exhausted, Parsed, refuse,
}
use myrest.ReadQuery.Filter.{strip_not, parse_filter}

-- The variables of the loop of splitTopLevel.
pub record TopLevel : Type 0 where
  pub parts : List Text
  pub current : Text
  pub depth : ℕ
  pub in_quotes : Bool

abbrev pub write_byte : TopLevel → ℕ → TopLevel
write_byte s ch = record s { current = s.current ++ ch ∷ [] }

unfoldable pub top_step : TopLevel → ℕ → Parsed TopLevel
top_step s ch =
    if ch == b'"'
    then ok (record (write_byte s ch) { in_quotes = not s.in_quotes })
    else if s.in_quotes
    then ok (write_byte s ch)
    else if ch == b'('
    then ok (record (write_byte s ch) { depth = s.depth + 1 })
    else if ch == b')'
    then (if s.depth == 0
        then refuse group_unbalanced_parentheses
        else ok (record (write_byte s ch) { depth = s.depth - 1 }))
    else if ch == b',' && s.depth == 0
    then ok (record s { parts = s.parts ++ s.current ∷ []; current = [] })
    else ok (write_byte s ch)

unfoldable pub with_last : List Text → Text → List Text
with_last parts [] = parts
with_last parts (c ∷ current) = parts ++ (c ∷ current) ∷ []

unfoldable pub top_end : TopLevel → Parsed (List Text)
unfolding with_last
top_end s =
    if not (s.depth == 0) || s.in_quotes
    then refuse group_unbalanced
    else ok (with_last s.parts s.current)

unfoldable pub top_loop : TopLevel → Text → Parsed (List Text)
unfolding top_step top_end
top_loop s [] = top_end s
top_loop s (ch ∷ raw) = do t ← top_step s ch; top_loop t raw

abbrev pub top_start : TopLevel
top_start = record { parts = []; current = []; depth = 0; in_quotes = false }

unfoldable pub split_top_level : Text → Parsed (List Text)
unfolding top_loop
split_top_level raw = top_loop top_start raw

unfoldable pub require_non_empty_group : Group → Parsed Group
require_non_empty_group (group is_or [] end negated) = refuse group_needs_condition
require_non_empty_group g = ok g

unfoldable pub is_nested_group : Text → Bool
unfolding has_prefix
is_nested_group part =
    has_prefix part (codes "or(")
    || has_prefix part (codes "and(")
    || has_prefix part (codes "not.or(")
    || has_prefix part (codes "not.and(")

abbrev pub with_negated : Bool → Group → Group
with_negated negated (group is_or filters groups _) = group is_or filters groups negated

-- `parse` is parseGroup, which calls itself through parseNestedGroup.
unfoldable pub parse_nested_group : (Text → Bool → Parsed Group) → Text → Parsed Group
unfolding strip_not has_prefix trim_prefix
parse_nested_group parse part = do
  let stripped = strip_not part
  let is_or = has_prefix stripped.1 (codes "or")
  let body = trim_prefix (trim_prefix stripped.1 (codes "or")) (codes "and")
  g ← parse body is_or
  ok (with_negated stripped.0 g)

module _ ⦃u : Unicode⦄ where
  unfoldable pub add_condition : Group → Text → Parsed Group
  add_condition (group is_or filters groups negated) part = elim (cut part b'.') [
    | none ↦ refuse (condition_needs_operator part)
    | some (column, rest) ↦ parse_filter column rest >>= λ filter.
        ok (group is_or (filters ++ filter ∷ []) groups negated)
  ]

  unfoldable pub add_nested : (Text → Bool → Parsed Group) → Group → Text → Parsed Group
  add_nested parse (group is_or filters groups negated) part = do
    nested ← parse_nested_group parse part
    ok (group is_or filters (append_group groups nested) negated)

  unfoldable pub append_group_part : (Text → Bool → Parsed Group) → Group → Text → Parsed Group
  unfolding add_condition add_nested is_nested_group
  append_group_part parse g part =
      if is_nested_group part then add_nested parse g part else add_condition g part

  -- One round of the loop of parseGroup, on a part that is trimmed.
  unfoldable pub append_trimmed : (Text → Bool → Parsed Group) → Group → Text → Parsed Group
  unfolding append_group_part
  append_trimmed parse g [] = ok g
  append_trimmed parse g (c ∷ part) = append_group_part parse g (c ∷ part)

  unfoldable pub append_parts : (Text → Bool → Parsed Group) → Group → List Text → Parsed Group
  unfolding append_trimmed trim_space
  append_parts parse g [] = ok g
  append_parts parse g (part ∷ parts) = do
    g' ← append_trimmed parse g (trim_space part)
    append_parts parse g' parts

  unfoldable pub parse_list : (Text → Bool → Parsed Group) → Bool → Bool → Text → Parsed Group
  unfolding split_top_level append_parts require_non_empty_group
  parse_list parse is_or negated inner = do
    parts ← split_top_level inner
    g ← append_parts parse (group is_or [] end negated) parts
    require_non_empty_group g

  unfoldable pub parse_body : (Text → Bool → Parsed Group) → Bool → Bool → Text → Parsed Group
  parse_body parse is_or negated body = elim (cut_prefix body (codes "(")) [
    | none ↦ refuse group_needs_parentheses
    | some rest ↦ elim (cut_suffix rest (codes ")")) [
      | none ↦ refuse group_needs_parentheses
      | some inner ↦ parse_list parse is_or negated inner
    ]
  ]

  -- parseGroup, with fuel for the depth of the nesting.
  unfoldable pub parse_group_on : ℕ → Text → Bool → Parsed Group
  unfolding parse_body strip_not
  parse_group_on zero raw is_or = err exhausted
  parse_group_on (suc fuel) raw is_or =
      parse_body (parse_group_on fuel) is_or (strip_not raw).0 (strip_not raw).1

  -- A nested group is shorter than the text around it, so its length is enough fuel.
  unfoldable pub parse_group : Text → Bool → Parsed Group
  unfolding parse_group_on
  parse_group raw is_or = parse_group_on (suc (length raw)) raw is_or
