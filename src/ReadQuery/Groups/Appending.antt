-- ===== src/ReadQuery/Groups/Appending.antt =====
-- The loop of parseGroup over the printed parts of a tree.
use myrest.Prelude.{
  ◌≡◌, ◌≢◌, refl, ap, ◌∙◌, Bool, false, List, [], ◌∷◌, ◌++◌, map, append_assoc, append-nil, ok,
  ◌>>=◌, if◌then◌else◌, All,
}
use myrest.Text.{Text, trim_space}
use myrest.Text.Unicode.{Unicode}
use myrest.ReadQuery.Query.{Filter, Group, group, Groups, end, also, append_group}
use myrest.ReadQuery.Failure.{Parsed}
use myrest.ReadQuery.Filter.Print.{not_text, operand, IsPrintable, parse_filter-operand}
use myrest.ReadQuery.Groups.Print.{
  condition, connective, in_parentheses, body_text, part_texts, part_text, group_is_or,
}
use myrest.ReadQuery.Groups.Parts.{condition-ne-nil, trim_space-condition, cut-name}
use myrest.ReadQuery.Groups.Nested.{
  is_nested_group-condition, is_nested_group-part, parse_nested_group-part,
}
use myrest.ReadQuery.Groups.{
  is_nested_group, add_condition, add_nested, append_group_part, append_trimmed, append_parts,
  with_negated,
}
use myrest.ReadQuery.Groups.Shapes.{part-ne-nil}

-- Groups appended one by one.
abbrev pub append_groups : Groups → Groups → Groups
append_groups gs end = gs
append_groups gs (also h hs) = append_groups (append_group gs h) hs

pub append_groups-also :
    (g : Group) (gs hs : Groups) → append_groups (also g gs) hs ≡ also g (append_groups gs hs)
unfolding append_group
append_groups-also g gs end = refl
append_groups-also g gs (also h hs) = append_groups-also g (append_group gs h) hs

pub append_groups-end : (hs : Groups) → append_groups end hs ≡ hs
unfolding append_group
append_groups-end end = refl
append_groups-end (also h hs) = append_groups-also h end hs ∙ ap (also h) (append_groups-end hs)

module _ ⦃u : Unicode⦄ (parse : Text → Bool → Parsed Group) where
  append_trimmed-ne-nil :
      (g : Group) (part : Text)
      → part ≢ []
      → append_trimmed parse g part ≡ append_group_part parse g part
  unfolding append_trimmed
  append_trimmed-ne-nil g [] ne = absurd (ne refl)
  append_trimmed-ne-nil g (c ∷ part) ne = refl

  append_group_part-if :
      (g : Group) (part : Text) {b : Bool}
      → is_nested_group part ≡ b
      → append_group_part parse g part
        ≡ (if b then add_nested parse g part else add_condition g part)
  unfolding append_group_part
  append_group_part-if g part e =
      ap (λ b. if b then add_nested parse g part else add_condition g part) e

  add_condition-condition :
      (f : Filter) (is_or negated : Bool) (fs : List Filter) (gs : Groups)
      → IsPrintable f
      → add_condition (group is_or fs gs negated) (condition f)
        ≡ ok (group is_or (fs ++ f ∷ []) gs negated)
  unfolding add_condition
  add_condition-condition f is_or negated fs gs h =
      rw (cut-name f.column (operand f) h.name.0, add_condition) (rw (parse_filter-operand f h))

  append_trimmed-condition :
      (f : Filter) (is_or negated : Bool) (fs : List Filter) (gs : Groups)
      → IsPrintable f
      → append_trimmed parse (group is_or fs gs negated) (condition f)
        ≡ ok (group is_or (fs ++ f ∷ []) gs negated)
  append_trimmed-condition f is_or negated fs gs h =
      append_trimmed-ne-nil _ (condition f) (condition-ne-nil f)
      ∙ append_group_part-if _ (condition f) (is_nested_group-condition f h)
      ∙ add_condition-condition f is_or negated fs gs h

  pub append_parts-step :
      (g : Group) (part : Text) (rest : List Text) {g' : Group}
      → trim_space part ≡ part
      → append_trimmed parse g part ≡ ok g'
      → append_parts parse g (part ∷ rest) ≡ append_parts parse g' rest
  unfolding append_parts
  append_parts-step g part rest t e =
      ap (λ p. append_trimmed parse g p >>= λ g'. append_parts parse g' rest) t
      ∙ ap (λ r. r >>= λ g'. append_parts parse g' rest) e

  pub append_parts-conditions :
      (filters : List Filter) (rest : List Text) (is_or negated : Bool) (fs : List Filter)
      (gs : Groups)
      → All IsPrintable filters
      → append_parts parse (group is_or fs gs negated) (map condition filters ++ rest)
        ≡ append_parts parse (group is_or (fs ++ filters) gs negated) rest
  append_parts-conditions [] rest is_or negated fs gs h = rw append-nil
  append_parts-conditions (f ∷ filters) rest is_or negated fs gs h =
      append_parts-step _ (condition f) _ (trim_space-condition f h.0)
        (append_trimmed-condition f is_or negated fs gs h.0)
      ∙ append_parts-conditions filters rest is_or negated (fs ++ f ∷ []) gs h.1
      ∙ ap (λ l. append_parts parse (group is_or l gs negated) rest)
          (append_assoc fs (f ∷ []) filters)

  add_nested-part :
      (n o : Bool) (parts : List Text) (fs' : List Filter) (gs' : Groups) (is_or negated : Bool)
      (fs : List Filter) (gs : Groups)
      → parse (in_parentheses parts) o ≡ ok (group o fs' gs' false)
      → add_nested parse
          (group is_or fs gs negated)
          (not_text n ++ (connective o ++ in_parentheses parts))
        ≡ ok (group is_or fs (append_group gs (group o fs' gs' n)) negated)
  unfolding add_nested
  add_nested-part n o parts fs' gs' is_or negated fs gs e =
      rw (parse_nested_group-part parse n o parts, e)

  -- a nested tree, given that its parser reads its body
  pub append_trimmed-part :
      (g : Group) (is_or negated : Bool) (fs : List Filter) (gs : Groups)
      → parse (body_text g) (group_is_or g) ≡ ok (with_negated false g)
      → append_trimmed parse (group is_or fs gs negated) (part_text g)
        ≡ ok (group is_or fs (append_group gs g) negated)
  append_trimmed-part (group o fs' gs' n) is_or negated fs gs e =
      let parts = map condition fs' ++ part_texts gs' in
      append_trimmed-ne-nil _ _ (part-ne-nil n o parts)
      ∙ append_group_part-if _ _ (is_nested_group-part n o parts)
      ∙ add_nested-part n o parts fs' gs' is_or negated fs gs e
