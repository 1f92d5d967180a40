-- ===== src/ReadQuery/Groups/RoundTrip.antt =====
-- Every logical tree of filters has a spelling in the URL that parseGroup reads back.
use myrest.Prelude.{
  ℕ, zero, suc, ◌≤◌, ◌<◌, ◌≡◌, ◌≢◌, refl, ap, ◌∙◌, Bool, true, false, List, [], ◌++◌, map, arith,
  ok, All-append,
}
use myrest.Text.{Text, codes, join, trim_space}
use myrest.Text.Unicode.{Unicode}
use myrest.ReadQuery.Query.{Filter, Group, group, Groups, end, also, append_group}
use myrest.ReadQuery.Failure.{Parsed}
use myrest.ReadQuery.Groups.Print.{
  condition, body_text, part_texts, part_text, group_text, group_is_or, group_negated,
  IsPrintableGroup, IsPrintableGroups, depth, depth_groups,
}
use myrest.ReadQuery.Groups.Split.{PassesAt, split_top_level-join}
use myrest.ReadQuery.Groups.{
  append_parts, parse_list, parse_body, parse_group_on, parse_group, with_negated,
}
use myrest.ReadQuery.Groups.Appending.{
  append_groups, append_groups-end, append_trimmed-part, append_parts-conditions, append_parts-step,
}
use myrest.ReadQuery.Groups.Depth.{depth-le_text}
use myrest.ReadQuery.Groups.Shapes.{
  in_parentheses-parse_list, conditions-PassesAt, parts-PassesAt, conditions-ne-nil, parts-ne-nil,
  some_part, require_non_empty_group-ok, trim_space-part,
}

-- parseList, given that the nested trees are read.
parse_list-parts :
    ⦃u : Unicode⦄ (parse : Text → Bool → Parsed Group) (o n : Bool) (fs : List Filter) (gs : Groups)
    → IsPrintableGroup (group o fs gs n)
    → append_parts parse (group o fs end n) (part_texts gs) ≡ ok (group o fs gs n)
    → parse_list parse o n (join (map condition fs ++ part_texts gs) (codes ","))
      ≡ ok (group o fs gs n)
unfolding parse_list
parse_list-parts parse o n fs gs h e =
    let parts = map condition fs ++ part_texts gs in
    rw
      (
        split_top_level-join parts (some_part fs gs h.2)
            (All-append (PassesAt 0) (map condition fs) (part_texts gs)
              (conditions-PassesAt 0 fs h.0) (parts-PassesAt gs 0 h.1))
            (All-append (λ p. p ≢ []) (map condition fs) (part_texts gs) (conditions-ne-nil fs)
              (parts-ne-nil gs)),
        append_parts-conditions parse fs (part_texts gs) o n [] end h.0,
        e,
      )
      (require_non_empty_group-ok o n fs gs h.2)

strip_not-body :
    ⦃u : Unicode⦄ (g : Group) (fuel : ℕ)
    → parse_group_on (suc fuel) (body_text g) (group_is_or g)
      ≡ parse_body (parse_group_on fuel) (group_is_or g) false (body_text g)
unfolding parse_group_on
strip_not-body (group o fs gs n) fuel = refl

trim_space-part_text : (g : Group) → trim_space (part_text g) ≡ part_text g
trim_space-part_text (group o fs gs n) = trim_space-part n o (map condition fs ++ part_texts gs)

depth_pos : (g : Group) → 0 < depth g
depth_pos (group o fs gs n) = omega arith

append_parts_end :
    ⦃u : Unicode⦄ (parse : Text → Bool → Parsed Group) (g : Group) → append_parts parse g [] ≡ ok g
unfolding append_parts
append_parts_end parse g = refl

mutual
  parse_body-body :
      ⦃u : Unicode⦄ (g : Group) (n : Bool) (fuel : ℕ)
      → IsPrintableGroup g
      → depth g ≤ suc fuel
      → parse_body (parse_group_on fuel) (group_is_or g) n (body_text g) ≡ ok (with_negated n g)
  parse_body-body (group o fs gs m) n fuel h le =
      in_parentheses-parse_list (parse_group_on fuel) o n (map condition fs ++ part_texts gs)
      ∙ parse_list-parts (parse_group_on fuel) o n fs gs h (
          append_parts-parts gs fuel o n fs end h.1 (omega arith)
          ∙ ap (λ x. ok (group o fs x n)) (append_groups-end gs))

  append_parts-parts :
      ⦃u : Unicode⦄ (gs : Groups) (fuel : ℕ) (o n : Bool) (fs : List Filter) (acc : Groups)
      → IsPrintableGroups gs
      → depth_groups gs ≤ fuel
      → append_parts (parse_group_on fuel) (group o fs acc n) (part_texts gs)
        ≡ ok (group o fs (append_groups acc gs) n)
  append_parts-parts end fuel o n fs acc h le = append_parts_end _ _
  append_parts-parts (also g gs) zero o n fs acc h le = absurd (omega (arith, depth_pos g))
  append_parts-parts (also g gs) (suc fuel) o n fs acc h le =
      append_parts-step (parse_group_on (suc fuel)) _ (part_text g) (part_texts gs)
        (trim_space-part_text g)
        (append_trimmed-part (parse_group_on (suc fuel)) g o n fs acc
          (strip_not-body g fuel ∙ parse_body-body g false fuel h.0 (omega arith)))
      ∙ append_parts-parts gs (suc fuel) o n fs (append_group acc g) h.1 (omega arith)

strip_not-group_text :
    ⦃u : Unicode⦄ (g : Group) (fuel : ℕ)
    → parse_group_on (suc fuel) (group_text g) (group_is_or g)
      ≡ parse_body (parse_group_on fuel) (group_is_or g) (group_negated g) (body_text g)
unfolding parse_group_on
strip_not-group_text (group o fs gs true) fuel = refl
strip_not-group_text (group o fs gs false) fuel = refl

with_negated_self : (g : Group) → with_negated (group_negated g) g ≡ g
with_negated_self (group o fs gs n) = refl

-- Every tree of conditions, with or, and and not at any depth, whose filters are printable and in
-- which no tree is empty, is what parseGroup reads from its spelling: the value of the key or
-- (and) that lists its conditions and nested trees in parentheses, with not. before a negated one.
pub parse_group-group_text :
    ⦃u : Unicode⦄ (g : Group)
    → IsPrintableGroup g
    → parse_group (group_text g) (group_is_or g) ≡ ok g
unfolding parse_group
parse_group-group_text g h =
    strip_not-group_text g _
    ∙ parse_body-body g (group_negated g) _ h (omega (arith, depth-le_text g))
    ∙ ap ok (with_negated_self g)
