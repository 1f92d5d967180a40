-- ===== src/ReadQuery/Groups/Shapes.antt =====
-- The printed parts of a tree pass the loop of splitTopLevel whole, and there is one.
use myrest.Prelude.{
  ℕ, suc, ◌≡◌, ◌≢◌, ◌⊎◌, refl, Bool, true, false, List, [], ◌∷◌, ◌++◌, map, ok, All, All-append,
  inl, inr,
}
use myrest.Text.{Text, codes, cut_prefix, join, trim_space, is_space}
use myrest.Text.Laws.{cut_suffix-append}
use myrest.Text.Trim.{all_name_runes, names_by_test}
use myrest.Text.Unicode.{Unicode}
use myrest.ReadQuery.Query.{Filter, Group, group, Groups, end, also}
use myrest.ReadQuery.Failure.{Parsed}
use myrest.ReadQuery.Filter.Print.{not_text, IsPrintable}
use myrest.ReadQuery.Groups.Print.{
  condition, connective, in_parentheses, part_texts, part_text, IsPrintableGroup, IsPrintableGroups,
}
use myrest.ReadQuery.Groups.Parts.{
  condition-PassesAt, condition-ne-nil, not_text-PassesAt, EndsWell-append, EndsWell-parenthesis,
  trim_space-EndsWell,
}
use myrest.ReadQuery.Groups.Split.{
  PassesAt, PassesAt-append, PassesAt-name, PassesAt-parentheses, PassesAt-join,
}
use myrest.ReadQuery.Groups.{require_non_empty_group, parse_list, parse_body}

pub part-ne-nil :
    (n o : Bool) (parts : List Text) → not_text n ++ (connective o ++ in_parentheses parts) ≢ []
part-ne-nil true o parts = cc
part-ne-nil false true parts = cc
part-ne-nil false false parts = cc

pub in_parentheses-parse_list :
    ⦃u : Unicode⦄ (parse : Text → Bool → Parsed Group) (is_or negated : Bool) (parts : List Text)
    → parse_body parse is_or negated (in_parentheses parts)
      ≡ parse_list parse is_or negated (join parts (codes ","))
unfolding parse_body cut_prefix
in_parentheses-parse_list parse is_or negated parts =
    rw (cut_suffix-append (join parts (codes ",")) (codes ")"), parse_body)

pub conditions-PassesAt :
    (d : ℕ) (fs : List Filter) → All IsPrintable fs → All (PassesAt d) (map condition fs)
conditions-PassesAt d [] h = tt
conditions-PassesAt d (f ∷ fs) h = (condition-PassesAt f h.0 d, conditions-PassesAt d fs h.1)

connective-PassesAt : (d : ℕ) (o : Bool) → PassesAt d (connective o)
unfolding all_name_runes
connective-PassesAt d true = PassesAt-name d (codes "or") (names_by_test (codes "or") refl)
connective-PassesAt d false = PassesAt-name d (codes "and") (names_by_test (codes "and") refl)

mutual
  pub part-PassesAt : (g : Group) (d : ℕ) → IsPrintableGroup g → PassesAt d (part_text g)
  part-PassesAt (group o fs gs n) d h = PassesAt-append d (not_text n) _ (not_text-PassesAt d n) (
      PassesAt-append d (connective o) _ (connective-PassesAt d o) (
        PassesAt-parentheses d _ (
          PassesAt-join d (map condition fs ++ part_texts gs) (
            All-append (PassesAt (suc d)) (map condition fs) (part_texts gs)
              (conditions-PassesAt (suc d) fs h.0) (parts-PassesAt gs (suc d) h.1)))))

  pub parts-PassesAt :
      (gs : Groups) (d : ℕ) → IsPrintableGroups gs → All (PassesAt d) (part_texts gs)
  parts-PassesAt end d h = tt
  parts-PassesAt (also g gs) d h = (part-PassesAt g d h.0, parts-PassesAt gs d h.1)

pub conditions-ne-nil : (fs : List Filter) → All (λ p. p ≢ []) (map condition fs)
conditions-ne-nil [] = tt
conditions-ne-nil (f ∷ fs) = (condition-ne-nil f, conditions-ne-nil fs)

pub parts-ne-nil : (gs : Groups) → All (λ p. p ≢ []) (part_texts gs)
parts-ne-nil end = tt
parts-ne-nil (also (group o fs gs' n) gs) =
    (part-ne-nil n o (map condition fs ++ part_texts gs'), parts-ne-nil gs)

-- a tree with a condition has a part
pub some_part :
    (fs : List Filter) (gs : Groups)
    → (fs ≢ []) ⊎ (gs ≢ end)
    → map condition fs ++ part_texts gs ≢ []
some_part [] end (inl h) = absurd (h refl)
some_part [] end (inr h) = absurd (h refl)
some_part [] (also g gs) h = cc
some_part (f ∷ fs) gs h = cc

pub require_non_empty_group-ok :
    (o n : Bool) (fs : List Filter) (gs : Groups)
    → (fs ≢ []) ⊎ (gs ≢ end)
    → require_non_empty_group (group o fs gs n) ≡ ok (group o fs gs n)
unfolding require_non_empty_group
require_non_empty_group-ok o n [] end (inl h) = absurd (h refl)
require_non_empty_group-ok o n [] end (inr h) = absurd (h refl)
require_non_empty_group-ok o n [] (also g gs) h = refl
require_non_empty_group-ok o n (f ∷ fs) gs h = refl

pub trim_space-part :
    (n o : Bool) (parts : List Text)
    → trim_space (not_text n ++ (connective o ++ in_parentheses parts))
      ≡ not_text n ++ (connective o ++ in_parentheses parts)
unfolding is_space
trim_space-part true o parts = trim_space-EndsWell b'n' _ refl (
    EndsWell-append (codes "not.") _ (
      EndsWell-append (connective o) _
        (EndsWell-append (b'(' ∷ join parts (codes ",")) (codes ")") EndsWell-parenthesis)))
trim_space-part false true parts =
    trim_space-EndsWell b'o' _ refl (
      EndsWell-append (b'o' ∷ b'r' ∷ b'(' ∷ join parts (codes ",")) (codes ")")
        EndsWell-parenthesis)
trim_space-part false false parts =
    trim_space-EndsWell b'a' _ refl
      (EndsWell-append (codes "and(" ++ join parts (codes ",")) (codes ")") EndsWell-parenthesis)
