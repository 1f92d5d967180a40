-- ===== src/ReadQuery/Groups/Print.antt =====
-- A spelling of logical trees in the URL.
use myrest.Prelude.{ℕ, suc, ◌+◌, ◌≢◌, ◌⊎◌, Bool, true, false, List, [], ◌∷◌, ◌++◌, map, All}
use myrest.Text.{Text, codes, join}
use myrest.ReadQuery.Query.{Filter, Group, group, Groups, end, also}
use myrest.ReadQuery.Filter.Print.{operand, not_text, IsPrintable}

-- A condition inside a tree: column.operator.value.
abbrev pub condition : Filter → Text
condition f = f.column ++ b'.' ∷ operand f

abbrev pub connective : Bool → Text
connective true = codes "or"
connective false = codes "and"

abbrev pub in_parentheses : List Text → Text
in_parentheses parts = b'(' ∷ (join parts (codes ",") ++ codes ")")

abbrev mutual
  -- The conditions of a tree in parentheses, its filters before its nested trees.
  pub body_text : Group → Text
  body_text (group is_or filters groups negated) =
      in_parentheses (map condition filters ++ part_texts groups)

  pub part_texts : Groups → List Text
  part_texts end = []
  part_texts (also g gs) = part_text g ∷ part_texts gs

  -- A tree inside another.
  pub part_text : Group → Text
  part_text (group is_or filters groups negated) =
      not_text negated
      ++ (connective is_or ++ in_parentheses (map condition filters ++ part_texts groups))

abbrev pub group_is_or : Group → Bool
group_is_or (group is_or filters groups negated) = is_or

abbrev pub group_negated : Group → Bool
group_negated (group is_or filters groups negated) = negated

-- The value of an or= or and= key.
abbrev pub group_text : Group → Text
group_text g = not_text (group_negated g) ++ body_text g

-- Each filter has a spelling, and each tree has a condition.
abbrev mutual
  pub IsPrintableGroup : Group → Type 0
  IsPrintableGroup (group is_or filters groups negated) =
      All IsPrintable filters × IsPrintableGroups groups × ((filters ≢ []) ⊎ (groups ≢ end))

  pub IsPrintableGroups : Groups → Type 0
  IsPrintableGroups end = Unit
  IsPrintableGroups (also g gs) = IsPrintableGroup g × IsPrintableGroups gs

abbrev mutual
  pub depth : Group → ℕ
  depth (group is_or filters groups negated) = suc (depth_groups groups)

  pub depth_groups : Groups → ℕ
  depth_groups end = 0
  depth_groups (also g gs) = depth g + depth_groups gs
