-- ===== src/ReadQuery/Groups/Depth.antt =====
-- A printed tree is longer than it is deep.
use myrest.Prelude.{ℕ, suc, ◌+◌, ◌≤◌, ◌≡◌, List, [], ◌∷◌, ◌++◌, map, arith, length, length-append}
use myrest.Text.{Text, codes, join}
use myrest.ReadQuery.Query.{Group, group, Groups, end, also}
use myrest.ReadQuery.Filter.Print.{not_text}
use myrest.ReadQuery.Groups.Print.{
  condition, connective, in_parentheses, part_texts, part_text, group_text, depth, depth_groups,
}

total : List Text → ℕ
total [] = 0
total (p ∷ ps) = length p + total ps

total-append : (ps qs : List Text) → total (ps ++ qs) ≡ total ps + total qs
unfolding total
total-append [] qs = omega arith
total-append (p ∷ ps) qs = omega (arith, total-append ps qs)

total-le_join : (ps : List Text) → total ps ≤ length (join ps (codes ","))
unfolding total join
total-le_join [] = omega arith
total-le_join (p ∷ []) = omega arith
total-le_join (p ∷ q ∷ ps) =
    omega (arith, total-le_join (q ∷ ps), length-append p (codes "," ++ join (q ∷ ps) (codes ",")))

length-in_parentheses : (ps qs : List Text) → suc (total qs) ≤ length (in_parentheses (ps ++ qs))
length-in_parentheses ps qs = omega (
  arith,
  total-append ps qs,
  total-le_join (ps ++ qs),
  length-append (join (ps ++ qs) (codes ",")) (codes ")"),
)

mutual
  unfolding total

  depth-le_part : (g : Group) → depth g ≤ length (part_text g)
  depth-le_part (group o fs gs n) = omega (
    arith,
    depth-le_parts gs,
    length-in_parentheses (map condition fs) (part_texts gs),
    length-append (connective o) (in_parentheses (map condition fs ++ part_texts gs)),
    length-append (not_text n) (connective o ++ in_parentheses (map condition fs ++ part_texts gs)),
  )

  depth-le_parts : (gs : Groups) → depth_groups gs ≤ total (part_texts gs)
  depth-le_parts end = omega arith
  depth-le_parts (also g gs) = omega (arith, depth-le_part g, depth-le_parts gs)

pub depth-le_text : (g : Group) → depth g ≤ length (group_text g)
depth-le_text (group o fs gs n) = omega (
  arith,
  depth-le_parts gs,
  length-in_parentheses (map condition fs) (part_texts gs),
  length-append (not_text n) (in_parentheses (map condition fs ++ part_texts gs)),
)
