-- ===== src/ReadQuery/SelectParts.antt =====
-- internal/readquery/parse.go: the parts of a select list, and the head of an embed.
use myrest.Prelude.{
  ℕ, suc, ◌-◌, Bool, true, false, Option, none, some, List, [], ◌∷◌, ◌++◌, ◌==◌, ◌&&◌,
  if◌then◌else◌,
}
use myrest.Text.{Text, codes, has_prefix, trim_prefix, cut_suffix, cut, trim_space}

-- The variables of the loop of splitSelectParts.
pub record SelectParts : Type 0 where
  pub parts : List Text
  pub current : Text
  pub depth : ℕ

unfoldable pub select_step : SelectParts → ℕ → SelectParts
select_step s r =
    if r == b'('
    then record s { current = s.current ++ r ∷ []; depth = suc s.depth }
    else if r == b')'
    then record s { current = s.current ++ r ∷ []; depth = s.depth - 1 }
    else if r == b',' && s.depth == 0
    then record s { parts = s.parts ++ s.current ∷ []; current = [] }
    else record s { current = s.current ++ r ∷ [] }

unfoldable pub select_loop : SelectParts → Text → List Text
unfolding select_step
select_loop s [] = s.parts ++ s.current ∷ []
select_loop s (r ∷ raw) = select_loop (select_step s r) raw

unfoldable pub split_select_parts : Text → List Text
unfolding select_loop
split_select_parts raw = select_loop (record { parts = []; current = []; depth = 0 }) raw

-- The text before the first parenthesis, and the text between it and a final one.
unfoldable pub head_and_inner : Text → Option (Text × Text)
head_and_inner part = elim (cut part b'(') [
  | none ↦ none
  | some (head, rest) ↦ elim (cut_suffix rest (codes ")")) [
    | none ↦ none
    | some inner ↦ some (head, inner)
  ]
]

abbrev has_inner : Option (Text × Text) → Bool
has_inner none = false
has_inner (some (head, inner)) = elim (trim_space inner) [ [] ↦ false | c ∷ s ↦ true ]

unfoldable pub is_embed_part : Text → Bool
is_embed_part part = has_inner (head_and_inner part)

pub record EmbedHead : Type 0 where
  pub alias : Text
  pub resource : Text
  pub hint : Text
  pub spread : Bool

abbrev dots : Text
dots = codes "..."

-- A leading mark of a spread is taken off the resource.
unfoldable pub take_spread : EmbedHead → EmbedHead
unfolding has_prefix trim_prefix
take_spread h =
    if has_prefix h.resource dots
    then record h { resource = trim_prefix h.resource dots; spread = true }
    else h

unfoldable pub take_alias : EmbedHead → EmbedHead
unfolding cut take_spread
take_alias h = elim (cut h.resource b':') [
  | none ↦ h
  | some (name, rest) ↦ take_spread (record h { alias = name; resource = rest })
]

unfoldable pub take_hint : EmbedHead → EmbedHead
unfolding cut
take_hint h = elim (cut h.resource b'!') [
  | none ↦ h
  | some (name, mark) ↦ record h { resource = name; hint = mark }
]

unfoldable pub split_embed_head : Text → EmbedHead
unfolding take_spread take_alias take_hint
split_embed_head head =
    take_hint
      (take_alias (take_spread (record { alias = []; resource = head; hint = []; spread = false })))
