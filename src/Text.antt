-- ===== src/Text.antt =====
-- The functions of Go's package strings that the code calls, on text read as its list of code
-- points. Every separator of the code is ASCII, so a search by bytes and one by code points split
-- a text at the same places.
pub mod Laws
pub mod Unicode
pub mod Trim
pub mod Decimal
use Prim.Native.Char.{code}
use Prim.Native.String.{String}
use mathlib.Core.Option
use mathlib.Core.List.{reverse}
use myrest.Prelude.{
  ℕ, ◌+◌, ◌-◌, Bool, true, false, ◌&&◌, ◌||◌, Option, none, some, List, [], ◌∷◌, ◌++◌, leb, ◌==◌,
  if◌then◌else◌, is_some,
}

abbrev pub Text : Type 0
Text = List ℕ

-- The code points of a literal.
abbrev pub codes : String → Text
codes String.[] = []
codes (String.◌∷◌ c s) = code c ∷ codes s

unfoldable pub equal : Text → Text → Bool
equal [] [] = true
equal (x ∷ xs) (y ∷ ys) = x == y && equal xs ys
equal _ _ = false

-- strings.CutPrefix: what stands behind the prefix.
unfoldable pub cut_prefix : Text → Text → Option Text
cut_prefix s [] = some s
cut_prefix [] (d ∷ p) = none
cut_prefix (c ∷ s) (d ∷ p) = let rest = cut_prefix s p in if c == d then rest else none

unfoldable pub has_prefix : Text → Text → Bool
unfolding cut_prefix
has_prefix s p = is_some (cut_prefix s p)

-- strings.CutSuffix: what stands before the suffix.
unfoldable pub cut_suffix : Text → Text → Option Text
unfolding equal
cut_suffix [] p = if equal [] p then some [] else none
cut_suffix (c ∷ s) p =
    let rest = cut_suffix s p in if equal (c ∷ s) p then some [] else Option.map (◌∷◌ c) rest

unfoldable pub has_suffix : Text → Text → Bool
unfolding cut_suffix
has_suffix s p = is_some (cut_suffix s p)

-- strings.TrimPrefix and strings.TrimSuffix.
unfoldable pub trim_prefix : Text → Text → Text
unfolding cut_prefix
trim_prefix s p = elim (cut_prefix s p) [ none ↦ s | some rest ↦ rest ]

unfoldable pub trim_suffix : Text → Text → Text
unfolding cut_suffix
trim_suffix s p = elim (cut_suffix s p) [ none ↦ s | some front ↦ front ]

abbrev both_before : ℕ → Option (Text × Text) → Option (Text × Text)
both_before c none = none
both_before c (some (a, b)) = some (c ∷ a, b)

-- strings.Cut at one code point.
unfoldable pub cut : Text → ℕ → Option (Text × Text)
cut [] sep = none
cut (c ∷ s) sep = let rest = cut s sep in if c == sep then some ([], s) else both_before c rest

-- The text before and from the first place where `p` stands, as strings.Index finds it.
unfoldable pub cut_at : Text → Text → Option (Text × Text)
unfolding has_prefix
cut_at [] p = if has_prefix [] p then some ([], []) else none
cut_at (c ∷ s) p =
    let rest = cut_at s p in if has_prefix (c ∷ s) p then some ([], c ∷ s) else both_before c rest

unfoldable pub contains : Text → Text → Bool
unfolding cut_at
contains s p = is_some (cut_at s p)

abbrev pub onto_head : ℕ → List Text → List Text
onto_head c [] = (c ∷ []) ∷ []
onto_head c (p ∷ ps) = (c ∷ p) ∷ ps

-- strings.Split at one code point.
unfoldable pub split : Text → ℕ → List Text
split [] sep = [] ∷ []
split (c ∷ s) sep = let rest = split s sep in if c == sep then [] ∷ rest else onto_head c rest

-- strings.Join.
unfoldable pub join : List Text → Text → Text
join [] sep = []
join (p ∷ []) sep = p
join (p ∷ q ∷ ps) sep = p ++ (sep ++ join (q ∷ ps) sep)

-- unicode.IsSpace.
unfoldable pub is_space : ℕ → Bool
is_space c =
    (leb 9 c && leb c 13)
    || c == 32
    || c == 0x85
    || c == 0xA0
    || c == 0x1680
    || (leb 0x2000 c && leb c 0x200a)
    || c == 0x2028
    || c == 0x2029
    || c == 0x202f
    || c == 0x205f
    || c == 0x3000

unfoldable pub trim_left : Text → Text
unfolding is_space
trim_left [] = []
trim_left (c ∷ s) = let rest = trim_left s in if is_space c then rest else c ∷ s

-- strings.TrimSpace.
unfoldable pub trim_space : Text → Text
unfolding trim_left
trim_space s = reverse (trim_left (reverse (trim_left s)))

-- strings.ReplaceAll of one code point by another.
unfoldable pub replace : ℕ → ℕ → Text → Text
replace old new [] = []
replace old new (c ∷ s) = (if c == old then new else c) ∷ replace old new s
