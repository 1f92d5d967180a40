-- ===== src/Text/Trim.antt =====
-- strings.TrimSpace leaves a text alone that neither begins nor ends with a space; names of ASCII
-- letters, digits and underscores.
use mathlib.Core.List.{reverse, reverse-append, reverse-reverse}
use myrest.Prelude.{
  ℕ, ◌≡◌, ◌≢◌, refl, sym, ap, ◌∙◌, Bool, true, false, ◌||◌, ◌&&◌, none, [], ◌∷◌, ◌++◌, arith, ◌==◌,
  All,
}
use myrest.Text.{Text, codes, is_space, trim_left, trim_space, cut_at}
use myrest.Text.Unicode.{ascii_digit, ascii_letter}

trim_left_edge : (c : ℕ) (s : Text) → is_space c ≡ false → trim_left (c ∷ s) ≡ c ∷ s
unfolding trim_left
trim_left_edge c s h = rw h

pub trim_space-edges :
    (c : ℕ) (s front : Text) (d : ℕ)
    → c ∷ s ≡ front ++ d ∷ []
    → is_space c ≡ false
    → is_space d ≡ false
    → trim_space (c ∷ s) ≡ c ∷ s
unfolding trim_space
trim_space-edges c s front d e hc hd =
    let reversed : reverse (c ∷ s) ≡ d ∷ reverse front =
      ap reverse e ∙ reverse-append front (d ∷ []) in
    ap (λ t. reverse (trim_left (reverse t))) (trim_left_edge c s hc)
    ∙ ap (λ t. reverse (trim_left t)) reversed
    ∙ ap reverse (trim_left_edge d (reverse front) hd ∙ sym reversed)
    ∙ reverse-reverse (c ∷ s)

-- An ASCII letter, digit or underscore.
abbrev pub NameRune : ℕ → Type 0
NameRune c = (ascii_letter c || ascii_digit c || c == b'_') ≡ true

abbrev pub IsName : Text → Type 0
IsName s = All NameRune s × (s ≢ [])

NameRune-is_space : (c : ℕ) → NameRune c → is_space c ≡ false
unfolding is_space ascii_letter ascii_digit
NameRune-is_space c h = ground arith

-- Names hold none of the code points that the parsers look for.
pub NameRune-ne :
    (c : ℕ)
    → NameRune c
    → (c ≢ b'.') × (c ≢ b',') × (c ≢ b'(') × (c ≢ b')') × (c ≢ b'"') × (c ≢ b'-') × (c ≢ b'#')
unfolding ascii_letter ascii_digit
NameRune-ne c h = ground arith

pub NameRune-edge : (c : ℕ) → NameRune c → is_space c ≡ false
NameRune-edge c h = NameRune-is_space c h

-- The last item of a list with a first one.
pub last-of :
    (c : ℕ) (s : Text)
    → All NameRune (c ∷ s)
    → (front : Text) × (d : ℕ) × (c ∷ s ≡ front ++ d ∷ []) × NameRune d
last-of c [] h = ([], c, refl, h.0)
last-of c (d ∷ s) h =
    let (front, e, same, name) = last-of d s h.1 in (c ∷ front, e, ap (◌∷◌ c) same, name)

pub trim_space-name : (s : Text) → All NameRune s → trim_space s ≡ s
trim_space-name [] h = unfold trim_space trim_left in refl
trim_space-name (c ∷ s) h =
    let (front, d, e, name) = last-of c s h in
    trim_space-edges c s front d e (NameRune-is_space c h.0) (NameRune-is_space d name)

pub cut_at-name_arrow : (s : Text) → All NameRune s → cut_at s (codes "->") ≡ none
unfolding cut_at
cut_at-name_arrow [] h = refl
cut_at-name_arrow (c ∷ s) h = ground (arith, NameRune-ne c h.0, cut_at-name_arrow s h.1)

pub cut_at-name_hash : (s : Text) → All NameRune s → cut_at s (codes "#>") ≡ none
unfolding cut_at
cut_at-name_hash [] h = refl
cut_at-name_hash (c ∷ s) h = ground (arith, NameRune-ne c h.0, cut_at-name_hash s h.1)

unfoldable pub all_name_runes : Text → Bool
unfolding ascii_letter ascii_digit
all_name_runes [] = true
all_name_runes (c ∷ s) = (ascii_letter c || ascii_digit c || c == b'_') && all_name_runes s

-- Literals are seen to be names by evaluation.
pub names_by_test : (s : Text) → all_name_runes s ≡ true → All NameRune s
unfolding all_name_runes
names_by_test [] h = tt
names_by_test (c ∷ s) h = (ground arith, names_by_test s (ground arith))
