-- ===== src/Text/Unicode.antt =====
-- unicode.IsLetter, unicode.IsDigit, unicode.ToLower, strings.ToLower, strings.ToUpper and strings.EqualFold. ASCII is written out;
-- the tables of the Unicode standard above it are the instance argument.
use myrest.Prelude.{
  ℕ, ◌+◌, ◌-◌, Bool, true, false, ◌&&◌, ◌||◌, [], ◌∷◌, ltb, leb, ◌==◌, if◌then◌else◌,
}
use myrest.Text.{Text}

pub record Unicode : Type 0 where
  pub letter : ℕ → Bool
  pub digit : ℕ → Bool
  pub lower : ℕ → ℕ
  pub upper : ℕ → ℕ

unfoldable pub ascii_digit : ℕ → Bool
ascii_digit c = leb b'0' c && leb c b'9'

unfoldable pub ascii_letter : ℕ → Bool
ascii_letter c = (leb b'a' c && leb c b'z') || (leb b'A' c && leb c b'Z')

-- The tables hold nothing above ASCII: the instance for examples.
abbrev pub only_ascii : Unicode
only_ascii = record { letter = λ _. false; digit = λ _. false; lower = λ c. c; upper = λ c. c }

module _ ⦃u : Unicode⦄ where
  unfoldable pub is_letter : ℕ → Bool
  unfolding ascii_letter
  is_letter c = if ltb c 128 then ascii_letter c else u.letter c

  unfoldable pub is_digit : ℕ → Bool
  unfolding ascii_digit
  is_digit c = if ltb c 128 then ascii_digit c else u.digit c

  unfoldable pub lower_rune : ℕ → ℕ
  lower_rune c = if ltb c 128 then (if leb b'A' c && leb c b'Z' then c + 32 else c) else u.lower c

  -- strings.ToLower
  unfoldable pub to_lower : Text → Text
  unfolding lower_rune
  to_lower [] = []
  to_lower (c ∷ s) = lower_rune c ∷ to_lower s

  unfoldable pub upper_rune : ℕ → ℕ
  upper_rune c = if ltb c 128 then (if leb b'a' c && leb c b'z' then c - 32 else c) else u.upper c

  -- strings.ToUpper
  unfoldable pub to_upper : Text → Text
  unfolding upper_rune
  to_upper [] = []
  to_upper (c ∷ s) = upper_rune c ∷ to_upper s

-- The lower case of the code points that fold to an ASCII letter.
unfoldable pub fold_rune : ℕ → ℕ
fold_rune c =
    if leb b'A' c && leb c b'Z'
    then c + 32
    else if c == 0x17f
    then b's'
    else if c == 0x212a
    then b'k'
    else c

-- strings.EqualFold with a text of lower case ASCII letters.
unfoldable pub equal_fold : Text → Text → Bool
unfolding fold_rune
equal_fold [] [] = true
equal_fold (c ∷ s) (d ∷ t) = fold_rune c == d && equal_fold s t
equal_fold _ _ = false
