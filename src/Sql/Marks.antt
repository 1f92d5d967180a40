-- ===== src/Sql/Marks.antt =====
-- How a MySQL lexer sees a statement: quoted identifiers and strings, and the placeholders
-- outside them. The builders' statements hold no comment.
pub mod Pieces
pub mod Conditions
pub mod Clauses
pub mod Columns
pub mod Statements
pub mod Accepted
pub mod Trees
pub mod Lists
pub mod Requests
use myrest.Prelude.{
  ℕ, zero, suc, ◌+◌, ◌≡◌, ◌≢◌, refl, sym, ap, ◌∙◌, Bool, true, false, List, [], ◌∷◌, ◌++◌,
  append_assoc, append-nil, arith, ◌==◌, if◌then◌else◌, ◌||◌,
}
use myrest.Text.{Text, codes, join}

-- Outside quotes, inside a pair of the given quote, or behind a backslash there.
pub data Mode : Type 0 where
  plain : Mode
  inside : ℕ → Mode
  escaped : ℕ → Mode

abbrev is_quote : ℕ → Bool
is_quote c = c == b'`' || c == b'\'' || c == b'"'

-- A backslash is an escape in strings and not in identifiers.
unfoldable pub lex : Mode → ℕ → Mode
lex plain c = if is_quote c then inside c else plain
lex (inside d) c =
    if c == d
    then plain
    else if c == b'\\'
    then (if d == b'`' then inside d else escaped d)
    else inside d
lex (escaped d) c = inside d

abbrev mark : Mode → ℕ → ℕ
mark plain c = if c == b'?' then 1 else 0
mark _ c = 0

-- The number of placeholders of a text that is met in a mode.
unfoldable pub marks : Mode → Text → ℕ
unfolding lex
marks m [] = 0
marks m (c ∷ s) = mark m c + marks (lex m c) s

-- The text is met outside quotes, ends outside quotes, and holds `n` placeholders.
pub record Marked (n : ℕ) (s : Text) : Type 0 where
  pub counts : (rest : Text) → marks plain (s ++ rest) ≡ n + marks plain rest

pub Marked-nil : Marked 0 []
Marked-nil = record { counts = λ rest. omega arith }

pub Marked-append : {m n : ℕ} (s t : Text) → Marked m s → Marked n t → Marked (m + n) (s ++ t)
Marked-append s t a b = record {
  counts = λ rest.
      ap (marks plain) (append_assoc s t rest)
      ∙ a.counts (t ++ rest)
      ∙ omega (arith, b.counts rest);
}

-- Texts without placeholders around one with some.
pub Marked-before : {n : ℕ} (s t : Text) → Marked 0 s → Marked n t → Marked n (s ++ t)
Marked-before s t a b = record {
  counts = λ rest.
      ap (marks plain) (append_assoc s t rest)
      ∙ a.counts (t ++ rest)
      ∙ omega (arith, b.counts rest);
}

pub Marked-after : {n : ℕ} (s t : Text) → Marked n s → Marked 0 t → Marked n (s ++ t)
Marked-after s t a b = record {
  counts = λ rest.
      ap (marks plain) (append_assoc s t rest)
      ∙ a.counts (t ++ rest)
      ∙ omega (arith, b.counts rest);
}

-- A whole statement.
pub marks-Marked : {n : ℕ} (s : Text) → Marked n s → marks plain s ≡ n
unfolding marks
marks-Marked s h = ap (marks plain) (sym (append-nil s)) ∙ h.counts [] ∙ omega arith
