-- ===== src/ReadQuery/Groups/Split.antt =====
-- Texts that the loop of splitTopLevel passes whole, and lists of such.
use myrest.Prelude.{
  ℕ, suc, ◌+◌, ◌≡◌, ◌≢◌, refl, sym, ap, ◌∙◌, true, false, List, [], ◌∷◌, ◌++◌, ◌-◌, append_assoc,
  append-nil, arith, ◌==◌, ok, All, inl, inr, Bool-cases,
}
use myrest.Text.{Text, codes, join}
use myrest.Text.Trim.{NameRune, NameRune-ne}
use myrest.ReadQuery.InList.Quoting.{doubled, quoted}
use myrest.ReadQuery.Groups.{TopLevel, with_last, top_loop, split_top_level}

-- The state outside quotes, at a depth.
abbrev pub outside : List Text → Text → ℕ → TopLevel
outside parts current depth = record {
  parts = parts;
  current = current;
  depth = depth;
  in_quotes = false;
}

-- The loop writes the whole text to the current part, at the depth `d` and any part.
pub record PassesAt (d : ℕ) (s : Text) : Type 0 where
  pub passes :
      (parts : List Text) (current rest : Text)
      → top_loop (outside parts current d) (s ++ rest)
        ≡ top_loop (outside parts (current ++ s) d) rest

pub PassesAt-nil : (d : ℕ) → PassesAt d []
PassesAt-nil d = record { passes = λ parts current rest. rw append-nil }

pub PassesAt-append : (d : ℕ) (s t : Text) → PassesAt d s → PassesAt d t → PassesAt d (s ++ t)
PassesAt-append d s t ps pt = record {
  passes = λ parts current rest.
      ap (top_loop _) (append_assoc s t rest)
      ∙ ps.passes parts current (t ++ rest)
      ∙ pt.passes parts (current ++ s) rest
      ∙ ap (λ c. top_loop (outside parts c d) rest) (append_assoc current s t);
}

PassesAt-plain : (d c : ℕ) → (c ≢ b'"') × (c ≢ b'(') × (c ≢ b')') × (c ≢ b',') → PassesAt d (c ∷ [])
unfolding top_loop
PassesAt-plain d c h = record { passes = λ parts current rest. ground arith }

pub PassesAt-dot : (d : ℕ) → PassesAt d (codes ".")
PassesAt-dot d = PassesAt-plain d b'.' (omega arith)

suc==zero : (d : ℕ) → (suc d == 0) ≡ false
suc==zero d = ground arith

pub PassesAt-comma : (d : ℕ) → PassesAt (suc d) (codes ",")
unfolding top_loop
PassesAt-comma d = record { passes = λ parts current rest. rw (suc==zero d) }

pub PassesAt-name : (d : ℕ) (s : Text) → All NameRune s → PassesAt d s
PassesAt-name d [] h = PassesAt-nil d
PassesAt-name d (c ∷ s) h =
    PassesAt-append d (c ∷ []) s (PassesAt-plain d c (omega (arith, NameRune-ne c h.0)))
      (PassesAt-name d s h.1)

top_loop_open :
    (d : ℕ) (parts : List Text) (current rest : Text)
    → top_loop (outside parts current d) (b'(' ∷ rest)
      ≡ top_loop (outside parts (current ++ b'(' ∷ []) (suc d)) rest
unfolding top_loop
top_loop_open d parts current rest =
    let e : d + 1 ≡ suc d = omega arith in
    ap (λ k. top_loop (outside parts (current ++ b'(' ∷ []) k) rest) e

top_loop_close :
    (d : ℕ) (parts : List Text) (current rest : Text)
    → top_loop (outside parts current (suc d)) (b')' ∷ rest)
      ≡ top_loop (outside parts (current ++ b')' ∷ []) d) rest
unfolding top_loop
top_loop_close d parts current rest =
    let e : suc d - 1 ≡ d = omega arith in
    rw (suc==zero d) (ap (λ k. top_loop (outside parts (current ++ b')' ∷ []) k) rest) e)

-- a parenthesised text passes where its inside passes one level deeper
pub PassesAt-parentheses :
    (d : ℕ) (s : Text) → PassesAt (suc d) s → PassesAt d (b'(' ∷ (s ++ codes ")"))
PassesAt-parentheses d s p = record {
  passes = λ parts current rest.
      top_loop_open d parts current ((s ++ codes ")") ++ rest)
      ∙ ap (top_loop _) (append_assoc s (codes ")") rest)
      ∙ p.passes parts (current ++ b'(' ∷ []) (b')' ∷ rest)
      ∙ top_loop_close d parts ((current ++ b'(' ∷ []) ++ s) rest
      ∙ ap (λ c. top_loop (outside parts c d) rest)
          (append_assoc (current ++ b'(' ∷ []) s (codes ")")
            ∙ append_assoc current (b'(' ∷ []) (s ++ codes ")"));
}

top_loop_quoted :
    (parts : List Text) (current : Text) (c : ℕ) (rest : Text) (d : ℕ)
    → (c == b'"') ≡ false
    → top_loop (record (outside parts current d) { in_quotes = true }) (c ∷ rest)
      ≡ top_loop (record (outside parts (current ++ c ∷ []) d) { in_quotes = true }) rest
unfolding top_loop
top_loop_quoted parts current c rest d e = ground arith

top_loop-doubled :
    (value rest : Text) (parts : List Text) (current : Text) (d : ℕ)
    → top_loop (record (outside parts current d) { in_quotes = true }) (doubled value ++ rest)
      ≡ top_loop (record (outside parts (current ++ doubled value) d) { in_quotes = true }) rest
unfolding top_loop
top_loop-doubled [] rest parts current d = rw append-nil
top_loop-doubled (c ∷ value) rest parts current d = elim (Bool-cases (c == b'"')) [
  | inl e ↦ rw e (
      top_loop-doubled value rest parts ((current ++ b'"' ∷ []) ++ b'"' ∷ []) d ∙ simp append_assoc)
  | inr e ↦ rw e (
      top_loop_quoted parts current c (doubled value ++ rest) d e
      ∙ top_loop-doubled value rest parts (current ++ c ∷ []) d
      ∙ simp append_assoc)
]

pub PassesAt-quoted : (d : ℕ) (value : Text) → PassesAt d (quoted value)
unfolding top_loop
PassesAt-quoted d value = record {
  passes = λ parts current rest.
      ap (top_loop _) (append_assoc (doubled value) (codes "\"") rest)
      ∙ top_loop-doubled value (b'"' ∷ rest) parts (current ++ b'"' ∷ []) d
      ∙ ap (λ c. top_loop (outside parts c d) rest)
          (append_assoc (current ++ b'"' ∷ []) (doubled value) (codes "\"")
            ∙ append_assoc current (b'"' ∷ []) (doubled value ++ codes "\""));
}

with_last-ne-nil :
    (parts : List Text) (current : Text)
    → current ≢ []
    → with_last parts current ≡ parts ++ current ∷ []
unfolding with_last
with_last-ne-nil parts [] ne = absurd (ne refl)
with_last-ne-nil parts (c ∷ current) ne = refl

top_loop_end :
    (parts : List Text) (current : Text)
    → current ≢ []
    → top_loop (outside parts current 0) [] ≡ ok (parts ++ current ∷ [])
unfolding top_loop
top_loop_end parts current ne = ap ok (with_last-ne-nil parts current ne)

top_loop_comma :
    (parts : List Text) (current rest : Text)
    → top_loop (outside parts current 0) (b',' ∷ rest)
      ≡ top_loop (outside (parts ++ current ∷ []) [] 0) rest
unfolding top_loop
top_loop_comma parts current rest = refl

-- Parts that pass at the top level, joined by commas, are split again.
top_loop-join :
    (part : Text) (parts before : List Text)
    → All (PassesAt 0) (part ∷ parts)
    → All (λ p. p ≢ []) (part ∷ parts)
    → top_loop (outside before [] 0) (join (part ∷ parts) (codes ",")) ≡ ok (before ++ part ∷ parts)
unfolding join
top_loop-join part [] before h ne =
    ap (top_loop _) (sym (append-nil part))
    ∙ h.0.passes before [] []
    ∙ top_loop_end before part ne.0
top_loop-join part (next ∷ parts) before h ne =
    h.0.passes before [] _
    ∙ top_loop_comma before part _
    ∙ top_loop-join next parts (before ++ part ∷ []) h.1 ne.1
    ∙ ap ok (append_assoc before (part ∷ []) (next ∷ parts))

-- One or more parts, none of them empty, that hold their commas in quotes or parentheses, and
-- balance these, are what splitTopLevel makes of their list.
pub split_top_level-join :
    (parts : List Text)
    → parts ≢ []
    → All (PassesAt 0) parts
    → All (λ p. p ≢ []) parts
    → split_top_level (join parts (codes ",")) ≡ ok parts
unfolding split_top_level
split_top_level-join [] some_part h ne = absurd (some_part refl)
split_top_level-join (part ∷ parts) some_part h ne = top_loop-join part parts [] h ne

-- Parts joined by commas pass inside parentheses.
pub PassesAt-join :
    (d : ℕ) (parts : List Text)
    → All (PassesAt (suc d)) parts
    → PassesAt (suc d) (join parts (codes ","))
unfolding join
PassesAt-join d [] h = PassesAt-nil (suc d)
PassesAt-join d (part ∷ []) h = h.0
PassesAt-join d (part ∷ next ∷ parts) h =
    PassesAt-append (suc d) part _ h.0 (
      PassesAt-append (suc d) (codes ",") _ (PassesAt-comma d) (PassesAt-join d (next ∷ parts) h.1))
