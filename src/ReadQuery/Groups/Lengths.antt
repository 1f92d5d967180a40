-- ===== src/ReadQuery/Groups/Lengths.antt =====
-- No part of a group's text is longer than the text.
use mathlib.Core.List.{reverse, reverse-append}
use myrest.Prelude.{
  ℕ, ◌+◌, ◌≤◌, ◌<◌, ◌≡◌, refl, ap, ◌∙◌, List, [], ◌∷◌, arith, length, length-append, ok, inl, inr,
  Option-cases, All, All-append, bind-eq-ok,
}
use myrest.Text.{Text, codes, cut_prefix, trim_prefix, trim_space, trim_left}
use myrest.Text.Laws.{length-cut_prefix}
use myrest.ReadQuery.Filter.{strip_not}
use myrest.ReadQuery.Groups.{
  TopLevel, top_step, with_last, top_end, top_loop, top_start, split_top_level,
}

-- No part is longer than the text that was split.
abbrev pub Short : ℕ → Text → Type 0
Short n part = length part ≤ n

top_step-Short :
    (n : ℕ) (s : TopLevel) (ch : ℕ) {t : TopLevel}
    → top_step s ch ≡ ok t
    → All (Short n) s.parts
    → length s.current < n
    → All (Short n) t.parts × (length t.current ≤ length s.current + 1)
unfolding top_step
top_step-Short n s ch h hp hc =
    ground (arith, length-append s.current (ch ∷ []), All-append (Short n) s.parts (s.current ∷ []))

top_end-Short :
    (n : ℕ) (s : TopLevel) {parts : List Text}
    → top_end s ≡ ok parts
    → All (Short n) s.parts
    → length s.current ≤ n
    → All (Short n) parts
unfolding top_end
top_end-Short n s {parts} h hp hc =
    let e : with_last s.parts s.current ≡ parts = ground arith in
    rw (← e) (with_last-Short s.parts s.current hp hc)
  where
    with_last-Short :
        (ps : List Text) (current : Text)
        → All (Short n) ps
        → length current ≤ n
        → All (Short n) (with_last ps current)
    with_last-Short ps [] hp hc = hp
    with_last-Short ps (c ∷ current) hp hc =
        All-append (Short n) ps ((c ∷ current) ∷ []) hp (hc, tt)

top_loop-Short :
    (n : ℕ) (raw : Text) (s : TopLevel) {parts : List Text}
    → top_loop s raw ≡ ok parts
    → All (Short n) s.parts
    → length s.current + length raw ≤ n
    → All (Short n) parts
unfolding top_loop
top_loop-Short n [] s h hp hc = top_end-Short n s h hp (omega arith)
top_loop-Short n (ch ∷ raw) s h hp hc =
    let (t, step, later) = bind-eq-ok (top_step s ch) (λ t. top_loop t raw) h in
    let (hp', hc') = top_step-Short n s ch step hp (omega arith) in
    top_loop-Short n raw t later hp' (omega arith)

pub split_top_level-Short :
    (raw : Text) {parts : List Text}
    → split_top_level raw ≡ ok parts
    → All (Short (length raw)) parts
unfolding split_top_level
split_top_level-Short raw h = top_loop-Short (length raw) raw top_start h tt (omega arith)

length-reverse : (s : Text) → length (reverse s) ≡ length s
length-reverse [] = refl
length-reverse (c ∷ s) =
    ap length (reverse-append (c ∷ []) s)
    ∙ omega (arith, length-append (reverse s) (c ∷ []), length-reverse s)

length-trim_left : (s : Text) → length (trim_left s) ≤ length s
unfolding trim_left
length-trim_left [] = omega arith
length-trim_left (c ∷ s) = ground (arith, length-trim_left s)

pub length-trim_space : (s : Text) → length (trim_space s) ≤ length s
unfolding trim_space
length-trim_space s = omega (
  arith,
  length-trim_left s,
  length-reverse (trim_left s),
  length-trim_left (reverse (trim_left s)),
  length-reverse (trim_left (reverse (trim_left s))),
)

pub length-trim_prefix : (s p : Text) → length (trim_prefix s p) ≤ length s
unfolding trim_prefix
length-trim_prefix s p = elim (Option-cases (cut_prefix s p)) [
  | inl e ↦ ground arith
  | inr (t, e) ↦ ground (arith, length-cut_prefix s p {t = t} e)
]

pub length-strip_not : (s : Text) → length (strip_not s).1 ≤ length s
unfolding strip_not
length-strip_not s = elim (Option-cases (cut_prefix s (codes "not."))) [
  | inl e ↦ ground arith
  | inr (t, e) ↦ ground (arith, length-cut_prefix s (codes "not.") {t = t} e)
]
