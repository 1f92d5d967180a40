-- ===== src/Prefer/Lines.antt =====
-- Several Prefer lines and one line of comma-separated tokens.
use myrest.Prelude.{ℕ, ◌≡◌, ◌≢◌, refl, sym, ap, ◌∙◌, List, [], ◌∷◌, ◌++◌, arith, ◌==◌, if-ne}
use myrest.Text.{Text, onto_head, split}
use myrest.Text.Unicode.{Unicode}
use myrest.Prefer.{Collected, nothing, collect_parts, collect_from, collect}
use myrest.Prefer.Rules.{parse_collected, parse}

onto_head-append :
    (c : ℕ) (ps qs : List Text) → ps ≢ [] → onto_head c (ps ++ qs) ≡ onto_head c ps ++ qs
onto_head-append c [] qs ne = absurd (ne refl)
onto_head-append c (p ∷ ps) qs ne = refl

onto_head-ne-nil : (c : ℕ) (ps : List Text) → onto_head c ps ≢ []
onto_head-ne-nil c [] = cc
onto_head-ne-nil c (p ∷ ps) = cc

pub split-ne-nil : (s : Text) (sep : ℕ) → split s sep ≢ []
unfolding split
split-ne-nil [] sep = cc
split-ne-nil (c ∷ s) sep = if-ne (c == sep) (cc) (onto_head-ne-nil c (split s sep))

split-append : (s t : Text) (sep : ℕ) → split (s ++ sep ∷ t) sep ≡ split s sep ++ split t sep
unfolding split
split-append [] t sep = ground arith
split-append (c ∷ s) t sep = ground (
  arith,
  split-append s t sep,
  onto_head-append c (split s sep) (split t sep) (split-ne-nil s sep),
)

module _ ⦃u : Unicode⦄ where
  pub collect_parts-append :
      (ps qs : List Text) (c : Collected)
      → collect_parts c (ps ++ qs) ≡ collect_parts (collect_parts c ps) qs
  unfolding collect_parts
  collect_parts-append [] qs c = refl
  collect_parts-append (p ∷ ps) qs c = collect_parts-append ps qs _

  pub collect_from-append :
      (hs ks : List Text) (c : Collected)
      → collect_from c (hs ++ ks) ≡ collect_from (collect_from c hs) ks
  unfolding collect_from
  collect_from-append [] ks c = refl
  collect_from-append (h ∷ hs) ks c = collect_from-append hs ks _

  collect_from-comma :
      (before : List Text) (a b : Text) (behind : List Text) (c : Collected)
      → collect_from c (before ++ a ∷ b ∷ behind)
        ≡ collect_from c (before ++ (a ++ b',' ∷ b) ∷ behind)
  unfolding collect_from
  collect_from-comma [] a b behind c =
      ap (λ d. collect_from d behind)
        (sym (collect_parts-append (split a b',') (split b b',') c)
          ∙ ap (collect_parts c) (sym (split-append a b b',')))
  collect_from-comma (h ∷ before) a b behind c = collect_from-comma before a b behind _

  -- Two Prefer lines mean the same as one line that joins them by a comma, wherever they stand
  -- among the lines of the request.
  pub parse-comma :
      (before : List Text) (a b : Text) (behind : List Text)
      → parse (before ++ a ∷ b ∷ behind) ≡ parse (before ++ (a ++ b',' ∷ b) ∷ behind)
  unfolding parse collect
  parse-comma before a b behind = ap parse_collected (collect_from-comma before a b behind nothing)
