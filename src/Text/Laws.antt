-- ===== src/Text/Laws.antt =====
-- Laws of the text functions.

use myrest.Prelude.{
  ℕ, ◌+◌, ◌≡◌, ◌↔◌, refl, ap, ◌∙◌, true, false, some, [], ◌∷◌, ◌++◌, arith, length, length-append,
  inl, inr, Option-cases, Bool-cases,
}
use myrest.Text.{Text, equal, cut_prefix, cut_suffix}

pub equal_iff : (a b : Text) → (equal a b ≡ true) ↔ (a ≡ b)
unfolding equal
equal_iff (x ∷ a) (y ∷ b) = ground (arith, equal_iff a b)
equal_iff _ _ = ground arith

pub equal_refl : (a : Text) → equal a a ≡ true
equal_refl a = (equal_iff a a).1 refl

pub cut_prefix-eq-some : (s p : Text) {t : Text} → cut_prefix s p ≡ some t → s ≡ p ++ t
unfolding cut_prefix
cut_prefix-eq-some s [] h = ground arith
cut_prefix-eq-some [] (d ∷ p) h = cc
cut_prefix-eq-some (c ∷ s) (d ∷ p) {t} h = ground (arith, cut_prefix-eq-some s p {t = t})

pub cut_prefix-append : (p t : Text) → cut_prefix (p ++ t) p ≡ some t
unfolding cut_prefix
cut_prefix-append [] t = refl
cut_prefix-append (d ∷ p) t = ground (arith, cut_prefix-append p t)

pub cut_suffix-eq-some : (s p : Text) {t : Text} → cut_suffix s p ≡ some t → s ≡ t ++ p
unfolding cut_suffix
cut_suffix-eq-some [] p {t} h = ground (arith, equal_iff [] p)
cut_suffix-eq-some (c ∷ s) p {t} h = elim (Option-cases (cut_suffix s p)) [
  | inl e ↦ ground (arith, equal_iff (c ∷ s) p)
  | inr (u, e) ↦ ground (arith, equal_iff (c ∷ s) p, cut_suffix-eq-some s p {t = u} e)
]

append-ne-tail : (c : ℕ) (t p : Text) → equal (c ∷ (t ++ p)) p ≡ false
append-ne-tail c t p = elim (Bool-cases (equal (c ∷ (t ++ p)) p)) [
  | inl e ↦ absurd (omega (arith, ap length ((equal_iff (c ∷ (t ++ p)) p).0 e), length-append t p))
  | inr e ↦ e
]

pub cut_suffix-append : (t p : Text) → cut_suffix (t ++ p) p ≡ some t
unfolding cut_suffix
cut_suffix-append [] [] = refl
cut_suffix-append [] (d ∷ p) = ground (arith, equal_refl (d ∷ p))
cut_suffix-append (c ∷ t) p = ground (arith, append-ne-tail c t p, cut_suffix-append t p)

pub length-cut_suffix :
    (s p : Text) {t : Text} → cut_suffix s p ≡ some t → length s ≡ length t + length p
length-cut_suffix s p {t} h = ap length (cut_suffix-eq-some s p h) ∙ length-append t p

pub length-cut_prefix :
    (s p : Text) {t : Text} → cut_prefix s p ≡ some t → length s ≡ length p + length t
length-cut_prefix s p {t} h = ap length (cut_prefix-eq-some s p h) ∙ length-append p t
