-- ===== src/Dict/Pairs.antt =====
-- The equality of a structure with two fields, as Go compares structures.
use myrest.Prelude.{Bool, true, ◌&&◌, ◌≡◌, refl, arith}
use myrest.Dict.{Eq}
use myrest.Dict.Laws.{beq_refl}

module _ {A X Y : Type 0} ⦃x : Eq X⦄ ⦃y : Eq Y⦄ (first : A → X) (second : A → Y) (make : X → Y → A)
    (eta : (a : A) → make (first a) (second a) ≡ a) where
  abbrev pub pair_beq : A → A → Bool
  pair_beq a b = x.beq (first a) (first b) && y.beq (second a) (second b)

  pub pair_beq-eq : (a b : A) → pair_beq a b ≡ true → a ≡ b
  pair_beq-eq a b h =
      let p : first a ≡ first b = (x.beq_iff (first a) (first b)).0 (ground arith) in
      let q : second a ≡ second b = (y.beq_iff (second a) (second b)).0 (ground arith) in
      let ea = eta a in let eb = eta b in cc

  pub pair_beq_refl : (a b : A) → a ≡ b → pair_beq a b ≡ true
  pair_beq_refl a b e = rw (e, beq_refl (first b), beq_refl (second b)) refl

  abbrev pub pair_eq : Eq A
  pair_eq = record { beq = pair_beq; beq_iff = λ a b. (pair_beq-eq a b, pair_beq_refl a b) }
