-- ===== src/Dict/Laws.antt =====
-- The laws of maps and sets.
use myrest.Prelude.{
  true, false, ◌≡◌, ◌≢◌, ◌⊎◌, refl, sym, ◌∙◌, inl, inr, none, some, List, [], ◌∷◌, ◌++◌, ap,
  is_some, Bool-cases, arith, Among,
}
use myrest.Dict.{Eq, holds, add, add_all, Dict, keys, find, put, remove}

module _ {A : Type 0} ⦃e : Eq A⦄ where
  pub beq_refl : (a : A) → e.beq a a ≡ true
  beq_refl a = (e.beq_iff a a).1 refl

  pub beq-false : (a b : A) → a ≢ b → e.beq a b ≡ false
  beq-false a b h = elim (Bool-cases (e.beq a b)) [
    | inl same ↦ absurd (h ((e.beq_iff a b).0 same))
    | inr differs ↦ differs
  ]

  pub holds-Among : (xs : List A) (a : A) → holds xs a ≡ true → Among a xs
  unfolding holds
  holds-Among [] a h = cc
  holds-Among (x ∷ xs) a h = elim (Bool-cases (e.beq x a)) [
    | inl same ↦ inl (sym ((e.beq_iff x a).0 same))
    | inr differs ↦ inr (holds-Among xs a (rw differs at h))
  ]

  pub Among-holds : (xs : List A) (a : A) → Among a xs → holds xs a ≡ true
  unfolding holds
  Among-holds [] a h = absurd h
  Among-holds (x ∷ xs) a (inl h) = rw (h, beq_refl x) refl
  Among-holds (x ∷ xs) a (inr h) = ground (arith, Among-holds xs a h)

  pub Among-add_new : (xs : List A) (a : A) → Among a (add xs a)
  unfolding add
  Among-add_new xs a = elim (Bool-cases (holds xs a)) [
    | inl old ↦ rw old (holds-Among xs a old)
    | inr new ↦ rw new (inl refl)
  ]

  pub Among-add_old : (xs : List A) (a b : A) → Among b xs → Among b (add xs a)
  unfolding add
  Among-add_old xs a b h = elim (Bool-cases (holds xs a)) [
    | inl old ↦ rw old h
    | inr new ↦ rw new (inr h)
  ]

  pub Among-add : (xs : List A) (a b : A) → Among b (add xs a) → (b ≡ a) ⊎ Among b xs
  unfolding add
  Among-add xs a b h = elim (Bool-cases (holds xs a)) [
    | inl old ↦ inr (rw old at h)
    | inr new ↦ rw new at h
  ]

  pub Among-add_all_old : (new xs : List A) (b : A) → Among b xs → Among b (add_all new xs)
  unfolding add_all
  Among-add_all_old [] xs b h = h
  Among-add_all_old (a ∷ new) xs b h = Among-add_all_old new (add xs a) b (Among-add_old xs a b h)

  pub Among-add_all_new : (new xs : List A) (b : A) → Among b new → Among b (add_all new xs)
  unfolding add_all
  Among-add_all_new [] xs b h = absurd h
  Among-add_all_new (a ∷ new) xs b (inl h) =
      Among-add_all_old new (add xs a) b (rw h (Among-add_new xs a))
  Among-add_all_new (a ∷ new) xs b (inr h) = Among-add_all_new new (add xs a) b h

  pub Among-add_all :
      (new xs : List A) (b : A) → Among b (add_all new xs) → Among b new ⊎ Among b xs
  unfolding add_all
  Among-add_all [] xs b h = inr h
  Among-add_all (a ∷ new) xs b h = elim (Among-add_all new (add xs a) b h) [
    | inl later ↦ inl (inr later)
    | inr h' ↦ elim (Among-add xs a b h') [ inl now ↦ inl (inl now) | inr old ↦ inr old ]
  ]

  -- A set made of a list holds what the list holds.
  pub holds-add_all : (xs : List A) (a : A) → holds (add_all xs []) a ≡ holds xs a
  holds-add_all xs a = elim (Bool-cases (holds xs a)) [
    | inl held ↦
        Among-holds (add_all xs []) a (Among-add_all_new xs [] a (holds-Among xs a held)) ∙ sym held
    | inr not_held ↦ elim (Bool-cases (holds (add_all xs []) a)) [
      | inl made ↦ elim (Among-add_all xs [] a (holds-Among (add_all xs []) a made)) [
        | inl among ↦ made ∙ sym (Among-holds xs a among)
        | inr nothing ↦ absurd nothing
      ]
      | inr not_made ↦ not_made ∙ sym not_held
    ]
  ]

module _ {K V : Type 0} ⦃e : Eq K⦄ where
  pub find-put_same : (m : Dict K V) (k : K) (w : V) → find (put m k w) k ≡ some w
  unfolding find put
  find-put_same [] k w = rw (beq_refl k) refl
  find-put_same ((j, v) ∷ m) k w = elim (Bool-cases (e.beq j k)) [
    | inl same ↦ rw (same, same) refl
    | inr differs ↦ rw (differs, differs) (find-put_same m k w)
  ]

  pub find-put_other :
      (m : Dict K V) (k i : K) (w : V) → e.beq k i ≡ false → find (put m k w) i ≡ find m i
  unfolding find put
  find-put_other [] k i w h = rw h refl
  find-put_other ((j, v) ∷ m) k i w h = elim (Bool-cases (e.beq j k)) [
    | inl same ↦
        let eq : j ≡ k = (e.beq_iff j k).0 same in
        let no : e.beq j i ≡ false = rw eq h in rw (same, no) refl
    | inr differs ↦ elim (Bool-cases (e.beq j i)) [
      | inl here ↦ rw (differs, here) refl
      | inr there ↦ rw (differs, there) (find-put_other m k i w h)
    ]
  ]

  pub find-keys : (m : Dict K V) (k : K) → is_some (find m k) ≡ holds (keys m) k
  unfolding find keys holds
  find-keys [] k = refl
  find-keys ((j, v) ∷ m) k = elim (Bool-cases (e.beq j k)) [
    | inl same ↦ rw same refl
    | inr differs ↦ rw differs (find-keys m k)
  ]

  pub remove_first : (k : K) (v : V) (m : Dict K V) → remove ((k, v) ∷ m) k ≡ m
  unfolding remove
  remove_first k v m = rw (beq_refl k) refl

  pub find-tail :
      (j : K) (v : V) (m : Dict K V) (k : K) → find ((j, v) ∷ m) k ≡ none → find m k ≡ none
  unfolding find
  find-tail j v m k h = elim (Bool-cases (e.beq j k)) [
    | inl same ↦ ground arith
    | inr differs ↦ rw differs at h
  ]

  -- A new key comes behind the others.
  pub put-append : (m : Dict K V) (k : K) (w : V) → find m k ≡ none → put m k w ≡ m ++ ((k, w) ∷ [])
  unfolding find put
  put-append [] k w h = refl
  put-append ((j, v) ∷ m) k w h = elim (Bool-cases (e.beq j k)) [
    | inl same ↦ ground arith
    | inr differs ↦ rw differs (ap (◌∷◌ (j, v)) (put-append m k w (rw differs at h)))
  ]

  pub keys-append : (m n : Dict K V) → keys (m ++ n) ≡ keys m ++ keys n
  unfolding keys
  keys-append [] n = refl
  keys-append ((k, v) ∷ m) n = ap (◌∷◌ k) (keys-append m n)

  pub find-Among : (m : Dict K V) (k : K) {v : V} → find m k ≡ some v → Among (k, v) m
  unfolding find
  find-Among [] k h = cc
  find-Among ((j, w) ∷ m) k h = elim (Bool-cases (e.beq j k)) [
    | inl same ↦
        let eq : j ≡ k = (e.beq_iff j k).0 same in let value = rw same at h in inl (ground arith)
    | inr differs ↦ inr (find-Among m k (rw differs at h))
  ]
