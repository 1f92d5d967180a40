-- ===== src/Dict/Lists.antt =====
-- What a map to lists or sets holds after a loop has put values into it.
use myrest.Prelude.{
  Bool, true, false, Option, none, some, ◌≡◌, ◌⊎◌, refl, sym, ap, inl, inr, List, [], ◌∷◌, ◌++◌,
  append_assoc, append-nil, if◌then◌else◌, is_some, Bool-cases, Option-cases, Among, Among-append,
  Among-append_left, Among-append_right, arith,
}
use myrest.Dict.{
  Eq, holds, add, Dict, find, put, or_nil, items, append_at, add_at, gather, put_each,
}
use myrest.Dict.Laws.{
  beq_refl, find-put_same, find-put_other, Among-add, Among-add_new, Among-add_old,
}

module _ {K V : Type 0} ⦃e : Eq K⦄ where
  pub items-put_same : (m : Dict K (List V)) (k : K) (xs : List V) → items (put m k xs) k ≡ xs
  unfolding items
  items-put_same m k xs = ap or_nil (find-put_same m k xs)

  pub items-put_other :
      (m : Dict K (List V)) (k j : K) (xs : List V)
      → e.beq k j ≡ false
      → items (put m k xs) j ≡ items m j
  unfolding items
  items-put_other m k j xs h = ap or_nil (find-put_other m k j xs h)

  pub items-keys :
      (m : Dict K (List V)) (k : K) (v : V) → Among v (items m k) → is_some (find m k) ≡ true
  unfolding items
  items-keys m k v h = elim (Option-cases (find m k)) [
    | inl missing ↦ absurd (rw (missing, Among) at h)
    | inr (xs, e) ↦ rw e refl
  ]

  -- What a way to put one value at a key does to every list of the map.
  pub record PutsOne (at : Dict K (List V) → K → V → Dict K (List V)) : Type 0 where
    pub other :
        (m : Dict K (List V)) (k j : K) (w : V) → e.beq k j ≡ false → items (at m k w) j ≡ items m j
    pub new : (m : Dict K (List V)) (k : K) (w : V) → Among w (items (at m k w) k)
    pub old :
        (m : Dict K (List V)) (k : K) (v w : V) → Among v (items m k) → Among v (items (at m k w) k)
    pub only :
        (m : Dict K (List V)) (k : K) (v w : V)
        → Among v (items (at m k w) k)
        → (v ≡ w) ⊎ Among v (items m k)

  pub append_at-PutsOne : PutsOne append_at
  unfolding append_at
  append_at-PutsOne = record {
    other = λ m k j w h. items-put_other m k j _ h;
    new = λ m k w.
        rw (items-put_same m k (items m k ++ (w ∷ [])))
          (Among-append_right w (items m k) (w ∷ []) (inl refl));
    old = λ m k v w h.
        rw (items-put_same m k (items m k ++ (w ∷ [])))
          (Among-append_left v (items m k) (w ∷ []) h);
    only = λ m k v w h.
        elim (Among-append v (items m k) (w ∷ [])
          (rw (items-put_same m k (items m k ++ (w ∷ []))) at h)) [
            | inl before ↦ inr before
            | inr (inl same) ↦ inl same
            | inr (inr nothing) ↦ absurd nothing
          ];
  }

  pub add_at-PutsOne : ⦃v : Eq V⦄ → PutsOne add_at
  unfolding add_at
  add_at-PutsOne = record {
    other = λ m k j w h. items-put_other m k j _ h;
    new = λ m k w. rw (items-put_same m k (add (items m k) w)) (Among-add_new (items m k) w);
    old =
        λ m k v w h. rw (items-put_same m k (add (items m k) w)) (Among-add_old (items m k) w v h);
    only =
        λ m k v w h. Among-add (items m k) w v (rw (items-put_same m k (add (items m k) w)) at h);
  }

  module _ {F : Type 0} (at : Dict K (List V) → K → V → Dict K (List V)) (puts : PutsOne at)
      (key : F → K) (value : F → V) where
    at-old :
        (m : Dict K (List V)) (k j : K) (v w : V)
        → Among v (items m j)
        → Among v (items (at m k w) j)
    at-old m k j v w h = elim (Bool-cases (e.beq k j)) [
      | inl same ↦ let eq = (e.beq_iff k j).0 same in rw eq (puts.old m j v w h)
      | inr differs ↦ rw (puts.other m k j w differs) h
    ]

    at-only :
        (m : Dict K (List V)) (k j : K) (v w : V)
        → Among v (items (at m k w) j)
        → ((k ≡ j) × (v ≡ w)) ⊎ Among v (items m j)
    at-only m k j v w h = elim (Bool-cases (e.beq k j)) [
      | inl same ↦
          let eq : k ≡ j = (e.beq_iff k j).0 same in
          elim (puts.only m k v w (rw (← eq, Among) at h)) [
            | inl this ↦ inl (eq, this)
            | inr before ↦ inr (rw (← eq) before)
          ]
      | inr differs ↦ inr (rw (puts.other m k j w differs, Among) at h)
    ]

    pub gather-old :
        (facts : List F) (m : Dict K (List V)) (j : K) (v : V)
        → Among v (items m j)
        → Among v (items (gather at key value facts m) j)
    unfolding gather
    gather-old [] m j v h = h
    gather-old (fact ∷ facts) m j v h =
        gather-old facts (at m (key fact) (value fact)) j v (at-old m (key fact) j v (value fact) h)

    pub gather-new :
        (facts : List F) (m : Dict K (List V)) (fact : F)
        → Among fact facts
        → Among (value fact) (items (gather at key value facts m) (key fact))
    unfolding gather
    gather-new [] m fact h = absurd h
    gather-new (first ∷ facts) m fact (inl same) = rw same (
        gather-old facts (at m (key first) (value first)) (key first) (value first)
          (puts.new m (key first) (value first)))
    gather-new (first ∷ facts) m fact (inr later) =
        gather-new facts (at m (key first) (value first)) fact later

    pub gather-only :
        (facts : List F) (m : Dict K (List V)) (j : K) (v : V)
        → Among v (items (gather at key value facts m) j)
        → ((fact : F) × (Among fact facts) × (key fact ≡ j) × (v ≡ value fact))
          ⊎ Among v (items m j)
    unfolding gather
    gather-only [] m j v h = inr h
    gather-only (first ∷ facts) m j v h =
        elim (gather-only facts (at m (key first) (value first)) j v h) [
          | inl (fact, among, same_key, same) ↦ inl (fact, inr among, same_key, same)
          | inr now ↦ elim (at-only m (key first) j v (value first) now) [
            | inl (same_key, same) ↦ inl (first, inl refl, same_key, same)
            | inr before ↦ inr before
          ]
        ]

abbrev pub or_else : {A : Type 0} → Option A → Option A → Option A
or_else none b = b
or_else (some a) b = some a

-- The values of the facts of one key, in order.
module _ {K V F : Type 0} ⦃e : Eq K⦄ (key : F → K) (value : F → V) where
  abbrev pub values_at : List F → K → List V
  values_at [] j = []
  values_at (fact ∷ facts) j =
      let rest = values_at facts j in if e.beq (key fact) j then value fact ∷ rest else rest

  pub gather-values_at :
      (facts : List F) (m : Dict K (List V)) (j : K)
      → items (gather append_at key value facts m) j ≡ items m j ++ values_at facts j
  unfolding gather append_at
  gather-values_at [] m j = sym (append-nil (items m j))
  gather-values_at (fact ∷ facts) m j = elim (Bool-cases (e.beq (key fact) j)) [
    | inl same ↦
        let eq : key fact ≡ j = (e.beq_iff (key fact) j).0 same in
        rw
          (
            gather-values_at facts (append_at m (key fact) (value fact)) j,
            same,
            eq,
            items-put_same m j (items m j ++ (value fact ∷ [])),
          )
          (append_assoc (items m j) (value fact ∷ []) (values_at facts j))
    | inr differs ↦
        rw
          (
            gather-values_at facts (append_at m (key fact) (value fact)) j,
            differs,
            items-put_other m (key fact) j (items m (key fact) ++ (value fact ∷ [])) differs,
          )
          refl
  ]

  -- The value of the last fact of one key.
  abbrev pub last_at : List F → K → Option V
  last_at [] j = none
  last_at (fact ∷ facts) j =
      or_else (last_at facts j) (if e.beq (key fact) j then some (value fact) else none)

  pub put_each-last_at :
      (facts : List F) (m : Dict K V) (j : K)
      → find (put_each key value facts m) j ≡ or_else (last_at facts j) (find m j)
  unfolding put_each
  put_each-last_at [] m j = refl
  put_each-last_at (fact ∷ facts) m j =
      rw (put_each-last_at facts (put m (key fact) (value fact)) j) (step (last_at facts j))
    where
      step :
          (later : Option V)
          → or_else later (find (put m (key fact) (value fact)) j)
            ≡ or_else
                (or_else later (if e.beq (key fact) j then some (value fact) else none))
                (find m j)
      step (some v) = refl
      step none = elim (Bool-cases (e.beq (key fact) j)) [
        | inl same ↦
            let eq : key fact ≡ j = (e.beq_iff (key fact) j).0 same in
            rw (same, eq, find-put_same m j (value fact)) refl
        | inr differs ↦ rw (differs, find-put_other m (key fact) j (value fact) differs) refl
      ]

  pub last_at-Among :
      (facts : List F) (j : K) {v : V}
      → last_at facts j ≡ some v
      → (fact : F) × (Among fact facts) × (key fact ≡ j) × (v ≡ value fact)
  last_at-Among [] j h = cc
  last_at-Among (fact ∷ facts) j h = elim (Option-cases (last_at facts j)) [
    | inl nothing ↦ elim (Bool-cases (e.beq (key fact) j)) [
      | inl same ↦ (fact, inl refl, (e.beq_iff (key fact) j).0 same, ground arith)
      | inr differs ↦ ground arith
    ]
    | inr (w, found) ↦
        let (f, among, same_key, same) = last_at-Among facts j found in
        (f, inr among, same_key, ground arith)
  ]

module _ {K V F : Type 0} ⦃e : Eq K⦄ (key : F → K) (value : F → V) where
  pub last_at-some :
      (facts : List F) (fact : F)
      → Among fact facts
      → (v : V) × (last_at key value facts (key fact) ≡ some v)
  last_at-some [] fact m = absurd m
  last_at-some (first ∷ facts) fact (inl same) =
      elim (Option-cases (last_at key value facts (key first))) [
        | inl nothing ↦ (value first, rw (same, nothing, beq_refl (key first)) refl)
        | inr (v, later) ↦ (v, rw (same, later) refl)
      ]
  last_at-some (first ∷ facts) fact (inr m) =
      let (v, later) = last_at-some facts fact m in (v, rw later refl)

module _ {K V : Type 0} ⦃e : Eq K⦄ (value : K → V) where
  pub last_at-holds :
      (ids : List K) (id : K)
      → last_at (λ (i : K). i) value ids id ≡ (if holds ids id then some (value id) else none)
  unfolding holds
  last_at-holds [] id = refl
  last_at-holds (first ∷ ids) id = rw (last_at-holds ids id) (elim (Bool-cases (e.beq first id)) [
    | inl same ↦
        let eq : first ≡ id = (e.beq_iff first id).0 same in rw (same, eq) (either (holds ids id))
    | inr differs ↦ rw differs (keep (holds ids id))
  ])
    where
      either :
          (b : Bool)
          → or_else (if b then some (value id) else none) (some (value id)) ≡ some (value id)
      either true = refl
      either false = refl

      keep :
          (b : Bool)
          → or_else (if b then some (value id) else none) none
            ≡ (if b then some (value id) else none)
      keep true = refl
      keep false = refl
