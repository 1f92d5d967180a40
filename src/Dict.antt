-- ===== src/Dict.antt =====
-- Go's maps and sets, and the equality tests of their keys. A map is the list of its pairs, in the
-- order in which their keys came first; Go leaves the order of a walk over a map open.
pub mod Laws
pub mod Pairs
pub mod Lists
use myrest.Prelude.{
  Bool, true, false, ◌||◌, ◌≡◌, ◌↔◌, ◌⊎◌, inl, inr, Option, none, some, List, [], ◌∷◌, ◌++◌,
  is_some, if◌then◌else◌,
}
use myrest.Text.{Text, equal}
use myrest.Text.Laws.{equal_iff}

pub record Eq {ℓ} (A : Type ℓ) : Type ℓ where
  pub beq : A → A → Bool
  pub beq_iff : (a b : A) → (beq a b ≡ true) ↔ (a ≡ b)

instance abbrev pub text_eq : Eq Text
text_eq = record { beq = equal; beq_iff = equal_iff }

module _ {A : Type 0} ⦃e : Eq A⦄ where
  -- A set is the list of its members.
  unfoldable pub holds : List A → A → Bool
  holds [] a = false
  holds (x ∷ xs) a = e.beq x a || holds xs a

  unfoldable pub add : List A → A → List A
  add xs a = if holds xs a then xs else a ∷ xs

  unfoldable pub add_all : List A → List A → List A
  add_all [] xs = xs
  add_all (a ∷ new) xs = add_all new (add xs a)

abbrev pub Dict : Type 0 → Type 0 → Type 0
Dict K V = List (K × V)

module _ {K V : Type 0} where
  unfoldable pub keys : Dict K V → List K
  keys [] = []
  keys ((k, _) ∷ m) = k ∷ keys m

module _ {K V : Type 0} ⦃e : Eq K⦄ where
  unfoldable pub find : Dict K V → K → Option V
  find [] k = none
  find ((j, v) ∷ m) k = if e.beq j k then some v else find m k

  unfoldable pub put : Dict K V → K → V → Dict K V
  put [] k w = (k, w) ∷ []
  put ((j, v) ∷ m) k w = if e.beq j k then (j, w) ∷ m else (j, v) ∷ put m k w

  -- delete(m, k)
  unfoldable pub remove : Dict K V → K → Dict K V
  remove [] k = []
  remove ((j, v) ∷ m) k = let rest = remove m k in if e.beq j k then m else (j, v) ∷ rest

abbrev pub or_nil : {A : Type 0} → Option (List A) → List A
or_nil none = []
or_nil (some xs) = xs

module _ {K V : Type 0} ⦃e : Eq K⦄ where
  -- m[k] of a map to lists or sets: the zero value of a missing key is empty.
  unfoldable pub items : Dict K (List V) → K → List V
  items m k = or_nil (find m k)

  -- m[k] = append(m[k], v).
  unfoldable pub append_at : Dict K (List V) → K → V → Dict K (List V)
  append_at m k v = put m k (items m k ++ (v ∷ []))

  module _ ⦃v : Eq V⦄ where
    -- m[k][v] = true, with a set made for a missing key.
    unfoldable pub add_at : Dict K (List V) → K → V → Dict K (List V)
    add_at m k v = put m k (add (items m k) v)

  -- A loop over facts that puts each value at its key.
  unfoldable pub gather :
      {F : Type 0}
      → (Dict K (List V) → K → V → Dict K (List V))
      → (F → K)
      → (F → V)
      → List F
      → Dict K (List V)
      → Dict K (List V)
  gather at key value [] m = m
  gather at key value (fact ∷ facts) m = gather at key value facts (at m (key fact) (value fact))

module _ {K V F : Type 0} ⦃e : Eq K⦄ (key : F → K) (value : F → V) where
  -- A loop over facts that sets the value of each key: the last fact of a key stays.
  unfoldable pub put_each : List F → Dict K V → Dict K V
  put_each [] m = m
  put_each (fact ∷ facts) m = put_each facts (put m (key fact) (value fact))
