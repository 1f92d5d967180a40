-- ===== src/Schema/Expand.antt =====
-- The map of the privileges of all roles gives each role what it reaches.
use myrest.Prelude.{
  ◌≡◌, ◌↔◌, ◌⊎◌, inl, inr, refl, sym, ◌∙◌, true, none, some, List, [], ◌∷◌, is_some, if◌then◌else◌,
  Bool-cases, Among, if-both,
}
use myrest.Text.{Text}
use myrest.Dict.{text_eq, Eq, Dict, holds, keys, find, put, items}
use myrest.Dict.Laws.{holds-Among, Among-holds, find-put_same, find-put_other, find-keys}
use myrest.Dict.Lists.{items-keys}
use myrest.Schema.Grants.{held_by, expand_roles, expand_missing, expand}
use myrest.Schema.Walk.{Reaches, own, via, held_by-Reaches, Reaches-held_by}

module _ {P : Type 0} ⦃e : Eq P⦄ (granted : Dict Text (List Text))
    (direct : Dict Text (List P)) where
  -- A map holds what the walk finds, for every role that it holds.
  IsWalked : Dict Text (List P) → Type 0
  IsWalked found =
      (role : Text)
      → (find found role ≡ none) ⊎ (find found role ≡ some (held_by granted direct role))

  put-IsWalked :
      (found : Dict Text (List P)) (role : Text)
      → IsWalked found
      → IsWalked (put found role (held_by granted direct role))
  unfolding IsWalked
  put-IsWalked found role h r = elim (Bool-cases (text_eq.beq role r)) [
    | inl same ↦
        let eq : role ≡ r = (text_eq.beq_iff role r).0 same in
        inr (rw eq (find-put_same found r (held_by granted direct r)))
    | inr differs ↦ rw (find-put_other found role r (held_by granted direct role) differs) (h r)
  ]

  expand_roles-IsWalked :
      (roles : List Text) (found : Dict Text (List P))
      → IsWalked found
      → IsWalked (expand_roles granted direct roles found)
  unfolding expand_roles
  expand_roles-IsWalked [] found h = h
  expand_roles-IsWalked (role ∷ roles) found h =
      expand_roles-IsWalked roles _ (put-IsWalked found role h)

  expand_missing-IsWalked :
      (roles : List Text) (found : Dict Text (List P))
      → IsWalked found
      → IsWalked (expand_missing granted direct roles found)
  unfolding expand_missing
  expand_missing-IsWalked [] found h = h
  expand_missing-IsWalked (role ∷ roles) found h =
      expand_missing-IsWalked roles _
        (if-both IsWalked (is_some (find found role)) h (put-IsWalked found role h))

  find-put_kept :
      (found : Dict Text (List P)) (k r : Text) (xs : List P)
      → is_some (find found r) ≡ true
      → is_some (find (put found k xs) r) ≡ true
  find-put_kept found k r xs h = elim (Bool-cases (text_eq.beq k r)) [
    | inl same ↦
        let eq : k ≡ r = (text_eq.beq_iff k r).0 same in rw (eq, find-put_same found r xs) refl
    | inr differs ↦ rw (find-put_other found k r xs differs) h
  ]

  expand_roles-kept :
      (roles : List Text) (found : Dict Text (List P)) (r : Text)
      → (is_some (find found r) ≡ true) ⊎ Among r roles
      → is_some (find (expand_roles granted direct roles found) r) ≡ true
  unfolding expand_roles
  expand_roles-kept [] found r (inl h) = h
  expand_roles-kept [] found r (inr m) = absurd m
  expand_roles-kept (role ∷ roles) found r (inl h) =
      expand_roles-kept roles _ r (inl (find-put_kept found role r _ h))
  expand_roles-kept (role ∷ roles) found r (inr (inl same)) =
      expand_roles-kept roles _ r
        (inl (rw (same, find-put_same found role (held_by granted direct role)) refl))
  expand_roles-kept (role ∷ roles) found r (inr (inr later)) =
      expand_roles-kept roles _ r (inr later)

  abbrev HasRole : Text → Dict Text (List P) → Type 0
  HasRole r found = is_some (find found r) ≡ true

  added :
      (found : Dict Text (List P)) (role : Text) (xs : List P)
      → HasRole role (if is_some (find found role) then found else put found role xs)
  added found role xs = elim (Bool-cases (is_some (find found role))) [
    | inl held ↦ rw (held, held) refl
    | inr missing ↦ rw (missing, find-put_same found role xs) refl
  ]

  expand_missing-kept :
      (roles : List Text) (found : Dict Text (List P)) (r : Text)
      → (is_some (find found r) ≡ true) ⊎ Among r roles
      → is_some (find (expand_missing granted direct roles found) r) ≡ true
  unfolding expand_missing
  expand_missing-kept [] found r (inl h) = h
  expand_missing-kept [] found r (inr m) = absurd m
  expand_missing-kept (role ∷ roles) found r (inl h) =
      expand_missing-kept roles _ r
        (inl (if-both (HasRole r) (is_some (find found role)) h (find-put_kept found role r _ h)))
  expand_missing-kept (role ∷ roles) found r (inr (inl same)) =
      expand_missing-kept roles _ r (inl (rw same (added found role _)))
  expand_missing-kept (role ∷ roles) found r (inr (inr later)) =
      expand_missing-kept roles _ r (inr later)

  expand-IsWalked : IsWalked (expand granted direct)
  unfolding expand IsWalked find
  expand-IsWalked =
      expand_missing-IsWalked (keys direct) _
        (expand_roles-IsWalked (keys granted) [] (λ role. inl refl))

  expand-HasRole :
      (role : Text)
      → (is_some (find granted role) ≡ true) ⊎ (is_some (find direct role) ≡ true)
      → HasRole role (expand granted direct)
  unfolding expand
  expand-HasRole role (inl holder) = expand_missing-kept (keys direct) _ role (
      inl (
        expand_roles-kept (keys granted) [] role
          (inr (holds-Among (keys granted) role (sym (find-keys granted role) ∙ holder)))))
  expand-HasRole role (inr owner) =
      expand_missing-kept (keys direct) _ role
        (inr (holds-Among (keys direct) role (sym (find-keys direct role) ∙ owner)))

  Reaches-known :
      (role : Text) (p : P)
      → Reaches granted direct p role
      → (is_some (find granted role) ≡ true) ⊎ (is_some (find direct role) ≡ true)
  Reaches-known role p (own m) = inr (items-keys direct role p m)
  Reaches-known role p (via m rest) = inl (items-keys granted role _ m)

  items-some :
      (m : Dict Text (List P)) (role : Text) {xs : List P}
      → find m role ≡ some xs
      → items m role ≡ xs
  unfolding items
  items-some m role e = rw e refl

  items-none : (m : Dict Text (List P)) (role : Text) → find m role ≡ none → items m role ≡ []
  unfolding items
  items-none m role e = rw e refl

  expand-items :
      (role : Text) (p : P)
      → Among p (items (expand granted direct) role)
      → Reaches granted direct p role
  unfolding IsWalked
  expand-items role p m = elim (expand-IsWalked role) [
    | inl missing ↦ absurd (rw (items-none _ role missing, Among) at m)
    | inr walked ↦ held_by-Reaches granted direct role p (rw (items-some _ role walked, Among) at m)
  ]

  items-expand :
      (role : Text) (p : P)
      → Reaches granted direct p role
      → Among p (items (expand granted direct) role)
  unfolding IsWalked
  items-expand role p r = elim (expand-IsWalked role) [
    | inl missing ↦ let known = expand-HasRole role (Reaches-known role p r) in cc
    | inr walked ↦ rw (items-some _ role walked) (Reaches-held_by granted direct role p r)
  ]

  -- The map of all roles gives a role what it reaches.
  pub expand-Reaches :
      (role : Text) (p : P)
      → (holds (items (expand granted direct) role) p ≡ true) ↔ Reaches granted direct p role
  expand-Reaches role p =
      (λ h. expand-items role p (holds-Among _ p h), λ r. Among-holds _ p (items-expand role p r))
