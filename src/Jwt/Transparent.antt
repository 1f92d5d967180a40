-- ===== src/Jwt/Transparent.antt =====
-- The token cache changes no answer.
use myrest.Prelude.{
  All-Among, ℕ, ◌≡◌, refl, ap, inl, inr, Option, none, some, subst, List, [], ◌∷◌, ◌==◌, Result, ok,
  err, ◌>>=◌, Bool-cases,
}
use myrest.Text.{Text}
use myrest.Dict.{text_eq}
use myrest.Dict.Laws.{find-Among}
use myrest.Json.{Fields}
use myrest.Jwt.{JwtFailure, Floats, role_claim}
use myrest.Jwt.Verifier.{
  TokenCache, new_token_cache, get, Verifier, verify_signature, checked, check_token_shape,
  parse_fresh, parse_cached, parse_shaped, parse_token, role_of_claim, role, roles,
}
use myrest.Jwt.Bounded.{IsSound, IsVerified, role-IsSound, new_token_cache-IsSound}

abbrev IfSome : {A : Type 0} → Type 0 → Option A → Type 0
IfSome B none = Unit
IfSome B (some a) = B

none-some : {A B : Type 0} {a : A} → none ≡ some a → B
none-some {B = B} h = subst (IfSome B) h tt

module _ ⦃f : Floats⦄ (v : Verifier) where
  -- The answer of a verifier that checks every token anew.
  abbrev pub parse_anew : ℕ → Text → Result JwtFailure Fields
  parse_anew now token = do
    shaped ← check_token_shape token
    claims ← verify_signature v token
    checked v now claims

  abbrev pub role_anew : ℕ → Text → Result JwtFailure Text
  role_anew now token = do
    claims ← parse_anew now token
    role_of_claim v (role_claim claims v.role_claim_key)

  abbrev pub roles_anew : List (ℕ × Text) → List (Result JwtFailure Text)
  roles_anew [] = []
  roles_anew ((now, token) ∷ requests) = role_anew now token ∷ roles_anew requests

  get-IsVerified :
      (cache : TokenCache) (token : Text) {claims : Fields}
      → IsSound (IsVerified v) cache
      → get cache token ≡ some claims
      → IsVerified v (token, claims)
  unfolding get
  get-IsVerified cache token s h = elim (Bool-cases (cache.max == 0)) [
    | inl off ↦ none-some (rw off at h)
    | inr on ↦
        All-Among (IsVerified v) (token, _) cache.entries s.all
          (find-Among cache.entries token (rw on at h))
  ]

  parse_fresh-checked :
      (verified : Result JwtFailure Fields) (now : ℕ) (cache : TokenCache) (token : Text)
      → (parse_fresh v verified now cache token).0 ≡ (verified >>= λ claims. checked v now claims)
  unfolding parse_fresh
  parse_fresh-checked (err e) now cache token = refl
  parse_fresh-checked (ok claims) now cache token = refl

  parse_cached-verify_signature :
      (hit : Option Fields) (now : ℕ) (cache : TokenCache) (token : Text)
      → get cache token ≡ hit
      → IsSound (IsVerified v) cache
      → (parse_cached v hit now cache token).0
        ≡ (verify_signature v token >>= λ claims. checked v now claims)
  unfolding parse_cached
  parse_cached-verify_signature (some claims) now cache token h s =
      rw (get-IsVerified cache token s h).1 refl
  parse_cached-verify_signature none now cache token h s =
      parse_fresh-checked (verify_signature v token) now cache token

  parse_shaped-parse_anew :
      (shape : Result JwtFailure (Unit {0})) (now : ℕ) (cache : TokenCache) (token : Text)
      → check_token_shape token ≡ shape
      → IsSound (IsVerified v) cache
      → (parse_shaped v shape now cache token).0 ≡ parse_anew now token
  unfolding parse_shaped
  parse_shaped-parse_anew (err e) now cache token h s = rw h refl
  parse_shaped-parse_anew (ok tt) now cache token h s =
      rw h (parse_cached-verify_signature (get cache token) now cache token refl s)

  pub role-role_anew :
      (now : ℕ) (cache : TokenCache) (token : Text)
      → IsSound (IsVerified v) cache
      → (role v now cache token).0 ≡ role_anew now token
  unfolding role parse_token
  role-role_anew now cache token s =
      ap (λ r. r >>= λ claims. role_of_claim v (role_claim claims v.role_claim_key))
        (parse_shaped-parse_anew (check_token_shape token) now cache token refl s)

  roles-roles_anew :
      (requests : List (ℕ × Text)) (cache : TokenCache)
      → IsSound (IsVerified v) cache
      → (roles v requests cache).0 ≡ roles_anew requests
  unfolding roles
  roles-roles_anew [] cache s = refl
  roles-roles_anew ((now, token) ∷ requests) cache s = rw (role-role_anew now cache token s) (
      ap (◌∷◌ (role_anew now token))
        (roles-roles_anew requests (role v now cache token).1 (role-IsSound v now cache token s)))

  -- For every verifier, bound and run of requests from an empty cache: the answers are those of a
  -- verifier that has no cache, and checks the shape, the signature and the claims of every token.
  pub roles-anew :
      (requests : List (ℕ × Text)) (max : ℕ)
      → (roles v requests (new_token_cache max)).0 ≡ roles_anew requests
  roles-anew requests max =
      roles-roles_anew requests (new_token_cache max) (new_token_cache-IsSound (IsVerified v) max)
