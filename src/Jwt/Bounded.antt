-- ===== src/Jwt/Bounded.antt =====
-- The token cache stays within its bound, in step with its order, and holds what was verified.
use myrest.Prelude.{
  ℕ, ◌≤◌, ◌<◌, ◌≡◌, refl, sym, ap, ◌∙◌, subst, inl, inr, false, Option, none, some, List, [], ◌∷◌,
  ◌++◌, ◌==◌, length, length-append, Result, ok, err, arith, Bool-cases, Option-cases, All,
  All-append,
}
use myrest.Text.{Text}
use myrest.Dict.{text_eq, Dict, keys, find}
use myrest.Dict.Laws.{remove_first, find-tail, put-append, keys-append}
use myrest.Json.{Fields}
use myrest.Jwt.{JwtFailure, Floats}
use myrest.Jwt.Verifier.{
  TokenCache, new_token_cache, get, is_full, evict, added, put_token, Verifier, verify_signature,
  check_token_shape, parse_fresh, parse_cached, parse_shaped, parse_token, role, roles,
}

is_full-false :
    (entries : Dict Text Fields) (max : ℕ) → is_full max entries ≡ false → length entries < max
unfolding is_full
is_full-false entries max h = ground arith

module _ (P : Text × Fields → Type 0) where
  -- What an eviction leaves: room for one entry, and nothing new.
  record HasRoom (max : ℕ) (before : Dict Text Fields) (after : List Text × Dict Text Fields)
      : Type 0 where
    in_step : after.0 ≡ keys after.1
    room : length after.1 < max
    kept : All P after.1
    absent : (token : Text) → find before token ≡ none → find after.1 token ≡ none

  HasRoom-tail :
      (k : Text) (v : Fields) (m : Dict Text Fields) (max : ℕ)
      (after : List Text × Dict Text Fields)
      → HasRoom max m after
      → HasRoom max ((k, v) ∷ m) after
  HasRoom-tail k v m max after r = record {
    in_step = r.in_step;
    room = r.room;
    kept = r.kept;
    absent = λ token e. r.absent token (find-tail k v m token e);
  }

  evict-HasRoom :
      (entries : Dict Text Fields) (max : ℕ)
      → 0 < max
      → All P entries
      → HasRoom max entries (evict (keys entries) max entries)
  unfolding evict keys
  evict-HasRoom [] max positive h = record {
    in_step = refl;
    room = positive;
    kept = tt;
    absent = λ token e. e;
  }
  evict-HasRoom ((k, v) ∷ m) max positive h = elim (Bool-cases (is_full max ((k, v) ∷ m))) [
    | inl full ↦
        rw (full, evict, remove_first k v m)
          (HasRoom-tail k v m max _ (evict-HasRoom m max positive h.1))
    | inr room ↦
        rw (room, evict)
          (record {
            in_step = refl;
            room = is_full-false ((k, v) ∷ m) max room;
            kept = h;
            absent = λ token e. e;
          })
  ]

  -- The cache is in step with its order and within its bound, and its entries have `P`.
  pub record IsSound (cache : TokenCache) : Type 0 where
    pub in_step : cache.order ≡ keys cache.entries
    pub bounded : length cache.entries ≤ cache.max
    pub all : All P cache.entries

  pub new_token_cache-IsSound : (max : ℕ) → IsSound (new_token_cache max)
  unfolding new_token_cache keys
  new_token_cache-IsSound max = record { in_step = refl; bounded = omega arith; all = tt }

  added-IsSound :
      (cache : TokenCache) (token : Text) (claims : Fields) (after : List Text × Dict Text Fields)
      → find cache.entries token ≡ none
      → HasRoom cache.max cache.entries after
      → P (token, claims)
      → IsSound (added cache token claims after)
  unfolding keys
  added-IsSound cache token claims (order, entries) new r p =
      let grown = put-append entries token claims (r.absent token new) in
      rw grown (record {
        in_step =
            ap (λ o. o ++ (token ∷ [])) r.in_step
            ∙ sym (keys-append entries ((token, claims) ∷ []));
        bounded = at_most entries (r.room);
        all = All-append P entries ((token, claims) ∷ []) r.kept (p, tt);
      })
    where
      at_most :
          (m : Dict Text Fields)
          → length m < cache.max
          → length (m ++ ((token, claims) ∷ [])) ≤ cache.max
      at_most m h = let eq = length-append m ((token, claims) ∷ []) in omega arith

  put_token-IsSound :
      (cache : TokenCache) (token : Text) (claims : Fields)
      → IsSound cache
      → P (token, claims)
      → IsSound (put_token cache token claims)
  unfolding put_token
  put_token-IsSound cache token claims s p = elim (Bool-cases (cache.max == 0)) [
    | inl off ↦ rw off s
    | inr on ↦ elim (Option-cases (find cache.entries token)) [
      | inr (old, held) ↦ rw (on, held) s
      | inl new ↦
          rw (on, new)
            (added-IsSound cache token claims _ new
              (subst (λ o. HasRoom cache.max cache.entries (evict o cache.max cache.entries))
                (sym s.in_step) (evict-HasRoom cache.entries cache.max (ground arith) s.all))
              p)
    ]
  ]

module _ ⦃f : Floats⦄ (v : Verifier) where
  -- The token has the shape of a JWT, and the claims are those of its signature.
  abbrev pub IsVerified : Text × Fields → Type 0
  IsVerified (token, claims) =
      (check_token_shape token ≡ ok tt) × (verify_signature v token ≡ ok claims)

  parse_fresh-IsSound :
      (verified : Result JwtFailure Fields) (now : ℕ) (cache : TokenCache) (token : Text)
      → verify_signature v token ≡ verified
      → check_token_shape token ≡ ok tt
      → IsSound IsVerified cache
      → IsSound IsVerified (parse_fresh v verified now cache token).1
  unfolding parse_fresh
  parse_fresh-IsSound (err e) now cache token h shaped s = s
  parse_fresh-IsSound (ok claims) now cache token h shaped s =
      put_token-IsSound IsVerified cache token claims s (shaped, h)

  parse_cached-IsSound :
      (hit : Option Fields) (now : ℕ) (cache : TokenCache) (token : Text)
      → check_token_shape token ≡ ok tt
      → IsSound IsVerified cache
      → IsSound IsVerified (parse_cached v hit now cache token).1
  unfolding parse_cached
  parse_cached-IsSound (some claims) now cache token shaped s = s
  parse_cached-IsSound none now cache token shaped s =
      parse_fresh-IsSound (verify_signature v token) now cache token refl shaped s

  parse_shaped-IsSound :
      (shape : Result JwtFailure (Unit {0})) (now : ℕ) (cache : TokenCache) (token : Text)
      → check_token_shape token ≡ shape
      → IsSound IsVerified cache
      → IsSound IsVerified (parse_shaped v shape now cache token).1
  unfolding parse_shaped
  parse_shaped-IsSound (err e) now cache token h s = s
  parse_shaped-IsSound (ok tt) now cache token h s =
      parse_cached-IsSound (get cache token) now cache token h s

  pub role-IsSound :
      (now : ℕ) (cache : TokenCache) (token : Text)
      → IsSound IsVerified cache
      → IsSound IsVerified (role v now cache token).1
  unfolding role parse_token
  role-IsSound now cache token s =
      parse_shaped-IsSound (check_token_shape token) now cache token refl s

  roles-IsSound :
      (requests : List (ℕ × Text)) (cache : TokenCache)
      → IsSound IsVerified cache
      → IsSound IsVerified (roles v requests cache).1
  unfolding roles
  roles-IsSound [] cache s = s
  roles-IsSound ((now, token) ∷ requests) cache s =
      roles-IsSound requests (role v now cache token).1 (role-IsSound now cache token s)

  -- For every verifier, bound and run of requests from an empty cache: the cache holds at most as many
  -- tokens as its bound, its order lists the tokens that it holds, and each of them has the shape of
  -- a JWT and is held with the claims of its signature.
  pub roles-new_token_cache :
      (requests : List (ℕ × Text)) (max : ℕ)
      → IsSound IsVerified (roles v requests (new_token_cache max)).1
  roles-new_token_cache requests max =
      roles-IsSound requests (new_token_cache max) (new_token_cache-IsSound IsVerified max)
