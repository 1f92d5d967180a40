-- ===== src/Jwt/Verifier.antt =====
-- internal/jwt/token.go: the token cache and the verifier. The lock of the cache is not modelled.
use myrest.Prelude.{
  ℕ, Bool, true, false, Option, none, some, List, [], ◌∷◌, ◌++◌, leb, ◌==◌, length, is_some, Result,
  ok, err, ◌>>=◌, if◌then◌else◌,
}
use myrest.Text.{Text, codes, split}
use myrest.Text.Decimal.{format_uint}
use myrest.Dict.{text_eq, Dict, find, put, remove}
use myrest.Json.{Fields}
use myrest.Jwt.{
  JwtFailure, decode_failure, claims_failure, no_role, Floats, check_claims, role_claim,
}

-- A cache with `max` 0 is off.
pub record TokenCache : Type 0 where
  pub max : ℕ
  pub order : List Text
  pub entries : Dict Text Fields

unfoldable pub new_token_cache : ℕ → TokenCache
new_token_cache max = record { max = max; order = []; entries = [] }

unfoldable pub get : TokenCache → Text → Option Fields
get cache token = if cache.max == 0 then none else find cache.entries token

-- The test of full on the entries; the other test, that the order holds a token, is the pattern of evict.
unfoldable pub is_full : ℕ → Dict Text Fields → Bool
is_full max entries = leb max (length entries)

-- evictToMakeRoom: it ends, since each round takes the oldest token off the order.
unfoldable pub evict : List Text → ℕ → Dict Text Fields → List Text × Dict Text Fields
evict [] max entries = ([], entries)
evict (oldest ∷ order) max entries = elim (is_full max entries) [
  | true ↦ evict order max (remove entries oldest)
  | false ↦ (oldest ∷ order, entries)
]

abbrev pub added : TokenCache → Text → Fields → List Text × Dict Text Fields → TokenCache
added cache token claims (order, entries) = record cache {
  order = order ++ (token ∷ []);
  entries = put entries token claims;
}

unfoldable pub put_token : TokenCache → Text → Fields → TokenCache
put_token cache token claims =
    if cache.max == 0
    then cache
    else if is_some (find cache.entries token)
    then cache
    else added cache token claims (evict cache.order cache.max cache.entries)

-- What gojwt.Parse gives for a token, with the key function of the verifier.
pub data Parsed : Type 0 where
  wrong_algorithm not_valid not_map_claims : Parsed
  valid : Fields → Parsed

unfoldable pub signature_failure : Parsed → Result JwtFailure Fields
signature_failure wrong_algorithm =
    err (decode_failure (codes "Wrong or unsupported encoding algorithm"))
signature_failure not_valid = err (decode_failure (codes "JWT cryptographic operation failed"))
signature_failure not_map_claims = err (claims_failure (codes "Parsing claims failed"))
signature_failure (valid claims) = ok claims

unfoldable pub shape_of : Text → ℕ → Result JwtFailure (Unit {0})
unfolding format_uint
shape_of [] parts = err (decode_failure (codes "Empty JWT is sent in Authorization header"))
shape_of (c ∷ token) parts =
    if parts == 3
    then ok tt
    else err (decode_failure (codes "Expected 3 parts in JWT; got " ++ format_uint parts))

unfoldable pub check_token_shape : Text → Result JwtFailure (Unit {0})
check_token_shape token = shape_of token (length (split token b'.'))

-- The knobs of a verifier, and the parser of the library that checks signatures.
pub record Verifier : Type 0 where
  pub aud : Text
  pub role_claim_key : Text
  pub gojwt_parse : Text → Parsed

module _ ⦃f : Floats⦄ (v : Verifier) where
  unfoldable pub verify_signature : Text → Result JwtFailure Fields
  verify_signature token = signature_failure (v.gojwt_parse token)

  abbrev pub checked : ℕ → Fields → Result JwtFailure Fields
  checked now claims = check_claims now v.aud claims >>= λ valid_claims. ok claims

  unfoldable pub parse_fresh :
      Result JwtFailure Fields → ℕ → TokenCache → Text → Result JwtFailure Fields × TokenCache
  parse_fresh (err e) now cache token = (err e, cache)
  parse_fresh (ok claims) now cache token = (checked now claims, put_token cache token claims)

  unfoldable pub parse_cached :
      Option Fields → ℕ → TokenCache → Text → Result JwtFailure Fields × TokenCache
  parse_cached (some claims) now cache token = (checked now claims, cache)
  parse_cached none now cache token = parse_fresh (verify_signature token) now cache token

  unfoldable pub parse_shaped :
      Result JwtFailure (Unit {0}) → ℕ → TokenCache → Text → Result JwtFailure Fields × TokenCache
  parse_shaped (err e) now cache token = (err e, cache)
  parse_shaped (ok shaped) now cache token = parse_cached (get cache token) now cache token

  unfoldable pub parse_token : ℕ → TokenCache → Text → Result JwtFailure Fields × TokenCache
  parse_token now cache token = parse_shaped (check_token_shape token) now cache token

  unfoldable pub role_of_claim : Option Text → Result JwtFailure Text
  role_of_claim none = err no_role
  role_of_claim (some []) = err no_role
  role_of_claim (some (c ∷ role)) = ok (c ∷ role)

  abbrev pub role_from : Result JwtFailure Fields × TokenCache → Result JwtFailure Text × TokenCache
  role_from (parsed, cache) =
      (parsed >>= (λ claims. role_of_claim (role_claim claims v.role_claim_key)), cache)

  -- Verifier.Role at a time of the clock.
  unfoldable pub role : ℕ → TokenCache → Text → Result JwtFailure Text × TokenCache
  role now cache token = role_from (parse_token now cache token)

  -- The requests of a run, each at its time, and the answers to them.
  unfoldable pub roles : List (ℕ × Text) → TokenCache → List (Result JwtFailure Text) × TokenCache
  roles [] cache = ([], cache)
  roles ((now, token) ∷ requests) cache =
      let (answer, after) = role now cache token in
      let (answers, last) = roles requests after in (answer ∷ answers, last)
