-- ===== src/Tests/Tokens.antt =====
-- Examples of tokens: three requests on a cache of one, the last with an expired token.
use myrest.Prelude.{ℕ, ◌≡◌, refl, some, List, [], ◌∷◌, ok, err}
use myrest.Text.{Text, codes, equal}
use myrest.Json.{string, number, array, item, end, Fields, field, no_fields}
use myrest.Jwt.{Floats, pos, claims_failure}
use myrest.Jwt.Verifier.{Verifier, valid, new_token_cache, roles}
use myrest.Jwt.Bounded.{IsSound, IsVerified, roles-new_token_cache}
use myrest.Jwt.Verifier.{
  role, parse_token, parse_shaped, check_token_shape, shape_of, parse_cached, get, parse_fresh,
  verify_signature, signature_failure, put_token, evict, is_full, role_of_claim,
}
use myrest.Text.{split, cut_prefix, is_space, trim_left, trim_prefix, trim_space}
use myrest.Dict.{find, put, remove}
use myrest.Jwt.{
  check_audience, audience_matches, has_text, refuse_audience, check_claims, check_time_claim,
  check_time, claim_of, as_int64, audience_if, check_seconds, claim_as_string, less, minus,
  refuse_if, role_claim, walk_claim_path,
}
use myrest.Jwt.Timely.{Grants, role-Grants}
use myrest.Jwt.Transparent.{roles_anew, roles-anew}

-- Every number is a hundred.
abbrev hundreds : Floats
hundreds = record { seconds = λ literal. pos 100; text = λ literal. literal }

abbrev writer : Fields
writer = field (codes "role") (string (codes "writer")) (
    field (codes "exp") (number (codes "100")) (
      field (codes "aud") (array (item (string (codes "other")) (item (string (codes "api")) end)))
        no_fields))

abbrev two_tokens : Verifier
two_tokens = record {
  aud = codes "api";
  role_claim_key = codes ".role";
  gojwt_parse = λ token. valid writer;
}

abbrev requests : List (ℕ × Text)
requests = (90, codes "a.b.c") ∷ (95, codes "d.e.f") ∷ (131, codes "a.b.c") ∷ []

roles-new_token_cache_example :
    IsSound
      (IsVerified ⦃f = hundreds⦄ two_tokens)
      (roles ⦃f = hundreds⦄ two_tokens requests (new_token_cache 1)).1
roles-new_token_cache_example = roles-new_token_cache ⦃f = hundreds⦄ two_tokens requests 1

roles-anew_example :
    (roles ⦃f = hundreds⦄ two_tokens requests (new_token_cache 1)).0
    ≡ roles_anew ⦃f = hundreds⦄ two_tokens requests
roles-anew_example = roles-anew ⦃f = hundreds⦄ two_tokens requests 1

answers :
    (roles ⦃f = hundreds⦄ two_tokens requests (new_token_cache 1)).0
    ≡ ok (codes "writer") ∷ ok (codes "writer") ∷ err (claims_failure (codes "JWT expired")) ∷ []
unfolding check_audience audience_matches has_text refuse_audience roles role parse_token
    parse_shaped check_token_shape shape_of split parse_cached get new_token_cache find parse_fresh
    verify_signature signature_failure check_claims put_token check_time_claim put check_time evict
    claim_of equal remove is_full role_of_claim as_int64 audience_if check_seconds claim_as_string
    less minus refuse_if role_claim walk_claim_path cut_prefix is_space trim_left trim_prefix
    trim_space
answers = refl

-- An empty list of audiences holds none.
empty_audience :
    check_audience (some (array end)) (codes "api")
    ≡ err (claims_failure (codes "JWT not in audience"))
unfolding check_audience audience_matches has_text refuse_audience refuse_if
empty_audience = refl

writer_again :
    (role ⦃f = hundreds⦄ two_tokens 130
      (roles ⦃f = hundreds⦄ two_tokens requests (new_token_cache 1)).1
      (codes "a.b.c")).0
    ≡ ok (codes "writer")
unfolding check_audience audience_matches has_text refuse_audience roles role parse_token
    parse_shaped check_token_shape shape_of split parse_cached get new_token_cache find parse_fresh
    verify_signature signature_failure check_claims put_token check_time_claim put check_time evict
    claim_of equal remove is_full role_of_claim as_int64 audience_if check_seconds claim_as_string
    less minus refuse_if role_claim walk_claim_path cut_prefix is_space trim_left trim_prefix
    trim_space
writer_again = refl

role-Grants_example :
    (claims : Fields) × Grants ⦃f = hundreds⦄ two_tokens 130 (codes "a.b.c") (codes "writer") claims
role-Grants_example =
    role-Grants ⦃f = hundreds⦄ two_tokens requests 1 130 (codes "a.b.c") writer_again
