-- ===== src/Jwt.antt =====
-- internal/jwt/token.go: the claims of a token. A claim is what encoding/json decodes without
-- UseNumber: what a number is as a float64 is the instance argument. The clock is a number of seconds
-- after 1970, and does not come near the end of int64.
pub mod Verifier
pub mod Bounded
pub mod Transparent
pub mod Timely
use myrest.Prelude.{
  ℕ, ◌+◌, ◌-◌, Bool, true, false, not, ◌&&◌, ◌||◌, Option, none, some, List, [], ◌∷◌, ◌++◌, ltb,
  Result, ok, err, ◌>>=◌, if◌then◌else◌,
}
use myrest.Text.{Text, codes, equal, split, trim_prefix, trim_space}
use myrest.Json.{
  Value, null, boolean, number, string, array, object, Values, end, item, Fields, no_fields, field,
  marshal,
}

-- An int64: a number, or minus one more than a number.
pub data ℤ : Type 0 where
  pos negsuc : ℕ → ℤ

unfoldable pub less : ℤ → ℤ → Bool
less (pos a) (pos b) = ltb a b
less (pos a) (negsuc b) = false
less (negsuc a) (pos b) = true
less (negsuc a) (negsuc b) = ltb b a

unfoldable pub minus : ℕ → ℕ → ℤ
minus a b = if ltb a b then negsuc (b - a - 1) else pos (a - b)

-- A literal as a float64: the int64 that it is cut to, and its text from json.Marshal.
pub record Floats : Type 0 where
  pub seconds : Text → ℤ
  pub text : Text → Text

pub data JwtFailure : Type 0 where
  decode_failure claims_failure : Text → JwtFailure
  no_role : JwtFailure

abbrev pub skew : ℕ
skew = 30

unfoldable pub claim_of : Fields → Text → Option Value
unfolding equal
claim_of no_fields name = none
claim_of (field key value fields) name =
    let rest = claim_of fields name in if equal key name then some value else rest

-- A message is the failure of a claim.
unfoldable pub refuse_if : Bool → Text → Result JwtFailure (Unit {0})
refuse_if refused message = if refused then err (claims_failure message) else ok tt

unfoldable pub has_text : Values → Text → Bool × Bool
unfolding equal
has_text end want = (false, true)
has_text (item (string text) values) want =
    let rest = has_text values want in if equal text want then (true, true) else rest
has_text (item null values) want = (false, false)
has_text (item (boolean b) values) want = (false, false)
has_text (item (number literal) values) want = (false, false)
has_text (item (array inner) values) want = (false, false)
has_text (item (object members) values) want = (false, false)

-- Whether the audience matches, and whether it is of a type that can.
unfoldable pub audience_matches : Value → Text → Bool × Bool
unfolding equal has_text
audience_matches (string text) want = (equal text want, true)
audience_matches (array values) want = has_text values want
audience_matches null want = (false, false)
audience_matches (boolean b) want = (false, false)
audience_matches (number literal) want = (false, false)
audience_matches (object members) want = (false, false)

unfoldable pub refuse_audience : Bool × Bool → Result JwtFailure (Unit {0})
refuse_audience (matched, false) =
    err (claims_failure (codes "The JWT 'aud' claim must be a string or an array of strings"))
refuse_audience (matched, true) = refuse_if (not matched) (codes "JWT not in audience")

unfoldable pub check_audience : Option Value → Text → Result JwtFailure (Unit {0})
check_audience none want = ok tt
check_audience (some null) want = ok tt
check_audience (some (boolean b)) want = refuse_audience (audience_matches (boolean b) want)
check_audience (some (number literal)) want =
    refuse_audience (audience_matches (number literal) want)
check_audience (some (string text)) want = refuse_audience (audience_matches (string text) want)
check_audience (some (array values)) want = refuse_audience (audience_matches (array values) want)
check_audience (some (object members)) want =
    refuse_audience (audience_matches (object members) want)

unfoldable pub walk_claim_path : List Text → Value → Option Value
unfolding claim_of
walk_claim_path [] current = some current
walk_claim_path ([] ∷ parts) current = none
walk_claim_path ((c ∷ part) ∷ parts) (object members) = elim (claim_of members (c ∷ part)) [
  | none ↦ none
  | some value ↦ walk_claim_path parts value
]
walk_claim_path ((c ∷ part) ∷ parts) null = none
walk_claim_path ((c ∷ part) ∷ parts) (boolean b) = none
walk_claim_path ((c ∷ part) ∷ parts) (number literal) = none
walk_claim_path ((c ∷ part) ∷ parts) (string text) = none
walk_claim_path ((c ∷ part) ∷ parts) (array values) = none

module _ ⦃f : Floats⦄ where
  unfoldable pub as_int64 : Value → Option ℤ
  as_int64 (number literal) = some (f.seconds literal)
  as_int64 null = none
  as_int64 (boolean b) = none
  as_int64 (string text) = none
  as_int64 (array values) = none
  as_int64 (object members) = none

  unfoldable pub check_seconds : Option ℤ → Text → (ℤ → Bool) → Text → Result JwtFailure (Unit {0})
  check_seconds none name invalid message =
      err (claims_failure (codes "The JWT '" ++ (name ++ codes "' claim must be a number")))
  check_seconds (some value) name invalid message = refuse_if (invalid value) message

  unfoldable pub check_time : Option Value → Text → (ℤ → Bool) → Text → Result JwtFailure (Unit {0})
  check_time none name invalid message = ok tt
  check_time (some null) name invalid message = ok tt
  check_time (some (boolean b)) name invalid message =
      check_seconds (as_int64 (boolean b)) name invalid message
  check_time (some (number literal)) name invalid message =
      check_seconds (as_int64 (number literal)) name invalid message
  check_time (some (string text)) name invalid message =
      check_seconds (as_int64 (string text)) name invalid message
  check_time (some (array values)) name invalid message =
      check_seconds (as_int64 (array values)) name invalid message
  check_time (some (object members)) name invalid message =
      check_seconds (as_int64 (object members)) name invalid message

  unfoldable pub check_time_claim : Fields → Text → (ℤ → Bool) → Text → Result JwtFailure (Unit {0})
  check_time_claim claims name invalid message =
      check_time (claim_of claims name) name invalid message

  unfoldable pub audience_if : Text → Fields → Result JwtFailure (Unit {0})
  audience_if [] claims = ok tt
  audience_if (c ∷ aud) claims = check_audience (claim_of claims (codes "aud")) (c ∷ aud)

  unfoldable pub check_claims : ℕ → Text → Fields → Result JwtFailure (Unit {0})
  unfolding less minus
  check_claims now aud claims = do
    unexpired ←
        check_time_claim claims (codes "exp") (λ value. less value (minus now skew))
          (codes "JWT expired")
    begun ←
        check_time_claim claims (codes "nbf") (λ value. less (pos (now + skew)) value)
          (codes "JWT not yet valid")
    issued ←
        check_time_claim claims (codes "iat") (λ value. less (pos (now + skew)) value)
          (codes "JWT issued at future")
    audience_if aud claims

  -- The numbers of a value as json.Marshal writes them.
  unfoldable mutual
    pub with_floats : Value → Value
    with_floats null = null
    with_floats (boolean b) = boolean b
    with_floats (number literal) = number (f.text literal)
    with_floats (string text) = string text
    with_floats (array values) = array (items_with_floats values)
    with_floats (object members) = object (fields_with_floats members)

    pub items_with_floats : Values → Values
    items_with_floats end = end
    items_with_floats (item value values) = item (with_floats value) (items_with_floats values)

    pub fields_with_floats : Fields → Fields
    fields_with_floats no_fields = no_fields
    fields_with_floats (field key value fields) =
        field key (with_floats value) (fields_with_floats fields)

  unfoldable pub claim_as_string : Option Value → Option Text
  unfolding with_floats marshal
  claim_as_string none = none
  claim_as_string (some null) = none
  claim_as_string (some (string text)) = some text
  claim_as_string (some (boolean b)) = some (marshal (boolean b))
  claim_as_string (some (number literal)) = some (marshal (with_floats (number literal)))
  claim_as_string (some (array values)) = some (marshal (with_floats (array values)))
  claim_as_string (some (object members)) = some (marshal (with_floats (object members)))

  unfoldable pub role_claim : Fields → Text → Option Text
  unfolding equal trim_space
  role_claim claims path =
      let trimmed = trim_space path in
      if equal trimmed [] || equal trimmed (codes ".")
      then none
      else claim_as_string
          (walk_claim_path (split (trim_prefix trimmed (codes ".")) b'.') (object claims))
