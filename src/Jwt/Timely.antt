-- ===== src/Jwt/Timely.antt =====
-- A role is given only for a token that is valid at the time of the request.
use myrest.Prelude.{
  ◌≤◌, ap, arith, Bool-cases, ℕ, ◌+◌, ◌≡◌, ◌⊎◌, refl, sym, ◌∙◌, subst, inl, inr, Bool, true, false,
  Option, none, some, List, [], ◌∷◌, Result, ok, err, bind-eq-ok,
}
use myrest.Text.{Text, codes, equal}
use myrest.Text.Laws.{equal_iff}
use myrest.Json.{Values, end, item, Value, null, boolean, number, string, array, object, Fields}
use myrest.Jwt.{
  ℤ, pos, negsuc, less, minus, skew, Floats, claim_of, refuse_if, has_text, audience_matches,
  refuse_audience, check_audience, as_int64, check_seconds, check_time, check_time_claim,
  audience_if, check_claims, role_claim,
}
use myrest.Jwt.Verifier.{
  new_token_cache, Verifier, verify_signature, check_token_shape, role_of_claim, role, roles,
}
use myrest.Jwt.Bounded.{IsVerified, roles-new_token_cache}
use myrest.Jwt.Transparent.{parse_anew, role_anew, role-role_anew}

abbrev IfErr : {E A : Type 0} → Type 0 → Result E A → Type 0
IfErr B (ok a) = Unit
IfErr B (err e) = B

err-ok : {E A B : Type 0} {e : E} {a : A} → err e ≡ ok a → B
err-ok {B = B} h = subst (IfErr B) (sym h) tt

refuse_if-ok :
    (refused : Bool) (message : Text) → refuse_if refused message ≡ ok tt → refused ≡ false
unfolding refuse_if
refuse_if-ok true message h = cc
refuse_if-ok false message h = refl

-- One of the values is the text.
abbrev pub HoldsText : Values → Text → Type 0
HoldsText end want = ⊥
HoldsText (item value values) want = (value ≡ string want) ⊎ HoldsText values want

-- The claim is absent or null, or it is the audience, or a list that holds it.
abbrev pub AudienceFits : Option Value → Text → Type 0
AudienceFits none want = Unit
AudienceFits (some null) want = Unit
AudienceFits (some (boolean b)) want = ⊥
AudienceFits (some (number literal)) want = ⊥
AudienceFits (some (string text)) want = text ≡ want
AudienceFits (some (array values)) want = HoldsText values want
AudienceFits (some (object members)) want = ⊥

has_text-HoldsText :
    (values : Values) (want : Text) → has_text values want ≡ (true, true) → HoldsText values want
unfolding has_text
has_text-HoldsText end want h = cc
has_text-HoldsText (item (string text) values) want h = elim (Bool-cases (equal text want)) [
  | inl same ↦ inl (ap string ((equal_iff text want).0 same))
  | inr other ↦ inr (has_text-HoldsText values want (rw (other) at h))
]
has_text-HoldsText (item null values) want h = cc
has_text-HoldsText (item (boolean b) values) want h = cc
has_text-HoldsText (item (number literal) values) want h = cc
has_text-HoldsText (item (array inner) values) want h = cc
has_text-HoldsText (item (object members) values) want h = cc

-- A time that has not passed, and one that has come, at a time of the clock, give or take the skew.
abbrev pub NotPassed : ℕ → ℤ → Type 0
NotPassed now (pos value) = now ≤ value + skew
NotPassed now (negsuc value) = now + value + 1 ≤ skew

abbrev pub HasCome : ℕ → ℤ → Type 0
HasCome now (pos value) = value ≤ now + skew
HasCome now (negsuc value) = Unit

less-NotPassed : (now : ℕ) (value : ℤ) → less value (minus now skew) ≡ false → NotPassed now value
unfolding less minus
less-NotPassed now (pos value) h = ground arith
less-NotPassed now (negsuc value) h = ground arith

less-HasCome : (now : ℕ) (value : ℤ) → less (pos (now + skew)) value ≡ false → HasCome now value
unfolding less
less-HasCome now (pos value) h = ground arith
less-HasCome now (negsuc value) h = tt

refuse_audience-ok : (answer : Bool × Bool) → refuse_audience answer ≡ ok tt → answer ≡ (true, true)
unfolding refuse_audience refuse_if
refuse_audience-ok (matched, false) h = cc
refuse_audience-ok (true, true) h = refl
refuse_audience-ok (false, true) h = cc

check_audience-AudienceFits :
    (claim : Option Value) (want : Text)
    → check_audience claim want ≡ ok tt
    → AudienceFits claim want
unfolding check_audience refuse_audience audience_matches
check_audience-AudienceFits none want h = tt
check_audience-AudienceFits (some null) want h = tt
check_audience-AudienceFits (some (boolean b)) want h = err-ok h
check_audience-AudienceFits (some (number literal)) want h = err-ok h
check_audience-AudienceFits (some (string text)) want h =
    (equal_iff text want).0 (ap (λ p. p.0) (refuse_audience-ok (equal text want, true) h))
check_audience-AudienceFits (some (array values)) want h =
    has_text-HoldsText values want (refuse_audience-ok (has_text values want) h)
check_audience-AudienceFits (some (object members)) want h = err-ok h

module _ ⦃f : Floats⦄ where
  -- The claim is absent or null, or it is a number that fits.
  abbrev pub TimeFits : (ℤ → Type 0) → Option Value → Type 0
  TimeFits P none = Unit
  TimeFits P (some null) = Unit
  TimeFits P (some (boolean b)) = ⊥
  TimeFits P (some (number literal)) = P (f.seconds literal)
  TimeFits P (some (string text)) = ⊥
  TimeFits P (some (array values)) = ⊥
  TimeFits P (some (object members)) = ⊥

  check_time-TimeFits :
      (P : ℤ → Type 0) (claim : Option Value) (name : Text) (invalid : ℤ → Bool) (message : Text)
      → ((value : ℤ) → invalid value ≡ false → P value)
      → check_time claim name invalid message ≡ ok tt
      → TimeFits P claim
  unfolding check_time as_int64 check_seconds
  check_time-TimeFits P none name invalid message fits h = tt
  check_time-TimeFits P (some null) name invalid message fits h = tt
  check_time-TimeFits P (some (boolean b)) name invalid message fits h = err-ok h
  check_time-TimeFits P (some (number literal)) name invalid message fits h =
      fits (f.seconds literal) (refuse_if-ok (invalid (f.seconds literal)) message h)
  check_time-TimeFits P (some (string text)) name invalid message fits h = err-ok h
  check_time-TimeFits P (some (array values)) name invalid message fits h = err-ok h
  check_time-TimeFits P (some (object members)) name invalid message fits h = err-ok h

  -- The times and the audience of the claims at a time of the clock.
  abbrev pub IsTimely : ℕ → Text → Fields → Type 0
  IsTimely now aud claims =
      TimeFits (NotPassed now) (claim_of claims (codes "exp"))
      × TimeFits (HasCome now) (claim_of claims (codes "nbf"))
      × TimeFits (HasCome now) (claim_of claims (codes "iat"))
      × ((aud ≡ []) ⊎ AudienceFits (claim_of claims (codes "aud")) aud)

  audience_if-AudienceFits :
      (aud : Text) (claims : Fields)
      → audience_if aud claims ≡ ok tt
      → (aud ≡ []) ⊎ AudienceFits (claim_of claims (codes "aud")) aud
  unfolding audience_if
  audience_if-AudienceFits [] claims h = inl refl
  audience_if-AudienceFits (c ∷ aud) claims h =
      inr (check_audience-AudienceFits (claim_of claims (codes "aud")) (c ∷ aud) h)

  check_claims-IsTimely :
      (now : ℕ) (aud : Text) (claims : Fields)
      → check_claims now aud claims ≡ ok tt
      → IsTimely now aud claims
  unfolding check_claims check_time_claim
  check_claims-IsTimely now aud claims h =
      let (a, exp, h1) =
        bind-eq-ok
          (check_time_claim claims (codes "exp") (λ value. less value (minus now skew))
            (codes "JWT expired"))
          _ h in
      let (b, nbf, h2) =
        bind-eq-ok
          (check_time_claim claims (codes "nbf") (λ value. less (pos (now + skew)) value)
            (codes "JWT not yet valid"))
          _ h1 in
      let (c, iat, h3) =
        bind-eq-ok
          (check_time_claim claims (codes "iat") (λ value. less (pos (now + skew)) value)
            (codes "JWT issued at future"))
          _ h2 in
      (
        check_time-TimeFits (NotPassed now) (claim_of claims (codes "exp")) (codes "exp")
            (λ value. less value (minus now skew)) (codes "JWT expired") (less-NotPassed now) exp,
        check_time-TimeFits (HasCome now) (claim_of claims (codes "nbf")) (codes "nbf")
            (λ value. less (pos (now + skew)) value) (codes "JWT not yet valid") (less-HasCome now)
            nbf,
        check_time-TimeFits (HasCome now) (claim_of claims (codes "iat")) (codes "iat")
            (λ value. less (pos (now + skew)) value) (codes "JWT issued at future")
            (less-HasCome now) iat,
        audience_if-AudienceFits aud claims h3,
      )

  module _ (v : Verifier) where
    -- The claims that let a role be given for a token.
    abbrev pub Grants : ℕ → Text → Text → Fields → Type 0
    Grants now token name claims =
        IsVerified v (token, claims)
        × IsTimely now v.aud claims
        × (role_of_claim v (role_claim claims v.role_claim_key) ≡ ok name)

    role_anew-Grants :
        (now : ℕ) (token : Text) {name : Text}
        → role_anew v now token ≡ ok name
        → (claims : Fields) × Grants now token name claims
    role_anew-Grants now token h =
        let (claims, parsed, named) = bind-eq-ok (parse_anew v now token) _ h in
        let (a, shaped, h1) = bind-eq-ok (check_token_shape token) _ parsed in
        let (found, verified, h2) = bind-eq-ok (verify_signature v token) _ h1 in
        let (b, timely, same) = bind-eq-ok (check_claims now v.aud found) _ h2 in
        let is : found ≡ claims = cc in
        (found, ((shaped, verified), check_claims-IsTimely now v.aud found timely, rw is named))

    -- For every verifier, bound, and run of requests from an empty cache: when a token is then
    -- answered with a role, its signature was verified for some claims that name the role, even where
    -- they come from the cache. At the time of the answer, give or take 30 seconds, an exp claim that
    -- they hold has not passed, and nbf and iat claims that they hold have come. Where the verifier has
    -- an audience, an aud claim that they hold is that audience, or a list that holds it. A claim that
    -- is null counts as not held.
    pub role-Grants :
        (requests : List (ℕ × Text)) (max now : ℕ) (token : Text) {name : Text}
        → (role v now (roles v requests (new_token_cache max)).1 token).0 ≡ ok name
        → (claims : Fields) × Grants now token name claims
    role-Grants requests max now token h =
        role_anew-Grants now token
          (sym (role-role_anew v now _ token (roles-new_token_cache v requests max)) ∙ h)
