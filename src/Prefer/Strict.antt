-- ===== src/Prefer/Strict.antt =====
-- A token whose name is unknown is refused under handling=strict, whatever stands around it.
use myrest.Prelude.{
  ℕ, ◌≡◌, inl, inr, refl, ap, subst, Bool, true, false, not, ◌&&◌, Option, none, some, List, [],
  ◌∷◌, map, if◌then◌else◌, if-both, Among, Among-append_left,
}
use myrest.Text.{Text, codes, equal, split, trim_space}
use myrest.Text.Unicode.{Unicode}
use myrest.Prefer.{
  count_planned, count_estimated, Surface, InvalidToken, Preferences, lookup, is_one_of, Collected,
  nothing, collect, max_affected_of, Rule, rule_handling, rule_return, rule_missing,
  rule_max_affected, rule_tx, rule_count, rule_resolution, rule_name, rules,
}
use myrest.Prefer.Rules.{
  refuse_token, return_values, apply_max_affected_of, tx_values, resolution_values, apply,
  apply_held, apply_rules, before_rules, parse_collected, parse, raw_tokens, invalid_on, is_write,
  some_tokens, refusal,
}
use myrest.Prefer.Unknown.{HasRaw, IsUnknown, collect_from-unknown}

-- The token is refused on every surface.
abbrev Refused : Text → Preferences → Type 0
Refused raw p = Among (record { raw = raw; write_only = false }) p.invalid

refuse_token-Refused :
    (raw : Text) (p : Preferences) (token : Text) (write_only : Bool)
    → Refused raw p
    → Refused raw (refuse_token p token write_only)
refuse_token-Refused raw p token write_only h = Among-append_left _ p.invalid _ h

apply-Refused :
    (raw : Text) (rule : Rule) (p : Preferences) (value : Text)
    → Refused raw p
    → Refused raw (apply rule p value)
unfolding apply
apply-Refused raw rule_handling p value h =
    if-both (Refused raw) (equal value (codes "strict")) h
      (if-both (Refused raw) (equal value (codes "lenient")) h (refuse_token-Refused raw p _ _ h))
apply-Refused raw rule_return p value h =
    if-both (Refused raw) (is_one_of return_values value) h (refuse_token-Refused raw p _ _ h)
apply-Refused raw rule_missing p value h =
    if-both (Refused raw) (equal value (codes "default")) h (refuse_token-Refused raw p _ _ h)
apply-Refused raw rule_max_affected p value h = go (max_affected_of value)
  where
    go : (n : Option ℕ) → Refused raw (apply_max_affected_of p value n)
    go none = refuse_token-Refused raw p _ _ h
    go (some n) = h
apply-Refused raw rule_tx p value h =
    if-both (Refused raw) (is_one_of tx_values value) h (refuse_token-Refused raw p _ _ h)
apply-Refused raw rule_count p value h = if-both (Refused raw) (equal value (codes "exact")) h (
    if-both (Refused raw) (equal value (codes "planned"))
      (refuse_token-Refused raw (record p { count = count_planned }) _ _ h)
      (if-both (Refused raw) (equal value (codes "estimated"))
        (refuse_token-Refused raw (record p { count = count_estimated }) _ _ h)
        (refuse_token-Refused raw p _ _ h)))
apply-Refused raw rule_resolution p value h =
    if-both (Refused raw) (is_one_of resolution_values value) h
      (refuse_token-Refused raw (record p { bad_resolution = true }) _ _ h)

apply_rules-Refused :
    (raw : Text) (rs : List Rule) (values : List (Text × Text)) (p : Preferences)
    → Refused raw p
    → Refused raw (apply_rules rs values p)
unfolding apply_rules apply_held
apply_rules-Refused raw [] values p h = h
apply_rules-Refused raw (rule ∷ rs) values p h =
    apply_rules-Refused raw rs values _ (held (lookup values (rule_name rule)))
  where
    held : (found : Option Text) → Refused raw (apply_held rule p found)
    held none = h
    held (some value) = apply-Refused raw rule p value h

before_rules-Refused : (raw : Text) (c : Collected) → HasRaw raw c → Refused raw (before_rules c)
unfolding before_rules
before_rules-Refused raw c h = go c.invalid h
  where
    go :
        (tokens : List Text)
        → Among raw tokens
        → Among {A = InvalidToken}
            (record { raw = raw; write_only = false })
            (map (λ raw. record { raw = raw; write_only = false }) tokens)
    go [] k = elim k [ ]
    go (token ∷ tokens) (inl e) = inl (ap (λ r. record { raw = r; write_only = false }) e)
    go (token ∷ tokens) (inr k) = inr (go tokens k)

raw_tokens-Among :
    (raw : Text) (tokens : List InvalidToken) (surface : Surface)
    → Among (record { raw = raw; write_only = false }) tokens
    → Among raw (raw_tokens tokens surface)
unfolding raw_tokens
raw_tokens-Among raw [] surface h = elim h [ ]
raw_tokens-Among raw (token ∷ tokens) surface (inl e) =
    subst
      (λ t. Among raw (
        if t.write_only && not (is_write surface)
        then raw_tokens tokens surface
        else t.raw ∷ raw_tokens tokens surface))
      e (inl refl)
raw_tokens-Among raw (token ∷ tokens) surface (inr h) =
    if-both (Among raw) (token.write_only && not (is_write surface))
      (raw_tokens-Among raw tokens surface h) (inr (raw_tokens-Among raw tokens surface h))

module _ ⦃u : Unicode⦄ where
  -- With handling=strict, a request that has a token of an unknown name, in any line and between
  -- any other tokens, is refused on every surface, and the refusal names the token.
  pub refusal-IsUnknown :
      (headers : List Text) (header part : Text) (surface : Surface)
      → (parse headers).strict ≡ true
      → Among header headers
      → Among part (split header b',')
      → IsUnknown (trim_space part)
      → (tokens : List Text) × (refusal (parse headers) surface ≡ some tokens)
        × Among (trim_space part) tokens
  unfolding refusal parse parse_collected collect invalid_on
  refusal-IsUnknown headers header part surface strict g h k =
      named (invalid_on (parse headers) surface) (
        raw_tokens-Among (trim_space part) (parse headers).invalid surface (
          apply_rules-Refused (trim_space part) rules (collect headers).values _ (
            before_rules-Refused (trim_space part) (collect headers)
              (collect_from-unknown headers nothing header part g h k))))
    where
      named :
          (found : List Text)
          → Among (trim_space part) found
          → (tokens : List Text) × ((if (parse headers).strict then some_tokens found else none)
              ≡ some tokens)
            × Among (trim_space part) tokens
      named [] a = elim a [ ]
      named (token ∷ tokens) a =
          (token ∷ tokens, ap (λ b. if b then some (token ∷ tokens) else none) strict, a)
