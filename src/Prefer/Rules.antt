-- ===== src/Prefer/Rules.antt =====
-- internal/prefer/prefer.go: the rules of the known names, Parse, and the strict refusal.
use myrest.Prelude.{
  ℕ, Bool, true, false, ◌&&◌, not, Option, none, some, List, [], ◌∷◌, ◌++◌, map, if◌then◌else◌,
  is_some,
}
use myrest.Text.{Text, codes, equal, join}
use myrest.Text.Unicode.{Unicode}
use myrest.Prefer.{
  count_none, count_exact, count_planned, count_estimated, Surface, surface_write, InvalidToken,
  Preferences, lookup, is_one_of, Collected, collect, max_affected_of, Rule, rule_handling,
  rule_return, rule_missing, rule_max_affected, rule_tx, rule_count, rule_resolution, rule_name,
  rules,
}

abbrev pub refuse_token : Preferences → Text → Bool → Preferences
refuse_token p raw write_only = record p {
  invalid = p.invalid ++ record { raw = raw; write_only = write_only } ∷ [];
}

-- refused, with the token that the caller appends.
abbrev pub refused : Preferences → Rule → Text → Preferences
refused p rule value = refuse_token p (rule_name rule ++ (b'=' ∷ value)) false

unfoldable pub apply_handling : Preferences → Text → Preferences
unfolding equal
apply_handling p value =
    if equal value (codes "strict")
    then record p { strict = true }
    else if equal value (codes "lenient")
    then record p { strict = false }
    else refused p rule_handling value

abbrev pub return_values : List Text
return_values = codes "minimal" ∷ codes "headers-only" ∷ codes "representation" ∷ []

unfoldable pub apply_return : Preferences → Text → Preferences
unfolding is_one_of
apply_return p value =
    if is_one_of return_values value
    then record p { return_value = value }
    else refused p rule_return value

unfoldable pub apply_missing : Preferences → Text → Preferences
unfolding equal
apply_missing p value =
    if equal value (codes "default")
    then record p { missing_default = true }
    else refused p rule_missing value

unfoldable pub apply_max_affected_of : Preferences → Text → Option ℕ → Preferences
apply_max_affected_of p value none = refused p rule_max_affected value
apply_max_affected_of p value (some n) = record p { max_affected = some n }

abbrev pub tx_values : List Text
tx_values = codes "commit" ∷ codes "rollback" ∷ []

unfoldable pub apply_tx : Preferences → Text → Preferences
unfolding is_one_of
apply_tx p value =
    if is_one_of tx_values value then record p { tx = value } else refused p rule_tx value

unfoldable pub apply_count : Preferences → Text → Preferences
unfolding equal
apply_count p value =
    if equal value (codes "exact")
    then record p { count = count_exact }
    else if equal value (codes "planned")
    then refuse_token (record p { count = count_planned }) (codes "count=planned") true
    else if equal value (codes "estimated")
    then refuse_token (record p { count = count_estimated }) (codes "count=estimated") true
    else refused p rule_count value

abbrev pub resolution_values : List Text
resolution_values = codes "merge-duplicates" ∷ codes "ignore-duplicates" ∷ []

unfoldable pub apply_resolution : Preferences → Text → Preferences
unfolding is_one_of
apply_resolution p value =
    if is_one_of resolution_values value
    then record p { resolution = value }
    else refused (record p { bad_resolution = true }) rule_resolution value

-- A rule on the value that is held for its name.
unfoldable pub apply : Rule → Preferences → Text → Preferences
unfolding apply_handling apply_return apply_missing apply_max_affected_of apply_tx apply_count
    apply_resolution
apply rule_handling p value = apply_handling p value
apply rule_return p value = apply_return p value
apply rule_missing p value = apply_missing p value
apply rule_max_affected p value = apply_max_affected_of p value (max_affected_of value)
apply rule_tx p value = apply_tx p value
apply rule_count p value = apply_count p value
apply rule_resolution p value = apply_resolution p value

unfoldable pub apply_held : Rule → Preferences → Option Text → Preferences
apply_held rule p none = p
apply_held rule p (some value) = apply rule p value

unfoldable pub apply_rules : List Rule → List (Text × Text) → Preferences → Preferences
apply_rules [] values p = p
apply_rules (rule ∷ rules) values p =
    apply_rules rules values (apply_held rule p (lookup values (rule_name rule)))

-- The preferences before the rules.
unfoldable pub before_rules : Collected → Preferences
before_rules c = record {
  strict = false;
  count = count_none;
  return_value = [];
  missing_default = false;
  max_affected = none;
  tx = [];
  resolution = [];
  bad_resolution = false;
  all_rows = c.all_rows;
  row_security = is_some (lookup c.values (codes "row-security"));
  jwt_claims = is_some (lookup c.values (codes "jwt-claims"));
  timezone = is_some (lookup c.values (codes "timezone"));
  invalid = map (λ raw. record { raw = raw; write_only = false }) c.invalid;
}

unfoldable pub parse_collected : Collected → Preferences
unfolding before_rules apply_rules
parse_collected c = apply_rules rules c.values (before_rules c)

module _ ⦃u : Unicode⦄ where
  unfoldable pub parse : List Text → Preferences
  parse headers = parse_collected (collect headers)

abbrev pub is_write : Surface → Bool
is_write surface_write = true
is_write _ = false

unfoldable pub raw_tokens : List InvalidToken → Surface → List Text
raw_tokens [] surface = []
raw_tokens (token ∷ tokens) surface =
    let rest = raw_tokens tokens surface in
    if token.write_only && not (is_write surface) then rest else token.raw ∷ rest

-- Preferences.Invalid.
unfoldable pub invalid_on : Preferences → Surface → List Text
unfolding raw_tokens
invalid_on p surface = raw_tokens p.invalid surface

abbrev pub some_tokens : List Text → Option (List Text)
some_tokens [] = none
some_tokens (token ∷ tokens) = some (token ∷ tokens)

-- Preferences.Refusal; the tokens of the InvalidError, if there is one.
unfoldable pub refusal : Preferences → Surface → Option (List Text)
unfolding invalid_on
refusal p surface = if p.strict then some_tokens (invalid_on p surface) else none

-- InvalidError.Details.
unfoldable pub details : List Text → Text
unfolding join
details tokens = codes "Invalid preferences: " ++ join tokens (codes ", ")
