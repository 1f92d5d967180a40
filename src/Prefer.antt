-- ===== src/Prefer.antt =====
-- internal/prefer/prefer.go: the Prefer request header.
pub mod Rules
pub mod Lines
pub mod Last
pub mod Unknown
pub mod Strict
pub mod Accepted
pub mod Valid
use myrest.Prelude.{
  ℕ, ◌^◌, Bool, true, false, not, ◌&&◌, ◌||◌, Option, none, some, List, [], ◌∷◌, ◌++◌, map, ltb,
  ◌==◌, if◌then◌else◌, is_some,
}
use myrest.Text.{Text, codes, equal, cut, split, trim_space}
use myrest.Text.Unicode.{Unicode, to_lower}
use myrest.Text.Decimal.{decimal}

-- CountMode of internal/readquery/parse.go.
pub data CountMode : Type 0 where
  count_none count_exact count_planned count_estimated : CountMode

pub data Surface : Type 0 where
  surface_read surface_rpc surface_write : Surface

pub record InvalidToken : Type 0 where
  pub raw : Text
  pub write_only : Bool

pub record Preferences : Type 0 where
  pub strict : Bool
  pub count : CountMode
  pub return_value : Text
  pub missing_default : Bool
  pub max_affected : Option ℕ
  pub tx : Text
  pub resolution : Text
  pub bad_resolution : Bool
  pub all_rows : Bool
  pub row_security : Bool
  pub jwt_claims : Bool
  pub timezone : Bool
  pub invalid : List InvalidToken

-- A map[string]string as the writes to it, the newest first.
unfoldable pub lookup : List (Text × Text) → Text → Option Text
unfolding equal
lookup [] name = none
lookup ((n, value) ∷ values) name =
    let rest = lookup values name in if equal n name then some value else rest

unfoldable pub is_one_of : List Text → Text → Bool
unfolding equal
is_one_of [] name = false
is_one_of (n ∷ names) name = equal n name || is_one_of names name

abbrev pub auth_names : List Text
auth_names = codes "row-security" ∷ codes "jwt-claims" ∷ codes "timezone" ∷ []

abbrev pub value_names : List Text
value_names =
    codes "handling"
    ∷ codes "return"
    ∷ codes "missing"
    ∷ codes "max-affected"
    ∷ codes "tx"
    ∷ codes "count"
    ∷ codes "resolution"
    ∷ []

-- knownNames, with the names that init adds.
abbrev pub known_names : List Text
known_names = codes "all-rows" ∷ (value_names ++ auth_names)

-- tokens
pub record Collected : Type 0 where
  pub values : List (Text × Text)
  pub invalid : List Text
  pub all_rows : Bool

abbrev pub nothing : Collected
nothing = record { values = []; invalid = []; all_rows = false }

abbrev pub add_invalid : Collected → Text → Collected
add_invalid c raw = record c { invalid = c.invalid ++ raw ∷ [] }

abbrev pub add_value : Collected → Text → Text → Collected
add_value c name value = record c { values = (name, value) ∷ c.values }

abbrev pub is_empty : Text → Bool
is_empty [] = true
is_empty (c ∷ s) = false

-- The name, the value and whether there is a value.
abbrev pub halves : Text → Option (Text × Text) → Text × Text × Bool
halves token none = (token, [], false)
halves token (some (name, value)) = (name, value, true)

-- The signs that strconv.ParseInt takes; `none` is an error or a negative number.
unfoldable pub max_affected_of : Text → Option ℕ
unfolding decimal
max_affected_of [] = none
max_affected_of (c ∷ s) =
    if c == b'+'
    then below (decimal s)
    else if c == b'-'
    then zero_only (decimal s)
    else below (decimal (c ∷ s))
  where
    below : Option ℕ → Option ℕ
    below none = none
    below (some n) = if ltb n (2 ^ 63) then some n else none

    zero_only : Option ℕ → Option ℕ
    zero_only none = none
    zero_only (some n) = if n == 0 then some 0 else none

module _ ⦃u : Unicode⦄ where
  unfoldable pub collect_token : Collected → Text → Text → Bool → Text → Collected
  collect_token c name value has_value raw =
      if not (is_one_of known_names name)
      then add_invalid c raw
      else if is_one_of auth_names name
      then add_value c name value
      else if equal name (codes "all-rows")
      then (if has_value then add_invalid c raw else record c { all_rows = true })
      else if not has_value || is_empty value
      then add_invalid c raw
      else add_value c name (to_lower value)

  -- One round of the inner loop of collect, on a token that is trimmed.
  unfoldable pub collect_trimmed : Collected → Text → Collected
  collect_trimmed c [] = c
  collect_trimmed c (ch ∷ s) =
      let (name, value, has_value) = halves (ch ∷ s) (cut (ch ∷ s) b'=') in
      collect_token c (to_lower (trim_space name)) (trim_space value) has_value (ch ∷ s)

  unfoldable pub collect_parts : Collected → List Text → Collected
  collect_parts c [] = c
  collect_parts c (part ∷ parts) = collect_parts (collect_trimmed c (trim_space part)) parts

  unfoldable pub collect_from : Collected → List Text → Collected
  collect_from c [] = c
  collect_from c (header ∷ headers) = collect_from (collect_parts c (split header b',')) headers

  unfoldable pub collect : List Text → Collected
  collect headers = collect_from nothing headers

pub data Rule : Type 0 where
  rule_handling rule_return rule_missing rule_max_affected rule_tx rule_count rule_resolution : Rule

abbrev pub rule_name : Rule → Text
rule_name rule_handling = codes "handling"
rule_name rule_return = codes "return"
rule_name rule_missing = codes "missing"
rule_name rule_max_affected = codes "max-affected"
rule_name rule_tx = codes "tx"
rule_name rule_count = codes "count"
rule_name rule_resolution = codes "resolution"

abbrev pub rules : List Rule
rules =
    rule_handling ∷ rule_return ∷ rule_missing ∷ rule_max_affected ∷ rule_tx ∷ rule_count
    ∷ rule_resolution ∷ []
