-- ===== src/Prefer/Accepted.antt =====
-- Values that a rule takes leave nothing to refuse, and what is held fits the rule of its name.
use myrest.Prelude.{
  ℕ, ◌≡◌, inl, inr, refl, sym, ap, ◌∙◌, subst, Bool, true, false, not, ◌&&◌, Option, none, some,
  List, [], ◌∷◌, ◌++◌, arith, if◌then◌else◌, is_some, Bool-cases,
}
use myrest.Text.{Text, codes, equal}
use myrest.Text.Laws.{equal_iff}
use myrest.Prefer.{
  Surface, surface_read, surface_rpc, surface_write, InvalidToken, Preferences, lookup, is_one_of,
  auth_names, max_affected_of, Rule, rule_handling, rule_return, rule_missing, rule_max_affected,
  rule_tx, rule_count, rule_resolution, rule_name,
}
use myrest.Prefer.Rules.{
  return_values, apply_max_affected_of, tx_values, apply_count, resolution_values, apply,
  raw_tokens, is_write,
}

-- The values that a surface takes for a name.
abbrev pub fits : Surface → Rule → Text → Bool
fits surface rule_handling value = is_one_of (codes "strict" ∷ codes "lenient" ∷ []) value
fits surface rule_return value = is_one_of return_values value
fits surface rule_missing value = is_one_of (codes "default" ∷ []) value
fits surface rule_max_affected value = is_some (max_affected_of value)
fits surface rule_tx value = is_one_of tx_values value
fits surface_write rule_count value = is_one_of (codes "exact" ∷ []) value
fits _ rule_count value = is_one_of (codes "exact" ∷ codes "planned" ∷ codes "estimated" ∷ []) value
fits surface rule_resolution value = is_one_of resolution_values value

-- Nothing is invalid on the surface.
abbrev pub Clean : Surface → Preferences → Type 0
Clean surface p = raw_tokens p.invalid surface ≡ []

raw_tokens-write_only :
    (surface : Surface) (tokens : List InvalidToken) (raw : Text)
    → is_write surface ≡ false
    → raw_tokens tokens surface ≡ []
    → raw_tokens (tokens ++ record { raw = raw; write_only = true } ∷ []) surface ≡ []
unfolding raw_tokens
raw_tokens-write_only surface [] raw w h = ground (arith, w)
raw_tokens-write_only surface (token ∷ tokens) raw w h =
    elim (Bool-cases (token.write_only && not (is_write surface))) [
      | inl e ↦ ground (arith, raw_tokens-write_only surface tokens raw w)
      | inr e ↦ absurd (ground arith)
    ]

count-Clean :
    (surface : Surface) (p : Preferences) (value : Text)
    → is_write surface ≡ false
    → is_one_of (codes "exact" ∷ codes "planned" ∷ codes "estimated" ∷ []) value ≡ true
    → Clean surface p
    → Clean surface (apply_count p value)
unfolding apply_count is_one_of
count-Clean surface p value w f h = ground (
  arith,
  raw_tokens-write_only surface p.invalid (codes "count=planned") w h,
  raw_tokens-write_only surface p.invalid (codes "count=estimated") w h,
)

pub apply-Clean :
    (surface : Surface) (rule : Rule) (p : Preferences) (value : Text)
    → fits surface rule value ≡ true
    → Clean surface p
    → Clean surface (apply rule p value)
unfolding apply is_one_of
apply-Clean surface rule_handling p value f h = ground arith
apply-Clean surface rule_return p value f h = ground arith
apply-Clean surface rule_missing p value f h = ground arith
apply-Clean surface rule_max_affected p value f h = number (max_affected_of value) f
  where
    number : (n : Option ℕ) → is_some n ≡ true → Clean surface (apply_max_affected_of p value n)
    number none g = cc
    number (some n) g = h
apply-Clean surface rule_tx p value f h = ground arith
apply-Clean surface_write rule_count p value f h = ground arith
apply-Clean surface_read rule_count p value f h = count-Clean surface_read p value refl f h
apply-Clean surface_rpc rule_count p value f h = count-Clean surface_rpc p value refl f h
apply-Clean surface rule_resolution p value f h = ground arith

-- What is held for a name fits the rule of that name.
abbrev pub HeldFits : Surface → List (Text × Text) → Type 0
HeldFits surface values =
    (rule : Rule) (v : Text) → lookup values (rule_name rule) ≡ some v → fits surface rule v ≡ true

rule_of_name : Text → Rule
unfolding equal
rule_of_name name =
    if equal name (codes "handling")
    then rule_handling
    else if equal name (codes "return")
    then rule_return
    else if equal name (codes "missing")
    then rule_missing
    else if equal name (codes "max-affected")
    then rule_max_affected
    else if equal name (codes "tx")
    then rule_tx
    else if equal name (codes "count")
    then rule_count
    else rule_resolution

rule_of_name-rule_name : (rule : Rule) → rule_of_name (rule_name rule) ≡ rule
unfolding rule_of_name
rule_of_name-rule_name rule_handling = refl
rule_of_name-rule_name rule_return = refl
rule_of_name-rule_name rule_missing = refl
rule_of_name-rule_name rule_max_affected = refl
rule_of_name-rule_name rule_tx = refl
rule_of_name-rule_name rule_count = refl
rule_of_name-rule_name rule_resolution = refl

pub rule_name_injective : (r s : Rule) → rule_name r ≡ rule_name s → r ≡ s
rule_name_injective r s e =
    sym (rule_of_name-rule_name r) ∙ ap rule_of_name e ∙ rule_of_name-rule_name s

pub auth-rule_name : (rule : Rule) → is_one_of auth_names (rule_name rule) ≡ false
unfolding is_one_of equal
auth-rule_name rule_handling = refl
auth-rule_name rule_return = refl
auth-rule_name rule_missing = refl
auth-rule_name rule_max_affected = refl
auth-rule_name rule_tx = refl
auth-rule_name rule_count = refl
auth-rule_name rule_resolution = refl

-- A new value keeps what is held, if it fits every rule of its name.
pub HeldFits-cons :
    (surface : Surface) (name value : Text) (values : List (Text × Text))
    → ((rule : Rule) → name ≡ rule_name rule → fits surface rule value ≡ true)
    → HeldFits surface values
    → HeldFits surface ((name, value) ∷ values)
unfolding lookup
HeldFits-cons surface name value values new h rule v e =
    elim (Bool-cases (equal name (rule_name rule))) [
      | inl same ↦
          let found : value ≡ v = ground arith in
          subst (λ x. fits surface rule x ≡ true) found
            (new rule ((equal_iff name (rule_name rule)).0 same))
      | inr other ↦ h rule v (ground arith)
    ]
