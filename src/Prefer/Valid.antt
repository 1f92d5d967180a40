-- ===== src/Prefer/Valid.antt =====
-- A request whose tokens are all valid is not refused.
use myrest.Prelude.{
  ◌≡◌, ◌≢◌, ◌⊎◌, inl, inr, refl, sym, ap, ◌∙◌, subst, Bool, true, false, Option, none, some, List,
  [], ◌∷◌, ◌++◌, map, arith, if◌then◌else◌, All, if-both,
}
use myrest.Text.{Text, codes, equal, cut, split, trim_space}
use myrest.Text.Unicode.{Unicode, to_lower}
use myrest.Prefer.{
  Surface, Preferences, lookup, is_one_of, known_names, value_names, auth_names, Collected, nothing,
  add_value, halves, collect_token, collect_trimmed, collect_parts, collect_from, collect, Rule,
  rule_handling, rule_return, rule_missing, rule_max_affected, rule_tx, rule_count, rule_resolution,
  rule_name, rules,
}
use myrest.Prefer.Rules.{
  apply_held, apply_rules, before_rules, parse_collected, parse, raw_tokens, invalid_on,
  some_tokens, refusal,
}
use myrest.Prefer.Unknown.{token_name}
use myrest.Prefer.Accepted.{
  fits, Clean, apply-Clean, HeldFits, HeldFits-cons, rule_name_injective, auth-rule_name,
}

-- No token so far is invalid, and what is held fits.
abbrev Good : Surface → Collected → Type 0
Good surface c = (c.invalid ≡ []) × HeldFits surface c.values

is_one_of-append :
    (xs ys : List Text) (name : Text) → is_one_of ys name ≡ true → is_one_of (xs ++ ys) name ≡ true
unfolding is_one_of
is_one_of-append [] ys name h = h
is_one_of-append (x ∷ xs) ys name h = ground (arith, is_one_of-append xs ys name h)

known-auth : (name : Text) → is_one_of auth_names name ≡ true → is_one_of known_names name ≡ true
known-auth name h = is_one_of-append (codes "all-rows" ∷ value_names) auth_names name h

module _ ⦃u : Unicode⦄ where
  -- The token is one that asks for a feature of Postgres, the bare all-rows, or a known name with a
  -- value that the surface takes.
  abbrev ValidParts : Surface → Text → Text → Bool → Type 0
  ValidParts surface name value has_value =
      (is_one_of auth_names name ≡ true)
      ⊎ ((name ≡ codes "all-rows") × (has_value ≡ false))
      ⊎ ((rule : Rule) × (name ≡ rule_name rule)
          × (has_value ≡ true)
          × (value ≢ [])
          × (fits surface rule (to_lower value) ≡ true))

  collect_token-auth :
      (c : Collected) (name value : Text) (has_value : Bool) (raw : Text)
      → is_one_of auth_names name ≡ true
      → collect_token c name value has_value raw ≡ add_value c name value
  unfolding collect_token
  collect_token-auth c name value has_value raw h = rw (known-auth name h, h) refl

  collect_token-all_rows :
      (c : Collected) (value raw : Text)
      → collect_token c (codes "all-rows") value false raw ≡ record c { all_rows = true }
  unfolding collect_token is_one_of equal
  collect_token-all_rows c value raw = refl

  collect_token-rule :
      (c : Collected) (rule : Rule) (value raw : Text)
      → value ≢ []
      → collect_token c (rule_name rule) value true raw
        ≡ add_value c (rule_name rule) (to_lower value)
  unfolding collect_token is_one_of equal
  collect_token-rule c rule [] raw ne = absurd (ne refl)
  collect_token-rule c rule_handling (ch ∷ s) raw ne = refl
  collect_token-rule c rule_return (ch ∷ s) raw ne = refl
  collect_token-rule c rule_missing (ch ∷ s) raw ne = refl
  collect_token-rule c rule_max_affected (ch ∷ s) raw ne = refl
  collect_token-rule c rule_tx (ch ∷ s) raw ne = refl
  collect_token-rule c rule_count (ch ∷ s) raw ne = refl
  collect_token-rule c rule_resolution (ch ∷ s) raw ne = refl

  collect_token-Good :
      (surface : Surface) (c : Collected) (name value : Text) (has_value : Bool) (raw : Text)
      → Good surface c
      → ValidParts surface name value has_value
      → Good surface (collect_token c name value has_value raw)
  collect_token-Good surface c name value has_value raw (none_yet, fit) (inl auth) =
      subst (Good surface) (sym (collect_token-auth c name value has_value raw auth)) (
        none_yet,
        HeldFits-cons surface name value c.values
            (λ rule e. absurd (cc (auth, ap (is_one_of auth_names) e, auth-rule_name rule))) fit,
      )
  collect_token-Good surface c name value has_value raw (none_yet, fit) (inr (inl (e, f))) =
      subst (λ n. Good surface (collect_token c n value has_value raw)) (sym e)
        (subst (λ b. Good surface (collect_token c (codes "all-rows") value b raw)) (sym f)
          (subst (Good surface) (sym (collect_token-all_rows c value raw)) (none_yet, fit)))
  collect_token-Good surface c name value has_value raw (none_yet, fit)
        (inr (inr (rule, e, f, ne, g))) =
      subst (λ n. Good surface (collect_token c n value has_value raw)) (sym e)
        (subst (λ b. Good surface (collect_token c (rule_name rule) value b raw)) (sym f)
          (subst (Good surface) (sym (collect_token-rule c rule value raw ne)) (
            none_yet,
            HeldFits-cons surface (rule_name rule) (to_lower value) c.values
                (λ other same.
                  subst (λ r. fits surface r (to_lower value) ≡ true)
                    (rule_name_injective rule other same) g)
                fit,
          )))

  -- An empty token counts for nothing; another one has valid parts.
  abbrev pub IsValid : Surface → Text → Type 0
  IsValid surface [] = Unit
  IsValid surface (ch ∷ s) =
      ValidParts surface (token_name (ch ∷ s)) (trim_space (halves (ch ∷ s) (cut (ch ∷ s) b'=')).1)
        (halves (ch ∷ s) (cut (ch ∷ s) b'=')).2

  -- Each token of each line is valid.
  abbrev pub ValidLines : Surface → List Text → Type 0
  ValidLines surface headers =
      All (λ header. All (λ part. IsValid surface (trim_space part)) (split header b',')) headers

  collect_trimmed-Good :
      (surface : Surface) (c : Collected) (token : Text)
      → Good surface c
      → IsValid surface token
      → Good surface (collect_trimmed c token)
  unfolding collect_trimmed
  collect_trimmed-Good surface c [] g v = g
  collect_trimmed-Good surface c (ch ∷ s) g v = collect_token-Good surface c _ _ _ (ch ∷ s) g v

  collect_parts-Good :
      (surface : Surface) (parts : List Text) (c : Collected)
      → Good surface c
      → All (λ part. IsValid surface (trim_space part)) parts
      → Good surface (collect_parts c parts)
  unfolding collect_parts
  collect_parts-Good surface [] c g v = g
  collect_parts-Good surface (part ∷ parts) c g v =
      collect_parts-Good surface parts _ (collect_trimmed-Good surface c (trim_space part) g v.0)
        v.1

  collect_from-Good :
      (surface : Surface) (headers : List Text) (c : Collected)
      → Good surface c
      → ValidLines surface headers
      → Good surface (collect_from c headers)
  unfolding collect_from
  collect_from-Good surface [] c g v = g
  collect_from-Good surface (header ∷ headers) c g v =
      collect_from-Good surface headers _ (collect_parts-Good surface (split header b',') c g v.0)
        v.1

apply_held-Clean :
    (surface : Surface) (rule : Rule) (p : Preferences) (found : Option Text)
    → ((v : Text) → found ≡ some v → fits surface rule v ≡ true)
    → Clean surface p
    → Clean surface (apply_held rule p found)
unfolding apply_held
apply_held-Clean surface rule p none fit h = h
apply_held-Clean surface rule p (some v) fit h = apply-Clean surface rule p v (fit v refl) h

apply_rules-Clean :
    (surface : Surface) (rs : List Rule) (values : List (Text × Text)) (p : Preferences)
    → HeldFits surface values
    → Clean surface p
    → Clean surface (apply_rules rs values p)
unfolding apply_rules
apply_rules-Clean surface [] values p fit h = h
apply_rules-Clean surface (rule ∷ rs) values p fit h =
    apply_rules-Clean surface rs values _ fit
      (apply_held-Clean surface rule p (lookup values (rule_name rule)) (fit rule) h)

before_rules-Clean :
    (surface : Surface) (c : Collected) → c.invalid ≡ [] → Clean surface (before_rules c)
unfolding before_rules raw_tokens
before_rules-Clean surface c e =
    ap (λ tokens. raw_tokens (map (λ raw. record { raw = raw; write_only = false }) tokens) surface)
      e

module _ ⦃u : Unicode⦄ where
  -- A request is not refused on a surface when each token of its Prefer lines is empty, asks for a
  -- feature of Postgres, is the bare all-rows, or has a known name and a value that the surface
  -- takes, strict or not.
  pub refusal-ValidLines :
      (headers : List Text) (surface : Surface)
      → ValidLines surface headers
      → refusal (parse headers) surface ≡ none
  unfolding refusal parse parse_collected collect invalid_on lookup
  refusal-ValidLines headers surface v =
      let good = collect_from-Good surface headers nothing (refl, λ rule x e. cc) v in
      let clean =
        apply_rules-Clean surface rules (collect headers).values (before_rules (collect headers))
          good.1 (before_rules-Clean surface (collect headers) good.0) in
      ap (λ tokens. if (parse headers).strict then some_tokens tokens else none) clean
      ∙ if-both (λ x. x ≡ none) (parse headers).strict refl refl
