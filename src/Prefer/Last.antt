-- ===== src/Prefer/Last.antt =====
-- The last handling token of a request decides.
use myrest.Prelude.{
  ℕ, ◌≡◌, ◌≢◌, refl, ap, ◌∙◌, Bool, true, false, Option, none, some, List, [], ◌∷◌, ◌++◌, if-both,
  All,
}
use myrest.Text.{Text, codes, equal, cut, split, trim_space}
use myrest.Text.Unicode.{Unicode, to_lower}
use myrest.Prefer.{
  Preferences, lookup, is_one_of, Collected, nothing, add_value, collect_token, collect_trimmed,
  collect_parts, collect_from, collect, max_affected_of, Rule, rule_handling, rule_return,
  rule_missing, rule_max_affected, rule_tx, rule_count, rule_resolution, rule_name,
}
use myrest.Prefer.Rules.{
  return_values, apply_max_affected_of, tx_values, resolution_values, apply, apply_held,
  apply_rules, before_rules, parse_collected, parse,
}
use myrest.Prefer.Lines.{collect_from-append}

abbrev Strictly : Bool → Preferences → Type 0
Strictly b p = p.strict ≡ b

-- No rule but that of handling touches the flag.
held-strict :
    (rule : Rule) (p : Preferences) (found : Option Text)
    → rule ≢ rule_handling
    → Strictly p.strict (apply_held rule p found)
unfolding apply_held apply
held-strict rule p none ne = refl
held-strict rule_handling p (some value) ne = absurd (ne refl)
held-strict rule_return p (some value) ne =
    if-both (Strictly p.strict) (is_one_of return_values value) refl refl
held-strict rule_missing p (some value) ne =
    if-both (Strictly p.strict) (equal value (codes "default")) refl refl
held-strict rule_max_affected p (some value) ne = go (max_affected_of value)
  where
    go : (n : Option ℕ) → Strictly p.strict (apply_max_affected_of p value n)
    go none = refl
    go (some n) = refl
held-strict rule_tx p (some value) ne =
    if-both (Strictly p.strict) (is_one_of tx_values value) refl refl
held-strict rule_count p (some value) ne =
    if-both (Strictly p.strict) (equal value (codes "exact")) refl (
      if-both (Strictly p.strict) (equal value (codes "planned")) refl
        (if-both (Strictly p.strict) (equal value (codes "estimated")) refl refl))
held-strict rule_resolution p (some value) ne =
    if-both (Strictly p.strict) (is_one_of resolution_values value) refl refl

abbrev handling_text : Bool → Text
handling_text true = codes "handling=strict"
handling_text false = codes "handling=lenient"

abbrev handling_value : Bool → Text
handling_value true = codes "strict"
handling_value false = codes "lenient"

abbrev other_rules : List Rule
other_rules =
    rule_return ∷ rule_missing ∷ rule_max_affected ∷ rule_tx ∷ rule_count ∷ rule_resolution ∷ []

apply_rules-strict :
    (rs : List Rule) (values : List (Text × Text)) (p : Preferences) (b : Bool)
    → All (λ rule. rule ≢ rule_handling) rs
    → p.strict ≡ b
    → (apply_rules rs values p).strict ≡ b
unfolding apply_rules
apply_rules-strict [] values p b ne h = h
apply_rules-strict (rule ∷ rs) values p b ne h =
    apply_rules-strict rs values (apply_held rule p (lookup values (rule_name rule))) b ne.1
      (held-strict rule p (lookup values (rule_name rule)) ne.0 ∙ h)

other_rules-ne : All (λ rule. rule ≢ rule_handling) other_rules
other_rules-ne = (cc, (cc, (cc, (cc, (cc, (cc, tt))))))

parse_collected-handling :
    (b : Bool) (c : Collected)
    → (parse_collected (add_value c (codes "handling") (handling_value b))).strict ≡ b
unfolding parse_collected apply_rules apply_held apply lookup
parse_collected-handling true c =
    let d = add_value c (codes "handling") (handling_value true) in
    apply_rules-strict other_rules d.values (record (before_rules d) { strict = true }) true
      other_rules-ne refl
parse_collected-handling false c =
    let d = add_value c (codes "handling") (handling_value false) in
    apply_rules-strict other_rules d.values (record (before_rules d) { strict = false }) false
      other_rules-ne refl

module _ ⦃u : Unicode⦄ where
  collect_from-handling :
      (b : Bool) (c : Collected)
      → collect_from c (handling_text b ∷ []) ≡ add_value c (codes "handling") (handling_value b)
  unfolding collect_from collect_parts collect_trimmed collect_token is_one_of equal split cut
      trim_space to_lower
  collect_from-handling true c = refl
  collect_from-handling false c = refl

  -- Whatever the lines of a request say, a handling=strict at their end makes the preferences
  -- strict, and a handling=lenient there makes them not strict.
  pub parse-handling :
      (headers : List Text) (b : Bool) → (parse (headers ++ handling_text b ∷ [])).strict ≡ b
  unfolding parse collect
  parse-handling headers b =
      ap (λ c. (parse_collected c).strict)
        (collect_from-append headers (handling_text b ∷ []) nothing
          ∙ collect_from-handling b (collect_from nothing headers))
      ∙ parse_collected-handling b (collect_from nothing headers)
