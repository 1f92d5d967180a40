-- ===== src/ReadQuery/Groups/Fuel.antt =====
-- The fuel of parseGroup, the length of its text, never runs out.
use myrest.Prelude.{
  ℕ, zero, suc, ◌≤◌, ◌<◌, ◌≢◌, Bool, List, [], ◌∷◌, arith, length, err, inl, inr, Option-cases,
  Result-cases, All, if-ne,
}
use myrest.Text.{Text, codes, cut_prefix, cut_suffix, has_prefix, trim_prefix, cut, trim_space}
use myrest.Text.Laws.{length-cut_prefix, length-cut_suffix}
use myrest.Text.Unicode.{Unicode}
use myrest.ReadQuery.Query.{Group, group, end, also}
use myrest.ReadQuery.Failure.{exhausted, Parsed}
use myrest.ReadQuery.Filter.{strip_not}
use myrest.ReadQuery.Filter.Ends.{parse_filter-ne-exhausted}
use myrest.ReadQuery.Groups.{
  TopLevel, top_step, top_loop, top_start, split_top_level, require_non_empty_group,
  is_nested_group, parse_nested_group, add_condition, add_nested, append_group_part, append_trimmed,
  append_parts, parse_list, parse_body, parse_group_on, parse_group,
}
use myrest.ReadQuery.Groups.Lengths.{
  Short, split_top_level-Short, length-trim_space, length-trim_prefix, length-strip_not,
}

top_step-ne-exhausted : (s : TopLevel) (ch : ℕ) → top_step s ch ≢ err exhausted
unfolding top_step
top_step-ne-exhausted s ch = ground arith

top_loop-ne-exhausted : (raw : Text) (s : TopLevel) → top_loop s raw ≢ err exhausted
unfolding top_loop
top_loop-ne-exhausted [] s = ground arith
top_loop-ne-exhausted (ch ∷ raw) s = elim (Result-cases (top_step s ch)) [
  | inl (t, e) ↦ ground (arith, top_loop-ne-exhausted raw t)
  | inr (f, e) ↦ ground (arith, top_step-ne-exhausted s ch)
]

All-below :
    {fuel : ℕ} (n : ℕ) (parts : List Text)
    → All (Short n) parts
    → n < fuel
    → All (λ p. length p < fuel) parts
All-below n [] h lt = tt
All-below n (part ∷ parts) h lt = (omega (arith, h.0), All-below n parts h.1 lt)

require-ne-exhausted : (g : Group) → require_non_empty_group g ≢ err exhausted
unfolding require_non_empty_group
require-ne-exhausted (group is_or [] end negated) = ground arith
require-ne-exhausted (group is_or [] (also g gs) negated) = ground arith
require-ne-exhausted (group is_or (f ∷ fs) gs negated) = ground arith

module _ (parse : Text → Bool → Parsed Group) (fuel : ℕ)
    (ends : (s : Text) (is_or : Bool) → length s < fuel → parse s is_or ≢ err exhausted) where
  parse_nested_group-ne-exhausted :
      (part : Text) → length part < fuel → parse_nested_group parse part ≢ err exhausted
  unfolding parse_nested_group
  parse_nested_group-ne-exhausted part h =
      let body = (strip_not part).1 in
      let inner = trim_prefix (trim_prefix body (codes "or")) (codes "and") in
      let short : length inner < fuel = omega (
        arith,
        length-strip_not part,
        length-trim_prefix body (codes "or"),
        length-trim_prefix (trim_prefix body (codes "or")) (codes "and"),
      ) in
      ground (arith, ends inner (has_prefix body (codes "or")) short)

module _ ⦃u : Unicode⦄ where
  add_condition-ne-exhausted : (g : Group) (part : Text) → add_condition g part ≢ err exhausted
  unfolding add_condition
  add_condition-ne-exhausted (group is_or filters groups negated) part =
      elim (Option-cases (cut part b'.')) [
        | inl e ↦ ground arith
        | inr ((column, rest), e) ↦ ground (arith, parse_filter-ne-exhausted column rest)
      ]

module _ ⦃u : Unicode⦄ (parse : Text → Bool → Parsed Group) (fuel : ℕ)
    (ends : (s : Text) (is_or : Bool) → length s < fuel → parse s is_or ≢ err exhausted) where
  add_nested-ne-exhausted :
      (g : Group) (part : Text) → length part < fuel → add_nested parse g part ≢ err exhausted
  unfolding add_nested
  add_nested-ne-exhausted (group is_or filters groups negated) part h =
      ground (arith, parse_nested_group-ne-exhausted parse fuel ends part h)

  append_trimmed-ne-exhausted :
      (g : Group) (part : Text) → length part < fuel → append_trimmed parse g part ≢ err exhausted
  unfolding append_trimmed append_group_part
  append_trimmed-ne-exhausted g [] h = ground arith
  append_trimmed-ne-exhausted g (c ∷ part) h =
      if-ne (is_nested_group (c ∷ part)) (add_nested-ne-exhausted g (c ∷ part) h)
        (add_condition-ne-exhausted g (c ∷ part))

  append_parts-ne-exhausted :
      (parts : List Text) (g : Group)
      → All (λ p. length p < fuel) parts
      → append_parts parse g parts ≢ err exhausted
  unfolding append_parts
  append_parts-ne-exhausted [] g h = ground arith
  append_parts-ne-exhausted (part ∷ parts) g h =
      let short : length (trim_space part) < fuel = omega (arith, length-trim_space part, h.0) in
      elim (Result-cases (append_trimmed parse g (trim_space part))) [
        | inl (g', e) ↦ ground (arith, append_parts-ne-exhausted parts g' h.1)
        | inr (f, e) ↦ ground (arith, append_trimmed-ne-exhausted g (trim_space part) short)
      ]

  parse_list-ne-exhausted :
      (is_or negated : Bool) (inner : Text)
      → length inner < fuel
      → parse_list parse is_or negated inner ≢ err exhausted
  unfolding parse_list require_non_empty_group split_top_level
  parse_list-ne-exhausted is_or negated inner h = elim (Result-cases (split_top_level inner)) [
    | inr (f, e) ↦ ground (arith, top_loop-ne-exhausted inner top_start)
    | inl (parts, e) ↦
        let start = group is_or [] end negated in
        let shorts = All-below (length inner) parts (split_top_level-Short inner e) h in
        elim (Result-cases (append_parts parse start parts)) [
          | inl (g, e') ↦ rw (e, e') (require-ne-exhausted g)
          | inr (f, e') ↦ ground (arith, append_parts-ne-exhausted parts start shorts)
        ]
  ]

  parse_body-ne-exhausted :
      (is_or negated : Bool) (body : Text)
      → length body ≤ suc fuel
      → parse_body parse is_or negated body ≢ err exhausted
  unfolding parse_body
  parse_body-ne-exhausted is_or negated body h = elim (Option-cases (cut_prefix body (codes "("))) [
    | inl e ↦ ground arith
    | inr (rest, e) ↦ elim (Option-cases (cut_suffix rest (codes ")"))) [
      | inl e' ↦ ground arith
      | inr (inner, e') ↦
          let short : length inner < fuel =
            omega (
              arith,
              length-cut_prefix body (codes "(") e,
              length-cut_suffix rest (codes ")") e',
            ) in
          ground (arith, parse_list-ne-exhausted is_or negated inner short)
    ]
  ]

module _ ⦃u : Unicode⦄ where
  parse_group_on-ne-exhausted :
      (fuel : ℕ) (raw : Text) (is_or : Bool)
      → length raw < fuel
      → parse_group_on fuel raw is_or ≢ err exhausted
  unfolding parse_group_on
  parse_group_on-ne-exhausted zero raw is_or h = absurd (omega arith)
  parse_group_on-ne-exhausted (suc fuel) raw is_or h =
      parse_body-ne-exhausted (parse_group_on fuel) fuel
        (λ s o. parse_group_on-ne-exhausted fuel s o) is_or _ (strip_not raw).1
        (omega (arith, length-strip_not raw))

  -- Every text is read as a logical tree or refused with a failure of the source: the nesting
  -- that the text can spell never passes the fuel.
  pub parse_group-ne-exhausted : (raw : Text) (is_or : Bool) → parse_group raw is_or ≢ err exhausted
  unfolding parse_group
  parse_group-ne-exhausted raw is_or =
      parse_group_on-ne-exhausted (suc (length raw)) raw is_or (omega arith)
