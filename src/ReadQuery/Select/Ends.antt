-- ===== src/ReadQuery/Select/Ends.antt =====
-- parseSelect ends: a nested select is shorter than the text around it.
use myrest.Prelude.{
  ℕ, zero, suc, ◌+◌, ◌≤◌, ◌<◌, ◌≡◌, ◌≢◌, refl, Option, none, some, List, [], ◌∷◌, arith, length,
  length-append, err, if-ne, Option-cases, inl, inr, All, All-append, All-map,
}
use myrest.Text.{Text, codes, equal, cut, cut_suffix, has_suffix, contains, split, trim_space}
use myrest.Text.Laws.{length-cut_suffix}
use myrest.Text.Unicode.{Unicode}
use myrest.ReadQuery.Filter.{is_listed}
use myrest.ReadQuery.Groups.Lengths.{length-trim_space}
use myrest.ReadQuery.Failure.{exhausted, Parsed, bind-ne-exhausted}
use myrest.ReadQuery.Query.{Aggregate}
use myrest.ReadQuery.Field.{parse_field}
use myrest.ReadQuery.Field.Fuel.{parse_field-ne-exhausted}
use myrest.ReadQuery.SelectParts.{
  SelectParts, select_step, select_loop, split_select_parts, head_and_inner, EmbedHead,
  split_embed_head, is_embed_part,
}
use myrest.ReadQuery.Select.{
  Selected, has_join_type, embed_of_head, embed_of_parts, parse_embed_part, alias_and_field,
  column_of_field, parse_select_part, add_column, add_embed, add_selected, add_all, parse_select_on,
  parse_select,
}

abbrev Short : ℕ → Text → Type 0
Short n part = length part ≤ n

select_step-Short :
    (n : ℕ) (s : SelectParts) (r : ℕ)
    → All (Short n) s.parts
    → length s.current < n
    → All (Short n) (select_step s r).parts
      × (length (select_step s r).current ≤ length s.current + 1)
unfolding select_step
select_step-Short n s r hp hc =
    ground (arith, length-append s.current (r ∷ []), All-append (Short n) s.parts (s.current ∷ []))

select_loop-Short :
    (n : ℕ) (raw : Text) (s : SelectParts)
    → All (Short n) s.parts
    → length s.current + length raw ≤ n
    → All (Short n) (select_loop s raw)
unfolding select_loop
select_loop-Short n [] s hp hc = All-append (Short n) s.parts (s.current ∷ []) hp (omega arith, tt)
select_loop-Short n (r ∷ raw) s hp hc =
    let step = select_step-Short n s r hp (omega arith) in
    select_loop-Short n raw _ step.0 (omega (arith, step.1))

split_select_parts-Short : (raw : Text) → All (Short (length raw)) (split_select_parts raw)
unfolding split_select_parts
split_select_parts-Short raw = select_loop-Short (length raw) raw _ tt (omega arith)

pub length-cut :
    (s : Text) (sep : ℕ) {head rest : Text} → cut s sep ≡ some (head, rest) → length rest < length s
unfolding cut
length-cut [] sep h = absurd (ground arith)
length-cut (c ∷ s) sep {head} {rest} h = elim (Option-cases (cut s sep)) [
  | inl e ↦ ground arith
  | inr ((a, b), e) ↦ ground (arith, length-cut s sep {head = a} {rest = b} e)
]

length-head_and_inner :
    (part : Text) {head inner : Text}
    → head_and_inner part ≡ some (head, inner)
    → length inner < length part
unfolding head_and_inner
length-head_and_inner part {head} {inner} h = elim (Option-cases (cut part b'(')) [
  | inl e ↦ absurd (ground (arith, e))
  | inr ((a, rest), e) ↦ elim (Option-cases (cut_suffix rest (codes ")"))) [
    | inl f ↦ absurd (ground (arith, e, f))
    | inr (b, f) ↦ ground (
      arith,
      length-cut part b'(' {head = a} {rest = rest} e,
      length-cut_suffix rest (codes ")") {t = b} f,
    )
  ]
]

module _ ⦃u : Unicode⦄ (parse : Text → Parsed Selected) (fuel : ℕ)
    (ends : (s : Text) → length s < fuel → parse s ≢ err exhausted) where
  embed_of_head-ne-exhausted :
      (part : Text) (head : EmbedHead) (inner : Text)
      → length inner < fuel
      → embed_of_head parse part head inner ≢ err exhausted
  unfolding embed_of_head
  embed_of_head-ne-exhausted part head inner h = if-ne (has_join_type (split head.hint b'!')) (cc) (
      if-ne (equal head.resource []) (cc)
        (bind-ne-exhausted (parse inner) _ (ends inner h) (λ nested e. cc)))

  embed_of_parts-ne-exhausted :
      (part : Text) (found : Option (Text × Text))
      → head_and_inner part ≡ found
      → length part ≤ fuel
      → embed_of_parts parse part found ≢ err exhausted
  unfolding embed_of_parts
  embed_of_parts-ne-exhausted part none e h = cc
  embed_of_parts-ne-exhausted part (some (head, inner)) e h =
      embed_of_head-ne-exhausted part (split_embed_head head) inner
        (omega (arith, length-head_and_inner part e))

  parse_embed_part-ne-exhausted :
      (part : Text) → length part ≤ fuel → parse_embed_part parse part ≢ err exhausted
  unfolding parse_embed_part
  parse_embed_part-ne-exhausted part h =
      embed_of_parts-ne-exhausted part (head_and_inner part) refl h

module _ ⦃u : Unicode⦄ where
  column_of_field-ne-exhausted :
      (alias field : Text) (found : Option (Text × Aggregate))
      → column_of_field alias field found ≢ err exhausted
  unfolding column_of_field
  column_of_field-ne-exhausted alias field (some (source, agg)) =
      bind-ne-exhausted (parse_field source) _ (parse_field-ne-exhausted source) (λ read e. cc)
  column_of_field-ne-exhausted alias field none =
      if-ne (has_suffix field (codes "()")) (cc)
        (bind-ne-exhausted (parse_field field) _ (parse_field-ne-exhausted field) (λ read e. cc))

  parse_select_part-ne-exhausted : (part : Text) → parse_select_part part ≢ err exhausted
  unfolding parse_select_part
  parse_select_part-ne-exhausted part = if-ne (contains part (codes "::")) (cc) (
      if-ne (equal (alias_and_field part (cut part b':')).1 (codes "count()")) (cc)
        (column_of_field-ne-exhausted _ _ _))

  module _ (parse : Text → Parsed Selected) (fuel : ℕ)
      (ends : (s : Text) → length s < fuel → parse s ≢ err exhausted) where
    add_selected-ne-exhausted :
        (s : Selected) (part : Text)
        → length part ≤ fuel
        → add_selected parse s part ≢ err exhausted
    unfolding add_selected add_embed add_column
    add_selected-ne-exhausted s [] h = cc
    add_selected-ne-exhausted s (c ∷ part) h = if-ne (equal (c ∷ part) (codes "*")) (cc) (
        if-ne (is_embed_part (c ∷ part))
          (bind-ne-exhausted (parse_embed_part parse (c ∷ part)) _
            (parse_embed_part-ne-exhausted parse fuel ends (c ∷ part) h) (λ e p. cc))
          (bind-ne-exhausted (parse_select_part (c ∷ part)) _
            (parse_select_part-ne-exhausted (c ∷ part)) (λ column p. cc)))

    add_all-ne-exhausted :
        (parts : List Text) (s : Selected)
        → All (Short fuel) parts
        → add_all parse s parts ≢ err exhausted
    unfolding add_all
    add_all-ne-exhausted [] s h = cc
    add_all-ne-exhausted (part ∷ parts) s h =
        bind-ne-exhausted (add_selected parse s (trim_space part)) _
          (add_selected-ne-exhausted s (trim_space part)
            (omega (arith, length-trim_space part, h.0)))
          (λ t p. add_all-ne-exhausted parts t h.1)

  parse_select_on-ne-exhausted :
      (fuel : ℕ) (raw : Text) → length raw < fuel → parse_select_on fuel raw ≢ err exhausted
  unfolding parse_select_on
  parse_select_on-ne-exhausted zero raw h = absurd (omega arith)
  parse_select_on-ne-exhausted (suc fuel) raw h = if-ne (is_listed raw ([] ∷ codes "*" ∷ [])) (cc) (
      add_all-ne-exhausted (parse_select_on fuel) fuel (parse_select_on-ne-exhausted fuel)
        (split_select_parts raw) _
        (All-map (λ p q. omega (arith, q)) (split_select_parts raw) (split_select_parts-Short raw)))

  -- Every select text is read or refused with a failure of the source: the embeds that the text can
  -- nest never pass the fuel.
  pub parse_select-ne-exhausted : (raw : Text) → parse_select raw ≢ err exhausted
  unfolding parse_select
  parse_select-ne-exhausted raw = parse_select_on-ne-exhausted (suc (length raw)) raw (omega arith)
