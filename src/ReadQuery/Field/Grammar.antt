-- ===== src/ReadQuery/Field/Grammar.antt =====
-- The language of JSON paths that parseJSONPath reads, stated with no parser: legs behind arrows.
use myrest.Prelude.{
  ℕ, zero, suc, ◌≤◌, ◌≡◌, ◌≢◌, refl, ap, ◌∙◌, Bool, true, false, List, [], ◌∷◌, ◌++◌, append_assoc,
  append-nil, arith, length, length-append, ok, All,
}
use myrest.ReadQuery.Field.Plain.{Plain, step_of_leg-Plain, cut_at-Plain, cut_at-Plain-arrow}
use myrest.Text.{Text}
use myrest.Text.Unicode.{Unicode}
use myrest.ReadQuery.Query.{PathStep}
use myrest.ReadQuery.Field.{
  arrow, text_arrow, split_leg, step_of_leg, read_path_step, read_arrow, path_loop, parse_json_path,
}

-- The arrow of the last leg: ->> for text.
abbrev pub last_arrow : Bool → Text
last_arrow true = text_arrow
last_arrow false = arrow

-- Legs behind arrows, of which only the last one can be ->>.
abbrev pub legs_text : List Text → Bool → Text
legs_text [] as_text = []
legs_text (leg ∷ []) as_text = last_arrow as_text ++ leg
legs_text (leg ∷ next ∷ legs) as_text = arrow ++ (leg ++ legs_text (next ∷ legs) as_text)

module _ ⦃u : Unicode⦄ where
  -- Each leg stands for the step beside it.
  abbrev pub LegsFor : List Text → List PathStep → Type 0
  LegsFor [] [] = Unit
  LegsFor (leg ∷ legs) (step ∷ steps) = (step_of_leg leg ≡ ok step) × LegsFor legs steps
  LegsFor _ _ = ⊥

module _ ⦃u : Unicode⦄ where
  read_arrow-arrow :
      (leg rest : Text)
      → All Plain leg
      → leg ≢ []
      → read_arrow (arrow ++ (leg ++ rest)) ≡ ok (false, leg ++ rest)
  unfolding read_arrow
  read_arrow-arrow [] rest h ne = absurd (ne refl)
  read_arrow-arrow (c ∷ leg) rest h ne = ground arith

  read_arrow-text_arrow : (leg : Text) → read_arrow (text_arrow ++ leg) ≡ ok (true, leg)
  unfolding read_arrow
  read_arrow-text_arrow leg = refl

  read_path_step_last :
      (leg : Text) (step : PathStep)
      → step_of_leg leg ≡ ok step
      → read_path_step leg ≡ ok (step, [])
  unfolding read_path_step split_leg
  read_path_step_last [] step h = absurd ((step_of_leg-Plain [] step h).1 refl)
  read_path_step_last (c ∷ leg) step h =
      let plain = step_of_leg-Plain (c ∷ leg) step h in
      ground (arith, cut_at-Plain (c ∷ leg) plain.0)

  read_path_step-arrow :
      (leg rest : Text) (step : PathStep)
      → step_of_leg leg ≡ ok step
      → read_path_step (leg ++ (arrow ++ rest)) ≡ ok (step, arrow ++ rest)
  unfolding read_path_step split_leg
  read_path_step-arrow [] rest step h = absurd ((step_of_leg-Plain [] step h).1 refl)
  read_path_step-arrow (c ∷ leg) rest step h =
      let plain = step_of_leg-Plain (c ∷ leg) step h in
      ground (arith, cut_at-Plain-arrow (c ∷ leg) rest plain.0)

  path_loop_round :
      (fuel : ℕ) (acc : List PathStep) (rest behind tail : Text) (t : Bool) (step : PathStep)
      → rest ≢ []
      → read_arrow rest ≡ ok (t, behind)
      → read_path_step behind ≡ ok (step, tail)
      → path_loop (suc fuel) acc false rest ≡ path_loop fuel (acc ++ step ∷ []) t tail
  unfolding path_loop
  path_loop_round fuel acc [] behind tail t step ne a r = absurd (ne refl)
  path_loop_round fuel acc (c ∷ s) behind tail t step ne a r = rw (a, r)

  path_loop_end :
      (fuel : ℕ) (acc : List PathStep) (t : Bool)
      → path_loop fuel acc t [] ≡ ok (record { steps = acc; as_text = t })
  unfolding path_loop
  path_loop_end zero acc t = refl
  path_loop_end (suc fuel) acc t = refl

  read_last_arrow :
      (leg : Text) (t : Bool)
      → All Plain leg
      → leg ≢ []
      → read_arrow (last_arrow t ++ leg) ≡ ok (t, leg)
  read_last_arrow leg true h ne = read_arrow-text_arrow leg
  read_last_arrow leg false h ne = rw append-nil at (read_arrow-arrow leg [] h ne)

  last_arrow-ne-nil : (t : Bool) (leg : Text) → last_arrow t ++ leg ≢ []
  last_arrow-ne-nil true leg = cc
  last_arrow-ne-nil false leg = cc

  legs_text-arrow :
      (next : Text) (legs : List Text) (t : Bool)
      → (rest : Text) × (legs_text (next ∷ legs) t ≡ arrow ++ rest)
  legs_text-arrow next [] true = (b'>' ∷ next, refl)
  legs_text-arrow next [] false = (next, refl)
  legs_text-arrow next (l ∷ legs) t = (next ++ legs_text (l ∷ legs) t, refl)

  read_path_step_next :
      (leg : Text) (step : PathStep) (next : Text) (legs : List Text) (t : Bool)
      → step_of_leg leg ≡ ok step
      → read_path_step (leg ++ legs_text (next ∷ legs) t) ≡ ok (step, legs_text (next ∷ legs) t)
  read_path_step_next leg step next legs t h =
      let (rest, e) = legs_text-arrow next legs t in rw e (read_path_step-arrow leg rest step h)

  path_loop-legs_text :
      (fuel : ℕ) (acc : List PathStep) (legs : List Text) (steps : List PathStep) (t : Bool)
      → LegsFor legs steps
      → legs ≢ []
      → length legs ≤ fuel
      → path_loop fuel acc false (legs_text legs t)
        ≡ ok (record { steps = acc ++ steps; as_text = t })
  path_loop-legs_text fuel acc [] steps t h ne le = absurd (ne refl)
  path_loop-legs_text zero acc (leg ∷ legs) steps t h ne le = absurd (omega arith)
  path_loop-legs_text (suc fuel) acc (leg ∷ legs) [] t h ne le = absurd h
  path_loop-legs_text (suc fuel) acc (leg ∷ []) (step ∷ []) t h ne le =
      let plain = step_of_leg-Plain leg step h.0 in
      path_loop_round fuel acc _ leg [] t step (last_arrow-ne-nil t leg)
        (read_last_arrow leg t plain.0 plain.1) (read_path_step_last leg step h.0)
      ∙ path_loop_end fuel (acc ++ step ∷ []) t
  path_loop-legs_text (suc fuel) acc (leg ∷ []) (step ∷ more ∷ steps) t h ne le = absurd h.1
  path_loop-legs_text (suc fuel) acc (leg ∷ next ∷ legs) (step ∷ steps) t h ne le =
      let plain = step_of_leg-Plain leg step h.0 in
      path_loop_round fuel acc _ (leg ++ legs_text (next ∷ legs) t) (legs_text (next ∷ legs) t)
        false step (cc) (read_arrow-arrow leg (legs_text (next ∷ legs) t) plain.0 plain.1)
        (read_path_step_next leg step next legs t h.0)
      ∙ path_loop-legs_text fuel (acc ++ step ∷ []) (next ∷ legs) steps t h.1 (cc) (omega arith)
      ∙ ap (λ s. ok (record { steps = s; as_text = t })) (append_assoc acc (step ∷ []) steps)

legs-le-text : (legs : List Text) (t : Bool) → length legs ≤ length (legs_text legs t)
legs-le-text [] t = omega arith
legs-le-text (leg ∷ []) true = omega arith
legs-le-text (leg ∷ []) false = omega arith
legs-le-text (leg ∷ next ∷ legs) t =
    omega (arith, legs-le-text (next ∷ legs) t, length-append leg (legs_text (next ∷ legs) t))

module _ ⦃u : Unicode⦄ where
  -- Every text of one or more legs behind arrows, of which only the last arrow can be ->>, is
  -- read as the path of the steps that the legs stand for.
  pub parse_json_path-legs_text :
      (legs : List Text) (steps : List PathStep) (t : Bool)
      → LegsFor legs steps
      → legs ≢ []
      → parse_json_path (legs_text legs t) ≡ ok (record { steps = steps; as_text = t })
  unfolding parse_json_path
  parse_json_path-legs_text [] steps t h ne = absurd (ne refl)
  parse_json_path-legs_text (leg ∷ legs) [] t h ne = absurd h
  parse_json_path-legs_text (leg ∷ legs) (step ∷ steps) t h ne =
      rw (path_loop-legs_text _ [] (leg ∷ legs) (step ∷ steps) t h ne (legs-le-text (leg ∷ legs) t))
