-- ===== src/ReadQuery/Field/Sound.antt =====
-- What parseJSONPath accepts is spelled by legs behind arrows, and its fuel is enough.
use myrest.Prelude.{
  ℕ, zero, suc, ◌≡◌, ◌≢◌, ◌⊎◌, refl, sym, ap, ◌∙◌, Bool, true, false, List, [], ◌∷◌, ◌++◌,
  append_assoc, append-nil, arith, length, ok, ◌>>=◌, bind-eq-ok, inl, inr, Option-cases,
}
use myrest.Text.{Text, cut_prefix, cut_at}
use myrest.Text.Laws.{cut_prefix-eq-some}
use myrest.Text.Unicode.{Unicode}
use myrest.ReadQuery.Query.{PathStep, JsonPath}
use myrest.ReadQuery.Failure.{Parsed}
use myrest.ReadQuery.Field.Plain.{cut_at-append}
use myrest.ReadQuery.Field.Grammar.{last_arrow, legs_text, LegsFor}
use myrest.ReadQuery.Field.{
  arrow, text_arrow, split_leg, step_of_leg, step_and_rest, read_path_step, read_arrow, path_loop,
  some_leg, parse_json_path,
}

split_leg-append : (raw : Text) → raw ≡ (split_leg raw).0 ++ (split_leg raw).1
unfolding split_leg
split_leg-append raw = elim (Option-cases (cut_at raw arrow)) [
  | inl e ↦ ground (arith, append-nil raw)
  | inr ((f, r), e) ↦ ground (arith, cut_at-append raw arrow {front = f} {rest = r} e)
]

module _ ⦃u : Unicode⦄ where
  pub read_arrow-eq-ok :
      (rest : Text) {t : Bool} {behind : Text}
      → read_arrow rest ≡ ok (t, behind)
      → rest ≡ last_arrow t ++ behind
  unfolding read_arrow
  read_arrow-eq-ok rest {t} {behind} h = elim (Option-cases (cut_prefix rest text_arrow)) [
    | inl e ↦ elim (Option-cases (cut_prefix rest arrow)) [
      | inl e' ↦ absurd (ground arith)
      | inr (b, e') ↦ ground (arith, cut_prefix-eq-some rest arrow {t = b} e')
    ]
    | inr (b, e) ↦ ground (arith, cut_prefix-eq-some rest text_arrow {t = b} e)
  ]

  step_and_rest-eq-ok :
      (leg rest : Text) {step : PathStep} {tail : Text}
      → step_and_rest leg rest ≡ ok (step, tail)
      → (step_of_leg leg ≡ ok step) × (rest ≡ tail)
  unfolding step_and_rest
  step_and_rest-eq-ok [] rest h = absurd (ground arith)
  step_and_rest-eq-ok (c ∷ leg) rest h = ground arith

  pub read_path_step-eq-ok :
      (raw : Text) {step : PathStep} {tail : Text}
      → read_path_step raw ≡ ok (step, tail)
      → (leg : Text) × (step_of_leg leg ≡ ok step) × (raw ≡ leg ++ tail)
  unfolding read_path_step
  read_path_step-eq-ok [] h = absurd (ground arith)
  read_path_step-eq-ok (c ∷ s) {step} {tail} h =
      let read : step_and_rest (split_leg (c ∷ s)).0 (split_leg (c ∷ s)).1 ≡ ok (step, tail) =
        ground arith in
      let (a, b) = step_and_rest-eq-ok _ _ read in
      ((split_leg (c ∷ s)).0, a, split_leg-append (c ∷ s) ∙ ap (λ r. (split_leg (c ∷ s)).0 ++ r) b)

  -- The rest of a path whose last arrow had the flag `t`.
  abbrev Spelled : List Text → Bool → Bool → Text → Type 0
  Spelled [] t t' rest = (rest ≡ []) × (t' ≡ t)
  Spelled (leg ∷ legs) t t' rest = (t ≡ false) × (rest ≡ legs_text (leg ∷ legs) t')

  record PathOf (acc : List PathStep) (t : Bool) (rest : Text) (p : JsonPath) : Type 0 where
    legs : List Text
    steps : List PathStep
    reads : p.steps ≡ acc ++ steps
    stands : LegsFor legs steps
    spelled : Spelled legs t p.as_text rest

  Spelled-cons :
      (leg : Text) (legs : List Text) (t t' : Bool) (rest behind tail : Text)
      → rest ≡ last_arrow t ++ behind
      → behind ≡ leg ++ tail
      → Spelled legs t t' tail
      → rest ≡ legs_text (leg ∷ legs) t'
  Spelled-cons leg [] t t' rest behind tail a b (c, d) =
      a
      ∙ ap (λ x. last_arrow t ++ x) (b ∙ ap (λ x. leg ++ x) c ∙ append-nil leg)
      ∙ ap (λ x. last_arrow x ++ leg) (sym d)
  Spelled-cons leg (next ∷ legs) t t' rest behind tail a b (c, d) =
      a
      ∙ ap (λ x. last_arrow t ++ x) (b ∙ ap (λ x. leg ++ x) d)
      ∙ ap (λ x. last_arrow x ++ (leg ++ legs_text (next ∷ legs) t')) c

  PathOf-nil :
      (acc : List PathStep) (t : Bool) {p : JsonPath}
      → ◌≡◌ {A = Parsed JsonPath} (ok (record { steps = acc; as_text = t })) (ok p)
      → PathOf acc t [] p
  PathOf-nil acc t {p} h = record {
    legs = [];
    steps = [];
    reads = ground (arith, append-nil acc);
    stands = tt;
    spelled = (refl, ground arith);
  }

  PathOf-cons :
      (acc : List PathStep) (t : Bool) (rest behind leg tail : Text) (step : PathStep)
      {p : JsonPath}
      → rest ≡ last_arrow t ++ behind
      → step_of_leg leg ≡ ok step
      → behind ≡ leg ++ tail
      → PathOf (acc ++ step ∷ []) t tail p
      → PathOf acc false rest p
  PathOf-cons acc t rest behind leg tail step {p} a s b q = record {
    legs = leg ∷ q.legs;
    steps = step ∷ q.steps;
    reads = q.reads ∙ append_assoc acc (step ∷ []) q.steps;
    stands = (s, q.stands);
    spelled = (refl, Spelled-cons leg q.legs t p.as_text rest behind tail a b q.spelled);
  }

  path_loop-PathOf :
      (fuel : ℕ) (acc : List PathStep) (t : Bool) (rest : Text) {p : JsonPath}
      → path_loop fuel acc t rest ≡ ok p
      → PathOf acc t rest p
  unfolding path_loop
  path_loop-PathOf zero acc t [] h = PathOf-nil acc t h
  path_loop-PathOf (suc fuel) acc t [] h = PathOf-nil acc t h
  path_loop-PathOf zero acc true (c ∷ s) h = absurd (ground arith)
  path_loop-PathOf zero acc false (c ∷ s) h = absurd (ground arith)
  path_loop-PathOf (suc fuel) acc true (c ∷ s) h = absurd (ground arith)
  path_loop-PathOf (suc fuel) acc false (c ∷ s) {p} h =
      let (leg, a, h') =
        bind-eq-ok (read_arrow (c ∷ s))
          (λ leg. read_path_step leg.1 >>= λ read. path_loop fuel (acc ++ read.0 ∷ []) leg.0 read.1)
          h in
      let (read, r, h'') =
        bind-eq-ok (read_path_step leg.1) (λ read. path_loop fuel (acc ++ read.0 ∷ []) leg.0 read.1)
          h' in
      let (text, s', b) = read_path_step-eq-ok leg.1 r in
      PathOf-cons acc leg.0 (c ∷ s) leg.1 text read.1 read.0 (read_arrow-eq-ok (c ∷ s) a) s' b
        (path_loop-PathOf fuel (acc ++ read.0 ∷ []) leg.0 read.1 h'')

  -- the loop never ends without a step when the path has one
  some_leg-eq-ok : (q : JsonPath) {p : JsonPath} → some_leg q ≡ ok p → (q ≡ p) × (p.steps ≢ [])
  unfolding some_leg
  some_leg-eq-ok q {p} h = elim (steps-cases q.steps) [
    | inl e ↦ absurd (ground arith)
    | inr (s, ss, e) ↦ ground arith
  ]
    where
      steps-cases :
          (l : List PathStep) → (l ≡ []) ⊎ ((s : PathStep) × (ss : List PathStep) × (l ≡ s ∷ ss))
      steps-cases [] = inl refl
      steps-cases (s ∷ ss) = inr (s, ss, refl)

  -- What parseJSONPath accepts is spelled by one or more legs behind arrows, of which only the
  -- last arrow can be ->>, and the path holds the steps that the legs stand for, in order, with
  -- AsText from the last arrow.
  pub parse_json_path-eq-ok :
      (raw : Text) {p : JsonPath}
      → parse_json_path raw ≡ ok p
      → (legs : List Text) × (legs ≢ []) × LegsFor legs p.steps × (raw ≡ legs_text legs p.as_text)
  unfolding parse_json_path
  parse_json_path-eq-ok raw {p} h =
      let (q, run, last) = bind-eq-ok (path_loop (length raw) [] false raw) some_leg h in
      let (same, ne) = some_leg-eq-ok q last in
      let found = path_loop-PathOf (length raw) [] false raw (run ∙ ap ok same) in
      legs-of found.legs found.steps p.steps found.reads found.stands found.spelled ne
    where
      legs-of :
          (legs : List Text) (steps all : List PathStep)
          → all ≡ steps
          → LegsFor legs steps
          → Spelled legs false p.as_text raw
          → all ≢ []
          → (legs : List Text) × (legs ≢ []) × LegsFor legs all × (raw ≡ legs_text legs p.as_text)
      legs-of [] [] all e st sp ne = absurd (ne e)
      legs-of [] (s ∷ steps) all e st sp ne = absurd st
      legs-of (leg ∷ legs) steps all e st sp ne = (leg ∷ legs, cc, rw e st, sp.1)
