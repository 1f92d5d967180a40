-- ===== src/Sql/Marks/Accepted.antt =====
-- What the parsers accept cannot end a string of a statement: paths, fields and filters.
use myrest.Prelude.{
  ℕ, zero, suc, ◌≡◌, refl, Bool, true, false, Option, none, some, List, [], ◌∷◌, ◌++◌, arith, ◌==◌,
  if◌then◌else◌, ok, ◌>>=◌, All, All-append, AllOk, AllOk-bind, AllOk-any, if-both, length,
  Option-cases, inl, inr,
}
use myrest.Text.{Text, codes, contains, cut_at, trim_space, has_prefix}
use myrest.Text.Unicode.{Unicode, is_letter, is_digit, ascii_letter, ascii_digit}
use myrest.Text.Decimal.{atoi}
use myrest.ReadQuery.Query.{
  PathStep, key, JsonPath, Operator, op_eq, op_neq, op_gt, op_gte, op_lt, op_lte, op_like, op_ilike,
  op_in, op_is, op_is_distinct, Filter,
}
use myrest.ReadQuery.Failure.{path_key_outside, gap}
use myrest.ReadQuery.Field.{
  arrow, index_or_gap, split_leg, identifier_rest, is_all_digits, is_json_path_identifier,
  step_of_leg, step_and_rest, read_path_step, read_arrow, path_loop, some_leg, parse_json_path,
  path_field, field_of, parse_field,
}
use myrest.ReadQuery.InList.{dequote_scalar_value, parse_in_list}
use myrest.ReadQuery.Filter.{
  classify_operator, is_is_value, operator_and_value, strip_not, parse_filter_value, parse_filter,
}
use myrest.Sql.Marks.Pieces.{StringRune, SafeStep, SafePath}
use myrest.Sql.Marks.Conditions.{SafeFilter}

module _ ⦃u : Unicode⦄ where
  identifier_rest-StringRune : (s : Text) → identifier_rest s ≡ true → All StringRune s
  unfolding identifier_rest is_letter is_digit ascii_letter ascii_digit
  identifier_rest-StringRune [] h = tt
  identifier_rest-StringRune (c ∷ s) h =
      ((ground arith, ground arith), identifier_rest-StringRune s (ground arith))

  identifier-StringRune : (s : Text) → is_json_path_identifier s ≡ true → All StringRune s
  unfolding is_json_path_identifier is_letter ascii_letter
  identifier-StringRune [] h = tt
  identifier-StringRune (c ∷ s) h =
      ((ground arith, ground arith), identifier_rest-StringRune s (ground arith))

  step_of_leg-SafeStep : (leg : Text) → AllOk SafeStep (step_of_leg leg)
  unfolding step_of_leg
  step_of_leg-SafeStep leg =
      if-both (AllOk SafeStep) (is_all_digits leg) (index_case (atoi leg))
        (key_case (is_json_path_identifier leg) refl)
    where
      index_case : (n : Option ℕ) → AllOk SafeStep (index_or_gap n)
      index_case none = tt
      index_case (some n) = tt

      key_case :
          (b : Bool)
          → is_json_path_identifier leg ≡ b
          → AllOk SafeStep (if b then ok (key leg) else gap (path_key_outside leg))
      key_case true e = identifier-StringRune leg e
      key_case false e = tt

  -- A step that was read, with the rest of the text.
  abbrev SafeRead : PathStep × Text → Type 0
  SafeRead read = SafeStep read.0

  step_and_rest-SafeRead : (leg rest : Text) → AllOk SafeRead (step_and_rest leg rest)
  unfolding step_and_rest
  step_and_rest-SafeRead [] rest = tt
  step_and_rest-SafeRead (c ∷ leg) rest =
      AllOk-bind SafeStep SafeRead (step_of_leg (c ∷ leg)) _ (step_of_leg-SafeStep (c ∷ leg))
        (λ step h. h)

  read_path_step-SafeRead : (s : Text) → AllOk SafeRead (read_path_step s)
  unfolding read_path_step
  read_path_step-SafeRead [] = tt
  read_path_step-SafeRead (c ∷ s) = if-both (AllOk SafeRead) (c == b'"') tt (
      if-both (AllOk SafeRead) (c == b'*') tt
        (step_and_rest-SafeRead (split_leg (c ∷ s)).0 (split_leg (c ∷ s)).1))

  abbrev SafeJson : JsonPath → Type 0
  SafeJson path = All SafeStep path.steps

  path_loop-SafeJson :
      (fuel : ℕ) (steps : List PathStep) (as_text : Bool) (raw : Text)
      → All SafeStep steps
      → AllOk SafeJson (path_loop fuel steps as_text raw)
  unfolding path_loop
  path_loop-SafeJson fuel steps as_text [] h = h
  path_loop-SafeJson fuel steps true (c ∷ s) h = tt
  path_loop-SafeJson zero steps false (c ∷ s) h = tt
  path_loop-SafeJson (suc fuel) steps false (c ∷ s) h =
      AllOk-bind (λ x. Unit {0}) SafeJson (read_arrow (c ∷ s)) _ (AllOk-any _ (λ x. tt) _)
        (λ leg x.
          AllOk-bind SafeRead SafeJson (read_path_step leg.1) _ (read_path_step-SafeRead leg.1)
            (λ read r.
              path_loop-SafeJson fuel (steps ++ read.0 ∷ []) leg.0 read.1
                (All-append SafeStep steps (read.0 ∷ []) h (r, tt))))

  parse_json_path-SafeJson : (raw : Text) → AllOk SafeJson (parse_json_path raw)
  unfolding parse_json_path some_leg
  parse_json_path-SafeJson raw =
      AllOk-bind SafeJson SafeJson (path_loop (length raw) [] false raw) _
        (path_loop-SafeJson (length raw) [] false raw tt) (λ path h. legs path.steps path.as_text h)
    where
      legs :
          (steps : List PathStep) (as_text : Bool)
          → All SafeStep steps
          → AllOk SafeJson (some_leg (record { steps = steps; as_text = as_text }))
      legs [] as_text h = tt
      legs (step ∷ steps) as_text h = h

  abbrev pub SafeField : Text × Option JsonPath → Type 0
  SafeField field = SafePath field.1

  path_field-SafeField : (name rest : Text) → AllOk SafeField (path_field name rest)
  unfolding path_field
  path_field-SafeField name rest =
      if-both (AllOk SafeField) (is_json_path_identifier name)
        (AllOk-bind SafeJson SafeField (parse_json_path rest) _ (parse_json_path-SafeJson rest)
          (λ path h. h))
        tt

  field_of-SafeField : (raw : Text) → AllOk SafeField (field_of raw)
  unfolding field_of
  field_of-SafeField [] = tt
  field_of-SafeField (c ∷ s) =
      if-both (AllOk SafeField) (contains (c ∷ s) (codes "#>")) tt
        (elim (Option-cases (cut_at (c ∷ s) arrow)) [
          | inl e ↦ rw (e, AllOk) tt
          | inr (p, e) ↦ rw (e, AllOk) (path_field-SafeField p.0 p.1)
        ])

  pub parse_field-SafeField : (raw : Text) → AllOk SafeField (parse_field raw)
  unfolding parse_field
  parse_field-SafeField raw = field_of-SafeField (trim_space raw)

-- A value that is one literal leaves the path as it is.
scalar-SafeFilter :
    (filter : Filter) (value : Text)
    → SafeFilter filter
    → AllOk SafeFilter (
        dequote_scalar_value value >>= λ literal.
        ok (record filter { value = literal; value_quoted = has_prefix value (codes "\"") }))
scalar-SafeFilter filter value h =
    AllOk-bind (λ x. Unit {0}) SafeFilter (dequote_scalar_value value) _ (AllOk-any _ (λ x. tt) _)
      (λ literal x. h)

parse_filter_value-SafeFilter :
    (op : Operator) (filter : Filter) (value : Text)
    → SafeFilter filter
    → AllOk SafeFilter (parse_filter_value op filter value)
unfolding parse_filter_value
parse_filter_value-SafeFilter op_eq filter value h = scalar-SafeFilter filter value h
parse_filter_value-SafeFilter op_neq filter value h = scalar-SafeFilter filter value h
parse_filter_value-SafeFilter op_gt filter value h = scalar-SafeFilter filter value h
parse_filter_value-SafeFilter op_gte filter value h = scalar-SafeFilter filter value h
parse_filter_value-SafeFilter op_lt filter value h = scalar-SafeFilter filter value h
parse_filter_value-SafeFilter op_lte filter value h = scalar-SafeFilter filter value h
parse_filter_value-SafeFilter op_like filter value h = scalar-SafeFilter filter value h
parse_filter_value-SafeFilter op_ilike filter value h = scalar-SafeFilter filter value h
parse_filter_value-SafeFilter op_in filter value h =
    AllOk-bind (λ x. Unit {0}) SafeFilter (parse_in_list value) _ (AllOk-any _ (λ x. tt) _)
      (λ values x. h)
parse_filter_value-SafeFilter op_is filter value h =
    if-both (AllOk SafeFilter) (is_is_value value) h tt
parse_filter_value-SafeFilter op_is_distinct filter value h = scalar-SafeFilter filter value h

module _ ⦃u : Unicode⦄ where
  pub parse_filter-SafeFilter : (column raw : Text) → AllOk SafeFilter (parse_filter column raw)
  unfolding parse_filter
  parse_filter-SafeFilter column raw =
      AllOk-bind SafeField SafeFilter (parse_field column) _ (parse_field-SafeField column)
        (λ field h.
          AllOk-bind (λ x. Unit {0}) SafeFilter (operator_and_value column (strip_not raw).1) _
            (AllOk-any _ (λ x. tt) _)
            (λ parts x.
              AllOk-bind (λ x. Unit {0}) SafeFilter (classify_operator parts.0) _
                (AllOk-any _ (λ x. tt) _) (λ op y. parse_filter_value-SafeFilter op _ parts.1 h)))
