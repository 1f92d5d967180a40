-- ===== src/ReadQuery/InList.antt =====
-- internal/readquery/filter_parse.go: the list of an in filter, and a quoted scalar value.
pub mod Quoting
use myrest.Prelude.{
  ℕ, zero, suc, ◌+◌, ◌-◌, Bool, true, false, ◌&&◌, ◌||◌, not, Option, none, some, List, [], ◌∷◌,
  ◌++◌, ◌==◌, if◌then◌else◌, Result, ok, err, ◌>>=◌,
}
use myrest.Text.{Text, codes, cut_prefix, cut_suffix, trim_space}
use myrest.ReadQuery.Failure.{
  Message, quote_not_closed, text_after_quote, in_needs_parentheses, in_unbalanced_parentheses,
  in_unbalanced, Failure, Parsed, refuse,
}

-- The loop of dequoteScalarValue, on the literal so far and the rest of the body.
unfoldable pub read_quoted : Text → Text → Parsed Text
read_quoted literal [] = refuse quote_not_closed
read_quoted literal (c ∷ []) = if c == b'"' then ok literal else refuse quote_not_closed
read_quoted literal (c ∷ d ∷ s) = elim (c == b'"') [
  | true ↦ elim (d == b'"') [
    | true ↦ read_quoted (literal ++ b'"' ∷ []) s
    | false ↦ refuse text_after_quote
  ]
  | false ↦ read_quoted (literal ++ c ∷ []) (d ∷ s)
]

unfoldable pub dequote_scalar_value : Text → Parsed Text
unfolding read_quoted
dequote_scalar_value [] = ok []
dequote_scalar_value (c ∷ body) = if c == b'"' then read_quoted [] body else ok (c ∷ body)

-- strings.ReplaceAll of two quotes by one.
unfoldable pub replace_doubled : Text → Text
replace_doubled [] = []
replace_doubled (c ∷ []) = c ∷ []
replace_doubled (c ∷ d ∷ s) = elim (c == b'"' && d == b'"') [
  | true ↦ b'"' ∷ replace_doubled s
  | false ↦ c ∷ replace_doubled (d ∷ s)
]

unquote_trimmed : Text → Text
unfolding replace_doubled cut_suffix
unquote_trimmed [] = []
unquote_trimmed (c ∷ s) = elim (cut_suffix s (codes "\"")) [
  | none ↦ c ∷ s
  | some middle ↦ if c == b'"' then replace_doubled middle else c ∷ s
]

unfoldable pub unquote : Text → Text
unfolding unquote_trimmed trim_space
unquote raw = unquote_trimmed (trim_space raw)

-- The variables of the loop of splitCSV.
pub record Csv : Type 0 where
  pub parts : List Text
  pub current : Text
  pub in_quotes : Bool
  pub depth : ℕ

abbrev pub write_byte : Csv → ℕ → Csv
write_byte s ch = record s { current = s.current ++ ch ∷ [] }

unfoldable pub csv_step : Csv → ℕ → Parsed Csv
csv_step s ch =
    if ch == b'"'
    then ok (record (write_byte s ch) { in_quotes = not s.in_quotes })
    else if ch == b',' && not s.in_quotes
    then ok (record s { parts = s.parts ++ unquote s.current ∷ []; current = [] })
    else if ch == b'(' && not s.in_quotes
    then ok (record (write_byte s ch) { depth = s.depth + 1 })
    else if ch == b')' && not s.in_quotes
    then (if s.depth == 0
        then refuse in_unbalanced_parentheses
        else ok (record (write_byte s ch) { depth = s.depth - 1 }))
    else ok (write_byte s ch)

unfoldable pub csv_end : Csv → Parsed (List Text)
csv_end s =
    if not (s.depth == 0) || s.in_quotes
    then refuse in_unbalanced
    else ok (s.parts ++ unquote s.current ∷ [])

unfoldable pub csv_loop : Csv → Text → Parsed (List Text)
unfolding csv_step csv_end
csv_loop s [] = csv_end s
csv_loop s (ch ∷ raw) = do t ← csv_step s ch; csv_loop t raw

abbrev pub csv_start : Csv
csv_start = record { parts = []; current = []; in_quotes = false; depth = 0 }

unfoldable pub split_csv : Text → Parsed (List Text)
unfolding csv_loop
split_csv raw = csv_loop csv_start raw

list_items : Text → Parsed (List Text)
unfolding split_csv
list_items [] = ok []
list_items (c ∷ s) = split_csv (c ∷ s)

-- The suffix is looked for behind the opening parenthesis, which it cannot be.
unfoldable pub parse_in_list : Text → Parsed (List Text)
unfolding list_items cut_prefix cut_suffix
parse_in_list raw = elim (cut_prefix raw (codes "(")) [
  | none ↦ refuse in_needs_parentheses
  | some body ↦ elim (cut_suffix body (codes ")")) [
    | none ↦ refuse in_needs_parentheses
    | some inner ↦ list_items inner
  ]
]
