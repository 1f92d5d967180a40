-- ===== src/Sql/Marks/Pieces.antt =====
-- The placeholders of literals, identifiers and column expressions.
use myrest.Prelude.{
  ℕ, ◌+◌, ◌≡◌, ◌≢◌, refl, ap, ◌∙◌, Bool, true, not, ◌&&◌, Option, none, some, List, [], ◌∷◌, ◌++◌,
  append_assoc, arith, ◌==◌, All, All-append, All-map, if-both, AllOk,
}
use myrest.Text.{Text, codes}
use myrest.Text.Decimal.{format_uint, format_uint-IsDigit}
use myrest.ReadQuery.Query.{PathStep, key, index, JsonPath}
use myrest.Schema.{Table, Column as TableColumn, find_column}
use myrest.Sql.Expr.{
  escape_ticks, quote_identifier, step_sql, steps_sql, mysql_json_path, json_path_sql, path_expr,
  found_expr, column_expr, is_json_data_type,
}
use myrest.Sql.Marks.{plain, inside, marks, Marked, Marked-nil, Marked-before}

-- Neither a quote nor a placeholder.
abbrev PlainRune : ℕ → Type 0
PlainRune c = (c ≢ b'`') × (c ≢ b'\'') × (c ≢ b'"') × (c ≢ b'?')

pub Marked-plain : (s : Text) → All PlainRune s → Marked 0 s
unfolding marks
Marked-plain [] h = Marked-nil
Marked-plain (c ∷ s) h = record {
  counts = λ rest. ground (arith, (Marked-plain s h.1).counts rest);
}

unfoldable pub plain_text : Text → Bool
plain_text [] = true
plain_text (c ∷ s) =
    not (c == b'`') && not (c == b'\'') && not (c == b'"') && not (c == b'?') && plain_text s

-- Literals are seen to be plain by evaluation.
pub Marked-literal : (s : Text) → plain_text s ≡ true → Marked 0 s
unfolding plain_text
Marked-literal s h = Marked-plain s (go s h)
  where
    go : (s : Text) → plain_text s ≡ true → All PlainRune s
    go [] h = tt
    go (c ∷ s) h = (ground arith, go s (ground arith))

pub Marked-placeholder : Marked 1 (codes "?")
unfolding marks
Marked-placeholder = record { counts = λ rest. refl }

marks-escape_ticks :
    (name rest : Text) → marks (inside b'`') (escape_ticks name ++ b'`' ∷ rest) ≡ marks plain rest
unfolding marks escape_ticks
marks-escape_ticks [] rest = omega arith
marks-escape_ticks (c ∷ name) rest = ground (arith, marks-escape_ticks name rest)

-- A quoted identifier is one token, whatever the name holds.
pub Marked-quote_identifier : (name : Text) → Marked 0 (quote_identifier name)
unfolding marks quote_identifier
Marked-quote_identifier name = record {
  counts = λ rest.
      ap (λ s. 0 + marks (inside b'`') s) (append_assoc (escape_ticks name) (codes "`") rest)
      ∙ ap (λ n. 0 + n) (marks-escape_ticks name rest);
}

pub Marked-format_uint : (n : ℕ) → Marked 0 (format_uint n)
Marked-format_uint n = Marked-plain (format_uint n) (
    All-map (λ c d. (omega arith, omega arith, omega arith, omega arith)) (format_uint n)
      (format_uint-IsDigit n))

-- What a string in single quotes holds as it stands.
abbrev pub StringRune : ℕ → Type 0
StringRune c = (c ≢ b'\'') × (c ≢ b'\\')

-- A key of a path cannot end the string that the path stands in.
abbrev pub SafeStep : PathStep → Type 0
SafeStep (index n) = Unit
SafeStep (key k) = All StringRune k

abbrev pub SafePath : Option JsonPath → Type 0
SafePath none = Unit
SafePath (some path) = All SafeStep path.steps

step_sql-StringRune : (step : PathStep) → SafeStep step → All StringRune (step_sql step)
unfolding step_sql
step_sql-StringRune (index n) h = (
  omega arith,
  All-append StringRune (format_uint n) (codes "]")
      (All-map (λ c d. omega arith) (format_uint n) (format_uint-IsDigit n)) (omega arith),
)
step_sql-StringRune (key k) h = (omega arith, h)

steps_sql-StringRune :
    (steps : List PathStep) → All SafeStep steps → All StringRune (steps_sql steps)
unfolding steps_sql
steps_sql-StringRune [] h = tt
steps_sql-StringRune (step ∷ steps) h =
    All-append StringRune (step_sql step) (steps_sql steps) (step_sql-StringRune step h.0)
      (steps_sql-StringRune steps h.1)

marks-string :
    (s rest : Text) → All StringRune s → marks (inside b'\'') (s ++ b'\'' ∷ rest) ≡ marks plain rest
unfolding marks
marks-string [] rest h = omega arith
marks-string (c ∷ s) rest h = ground (arith, marks-string s rest h.1)

Marked-string : (s : Text) → All StringRune s → Marked 0 (codes "'" ++ (s ++ codes "'"))
unfolding marks
Marked-string s h = record {
  counts = λ rest.
      ap (λ t. 0 + marks (inside b'\'') t) (append_assoc s (codes "'") rest)
      ∙ ap (λ n. 0 + n) (marks-string s rest h);
}

Marked-json_path_sql :
    (column : Text) (path : JsonPath)
    → All SafeStep path.steps
    → Marked 0 (json_path_sql column path)
unfolding json_path_sql mysql_json_path plain_text
Marked-json_path_sql column path h =
    Marked-before (quote_identifier column) _ (Marked-quote_identifier column) (
      Marked-before _ _
        (if-both (Marked 0) path.as_text (Marked-literal (codes "->>") refl)
          (Marked-literal (codes "->") refl))
        (Marked-string (b'$' ∷ steps_sql path.steps)
          (omega arith, steps_sql-StringRune path.steps h)))

pub path_expr-Marked :
    (column : TableColumn) (name : Text) (path : Option JsonPath)
    → SafePath path
    → AllOk (Marked 0) (path_expr column name path)
unfolding path_expr
path_expr-Marked column name none s = Marked-quote_identifier name
path_expr-Marked column name (some path) s =
    if-both (AllOk (Marked 0)) (is_json_data_type column.data_type)
      (Marked-json_path_sql name path s) tt

found_expr-Marked :
    (name : Text) (path : Option JsonPath) (found : Option TableColumn)
    → SafePath path
    → AllOk (Marked 0) (found_expr name path found)
unfolding found_expr
found_expr-Marked name path none s = tt
found_expr-Marked name path (some column) s = path_expr-Marked column name path s

pub column_expr-Marked :
    (table : Table) (name : Text) (path : Option JsonPath)
    → SafePath path
    → AllOk (Marked 0) (column_expr table name path)
unfolding column_expr
column_expr-Marked table name path s =
    found_expr-Marked name path (find_column table.columns name) s
