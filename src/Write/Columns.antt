-- ===== src/Write/Columns.antt =====
-- The columns of an INSERT are the keys of its rows, and the database lets each of them be written.
use myrest.Prelude.{
  ◌≡◌, ◌⊎◌, inl, inr, refl, false, Option, none, some, List, [], ◌∷◌, ◌++◌, ok, Bool-cases, AllOk,
  AllOk-map, AllOk-bind, AllOk-ok, Among, Among-append, Among-append_left, Among-append_right,
}
use myrest.Text.{Text}
use myrest.Dict.{text_eq, holds, keys}
use myrest.Dict.Laws.{holds-Among}
use myrest.ReadQuery.Parse.{text_less, insert_key}
use myrest.Schema.{Table, Column, find_column}
use myrest.Write.{Row}
use myrest.Write.Insert.{
  sort_names, new_column, row_columns, rows_columns, some_columns, insert_columns,
}

-- The names that the rows hold, row by row.
abbrev pub names_of : List Row → List Text
names_of [] = []
names_of (row ∷ rows) = keys row ++ names_of rows

-- The table has the column, and it is not a generated one.
abbrev pub IsWritable : Table → Text → Type 0
IsWritable table name =
    (column : Column) × (find_column table.columns name ≡ some column) × (column.generated ≡ false)

-- The columns so far have become those and the new names, all of them columns that can be written.
record Extends (table : Table) (names before after : List Text) : Type 0 where
  kept : (n : Text) → Among n before → Among n after
  added : (n : Text) → Among n names → Among n after
  only : (n : Text) → Among n after → Among n before ⊎ Among n names
  writable :
      ((n : Text) → Among n before → IsWritable table n)
      → (n : Text) → Among n after
      → IsWritable table n

module _ (table : Table) where
  new_column-Extends :
      (name : Text) (found : Option Column) (columns : List Text)
      → find_column table.columns name ≡ found
      → AllOk (Extends table (name ∷ []) columns) (new_column found name columns)
  unfolding new_column
  new_column-Extends name none columns e = tt
  new_column-Extends name (some column) columns e = elim (Bool-cases column.generated) [
    | inl generated ↦ rw (generated, AllOk) tt
    | inr ordinary ↦
        rw (ordinary, AllOk)
          (record {
            kept = λ n m. Among-append_left n columns (name ∷ []) m;
            added = λ n m. Among-append_right n columns (name ∷ []) m;
            only = λ n m. Among-append n columns (name ∷ []) m;
            writable = λ old n m. elim (Among-append n columns (name ∷ []) m) [
              | inl before ↦ old n before
              | inr (inl same) ↦ rw same (column, e, ordinary)
              | inr (inr nothing) ↦ absurd nothing
            ];
          })
  ]

  Extends-trans :
      (xs ys a b c : List Text)
      → Extends table xs a b
      → Extends table ys b c
      → Extends table (xs ++ ys) a c
  Extends-trans xs ys a b c f g = record {
    kept = λ n m. g.kept n (f.kept n m);
    added = λ n m. elim (Among-append n xs ys m) [
      | inl left ↦ g.kept n (f.added n left)
      | inr right ↦ g.added n right
    ];
    only = λ n m. elim (g.only n m) [
      | inl old ↦ elim (f.only n old) [
        | inl older ↦ inl older
        | inr left ↦ inr (Among-append_left n xs ys left)
      ]
      | inr right ↦ inr (Among-append_right n xs ys right)
    ];
    writable = λ old. g.writable (f.writable old);
  }

  Extends-held :
      (name : Text) (names before after : List Text)
      → Among name before
      → Extends table names before after
      → Extends table (name ∷ names) before after
  Extends-held name names before after held f = record {
    kept = f.kept;
    added = λ n m. elim m [ inl same ↦ rw same (f.kept name held) | inr later ↦ f.added n later ];
    only = λ n m. elim (f.only n m) [ inl old ↦ inl old | inr later ↦ inr (inr later) ];
    writable = f.writable;
  }

  Extends-none : (before : List Text) → Extends table [] before before
  Extends-none before = record {
    kept = λ n m. m;
    added = λ n m. absurd m;
    only = λ n m. inl m;
    writable = λ old. old;
  }

  row_columns-Extends :
      (row : Row) (columns : List Text)
      → AllOk (Extends table (keys row) columns) (row_columns row table columns)
  unfolding row_columns keys
  row_columns-Extends [] columns = Extends-none columns
  row_columns-Extends ((name, v) ∷ row) columns = elim (Bool-cases (holds columns name)) [
    | inl held ↦
        rw (held, AllOk)
          (AllOk-map (Extends table (keys row) columns) (Extends table (name ∷ keys row) columns)
            (λ after f.
              Extends-held name (keys row) columns after (holds-Among columns name held) f)
            (row_columns row table columns) (row_columns-Extends row columns))
    | inr new ↦
        rw (new, AllOk)
          (AllOk-bind (Extends table (name ∷ []) columns) (Extends table (name ∷ keys row) columns)
            (new_column (find_column table.columns name) name columns) _
            (new_column-Extends name (find_column table.columns name) columns refl)
            (λ after f.
              AllOk-map (Extends table (keys row) after) (Extends table (name ∷ keys row) columns)
                (λ last g. Extends-trans (name ∷ []) (keys row) columns after last f g)
                (row_columns row table after) (row_columns-Extends row after)))
  ]

  rows_columns-Extends :
      (rows : List Row) (columns : List Text)
      → AllOk (Extends table (names_of rows) columns) (rows_columns rows table columns)
  unfolding rows_columns
  rows_columns-Extends [] columns = Extends-none columns
  rows_columns-Extends (row ∷ rows) columns =
      AllOk-bind (Extends table (keys row) columns) (Extends table (names_of (row ∷ rows)) columns)
        (row_columns row table columns) _ (row_columns-Extends row columns)
        (λ after f.
          AllOk-map (Extends table (names_of rows) after)
            (Extends table (names_of (row ∷ rows)) columns)
            (λ last g. Extends-trans (keys row) (names_of rows) columns after last f g)
            (rows_columns rows table after) (rows_columns-Extends rows after))

insert_key-Among :
    (k : Text) (ks : List Text) (n : Text) → Among n (insert_key k ks) → (n ≡ k) ⊎ Among n ks
unfolding insert_key
insert_key-Among k [] n m = m
insert_key-Among k (j ∷ ks) n m = elim (Bool-cases (text_less j k)) [
  | inl less ↦ elim (rw (less, Among) at m) [
    | inl first ↦ inr (inl first)
    | inr later ↦ elim (insert_key-Among k ks n later) [
      | inl same ↦ inl same
      | inr old ↦ inr (inr old)
    ]
  ]
  | inr above ↦ rw (above, Among) at m
]

Among-insert_key :
    (k : Text) (ks : List Text) (n : Text) → (n ≡ k) ⊎ Among n ks → Among n (insert_key k ks)
unfolding insert_key
Among-insert_key k [] n m = m
Among-insert_key k (j ∷ ks) n m = elim (Bool-cases (text_less j k)) [
  | inl less ↦
      rw (less, Among)
        (elim m [
          | inl same ↦ inr (Among-insert_key k ks n (inl same))
          | inr (inl first) ↦ inl first
          | inr (inr later) ↦ inr (Among-insert_key k ks n (inr later))
        ])
  | inr above ↦ rw (above, Among) m
]

sort_names-Among : (ns : List Text) (n : Text) → Among n (sort_names ns) → Among n ns
unfolding sort_names
sort_names-Among [] n m = m
sort_names-Among (first ∷ ns) n m = elim (insert_key-Among first (sort_names ns) n m) [
  | inl same ↦ inl same
  | inr later ↦ inr (sort_names-Among ns n later)
]

Among-sort_names : (ns : List Text) (n : Text) → Among n ns → Among n (sort_names ns)
unfolding sort_names
Among-sort_names [] n m = m
Among-sort_names (first ∷ ns) n (inl same) = Among-insert_key first (sort_names ns) n (inl same)
Among-sort_names (first ∷ ns) n (inr later) =
    Among-insert_key first (sort_names ns) n (inr (Among-sort_names ns n later))

-- What the columns of an insert are to the rows.
abbrev pub ColumnsOf : Table → List Row → List Text → Type 0
ColumnsOf table rows columns =
    (n : Text)
    → (Among n (names_of rows) → Among n columns)
      × (Among n columns → Among n (names_of rows) × IsWritable table n)

some_columns-ColumnsOf :
    (table : Table) (rows : List Row) (columns : List Text)
    → Extends table (names_of rows) [] columns
    → AllOk (ColumnsOf table rows) (some_columns columns)
unfolding some_columns
some_columns-ColumnsOf table rows [] f = tt
some_columns-ColumnsOf table rows (c ∷ columns) f = λ n. (
  λ m. Among-sort_names (c ∷ columns) n (f.added n m),
  λ m.
      let m' = sort_names-Among (c ∷ columns) n m in
      (
        elim (f.only n m') [ inl nothing ↦ absurd nothing | inr name ↦ name ],
        f.writable (λ n nothing. absurd nothing) n m',
      ),
)

-- For every table and rows whose columns are accepted: the columns of the INSERT are exactly the
-- names that the rows hold, and each is a column of the table that is not a generated one.
pub insert_columns-ColumnsOf :
    (table : Table) (rows : List Row) {columns : List Text}
    → insert_columns table rows ≡ ok columns
    → ColumnsOf table rows columns
unfolding insert_columns
insert_columns-ColumnsOf table rows e =
    AllOk-ok (ColumnsOf table rows) (insert_columns table rows)
      (AllOk-bind (Extends table (names_of rows) []) (ColumnsOf table rows)
        (rows_columns rows table []) _ (rows_columns-Extends table rows [])
        (λ columns f. some_columns-ColumnsOf table rows columns f))
      e
