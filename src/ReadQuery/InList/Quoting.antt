-- ===== src/ReadQuery/InList/Quoting.antt =====
-- Quoted values are read back whatever they hold.
use mathlib.Core.List.{reverse, reverse-append, reverse-reverse}
use myrest.Prelude.{
  ℕ, ◌≡◌, ◌≢◌, refl, sym, ap, ◌∙◌, true, false, List, [], ◌∷◌, ◌++◌, map, append_assoc, append-nil,
  arith, ◌==◌, if◌then◌else◌, not, Bool-cases, inl, inr, ok,
}
use myrest.Text.{Text, codes, join, trim_space, trim_left}
use myrest.Text.Laws.{cut_suffix-append}
use myrest.ReadQuery.InList.{
  read_quoted, dequote_scalar_value, replace_doubled, unquote_trimmed, unquote, Csv, write_byte,
  csv_loop, csv_start, split_csv, list_items, parse_in_list,
}

-- A quote of the value is written twice.
abbrev pub doubled : Text → Text
doubled [] = []
doubled (c ∷ s) = let rest = doubled s in if c == b'"' then b'"' ∷ b'"' ∷ rest else c ∷ rest

abbrev pub quoted : Text → Text
quoted value = b'"' ∷ (doubled value ++ b'"' ∷ [])

read_quoted_plain :
    (literal : Text) (c : ℕ) (s : Text)
    → (c == b'"') ≡ false
    → s ≢ []
    → read_quoted literal (c ∷ s) ≡ read_quoted (literal ++ c ∷ []) s
unfolding read_quoted
read_quoted_plain literal c [] h ne = absurd (ne refl)
read_quoted_plain literal c (d ∷ s) h ne = rw (h, read_quoted)

append_quote-ne-nil : (s : Text) → s ++ b'"' ∷ [] ≢ []
append_quote-ne-nil [] = cc
append_quote-ne-nil (c ∷ s) = cc

read_quoted-doubled :
    (literal value : Text)
    → read_quoted literal (doubled value ++ b'"' ∷ []) ≡ ok (literal ++ value)
unfolding read_quoted
read_quoted-doubled literal [] = ground (arith, append-nil literal)
read_quoted-doubled literal (c ∷ value) = elim (Bool-cases (c == b'"')) [
  | inl e ↦ ground (
    arith,
    read_quoted-doubled (literal ++ b'"' ∷ []) value,
    append_assoc literal (b'"' ∷ []) value,
  )
  | inr e ↦ rw e (
      read_quoted_plain literal c _ e (append_quote-ne-nil (doubled value))
      ∙ read_quoted-doubled (literal ++ c ∷ []) value
      ∙ ap ok (append_assoc literal (c ∷ []) value))
]

-- A scalar value in double quotes, with each of its quotes doubled, is read as that value.
pub dequote_scalar_value-quoted : (value : Text) → dequote_scalar_value (quoted value) ≡ ok value
unfolding dequote_scalar_value
dequote_scalar_value-quoted value = read_quoted-doubled [] value

replace_doubled_plain :
    (c : ℕ) (s : Text) → (c == b'"') ≡ false → replace_doubled (c ∷ s) ≡ c ∷ replace_doubled s
unfolding replace_doubled
replace_doubled_plain c [] h = refl
replace_doubled_plain c (d ∷ s) h = ground arith

replace_doubled-doubled : (value : Text) → replace_doubled (doubled value) ≡ value
unfolding replace_doubled
replace_doubled-doubled [] = refl
replace_doubled-doubled (c ∷ value) =
    ground (arith, replace_doubled_plain c (doubled value), replace_doubled-doubled value)

trim_left_quote : (s : Text) → trim_left (b'"' ∷ s) ≡ b'"' ∷ s
unfolding trim_left
trim_left_quote s = refl

reverse-quoted : (value : Text) → reverse (quoted value) ≡ b'"' ∷ reverse (b'"' ∷ doubled value)
reverse-quoted value = reverse-append (b'"' ∷ doubled value) (b'"' ∷ [])

trim_space-quoted : (value : Text) → trim_space (quoted value) ≡ quoted value
unfolding trim_space
trim_space-quoted value =
    ap (λ s. reverse (trim_left (reverse s))) (trim_left_quote (doubled value ++ b'"' ∷ []))
    ∙ ap (λ s. reverse (trim_left s)) (reverse-quoted value)
    ∙ ap reverse (trim_left_quote (reverse (b'"' ∷ doubled value)) ∙ sym (reverse-quoted value))
    ∙ reverse-reverse (quoted value)

pub unquote-quoted : (value : Text) → unquote (quoted value) ≡ value
unfolding unquote
unquote-quoted value = rw (trim_space-quoted value) (
    rw (cut_suffix-append (doubled value) (codes "\""), unquote_trimmed)
      (replace_doubled-doubled value))

csv_loop_quote :
    (s : Csv) (rest : Text)
    → csv_loop s (b'"' ∷ rest)
      ≡ csv_loop (record s { current = s.current ++ b'"' ∷ []; in_quotes = not s.in_quotes }) rest
unfolding csv_loop
csv_loop_quote s rest = refl

csv_loop_plain :
    (s : Csv) (c : ℕ) (rest : Text)
    → s.in_quotes ≡ true
    → (c == b'"') ≡ false
    → csv_loop s (c ∷ rest) ≡ csv_loop (write_byte s c) rest
unfolding csv_loop
csv_loop_plain s c rest h e = ground arith

csv_loop-doubled :
    (value rest : Text) (parts : List Text) (current : Text) (depth : ℕ)
    → csv_loop
        (record { parts = parts; current = current; in_quotes = true; depth = depth })
        (doubled value ++ rest)
      ≡ csv_loop
          (record {
            parts = parts;
            current = current ++ doubled value;
            in_quotes = true;
            depth = depth;
          })
          rest
csv_loop-doubled [] rest parts current depth = rw append-nil
csv_loop-doubled (c ∷ value) rest parts current depth = elim (Bool-cases (c == b'"')) [
  | inl e ↦ rw e (
      csv_loop_quote _ (b'"' ∷ (doubled value ++ rest))
      ∙ csv_loop_quote _ (doubled value ++ rest)
      ∙ csv_loop-doubled value rest parts ((current ++ b'"' ∷ []) ++ b'"' ∷ []) depth
      ∙ simp append_assoc)
  | inr e ↦ rw e (
      csv_loop_plain _ c (doubled value ++ rest) refl e
      ∙ csv_loop-doubled value rest parts (current ++ c ∷ []) depth
      ∙ simp append_assoc)
]

-- a whole quoted value, from an empty current value
csv_loop-quoted :
    (value rest : Text) (parts : List Text)
    → csv_loop (record csv_start { parts = parts }) (quoted value ++ rest)
      ≡ csv_loop (record csv_start { parts = parts; current = quoted value }) rest
csv_loop-quoted value rest parts =
    csv_loop_quote _ _
    ∙ ap (csv_loop _) (append_assoc (doubled value) (b'"' ∷ []) rest)
    ∙ csv_loop-doubled value (b'"' ∷ rest) parts (b'"' ∷ []) 0
    ∙ csv_loop_quote _ rest

csv_loop_comma :
    (value rest : Text) (parts : List Text)
    → csv_loop (record csv_start { parts = parts; current = quoted value }) (b',' ∷ rest)
      ≡ csv_loop (record csv_start { parts = parts ++ value ∷ [] }) rest
unfolding csv_loop
csv_loop_comma value rest parts = rw (unquote-quoted value)

csv_loop_last :
    (value : Text) (parts : List Text)
    → csv_loop (record csv_start { parts = parts; current = quoted value }) []
      ≡ ok (parts ++ value ∷ [])
unfolding csv_loop
csv_loop_last value parts = rw (unquote-quoted value)

csv_loop-join :
    (value : Text) (values parts : List Text)
    → csv_loop (record csv_start { parts = parts }) (join (map quoted (value ∷ values)) (codes ","))
      ≡ ok (parts ++ value ∷ values)
unfolding join
csv_loop-join value [] parts =
    ap (csv_loop _) (sym (append-nil (quoted value)))
    ∙ csv_loop-quoted value [] parts
    ∙ csv_loop_last value parts
csv_loop-join value (next ∷ values) parts =
    csv_loop-quoted value _ parts
    ∙ csv_loop_comma value _ parts
    ∙ csv_loop-join next values (parts ++ value ∷ [])
    ∙ ap ok (append_assoc parts (value ∷ []) (next ∷ values))

list_items-split_csv : (s : Text) → s ≢ [] → list_items s ≡ split_csv s
unfolding list_items
list_items-split_csv [] ne = absurd (ne refl)
list_items-split_csv (c ∷ s) ne = refl

join-quoted-ne-nil :
    (value : Text) (values : List Text) → join (map quoted (value ∷ values)) (codes ",") ≢ []
unfolding join
join-quoted-ne-nil value [] = cc
join-quoted-ne-nil value (next ∷ values) = cc

-- A list of one or more quoted values is read as those values, whatever they hold.
pub parse_in_list-quoted :
    (values : List Text)
    → values ≢ []
    → parse_in_list (b'(' ∷ (join (map quoted values) (codes ",") ++ codes ")")) ≡ ok values
unfolding parse_in_list split_csv join
parse_in_list-quoted [] ne = absurd (ne refl)
parse_in_list-quoted (value ∷ values) ne =
    rw (cut_suffix-append (join (map quoted (value ∷ values)) (codes ",")) (codes ")"))
      (list_items-split_csv _ (join-quoted-ne-nil value values) ∙ csv_loop-join value values [])
