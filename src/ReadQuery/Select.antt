-- ===== src/ReadQuery/Select.antt =====
-- internal/readquery/parse.go: the select parameter, its columns, aggregates and nested embeds.
pub mod Ends
use myrest.Prelude.{
  ℕ, zero, suc, ◌-◌, Bool, true, false, ◌||◌, not, Option, none, some, List, [], ◌∷◌, ◌++◌, ◌==◌,
  ◌&&◌, if◌then◌else◌, length, Result, ok, err, ◌>>=◌,
}
use myrest.Text.{
  Text, codes, equal, has_prefix, has_suffix, trim_prefix, cut_suffix, contains, cut, split,
  trim_space,
}
use myrest.Text.Unicode.{Unicode}
use myrest.ReadQuery.Query.{
  JsonPath, Aggregate, agg_count, agg_text, full_match_aggregates, Column, end, EmbedFields, Embed,
  embed, Embeds, done, more, append_embed,
}
use myrest.ReadQuery.Failure.{
  Message, embed_needs_parentheses, embed_needs_resource, join_types, casts, computed_fields,
  Failure, exhausted, Parsed, gap, refuse,
}
use myrest.ReadQuery.Field.{parse_field}
use myrest.ReadQuery.Filter.{is_listed}
use myrest.ReadQuery.SelectParts.{
  split_select_parts, head_and_inner, is_embed_part, EmbedHead, split_embed_head,
}

-- The part of the query that parseSelect writes.
pub record Selected : Type 0 where
  pub columns : List Column
  pub embeds : Embeds
  pub select_all : Bool

unfoldable pub has_join_type : List Text → Bool
unfolding is_listed
has_join_type [] = false
has_join_type (modifier ∷ modifiers) =
    is_listed modifier (codes "inner" ∷ codes "left" ∷ []) || has_join_type modifiers

abbrev embed_of : EmbedHead → Selected → Embed
embed_of head nested =
    embed
      (record {
        resource = head.resource;
        alias = head.alias;
        hint = head.hint;
        spread = head.spread;
        columns = nested.columns;
        filters = [];
        groups = end;
        order = [];
        limit = none;
        offset = 0;
      })
      nested.embeds

-- The checks of parseEmbedPart on the head, then the select between the parentheses.
unfoldable pub embed_of_head : (Text → Parsed Selected) → Text → EmbedHead → Text → Parsed Embed
unfolding has_join_type split
embed_of_head parse part head inner =
    if has_join_type (split head.hint b'!')
    then gap join_types
    else if equal head.resource []
    then refuse (embed_needs_resource part)
    else (parse inner >>= λ nested. ok (embed_of head nested))

unfoldable pub embed_of_parts :
    (Text → Parsed Selected) → Text → Option (Text × Text) → Parsed Embed
unfolding split_embed_head
embed_of_parts parse part none = refuse (embed_needs_parentheses part)
embed_of_parts parse part (some (head, inner)) =
    embed_of_head parse part (split_embed_head head) inner

-- `parse` is parseSelect, which calls itself through parseEmbedPart.
unfoldable pub parse_embed_part : (Text → Parsed Selected) → Text → Parsed Embed
unfolding embed_of_parts
parse_embed_part parse part = embed_of_parts parse part (head_and_inner part)

-- splitAggregate on a list of aggregates.
unfoldable pub split_aggregate : Text → List Aggregate → Option (Text × Aggregate)
unfolding cut_suffix agg_text
split_aggregate field [] = none
split_aggregate field (agg ∷ aggs) = elim (cut_suffix field (b'.' ∷ (agg_text agg ++ codes "()"))) [
  | none ↦ split_aggregate field aggs
  | some source ↦ some (source, agg)
]

abbrev column_of : Text → Option Aggregate → Text × Option JsonPath → Column
column_of alias agg field = record {
  name = field.0;
  alias = alias;
  path = field.1;
  agg = agg;
  star = false;
}

abbrev pub alias_and_field : Text → Option (Text × Text) → Text × Text
alias_and_field part none = ([], part)
alias_and_field part (some halves) = halves

abbrev pub star_column : Column
star_column = record { name = []; alias = []; path = none; agg = none; star = true }

-- The variables of parseSelect: the columns and embeds so far.
abbrev nothing_selected : Selected
nothing_selected = record { columns = []; embeds = done; select_all = false }

unfoldable pub all_stars : List Column → Bool
all_stars [] = true
all_stars (column ∷ columns) = column.star && all_stars columns

abbrev record_all : Selected → Selected
record_all s = record s { columns = []; select_all = true }

unfoldable pub record_select_all : Selected → List Column → Selected
unfolding all_stars
record_select_all s [] = s
record_select_all s (column ∷ columns) = if all_stars (column ∷ columns) then record_all s else s

module _ ⦃u : Unicode⦄ where
  -- The field of a column behind its alias: an aggregate of a field, or a field.
  unfoldable pub column_of_field : Text → Text → Option (Text × Aggregate) → Parsed Column
  unfolding has_suffix
  column_of_field alias field (some (source, agg)) = do
    read ← parse_field source
    ok (column_of alias (some agg) read)
  column_of_field alias field none =
      if has_suffix field (codes "()")
      then gap computed_fields
      else (parse_field field >>= λ read. ok (column_of alias none read))

  unfoldable pub parse_select_part : Text → Parsed Column
  unfolding contains cut split_aggregate
  parse_select_part part =
      if contains part (codes "::")
      then gap casts
      else (let (alias, field) = alias_and_field part (cut part b':') in
          if equal field (codes "count()")
          then ok (column_of alias (some agg_count) ([], none))
          else column_of_field alias field (split_aggregate field full_match_aggregates))

  unfoldable pub add_column : Selected → Text → Parsed Selected
  add_column s part = do
    column ← parse_select_part part
    ok (record s { columns = s.columns ++ column ∷ [] })

  unfoldable pub add_embed : (Text → Parsed Selected) → Selected → Text → Parsed Selected
  add_embed parse s part = do
    e ← parse_embed_part parse part
    ok (record s { embeds = append_embed s.embeds e })

  -- One round of the loop of parseSelect, on a part that is trimmed.
  unfoldable pub add_selected : (Text → Parsed Selected) → Selected → Text → Parsed Selected
  unfolding is_embed_part
  add_selected parse s [] = ok s
  add_selected parse s (c ∷ part) =
      if equal (c ∷ part) (codes "*")
      then ok (record s { columns = s.columns ++ star_column ∷ [] })
      else if is_embed_part (c ∷ part)
      then add_embed parse s (c ∷ part)
      else add_column s (c ∷ part)

  unfoldable pub add_all : (Text → Parsed Selected) → Selected → List Text → Parsed Selected
  unfolding record_select_all
  add_all parse s [] = ok (record_select_all s s.columns)
  add_all parse s (part ∷ parts) = do
    t ← add_selected parse s (trim_space part)
    add_all parse t parts

  -- parseSelect, with fuel for the depth of the nesting.
  unfoldable pub parse_select_on : ℕ → Text → Parsed Selected
  unfolding split_select_parts
  parse_select_on zero raw = err exhausted
  parse_select_on (suc fuel) raw =
      if is_listed raw ([] ∷ codes "*" ∷ [])
      then ok (record nothing_selected { select_all = true })
      else add_all (parse_select_on fuel) nothing_selected (split_select_parts raw)

  -- A nested select is shorter than the text around it, so its length is enough fuel.
  unfoldable pub parse_select : Text → Parsed Selected
  parse_select raw = parse_select_on (suc (length raw)) raw
