-- ===== src/Tests/Reading.antt =====
-- Examples of the parsers of internal/readquery and of the pages.
use myrest.Prelude.{
  ℕ, ◌-◌, ◌<◌, ◌≡◌, ◌≢◌, ◌↔◌, refl, true, false, some, List, [], ◌∷◌, ◌++◌, map, arith, ok, err,
  inl,
}
use myrest.Text.{Text, codes, join}
use myrest.Text.Unicode.{only_ascii}
use myrest.Text.Decimal.{atoi}
use myrest.Text.Trim.{all_name_runes, names_by_test}
use myrest.ReadQuery.Query.{Query, zero_query}
use myrest.ReadQuery.Failure.{exhausted}
use myrest.ReadQuery.Field.{
  is_all_digits, is_json_path_identifier, parse_json_path, step_of_leg, parse_field,
}
use myrest.ReadQuery.Field.Grammar.{LegsFor, legs_text, parse_json_path-legs_text}
use myrest.ReadQuery.Field.Sound.{parse_json_path-eq-ok}
use myrest.ReadQuery.Field.Fuel.{parse_field-ne-exhausted}
use myrest.ReadQuery.InList.{dequote_scalar_value, parse_in_list}
use myrest.ReadQuery.InList.Quoting.{quoted, dequote_scalar_value-quoted, parse_in_list-quoted}
use myrest.ReadQuery.Filter.{is_is_value, parse_filter}
use myrest.ReadQuery.Filter.Print.{operand, IsPrintable, parse_filter-operand}
use myrest.ReadQuery.Groups.{parse_group}
use myrest.ReadQuery.Groups.Print.{group_text, IsPrintableGroup}
use myrest.ReadQuery.Groups.Fuel.{parse_group-ne-exhausted}
use myrest.ReadQuery.Groups.RoundTrip.{parse_group-group_text}
use myrest.ReadQuery.Page.{u64, apply_range, page_row_set}
use myrest.ReadQuery.Page.Window.{OnPage, InRange, Wraps}
use myrest.ReadQuery.Page.Range.{apply_range-OnPage, apply_range-ok_iff, apply_range-Wraps}
use myrest.ReadQuery.Page.Rows.{page_row_set-first_rows}
use myrest.Tests.Data.{at_least_18, named, retired, tree, legs, leg_steps}

at_least_18-IsPrintable : IsPrintable at_least_18
unfolding all_name_runes
at_least_18-IsPrintable = record {
  name = (names_by_test (codes "age") refl, cc);
  no_path = refl;
  value = (refl, refl);
}

named-IsPrintable : IsPrintable named
unfolding all_name_runes
named-IsPrintable = record {
  name = (names_by_test (codes "name") refl, cc);
  no_path = refl;
  value = (cc, refl, refl);
}

retired-IsPrintable : IsPrintable retired
unfolding all_name_runes is_is_value
retired-IsPrintable = record {
  name = (names_by_test (codes "retired") refl, cc);
  no_path = refl;
  value = (refl, refl, refl);
}

tree-IsPrintable : IsPrintableGroup tree
tree-IsPrintable = (
  (at_least_18-IsPrintable, tt),
  (((named-IsPrintable, (retired-IsPrintable, tt)), tt, inl (cc)), tt),
  inl cc,
)

pub parse_group-tree : parse_group ⦃u = only_ascii⦄ (group_text tree) false ≡ ok tree
parse_group-tree = parse_group-group_text ⦃u = only_ascii⦄ tree tree-IsPrintable

parse_group-group_text_example : parse_group ⦃u = only_ascii⦄ (group_text tree) false ≡ ok tree
parse_group-group_text_example = parse_group-group_text ⦃u = only_ascii⦄ tree tree-IsPrintable

parse_group-ne-exhausted_example :
    parse_group ⦃u = only_ascii⦄ (codes "(a.eq.1,or(b.is.null))") true ≢ err exhausted
parse_group-ne-exhausted_example =
    parse_group-ne-exhausted ⦃u = only_ascii⦄ (codes "(a.eq.1,or(b.is.null))") true

parse_filter-operand_example :
    parse_filter ⦃u = only_ascii⦄ (codes "name") (operand named) ≡ ok named
parse_filter-operand_example = parse_filter-operand ⦃u = only_ascii⦄ named named-IsPrintable

dequote_scalar_value-quoted_example :
    dequote_scalar_value (quoted (codes "say \"hi\"")) ≡ ok (codes "say \"hi\"")
dequote_scalar_value-quoted_example = dequote_scalar_value-quoted (codes "say \"hi\"")

parse_in_list-quoted_example :
    parse_in_list (b'(' ∷ (join (map quoted named.values) (codes ",") ++ codes ")"))
    ≡ ok named.values
parse_in_list-quoted_example = parse_in_list-quoted named.values cc

legs-LegsFor : LegsFor ⦃u = only_ascii⦄ legs leg_steps
unfolding step_of_leg is_all_digits is_json_path_identifier atoi
legs-LegsFor = (refl, (refl, tt))

parse_json_path-legs_text_example :
    parse_json_path ⦃u = only_ascii⦄ (codes "->items->>0")
    ≡ ok (record { steps = leg_steps; as_text = true })
parse_json_path-legs_text_example =
    parse_json_path-legs_text ⦃u = only_ascii⦄ legs leg_steps true legs-LegsFor cc

parse_json_path-eq-ok_example :
    (spelled : List Text) × (spelled ≢ [])
    × LegsFor ⦃u = only_ascii⦄ spelled leg_steps
    × (codes "->items->>0" ≡ legs_text spelled true)
parse_json_path-eq-ok_example =
    parse_json_path-eq-ok ⦃u = only_ascii⦄ (codes "->items->>0")
      {p = record { steps = leg_steps; as_text = true }} parse_json_path-legs_text_example

parse_field-ne-exhausted_example :
    parse_field ⦃u = only_ascii⦄ (codes "data->items->>0") ≢ err exhausted
parse_field-ne-exhausted_example =
    parse_field-ne-exhausted ⦃u = only_ascii⦄ (codes "data->items->>0")

-- limit=10, offset=20
abbrev second_page : Query
second_page = record zero_query { limit = some 10; offset = 20 }

-- Range: 25-40 of that page.
abbrev narrowed_page : Query
narrowed_page = record zero_query { limit = some 5; offset = 25 }

apply_range-second_page : apply_range second_page 25 (some 40) ≡ ok narrowed_page
unfolding apply_range
apply_range-second_page = refl

second_page-ne-Wraps : ¬ Wraps second_page 25 (some 40)
second_page-ne-Wraps w = cc

apply_range-OnPage_example :
    OnPage narrowed_page 27 ↔ OnPage second_page 27 × InRange 25 (some 40) 27
apply_range-OnPage_example =
    apply_range-OnPage second_page 25 (some 40) (omega arith) (omega arith) (omega arith) (cc)
      {q' = narrowed_page} second_page-ne-Wraps apply_range-second_page 27 (omega arith)

apply_range-ok_iff_example :
    ((q' : Query) × (apply_range second_page 25 (some 40) ≡ ok q'))
    ↔ ((i : ℕ) × (i < u64) × OnPage second_page i × InRange 25 (some 40) i)
apply_range-ok_iff_example =
    apply_range-ok_iff second_page 25 (some 40) (omega arith) (omega arith) (omega arith) (cc)
      (omega arith)

apply_range-Wraps_example :
    OnPage zero_query 3
    × InRange 0 (some (u64 - 1)) 3
    × ((q' : Query) × (apply_range zero_query 0 (some (u64 - 1)) ≡ ok q') × ¬ OnPage q' 3)
apply_range-Wraps_example =
    apply_range-Wraps zero_query 0 (some (u64 - 1)) 3 (refl, refl, refl, refl) (omega arith)

page_row_set-first_rows_example : page_row_set {A = ℕ} (7 ∷ 8 ∷ 9 ∷ []) 1 (some 1) ≡ 8 ∷ []
page_row_set-first_rows_example = page_row_set-first_rows {A = ℕ} (7 ∷ 8 ∷ 9 ∷ []) 1 (some 1)
