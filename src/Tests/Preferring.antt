-- ===== src/Tests/Preferring.antt =====
-- Examples of the Prefer header.
use myrest.Prelude.{◌≡◌, inl, inr, refl, true, none, some, List, [], ◌∷◌, Among}
use myrest.Text.{Text, codes, split, trim_space, cut, equal}
use myrest.Text.Unicode.{only_ascii, to_lower}
use myrest.Prefer.{surface_read, is_one_of, rule_handling, rule_count}
use myrest.Prefer.Rules.{parse, refusal}
use myrest.Prefer.Lines.{parse-comma}
use myrest.Prefer.Last.{parse-handling}
use myrest.Prefer.Unknown.{IsUnknown}
use myrest.Prefer.Strict.{refusal-IsUnknown}
use myrest.Prefer.Valid.{ValidLines, refusal-ValidLines}

parse-comma_example :
    parse ⦃u = only_ascii⦄ (codes "tx=commit" ∷ codes "handling=strict" ∷ codes "count=exact" ∷ [])
    ≡ parse ⦃u = only_ascii⦄ (codes "tx=commit" ∷ codes "handling=strict,count=exact" ∷ [])
parse-comma_example =
    parse-comma ⦃u = only_ascii⦄ (codes "tx=commit" ∷ []) (codes "handling=strict")
      (codes "count=exact") []

parse-handling_example :
    (parse ⦃u = only_ascii⦄
      (codes "handling=lenient, return=minimal" ∷ codes "handling=strict" ∷ [])).strict
    ≡ true
parse-handling_example =
    parse-handling ⦃u = only_ascii⦄ (codes "handling=lenient, return=minimal" ∷ []) true

abbrev strange_lines : List Text
strange_lines = codes "return=minimal, colour=red" ∷ codes "handling=strict" ∷ []

strange_lines-strict : (parse ⦃u = only_ascii⦄ strange_lines).strict ≡ true
strange_lines-strict =
    parse-handling ⦃u = only_ascii⦄ (codes "return=minimal, colour=red" ∷ []) true

strange_part : Among (codes " colour=red") (split (codes "return=minimal, colour=red") b',')
unfolding split
strange_part = inr (inl refl)

strange-IsUnknown : IsUnknown ⦃u = only_ascii⦄ (trim_space (codes " colour=red"))
unfolding is_one_of equal to_lower cut trim_space
strange-IsUnknown = (cc, refl)

refusal-IsUnknown_example :
    (tokens : List Text) × (refusal (parse ⦃u = only_ascii⦄ strange_lines) surface_read
      ≡ some tokens)
    × Among (trim_space (codes " colour=red")) tokens
refusal-IsUnknown_example =
    refusal-IsUnknown ⦃u = only_ascii⦄ strange_lines (codes "return=minimal, colour=red")
      (codes " colour=red") surface_read strange_lines-strict (inl refl) strange_part
      strange-IsUnknown

abbrev good_lines : List Text
good_lines = codes "handling=strict, count=planned" ∷ codes "all-rows" ∷ []

good_lines-ValidLines : ValidLines ⦃u = only_ascii⦄ surface_read good_lines
unfolding split trim_space cut to_lower is_one_of equal
good_lines-ValidLines = (
  (
    inr (inr (rule_handling, refl, refl, cc, refl)),
    (inr (inr (rule_count, refl, refl, cc, refl)), tt),
  ),
  ((inr (inl (refl, refl)), tt), tt),
)

refusal-ValidLines_example : refusal (parse ⦃u = only_ascii⦄ good_lines) surface_read ≡ none
refusal-ValidLines_example =
    refusal-ValidLines ⦃u = only_ascii⦄ good_lines surface_read good_lines-ValidLines
