-- ===== src/ReadQuery/Groups/Parts.antt =====
-- What the loops of parseGroup see of one condition.
use myrest.Prelude.{
  ℕ, suc, ◌≡◌, ◌≢◌, refl, sym, ap, ◌∙◌, Bool, true, false, some, List, [], ◌∷◌, ◌++◌, map,
  append_assoc, arith, All, inl, inr, Bool-cases,
}
use myrest.Text.{Text, codes, equal, join, cut, is_space, trim_space}
use myrest.Text.Laws.{equal_iff}
use myrest.Text.Trim.{
  NameRune, NameRune-ne, NameRune-edge, IsName, all_name_runes, names_by_test, last-of,
  trim_space-edges,
}
use myrest.ReadQuery.Query.{Operator, op_eq, op_in, op_is, op_text, Filter}
use myrest.ReadQuery.InList.Quoting.{doubled, quoted}
use myrest.ReadQuery.Filter.{is_listed, is_is_value, is_values}
use myrest.ReadQuery.Filter.Print.{value_text, not_text, operand, HasValue, IsPrintable}
use myrest.ReadQuery.Groups.Print.{condition}
use myrest.ReadQuery.Groups.Split.{
  PassesAt, PassesAt-nil, PassesAt-append, PassesAt-dot, PassesAt-name, PassesAt-parentheses,
  PassesAt-quoted, PassesAt-join,
}

is_listed-All {ℓ} :
    (P : Text → Type ℓ) (s : Text) (ts : List Text) → is_listed s ts ≡ true → All P ts → P s
unfolding is_listed
is_listed-All P s [] e h = absurd (ground arith)
is_listed-All P s (t ∷ ts) e h = elim (Bool-cases (equal s t)) [
  | inl same ↦ rw ((equal_iff s t).0 same) h.0
  | inr other ↦ is_listed-All P s ts (rw other at e) h.1
]

-- is values are names
is_is_value-IsName : (s : Text) → is_is_value s ≡ true → IsName s
unfolding is_is_value all_name_runes
is_is_value-IsName s e = is_listed-All IsName s is_values e (
  (names_by_test (codes "null") refl, cc),
  (
    (names_by_test (codes "not_null") refl, cc),
    (
      (names_by_test (codes "true") refl, cc),
      ((names_by_test (codes "false") refl, cc), ((names_by_test (codes "unknown") refl, cc), tt)),
    ),
  ),
)

-- The last code point is not a space.
abbrev pub EndsWell : Text → Type 0
EndsWell s = (front : Text) × (d : ℕ) × (s ≡ front ++ d ∷ []) × (is_space d ≡ false)

pub EndsWell-append : (s t : Text) → EndsWell t → EndsWell (s ++ t)
EndsWell-append s t (front, d, e, h) =
    (s ++ front, d, ap (λ x. s ++ x) e ∙ sym (append_assoc s front (d ∷ [])), h)

EndsWell-name : (s : Text) → IsName s → EndsWell s
EndsWell-name [] h = absurd (h.1 refl)
EndsWell-name (c ∷ s) h =
    let (front, d, e, name) = last-of c s h.0 in (front, d, e, NameRune-edge d name)

EndsWell-quote : EndsWell (codes "\"")
unfolding is_space
EndsWell-quote = ([], b'"', refl, refl)

pub EndsWell-parenthesis : EndsWell (codes ")")
unfolding is_space
EndsWell-parenthesis = ([], b')', refl, refl)

op_text-name : (op : Operator) → All NameRune (op_text op)
unfolding op_text all_name_runes
op_text-name op_eq = names_by_test (codes "eq") refl
op_text-name op = names_by_test (op_text op) refl

pub not_text-PassesAt : (d : ℕ) (negated : Bool) → PassesAt d (not_text negated)
unfolding all_name_runes
not_text-PassesAt d false = PassesAt-nil d
not_text-PassesAt d true =
    PassesAt-append d (codes "not") (codes ".")
      (PassesAt-name d (codes "not") (names_by_test (codes "not") refl)) (PassesAt-dot d)

quoted-All-PassesAt : (d : ℕ) (values : List Text) → All (PassesAt d) (map quoted values)
quoted-All-PassesAt d [] = tt
quoted-All-PassesAt d (v ∷ values) = (PassesAt-quoted d v, quoted-All-PassesAt d values)

value_text-PassesAt :
    (d : ℕ) (op : Operator) (f : Filter) → HasValue op f → PassesAt d (value_text op f)
value_text-PassesAt d op_in f h =
    PassesAt-parentheses d _
      (PassesAt-join d (map quoted f.values) (quoted-All-PassesAt (suc d) f.values))
value_text-PassesAt d op_is f h = PassesAt-name d f.value (is_is_value-IsName f.value h.0).0
value_text-PassesAt d _ f h = PassesAt-quoted d f.value

value_text-EndsWell : (op : Operator) (f : Filter) → HasValue op f → EndsWell (value_text op f)
value_text-EndsWell op_in f h =
    EndsWell-append (b'(' ∷ join (map quoted f.values) (codes ",")) (codes ")") EndsWell-parenthesis
value_text-EndsWell op_is f h = EndsWell-name f.value (is_is_value-IsName f.value h.0)
value_text-EndsWell _ f h = EndsWell-append (b'"' ∷ doubled f.value) (codes "\"") EndsWell-quote

module _ (f : Filter) (h : IsPrintable f) where
  operand-PassesAt : (d : ℕ) → PassesAt d (operand f)
  operand-PassesAt d = PassesAt-append d (not_text f.negated) _ (not_text-PassesAt d f.negated) (
      PassesAt-append d (op_text f.op) _ (PassesAt-name d (op_text f.op) (op_text-name f.op))
        (PassesAt-append d (codes ".") _ (PassesAt-dot d) (value_text-PassesAt d f.op f h.value)))

  pub condition-PassesAt : (d : ℕ) → PassesAt d (condition f)
  condition-PassesAt d =
      PassesAt-append d f.column _ (PassesAt-name d f.column h.name.0)
        (PassesAt-append d (codes ".") _ (PassesAt-dot d) (operand-PassesAt d))

  condition-EndsWell : EndsWell (condition f)
  condition-EndsWell = EndsWell-append f.column _ (
      EndsWell-append (b'.' ∷ not_text f.negated) _ (
        EndsWell-append (op_text f.op) _
          (EndsWell-append (codes ".") _ (value_text-EndsWell f.op f h.value))))

pub condition-ne-nil : (f : Filter) → condition f ≢ []
condition-ne-nil f = cons-mid f.column (operand f)
  where
    cons-mid : (s t : Text) → s ++ b'.' ∷ t ≢ []
    cons-mid [] t = cc
    cons-mid (c ∷ s) t = cc

pub trim_space-EndsWell :
    (c : ℕ) (s : Text) → is_space c ≡ false → EndsWell (c ∷ s) → trim_space (c ∷ s) ≡ c ∷ s
trim_space-EndsWell c s hc (front, d, e, hd) = trim_space-edges c s front d e hc hd

pub trim_space-condition : (f : Filter) → IsPrintable f → trim_space (condition f) ≡ condition f
trim_space-condition f h = go f.column h.name (condition-EndsWell f h)
  where
    go :
        (s : Text)
        → IsName s
        → EndsWell (s ++ b'.' ∷ operand f)
        → trim_space (s ++ b'.' ∷ operand f) ≡ s ++ b'.' ∷ operand f
    go [] n e = absurd (n.1 refl)
    go (c ∷ s) n e = trim_space-EndsWell c _ (NameRune-edge c n.0.0) e

pub cut-name : (s t : Text) → All NameRune s → cut (s ++ b'.' ∷ t) b'.' ≡ some (s, t)
unfolding cut
cut-name [] t h = refl
cut-name (c ∷ s) t h = ground (arith, NameRune-ne c h.0, cut-name s t h.1)
