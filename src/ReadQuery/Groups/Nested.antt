-- ===== src/ReadQuery/Groups/Nested.antt =====
-- isNestedGroup tells conditions from nested trees.
use myrest.Prelude.{◌≡◌, refl, Bool, true, false, List, [], ◌∷◌, ◌++◌, arith, ok, ◌>>=◌, All}
use myrest.Text.{Text, codes, has_prefix}
use myrest.Text.Trim.{NameRune, NameRune-ne}
use myrest.ReadQuery.Query.{Operator, op_eq, op_text, Filter, Group}
use myrest.ReadQuery.Failure.{Parsed}
use myrest.ReadQuery.Filter.Print.{value_text, not_text, operand, IsPrintable}
use myrest.ReadQuery.Groups.{is_nested_group, with_negated, parse_nested_group}
use myrest.ReadQuery.Groups.Print.{condition, connective, in_parentheses}

not_or_and :
    (negated : Bool) (op : Operator) (value : Text)
    → (has_prefix (not_text negated ++ (op_text op ++ b'.' ∷ value)) (codes "or(") ≡ false)
      × (has_prefix (not_text negated ++ (op_text op ++ b'.' ∷ value)) (codes "and(") ≡ false)
unfolding has_prefix op_text
not_or_and true op value = (refl, refl)
not_or_and false op_eq value = (refl, refl)
not_or_and false _ value = (refl, refl)

has_prefix-name_or :
    (s t : Text) → All NameRune s → has_prefix (s ++ b'.' ∷ t) (codes "or(") ≡ false
unfolding has_prefix
has_prefix-name_or [] t h = refl
has_prefix-name_or (a ∷ []) t h = ground arith
has_prefix-name_or (a ∷ b ∷ []) t h = ground arith
has_prefix-name_or (a ∷ b ∷ c ∷ s) t h = ground (arith, NameRune-ne c h.1.1.0)

has_prefix-name_and :
    (s t : Text) → All NameRune s → has_prefix (s ++ b'.' ∷ t) (codes "and(") ≡ false
unfolding has_prefix
has_prefix-name_and [] t h = refl
has_prefix-name_and (a ∷ []) t h = ground arith
has_prefix-name_and (a ∷ b ∷ []) t h = ground arith
has_prefix-name_and (a ∷ b ∷ c ∷ []) t h = ground arith
has_prefix-name_and (a ∷ b ∷ c ∷ d ∷ s) t h = ground (arith, NameRune-ne d h.1.1.1.0)

has_prefix-name_not :
    (s t p : Text)
    → All NameRune s
    → has_prefix t p ≡ false
    → has_prefix (s ++ b'.' ∷ t) (codes "not." ++ p) ≡ false
unfolding has_prefix
has_prefix-name_not [] t p h e = refl
has_prefix-name_not (a ∷ []) t p h e = ground arith
has_prefix-name_not (a ∷ b ∷ []) t p h e = ground arith
has_prefix-name_not (a ∷ b ∷ c ∷ []) t p h e = ground arith
has_prefix-name_not (a ∷ b ∷ c ∷ d ∷ s) t p h e = ground (arith, NameRune-ne d h.1.1.1.0)

pub is_nested_group-condition : (f : Filter) → IsPrintable f → is_nested_group (condition f) ≡ false
unfolding is_nested_group
is_nested_group-condition f h =
    let (no_or, no_and) = not_or_and f.negated f.op (value_text f.op f) in
    rw (
      has_prefix-name_or f.column (operand f) h.name.0,
      has_prefix-name_and f.column (operand f) h.name.0,
      has_prefix-name_not f.column (operand f) (codes "or(") h.name.0 no_or,
      has_prefix-name_not f.column (operand f) (codes "and(") h.name.0 no_and,
    )

pub is_nested_group-part :
    (negated is_or : Bool) (parts : List Text)
    → is_nested_group (not_text negated ++ (connective is_or ++ in_parentheses parts)) ≡ true
unfolding is_nested_group has_prefix
is_nested_group-part true true parts = refl
is_nested_group-part true false parts = refl
is_nested_group-part false true parts = refl
is_nested_group-part false false parts = refl

pub parse_nested_group-part :
    (parse : Text → Bool → Parsed Group) (negated is_or : Bool) (parts : List Text)
    → parse_nested_group parse (not_text negated ++ (connective is_or ++ in_parentheses parts))
      ≡ (parse (in_parentheses parts) is_or >>= λ g. ok (with_negated negated g))
unfolding parse_nested_group
parse_nested_group-part parse true true parts = refl
parse_nested_group-part parse true false parts = refl
parse_nested_group-part parse false true parts = refl
parse_nested_group-part parse false false parts = refl
