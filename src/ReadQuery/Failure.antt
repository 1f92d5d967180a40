-- ===== src/ReadQuery/Failure.antt =====
-- ParseFailure of internal/readquery/parse.go. A message is named by what it says, with the text
-- that it quotes; the flag is the failure's Gap field.
use myrest.Prelude.{◌≡◌, ◌≢◌, refl, Bool, true, false, Result, ok, err, ◌>>=◌}
use myrest.Text.{Text}

pub data Message : Type 0 where
  column_name_empty hash_path_operators arrow_not_final path_needs_arrows : Message
  path_leg_empty path_key_quoted path_wildcard path_index_out path_no_leg : Message
  path_column_outside path_key_outside : Text → Message
  filter_needs_operator operator_unknown : Text → Message
  full_text_operators array_operators regex_operators is_value_wrong : Message
  quote_not_closed text_after_quote : Message
  in_needs_parentheses in_unbalanced_parentheses in_unbalanced : Message
  group_needs_condition group_needs_parentheses : Message
  group_unbalanced_parentheses group_unbalanced : Message
  condition_needs_operator : Text → Message
  embed_needs_parentheses embed_needs_resource : Text → Message
  join_types casts computed_fields order_nulls count_modes embed_presence : Message
  order_direction_unknown : Text → Message
  limit_not_integer offset_not_integer : Message
  embed_parameter_incomplete : Text → Message
  embed_not_found : Text → Text → Message

-- `exhausted` is no failure of the source: the fuel of a recursion ran out.
pub data Failure : Type 0 where
  parse_failure : Message → Bool → Failure
  exhausted : Failure

abbrev pub Parsed : Type 0 → Type 0
Parsed A = Result Failure A

abbrev pub gap : {A : Type 0} → Message → Parsed A
gap m = err (parse_failure m true)

abbrev pub refuse : {A : Type 0} → Message → Parsed A
refuse m = err (parse_failure m false)

-- Neither branch of a bind runs out.
pub bind-ne-exhausted :
    {A B : Type 0} (m : Parsed A) (f : A → Parsed B)
    → m ≢ err exhausted
    → ((a : A) → m ≡ ok a → f a ≢ err exhausted)
    → (m >>= f) ≢ err exhausted
bind-ne-exhausted (ok a) f h k = k a refl
bind-ne-exhausted (err e) f h k = λ p. h (cc)
