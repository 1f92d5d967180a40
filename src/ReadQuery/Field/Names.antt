-- ===== src/ReadQuery/Field/Names.antt =====
-- A plain name is a field with no path.
use myrest.Prelude.{◌≡◌, refl, ap, ◌∙◌, none, [], ◌∷◌, ok}
use myrest.Text.{Text, contains}
use myrest.Text.Trim.{IsName, trim_space-name, cut_at-name_arrow, cut_at-name_hash}
use myrest.Text.Unicode.{Unicode}
use myrest.ReadQuery.Field.{field_of, parse_field}

module _ ⦃u : Unicode⦄ where
  field_of-name : (s : Text) → IsName s → field_of s ≡ ok (s, none)
  unfolding field_of contains
  field_of-name [] h = absurd (h.1 refl)
  field_of-name (c ∷ s) h = rw (cut_at-name_hash (c ∷ s) h.0, cut_at-name_arrow (c ∷ s) h.0)

  pub parse_field-name : (s : Text) → IsName s → parse_field s ≡ ok (s, none)
  unfolding parse_field
  parse_field-name s h = ap field_of (trim_space-name s h.0) ∙ field_of-name s h
