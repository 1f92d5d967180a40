-- ===== src/Names.antt =====
-- internal/mysqlname/name.go: the names of MySQL accounts and of the pre-request routine.
pub mod Sound
use myrest.Prelude.{
  ℕ, Bool, true, false, ◌&&◌, ◌||◌, not, Option, none, some, List, [], ◌∷◌, ltb, ◌==◌,
  if◌then◌else◌, Result, ok, err, ◌>>=◌,
}
use myrest.Text.{Text, split}

-- The errors, of the name or of the host of a role, and of a pre-request name.
pub data NameFailure : Type 0 where
  part_empty part_not_quotable : Bool → NameFailure
  not_database_routine : NameFailure

pub record Role : Type 0 where
  pub name : Text
  pub host : Text
  pub has_host : Bool

-- The split at the last place of a code point, as strings.LastIndex finds it.
unfoldable pub cut_last : Text → ℕ → Option (Text × Text)
cut_last [] sep = none
cut_last (c ∷ s) sep = elim (cut_last s sep) [
  | some (front, behind) ↦ some (c ∷ front, behind)
  | none ↦ if c == sep then some ([], s) else none
]

unfoldable pub is_quotable_rune : ℕ → Bool
is_quotable_rune c =
    not (c == b'\'' || c == b'"' || c == b'`' || c == b'\\' || ltb c b' ' || c == 0x7f)

unfoldable pub all_quotable : Text → Bool
all_quotable [] = true
all_quotable (c ∷ s) = is_quotable_rune c && all_quotable s

-- checkQuotable; the flag says that the part is the host.
unfoldable pub check_quotable : Bool → Text → Result NameFailure (Unit {0})
check_quotable is_host [] = err (part_empty is_host)
check_quotable is_host (c ∷ s) =
    if all_quotable (c ∷ s) then ok tt else err (part_not_quotable is_host)

abbrev pub role_of : Text → Option (Text × Text) → Role
role_of value none = record { name = value; host = []; has_host = false }
role_of value (some (name, host)) = record { name = name; host = host; has_host = true }

unfoldable pub check_host : Role → Result NameFailure Role
check_host role =
    if role.has_host then (check_quotable true role.host >>= λ checked. ok role) else ok role

unfoldable pub check_role : Role → Result NameFailure Role
check_role role = do checked ← check_quotable false role.name; check_host role

unfoldable pub parse_role : Text → Result NameFailure Role
parse_role value = check_role (role_of value (cut_last value b'@'))

unfoldable pub two_parts : List Text → Result NameFailure (Text × Text)
two_parts ((c ∷ database) ∷ (d ∷ routine) ∷ []) = ok (c ∷ database, d ∷ routine)
two_parts _ = err not_database_routine

unfoldable pub split_pre_request : Text → Result NameFailure (Text × Text)
split_pre_request name = two_parts (split name b'.')
