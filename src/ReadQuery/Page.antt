-- ===== src/ReadQuery/Page.antt =====
-- internal/readquery/range.go, the page of shape.go, and the Range request header of
-- internal/httpapi/read.go. Sums and differences of uint64 are written with their wrap-around.
pub mod Window
pub mod Range
pub mod Rows
use myrest.Prelude.{
  ℕ, zero, suc, ◌+◌, ◌-◌, ◌%◌, ◌^◌, Bool, true, false, ◌&&◌, ◌||◌, not, Option, none, some, List,
  [], ◌∷◌, ltb, leb, ◌==◌, if◌then◌else◌, Result, ok, err, take, drop, length, is_some,
}
use myrest.Text.{Text, codes, cut}
use myrest.Text.Decimal.{parse_uint}
use myrest.Text.Unicode.{ascii_digit}
use myrest.ReadQuery.Query.{Query}

abbrev pub u64 : ℕ
u64 = 2 ^ 64

-- RangeFailure, with its field LowerGTUpper.
pub data RangeFailure : Type 0 where
  range_failure : Bool → RangeFailure

-- limitEnd: the last row of the window, if a limit caps it inside uint64.
unfoldable pub limit_end : Option ℕ → ℕ → Option ℕ
limit_end none offset = none
limit_end (some limit) offset =
    if limit == 0
    then none
    else if ltb (u64 - 1 - offset) (limit - 1)
    then none
    else some ((offset + limit + u64 - 1) % u64)

-- The nearer of the end of the query and the end of the range.
unfoldable pub nearer_end : Option ℕ → Option ℕ → Option ℕ
nearer_end none none = none
nearer_end none (some last) = some last
nearer_end (some end) none = some end
nearer_end (some end) (some last) = if ltb last end then some last else some end

unfoldable pub is_zero : Option ℕ → Bool
is_zero none = false
is_zero (some limit) = limit == 0

unfoldable pub crosses : ℕ → Option ℕ → Bool
crosses first none = false
crosses first (some last) = ltb last first

-- The end of ApplyRange, on the first row and the end of the joint window.
unfoldable pub narrowed : Query → ℕ → Option ℕ → Result RangeFailure Query
narrowed query first none = ok (record query { offset = first })
narrowed query first (some end) =
    if ltb end first
    then err (range_failure false)
    else ok (record query { offset = first; limit = some ((end + u64 - first + 1) % u64) })

unfoldable pub apply_range : Query → ℕ → Option ℕ → Result RangeFailure Query
unfolding limit_end nearer_end is_zero crosses narrowed
apply_range query first last =
    if is_zero query.limit
    then ok query
    else if crosses first last
    then err (range_failure true)
    else narrowed query (if ltb first query.offset then query.offset else first)
        (nearer_end (limit_end query.limit query.offset) last)

all_digits : Text → Bool
unfolding ascii_digit
all_digits [] = true
all_digits (c ∷ s) = ascii_digit c && all_digits s

last_of : ℕ → Text → Option (ℕ × Option ℕ)
unfolding parse_uint
last_of first [] = some (first, none)
last_of first (c ∷ s) = elim (parse_uint (c ∷ s)) [
  | none ↦ none
  | some last ↦ some (first, some last)
]

bounds_of : Text → Text → Option (ℕ × Option ℕ)
unfolding parse_uint last_of all_digits
bounds_of [] last_text = none
bounds_of (c ∷ s) last_text =
    if not (all_digits (c ∷ s)) || not (all_digits last_text)
    then none
    else elim (parse_uint (c ∷ s)) [ none ↦ none | some first ↦ last_of first last_text ]

-- parseRangeHeader; `none` is the answer false.
unfoldable pub parse_range_header : Text → Option (ℕ × Option ℕ)
unfolding bounds_of cut
parse_range_header raw = elim (cut raw b'-') [
  | none ↦ none
  | some (first_text, last_text) ↦ bounds_of first_text last_text
]

-- applyRequestRange, on whether the method is GET and the value of the header.
unfoldable pub apply_request_range : Bool → Text → Query → Result RangeFailure Query
unfolding parse_range_header apply_range
apply_request_range false raw query = ok query
apply_request_range true raw query = elim (parse_range_header raw) [
  | none ↦ ok query
  | some (first, last) ↦ apply_range query first last
]

unfoldable pub cap_rows {ℓ} : {A : Type ℓ} → Option ℕ → List A → List A
cap_rows none set = set
cap_rows (some limit) set = if ltb limit (length set) then take limit set else set

-- pageRowSet.
unfoldable pub page_row_set {ℓ} : {A : Type ℓ} → List A → ℕ → Option ℕ → List A
unfolding cap_rows
page_row_set set offset limit =
    if ltb 0 offset
    then (if leb (length set) offset then [] else cap_rows limit (drop offset set))
    else cap_rows limit set
