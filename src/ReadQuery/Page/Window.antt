-- ===== src/ReadQuery/Page/Window.antt =====
-- The rows of a page, and that ApplyRange is the intersection of two windows.
use myrest.Prelude.{
  ℕ, zero, suc, ◌+◌, ◌-◌, ◌%◌, ◌≤◌, ◌<◌, ◌≡◌, ◌≢◌, ◌↔◌, refl, ap, Option, none, some, arith, ltb,
  ok, inl, inr, Bool-cases, subst,
}
use myrest.ReadQuery.Query.{Query}
use myrest.ReadQuery.Page.{u64, limit_end, nearer_end, narrowed}

-- Row `i` is not past the limit.
abbrev pub Below : ℕ → Option ℕ → ℕ → Type 0
Below offset none i = Unit
Below offset (some limit) i = i < offset + limit

-- Row `i`, counted from 0, is on the page of the query.
abbrev pub OnPage : Query → ℕ → Type 0
OnPage q i = (q.offset ≤ i) × Below q.offset q.limit i

abbrev pub Upto : Option ℕ → ℕ → Type 0
Upto none i = Unit
Upto (some last) i = i ≤ last

-- Row `i` is in the window first..last of the header.
abbrev pub InRange : ℕ → Option ℕ → ℕ → Type 0
InRange first last i = (first ≤ i) × Upto last i

-- The numbers of the query and of the range are uint64 values.
abbrev pub IsU64 : Option ℕ → Type 0
IsU64 none = Unit
IsU64 (some n) = n < u64

abbrev Joint : Option ℕ → ℕ → Option ℕ → ℕ → Type 0
Joint limit offset last i = Below offset limit i × Upto last i

pub limit_end-Upto :
    (limit : Option ℕ) (offset i : ℕ)
    → IsU64 limit
    → offset < u64
    → limit ≢ some 0
    → offset ≤ i
    → i < u64
    → Upto (limit_end limit offset) i ↔ Below offset limit i
unfolding limit_end
limit_end-Upto none offset i hl ho ne le lt = ((λ h. h), (λ h. h))
limit_end-Upto (some limit) offset i hl ho ne le lt = ((λ h. ground arith), (λ h. ground arith))

pub nearer_end-Upto : (a b : Option ℕ) (i : ℕ) → Upto (nearer_end a b) i ↔ Upto a i × Upto b i
unfolding nearer_end
nearer_end-Upto none none i = ((λ h. (tt, tt)), (λ h. tt))
nearer_end-Upto none (some b) i = ((λ h. (tt, h)), (λ h. h.1))
nearer_end-Upto (some a) none i = ((λ h. (h, tt)), (λ h. h.0))
nearer_end-Upto (some a) (some b) i = ((λ h. ground arith), (λ h. ground arith))

-- A limit whose end lies past uint64 caps no row from `first` on.
pub limit_end-none :
    (limit : Option ℕ) (offset first i : ℕ)
    → limit ≢ some 0
    → limit_end limit offset ≡ none
    → offset ≤ first
    → first ≤ i
    → i < u64
    → Below first limit i
unfolding limit_end
limit_end-none none offset first i ne e le le' lt = tt
limit_end-none (some limit) offset first i ne e le le' lt = ground arith

pub nearer_end-none : (a b : Option ℕ) → nearer_end a b ≡ none → a ≡ none
unfolding nearer_end
nearer_end-none none b e = refl
nearer_end-none (some a) none e = absurd (ground arith)
nearer_end-none (some a) (some b) e = absurd (ground arith)

pub limit_end-IsU64 :
    (limit : Option ℕ) (offset : ℕ) → IsU64 limit → offset < u64 → IsU64 (limit_end limit offset)
unfolding limit_end
limit_end-IsU64 none offset hl ho = tt
limit_end-IsU64 (some limit) offset hl ho = ground arith

pub nearer_end-IsU64 : (a b : Option ℕ) → IsU64 a → IsU64 b → IsU64 (nearer_end a b)
unfolding nearer_end
nearer_end-IsU64 none none ha hb = tt
nearer_end-IsU64 none (some b) ha hb = hb
nearer_end-IsU64 (some a) none ha hb = ha
nearer_end-IsU64 (some a) (some b) ha hb = ground arith

rows_between :
    (first end : ℕ)
    → first ≤ end
    → end < u64
    → (first ≡ 0 → end ≢ u64 - 1)
    → (end + u64 - first + 1) % u64 ≡ end - first + 1
rows_between zero end le lt nw = let short : end ≢ u64 - 1 = nw refl in omega arith
rows_between (suc first) end le lt nw = omega arith

-- the window of a query with the joint bounds
bounded-OnPage :
    (q : Query) (first end i : ℕ)
    → first ≤ end
    → end < u64
    → (first ≡ 0 → end ≢ u64 - 1)
    → OnPage (record q { offset = first; limit = some ((end + u64 - first + 1) % u64) }) i
      ↔ (first ≤ i) × (i ≤ end)
bounded-OnPage q first end i le lt nw =
    let size = rows_between first end le lt nw in rw size ((λ h. omega arith), (λ h. omega arith))

pub narrowed-OnPage :
    (q : Query) (first : ℕ) (end : Option ℕ) {q' : Query} (i : ℕ)
    → narrowed q first end ≡ ok q'
    → IsU64 end
    → (first ≡ 0 → end ≢ some (u64 - 1))
    → (end ≡ none → first ≤ i → Below first q.limit i)
    → OnPage q' i ↔ (first ≤ i) × Upto end i
unfolding narrowed
narrowed-OnPage q first none {q'} i h hu nw open_end =
    let e : record q { offset = first } ≡ q' = ground arith in
    subst (λ x. OnPage x i ↔ (first ≤ i) × Upto none i) e
      ((λ p. (p.0, tt)), (λ p. (p.0, open_end refl p.0)))
narrowed-OnPage q first (some end) {q'} i h hu nw open_end = elim (Bool-cases (ltb end first)) [
  | inl crossed ↦ absurd (ground arith)
  | inr meets ↦
      let e : record q { offset = first; limit = some ((end + u64 - first + 1) % u64) } ≡ q' =
        ground arith in
      subst (λ x. OnPage x i ↔ (first ≤ i) × (i ≤ end)) e
        (bounded-OnPage q first end i (ground arith) hu (λ z w. nw z (ap some w)))
]

-- The one case in which the size of the window does not fit in uint64.
abbrev pub Wraps : Query → ℕ → Option ℕ → Type 0
Wraps q first last = (q.limit ≡ none) × (q.offset ≡ 0) × (first ≡ 0) × (last ≡ some (u64 - 1))
