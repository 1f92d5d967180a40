-- ===== src/ReadQuery/Page/Range.antt =====
-- ApplyRange: the page of the query and the window of the Range header, together.
use myrest.Prelude.{
  ℕ, zero, suc, ◌+◌, ◌-◌, ◌%◌, ◌≤◌, ◌<◌, ◌≡◌, ◌≢◌, ◌↔◌, refl, sym, ap, ◌∙◌, Bool, true, false,
  Option, none, some, arith, ltb, if◌then◌else◌, Result, ok, err, subst,
}
use myrest.ReadQuery.Query.{Query}
use myrest.ReadQuery.Page.{
  u64, range_failure, limit_end, nearer_end, is_zero, crosses, narrowed, apply_range,
}
use myrest.ReadQuery.Page.Window.{
  Below, OnPage, Upto, InRange, IsU64, Wraps, limit_end-Upto, nearer_end-Upto, limit_end-none,
  nearer_end-none, limit_end-IsU64, nearer_end-IsU64, narrowed-OnPage,
}

abbrev later : ℕ → ℕ → ℕ
later first offset = if ltb first offset then offset else first

is_zero-ne : (limit : Option ℕ) → limit ≢ some 0 → is_zero limit ≡ false
unfolding is_zero
is_zero-ne none h = refl
is_zero-ne (some zero) h = absurd (h refl)
is_zero-ne (some (suc n)) h = ground arith

-- with a limit that is not 0 the header decides
apply_range-narrowed :
    (q : Query) (first : ℕ) (last : Option ℕ)
    → q.limit ≢ some 0
    → apply_range q first last ≡ (
        if crosses first last
        then err (range_failure true)
        else narrowed q (later first q.offset) (nearer_end (limit_end q.limit q.offset) last))
unfolding apply_range
apply_range-narrowed q first last ne =
    ap
      (λ b.
        if b
        then ok q
        else if crosses first last
        then err (range_failure true)
        else narrowed q (later first q.offset) (nearer_end (limit_end q.limit q.offset) last))
      (is_zero-ne q.limit ne)

no_wrap :
    (limit : Option ℕ) (offset first : ℕ) (last : Option ℕ)
    → IsU64 limit
    → limit ≢ some 0
    → ¬ ((limit ≡ none) × (offset ≡ 0) × (first ≡ 0) × (last ≡ some (u64 - 1)))
    → later first offset ≡ 0
    → nearer_end (limit_end limit offset) last ≢ some (u64 - 1)
unfolding nearer_end limit_end
no_wrap none offset first none hl ne nw z e = absurd (ground arith)
no_wrap none offset first (some last) hl ne nw z e = nw (refl, ground arith, ground arith, e)
no_wrap (some limit) offset first none hl ne nw z e = ground arith
no_wrap (some limit) offset first (some last) hl ne nw z e = ground arith

if-err-ok :
    {A E : Type 0} {m : Result E A} {a : A} (b : Bool) (e : E)
    → (if b then err e else m) ≡ ok a
    → m ≡ ok a
if-err-ok true e h = cc
if-err-ok false e h = h

narrowed-Upto :
    (q : Query) (first : ℕ) (end : Option ℕ) {q' : Query}
    → narrowed q first end ≡ ok q'
    → Upto end first
unfolding narrowed
narrowed-Upto q first none h = tt
narrowed-Upto q first (some end) h = ground arith

narrowed-total :
    (q : Query) (first : ℕ) (end : Option ℕ) (i : ℕ)
    → first ≤ i
    → Upto end i
    → (q' : Query) × (narrowed q first end ≡ ok q')
unfolding narrowed
narrowed-total q first none i le u = (record q { offset = first }, refl)
narrowed-total q first (some end) i le u =
    (record q { offset = first; limit = some ((end + u64 - first + 1) % u64) }, ground arith)

crosses-InRange :
    (first : ℕ) (last : Option ℕ) (i : ℕ) → InRange first last i → crosses first last ≡ false
unfolding crosses
crosses-InRange first none i h = refl
crosses-InRange first (some last) i h = ground arith

module _ (q : Query) (first : ℕ) (last : Option ℕ) (limit_u64 : IsU64 q.limit)
    (offset_u64 : q.offset < u64) (last_u64 : IsU64 last) (limit_ne : q.limit ≢ some 0) where
  joint-OnPage :
      (i : ℕ)
      → i < u64
      → (later first q.offset ≤ i) × Upto (nearer_end (limit_end q.limit q.offset) last) i
        ↔ OnPage q i × InRange first last i
  joint-OnPage i lt = (
    (λ (p, u).
        let both = (nearer_end-Upto (limit_end q.limit q.offset) last i).0 u in
        let from_offset : q.offset ≤ i = ground arith in
        let from_first : first ≤ i = ground arith in
        let below =
          limit_end-Upto q.limit q.offset i limit_u64 offset_u64 limit_ne from_offset lt in
        ((from_offset, below.0 both.0), (from_first, both.1))),
    (λ (on, in_range).
        let below = limit_end-Upto q.limit q.offset i limit_u64 offset_u64 limit_ne on.0 lt in
        (
          ground arith,
          (nearer_end-Upto (limit_end q.limit q.offset) last i).1 (below.1 on.1, in_range.1),
        )),
  )

  -- Where the limit of the query is not 0, the limit, the offset and the end of the range are below
  -- 2^64, and the size of the joint window fits in uint64, a row below 2^64 is on the page that
  -- ApplyRange makes exactly when it is on the page of the query and in the range.
  pub apply_range-OnPage :
      {q' : Query}
      → ¬ Wraps q first last
      → apply_range q first last ≡ ok q'
      → (i : ℕ) → i < u64
      → OnPage q' i ↔ OnPage q i × InRange first last i
  apply_range-OnPage {q'} nw h i lt =
      let end = nearer_end (limit_end q.limit q.offset) last in
      let read =
        if-err-ok (crosses first last) (range_failure true)
          (sym (apply_range-narrowed q first last limit_ne) ∙ h) in
      let step =
        narrowed-OnPage q (later first q.offset) end i read
          (nearer_end-IsU64 (limit_end q.limit q.offset) last
            (limit_end-IsU64 q.limit q.offset limit_u64 offset_u64) last_u64)
          (no_wrap q.limit q.offset first last limit_u64 limit_ne nw)
          (λ e le.
            limit_end-none q.limit q.offset (later first q.offset) i limit_ne
              (nearer_end-none (limit_end q.limit q.offset) last e) (ground arith) le lt) in
      let joint = joint-OnPage i lt in ((λ p. joint.0 (step.0 p)), (λ p. step.1 (joint.1 p)))

  -- Where the limit of the query is not 0 and all numbers are below 2^64, the header is taken exactly
  -- when some row below 2^64 is both on the page of the query and in the range.
  pub apply_range-ok_iff :
      first < u64
      → ((q' : Query) × (apply_range q first last ≡ ok q'))
        ↔ ((i : ℕ) × (i < u64) × OnPage q i × InRange first last i)
  apply_range-ok_iff first_u64 = (
    (λ (q', h).
        let read =
          if-err-ok (crosses first last) (range_failure true)
            (sym (apply_range-narrowed q first last limit_ne) ∙ h) in
        let in_u64 : later first q.offset < u64 = ground arith in
        let both =
          (joint-OnPage (later first q.offset) in_u64).0
            (omega arith, narrowed-Upto q (later first q.offset) _ read) in
        (later first q.offset, in_u64, both.0, both.1)),
    (λ (i, lt, on, in_range).
        let joint = (joint-OnPage i lt).1 (on, in_range) in
        let (q', e) =
          narrowed-total q (later first q.offset) (nearer_end (limit_end q.limit q.offset) last) i
            joint.0 joint.1 in
        (
          q',
          apply_range-narrowed q first last limit_ne
              ∙ ap
                  (λ b.
                    if b
                    then err (range_failure true)
                    else narrowed q (later first q.offset)
                        (nearer_end (limit_end q.limit q.offset) last))
                  (crosses-InRange first last i in_range)
              ∙ e,
        )),
  )

-- With no limit and no offset, the range 0-18446744073709551615 holds every row below 2^64, and
-- the page that ApplyRange makes for it holds none of them: the size of the window wraps to 0.
pub apply_range-Wraps :
    (q : Query) (first : ℕ) (last : Option ℕ) (i : ℕ)
    → Wraps q first last
    → i < u64
    → OnPage q i
      × InRange first last i
      × ((q' : Query) × (apply_range q first last ≡ ok q') × ¬ OnPage q' i)
unfolding apply_range narrowed
apply_range-Wraps q first last i w lt = (
  (omega arith, subst (λ l. Below q.offset l i) (sym w.0) tt),
  (omega arith, subst (λ l. Upto l i) (sym w.3) (omega arith)),
  (record q { offset = 0; limit = some 0 }, ground arith, λ p. omega arith),
)
