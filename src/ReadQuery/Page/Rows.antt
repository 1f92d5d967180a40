-- ===== src/ReadQuery/Page/Rows.antt =====
-- pageRowSet of internal/readquery/shape.go cuts a set of rows to a window.
use myrest.Prelude.{
  ℕ, zero, suc, ◌≤◌, ◌≡◌, refl, sym, ap, ◌∙◌, Option, none, some, List, [], ◌∷◌, arith, leb, length,
  take, drop, Bool-cases, inl, inr,
}
use myrest.ReadQuery.Page.{cap_rows, page_row_set}

module _ {ℓ} {A : Type ℓ} where
  take_all : (n : ℕ) (xs : List A) → length xs ≤ n → take n xs ≡ xs
  take_all zero [] h = refl
  take_all zero (x ∷ xs) h = absurd (omega arith)
  take_all (suc n) [] h = refl
  take_all (suc n) (x ∷ xs) h = ap (λ ys. x ∷ ys) (take_all n xs (omega arith))

  drop_all : (n : ℕ) (xs : List A) → length xs ≤ n → drop n xs ≡ []
  drop_all zero [] h = refl
  drop_all zero (x ∷ xs) h = absurd (omega arith)
  drop_all (suc n) [] h = refl
  drop_all (suc n) (x ∷ xs) h = drop_all n xs (omega arith)

  -- The first rows up to a limit, if there is one.
  abbrev pub first_rows : Option ℕ → List A → List A
  first_rows none xs = xs
  first_rows (some limit) xs = take limit xs

  cap_rows-first_rows : (limit : Option ℕ) (xs : List A) → cap_rows limit xs ≡ first_rows limit xs
  unfolding cap_rows
  cap_rows-first_rows none xs = refl
  cap_rows-first_rows (some limit) xs = ground (arith, take_all limit xs)

  first_rows_nil : (limit : Option ℕ) → first_rows limit [] ≡ []
  first_rows_nil none = refl
  first_rows_nil (some zero) = refl
  first_rows_nil (some (suc n)) = refl

  -- The page of a set of rows is what a limit leaves of the rows behind the offset, with the tests
  -- of the offset and the limit against the size of the set, which guard the slices, left out.
  pub page_row_set-first_rows :
      (set : List A) (offset : ℕ) (limit : Option ℕ)
      → page_row_set set offset limit ≡ first_rows limit (drop offset set)
  unfolding page_row_set
  page_row_set-first_rows set zero limit = cap_rows-first_rows limit set
  page_row_set-first_rows set (suc n) limit = elim (Bool-cases (leb (length set) (suc n))) [
    | inl e ↦
        let none_left : page_row_set set (suc n) limit ≡ [] = ground arith in
        none_left
        ∙ sym (first_rows_nil limit)
        ∙ ap (first_rows limit) (sym (drop_all (suc n) set (ground arith)))
    | inr e ↦
        let some_left : page_row_set set (suc n) limit ≡ cap_rows limit (drop (suc n) set) =
          ground arith in
        some_left ∙ cap_rows-first_rows limit (drop (suc n) set)
  ]
