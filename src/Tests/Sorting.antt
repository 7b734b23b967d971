-- ===== src/Tests/Sorting.antt =====
-- A database that sorts by due date and lists the newest of equal rows first.
use offchain_service.Base.{
  ℕ, ◌≤◌, ◌≡◌, ◌↔◌, ◌⊎◌, inl, inr, refl, ap, Bool, true, false, List, [], ◌∷◌, leb, if◌then◌else◌,
  arith,
}
use offchain_service.Base.Lists.{IsOneOf}
use offchain_service.Badges.{MintHistory, number_or_zero}
use offchain_service.Badges.Laws.{IsDescending, Sorts}

abbrev due : MintHistory → ℕ
due m = number_or_zero m.due_date

abbrev put_row : MintHistory → List MintHistory → List MintHistory
put_row m [] = m ∷ []
put_row m (x ∷ xs) = if leb (due x) (due m) then m ∷ x ∷ xs else x ∷ put_row m xs

abbrev pub by_due : List MintHistory → List MintHistory
by_due [] = []
by_due (m ∷ ms) = put_row m (by_due ms)

IsOneOf-put_row :
    (x m : MintHistory) (ms : List MintHistory)
    → IsOneOf x (put_row m ms) ↔ ((x ≡ m) ⊎ IsOneOf x ms)
IsOneOf-put_row x m [] = (λ i. i, λ i. i)
IsOneOf-put_row x m (y ∷ ys) = by_test (leb (due y) (due m)) (IsOneOf-put_row x m ys)
  where
    by_test :
        (b : Bool)
        → IsOneOf x (put_row m ys) ↔ ((x ≡ m) ⊎ IsOneOf x ys)
        → IsOneOf x (if b then m ∷ y ∷ ys else y ∷ put_row m ys) ↔ ((x ≡ m) ⊎ IsOneOf x (y ∷ ys))
    by_test true _ = (λ i. i, λ i. i)
    by_test false (there, back) = (
      λ i. elim i [
        | inl same ↦ inr (inl same)
        | inr j ↦ elim (there j) [ inl e ↦ inl e | inr k ↦ inr (inr k) ]
      ],
      λ i. elim i [
        | inl e ↦ inr (back (inl e))
        | inr j ↦ elim j [ inl same ↦ inl same | inr k ↦ inr (back (inr k)) ]
      ],
    )

put_row-IsDescending :
    (m : MintHistory) (ms : List MintHistory) → IsDescending ms → IsDescending (put_row m ms)
put_row-IsDescending m [] _ = (λ x never. elim never [ ], tt)
put_row-IsDescending m (y ∷ ys) (greatest, rest) =
    by_test (leb (due y) (due m)) refl (put_row-IsDescending m ys rest)
  where
    at_most : (x z : MintHistory) → x ≡ z → due x ≤ due z
    at_most x z same = let e = ap due same in omega arith

    by_test :
        (b : Bool)
        → leb (due y) (due m) ≡ b
        → IsDescending (put_row m ys)
        → IsDescending (if b then m ∷ y ∷ ys else y ∷ put_row m ys)
    by_test true e _ = (
      λ x i. elim i [
        | inl same ↦ let h = at_most x y same in ground arith
        | inr j ↦ let h = greatest x j in ground arith
      ],
      (greatest, rest),
    )
    by_test false e sorted = (
      λ x i. elim ((IsOneOf-put_row x m ys).0 i) [
        | inl same ↦ let h = at_most x m same in ground arith
        | inr j ↦ greatest x j
      ],
      sorted,
    )

pub by_due-Sorts : Sorts by_due
by_due-Sorts [] = (tt, λ m. (λ i. i, λ i. i))
by_due-Sorts (m ∷ ms) =
    let (sorted, same) = by_due-Sorts ms in
    (
      put_row-IsDescending m (by_due ms) sorted,
      λ x. (
        λ i. elim ((IsOneOf-put_row x m (by_due ms)).0 i) [
          | inl e ↦ inl e
          | inr j ↦ inr ((same x).0 j)
        ],
        λ i. elim i [
          | inl e ↦ (IsOneOf-put_row x m (by_due ms)).1 (inl e)
          | inr j ↦ (IsOneOf-put_row x m (by_due ms)).1 (inr ((same x).1 j))
        ],
      ),
    )
