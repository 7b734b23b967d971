-- ===== src/Badges/Laws.antt =====
-- What a verification reads from the table.
use offchain_service.Base.{
  ℕ, ◌+◌, ◌≤◌, ◌≡◌, ◌↔◌, inl, inr, refl, ap, true, false, Option, none, some, List, [], ◌∷◌, keep,
  ltb, Bool-cases, Result, ok, err, Result-cases, arith,
}
use offchain_service.Base.Lists.{IsOneOf}
use offchain_service.Supply.Claiming.Addresses.{is_wallet}
use offchain_service.Badges.{
  MintHistory, MintRequest, Verification, Mints, BadgePorts, number_or_zero, is_row_of, first_row,
  last_row, unexpired, switch_date, held_date, is_on_hold, verification, verify,
}

-- Rows in the sequence of `order by due_date desc`.
abbrev pub IsDescending : List MintHistory → Type 0
IsDescending [] = Unit
IsDescending (m ∷ ms) =
    ((x : MintHistory) → IsOneOf x ms → number_or_zero x.due_date ≤ number_or_zero m.due_date)
    × IsDescending ms

-- What the database documents: the same rows, the later due dates first.
abbrev pub Sorts : (List MintHistory → List MintHistory) → Type 0
Sorts order =
    (rows : List MintHistory)
    → IsDescending (order rows) × ((m : MintHistory) → IsOneOf m (order rows) ↔ IsOneOf m rows)

-- The last signature among rows.
abbrev pub HasLast : List MintHistory → Option MintHistory → Type 0
HasLast rows none = (m : MintHistory) → IsOneOf m rows → ⊥
HasLast rows (some l) =
    IsOneOf l rows
    × ((m : MintHistory) → IsOneOf m rows → number_or_zero m.due_date ≤ number_or_zero l.due_date)

first_row-HasLast : (ms : List MintHistory) → IsDescending ms → HasLast ms (first_row ms)
first_row-HasLast [] _ = λ m never. elim never [ ]
first_row-HasLast (l ∷ ms) (greatest, _) = (
  inl refl,
  λ m i. elim i [
    | inl same ↦ let e = ap (λ (x : MintHistory). number_or_zero x.due_date) same in omega arith
    | inr j ↦ greatest m j
  ],
)

-- The last one of the same rows in another sequence.
HasLast-same :
    (ms rows : List MintHistory) (o : Option MintHistory)
    → ((m : MintHistory) → IsOneOf m ms ↔ IsOneOf m rows)
    → HasLast ms o
    → HasLast rows o
HasLast-same ms rows none same none_there = λ m i. none_there m ((same m).1 i)
HasLast-same ms rows (some l) same (there, latest) =
    ((same l).0 there, λ m i. latest m ((same m).1 i))

module _ (ports : BadgePorts) (r : MintRequest) where
  open ports use {now, eligibility, order_by_due}

  -- The rows of the wallet and the badge, which have a due date.
  abbrev pub own_rows : List MintHistory → List MintHistory
  own_rows rows = keep (is_row_of r.crypto_wallet r.reference_metadata_id) rows

  abbrev pub last_of : List MintHistory → Option MintHistory
  last_of rows = last_row ports r.crypto_wallet r.reference_metadata_id rows

  pub last_of-HasLast :
      Sorts order_by_due → (rows : List MintHistory) → HasLast (own_rows rows) (last_of rows)
  last_of-HasLast sorts rows =
      let (descending, same) = sorts (own_rows rows) in
      HasLast-same (order_by_due (own_rows rows)) (own_rows rows) (last_of rows) same
        (first_row-HasLast (order_by_due (own_rows rows)) descending)

  -- What a verification that starts at a state ends with.
  abbrev pub Checks : Mints → Mints × Result Verification → Type 0
  Checks w (w1, err k) = w1.rows ≡ w.rows
  Checks w (w1, ok v) =
      (w1.rows ≡ w.rows)
      × (is_wallet r.crypto_wallet ≡ true)
      × ((amount : Option ℕ) × (eligibility w.calls r.crypto_wallet r.reference_metadata_id
            ≡ ok amount)
          × (w1.calls ≡ w.calls + 2)
          × (v ≡ verification ports r amount (last_of w.rows)))

  pub verify-Checks : (w : Mints) → Checks w (verify ports r w)
  unfolding verify
  verify-Checks w = elim (Bool-cases (is_wallet r.crypto_wallet)) [
    | inr e ↦ rw e refl
    | inl e ↦ elim (Result-cases (eligibility w.calls r.crypto_wallet r.reference_metadata_id)) [
      | inr (k, f) ↦ rw (e, f) refl
      | inl (amount, f) ↦ elim (Bool-cases (ports.up (w.calls + 1))) [
        | inl u ↦ rw (e, f, u) (refl, e, (amount, f, ground arith, refl))
        | inr u ↦ rw (e, f, u) refl
      ]
    ]
  ]

  held_date-unexpired : (d : Option ℕ) → held_date ports (unexpired ports d) ≡ unexpired ports d
  held_date-unexpired none = elim (Bool-cases (ltb now 0)) [ inl e ↦ rw e refl | inr e ↦ rw e refl ]
  held_date-unexpired (some d) = ground arith

  -- No signature is on hold.
  pub verification_not_held :
      (amount : Option ℕ) (last : Option MintHistory)
      → (verification ports r amount last).on_hold ≡ false
  unfolding verification
  verification_not_held amount none = ground arith
  verification_not_held amount (some m) = not_held m.due_date
    where
      not_held :
          (d : Option ℕ)
          → is_on_hold ports
              (held_date ports (unexpired ports d))
              (switch_date ports (unexpired ports d))
            ≡ false
      not_held none = ground arith
      not_held (some d) = ground arith
