-- ===== src/Badges/Signatures/Rounds.antt =====
-- The rounds of a request for a signature, and what each leaves.
use offchain_service.Base.{
  ℕ, ◌+◌, ◌≤◌, ◌≡◌, refl, sym, ap, ◌∙◌, subst, Bool, true, false, Option, some, List, ◌∷◌, ltb,
  if◌then◌else◌, Error, Result, ok, err, arith,
}
use offchain_service.Base.Results.{database_failed}
use offchain_service.Common.Chain.{NetworkType}
use offchain_service.Supply.Claiming.Addresses.{is_wallet}
use offchain_service.Badges.{
  MintHistory, MintRequest, Verification, SignedMint, Mints, BadgePorts, number_or_zero,
  verification, verify, create_history,
}
use offchain_service.Badges.Laws.{last_of, Checks, verify-Checks}
use offchain_service.Badges.Signatures.{
  signed_row, refused_row, due_or_new, signed_mint, after_second, after_row, after_refused,
  after_first, sign_round,
}

module _ (ports : BadgePorts) (r : MintRequest) where
  open ports use {environment, eligibility, order_by_due}

  -- The answer of the rules of eligibility at a call.
  abbrev pub eligible_at : ℕ → Result (Option ℕ)
  eligible_at call = eligibility call r.crypto_wallet r.reference_metadata_id

  -- A round from a state that stores a row and verifies twice.
  pub record IsRound (before after : Mints) (due : ℕ) (v : Verification) : Type 0 where
    pub first_amount : Option ℕ
    pub amount : Option ℕ
    pub call : ℕ
    pub wallet : is_wallet r.crypto_wallet ≡ true
    pub first_eligible : eligible_at before.calls ≡ ok first_amount
    pub first_verified : ltb 0 (number_or_zero first_amount) ≡ true
    pub is_due :
        due
        ≡ due_or_new ports
            (verification ports r first_amount (last_of ports r before.rows)).due_date
    pub stored : after.rows ≡ signed_row r due ∷ before.rows
    pub later_call : before.calls ≤ call
    pub called_before : call ≤ after.calls
    pub eligible : eligible_at call ≡ ok amount
    pub verified :
        v ≡ verification ports r amount (last_of ports r (signed_row r due ∷ before.rows))

  module _ (c : NetworkType) (again : Mints → Mints × Option (Result SignedMint))
      (Ends : Mints × Option (Result SignedMint) → Type 0) (w : Mints)
      (throws : (after : Mints) (k : Error) → Ends (after, some (err k)))
      (signs : (after : Mints) (due : ℕ) (v : Verification)
        → IsRound w after due v
        → v.is_verified ≡ true
        → Ends (after, some (signed_mint ports c r due v)))
      (repeats : (after : Mints) (due : ℕ) (v : Verification)
        → IsRound w after due v
        → v.is_verified ≡ false
        → Ends (again after)) where
    after_second-Ends :
        (due : ℕ) (x : Mints × Result Verification)
        → ((after : Mints) (v : Verification) → x ≡ (after, ok v) → IsRound w after due v)
        → Ends (after_second ports c r again due x)
    after_second-Ends due (after, err k) _ = throws after k
    after_second-Ends due (after, ok v) round = by_test v.is_verified refl
      where
        by_test :
            (b : Bool)
            → v.is_verified ≡ b
            → Ends (if b then (after, some (signed_mint ports c r due v)) else again after)
        by_test true e = signs after due v (round after v refl) e
        by_test false e = repeats after due v (round after v refl) e

    -- What the first verification found, and the row that is stored then.
    after_row-Ends :
        (w1 : Mints) (first_amount : Option ℕ)
        → is_wallet r.crypto_wallet ≡ true
        → eligible_at w.calls ≡ ok first_amount
        → ltb 0 (number_or_zero first_amount) ≡ true
        → w1.rows ≡ w.rows
        → w1.calls ≡ w.calls + 2
        → let due =
            due_or_new ports
              (verification ports r first_amount (last_of ports r w.rows)).due_date in
          Ends (after_row ports c r again due (create_history ports (signed_row r due) w1))
    after_row-Ends w1 first_amount wallet el positive same calls = by_up (ports.up w1.calls)
      where
        due : ℕ
        due = due_or_new ports (verification ports r first_amount (last_of ports r w.rows)).due_date

        row : MintHistory
        row = signed_row r due

        w2 : Mints
        w2 = record w1 { rows = row ∷ w1.rows; calls = w1.calls + 1 }

        round :
            (x : Mints × Result Verification)
            → Checks ports r w2 x
            → (after : Mints) (v : Verification) → x ≡ (after, ok v)
            → IsRound w after due v
        round x checks after v e =
            let (same2, _, (amount, el2, calls2, ev)) = subst (Checks ports r w2) e checks in
            let stored = ap (λ (rows : List MintHistory). row ∷ rows) same in
            record {
              first_amount = first_amount;
              amount = amount;
              call = w2.calls;
              wallet = wallet;
              first_eligible = el;
              first_verified = positive;
              is_due = refl;
              stored = same2 ∙ stored;
              later_call = omega arith;
              called_before = omega arith;
              eligible = el2;
              verified =
                  ev ∙ ap (λ rows. verification ports r amount (last_of ports r rows)) stored;
            }

        by_up :
            (b : Bool)
            → Ends (
                after_row ports c r again due (
                  if b
                  then (w2, ok tt)
                  else (record w1 { calls = w1.calls + 1 }, err database_failed)))
        by_up true =
            after_second-Ends due (verify ports r w2)
              (round (verify ports r w2) (verify-Checks ports r w2))
        by_up false = throws _ _

    after_refused-Ends :
        (w1 : Mints)
        → Ends (after_refused ports c r again (create_history ports (refused_row r) w1))
    after_refused-Ends w1 = by_up (ports.up w1.calls)
      where
        by_up :
            (b : Bool)
            → Ends (
                after_refused ports c r again (
                  if b
                  then (record w1 { rows = refused_row r ∷ w1.rows; calls = w1.calls + 1 }, ok tt)
                  else (record w1 { calls = w1.calls + 1 }, err database_failed)))
        by_up true = throws _ _
        by_up false = throws _ _

    after_first-Ends :
        (x : Mints × Result Verification)
        → Checks ports r w x
        → Ends (after_first ports c r again x)
    unfolding verification
    after_first-Ends (w1, err k) _ = throws w1 k
    after_first-Ends (w1, ok v) (same, wallet, (amount, el, calls, ev)) =
        subst (λ v. Ends (after_first ports c r again (w1, ok v))) (sym ev)
          (by_test (ltb 0 (number_or_zero amount)) refl)
      where
        by_test :
            (b : Bool)
            → ltb 0 (number_or_zero amount) ≡ b
            → Ends (
                if b
                then after_row ports c r again
                    (due_or_new ports
                      (verification ports r amount (last_of ports r w.rows)).due_date)
                    (create_history ports
                      (signed_row r (
                        due_or_new ports
                          (verification ports r amount (last_of ports r w.rows)).due_date))
                      w1)
                else after_refused ports c r again (create_history ports (refused_row r) w1))
        by_test true e = after_row-Ends w1 amount wallet el e same calls
        by_test false e = after_refused-Ends w1

    -- A round throws, signs, or repeats the request.
    pub sign_round-Ends : Ends (sign_round ports c r again w)
    sign_round-Ends = after_first-Ends (verify ports r w) (verify-Checks ports r w)
