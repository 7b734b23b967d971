-- ===== src/Badges/Signatures/Ends.antt =====
-- The ends of a request for a signature.
use offchain_service.Base.{
  ℕ, zero, suc, ◌≡◌, refl, sym, subst, true, Option, some, ◌∷◌, Result, ok, err,
}
use offchain_service.Common.Chain.{NetworkType, new_chain}
use offchain_service.Badges.{MintRequest, Verification, SignedMint, Mints, BadgePorts}
use offchain_service.Badges.Laws.{Sorts, last_of, last_of-HasLast}
use offchain_service.Badges.Signatures.{signed_row, signed_mint, with_network, sign_mint}
use offchain_service.Badges.Signatures.Laws.{IsLatest, due_or_new-IsLatest}
use offchain_service.Badges.Signatures.Rested.{Signs, Signs-earlier, signed_mint-IsSigned}
use offchain_service.Badges.Signatures.Rounds.{IsRound, sign_round-Ends}

module _ (ports : BadgePorts) (r : MintRequest) where
  open ports use {environment, order_by_due}

  module _ (sorts : Sorts order_by_due) where
    round-IsLatest :
        (before after : Mints) (due : ℕ) (v : Verification)
        → IsRound ports r before after due v
        → IsLatest ports r due before.rows
    round-IsLatest before after due v round =
        subst (λ due. IsLatest ports r due before.rows) (sym round.is_due)
          (due_or_new-IsLatest ports r round.first_amount (last_of ports r before.rows) before.rows
            (last_of-HasLast ports r sorts before.rows))

    round-Signs :
        (c : NetworkType) (before after : Mints) (due : ℕ) (v : Verification)
        → new_chain environment r.chain_id ≡ ok c
        → IsRound ports r before after due v
        → v.is_verified ≡ true
        → (x : Result SignedMint) → signed_mint ports c r due v ≡ x
        → Signs ports r before (after, some x)
    round-Signs c before after due v on round verified (err k) e = tt
    round-Signs c before after due v on round verified (ok s) e =
        signed_mint-IsSigned ports r before
          (record { rows = signed_row r due ∷ before.rows; calls = 0 }) after round.call due c
          round.amount v s sorts round.wallet on round.eligible
          (round-IsLatest before after due v round) refl round.stored round.verified verified e

    with_network-Signs :
        (again : Mints → Mints × Option (Result SignedMint))
        → ((w : Mints) → Signs ports r w (again w))
        → (w : Mints) (chain : Result NetworkType) → new_chain environment r.chain_id ≡ chain
        → Signs ports r w (with_network ports chain r again w)
    with_network-Signs again later w (err k) e = tt
    with_network-Signs again later w (ok c) e =
        sign_round-Ends ports r c again (Signs ports r w) w (λ after k. tt)
          (λ after due v round verified.
            round-Signs c w after due v e round verified (signed_mint ports c r due v) refl)
          (λ after due v round _.
            Signs-earlier ports r w after due (again after) round.stored (later after))

    -- Where the database sorts, and a request for a signature gives one: the wallet is one and was
    -- eligible; the signature is what the port gives for a payload that states the hash of the type
    -- of the layer, the wallet, the badge, an amount and an increment of one, and a due date in the
    -- future, in seconds, on the chain of a stored row of the wallet and the badge with that due
    -- date; no such row is due later; that chain is the request's, or the row was there before; and
    -- the answer says that the signature is not on hold.
    pub sign_mint-Signs : (fuel : ℕ) (w : Mints) → Signs ports r w (sign_mint ports fuel r w)
    unfolding sign_mint
    sign_mint-Signs zero w = tt
    sign_mint-Signs (suc fuel) w =
        with_network-Signs (sign_mint ports fuel r) (sign_mint-Signs fuel) w
          (new_chain environment r.chain_id) refl
