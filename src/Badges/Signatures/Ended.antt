-- ===== src/Badges/Signatures/Ended.antt =====
-- When a request for a signature comes to its end.
use offchain_service.Base.{
  ℕ, suc, ◌≤◌, ◌≡◌, refl, sym, ap, ◌∙◌, true, false, Option, is_some, ltb, Result, ok, err, arith,
}
use offchain_service.Common.Chain.{NetworkType, new_chain}
use offchain_service.Badges.{
  MintRequest, Verification, SignedMint, Mints, BadgePorts, number_or_zero, verification,
}
use offchain_service.Badges.Signatures.{with_network, sign_mint}
use offchain_service.Badges.Signatures.Rounds.{IsRound, sign_round-Ends, eligible_at}

module _ (ports : BadgePorts) (r : MintRequest) where
  open ports use {environment}

  -- A wallet that is not eligible at a call is not eligible at a later one.
  abbrev pub IsNotRegained : Type 0
  IsNotRegained =
      (earlier later : ℕ) (a b : Option ℕ)
      → earlier ≤ later
      → eligible_at ports r earlier ≡ ok a
      → ltb 0 (number_or_zero a) ≡ false
      → eligible_at ports r later ≡ ok b
      → ltb 0 (number_or_zero b) ≡ false

  IsEnded : Mints × Option (Result SignedMint) → Type 0
  IsEnded x = is_some x.1 ≡ true

  second_round-IsEnded :
      (again : Mints → Mints × Option (Result SignedMint))
      → IsNotRegained
      → (before after : Mints) (due : ℕ) (v : Verification) → IsRound ports r before after due v
      → v.is_verified ≡ false
      → (chain : Result NetworkType) → IsEnded (with_network ports chain r again after)
  unfolding verification IsEnded
  second_round-IsEnded again lost before after due v round refused (err k) = refl
  second_round-IsEnded again lost before after due v round refused (ok c) =
      sign_round-Ends ports r c again IsEnded after (λ _ k. refl) (λ _ d u _ _. refl)
        (λ end d u second _.
          let gone =
            lost round.call after.calls round.amount second.first_amount round.called_before
              round.eligible
              (sym (ap (λ (x : Verification). x.is_verified) round.verified) ∙ refused)
              second.first_eligible in
          let there = second.first_verified in ground arith)

  -- Where a wallet that has lost its eligibility does not regain it, a request comes to its end in
  -- two rounds.
  pub sign_mint-IsEnded :
      IsNotRegained
      → (fuel : ℕ) (w : Mints) → is_some (sign_mint ports (suc (suc fuel)) r w).1 ≡ true
  unfolding sign_mint IsEnded
  sign_mint-IsEnded lost fuel w = by_chain (new_chain environment r.chain_id)
    where
      by_chain :
          (chain : Result NetworkType)
          → IsEnded (with_network ports chain r (sign_mint ports (suc fuel) r) w)
      by_chain (err k) = refl
      by_chain (ok c) =
          sign_round-Ends ports r c (sign_mint ports (suc fuel) r) IsEnded w (λ _ k. refl)
            (λ _ d u _ _. refl)
            (λ after due v round refused.
              second_round-IsEnded (sign_mint ports fuel r) lost w after due v round refused
                (new_chain environment r.chain_id))
