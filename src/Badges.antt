-- ===== src/Badges.antt =====
-- src/domain/badge: a wallet gets a signature to mint a badge on one chain, and the signatures are
-- kept in the table mint_history, in
-- src/infrastructure/repositories/offchain/badge. The rules of eligibility are a parameter.
pub mod Signatures
pub mod Laws
use offchain_service.Base.{
  ℕ, zero, suc, ◌+◌, ◌*◌, ◌/◌, ltb, ◌==◌, Bool, true, false, ◌&&◌, not, Option, none, some, is_some,
  List, [], ◌∷◌, ◌++◌, keep, if◌then◌else◌, Text, codes, text_eq, Result, ok, err, ◌>>=◌,
}
use offchain_service.Base.Results.{and_then, invalid_wallet_address, database_failed, not_verified}
use offchain_service.Common.Chain.{
  Environment, NetworkType, LayerType, l1, l2, layer, new_chain, network_id, is_production,
}
use offchain_service.Common.Format.{decimal}
use offchain_service.Supply.Claiming.Addresses.{is_wallet}
use offchain_service.Delegation.{SignaturePayload, Signed}

-- `MintHistory`, a row of mint_history
pub record MintHistory : Type 0 where
  pub reference_metadata_id : ℕ
  pub crypto_wallet : Text
  pub amount : ℕ
  pub valid : Bool
  pub description : Text
  pub client_ip : Text
  pub client_agent : Text
  pub due_date : Option ℕ
  pub chain_id : ℕ

-- `SignMintRequestDto`
pub record MintRequest : Type 0 where
  pub crypto_wallet : Text
  pub reference_metadata_id : ℕ
  pub chain_id : ℕ
  pub client_ip : Text
  pub client_agent : Text

-- `VerifyMintResponseDto`
pub record Verification : Type 0 where
  pub on_hold : Bool
  pub reference_metadata_id : ℕ
  pub is_verified : Bool
  pub amount : ℕ
  pub chain_id : ℕ
  pub due_date : Option ℕ
  pub switch_chains_date : Option ℕ

-- `SignedMintResponseDto`
pub record SignedMint : Type 0 where
  pub crypto_wallet : Text
  pub signature : Text
  pub reference_metadata_id : ℕ
  pub nonce : Text
  pub incremental : ℕ
  pub due_date : ℕ
  pub amount : ℕ
  pub switch_chains_date : Option ℕ
  pub on_hold : Bool
  pub chain_id : ℕ

-- The table, and the number of the calls of the ports so far.
pub record Mints : Type 0 where
  pub rows : List MintHistory
  pub calls : ℕ

-- The ports: `eligibility` is `executeSingle` with the amount of its answer, `order_by_due` is the
-- database's `order by due_date desc`, and `sign` is the port's with the signer `BadgesMinter`.
pub record BadgePorts : Type 0 where
  pub environment : Environment
  pub now : ℕ
  pub up : ℕ → Bool
  pub eligibility : ℕ → Text → ℕ → Result (Option ℕ)
  pub order_by_due : List MintHistory → List MintHistory
  pub hash : Text → Text
  pub sign : SignaturePayload → NetworkType → Result Signed

abbrev pub number_or_zero : Option ℕ → ℕ
number_or_zero none = 0
number_or_zero (some d) = d

-- A call of a port.
abbrev called : Mints → Mints
called w = record w { calls = w.calls + 1 }

-- The condition of `fetchLast`
abbrev pub is_row_of : Text → ℕ → MintHistory → Bool
is_row_of wallet id m =
    text_eq m.crypto_wallet wallet && (m.reference_metadata_id == id) && is_some m.due_date

abbrev pub first_row : List MintHistory → Option MintHistory
first_row [] = none
first_row (m ∷ _) = some m

module _ (ports : BadgePorts) where
  open ports use {environment, now, up, eligibility, order_by_due, hash, sign}

  abbrev pub last_row : Text → ℕ → List MintHistory → Option MintHistory
  last_row wallet id rows = first_row (order_by_due (keep (is_row_of wallet id) rows))

  -- `fetchLast`
  abbrev pub fetch_last_mint : Text → ℕ → Mints → Mints × Result (Option MintHistory)
  fetch_last_mint wallet id w =
      if up w.calls
      then (called w, ok (last_row wallet id w.rows))
      else (called w, err database_failed)

  -- `create_history`, of PersistableMintHistoryDbAdapter
  abbrev pub create_history : MintHistory → Mints → Mints × Result (Unit {0})
  create_history m w =
      if up w.calls
      then (record (called w) { rows = m ∷ w.rows }, ok tt)
      else (called w, err database_failed)

  -- A date that is there and in the future.
  abbrev pub unexpired : Option ℕ → Option ℕ
  unexpired none = none
  unexpired (some d) = if ltb now d then some d else none

  -- `lastSignatureDueDate`
  abbrev pub last_due_date : Option MintHistory → Option ℕ
  last_due_date none = none
  last_due_date (some m) = unexpired m.due_date

  -- `switchChainsDate`
  abbrev pub switch_date : Option ℕ → Option ℕ
  switch_date none = none
  switch_date (some d) = some (d + 900000)

  -- `dueDate`
  abbrev pub held_date : Option ℕ → Option ℕ
  held_date due = if ltb now (number_or_zero (switch_date due)) then due else none

  -- The chain of the last signature while it is due, else the chain of the request.
  abbrev pub chain_of : Option ℕ → Option MintHistory → ℕ → ℕ
  chain_of none last chain = chain
  chain_of (some _) none chain = chain
  chain_of (some _) (some m) chain = m.chain_id

  abbrev pub is_on_hold : Option ℕ → Option ℕ → Bool
  is_on_hold none switch = false
  is_on_hold (some due) switch = ltb due now && ltb now (number_or_zero switch)

  -- What `execute` of VerifyAggregatedBadgeMintUseCase makes of the two answers.
  unfoldable pub verification : MintRequest → Option ℕ → Option MintHistory → Verification
  verification r amount last =
      let last_due = last_due_date last in
      let due = held_date last_due in
      let is_verified = ltb 0 (number_or_zero amount) in
      record {
        on_hold = is_on_hold due (switch_date last_due);
        reference_metadata_id = r.reference_metadata_id;
        is_verified = is_verified;
        amount = if is_verified then 1 else 0;
        chain_id = chain_of due last r.chain_id;
        due_date = due;
        switch_chains_date = switch_date last_due;
      }

  -- `execute` of VerifyAggregatedBadgeMintUseCase
  unfoldable pub verify : MintRequest → Mints → Mints × Result Verification
  unfolding verification
  verify r w =
      if not (is_wallet r.crypto_wallet)
      then (w, err invalid_wallet_address)
      else and_then (called w, eligibility w.calls r.crypto_wallet r.reference_metadata_id)
          λ amount w1.
            and_then (fetch_last_mint r.crypto_wallet r.reference_metadata_id w1)
              λ last w2. (w2, ok (verification r amount last))
