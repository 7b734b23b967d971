-- ===== src/Badges/Signatures.antt =====
-- src/domain/badge/usecases/sign-aggregated-mint.usecase.ts: a signature for a wallet that is verified.
pub mod Laws
pub mod Rested
pub mod Rounds
pub mod Ends
pub mod Ended
use offchain_service.Base.{
  ℕ, zero, suc, ◌+◌, ◌/◌, Bool, true, false, Option, none, some, List, [], ◌∷◌, ◌++◌, if◌then◌else◌,
  Text, codes, Result, ok, err, ◌>>=◌,
}
use offchain_service.Base.Results.{not_verified}
use offchain_service.Common.Chain.{NetworkType, LayerType, l1, l2, layer, new_chain, is_production}
use offchain_service.Common.Format.{decimal}
use offchain_service.Delegation.{SignaturePayload, Signed}
use offchain_service.Badges.{
  MintHistory, MintRequest, Verification, SignedMint, Mints, BadgePorts, create_history, verify,
}

-- `typeHash`
abbrev pub mint_type : LayerType → Text
mint_type l1 =
    codes
      "Mint(address to, uint16 id, uint256 amount, uint16 incremental, uint256 dueDate, uint256 nonce)"
mint_type l2 =
    codes
      "Mint(address to, uint16 id, uint256 amount, uint16 incremental, uint256 dueDate, uint256 nonce, uint256 chainId)"

-- The row of a request that is not verified.
unfoldable pub refused_row : MintRequest → MintHistory
refused_row r = record {
  reference_metadata_id = r.reference_metadata_id;
  crypto_wallet = r.crypto_wallet;
  amount = 1;
  valid = false;
  description = codes "Not verified";
  client_ip = r.client_ip;
  client_agent = r.client_agent;
  due_date = none;
  chain_id = r.chain_id;
}

-- The row of a request that is verified.
unfoldable pub signed_row : MintRequest → ℕ → MintHistory
unfolding decimal
signed_row r due = record {
  reference_metadata_id = r.reference_metadata_id;
  crypto_wallet = r.crypto_wallet;
  amount = 1;
  valid = true;
  description = codes "1x of #" ++ decimal r.reference_metadata_id ++ codes " verified and signed";
  client_ip = r.client_ip;
  client_agent = r.client_agent;
  due_date = some due;
  chain_id = r.chain_id;
}

module _ (ports : BadgePorts) where
  open ports use {environment, now, hash, sign}

  -- `verifyResult.dueDate`, or the due date of a new signature.
  abbrev pub due_or_new : Option ℕ → ℕ
  due_or_new none = now + 900000
  due_or_new (some due) = due

  unfoldable pub mint_payload : NetworkType → MintRequest → ℕ → SignaturePayload
  unfolding layer decimal
  mint_payload c r due = record {
    types =
        codes "bytes32"
        ∷ codes "address"
        ∷ codes "uint256"
        ∷ codes "uint256"
        ∷ codes "uint256"
        ∷ codes "uint256"
        ∷ [];
    values =
        hash (mint_type (layer c))
        ∷ r.crypto_wallet
        ∷ decimal r.reference_metadata_id
        ∷ decimal 1
        ∷ decimal 1
        ∷ decimal (due / 1000)
        ∷ [];
  }

  -- The answer of a request that is verified twice, where `c` is the request's chain.
  unfoldable pub signed_mint : NetworkType → MintRequest → ℕ → Verification → Result SignedMint
  unfolding mint_payload new_chain
  signed_mint c r due v = do
    target ← new_chain environment v.chain_id
    s ← sign (mint_payload c r due) target
    ok (record {
      crypto_wallet = r.crypto_wallet;
      signature = s.signature;
      reference_metadata_id = r.reference_metadata_id;
      nonce = s.nonce;
      incremental = 1;
      due_date = due / 1000;
      amount = 1;
      switch_chains_date = v.switch_chains_date;
      on_hold = v.on_hold;
      chain_id = v.chain_id;
    })

  module _ (c : NetworkType) (r : MintRequest)
      (again : Mints → Mints × Option (Result SignedMint)) where
    -- After the second verification: the signature, or the whole request again.
    abbrev pub after_second : ℕ → Mints × Result Verification → Mints × Option (Result SignedMint)
    after_second due (w, err k) = (w, some (err k))
    after_second due (w, ok v) =
        if v.is_verified then (w, some (signed_mint c r due v)) else again w

    abbrev pub after_row : ℕ → Mints × Result (Unit {0}) → Mints × Option (Result SignedMint)
    after_row due (w, err k) = (w, some (err k))
    after_row due (w, ok _) = after_second due (verify ports r w)

    abbrev pub after_refused : Mints × Result (Unit {0}) → Mints × Option (Result SignedMint)
    after_refused (w, err k) = (w, some (err k))
    after_refused (w, ok _) = (w, some (err not_verified))

    abbrev pub after_first : Mints × Result Verification → Mints × Option (Result SignedMint)
    after_first (w, err k) = (w, some (err k))
    after_first (w, ok v) =
        let due = due_or_new v.due_date in
        if v.is_verified
        then after_row due (create_history ports (signed_row r due) w)
        else after_refused (create_history ports (refused_row r) w)

    abbrev pub sign_round : Mints → Mints × Option (Result SignedMint)
    sign_round w = after_first (verify ports r w)

  abbrev pub with_network :
      Result NetworkType
      → MintRequest
      → (Mints → Mints × Option (Result SignedMint))
      → Mints
      → Mints × Option (Result SignedMint)
  with_network (err k) r again w = (w, some (err k))
  with_network (ok c) r again w = sign_round c r again w

  -- `execute` of SignAggregatedMintUseCase, with fuel for its calls of itself.
  unfoldable pub sign_mint : ℕ → MintRequest → Mints → Mints × Option (Result SignedMint)
  unfolding new_chain verify refused_row signed_row signed_mint
  sign_mint zero r w = (w, none)
  sign_mint (suc fuel) r w = with_network (new_chain environment r.chain_id) r (sign_mint fuel r) w
