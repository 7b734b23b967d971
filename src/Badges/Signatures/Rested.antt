-- ===== src/Badges/Signatures/Rested.antt =====
-- When a request for a signature is signed.
use offchain_service.Base.{
  ℕ, ◌/◌, ◌<◌, ◌≤◌, ◌≡◌, ◌⊎◌, inl, inr, refl, sym, ap, ◌∙◌, subst, true, false, Option, none, some,
  [], ◌∷◌, Result, ok, err, bind-ok, ok_injective, arith,
}
use offchain_service.Base.Bools.{ltb→lt}
use offchain_service.Base.Lists.{IsOneOf}
use offchain_service.Common.Chain.{NetworkType, layer, new_chain}
use offchain_service.Common.Format.{decimal}
use offchain_service.Supply.Claiming.Addresses.{is_wallet}
use offchain_service.Delegation.{Signed}
use offchain_service.Badges.{
  MintHistory, MintRequest, Verification, SignedMint, Mints, BadgePorts, number_or_zero, unexpired,
  held_date, chain_of, verification,
}
use offchain_service.Badges.Laws.{
  Sorts, HasLast, own_rows, last_of, last_of-HasLast, verification_not_held,
}
use offchain_service.Badges.Signatures.{signed_row, mint_type, mint_payload, signed_mint}
use offchain_service.Badges.Signatures.Laws.{IsLatest, IsRow, stored-IsRow}

module _ (ports : BadgePorts) (r : MintRequest) where
  open ports use {environment, now, eligibility, hash, sign, order_by_due}

  -- A signature of an eligible wallet, for the chain and the due date of a stored row of the wallet
  -- and the badge, and no such row is due later. Its payload states the hash of the type of the
  -- layer, the wallet, the badge, the amount one, the increment one and the due date in seconds.
  pub record IsSigned (after : Mints) (s : SignedMint) : Type 0 where
    pub due : ℕ
    pub row : MintHistory
    pub chain : NetworkType
    pub target : NetworkType
    pub answer : Signed
    pub wallet : is_wallet r.crypto_wallet ≡ true
    pub eligible :
        (call : ℕ) × (amount : Option ℕ) × (eligibility call r.crypto_wallet r.reference_metadata_id
          ≡ ok amount)
        × (0 < number_or_zero amount)
    pub in_future : now < due
    pub stored : IsRow ports r due after.rows row
    pub latest :
        (m : MintHistory)
        → IsOneOf m (own_rows ports r after.rows)
        → number_or_zero m.due_date ≤ due
    pub requested : new_chain environment r.chain_id ≡ ok chain
    pub targets : new_chain environment row.chain_id ≡ ok target
    pub states :
        (mint_payload ports chain r due).values
        ≡ hash (mint_type (layer chain))
          ∷ r.crypto_wallet
          ∷ decimal r.reference_metadata_id
          ∷ decimal 1
          ∷ decimal 1
          ∷ decimal (due / 1000)
          ∷ []
    pub answered : sign (mint_payload ports chain r due) target ≡ ok answer
    pub signature : s.signature ≡ answer.signature
    pub nonce : s.nonce ≡ answer.nonce
    pub due_seconds : s.due_date ≡ due / 1000
    pub on_chain_of : s.chain_id ≡ row.chain_id
    pub free : s.on_hold ≡ false

  -- What a request ends with; the row of a signature has the request's chain, or was there before.
  abbrev pub Signs : Mints → Mints × Option (Result SignedMint) → Type 0
  Signs before (after, none) = Unit
  Signs before (after, some (err k)) = Unit
  Signs before (after, some (ok s)) =
      (h : IsSigned after s) × ((h.row.chain_id ≡ r.chain_id) ⊎ IsOneOf h.row before.rows)

  verification-chain_id :
      (amount : Option ℕ) (m : MintHistory) (due : ℕ)
      → m.due_date ≡ some due
      → now < due
      → (verification ports r amount (some m)).chain_id ≡ m.chain_id
  unfolding verification
  verification-chain_id amount m due e h = by_date m.due_date e
    where
      by_date :
          (d : Option ℕ)
          → d ≡ some due
          → chain_of ports (held_date ports (unexpired ports d)) (some m) r.chain_id ≡ m.chain_id
      by_date none same = ground arith
      by_date (some d) same = let k = ap number_or_zero same in ground arith

  -- The rows before a round and after it.
  pub Signs-earlier :
      (before between : Mints) (due : ℕ) (x : Mints × Option (Result SignedMint))
      → between.rows ≡ signed_row r due ∷ before.rows
      → Signs between x
      → Signs before x
  unfolding signed_row
  Signs-earlier before between due (after, none) e _ = tt
  Signs-earlier before between due (after, some (err k)) e _ = tt
  Signs-earlier before between due (after, some (ok s)) e (h, origin) = (h, earlier h.row origin)
    where
      earlier :
          (row : MintHistory)
          → (row.chain_id ≡ r.chain_id) ⊎ IsOneOf row between.rows
          → (row.chain_id ≡ r.chain_id) ⊎ IsOneOf row before.rows
      earlier row (inl same) = inl same
      earlier row (inr i) = elim (subst (IsOneOf row) e i) [
        | inl same ↦ inl (ap (λ (m : MintHistory). m.chain_id) same)
        | inr j ↦ inr j
      ]

  pub signed_mint-IsSigned :
      (before w after : Mints) (call due : ℕ) (c : NetworkType) (amount : Option ℕ)
      (v : Verification) (s : SignedMint)
      → Sorts order_by_due
      → is_wallet r.crypto_wallet ≡ true
      → new_chain environment r.chain_id ≡ ok c
      → eligibility call r.crypto_wallet r.reference_metadata_id ≡ ok amount
      → IsLatest ports r due before.rows
      → w.rows ≡ signed_row r due ∷ before.rows
      → after.rows ≡ w.rows
      → v ≡ verification ports r amount (last_of ports r w.rows)
      → v.is_verified ≡ true
      → signed_mint ports c r due v ≡ ok s
      → (h : IsSigned after s) × ((h.row.chain_id ≡ r.chain_id) ⊎ IsOneOf h.row before.rows)
  unfolding signed_mint signed_row verification
  signed_mint-IsSigned before w after call due c amount v s sorts wallet on el due_latest e2 e3 ev
        verified h =
      let rows = signed_row r due ∷ before.rows in
      let there =
        subst (λ rows. HasLast (own_rows ports r rows) (last_of ports r rows)) e2
          (last_of-HasLast ports r sorts w.rows) in
      let (m, is_m, is_row) =
        stored-IsRow ports r due before.rows (last_of ports r rows) due_latest there in
      let (_, most) = subst (HasLast (own_rows ports r rows)) is_m there in
      let v_m = ev ∙ ap (verification ports r amount) (ap (last_of ports r) e2 ∙ is_m) in
      let chain_m =
        ap (λ (x : Verification). x.chain_id) v_m
        ∙ verification-chain_id amount m due is_row.2 due_latest.0 in
      let (target, t, h1) = bind-ok (new_chain environment v.chain_id) _ h in
      let (answer, a, h2) = bind-ok (sign (mint_payload ports c r due) target) _ h1 in
      let given = sym (ok_injective h2) in
      (
        record {
          due = due;
          row = m;
          chain = c;
          target = target;
          answer = answer;
          wallet = wallet;
          eligible = (
            call,
            amount,
            el,
            ltb→lt 0 (number_or_zero amount)
                (sym (ap (λ (x : Verification). x.is_verified) ev) ∙ verified),
          );
          in_future = due_latest.0;
          stored = subst (λ rows. IsRow ports r due rows m) (sym (e3 ∙ e2)) is_row;
          latest =
              subst
                (λ rows.
                  (x : MintHistory)
                  → IsOneOf x (own_rows ports r rows)
                  → number_or_zero x.due_date ≤ due)
                (sym (e3 ∙ e2))
                (λ x i. let g = most x i in let k = ap number_or_zero is_row.2 in omega arith);
          requested = on;
          targets = ap (new_chain environment) (sym chain_m) ∙ t;
          states = unfold mint_payload in refl;
          answered = a;
          signature = ap (λ (x : SignedMint). x.signature) given;
          nonce = ap (λ (x : SignedMint). x.nonce) given;
          due_seconds = ap (λ (x : SignedMint). x.due_date) given;
          on_chain_of = ap (λ (x : SignedMint). x.chain_id) given ∙ chain_m;
          free =
              ap (λ (x : SignedMint). x.on_hold) given
              ∙ ap (λ (x : Verification). x.on_hold) ev
              ∙ verification_not_held ports r amount (last_of ports r w.rows);
        },
        elim is_row.0 [
          | inl same ↦ inl (ap (λ (x : MintHistory). x.chain_id) same)
          | inr j ↦ inr j
        ],
      )
