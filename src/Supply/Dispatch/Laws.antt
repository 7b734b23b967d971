-- ===== src/Supply/Dispatch/Laws.antt =====
-- The calls of a dispatch and the order after it.
use offchain_service.Base.{
  ◌≡◌, ◌⊎◌, inl, inr, refl, sym, subst, ◌∙◌, Bool, true, false, none, some, List, [], ◌∷◌, any,
  Result, Result-cases, ok, err, arith,
}
use offchain_service.Common.Chain.{new_chain, NetworkType}
use offchain_service.Order.{
  Order, UserIdentifier, email, crypto_wallet, unknown_identifier, locked, claimed,
}
use offchain_service.Supply.Dispatch.{
  Way, claiming, locking, new_row, or_encrypted, Payload, SupplyRow, Receipt, PaidBy, DispatchPorts,
  Call, verifying, creating, sending, storing_receipt, updating, settle, execute, after_claim,
  after_lock, by_type, on_chain,
}

-- The calls of a dispatch that ends well.
abbrev pub all_calls : List Call
all_calls = verifying ∷ creating ∷ sending ∷ storing_receipt ∷ updating ∷ []

abbrev is_sending : Call → Bool
is_sending sending = true
is_sending verifying = false
is_sending creating = false
is_sending storing_receipt = false
is_sending updating = false

-- Whether tokens were sent.
abbrev pub has_sent : List Call → Bool
has_sent calls = any is_sending calls

-- The status that settles an order of the type.
abbrev pub IsSettled : {F : Type 0} → Order F → Order F → Type 0
IsSettled o o' =
    ((o.identifier_type ≡ crypto_wallet) × (o'.status ≡ some claimed))
    ⊎ ((o.identifier_type ≡ email) × (o'.status ≡ some locked))

module _ (ports : DispatchPorts) where
  open ports use {encryption, cbc_key}

  -- A send that follows the verification of its payload and the creation of its row, neither of
  -- which has thrown.
  abbrev IsCleared : Way → Payload → SupplyRow → List Call → Type 0
  IsCleared w p r calls =
      (has_sent calls ≡ false)
      ⊎ ((ports.verify w p ≡ ok tt) × ((created : SupplyRow) × (ports.create w r ≡ ok created)))

  settle-IsCleared :
      (w : Way) (p : Payload) (r : SupplyRow) → IsCleared w p r (settle ports w p r).0
  unfolding settle
  settle-IsCleared w p r = elim (Result-cases (ports.verify w p)) [
    | inr (k, v) ↦ rw v (inl refl)
    | inl (_, v) ↦ elim (Result-cases (ports.create w r)) [
      | inr (k, c) ↦ rw (v, c) (inl refl)
      | inl (created, c) ↦ inr (v, (created, c))
    ]
  ]

  -- What the payload of a dispatch is: for the order's tokens, with the sequence of the payment, on
  -- the chain of the order; and its way is that of the order's type.
  pub record IsDue {F : Type 0} (o : Order F) (payment : PaidBy) (w : Way) (p : Payload)
      (r : SupplyRow) : Type 0 where
    pub amount : p.amount ≡ o.amount_of_tokens
    pub nonce : p.nonce ≡ payment.sequence
    pub chain : new_chain ports.environment o.desired_chain_id ≡ ok p.chain
    pub way :
        ((w ≡ claiming) × (o.identifier_type ≡ crypto_wallet))
        ⊎ ((w ≡ locking) × (o.identifier_type ≡ email))
    pub row_of : (r.order_id ≡ o.id) × (r.payment_id ≡ payment.id)
    pub row_amount : r.uint256_amount ≡ o.amount_of_tokens.unassigned_number

  -- No tokens were sent, or what is due was verified and its row was created.
  abbrev pub SendsVerified : {F : Type 0} → Order F → PaidBy → List Call → Type 0
  SendsVerified o payment calls =
      (has_sent calls ≡ false)
      ⊎ ((w : Way) × (p : Payload) × (r : SupplyRow) × IsDue o payment w p r
          × (ports.verify w p ≡ ok tt)
          × ((created : SupplyRow) × (ports.create w r ≡ ok created)))

  settle_all :
      (w : Way) (p : Payload) (r : SupplyRow) {receipt : Receipt}
      → (settle ports w p r).1 ≡ ok receipt
      → (settle ports w p r).0 ≡ all_calls
  unfolding settle
  settle_all w p r h = ground arith

  module _ {F : Type 0} where
    after_claim_calls :
        (o : Order F) (x : List Call × Result Receipt) → (after_claim ports o x).0 ≡ x.0
    after_claim_calls o (calls, err k) = refl
    after_claim_calls o (calls, ok receipt) = ground arith

    after_lock_calls :
        (o : Order F) (x : List Call × Result Receipt) → (after_lock ports o x).0 ≡ x.0
    after_lock_calls o (calls, err k) = refl
    after_lock_calls o (calls, ok receipt) = ground arith

    after_claim_settled :
        (o : Order F) (x : List Call × Result Receipt) {r : Receipt}
        → (after_claim ports o x).2 ≡ ok r
        → ((receipt : Receipt) × (x.1 ≡ ok receipt))
          × ((after_claim ports o x).1.status ≡ some claimed)
    after_claim_settled o (calls, err k) h = ground arith
    after_claim_settled o (calls, ok receipt) h = ((receipt, refl), ground arith)

    after_lock_settled :
        (o : Order F) (x : List Call × Result Receipt) {r : Receipt}
        → (after_lock ports o x).2 ≡ ok r
        → ((receipt : Receipt) × (x.1 ≡ ok receipt))
          × ((after_lock ports o x).1.status ≡ some locked)
    after_lock_settled o (calls, err k) h = ground arith
    after_lock_settled o (calls, ok receipt) h = ((receipt, refl), ground arith)

    settled-SendsVerified :
        (o : Order F) (payment : PaidBy) (w : Way) (p : Payload) (r : SupplyRow)
        → IsDue o payment w p r
        → SendsVerified o payment (settle ports w p r).0
    settled-SendsVerified o payment w p r due = elim (settle-IsCleared w p r) [
      | inl none_sent ↦ inl none_sent
      | inr (v, created) ↦ inr (w, p, r, due, v, created)
    ]

    by_type-SendsVerified :
        (u : UserIdentifier) (o : Order F) (payment : PaidBy) (chain : NetworkType)
        → o.identifier_type ≡ u
        → new_chain ports.environment o.desired_chain_id ≡ ok chain
        → SendsVerified o payment (by_type ports u o payment chain).0
    by_type-SendsVerified crypto_wallet o payment chain e on =
        let p : Payload = record {
          onchain_address = some (
              or_encrypted ports o.user_identifier
                (encryption.decrypt o.user_identifier o.id cbc_key));
          amount = o.amount_of_tokens;
          nonce = payment.sequence;
          chain = chain;
        } in
        let x = settle ports claiming p (new_row ports o payment) in
        subst (SendsVerified o payment) {x = x.0} (sym (after_claim_calls o x)) (
          settled-SendsVerified o payment claiming p (new_row ports o payment) (record {
            amount = refl;
            nonce = refl;
            chain = on;
            way = inl (refl, e);
            row_of = (refl, refl);
            row_amount = refl;
          }))
    by_type-SendsVerified email o payment chain e on =
        let p : Payload = record {
          onchain_address = none;
          amount = o.amount_of_tokens;
          nonce = payment.sequence;
          chain = chain;
        } in
        let x = settle ports locking p (new_row ports o payment) in
        subst (SendsVerified o payment) {x = x.0} (sym (after_lock_calls o x)) (
          settled-SendsVerified o payment locking p (new_row ports o payment) (record {
            amount = refl;
            nonce = refl;
            chain = on;
            way = inr (refl, e);
            row_of = (refl, refl);
            row_amount = refl;
          }))
    by_type-SendsVerified unknown_identifier o payment chain e on = inl refl

    by_type-IsSettled :
        (u : UserIdentifier) (o : Order F) (payment : PaidBy) (chain : NetworkType) {r : Receipt}
        → o.identifier_type ≡ u
        → (by_type ports u o payment chain).2 ≡ ok r
        → ((by_type ports u o payment chain).0 ≡ all_calls)
          × IsSettled o (by_type ports u o payment chain).1
    by_type-IsSettled crypto_wallet o payment chain e h =
        let ((receipt, s), c) = after_claim_settled o _ h in
        (after_claim_calls o _ ∙ settle_all _ _ _ s, inl (e, c))
    by_type-IsSettled email o payment chain e h =
        let ((receipt, s), c) = after_lock_settled o _ h in
        (after_lock_calls o _ ∙ settle_all _ _ _ s, inr (e, c))
    by_type-IsSettled unknown_identifier o payment chain e h = ground arith

    on_chain-SendsVerified :
        (m : Result NetworkType) (o : Order F) (payment : PaidBy)
        → new_chain ports.environment o.desired_chain_id ≡ m
        → SendsVerified o payment (on_chain ports m o payment).0
    on_chain-SendsVerified (err k) o payment on = inl refl
    on_chain-SendsVerified (ok chain) o payment on =
        by_type-SendsVerified o.identifier_type o payment chain refl on

    -- However a dispatch ends, it has sent no tokens, or the port has verified a payload of the
    -- order's tokens with the sequence of the payment on the order's chain, as a claim for a wallet
    -- and as a lock for an e-mail address, and the row of that claim or lock was created with the
    -- identifiers of the order and of the payment and the amount of the tokens.
    pub execute-SendsVerified :
        (o : Order F) (payment : PaidBy) → SendsVerified o payment (execute ports o payment).0
    unfolding execute
    execute-SendsVerified o payment =
        on_chain-SendsVerified (new_chain ports.environment o.desired_chain_id) o payment refl

    on_chain-IsSettled :
        (m : Result NetworkType) (o : Order F) (payment : PaidBy) {r : Receipt}
        → (on_chain ports m o payment).2 ≡ ok r
        → ((on_chain ports m o payment).0 ≡ all_calls) × IsSettled o (on_chain ports m o payment).1
    on_chain-IsSettled (err k) o payment h = ground arith
    on_chain-IsSettled (ok chain) o payment h =
        by_type-IsSettled o.identifier_type o payment chain refl h

    -- A dispatch that ends well has made all five calls, and has claimed the order of a wallet or
    -- locked the order of an e-mail address.
    pub execute-IsSettled :
        (o : Order F) (payment : PaidBy) {r : Receipt}
        → (execute ports o payment).2 ≡ ok r
        → ((execute ports o payment).0 ≡ all_calls) × IsSettled o (execute ports o payment).1
    unfolding execute
    execute-IsSettled o payment h =
        on_chain-IsSettled (new_chain ports.environment o.desired_chain_id) o payment h
