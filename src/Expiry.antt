-- ===== src/Expiry.antt =====
-- src/domain/order/usecases/expire-orders.usecase.ts: old requests are expired, and their users are
-- written to. What a letter formats by `Intl`, and the pause before it, are left out.
pub mod Laws
use offchain_service.Base.{
  ℕ, ◌+◌, ltb, Bool, true, false, ◌&&◌, ◌||◌, some, List, [], ◌∷◌, if◌then◌else◌, Text, codes,
  text_eq, Result, ok, err, ◌>>=◌, ◌>>◌,
}
use offchain_service.Base.Lists.{keep}
use offchain_service.Common.Format.{format_decimals, decimal}
use offchain_service.Order.{
  Order, OrderStatus, requested, expired, UserIdentifier, email, crypto_wallet, unknown_identifier,
  set_status, is_expired,
}
use offchain_service.Clearing.Database.{Tables, expired_by_system, create_transition}
use offchain_service.Ledger.Sync.{Encryption}

-- A letter, by the order and the decrypted address that it is about.
pub record Letter : Type 0 where
  pub order_id : Text
  pub address : Text
  pub knn_amount : Text

-- `endsWith`
abbrev pub ends_with : Text → Text → Bool
ends_with suffix [] = text_eq [] suffix
ends_with suffix (c ∷ s) = text_eq (c ∷ s) suffix || ends_with suffix s

-- The domain of the service's own addresses.
abbrev pub own_domain : Text
own_domain = codes "@kannacoin.io"

abbrev pub is_email_type : UserIdentifier → Bool
is_email_type email = true
is_email_type crypto_wallet = false
is_email_type unknown_identifier = false

module _ {F : Type 0} where
  -- The filter of the fetched orders, which all have a time of creation.
  unfoldable pub is_stale : ℕ → Order F → Bool
  unfolding is_expired
  is_stale now o = is_expired now o && ltb (o.created_at + 86400000) now

  -- `updatePromises`: all of them are started, and the first failure is what `Promise.all` throws.
  unfoldable pub expire_all :
      (ℕ → Bool) → List (Order F) → Tables F → List (Order F) × Tables F × Result (Unit {0})
  unfolding create_transition
  expire_all up [] t = ([], t, ok tt)
  expire_all up (o ∷ os) t =
      let (t1, first) = create_transition up (set_status expired o) expired_by_system t in
      let (rest, t2, others) = expire_all up os t1 in
      (set_status expired o ∷ rest, t2, first >> others)

  abbrev pub letter_of : Order F → Text → Letter
  letter_of o address = record {
    order_id = o.id;
    address = address;
    knn_amount =
        format_decimals (decimal o.amount_of_tokens.unassigned_number) o.amount_of_tokens.decimals
          (some 4);
  }

  -- A round of the loop over the orders; a letter that cannot be sent is only logged.
  abbrev pub with_letter :
      Order F → Result Text → List Letter × Result (Unit {0}) → List Letter × Result (Unit {0})
  with_letter o (err k) rest = ([], err k)
  with_letter o (ok address) (letters, result) =
      if ends_with own_domain address
      then (letters, result)
      else (letter_of o address ∷ letters, result)

  -- The loop
  unfoldable pub write_letters :
      Encryption → Text → List (Order F) → List Letter × Result (Unit {0})
  unfolding format_decimals decimal
  write_letters cipher key [] = ([], ok tt)
  write_letters cipher key (o ∷ os) =
      let rest = write_letters cipher key os in
      if is_email_type o.identifier_type
      then with_letter o (cipher.decrypt o.user_identifier o.id key) rest
      else rest

  abbrev after_expiry :
      Encryption
      → Text
      → List (Order F) × Tables F × Result (Unit {0})
      → Tables F × List Letter × Result (Unit {0})
  after_expiry cipher key (os, t, err k) = (t, [], err k)
  after_expiry cipher key (os, t, ok _) =
      let (letters, result) = write_letters cipher key os in (t, letters, result)

  abbrev expire_fetched :
      (ℕ → Bool)
      → ℕ
      → Encryption
      → Text
      → Result (List (Order F))
      → Tables F
      → Tables F × List Letter × Result (Unit {0})
  expire_fetched up now cipher key (err k) t = (t, [], err k)
  expire_fetched up now cipher key (ok []) t = (t, [], ok tt)
  expire_fetched up now cipher key (ok (o ∷ os)) t =
      after_expiry cipher key (expire_all up (keep (is_stale now) (o ∷ os)) t)

  -- `execute`: the tables, the letters and the result. The argument `fetch` is `fetchManyByStatus`.
  unfoldable pub expire_orders :
      (ℕ → Bool)
      → ℕ
      → Encryption
      → Text
      → (List OrderStatus → ℕ → Result (List (Order F)))
      → Tables F
      → Tables F × List Letter × Result (Unit {0})
  unfolding is_stale expire_all write_letters
  expire_orders up now cipher key fetch t =
      expire_fetched up now cipher key (fetch (requested ∷ []) 5) t
