-- ===== src/Order/Lifecycle.antt =====
-- Creating an order, loading it, and its expiry.
use offchain_service.Base.{
  ℕ, ◌+◌, ◌≤◌, ◌<◌, ◌≡◌, ◌↔◌, ◌⊎◌, refl, sym, ap, ◌∙◌, Bool, true, false, ◌&&◌, not, Option, none,
  some, [], length, Text, text_eq_refl, text_eq_iff, ok, ◌>>◌, throw_if, bind-ok, then-ok,
  ok_injective, arith,
}
use offchain_service.Base.Results.{unable_to_load_order, invalid_order_total}
use offchain_service.Base.Numbers.{Numbers}
use offchain_service.Order.{
  Order, requested, expired, canceled, option_text_eq, to_end_id, with_numbers, check_bindings,
  create, is_expired, is_test_total, default_order_expiration, set_payment_count, has_payments,
  is_past, or_else,
}

module _ (to_base36 : Text → Text) (n : Numbers) where
  open n use {F, lt, read}

  -- What holds of an order that `create` has let through.
  pub record IsNew (minimum : F) (props o : Order F) : Type 0 where
    pub status_or_default : o.status ≡ some (or_else props.status requested)
    pub expiry_or_default :
        o.expires_at ≡ some (or_else props.expires_at (props.created_at + default_order_expiration))
    pub end_id :
        (length (or_else o.end_to_end_id []) ≡ 25) ⊎ (length (or_else o.end_to_end_id []) ≡ 24)
    pub total_kept : o.total ≡ props.total
    pub total_enough : (lt o.total minimum ≡ false) ⊎ (is_test_total to_base36 n o.total ≡ true)
    pub id_kept : o.id ≡ props.id

  -- A created order has a status, an expiry and an end-to-end identifier of 24 or 25 characters,
  -- and its total reaches the minimum or is the test total.
  pub create-IsNew :
      (minimum : F) (props : Order F) {o : Order F}
      → create to_base36 n minimum props ≡ ok o
      → IsNew minimum props o
  unfolding create
  create-IsNew minimum props h = ground arith

  -- A created order carries the end-to-end identifier of its identifier.
  create_made :
      (minimum : F) (props : Order F) {o : Order F}
      → create to_base36 n minimum props ≡ ok o
      → (e : Text) × (to_end_id to_base36 o.id ≡ ok e) × (o.end_to_end_id ≡ some e)
  unfolding create
  create_made minimum props {o} h =
      let (_, h1) =
        then-ok
          (throw_if (lt props.total minimum && not (is_test_total to_base36 n props.total))
            invalid_order_total)
          _ h in
      let (e, made, h2) = bind-ok (to_end_id to_base36 props.id) _ h1 in
      let same = ok_injective h2 in
      (
        e,
        ap (λ (x : Order F). to_end_id to_base36 x.id) (sym same) ∙ made,
        ap (λ (x : Order F). x.end_to_end_id) (sym same),
      )

  -- Loading a row, whose identifier has an end-to-end identifier.
  check_bindings-bound :
      (row : Order Text) (e : Text)
      → to_end_id to_base36 row.id ≡ ok e
      → check_bindings to_base36 n row ≡ (
          throw_if (not (option_text_eq row.end_to_end_id e)) unable_to_load_order
          >> ok (with_numbers to_base36 n row))
  unfolding check_bindings
  check_bindings-bound row e h = rw h

  option_text_eq_refl : (t : Text) → option_text_eq (some t) t ≡ true
  option_text_eq_refl t = text_eq_refl t

  option_text_eq-eq : (s : Option Text) (t : Text) → option_text_eq s t ≡ true → s ≡ some t
  option_text_eq-eq none t h = ground arith
  option_text_eq-eq (some s) t h = ap some ((text_eq_iff s t).0 h)

  -- What is loaded has the status, the expiry and the identifiers of its row, and as its totals the
  -- numbers that the texts of the row's stand for.
  pub record IsLoaded (row : Order Text) (x : Order F) : Type 0 where
    pub total_read : x.total ≡ read row.total
    pub gas_read : x.total_gas ≡ read row.total_gas
    pub knn_read : x.total_knn ≡ read row.total_knn
    pub net_read : x.total_net ≡ read row.total_net
    pub ids_kept : (x.id ≡ row.id) × (x.end_to_end_id ≡ row.end_to_end_id)
    pub status_kept : x.status ≡ row.status
    pub expiry_kept : x.expires_at ≡ row.expires_at

  with_numbers-IsLoaded : (row : Order Text) → IsLoaded row (with_numbers to_base36 n row)
  unfolding with_numbers
  with_numbers-IsLoaded row = record {
    total_read = refl;
    gas_read = refl;
    knn_read = refl;
    net_read = refl;
    ids_kept = (refl, refl);
    status_kept = refl;
    expiry_kept = refl;
  }

  -- A row with the identifier of an order that `create` has let through is loaded exactly if it
  -- carries that order's end-to-end identifier; and what is loaded has the row's status, expiry and
  -- identifiers, and as its totals the numbers that the texts of the row's stand for.
  pub check_bindings-create_iff :
      (minimum : F) (props : Order F) {o : Order F} (row : Order Text)
      → create to_base36 n minimum props ≡ ok o
      → row.id ≡ o.id
      → ((x : Order F) × (check_bindings to_base36 n row ≡ ok x) × IsLoaded row x)
        ↔ (row.end_to_end_id ≡ o.end_to_end_id)
  check_bindings-create_iff minimum props {o} row h e =
      let (t, made, carried) = create_made minimum props h in
      let bound = check_bindings-bound row t (ap (to_end_id to_base36) e ∙ made) in
      (
        λ (x, loaded, _).
            option_text_eq-eq row.end_to_end_id t (passed _ (sym bound ∙ loaded)) ∙ sym carried,
        λ same.
            let test : option_text_eq row.end_to_end_id t ≡ true =
              ap (λ s. option_text_eq s t) (same ∙ carried) ∙ option_text_eq_refl t in
            (with_numbers to_base36 n row, bound ∙ rw test refl, with_numbers-IsLoaded row),
      )
    where
      passed :
          (b : Bool) {x : Order F}
          → (throw_if (not b) unable_to_load_order >> ok (with_numbers to_base36 n row)) ≡ ok x
          → b ≡ true
      passed true h = refl
      passed false h = ground arith

module _ {F : Type 0} where
  -- An order is expired exactly if it is in status `expired` or `canceled`, or is still requested
  -- after its date.
  pub is_expired_iff :
      (now : ℕ) (o : Order F)
      → (is_expired now o ≡ true) ↔ (
          (o.status ≡ some expired)
          ⊎ (o.status ≡ some canceled)
          ⊎ ((o.status ≡ some requested) × (is_past o.expires_at now ≡ true)))
  unfolding is_expired
  is_expired_iff now o = (λ h. ground arith, λ h. ground arith)

  -- Once expired, an order stays expired.
  pub is_expired_mono :
      (now later : ℕ) (o : Order F)
      → now ≤ later
      → is_expired now o ≡ true
      → is_expired later o ≡ true
  unfolding is_expired
  is_expired_mono now later o le h = ground arith

  pub has_payments-set_payment_count :
      (k : ℕ) (o : Order F) → 0 < k → has_payments (set_payment_count k o) ≡ true
  unfolding has_payments set_payment_count
  has_payments-set_payment_count k o h = ground arith
