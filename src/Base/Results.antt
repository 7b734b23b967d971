-- ===== src/Base/Results.antt =====
-- Exceptions as values: one constructor for each `throw` of the modelled code, and `port` for
-- what a service behind a port throws.
use Prim.Native.Nat.{ℕ}
use mathlib.Core.Path.{◌≡◌, refl, ap}
use mathlib.Core.Logic.{◌⊎◌, inl, inr}
use mathlib.Core.Bool.{Bool, true, false}
use native.Mathlib.Omega.{arith}

pub data Error : Type 0 where
  chain_undefined network_unsupported wrong_network : Error
  invalid_checksum_address invalid_checksum_total invalid_checksum_l1 : Error
  invalid_checksum_l2 invalid_checksum_uint256 invalid_checksum_nonce : Error
  possible_underflow undefined_balance : Error
  unable_to_load_order invalid_order_identifier invalid_order_total : Error
  unauthorized forbidden invalid_otp invalid_identifier_type : Error
  payment_mismatch missing_receipt : Error
  invalid_decimals below_minimum chain_not_informed invalid_chain : Error
  invalid_currency_layer gas_above_amount : Error
  database_failed unique_violation bank_failed type_error range_error : Error
  invalid_email_address invalid_wallet_address mail_failed : Error
  reference_error missing_client_id invalid_client_id missing_scope invalid_scope invalid_uri :
      Error
  missing_wallet missing_chain invalid_amount missing_transaction_type : Error
  amount_mismatch not_verified : Error
  chain_not_allowed layer_unavailable identifier_required : Error
  port : ℕ → Error

-- What a call ends with: the error that it throws, or its value.
pub data Result {ℓ} (Value : Type ℓ) : Type ℓ where
  err : (thrown : Error) → Result Value
  ok : (value : Value) → Result Value

abbrev pub throw_if : Bool → Error → Result (Unit {0})
throw_if false _ = ok tt
throw_if true thrown = err thrown

module _ {ℓ κ} {First : Type ℓ} {Then : Type κ} where
  infixl 5 ◌>>=◌
  abbrev pub ◌>>=◌ : Result First → (First → Result Then) → Result Then
  err thrown >>= _ = err thrown
  ok value >>= next = next value

module _ {ℓ} {Then : Type ℓ} where
  infixl 5 ◌>>◌
  abbrev pub ◌>>◌ : Result (Unit {0}) → Result Then → Result Then
  step >> rest = step >>= λ _. rest

-- A step on a state, and what follows it where it has not thrown.
abbrev pub and_then {ℓ} :
    {State : Type ℓ} {First Then : Type 0}
    → State × Result First
    → (First → State → State × Result Then)
    → State × Result Then
and_then (s, err thrown) next = (s, err thrown)
and_then (s, ok value) next = next value s

pub Result-cases {ℓ} :
    {A : Type ℓ} (r : Result A) → ((a : A) × (r ≡ ok a)) ⊎ ((e : Error) × (r ≡ err e))
Result-cases (ok a) = inl (a, refl)
Result-cases (err e) = inr (e, refl)

abbrev value_or {ℓ} : {Value : Type ℓ} → Value → Result Value → Value
value_or default (ok v) = v
value_or default (err _) = default

pub ok_injective {ℓ} : {Value : Type ℓ} {v w : Value} → ok v ≡ ok w → v ≡ w
ok_injective {v} h = ap (value_or v) h

pub throw_if-ok : (b : Bool) (e : Error) → throw_if b e ≡ ok tt → b ≡ false
throw_if-ok true e h = ground arith
throw_if-ok false e h = refl

-- A chain that ends well has gone through each of its parts.
module _ {ℓ κ} {First : Type ℓ} {Then : Type κ} where
  pub bind-ok :
      (m : Result First) (next : First → Result Then) {w : Then}
      → (m >>= next) ≡ ok w
      → (v : First) × (m ≡ ok v) × (next v ≡ ok w)
  bind-ok (ok v) next h = (v, refl, h)
  bind-ok (err e) next h = ground arith

module _ {ℓ} {Then : Type ℓ} where
  pub then-ok :
      (m : Result (Unit {0})) (k : Result Then) {w : Then}
      → (m >> k) ≡ ok w
      → (m ≡ ok tt) × (k ≡ ok w)
  then-ok (ok _) k h = (refl, h)
  then-ok (err e) k h = ground arith
