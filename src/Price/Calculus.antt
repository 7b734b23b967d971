-- ===== src/Price/Calculus.antt =====
-- src/infrastructure/adapters/unsupported-types/uint256/calculus/fixed-point-calculus.adapter.ts.
-- An `unassignedNumber`, a text of decimal digits, is the number that its digits stand for.
pub mod Laws
use offchain_service.Base.{
  ℕ, ◌+◌, ◌-◌, ◌*◌, ◌/◌, ◌^◌, ◌≡◌, ◌≢◌, ◌<◌, Bool, true, false, not, if◌then◌else◌, ◌==◌, Error,
  Result, ok, err, ◌>>=◌, ◌>>◌, ◌≤◌, throw_if,
}
use offchain_service.Base.Results.{possible_underflow}
use offchain_service.Common.Chain.{IsoCodeType}

-- `CurrencyAmount`
pub record CurrencyAmount : Type 0 where
  pub unassigned_number : ℕ
  pub decimals : ℕ
  pub iso_code : IsoCodeType

-- The part of the ethers library that the adapter calls: `FixedNumber` in the format
-- `ufixed128x18`, each call with what it throws, and `utils.parseEther(x.toString()).toString()`.
pub record Ethers : Type 1 where
  pub Fixed : Type 0
  pub from_value : ℕ → Result Fixed
  pub add_unsafe : Fixed → Fixed → Result Fixed
  pub sub_unsafe : Fixed → Fixed → Result Fixed
  pub mul_unsafe : Fixed → Fixed → Result Fixed
  pub div_unsafe : Fixed → Fixed → Result Fixed
  pub is_negative : Fixed → Bool
  pub parse_ether : Fixed → Result ℕ

-- The number of units of the last decimal place that fit 128 bits.
abbrev pub fixed_limit : ℕ
fixed_limit = 2 ^ 128

-- The documented behaviour of the unsigned format: a value is a whole number of units below the
-- limit, and an operation whose exact result leaves the range throws.
pub record IsExact (e : Ethers) : Type 0 where
  pub units : e.Fixed → ℕ
  pub units_bound : (x : e.Fixed) → units x < fixed_limit
  pub from_value_ok :
      (n : ℕ) → n < fixed_limit → (x : e.Fixed) × (e.from_value n ≡ ok x) × (units x ≡ n)
  pub from_value_err : (n : ℕ) → fixed_limit ≤ n → (k : Error) × (e.from_value n ≡ err k)
  pub add_ok :
      (x y : e.Fixed)
      → units x + units y < fixed_limit
      → (z : e.Fixed) × (e.add_unsafe x y ≡ ok z) × (units z ≡ units x + units y)
  pub add_err :
      (x y : e.Fixed) → fixed_limit ≤ units x + units y → (k : Error) × (e.add_unsafe x y ≡ err k)
  pub sub_ok :
      (x y : e.Fixed)
      → units y ≤ units x
      → (z : e.Fixed) × (e.sub_unsafe x y ≡ ok z) × (units z ≡ units x - units y)
  pub sub_err : (x y : e.Fixed) → units x < units y → (k : Error) × (e.sub_unsafe x y ≡ err k)
  pub not_negative : (x : e.Fixed) → e.is_negative x ≡ false
  pub parse_ether_units : (x : e.Fixed) → e.parse_ether x ≡ ok (units x)

-- `bigNumberDecimals`
abbrev pub big_number_decimals : ℕ
big_number_decimals = 18

-- The digits padded with zeros at the end; `padEnd` to a shorter length changes nothing.
unfoldable pub pad_units : CurrencyAmount → ℕ
pad_units a =
    if a.decimals == big_number_decimals
    then a.unassigned_number
    else a.unassigned_number * 10 ^ (big_number_decimals - a.decimals)

module _ (e : Ethers) where
  -- `toFixedNumber`
  unfoldable pub to_fixed_number : CurrencyAmount → Result e.Fixed
  to_fixed_number a = e.from_value (pad_units a)

  -- `toCurrency`
  unfoldable pub to_currency : e.Fixed → ℕ → IsoCodeType → Result CurrencyAmount
  to_currency x decimals iso_code = do
    throw_if (e.is_negative x) possible_underflow
    n ← e.parse_ether x
    ok (record { unassigned_number = n; decimals = decimals; iso_code = iso_code })

  -- The body that `sum`, `sub`, `divide` and `multiply` share: both amounts are converted, then
  -- the operation, then the result is converted back.
  unfoldable pub through :
      (e.Fixed → e.Fixed → Result e.Fixed)
      → CurrencyAmount
      → CurrencyAmount
      → IsoCodeType
      → Result CurrencyAmount
  unfolding to_fixed_number to_currency
  through op a b iso_code = do
    x ← to_fixed_number a
    y ← to_fixed_number b
    z ← op x y
    to_currency z big_number_decimals iso_code

  unfoldable pub sum : CurrencyAmount → CurrencyAmount → Result CurrencyAmount
  unfolding through
  sum a b = through e.add_unsafe a b a.iso_code

  unfoldable pub sub : CurrencyAmount → CurrencyAmount → Result CurrencyAmount
  unfolding through
  sub a b = through e.sub_unsafe a b a.iso_code

  unfoldable pub divide : CurrencyAmount → CurrencyAmount → IsoCodeType → Result CurrencyAmount
  unfolding through
  divide dividend divisor out = through e.div_unsafe dividend divisor out

  unfoldable pub multiply : CurrencyAmount → CurrencyAmount → IsoCodeType → Result CurrencyAmount
  unfolding through
  multiply a b out = through e.mul_unsafe a b out

  -- `isNegative`
  unfoldable pub is_negative_amount : CurrencyAmount → Result Bool
  unfolding to_fixed_number
  is_negative_amount a = do x ← to_fixed_number a; ok (e.is_negative x)

  -- `isPositive`
  unfoldable pub is_positive_amount : CurrencyAmount → Result Bool
  unfolding to_fixed_number
  is_positive_amount a = do x ← to_fixed_number a; ok (not (e.is_negative x))
