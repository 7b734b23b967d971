-- ===== src/Price/Calculus/Laws.antt =====
-- `sum` and `sub` of the calculus adapter are exact on their range and throw outside it.
use offchain_service.Base.{
  zero, suc, ◌*◌, ◌/◌, ◌^◌, ◌==◌, if◌then◌else◌, Bool-cases, subst, sym, ap, ◌∙◌, ℕ, ◌+◌, ◌-◌, ◌≡◌,
  ◌<◌, ◌≤◌, ◌⊎◌, inl, inr, Result, ok, err, Error, arith,
}
use native.Mathlib.Decide.{dec_lt}
use native.Mathlib.Nat.{pow-suc, mul_assoc, mul-div_cancel}
use offchain_service.Price.Calculus.{
  CurrencyAmount, Ethers, IsExact, fixed_limit, big_number_decimals, pad_units, sum, sub,
}

-- An amount is a number of units of the last of eighteen decimal places.
abbrev pub IsWorth : CurrencyAmount → ℕ → Type 0
IsWorth a u = u * 10 ^ a.decimals ≡ a.unassigned_number * 10 ^ big_number_decimals

pow-add_ten : (j k : ℕ) → 10 ^ (j + k) ≡ 10 ^ j * 10 ^ k
pow-add_ten j zero = let s : j + 0 ≡ j = omega arith in rw s (omega arith)
pow-add_ten j (suc k) =
    let s : j + suc k ≡ suc (j + k) = omega arith in
    rw (s, pow-suc 10 (j + k), pow-suc 10 k) (rw (pow-add_ten j k) (mul_assoc (10 ^ j) (10 ^ k) 10))

ten-pow_pos : (k : ℕ) → 0 < 10 ^ k
ten-pow_pos zero = omega arith
ten-pow_pos (suc k) = omega (arith, ten-pow_pos k, pow-suc 10 k)

mul-right_cancel : (a b x : ℕ) → 0 < x → a * x ≡ b * x → a ≡ b
mul-right_cancel a b x h e = sym (mul-div_cancel a h) ∙ ap (λ y. y / x) e ∙ mul-div_cancel b h

-- The padded digits are the amount in those units.
pad_units-IsWorth : (a : CurrencyAmount) (u : ℕ) → a.decimals ≤ 18 → IsWorth a u → pad_units a ≡ u
unfolding pad_units
pad_units-IsWorth a u h w =
    let d = a.decimals in
    let n = a.unassigned_number in
    let whole : 18 - d + d ≡ 18 = omega arith in
    let ten : 10 ^ (18 - d + d) ≡ 10 ^ 18 = ap (λ k. 10 ^ k) whole in
    let shift : 10 ^ (18 - d) * 10 ^ d ≡ 10 ^ 18 = sym (pow-add_ten (18 - d) d) ∙ ten in
    let same : n * 10 ^ (18 - d) * 10 ^ d ≡ u * 10 ^ d =
      mul_assoc n (10 ^ (18 - d)) (10 ^ d) ∙ ap (λ x. n * x) shift ∙ sym w in
    padded d n ∙ mul-right_cancel (n * 10 ^ (18 - d)) u (10 ^ d) (ten-pow_pos d) same
  where
    padded : (d n : ℕ) → (if d == 18 then n else n * 10 ^ (18 - d)) ≡ n * 10 ^ (18 - d)
    padded d n = elim (Bool-cases (d == 18)) [
      | inl e ↦ let z : 18 - d ≡ 0 = ground arith in rw (e, z) (omega arith)
      | inr e ↦ rw e
    ]

-- How a call ends that should give a number of units if `fits`, and throw if not.
abbrev pub Gives : (fits : Type 0) → ℕ → Result CurrencyAmount → Type 0
Gives fits n (ok c) = fits × (c.unassigned_number ≡ n) × (c.decimals ≡ big_number_decimals)
Gives fits n (err _) = ¬ fits

module _ (e : Ethers) (exact : IsExact e) where
  open exact use {
    units, from_value_ok, from_value_err, add_ok, add_err, sub_ok, sub_err, not_negative,
    parse_ether_units,
  }

  from_value-cases :
      (n : ℕ)
      → ((x : e.Fixed) × (e.from_value n ≡ ok x) × (units x ≡ n) × (n < fixed_limit))
        ⊎ ((k : Error) × (e.from_value n ≡ err k) × (fixed_limit ≤ n))
  from_value-cases n = elim (dec_lt n fixed_limit) [
    | yes h ↦ let (x, f, u) = from_value_ok n h in inl (x, f, u, h)
    | no h ↦ let (k, f) = from_value_err n (omega arith) in inr (k, f, omega arith)
  ]

  add-cases :
      (x y : e.Fixed)
      → ((z : e.Fixed) × (e.add_unsafe x y ≡ ok z)
          × (units z ≡ units x + units y)
          × (units x + units y < fixed_limit))
        ⊎ ((k : Error) × (e.add_unsafe x y ≡ err k) × (fixed_limit ≤ units x + units y))
  add-cases x y = elim (dec_lt (units x + units y) fixed_limit) [
    | yes h ↦ let (z, f, u) = add_ok x y h in inl (z, f, u, h)
    | no h ↦ let (k, f) = add_err x y (omega arith) in inr (k, f, omega arith)
  ]

  sub-cases :
      (x y : e.Fixed)
      → ((z : e.Fixed) × (e.sub_unsafe x y ≡ ok z)
          × (units z ≡ units x - units y)
          × (units y ≤ units x))
        ⊎ ((k : Error) × (e.sub_unsafe x y ≡ err k) × (units x < units y))
  sub-cases x y = elim (dec_lt (units x) (units y)) [
    | yes h ↦ let (k, f) = sub_err x y h in inr (k, f, h)
    | no h ↦ let (z, f, u) = sub_ok x y (omega arith) in inl (z, f, u, omega arith)
  ]

  -- With a fixed-point library that is exact within its format, the sum of two amounts is exact
  -- where the result fits the format, and throws in every other case.
  pub sum-Gives :
      (a b : CurrencyAmount)
      → Gives (pad_units a + pad_units b < fixed_limit) (pad_units a + pad_units b) (sum e a b)
  unfolding sum
  sum-Gives a b = elim (from_value-cases (pad_units a)) [
    | inr (k, f, h) ↦ rw f (omega arith)
    | inl (x, fx, ux, bx) ↦ elim (from_value-cases (pad_units b)) [
      | inr (k, f, h) ↦ rw (fx, f) (omega arith)
      | inl (y, fy, uy, by) ↦ elim (add-cases x y) [
        | inr (k, f, h) ↦ rw (fx, fy, f) (omega arith)
        | inl (z, fz, uz, bz) ↦ rw (fx, fy, fz, not_negative z, parse_ether_units z) (omega arith)
      ]
    ]
  ]

  -- With the same library, the difference of two amounts is exact where the first fits the format
  -- and the second is at most the first, and throws in every other case.
  pub sub-Gives :
      (a b : CurrencyAmount)
      → Gives
          ((pad_units a < fixed_limit) × (pad_units b ≤ pad_units a))
          (pad_units a - pad_units b)
          (sub e a b)
  unfolding sub
  sub-Gives a b = elim (from_value-cases (pad_units a)) [
    | inr (k, f, h) ↦ rw f (λ g. omega arith)
    | inl (x, fx, ux, bx) ↦ elim (from_value-cases (pad_units b)) [
      | inr (k, f, h) ↦ rw (fx, f) (λ g. omega arith)
      | inl (y, fy, uy, by) ↦ elim (sub-cases x y) [
        | inr (k, f, h) ↦ rw (fx, fy, f) (λ g. omega arith)
        | inl (z, fz, uz, bz) ↦ rw (fx, fy, fz, not_negative z, parse_ether_units z) (omega arith)
      ]
    ]
  ]

  -- With a fixed-point library that is exact within its format, for two amounts of at most eighteen
  -- decimal places, the sum is the exact number of units of the last of eighteen decimal places
  -- where that fits the format, and throws in every other case.
  pub sum-IsExact :
      (a b : CurrencyAmount) (u v : ℕ)
      → a.decimals ≤ 18
      → b.decimals ≤ 18
      → IsWorth a u
      → IsWorth b v
      → Gives (u + v < fixed_limit) (u + v) (sum e a b)
  sum-IsExact a b u v da db wa wb =
      let p : pad_units a ≡ u = pad_units-IsWorth a u da wa in
      let q : pad_units b ≡ v = pad_units-IsWorth b v db wb in
      subst (λ x. Gives (x < fixed_limit) x (sum e a b)) (ap2 p q) (sum-Gives a b)
    where
      ap2 : pad_units a ≡ u → pad_units b ≡ v → pad_units a + pad_units b ≡ u + v
      ap2 p q = omega arith
