-- ===== src/Common/Format.antt =====
-- src/domain/common/util.ts: amounts as decimal text.
pub mod Value
use offchain_service.Base.{
  ℕ, zero, suc, ◌+◌, ◌-◌, ◌/◌, ◌%◌, ◌==◌, ltb, leb, Bool, ◌&&◌, Option, none, some, List, [], ◌∷◌,
  ◌++◌, length, if◌then◌else◌, Text, Result, ok, err,
}
use offchain_service.Base.Lists.{take, drop, replicate}

-- `text.padStart(width, '0')`
unfoldable pub pad_start : ℕ → Text → Text
pad_start width t = replicate (width - length t) b'0' ++ t

-- `options?.truncateDecimals`, where 0 and undefined both keep the decimals.
abbrev truncate : Option ℕ → Text → Text
truncate none t = t
truncate (some zero) t = t
truncate (some (suc k)) t = take (suc k) t

abbrev or_two : Option ℕ → ℕ
or_two none = 2
or_two (some k) = k

-- `formatDecimals` for the separator `.`; a length is a ℕ, so the throw for a negative one is
-- never reached.
unfoldable pub format_decimals : Text → ℕ → Option ℕ → Text
unfolding pad_start
format_decimals value zero truncate_decimals =
    value ++ b'.' ∷ replicate (or_two truncate_decimals) b'0'
format_decimals value (suc d) truncate_decimals =
    let padded = pad_start (suc d) value in
    let integer = pad_start 1 (take (length padded - suc d) padded) in
    integer ++ b'.' ∷ truncate truncate_decimals (drop (length padded - suc d) padded)

-- The decimal digits of a number: `BigNumber.toString()`, which an `unassignedNumber` holds.
abbrev decimal_from : ℕ → ℕ → Text → Text
decimal_from zero n acc = acc
decimal_from (suc fuel) n acc =
    let digit = b'0' + n % 10 in
    let rest = decimal_from fuel (n / 10) (digit ∷ acc) in if ltb n 10 then digit ∷ acc else rest

unfoldable pub decimal : ℕ → Text
decimal n = decimal_from (suc n) n []

-- `validateDecimals`
unfoldable pub validate_decimals : ℕ → Bool
validate_decimals n = leb n 18
