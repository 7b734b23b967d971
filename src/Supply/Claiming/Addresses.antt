-- ===== src/Supply/Claiming/Addresses.antt =====
-- src/domain/supply/usecases/claim-locked-supply.usecase.ts: the tests of the e-mail address and of
-- the wallet, whose regular expressions are read as tests of the parts around `@`, `.` and `0x`.
use offchain_service.Base.{
  ℕ, leb, ◌==◌, Bool, false, ◌&&◌, ◌||◌, not, Option, none, some, List, [], ◌∷◌, any, all, length,
  Text, codes, Result, err, throw_if,
}
use offchain_service.Base.Texts.{split}
use offchain_service.Base.Results.{invalid_email_address, invalid_wallet_address, type_error}

abbrev pub is_between : ℕ → ℕ → ℕ → Bool
is_between a b c = leb a c && leb c b

abbrev pub is_alphanumeric : ℕ → Bool
is_alphanumeric c = is_between b'a' b'z' c || is_between b'A' b'Z' c || is_between b'0' b'9' c

-- The characters of the part before `@`.
abbrev is_local : ℕ → Bool
is_local c = is_alphanumeric c || any (λ d. d == c) (codes ".!#$%&'*+/=?^_`{|}~-")

abbrev is_label : ℕ → Bool
is_label c = is_alphanumeric c || (c == b'-')

-- One character or more, each of which passes the test.
abbrev is_word : (ℕ → Bool) → Text → Bool
is_word p [] = false
is_word p (c ∷ s) = all p (c ∷ s)

abbrev has_parts : List Text → Bool
has_parts (local ∷ domain ∷ []) =
    is_word is_local local && all (is_word is_label) (split b'.' domain)
has_parts [] = false
has_parts (s ∷ []) = false
has_parts (s ∷ t ∷ u ∷ ts) = false

-- `validateEmailAddress`
unfoldable pub validate_email_address : Text → Result (Unit {0})
validate_email_address address =
    throw_if (not (has_parts (split b'@' address))) invalid_email_address

abbrev pub is_hexadecimal : ℕ → Bool
is_hexadecimal c = is_between b'a' b'f' c || is_between b'A' b'F' c || is_between b'0' b'9' c

abbrev pub is_wallet : Text → Bool
is_wallet [] = false
is_wallet (c ∷ []) = false
is_wallet (c ∷ d ∷ digits) =
    (c == b'0') && (d == b'x') && (length digits == 40) && all is_hexadecimal digits

-- `validateCryptoWallet`; a wallet that is not there has no `match`.
unfoldable pub validate_crypto_wallet : Option Text → Result (Unit {0})
validate_crypto_wallet none = err type_error
validate_crypto_wallet (some w) = throw_if (not (is_wallet w)) invalid_wallet_address
