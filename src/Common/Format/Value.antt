-- ===== src/Common/Format/Value.antt =====
-- The number that a formatted amount stands for.
use native.Mathlib.Nat.{pow-suc}
use offchain_service.Base.{
  ℕ, zero, suc, ◌+◌, ◌-◌, ◌*◌, ◌^◌, ◌≤◌, ◌<◌, ◌≡◌, refl, sym, ◌∙◌, none, [], ◌∷◌, ◌++◌, length,
  Text, arith,
}
use offchain_service.Base.Lists.{
  take, drop, replicate, take-append-drop, length-append, length-drop, length-replicate,
}
use offchain_service.Common.Format.{pad_start, format_decimals}

-- The value of a text of digits.
abbrev pub value_from : ℕ → Text → ℕ
value_from acc [] = acc
value_from acc (c ∷ s) = value_from (acc * 10 + (c - b'0')) s

abbrev pub value : Text → ℕ
value = value_from 0

value_from-add : (acc : ℕ) (s : Text) → value_from acc s ≡ acc * 10 ^ length s + value s
value_from-add acc [] = omega arith
value_from-add acc (c ∷ s) =
    rw pow-suc
      (omega (arith, value_from-add (acc * 10 + (c - b'0')) s, value_from-add (0 + (c - b'0')) s))

value_from-append :
    (acc : ℕ) (s t : Text) → value_from acc (s ++ t) ≡ value_from (value_from acc s) t
value_from-append acc [] t = refl
value_from-append acc (c ∷ s) t = value_from-append (acc * 10 + (c - b'0')) s t

pub value-append : (s t : Text) → value (s ++ t) ≡ value s * 10 ^ length t + value t
value-append s t = value_from-append 0 s t ∙ value_from-add (value s) t

value-replicate : (n : ℕ) (t : Text) → value (replicate n b'0' ++ t) ≡ value t
value-replicate zero t = refl
value-replicate (suc n) t = value-replicate n t

pub value-pad_start : (n : ℕ) (t : Text) → value (pad_start n t) ≡ value t
unfolding pad_start
value-pad_start n t = value-replicate (n - length t) t

pub length-pad_start : (n : ℕ) (t : Text) → n ≤ length (pad_start n t)
unfolding pad_start
length-pad_start n t = omega (
  arith,
  length-append (replicate (n - length t) b'0') t,
  length-replicate {A = ℕ} (n - length t) b'0',
)

-- A text with a point, and the value of it in units of the last place.
abbrev pub Reads : ℕ → ℕ → Text → Type 0
Reads d units t =
    (i : Text) × (f : Text) × (t ≡ i ++ b'.' ∷ f)
    × (length f ≡ d)
    × (0 < length i)
    × (value i * 10 ^ d + value f ≡ units)

value-split :
    (w p : Text) (d : ℕ) (t : Text)
    → length p ≡ d
    → w ++ p ≡ t
    → value (pad_start 1 w) * 10 ^ d + value p ≡ value t
value-split w p d t len e = rw (value-pad_start 1 w, ← len, ← e) (sym (value-append w p))

-- An amount of at least one decimal place, formatted in full, has an integer part, the point and
-- exactly its decimal places, and reads as the amount that its digits stand for.
pub format_decimals-Reads :
    (digits : Text) (d : ℕ) → Reads (suc d) (value digits) (format_decimals digits (suc d) none)
unfolding format_decimals
format_decimals-Reads digits d =
    let padded = pad_start (suc d) digits in
    let whole = take (length padded - suc d) padded in
    let places = drop (length padded - suc d) padded in
    let len : length places ≡ suc d =
      omega (arith, length-drop (length padded - suc d) padded, length-pad_start (suc d) digits) in
    (
      pad_start 1 whole,
      places,
      refl,
      len,
      length-pad_start 1 whole,
      value-split whole places (suc d) padded len (take-append-drop (length padded - suc d) padded)
          ∙ value-pad_start (suc d) digits,
    )
