-- ===== src/Base/Numbers.antt =====
-- JavaScript's `number` where it carries a fractional amount: a parameter of the model. Integers
-- that the source only counts with (ids, blocks, nonces, milliseconds) are the native ℕ instead.
use Prim.Native.Nat.{ℕ}
use mathlib.Core.Path.{◌≡◌}
use mathlib.Core.Bool.{Bool, true, false}
use offchain_service.Base.Texts.{Text, IsFree}

pub record Numbers : Type 1 where
  pub F : Type 0
  pub of_ℕ : ℕ → F
  -- `NaN`, which `Number(undefined)` is
  pub nan : F
  pub add : F → F → F
  pub sub : F → F → F
  -- `a < b`, `a <= b` and `a === b`; `a > b` is `lt b a`
  pub lt : F → F → Bool
  pub le : F → F → Bool
  pub eq : F → F → Bool
  -- `String(x)`, `String(n)` of a whole number, and `Number(text)`
  pub show : F → Text
  pub show_ℕ : ℕ → Text
  pub read : Text → F
  -- `x.toFixed(2)`
  pub to_fixed2 : F → Text

-- What printing and reading a number keeps, and the two orders that hold of every `number`, `NaN`
-- included.
pub record IsPrinting (n : Numbers) (separator : ℕ) : Type 0 where
  pub read-show : (x : n.F) → n.read (n.show x) ≡ x
  pub read-show_ℕ : (k : ℕ) → n.read (n.show_ℕ k) ≡ n.of_ℕ k
  pub show-IsFree : (x : n.F) → IsFree separator (n.show x)
  pub show_ℕ-IsFree : (k : ℕ) → IsFree separator (n.show_ℕ k)
  pub eq-of_ℕ : (k : ℕ) → n.eq (n.of_ℕ k) (n.of_ℕ k) ≡ true
  pub lt-add_one : (x : n.F) → n.lt (n.add x (n.of_ℕ 1)) x ≡ false
  pub lt-sub_one : (x : n.F) → n.lt x (n.sub x (n.of_ℕ 1)) ≡ false
