-- ===== src/Base.antt =====
-- The shared names: the libraries', passed on, Boolean tests, lists, text, dictionaries, results.
pub mod Bools
pub mod Lists
pub mod Texts
pub mod Dict
pub mod Results
pub mod Numbers
pub use Prim.Native.Nat.{ℕ, zero, suc, ◌+◌, ◌-◌, ◌*◌, ◌/◌, ◌%◌, ◌^◌, ◌≤◌, ◌<◌}
pub use mathlib.Core.Path.{◌≡◌, refl, sym, ap, ◌∙◌, subst}
pub use mathlib.Core.Logic.{◌≢◌, ◌↔◌, ◌⊎◌, inl, inr}
pub use mathlib.Core.Bool.{Bool, true, false, ◌&&◌, ◌||◌, not}
pub use mathlib.Core.Option.{Option, none, some}
pub use mathlib.Core.List.{List, [], ◌∷◌, ◌++◌, map}
pub use native.Mathlib.Omega.{arith}
pub use Bools.{ltb, leb, ◌==◌, if◌then◌else◌, Bool-cases, Option-cases, is_some}
pub use Lists.{length, any, all, keep, All, count_if}
pub use Texts.{Text, codes, text_eq, text_eq_iff, text_eq_refl}
pub use Results.{
  Error, Result, ok, err, ◌>>=◌, ◌>>◌, throw_if, Result-cases, ok_injective, throw_if-ok, bind-ok,
  then-ok,
}
