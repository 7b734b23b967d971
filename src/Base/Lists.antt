-- ===== src/Base/Lists.antt =====
-- Lists over the native numbers: length, Boolean quantifiers, the filter by a Boolean test.
use Prim.Native.Nat.{ℕ, zero, suc, ◌+◌, ◌-◌, ◌≤◌}
use mathlib.Core.Path.{◌≡◌, refl, sym, ap, ◌∙◌}
use mathlib.Core.Logic.{◌⊎◌, inl, inr}
use mathlib.Core.Bool.{Bool, true, false, ◌&&◌, ◌||◌}
use mathlib.Core.List.{List, [], ◌∷◌, ◌++◌}
use native.Mathlib.Omega.{arith}
use offchain_service.Base.Bools.{if◌then◌else◌}

module _ {ℓ} {A : Type ℓ} where
  abbrev pub length : List A → ℕ
  length [] = 0
  length (_ ∷ xs) = suc (length xs)

  -- `Array.some`
  abbrev pub any : (A → Bool) → List A → Bool
  any p [] = false
  any p (x ∷ xs) = p x || any p xs

  -- `Array.every`
  abbrev pub all : (A → Bool) → List A → Bool
  all p [] = true
  all p (x ∷ xs) = p x && all p xs

  -- `Array.filter`
  abbrev pub keep : (A → Bool) → List A → List A
  keep p [] = []
  keep p (x ∷ xs) = let rest = keep p xs in if p x then x ∷ rest else rest

  abbrev pub count_if : (A → Bool) → List A → ℕ
  count_if p [] = 0
  count_if p (x ∷ xs) = let rest = count_if p xs in if p x then suc rest else rest

  abbrev pub take : ℕ → List A → List A
  take zero xs = []
  take (suc n) [] = []
  take (suc n) (x ∷ xs) = x ∷ take n xs

  abbrev pub drop : ℕ → List A → List A
  drop zero xs = xs
  drop (suc n) [] = []
  drop (suc n) (x ∷ xs) = drop n xs

  abbrev pub replicate : ℕ → A → List A
  replicate zero a = []
  replicate (suc n) a = a ∷ replicate n a

  pub take-append-drop : (n : ℕ) (xs : List A) → take n xs ++ drop n xs ≡ xs
  take-append-drop zero xs = refl
  take-append-drop (suc n) [] = refl
  take-append-drop (suc n) (x ∷ xs) = ap (λ r. x ∷ r) (take-append-drop n xs)

  pub length-drop : (n : ℕ) (xs : List A) → length (drop n xs) ≡ length xs - n
  length-drop zero xs = omega arith
  length-drop (suc n) [] = omega arith
  length-drop (suc n) (x ∷ xs) = omega (arith, length-drop n xs)

  pub length-replicate : (n : ℕ) (a : A) → length (replicate n a) ≡ n
  length-replicate zero a = refl
  length-replicate (suc n) a = ap suc (length-replicate n a)

  pub length-append : (xs ys : List A) → length (xs ++ ys) ≡ length xs + length ys
  length-append [] ys = omega arith
  length-append (x ∷ xs) ys = omega (arith, length-append xs ys)

  pub length-keep : (p : A → Bool) (xs : List A) → length (keep p xs) ≡ count_if p xs
  length-keep p [] = refl
  length-keep p (x ∷ xs) = ground (arith, length-keep p xs)

  pub count_if-le : (p : A → Bool) (xs : List A) → count_if p xs ≤ length xs
  count_if-le p [] = omega arith
  count_if-le p (x ∷ xs) = ground (arith, count_if-le p xs)

module _ {ℓ κ} {A : Type ℓ} (P : A → Type κ) where
  abbrev pub All : List A → Type κ
  All [] = Unit
  All (x ∷ xs) = P x × All xs

  pub All-append : (xs ys : List A) → All xs → All ys → All (xs ++ ys)
  All-append [] ys _ k = k
  All-append (x ∷ xs) ys (p, h) k = (p, All-append xs ys h k)

module _ {A : Type 0} where
  -- The list has the element.
  abbrev pub IsOneOf : A → List A → Type 0
  IsOneOf a [] = ⊥
  IsOneOf a (b ∷ bs) = (a ≡ b) ⊎ IsOneOf a bs

  pub IsOneOf-keep_intro :
      (p : A → Bool) (a : A) (xs : List A) → IsOneOf a xs → p a ≡ true → IsOneOf a (keep p xs)
  IsOneOf-keep_intro p a [] never q = elim never [ ]
  IsOneOf-keep_intro p a (x ∷ xs) (inl same) q = rw (sym (ap p same) ∙ q) (inl same)
  IsOneOf-keep_intro p a (x ∷ xs) (inr i) q = more (p x) (IsOneOf-keep_intro p a xs i q)
    where
      more : (b : Bool) → IsOneOf a (keep p xs) → IsOneOf a (if b then x ∷ keep p xs else keep p xs)
      more true rest = inr rest
      more false rest = rest

  pub IsOneOf-keep_elim :
      (p : A → Bool) (a : A) (xs : List A) → IsOneOf a (keep p xs) → IsOneOf a xs × (p a ≡ true)
  IsOneOf-keep_elim p a [] never = elim never [ ]
  IsOneOf-keep_elim p a (x ∷ xs) i = cases (p x) refl (IsOneOf-keep_elim p a xs) i
    where
      cases :
          (b : Bool)
          → p x ≡ b
          → (IsOneOf a (keep p xs) → IsOneOf a xs × (p a ≡ true))
          → IsOneOf a (if b then x ∷ keep p xs else keep p xs)
          → IsOneOf a (x ∷ xs) × (p a ≡ true)
      cases true e rec (inl same) = (inl same, ap p same ∙ e)
      cases true e rec (inr j) = (inr (rec j).0, (rec j).1)
      cases false e rec j = (inr (rec j).0, (rec j).1)
