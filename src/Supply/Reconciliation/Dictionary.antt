-- ===== src/Supply/Reconciliation/Dictionary.antt =====
-- What the dictionary of the unsettled orders holds.
use offchain_service.Base.{
  ℕ, zero, suc, ◌==◌, ◌≡◌, ◌≢◌, ◌⊎◌, inl, inr, refl, sym, ap, ◌∙◌, Bool, true, false, Option, none,
  some, List, [], ◌∷◌, any, if◌then◌else◌, Bool-cases, arith,
}
use offchain_service.Base.Lists.{IsOneOf}
use mathlib.Core.Option.{some-injective}
use offchain_service.Order.{Order}
use offchain_service.Supply.Reconciliation.{assign, parse_dictionary, order_at}

abbrev pub has_sequence : ℕ → Option ℕ → Bool
has_sequence k none = false
has_sequence k (some j) = j == k

module _ {F : Type 0} where
  abbrev pub is_taken : Option ℕ → List (Order F) → Bool
  is_taken none os = false
  is_taken (some k) os = any (λ o. has_sequence k o.payment_sequence) os

  -- No two orders have one sequence.
  abbrev pub AreDistinct : List (Order F) → Type 0
  AreDistinct [] = Unit
  AreDistinct (o ∷ os) = (is_taken o.payment_sequence os ≡ false) × AreDistinct os

  order_at-assign :
      (k : ℕ) (s : Option ℕ) (o : Order F) (d : List (ℕ × Order F))
      → has_sequence k s ≡ false
      → order_at k (assign s o d) ≡ order_at k d
  order_at-assign k none o d h = refl
  order_at-assign k (some zero) o d h = refl
  order_at-assign k (some (suc j)) o d h = ap (λ t. if t then some o else order_at k d) h

  -- Orders without the sequence do not change what is found.
  order_at_untaken :
      (k : ℕ) (d : List (ℕ × Order F)) (os : List (Order F))
      → is_taken (some k) os ≡ false
      → order_at k (parse_dictionary d os) ≡ order_at k d
  unfolding parse_dictionary
  order_at_untaken k d [] h = refl
  order_at_untaken k d (o ∷ os) h =
      order_at_untaken k (assign o.payment_sequence o d) os (ground arith)
      ∙ order_at-assign k o.payment_sequence o d (ground arith)

  order_at_assigned :
      (k j : ℕ) (p : Order F) (d : List (ℕ × Order F))
      → suc j == k ≡ true
      → order_at k (assign (some (suc j)) p d) ≡ some p
  order_at_assigned k j p d h = ap (λ t. if t then some p else order_at k d) h

  -- What is found is one of the orders, with the sequence, or was found before.
  pub order_at_sound :
      (k : ℕ) (d : List (ℕ × Order F)) (os : List (Order F)) (o : Order F)
      → order_at k (parse_dictionary d os) ≡ some o
      → (IsOneOf o os × (o.payment_sequence ≡ some k) × (k ≢ 0)) ⊎ (order_at k d ≡ some o)
  unfolding parse_dictionary
  order_at_sound k d [] o h = inr h
  order_at_sound k d (p ∷ os) o h = elim (order_at_sound k (assign p.payment_sequence p d) os o h) [
    | inl (i, e, z) ↦ inl (inr i, e, z)
    | inr f ↦ assigned p.payment_sequence refl f
  ]
    where
      assigned :
          (s : Option ℕ)
          → p.payment_sequence ≡ s
          → order_at k (assign s p d) ≡ some o
          → (IsOneOf o (p ∷ os) × (o.payment_sequence ≡ some k) × (k ≢ 0)) ⊎ (order_at k d ≡ some o)
      assigned none e f = inr f
      assigned (some zero) e f = inr f
      assigned (some (suc j)) e f = elim (Bool-cases (suc j == k)) [
        | inl b ↦
            let same : p ≡ o = some-injective p o (sym (order_at_assigned k j p d b) ∙ f) in
            inl (
              inl (sym same),
              ap (λ (x : Order F). x.payment_sequence) (sym same) ∙ e ∙ ap some (ground arith),
              ground arith,
            )
        | inr b ↦ inr (sym (order_at-assign k (some (suc j)) p d b) ∙ f)
      ]

  -- With distinct sequences every order with one is found.
  pub order_at_complete :
      (k : ℕ) (d : List (ℕ × Order F)) (os : List (Order F)) (o : Order F)
      → AreDistinct os
      → IsOneOf o os
      → o.payment_sequence ≡ some (suc k)
      → order_at (suc k) (parse_dictionary d os) ≡ some o
  unfolding parse_dictionary
  order_at_complete k d [] o distinct never e = elim never [ ]
  order_at_complete k d (p ∷ os) o (fresh, distinct) (inr i) e =
      order_at_complete k (assign p.payment_sequence p d) os o distinct i e
  order_at_complete k d (p ∷ os) o (fresh, distinct) (inl same) e =
      order_at_untaken (suc k) (assign p.payment_sequence p d) os
        (ap (λ s. is_taken s os) (sym sequence) ∙ fresh)
      ∙ ap (λ s. order_at (suc k) (assign s p d)) sequence
      ∙ order_at_assigned (suc k) k p d (ground arith)
      ∙ ap some (sym same)
    where
      sequence : p.payment_sequence ≡ some (suc k)
      sequence = ap (λ (x : Order F). x.payment_sequence) (sym same) ∙ e
