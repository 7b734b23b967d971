-- ===== src/Clearing/Database/Laws.antt =====
-- The unique indexes of the payments, and what a refresh stores.
use offchain_service.Base.{
  ℕ, ◌≡◌, refl, Bool, false, ◌||◌, List, [], ◌∷◌, ◌++◌, any, text_eq_iff, arith,
}
use offchain_service.Clearing.Entities.{Payment}
use offchain_service.Clearing.Database.{Tables, conflicts, create_payment, numbered}

module _ {F : Type 0} where
  pub conflicts_comm : (p q : Payment F) → conflicts p q ≡ conflicts q p
  conflicts_comm p q = ground (
    arith,
    text_eq_iff p.order_id q.order_id,
    text_eq_iff q.order_id p.order_id,
    text_eq_iff p.provider_id q.provider_id,
    text_eq_iff q.provider_id p.provider_id,
  )

  -- No two payments share an order or a provider's identifier.
  abbrev pub IsUnique : List (Payment F) → Type 0
  IsUnique [] = Unit
  IsUnique (p ∷ ps) = (any (conflicts p) ps ≡ false) × IsUnique ps

  any-append :
      (q : Payment F → Bool) (ps rs : List (Payment F)) → any q (ps ++ rs) ≡ any q ps || any q rs
  any-append q [] rs = refl
  any-append q (p ∷ ps) rs = ground (arith, any-append q ps rs)

  pub IsUnique-append :
      (p : Payment F) (ps : List (Payment F))
      → IsUnique ps
      → any (conflicts p) ps ≡ false
      → IsUnique (ps ++ p ∷ [])
  IsUnique-append p [] u h = (refl, tt)
  IsUnique-append p (q ∷ ps) u h = (
    ground (arith, any-append (conflicts q) ps (p ∷ []), conflicts_comm p q),
    IsUnique-append p ps u.1 (ground arith),
  )

  -- Whatever the database answers, the payments stay unique.
  pub create_payment-IsUnique :
      (up : ℕ → Bool) (p : Payment F) (t : Tables F)
      → IsUnique t.payments
      → IsUnique (create_payment up p t).0.payments
  unfolding create_payment
  create_payment-IsUnique up p t u = ground (arith, IsUnique-append (numbered up p t) t.payments u)
