-- ===== src/Expiry/Laws.antt =====
-- What an expiry leaves.
use offchain_service.Base.{
  ℕ, ◌+◌, ◌*◌, ◌<◌, ◌≡◌, ◌⊎◌, ◌↔◌, inl, inr, refl, sym, ap, ◌∙◌, Bool, true, false, some, List, [],
  ◌∷◌, Bool-cases, Text, text_eq, text_eq_iff, text_eq_refl, Result, ok, err, All, then-ok, arith,
}
use offchain_service.Base.Dict.{lookup, lookup-insert}
use offchain_service.Base.Lists.{IsOneOf, keep, IsOneOf-keep_intro, IsOneOf-keep_elim}
use offchain_service.Order.{Order, OrderStatus, requested, expired, set_status, is_expired}
use offchain_service.Clearing.Database.{Tables, expired_by_system, create_transition}
use offchain_service.Ledger.Sync.{Encryption}
use offchain_service.Expiry.{
  is_email_type, with_letter, Letter, ends_with, own_domain, is_stale, expire_all, write_letters,
  after_expiry, expire_fetched, expire_orders,
}

module _ {F : Type 0} (up : ℕ → Bool) where
  -- A status after an expiry: as before, or expired for one of the orders.
  abbrev Expires : List (Order F) → Text → Tables F → Tables F → Type 0
  Expires os id t t' =
      (lookup id t'.statuses ≡ lookup id t.statuses)
      ⊎ ((lookup id t'.statuses ≡ some (some expired))
          × ((o : Order F) × IsOneOf o os × (o.id ≡ id)))

  first_call : Order F → Tables F → Tables F × Result (Unit {0})
  first_call o t = create_transition up (set_status expired o) expired_by_system t

  first_call-Expires :
      (o : Order F) (os : List (Order F)) (t : Tables F) (id : Text)
      → Expires (o ∷ os) id t (first_call o t).0
  unfolding create_transition first_call
  first_call-Expires o os t id = elim (Bool-cases (up t.calls)) [
    | inl u ↦ elim (Bool-cases (text_eq o.id id)) [
      | inl e ↦ inr (rw (u, lookup-insert, e), (o, inl refl, (text_eq_iff o.id id).0 e))
      | inr e ↦ inl (rw (u, lookup-insert, e))
    ]
    | inr u ↦ inl (rw u)
  ]

  first_call-expired :
      (o : Order F) (t : Tables F)
      → (first_call o t).1 ≡ ok tt
      → lookup o.id (first_call o t).0.statuses ≡ some (some expired)
  unfolding create_transition first_call
  first_call-expired o t h = elim (Bool-cases (up t.calls)) [
    | inl u ↦ rw (u, lookup-insert, text_eq_refl o.id)
    | inr u ↦ ground (arith, h)
  ]

  expire_all-Expires :
      (os : List (Order F)) (t : Tables F) (id : Text) → Expires os id t (expire_all up os t).1
  unfolding expire_all first_call
  expire_all-Expires [] t id = inl refl
  expire_all-Expires (o ∷ os) t id = elim (expire_all-Expires os (first_call o t).0 id) [
    | inl same ↦ elim (first_call-Expires o os t id) [
      | inl first ↦ inl (same ∙ first)
      | inr (e, found) ↦ inr (same ∙ e, found)
    ]
    | inr (e, (p, i, named)) ↦ inr (e, (p, inr i, named))
  ]

  expire_all-expired :
      (os : List (Order F)) (t : Tables F)
      → (expire_all up os t).2 ≡ ok tt
      → (o : Order F) → IsOneOf o os
      → lookup o.id (expire_all up os t).1.statuses ≡ some (some expired)
  unfolding expire_all first_call
  expire_all-expired [] t h o never = elim never [ ]
  expire_all-expired (p ∷ os) t h o (inr i) =
      expire_all-expired os (first_call p t).0 (then-ok (first_call p t).1 _ h).1 o i
  expire_all-expired (p ∷ os) t h o (inl same) =
      ap (λ (x : Order F). lookup x.id (expire_all up os (first_call p t).0).1.statuses) same
      ∙ elim (expire_all-Expires os (first_call p t).0 p.id) [
        | inl kept ↦ kept ∙ first_call-expired p t (then-ok (first_call p t).1 _ h).0
        | inr (e, _) ↦ e
      ]

module _ {F : Type 0} (cipher : Encryption) (key : Text) where
  -- No letter names an address of the service, and each is about one of the orders.
  abbrev IsForeign : List (Order F) → Letter → Type 0
  IsForeign os l =
      (ends_with own_domain l.address ≡ false)
      × ((o : Order F) × IsOneOf o os × (o.id ≡ l.order_id))

  IsForeign-cons :
      (o : Order F) (os : List (Order F)) (ls : List Letter)
      → All (IsForeign os) ls
      → All (IsForeign (o ∷ os)) ls
  IsForeign-cons o os [] _ = tt
  IsForeign-cons o os (l ∷ ls) ((foreign, (p, i, e)), rest) =
      ((foreign, (p, inr i, e)), IsForeign-cons o os ls rest)

  with_letter-IsForeign :
      (o : Order F) (os : List (Order F)) (decrypted : Result Text)
      (rest : List Letter × Result (Unit {0}))
      → All (IsForeign (o ∷ os)) rest.0
      → All (IsForeign (o ∷ os)) (with_letter o decrypted rest).0
  with_letter-IsForeign o os (err k) rest h = tt
  with_letter-IsForeign o os (ok address) rest h =
      elim (Bool-cases (ends_with own_domain address)) [
        | inl e ↦ rw e h
        | inr e ↦ rw e ((e, (o, inl refl, refl)), h)
      ]

  write_letters-IsForeign :
      (os : List (Order F)) → All (IsForeign os) (write_letters cipher key os).0
  unfolding write_letters
  write_letters-IsForeign [] = tt
  write_letters-IsForeign (o ∷ os) =
      let rest = IsForeign-cons o os (write_letters cipher key os).0 (write_letters-IsForeign os) in
      elim (Bool-cases (is_email_type o.identifier_type)) [
        | inl e ↦ rw e (
            with_letter-IsForeign o os (cipher.decrypt o.user_identifier o.id key)
              (write_letters cipher key os) rest)
        | inr e ↦ rw e rest
      ]

module _ {F : Type 0} (up : ℕ → Bool) (now : ℕ) (cipher : Encryption) (key : Text) where
  -- The order is one of the fetched ones, expired and older than a day.
  abbrev pub IsStale : List (Order F) → Order F → Type 0
  IsStale fetched o =
      IsOneOf o fetched × (is_expired now o ≡ true) × (o.created_at + 24 * 60 * 60 * 1000 < now)

  is_stale_iff :
      (o : Order F)
      → (is_stale now o ≡ true)
        ↔ ((is_expired now o ≡ true) × (o.created_at + 24 * 60 * 60 * 1000 < now))
  unfolding is_stale
  is_stale_iff o = (λ h. ground arith, λ h. ground arith)

  -- The changes of the statuses, what holds where the expiry ended well, and the letters.
  abbrev pub Leaves :
      List (Order F) → Tables F → Tables F × List Letter × Result (Unit {0}) → Type 0
  Leaves fetched t x =
      ((id : Text)
        → (lookup id x.0.statuses ≡ lookup id t.statuses)
          ⊎ ((lookup id x.0.statuses ≡ some (some expired))
              × ((o : Order F) × IsStale fetched o × (o.id ≡ id))))
      × (x.2 ≡ ok tt
          → (o : Order F) → IsStale fetched o
          → lookup o.id x.0.statuses ≡ some (some expired))
      × All
          (λ (l : Letter).
            (ends_with own_domain l.address ≡ false)
            × ((o : Order F) × IsStale fetched o × (o.id ≡ l.order_id)))
          x.1

  IsOneOf-expire_all :
      (os : List (Order F)) (t : Tables F) (p : Order F)
      → IsOneOf p (expire_all up os t).0
      → (o : Order F) × IsOneOf o os × (o.id ≡ p.id)
  unfolding expire_all
  IsOneOf-expire_all [] t p never = elim never [ ]
  IsOneOf-expire_all (o ∷ os) t p (inl same) = (o, inl refl, ap (λ (x : Order F). x.id) (sym same))
  IsOneOf-expire_all (o ∷ os) t p (inr i) =
      let (q, j, e) = IsOneOf-expire_all os _ p i in (q, inr j, e)

  kept-IsStale :
      (fetched : List (Order F)) (o : Order F)
      → IsOneOf o (keep (is_stale now) fetched)
      → IsStale fetched o
  kept-IsStale fetched o i =
      let (j, stale) = IsOneOf-keep_elim (is_stale now) o fetched i in
      let (old, past) = (is_stale_iff o).0 stale in (j, old, past)

  after_expiry-Leaves :
      (fetched os : List (Order F)) (t t' : Tables F) (expiry : Result (Unit {0}))
      → ((id : Text)
          → (lookup id t'.statuses ≡ lookup id t.statuses)
            ⊎ ((lookup id t'.statuses ≡ some (some expired))
                × ((o : Order F) × IsStale fetched o × (o.id ≡ id))))
      → (expiry ≡ ok tt
          → (o : Order F) → IsStale fetched o
          → lookup o.id t'.statuses ≡ some (some expired))
      → ((p : Order F) → IsOneOf p os → (o : Order F) × IsStale fetched o × (o.id ≡ p.id))
      → Leaves fetched t (after_expiry cipher key (os, t', expiry))
  after_expiry-Leaves fetched os t t' (err k) changes done from =
      (changes, λ h. ground (arith, h), tt)
  after_expiry-Leaves fetched os t t' (ok _) changes done from = (
    changes,
    λ _. done refl,
    letters (write_letters cipher key os).0 (write_letters-IsForeign cipher key os),
  )
    where
      letters :
          (ls : List Letter)
          → All (IsForeign cipher key os) ls
          → All
              (λ (l : Letter).
                (ends_with own_domain l.address ≡ false)
                × ((o : Order F) × IsStale fetched o × (o.id ≡ l.order_id)))
              ls
      letters [] _ = tt
      letters (l ∷ ls) ((foreign, (p, i, e)), rest) =
          let (o, stale, same) = from p i in ((foreign, (o, stale, same ∙ e)), letters ls rest)

  fetched-Leaves :
      (fetched : List (Order F)) (t : Tables F)
      → Leaves fetched t (expire_fetched up now cipher key (ok fetched) t)
  fetched-Leaves [] t = (λ id. inl refl, λ _ o s. elim s.0 [ ], tt)
  fetched-Leaves (o ∷ os) t =
      let stale = keep (is_stale now) (o ∷ os) in
      after_expiry-Leaves (o ∷ os) (expire_all up stale t).0 t (expire_all up stale t).1
        (expire_all up stale t).2
        (λ id. elim (expire_all-Expires up stale t id) [
          | inl same ↦ inl same
          | inr (e, (p, i, named)) ↦ inr (e, (p, kept-IsStale (o ∷ os) p i, named))
        ])
        (λ h p s.
          expire_all-expired up stale t h p
            (IsOneOf-keep_intro (is_stale now) p (o ∷ os) s.0 ((is_stale_iff p).1 (s.1, s.2))))
        (λ p i. let (q, j, e) = IsOneOf-expire_all stale t p i in (q, kept-IsStale (o ∷ os) q j, e))

  -- However an expiry of fetched orders ends, a status is as it was, or is expired for one of them
  -- that is expired and older than a day; where it ends well, all of these have that status; and
  -- each letter is about one of these, and names an address that is not of the service's domain.
  pub expire_orders-Leaves :
      (fetch : List OrderStatus → ℕ → Result (List (Order F))) (fetched : List (Order F))
      (t : Tables F)
      → fetch (requested ∷ []) 5 ≡ ok fetched
      → Leaves fetched t (expire_orders up now cipher key fetch t)
  unfolding expire_orders
  expire_orders-Leaves fetch fetched t h = rw h (fetched-Leaves fetched t)
