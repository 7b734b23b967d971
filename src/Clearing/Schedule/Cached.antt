-- ===== src/Clearing/Schedule/Cached.antt =====
-- The cache under a schedule.
use offchain_service.Base.{
  ℕ, zero, suc, ◌≡◌, inl, inr, refl, ap, ◌∙◌, subst, Bool, true, false, ◌||◌, not, Option, none,
  some, List, [], ◌∷◌, ◌++◌, All, map, length, Bool-cases, if◌then◌else◌, Text, text_eq_refl, arith,
}
use offchain_service.Base.Dict.{Dict, lookup, insert, lookup-insert}
use offchain_service.Base.Numbers.{Numbers}
use offchain_service.Order.{Order}
use offchain_service.Clearing.Entities.{Transaction}
use offchain_service.Clearing.Process.{
  ProcessPorts, Phase, start, late, quoting, refreshing, paying, paid, confirming, finished,
}
use offchain_service.Clearing.Schedule.{
  Task, Shared, begin, turn, turn_at, run_schedule, resume, move, is_cached, find_order, drain,
}
use offchain_service.Clearing.Schedule.Held.{IsWaiting}
use offchain_service.Clearing.Schedule.Returned.{run_schedule-returned}

-- The transaction is in the cache.
abbrev pub is_seen : Dict Bool → Transaction → Bool
is_seen cache x = is_cached (lookup x.provider_payment_id cache)

is_cached-insert :
    (id key : Text) (d : Dict Bool)
    → is_cached (lookup id d) ≡ true
    → is_cached (lookup id (insert key true d)) ≡ true
is_cached-insert id key d h = rw lookup-insert (ground arith)

is_cached-inserted : (id : Text) (d : Dict Bool) → is_cached (lookup id (insert id true d)) ≡ true
is_cached-inserted id d = rw (lookup-insert, text_eq_refl id) refl

module _ {F : Type 0} where
  -- A task that has returned has left its transaction in the cache.
  abbrev settled : Dict Bool → Task F → Bool
  settled cache k = not k.returned || is_seen cache k.transaction

  abbrev Remembers : Shared F → Shared F → Type 0
  Remembers s s' =
      (id : Text) → is_cached (lookup id s.cache) ≡ true → is_cached (lookup id s'.cache) ≡ true

  -- What a turn does to the cache.
  record Seen (s s' : Shared F) (k k' : Task F) : Type 0 where
    same : k'.transaction ≡ k.transaction
    is_settled : settled s'.cache k' ≡ true
    remembers : Remembers s s'

  transaction_of : Task F → Transaction
  transaction_of k = k.transaction

  find_order-Seen :
      (k : Task F) (o : Option (Order F)) (s : Shared F)
      → settled s.cache k ≡ true
      → let (k', s') = find_order k o s in Seen s s' k k'
  find_order-Seen k none s h = record {
    same = refl;
    is_settled = is_cached-inserted k.transaction.provider_payment_id s.cache;
    remembers = λ id q. is_cached-insert id k.transaction.provider_payment_id s.cache q;
  }
  find_order-Seen k (some o) s h = record { same = refl; is_settled = h; remembers = λ id q. q }

  begin-Seen :
      (k : Task F) (s : Shared F)
      → settled s.cache k ≡ true
      → let (k', s') = begin k s in Seen s s' k k'
  unfolding begin
  begin-Seen k s h =
      elim (Bool-cases (is_cached (lookup k.transaction.provider_payment_id s.cache))) [
        | inl e ↦ rw e (record { same = refl; is_settled = e; remembers = λ id q. q })
        | inr e ↦ rw e (find_order-Seen k (lookup k.transaction.end_to_end_id s.orders) s h)
      ]

  Remembers-settled :
      (s s' : Shared F) (k : Task F)
      → Remembers s s'
      → settled s.cache k ≡ true
      → settled s'.cache k ≡ true
  Remembers-settled s s' k g h = elim (Bool-cases k.returned) [
    | inl e ↦
        let seen : is_seen s.cache k.transaction ≡ true = ground arith in
        rw e (g k.transaction.provider_payment_id seen)
    | inr e ↦ rw e refl
  ]

  Remembers-All :
      (s s' : Shared F) (ks : List (Task F))
      → Remembers s s'
      → All (λ k. settled s.cache k ≡ true) ks
      → All (λ k. settled s'.cache k ≡ true) ks
  Remembers-All s s' [] g h = tt
  Remembers-All s s' (k ∷ ks) g (h, hs) = (Remembers-settled s s' k g h, Remembers-All s s' ks g hs)

  waiting-settled :
      (s : Shared F) (ks : List (Task F))
      → All (λ k. k.returned ≡ false) ks
      → All (λ k. settled s.cache k ≡ true) ks
  waiting-settled s [] h = tt
  waiting-settled s (k ∷ ks) (e, h) = (rw e refl, waiting-settled s ks h)

  settled-is_seen :
      (cache : Dict Bool) (ks : List (Task F))
      → All (λ k. settled cache k ≡ true) ks
      → All (λ k. k.returned ≡ true) ks
      → All (λ x. is_seen cache x ≡ true) (map transaction_of ks)
  unfolding transaction_of
  settled-is_seen cache [] h r = tt
  settled-is_seen cache (k ∷ ks) (h, hs) (e, r) = (ground arith, settled-is_seen cache ks hs r)

module _ (n : Numbers) (ports : ProcessPorts) (clearing_id : Text) where
  open n use {F}

  move-Seen :
      (k : Task F) (p : Phase F) (o : Option (Order F)) (s : Shared F)
      → settled s.cache k ≡ true
      → let (k', s') = move n ports clearing_id k p o s in Seen s s' k k'
  move-Seen k p none s h = record { same = refl; is_settled = h; remembers = λ id q. q }
  move-Seen k (finished none) (some o) s h = record {
    same = refl;
    is_settled = is_cached-inserted k.transaction.provider_payment_id s.cache;
    remembers = λ id q. is_cached-insert id k.transaction.provider_payment_id s.cache q;
  }
  move-Seen k (finished (some r)) (some o) s h = record {
    same = refl;
    is_settled = is_cached-inserted k.transaction.provider_payment_id s.cache;
    remembers = λ id q. is_cached-insert id k.transaction.provider_payment_id s.cache q;
  }
  move-Seen k start (some o) s h = record { same = refl; is_settled = h; remembers = λ id q. q }
  move-Seen k (late x) (some o) s h = record { same = refl; is_settled = h; remembers = λ id q. q }
  move-Seen k (quoting x) (some o) s h = record {
    same = refl;
    is_settled = h;
    remembers = λ id q. q;
  }
  move-Seen k refreshing (some o) s h = record {
    same = refl;
    is_settled = h;
    remembers = λ id q. q;
  }
  move-Seen k paying (some o) s h = record { same = refl; is_settled = h; remembers = λ id q. q }
  move-Seen k (paid r) (some o) s h = record { same = refl; is_settled = h; remembers = λ id q. q }
  move-Seen k (confirming r) (some o) s h = record {
    same = refl;
    is_settled = h;
    remembers = λ id q. q;
  }

  resume-Seen :
      (k : Task F) (q : Option (Phase F)) (s : Shared F)
      → settled s.cache k ≡ true
      → let (k', s') = resume n ports clearing_id k q s in Seen s s' k k'
  resume-Seen k none s h = begin-Seen k s h
  resume-Seen k (some p) s h = move-Seen k p (lookup k.transaction.end_to_end_id s.orders) s h

  turn-Seen :
      (k : Task F) (s : Shared F)
      → settled s.cache k ≡ true
      → let (k', s') = turn n ports clearing_id k s in Seen s s' k k'
  unfolding turn
  turn-Seen k s h =
      elim k.returned
        as (λ b.
          let (k', s') = if b then (k, s) else resume n ports clearing_id k k.phase s in
          Seen s s' k k') [
            | true ↦ record { same = refl; is_settled = h; remembers = λ id q. q }
            | false ↦ resume-Seen k k.phase s h
          ]

  record AllSeen (s s' : Shared F) (ks ks' : List (Task F)) : Type 0 where
    same : map transaction_of ks' ≡ map transaction_of ks
    all_settled : All (λ k. settled s'.cache k ≡ true) ks'
    remembers : Remembers s s'

  turn_at-AllSeen :
      (i : ℕ) (ks : List (Task F)) (s : Shared F)
      → All (λ k. settled s.cache k ≡ true) ks
      → let (ks', s') = turn_at n ports clearing_id i ks s in AllSeen s s' ks ks'
  unfolding turn_at transaction_of
  turn_at-AllSeen i [] s h = record { same = refl; all_settled = tt; remembers = λ id q. q }
  turn_at-AllSeen zero (k ∷ ks) s (h, hs) =
      let (k', s') = turn n ports clearing_id k s in
      let a = turn-Seen k s h in
      record {
        same = ap (λ x. x ∷ map transaction_of ks) a.same;
        all_settled = (a.is_settled, Remembers-All s s' ks a.remembers hs);
        remembers = a.remembers;
      }
  turn_at-AllSeen (suc i) (k ∷ ks) s (h, hs) =
      let (ks', s') = turn_at n ports clearing_id i ks s in
      let a = turn_at-AllSeen i ks s hs in
      record {
        same = ap (λ xs. k.transaction ∷ xs) a.same;
        all_settled = (Remembers-settled s s' k a.remembers h, a.all_settled);
        remembers = a.remembers;
      }

  run-AllSeen :
      (is : List ℕ) (ks : List (Task F)) (s : Shared F)
      → All (λ k. settled s.cache k ≡ true) ks
      → let (ks', s') = run_schedule n ports clearing_id is ks s in AllSeen s s' ks ks'
  unfolding run_schedule
  run-AllSeen [] ks s h = record { same = refl; all_settled = h; remembers = λ id q. q }
  run-AllSeen (i ∷ is) ks s h =
      let (ks', s') = turn_at n ports clearing_id i ks s in
      let a = turn_at-AllSeen i ks s h in
      let b = run-AllSeen is ks' s' a.all_settled in
      record {
        same = b.same ∙ a.same;
        all_settled = b.all_settled;
        remembers = λ id q. b.remembers id (a.remembers id q);
      }

  -- Under any schedule that is followed by the drain for as many tasks, all waiting transactions
  -- end up in the cache.
  pub run_schedule-seen :
      (is : List ℕ) (ks : List (Task F)) (s : Shared F)
      → All IsWaiting ks
      → All (λ k. k.returned ≡ false) ks
      → All
          (λ x.
            is_seen (run_schedule n ports clearing_id (is ++ drain (length ks)) ks s).1.cache x
            ≡ true)
          (map (λ k. k.transaction) ks)
  unfolding transaction_of
  run_schedule-seen is ks s w f =
      let (ks', s') = run_schedule n ports clearing_id (is ++ drain (length ks)) ks s in
      let a = run-AllSeen (is ++ drain (length ks)) ks s (waiting-settled s ks f) in
      subst (All (λ x. is_seen s'.cache x ≡ true)) a.same (
        settled-is_seen s'.cache ks' a.all_settled
          (run_schedule-returned n ports clearing_id is ks s w))
