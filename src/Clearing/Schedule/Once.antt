-- ===== src/Clearing/Schedule/Once.antt =====
-- The payments of the tasks under a schedule.
use offchain_service.Base.{
  ℕ, zero, suc, ◌≡◌, inl, inr, refl, true, false, Option, none, some, List, [], ◌∷◌, any, All, map,
  Bool-cases, if◌then◌else◌, Text, arith,
}
use offchain_service.Base.Dict.{lookup}
use offchain_service.Base.Numbers.{Numbers}
use offchain_service.Order.{Order}
use offchain_service.Clearing.Entities.{Payment}
use offchain_service.Clearing.Database.{
  Tables, numbered, conflicts, create_payment, create_transition, refresh,
}
use offchain_service.Clearing.Database.Laws.{IsUnique}
use offchain_service.Clearing.Process.{
  ProcessPorts, new_payment, Phase, start, late, quoting, refreshing, paying, paid, confirming,
  finished, advance,
}
use offchain_service.Clearing.Schedule.{
  Task, Shared, begin, turn, turn_at, run_schedule, resume, move, is_cached, find_order,
}
use offchain_service.Clearing.Schedule.Held.{
  held_by, held_in, held, IsWaiting, IsIn, PairwiseApart, Change, ChangeAt, All-Apart-none,
  ChangeAt-IsUnique, ChangeAt-held,
}

module _ (n : Numbers) (ports : ProcessPorts) (clearing_id : Text) where
  open n use {F}

  pub advance-Change :
      (k : Task F) (p : Phase F) (o : Order F) (t : Tables F)
      → let (p', o', t') = advance n ports clearing_id k.transaction p o t in
        Change t.payments t'.payments (held_by p) (held_by p')
  unfolding advance create_payment create_transition refresh
  advance-Change k start o t = ground arith
  advance-Change k (late e) o t = ground arith
  advance-Change k (quoting e) o t = ground arith
  advance-Change k refreshing o t = ground arith
  advance-Change k paying o t = elim (Bool-cases (ports.up t.calls)) [
    | inl u ↦
        elim (Bool-cases
          (any (conflicts (new_payment n ports clearing_id k.transaction o)) t.payments)) [
            | inl c ↦ rw (u, c) (inl (refl, refl))
            | inr c ↦
                rw (u, c)
                  (inr (
                    inr (
                      numbered ports.up (new_payment n ports clearing_id k.transaction o) t,
                      c,
                      refl,
                      refl,
                    )))
          ]
    | inr u ↦ rw u (inl (refl, refl))
  ]
  advance-Change k (paid p) o t = inl (refl, refl)
  advance-Change k (confirming p) o t = ground arith
  advance-Change k (finished r) o t = inl (refl, refl)

  -- A turn in which the phase is the one that the task has.
  move-Change :
      (k : Task F) (p : Phase F) (o : Option (Order F)) (s : Shared F)
      → k.phase ≡ some p
      → let (k', s') = move n ports clearing_id k p o s in
        Change s.tables.payments s'.tables.payments (held_by p) (held k')
  move-Change k p none s e = inl (refl, rw e refl)
  move-Change k (finished none) (some o) s e = inl (refl, rw e refl)
  move-Change k (finished (some r)) (some o) s e = inl (refl, rw e refl)
  move-Change k start (some o) s e = advance-Change k start o s.tables
  move-Change k (late x) (some o) s e = advance-Change k (late x) o s.tables
  move-Change k (quoting x) (some o) s e = advance-Change k (quoting x) o s.tables
  move-Change k refreshing (some o) s e = advance-Change k refreshing o s.tables
  move-Change k paying (some o) s e = advance-Change k paying o s.tables
  move-Change k (paid r) (some o) s e = advance-Change k (paid r) o s.tables
  move-Change k (confirming r) (some o) s e = advance-Change k (confirming r) o s.tables

  find_order-Change :
      (k : Task F) (o : Option (Order F)) (s : Shared F)
      → k.phase ≡ none
      → let (k', s') = find_order k o s in
        Change s.tables.payments s'.tables.payments none (held k')
  find_order-Change k none s e = inl (refl, rw e refl)
  find_order-Change k (some o) s e = inl (refl, refl)

  begin-Change :
      (k : Task F) (s : Shared F)
      → k.phase ≡ none
      → let (k', s') = begin k s in Change s.tables.payments s'.tables.payments none (held k')
  unfolding begin
  begin-Change k s e =
      elim (Bool-cases (is_cached (lookup k.transaction.provider_payment_id s.cache))) [
        | inl h ↦ rw h (inl (refl, rw e refl))
        | inr h ↦ rw h (find_order-Change k (lookup k.transaction.end_to_end_id s.orders) s e)
      ]

  resume-Change :
      (k : Task F) (q : Option (Phase F)) (s : Shared F)
      → k.phase ≡ q
      → let (k', s') = resume n ports clearing_id k q s in
        Change s.tables.payments s'.tables.payments (held_in q) (held k')
  resume-Change k none s e = begin-Change k s e
  resume-Change k (some p) s e = move-Change k p (lookup k.transaction.end_to_end_id s.orders) s e

  turn-Change :
      (k : Task F) (s : Shared F)
      → let (k', s') = turn n ports clearing_id k s in
        Change s.tables.payments s'.tables.payments (held k) (held k')
  unfolding turn
  turn-Change k s =
      elim k.returned
        as (λ b.
          let (k', s') = if b then (k, s) else resume n ports clearing_id k k.phase s in
          Change s.tables.payments s'.tables.payments (held k) (held k')) [
            | true ↦ inl (refl, refl)
            | false ↦ resume-Change k k.phase s refl
          ]

  pub turn_at-ChangeAt :
      (i : ℕ) (ks : List (Task F)) (s : Shared F)
      → let (ks', s') = turn_at n ports clearing_id i ks s in
        ChangeAt s.tables.payments s'.tables.payments (map held ks) (map held ks')
  unfolding turn_at
  turn_at-ChangeAt i [] s = (refl, refl)
  turn_at-ChangeAt zero (k ∷ ks) s = inl (turn-Change k s, refl)
  turn_at-ChangeAt (suc i) (k ∷ ks) s = inr (refl, turn_at-ChangeAt i ks s)

  -- The invariant of the turns.
  abbrev Holds : List (Task F) × Shared F → Type 0
  Holds (ks, s) =
      All (IsIn s.tables.payments) (map held ks)
      × PairwiseApart (map held ks)
      × IsUnique s.tables.payments

  run_schedule-Holds :
      (is : List ℕ) (ks : List (Task F)) (s : Shared F)
      → Holds (ks, s)
      → Holds (run_schedule n ports clearing_id is ks s)
  unfolding run_schedule
  run_schedule-Holds [] ks s h = h
  run_schedule-Holds (i ∷ is) ks s (stored, apart, unique) =
      let (ks', s') = turn_at n ports clearing_id i ks s in
      let c = turn_at-ChangeAt i ks s in
      let ps = s.tables.payments in
      let ps' = s'.tables.payments in
      let (stored', apart') = ChangeAt-held ps ps' (map held ks) (map held ks') c stored apart in
      run_schedule-Holds is ks' s'
        (stored', apart', ChangeAt-IsUnique ps ps' (map held ks) (map held ks') c unique)

  pub waiting_held :
      (ps : List (Payment F)) (ks : List (Task F))
      → All IsWaiting ks
      → All (IsIn ps) (map held ks) × PairwiseApart (map held ks)
  waiting_held ps [] w = (tt, tt)
  waiting_held ps (k ∷ ks) (e, w) =
      let (i, a) = waiting_held ps ks w in ((rw e tt, i), (rw e (All-Apart-none (map held ks)), a))

  -- From waiting transactions and unique payments, under every schedule, whatever the database
  -- and the quotes answer: the payments stay unique, each payment that a call holds is in the
  -- database, and no two calls hold payments of one order or of one provider's identifier.
  pub run_schedule-paid_once :
      (is : List ℕ) (ks : List (Task F)) (s : Shared F)
      → All IsWaiting ks
      → IsUnique s.tables.payments
      → let (ks', s') = run_schedule n ports clearing_id is ks s in
        All (IsIn s'.tables.payments) (map held ks')
        × PairwiseApart (map held ks')
        × IsUnique s'.tables.payments
  run_schedule-paid_once is ks s w u =
      let (i, a) = waiting_held s.tables.payments ks w in run_schedule-Holds is ks s (i, a, u)
