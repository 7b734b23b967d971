-- ===== src/Clearing/Schedule/Recorded.antt =====
-- The confirmation records under a schedule.
use offchain_service.Base.{
  ℕ, zero, suc, inl, inr, true, false, Option, none, some, List, [], ◌∷◌, ◌++◌, All, map,
  Bool-cases, if◌then◌else◌, Text, text_eq,
}
use offchain_service.Base.Dict.{Dict, lookup, insert}
use offchain_service.Base.Numbers.{Numbers}
use offchain_service.Order.{Order}
use offchain_service.Clearing.Entities.{Payment, ConfirmationRecord}
use offchain_service.Clearing.Process.{
  ProcessPorts, Phase, start, late, quoting, refreshing, paying, paid, confirming, finished,
  advance,
}
use offchain_service.Clearing.Schedule.{
  Task, Shared, begin, turn, turn_at, run_schedule, resume, move, is_cached, find_order,
}
use offchain_service.Clearing.Schedule.Held.{
  held_by, held_in, held, IsWaiting, IsIn, IsIn-append, PairwiseApart, Change, ChangeAt-held,
}
use offchain_service.Clearing.Schedule.Once.{advance-Change, turn_at-ChangeAt, waiting_held}

module _ {F : Type 0} where
  -- The payment of each record is in the table.
  abbrev pub Recorded : List (Payment F) → Dict (ConfirmationRecord F) → Type 0
  Recorded ps = All (λ e. IsIn ps (some e.1.payment))

  Recorded-append :
      (ps rs : List (Payment F)) (d : Dict (ConfirmationRecord F))
      → Recorded ps d
      → Recorded (ps ++ rs) d
  Recorded-append ps rs [] h = tt
  Recorded-append ps rs ((id, r) ∷ d) (i, h) =
      (IsIn-append ps rs (some r.payment) i, Recorded-append ps rs d h)

  Recorded-insert :
      (ps : List (Payment F)) (id : Text) (r : ConfirmationRecord F)
      (d : Dict (ConfirmationRecord F))
      → IsIn ps (some r.payment)
      → Recorded ps d
      → Recorded ps (insert id r d)
  Recorded-insert ps id r [] i h = (i, tt)
  Recorded-insert ps id r ((j, q) ∷ d) i (iq, h) = elim (Bool-cases (text_eq j id)) [
    | inl e ↦ rw e (i, h)
    | inr e ↦ rw e (iq, Recorded-insert ps id r d i h)
  ]

  Change-Recorded :
      (ps ps' : List (Payment F)) (h h' : Option (Payment F)) (d : Dict (ConfirmationRecord F))
      → Change ps ps' h h'
      → Recorded ps d
      → Recorded ps' d
  Change-Recorded ps ps' h h' d (inl (e, k)) rec = rw e rec
  Change-Recorded ps ps' h h' d (inr (inl (e, k))) rec = rw e rec
  Change-Recorded ps ps' h h' d (inr (inr (p, b, e, k))) rec =
      rw e (Recorded-append ps (p ∷ []) d rec)

  abbrev IsRecorded : Shared F → Type 0
  IsRecorded s = Recorded s.tables.payments s.processed

module _ (n : Numbers) (ports : ProcessPorts) (clearing_id : Text) where
  open n use {F}

  advance-IsRecorded :
      (k : Task F) (p : Phase F) (o : Order F) (s : Shared F)
      → IsRecorded s
      → Recorded (advance n ports clearing_id k.transaction p o s.tables).2.payments s.processed
  advance-IsRecorded k p o s rec =
      let (p', o', t') = advance n ports clearing_id k.transaction p o s.tables in
      Change-Recorded s.tables.payments t'.payments (held_by p) (held_by p') s.processed
        (advance-Change n ports clearing_id k p o s.tables) rec

  move-IsRecorded :
      (k : Task F) (p : Phase F) (o : Option (Order F)) (s : Shared F)
      → IsIn s.tables.payments (held_by p)
      → IsRecorded s
      → IsRecorded (move n ports clearing_id k p o s).1
  move-IsRecorded k p none s i rec = rec
  move-IsRecorded k (finished none) (some o) s i rec = rec
  move-IsRecorded k (finished (some r)) (some o) s i rec =
      Recorded-insert s.tables.payments k.transaction.provider_payment_id
        (record { payment = r; order = o }) s.processed i rec
  move-IsRecorded k start (some o) s i rec = advance-IsRecorded k start o s rec
  move-IsRecorded k (late x) (some o) s i rec = advance-IsRecorded k (late x) o s rec
  move-IsRecorded k (quoting x) (some o) s i rec = advance-IsRecorded k (quoting x) o s rec
  move-IsRecorded k refreshing (some o) s i rec = advance-IsRecorded k refreshing o s rec
  move-IsRecorded k paying (some o) s i rec = advance-IsRecorded k paying o s rec
  move-IsRecorded k (paid r) (some o) s i rec = advance-IsRecorded k (paid r) o s rec
  move-IsRecorded k (confirming r) (some o) s i rec = advance-IsRecorded k (confirming r) o s rec

  find_order-IsRecorded :
      (k : Task F) (o : Option (Order F)) (s : Shared F)
      → IsRecorded s
      → IsRecorded (find_order k o s).1
  find_order-IsRecorded k none s rec = rec
  find_order-IsRecorded k (some o) s rec = rec

  begin-IsRecorded : (k : Task F) (s : Shared F) → IsRecorded s → IsRecorded (begin k s).1
  unfolding begin
  begin-IsRecorded k s rec =
      elim (Bool-cases (is_cached (lookup k.transaction.provider_payment_id s.cache))) [
        | inl e ↦ rw e rec
        | inr e ↦ rw e (find_order-IsRecorded k (lookup k.transaction.end_to_end_id s.orders) s rec)
      ]

  resume-IsRecorded :
      (k : Task F) (q : Option (Phase F)) (s : Shared F)
      → IsIn s.tables.payments (held_in q)
      → IsRecorded s
      → IsRecorded (resume n ports clearing_id k q s).1
  resume-IsRecorded k none s i rec = begin-IsRecorded k s rec
  resume-IsRecorded k (some p) s i rec =
      move-IsRecorded k p (lookup k.transaction.end_to_end_id s.orders) s i rec

  turn-IsRecorded :
      (k : Task F) (s : Shared F)
      → IsIn s.tables.payments (held k)
      → IsRecorded s
      → IsRecorded (turn n ports clearing_id k s).1
  unfolding turn
  turn-IsRecorded k s i rec =
      elim k.returned
        as (λ b. IsRecorded (if b then (k, s) else resume n ports clearing_id k k.phase s).1) [
          | true ↦ rec
          | false ↦ resume-IsRecorded k k.phase s i rec
        ]

  turn_at-IsRecorded :
      (i : ℕ) (ks : List (Task F)) (s : Shared F)
      → All (IsIn s.tables.payments) (map held ks)
      → IsRecorded s
      → IsRecorded (turn_at n ports clearing_id i ks s).1
  unfolding turn_at
  turn_at-IsRecorded i [] s h rec = rec
  turn_at-IsRecorded zero (k ∷ ks) s h rec = turn-IsRecorded k s h.0 rec
  turn_at-IsRecorded (suc i) (k ∷ ks) s h rec = turn_at-IsRecorded i ks s h.1 rec

  run-IsRecorded :
      (is : List ℕ) (ks : List (Task F)) (s : Shared F)
      → All (IsIn s.tables.payments) (map held ks)
      → PairwiseApart (map held ks)
      → IsRecorded s
      → IsRecorded (run_schedule n ports clearing_id is ks s).1
  unfolding run_schedule
  run-IsRecorded [] ks s stored apart rec = rec
  run-IsRecorded (i ∷ is) ks s stored apart rec =
      let (ks', s') = turn_at n ports clearing_id i ks s in
      let (stored', apart') =
        ChangeAt-held s.tables.payments s'.tables.payments (map held ks) (map held ks')
          (turn_at-ChangeAt n ports clearing_id i ks s) stored apart in
      run-IsRecorded is ks' s' stored' apart' (turn_at-IsRecorded i ks s stored rec)

  -- From waiting transactions, every schedule keeps that the payment of each confirmation record is
  -- in the database.
  pub run_schedule-Recorded :
      (is : List ℕ) (ks : List (Task F)) (s : Shared F)
      → All IsWaiting ks
      → Recorded s.tables.payments s.processed
      → let (ks', s') = run_schedule n ports clearing_id is ks s in
        Recorded s'.tables.payments s'.processed
  run_schedule-Recorded is ks s w rec =
      let (stored, apart) = waiting_held n ports clearing_id s.tables.payments ks w in
      run-IsRecorded is ks s stored apart rec
