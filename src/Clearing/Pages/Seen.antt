-- ===== src/Clearing/Pages/Seen.antt =====
-- A page's transactions and the cache.
use offchain_service.Base.{
  ℕ, zero, suc, ◌≡◌, refl, sym, ap, subst, Bool, true, false, Option, none, some, List, arith, [],
  ◌∷◌, ◌++◌, All, map, length, if◌then◌else◌, Text,
}
use offchain_service.Base.Dict.{Dict}
use offchain_service.Base.Numbers.{Numbers}
use offchain_service.Order.{Order}
use offchain_service.Clearing.Entities.{Transaction}
use offchain_service.Clearing.Process.{ProcessPorts, Phase}
use offchain_service.Clearing.Schedule.{
  Task, Shared, begin, turn, turn_at, run_schedule, resume, drain,
}
use offchain_service.Clearing.Schedule.Held.{IsWaiting}
use offchain_service.Clearing.Schedule.Cached.{is_seen, run_schedule-seen}
use offchain_service.Clearing.Pages.{CreatePorts, Run, waiting, all_turns, process_page}

module _ (n : Numbers) (ports : ProcessPorts) (clearing_id : Text) where
  open n use {F}

  abbrev IsIdle : Dict Bool → Task F → Type 0
  IsIdle cache k = (k.phase ≡ none) × (is_seen cache k.transaction ≡ true)

  begin-IsIdle :
      (k : Task F) (s : Shared F)
      → IsIdle s.cache k
      → let (k', s') = begin k s in (s' ≡ s) × IsIdle s.cache k'
  unfolding begin
  begin-IsIdle k s (e, h) = rw h (refl, (e, h))

  resume-IsIdle :
      (k : Task F) (q : Option (Phase F)) (s : Shared F)
      → k.phase ≡ q
      → IsIdle s.cache k
      → let (k', s') = resume n ports clearing_id k q s in (s' ≡ s) × IsIdle s.cache k'
  resume-IsIdle k none s f h = begin-IsIdle k s h
  resume-IsIdle k (some p) s f (e, h) = ground arith

  turn-IsIdle :
      (k : Task F) (s : Shared F)
      → IsIdle s.cache k
      → let (k', s') = turn n ports clearing_id k s in (s' ≡ s) × IsIdle s.cache k'
  unfolding turn
  turn-IsIdle k s (e, h) =
      elim k.returned
        as (λ b.
          let (k', s') = if b then (k, s) else resume n ports clearing_id k k.phase s in
          (s' ≡ s) × IsIdle s.cache k') [
            | true ↦ (refl, (e, h))
            | false ↦ resume-IsIdle k k.phase s refl (e, h)
          ]

  turn_at-IsIdle :
      (i : ℕ) (ks : List (Task F)) (s : Shared F)
      → All (IsIdle s.cache) ks
      → let (ks', s') = turn_at n ports clearing_id i ks s in (s' ≡ s) × All (IsIdle s.cache) ks'
  unfolding turn_at
  turn_at-IsIdle i [] s h = (refl, tt)
  turn_at-IsIdle zero (k ∷ ks) s (h, hs) = let (e, h') = turn-IsIdle k s h in (e, (h', hs))
  turn_at-IsIdle (suc i) (k ∷ ks) s (h, hs) =
      let (e, hs') = turn_at-IsIdle i ks s hs in (e, (h, hs'))

  run_schedule_idle :
      (is : List ℕ) (ks : List (Task F)) (s : Shared F)
      → All (IsIdle s.cache) ks
      → (run_schedule n ports clearing_id is ks s).1 ≡ s
  unfolding run_schedule
  run_schedule_idle [] ks s h = refl
  run_schedule_idle (i ∷ is) ks s h =
      let (ks', s') = turn_at n ports clearing_id i ks s in
      let (e, h') = turn_at-IsIdle i ks s h in
      subst (λ q. (run_schedule n ports clearing_id is ks' q).1 ≡ s) (sym e)
        (run_schedule_idle is ks' s h')

module _ (n : Numbers) (ports : CreatePorts n.F) where
  open n use {F}

  pub waiting-IsWaiting : (xs : List Transaction) → All IsWaiting (map (waiting n ports) xs)
  waiting-IsWaiting [] = tt
  waiting-IsWaiting (x ∷ xs) = (refl, waiting-IsWaiting xs)

  waiting-returned :
      (xs : List Transaction) → All (λ k. k.returned ≡ false) (map (waiting n ports) xs)
  waiting-returned [] = tt
  waiting-returned (x ∷ xs) = (refl, waiting-returned xs)

  transaction-waiting :
      (xs : List Transaction) → map (λ k. k.transaction) (map (waiting n ports) xs) ≡ xs
  transaction-waiting [] = refl
  transaction-waiting (x ∷ xs) = ap (λ ys. x ∷ ys) (transaction-waiting xs)

  idle :
      (cache : Dict Bool) (xs : List Transaction)
      → All (λ x. is_seen cache x ≡ true) xs
      → All (IsIdle n ports.process [] cache) (map (waiting n ports) xs)
  idle cache [] h = tt
  idle cache (x ∷ xs) (h, hs) = ((refl, h), idle cache xs hs)

  -- When a page is over, each of its transactions is in the cache.
  pub process_page-seen :
      (page : ℕ) (xs : List Transaction) (r : Run F) (orders : Dict (Order F))
      → All (λ x. is_seen (process_page n ports page xs r orders).cache x ≡ true) xs
  unfolding process_page
  process_page-seen page xs r orders =
      subst (All (λ x. is_seen (all_turns n ports page xs r orders).1.cache x ≡ true))
        (transaction-waiting xs)
        (run_schedule-seen n ports.process r.clearing.id (ports.schedule page)
          (map (waiting n ports) xs)
          (record { cache = r.cache; orders = orders; processed = r.processed; tables = r.tables })
          (waiting-IsWaiting xs) (waiting-returned xs))

  -- A page whose transactions are all in the cache changes neither the cache, nor the records, nor
  -- the database.
  process_page_idle :
      (page : ℕ) (xs : List Transaction) (r : Run F) (orders : Dict (Order F))
      → All (λ x. is_seen r.cache x ≡ true) xs
      → let r' = process_page n ports page xs r orders in
        (r'.cache ≡ r.cache) × (r'.processed ≡ r.processed) × (r'.tables ≡ r.tables)
  unfolding process_page
  process_page_idle page xs r orders h =
      let e =
        run_schedule_idle n ports.process r.clearing.id
          (ports.schedule page ++ drain (length (map (waiting n ports) xs)))
          (map (waiting n ports) xs)
          (record { cache = r.cache; orders = orders; processed = r.processed; tables = r.tables })
          (idle r.cache xs h) in
      (ap (λ s. s.cache) e, ap (λ s. s.processed) e, ap (λ s. s.tables) e)

  -- Once a page is over, the same transactions on another page, in any order of the turns and
  -- whatever orders are fetched, change neither the cache, nor the records, nor the database.
  pub process_page-repeated :
      (page page' : ℕ) (xs : List Transaction) (r : Run F) (orders orders' : Dict (Order F))
      → let first = process_page n ports page xs r orders in
        let second = process_page n ports page' xs first orders' in
        (second.cache ≡ first.cache)
        × (second.processed ≡ first.processed)
        × (second.tables ≡ first.tables)
  process_page-repeated page page' xs r orders orders' =
      process_page_idle page' xs (process_page n ports page xs r orders) orders'
        (process_page-seen page xs r orders)
