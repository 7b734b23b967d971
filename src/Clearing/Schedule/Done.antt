-- ===== src/Clearing/Schedule/Done.antt =====
-- The end of the tasks under a schedule.
use offchain_service.Base.{
  ℕ, zero, suc, ◌+◌, ◌-◌, ◌≤◌, ◌<◌, ◌≡◌, ◌⊎◌, inl, inr, refl, ap, Bool, true, false, Option, none,
  some, List, [], ◌∷◌, is_some, All, length, Bool-cases, Option-cases, if◌then◌else◌, Text,
  text_eq_refl, arith,
}
use offchain_service.Base.Dict.{Dict, lookup, insert, lookup-insert}
use offchain_service.Base.Numbers.{Numbers}
use offchain_service.Order.{Order}
use offchain_service.Clearing.Process.{
  ProcessPorts, Phase, start, late, quoting, refreshing, paying, paid, confirming, finished,
  advance,
}
use offchain_service.Clearing.Process.Laws.{parts_left, parts_left-advance}
use offchain_service.Clearing.Schedule.{
  Task, Shared, begin, turn, turn_at, resume, move, is_cached, find_order,
}

module _ {F : Type 0} where
  abbrev pub turns_of : Bool → Option (Phase F) → ℕ
  turns_of true _ = 0
  turns_of false none = 9
  turns_of false (some p) = 1 + parts_left p

  -- How many turns a task needs at most.
  abbrev pub turns_left : Task F → ℕ
  turns_left k = turns_of k.returned k.phase

  -- A task that has begun has its order.
  abbrev pub HasOrder : Shared F → Task F → Type 0
  HasOrder s k = (k.phase ≡ none) ⊎ (is_some (lookup k.transaction.end_to_end_id s.orders) ≡ true)

  abbrev pub Grows : Shared F → Shared F → Type 0
  Grows s s' =
      (id : Text) → is_some (lookup id s.orders) ≡ true → is_some (lookup id s'.orders) ≡ true

  Grows-HasOrder : (s s' : Shared F) (k : Task F) → Grows s s' → HasOrder s k → HasOrder s' k
  Grows-HasOrder s s' k g (inl e) = inl e
  Grows-HasOrder s s' k g (inr h) = inr (g k.transaction.end_to_end_id h)

  Grows-All :
      (s s' : Shared F) (ks : List (Task F))
      → Grows s s'
      → All (HasOrder s) ks
      → All (HasOrder s') ks
  Grows-All s s' [] g h = tt
  Grows-All s s' (k ∷ ks) g (h, hs) = (Grows-HasOrder s s' k g h, Grows-All s s' ks g hs)

  is_some-insert :
      (id key : Text) (o : Order F) (d : Dict (Order F))
      → is_some (lookup id d) ≡ true
      → is_some (lookup id (insert key o d)) ≡ true
  is_some-insert id key o d h = rw lookup-insert (ground arith)

  -- What a turn from one state to another achieves.
  pub record Progress (before : ℕ) (s s' : Shared F) (k' : Task F) : Type 0 where
    pub fewer : turns_left k' ≤ before - 1
    pub has_order : HasOrder s' k'
    pub grows : Grows s s'

  -- How many turns the task at a place needs at most.
  abbrev pub left_at : ℕ → List (Task F) → ℕ
  left_at i [] = 0
  left_at zero (k ∷ ks) = turns_left k
  left_at (suc i) (k ∷ ks) = left_at i ks

  pub record Advances (i : ℕ) (ks : List (Task F)) (s : Shared F) (ks' : List (Task F))
      (s' : Shared F) : Type 0 where
    pub has_orders : All (HasOrder s') ks'
    pub grows : Grows s s'
    pub same_length : length ks' ≡ length ks
    pub fewer : left_at i ks' ≤ left_at i ks - 1
    pub no_more : (j : ℕ) → left_at j ks' ≤ left_at j ks

module _ (n : Numbers) (ports : ProcessPorts) (clearing_id : Text) where
  open n use {F}

  -- A part of the interactor that is not the last one.
  advance-Progress :
      (k : Task F) (p : Phase F) (o : Order F) (s : Shared F)
      → k.returned ≡ false
      → 0 < parts_left p
      → let (p', o', t') = advance n ports clearing_id k.transaction p o s.tables in
        Progress
          (1 + parts_left p)
          s
          (record s { orders = insert k.transaction.end_to_end_id o' s.orders; tables = t' })
          (record k { phase = some p' })
  advance-Progress k p o s e h = record {
    fewer =
        let l = parts_left-advance n ports clearing_id k.transaction p o s.tables in
        rw e (omega (arith, l, h));
    has_order = inr (rw (lookup-insert, text_eq_refl k.transaction.end_to_end_id) refl);
    grows = λ id q. is_some-insert id k.transaction.end_to_end_id _ s.orders q;
  }

  move-Progress :
      (k : Task F) (p : Phase F) (o : Order F) (s : Shared F)
      → k.returned ≡ false
      → k.phase ≡ some p
      → lookup k.transaction.end_to_end_id s.orders ≡ some o
      → let (k', s') = move n ports clearing_id k p (some o) s in
        Progress (1 + parts_left p) s s' k'
  move-Progress k start o s e f g = advance-Progress k start o s e (omega arith)
  move-Progress k (late x) o s e f g = advance-Progress k (late x) o s e (omega arith)
  move-Progress k (quoting x) o s e f g = advance-Progress k (quoting x) o s e (omega arith)
  move-Progress k refreshing o s e f g = advance-Progress k refreshing o s e (omega arith)
  move-Progress k paying o s e f g = advance-Progress k paying o s e (omega arith)
  move-Progress k (paid x) o s e f g = advance-Progress k (paid x) o s e (omega arith)
  move-Progress k (confirming x) o s e f g = advance-Progress k (confirming x) o s e (omega arith)
  move-Progress k (finished none) o s e f g = record {
    fewer = omega arith;
    has_order = inr (rw g refl);
    grows = λ id q. q;
  }
  move-Progress k (finished (some r)) o s e f g = record {
    fewer = omega arith;
    has_order = inr (rw g refl);
    grows = λ id q. q;
  }

  find_order-Progress :
      (k : Task F) (m : Option (Order F)) (s : Shared F)
      → k.returned ≡ false
      → k.phase ≡ none
      → lookup k.transaction.end_to_end_id s.orders ≡ m
      → let (k', s') = find_order k m s in Progress 9 s s' k'
  find_order-Progress k none s e f g = record {
    fewer = omega arith;
    has_order = inl f;
    grows = λ id q. q;
  }
  find_order-Progress k (some o) s e f g = record {
    fewer = rw e (omega arith);
    has_order = inr (rw g refl);
    grows = λ id q. q;
  }

  begin-Progress :
      (k : Task F) (s : Shared F)
      → k.returned ≡ false
      → k.phase ≡ none
      → let (k', s') = begin k s in Progress 9 s s' k'
  unfolding begin
  begin-Progress k s e f =
      elim (Bool-cases (is_cached (lookup k.transaction.provider_payment_id s.cache))) [
        | inl h ↦ rw h (record { fewer = omega arith; has_order = inl f; grows = λ id q. q })
        | inr h ↦ rw h (find_order-Progress k _ s e f refl)
      ]

  resume-Progress :
      (k : Task F) (q : Option (Phase F)) (s : Shared F)
      → k.returned ≡ false
      → k.phase ≡ q
      → HasOrder s k
      → let (k', s') = resume n ports clearing_id k q s in Progress (turns_of false q) s s' k'
  resume-Progress k none s e f h = begin-Progress k s e f
  resume-Progress k (some p) s e f h =
      elim (Option-cases (lookup k.transaction.end_to_end_id s.orders)) [
        | inl g ↦ absurd (unordered g h)
        | inr (o, g) ↦ rw g (move-Progress k p o s e f g)
      ]
    where
      unordered : lookup k.transaction.end_to_end_id s.orders ≡ none → HasOrder s k → ⊥
      unordered g (inl i) = ground arith
      unordered g (inr i) = ground arith

  turn-Progress :
      (k : Task F) (s : Shared F)
      → HasOrder s k
      → let (k', s') = turn n ports clearing_id k s in Progress (turns_left k) s s' k'
  unfolding turn
  turn-Progress k s h = by_returned k.returned refl
    where
      by_returned :
          (b : Bool)
          → k.returned ≡ b
          → let (k', s') = if b then (k, s) else resume n ports clearing_id k k.phase s in
            Progress (turns_of b k.phase) s s' k'
      by_returned true e = record { fewer = rw e (omega arith); has_order = h; grows = λ id q. q }
      by_returned false e = resume-Progress k k.phase s e refl h

  pub turn_at-Advances :
      (i : ℕ) (ks : List (Task F)) (s : Shared F)
      → All (HasOrder s) ks
      → let (ks', s') = turn_at n ports clearing_id i ks s in Advances i ks s ks' s'
  unfolding turn_at
  turn_at-Advances i [] s h = record {
    has_orders = tt;
    grows = λ id q. q;
    same_length = refl;
    fewer = omega arith;
    no_more = λ j. omega arith;
  }
  turn_at-Advances zero (k ∷ ks) s (h, hs) =
      let (k', s') = turn n ports clearing_id k s in
      let p = turn-Progress k s h in
      record {
        has_orders = (p.has_order, Grows-All s s' ks p.grows hs);
        grows = p.grows;
        same_length = refl;
        fewer = p.fewer;
        no_more = others (omega (arith, p.fewer));
      }
    where
      others :
          turns_left (turn n ports clearing_id k s).0 ≤ turns_left k
          → (j : ℕ) → left_at j ((turn n ports clearing_id k s).0 ∷ ks) ≤ left_at j (k ∷ ks)
      others l zero = l
      others l (suc j) = omega arith
  turn_at-Advances (suc i) (k ∷ ks) s (h, hs) =
      let (ks', s') = turn_at n ports clearing_id i ks s in
      let a = turn_at-Advances i ks s hs in
      record {
        has_orders = (Grows-HasOrder s s' k a.grows h, a.has_orders);
        grows = a.grows;
        same_length = ap suc a.same_length;
        fewer = a.fewer;
        no_more = others ks' a.no_more;
      }
    where
      others :
          (ks' : List (Task F))
          → ((j : ℕ) → left_at j ks' ≤ left_at j ks)
          → (j : ℕ) → left_at j (k ∷ ks') ≤ left_at j (k ∷ ks)
      others ks' l zero = omega arith
      others ks' l (suc j) = l j
