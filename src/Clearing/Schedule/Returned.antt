-- ===== src/Clearing/Schedule/Returned.antt =====
-- The turns that `Promise.all` waits for.
use offchain_service.Base.{
  ℕ, zero, suc, ◌+◌, ◌-◌, ◌≤◌, ◌<◌, ◌≡◌, inl, inr, refl, ◌∙◌, Bool, true, false, some, List, [],
  ◌∷◌, ◌++◌, All, length, count_if, ◌==◌, Bool-cases, Text, arith,
}
use offchain_service.Base.Lists.{replicate}
use offchain_service.Base.Numbers.{Numbers}
use offchain_service.Clearing.Process.{ProcessPorts, Phase}
use offchain_service.Clearing.Schedule.{Task, Shared, turn_at, run_schedule, drain}
use offchain_service.Clearing.Schedule.Held.{IsWaiting}
use offchain_service.Clearing.Schedule.Done.{
  turns_of, turns_left, HasOrder, left_at, turn_at-Advances,
}

-- How many turns of a schedule are at a place.
abbrev turns_at : ℕ → List ℕ → ℕ
turns_at j = count_if (λ i. i == j)

turns_at-append : (j : ℕ) (is js : List ℕ) → turns_at j (is ++ js) ≡ turns_at j is + turns_at j js
turns_at-append j [] js = omega arith
turns_at-append j (i ∷ is) js = ground (arith, turns_at-append j is js)

turns_at-replicate : (j m : ℕ) → turns_at j (replicate m j) ≡ m
turns_at-replicate j zero = refl
turns_at-replicate j (suc m) = ground (arith, turns_at-replicate j m)

turns_at-drain : (j m : ℕ) → j < m → 9 ≤ turns_at j (drain m)
unfolding drain
turns_at-drain j zero h = omega arith
turns_at-drain j (suc k) h = elim (Bool-cases (k == j)) [
  | inl e ↦
      let e' : k ≡ j = ground arith in
      let q : turns_at j (replicate 9 k) ≡ 9 = rw e' (turns_at-replicate j 9) in
      omega (arith, turns_at-append j (replicate 9 k) (drain k), q)
  | inr e ↦
      omega (arith, turns_at-append j (replicate 9 k) (drain k), turns_at-drain j k (ground arith))
]

module _ {F : Type 0} where
  turns_left-le : (returned : Bool) (p : Phase F) → turns_of returned (some p) ≤ 8
  turns_left-le true p = omega arith
  turns_left-le false p = ground arith

  left_at-le : (j : ℕ) (ks : List (Task F)) → left_at j ks ≤ 9
  left_at-le j [] = omega arith
  left_at-le zero (k ∷ ks) = ground arith
  left_at-le (suc j) (k ∷ ks) = left_at-le j ks

  returned_of :
      (ks : List (Task F))
      → ((j : ℕ) → j < length ks → left_at j ks ≡ 0)
      → All (λ k. k.returned ≡ true) ks
  returned_of [] h = tt
  returned_of (k ∷ ks) h =
      (zero_left k (h 0 (omega arith)), returned_of ks (λ j l. h (suc j) (omega arith)))
    where
      zero_left : (k : Task F) → turns_left k ≡ 0 → k.returned ≡ true
      zero_left k e = ground arith

  waiting-HasOrder : (s : Shared F) (ks : List (Task F)) → All IsWaiting ks → All (HasOrder s) ks
  waiting-HasOrder s [] w = tt
  waiting-HasOrder s (k ∷ ks) (e, w) = (inl e, waiting-HasOrder s ks w)

module _ (n : Numbers) (ports : ProcessPorts) (clearing_id : Text) where
  open n use {F}

  run_schedule-left_at :
      (is : List ℕ) (ks : List (Task F)) (s : Shared F)
      → All (HasOrder s) ks
      → let (ks', s') = run_schedule n ports clearing_id is ks s in
        (length ks' ≡ length ks) × ((j : ℕ) → left_at j ks' ≤ left_at j ks - turns_at j is)
  unfolding run_schedule
  run_schedule-left_at [] ks s h = (refl, λ j. omega arith)
  run_schedule-left_at (i ∷ is) ks s h =
      let (ks', s') = turn_at n ports clearing_id i ks s in
      let a = turn_at-Advances n ports clearing_id i ks s h in
      let (l, f) = run_schedule-left_at is ks' s' a.has_orders in
      (
        l ∙ a.same_length,
        λ j. elim (Bool-cases (i == j)) [
          | inl e ↦
              let e' : i ≡ j = ground arith in
              let fewer : left_at j ks' ≤ left_at j ks - 1 = rw (← e') a.fewer in
              rw e (omega (arith, f j, fewer))
          | inr e ↦ rw e (omega (arith, f j, a.no_more j))
        ],
      )

  -- Under any schedule that is followed by the drain for as many tasks, all waiting transactions
  -- return.
  pub run_schedule-returned :
      (is : List ℕ) (ks : List (Task F)) (s : Shared F)
      → All IsWaiting ks
      → All
          (λ k. k.returned ≡ true)
          (run_schedule n ports clearing_id (is ++ drain (length ks)) ks s).0
  run_schedule-returned is ks s w =
      let whole = is ++ drain (length ks) in
      let (l, f) = run_schedule-left_at whole ks s (waiting-HasOrder s ks w) in
      returned_of (run_schedule n ports clearing_id whole ks s).0 λ j b. omega (
        arith,
        f j,
        left_at-le j ks,
        turns_at-append j is (drain (length ks)),
        drained j (omega (arith, l)),
      )
    where
      drained : (j : ℕ) → j < length ks → 9 ≤ turns_at j (drain (length ks))
      drained j b = turns_at-drain j (length ks) b
