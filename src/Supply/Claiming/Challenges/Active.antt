-- ===== src/Supply/Claiming/Challenges/Active.antt =====
-- The active challenges of an address in the table.
use offchain_service.Base.{
  ℕ, ◌+◌, ◌≤◌, ◌≡◌, refl, Bool, List, [], ◌∷◌, ◌++◌, map, count_if, if◌then◌else◌, Text, text_eq,
  text_eq_iff, Bool-cases, inl, inr, Result, ok, err, arith,
}
use offchain_service.Base.Results.{and_then}
use offchain_service.Supply.Claiming.Challenges.{
  Challenge, Answer, Claims, is_active, deactivate_row, deactivate, create_challenge, create_answer,
  fetch_challenge,
}

-- The active challenges under a deactivation hash.
abbrev pub actives : Text → List Challenge → ℕ
actives hash = count_if (is_active hash)

-- At most one challenge is active for an address.
abbrev pub AtMostOne : List Challenge → Type 0
AtMostOne cs = (hash : Text) → actives hash cs ≤ 1

actives-append :
    (h : Text) (xs ys : List Challenge) → actives h (xs ++ ys) ≡ actives h xs + actives h ys
actives-append h [] ys = omega arith
actives-append h (x ∷ xs) ys = ground (arith, actives-append h xs ys)

-- Deactivating takes the challenges of one hash, and leaves those of the others.
actives-deactivate :
    (now : ℕ) (hash h : Text) (cs : List Challenge)
    → actives h (map (deactivate_row now hash) cs) ≡ (if text_eq hash h then 0 else actives h cs)
actives-deactivate now hash h [] = ground arith
actives-deactivate now hash h (c ∷ cs) = ground (
  arith,
  text_eq_iff hash h,
  text_eq_iff c.deactivation_hash h,
  text_eq_iff c.deactivation_hash hash,
  actives-deactivate now hash h cs,
)

module _ {F : Type 0} where
  -- A property of the state that a step keeps is kept by what follows it.
  pub and_then-keeps :
      {A B : Type 0} (P : Claims F → Type 0) (x : Claims F × Result A)
      (next : A → Claims F → Claims F × Result B)
      → P x.0
      → ((a : A) → x.1 ≡ ok a → P (next a x.0).0)
      → P (and_then x next).0
  and_then-keeps P (w, err e) next h k = h
  and_then-keeps P (w, ok a) next h k = k a refl

  abbrev pub OneActive : Claims F → Type 0
  OneActive w = AtMostOne w.challenges

module _ {F : Type 0} (up : ℕ → Bool) (now : ℕ) where
  pub deactivate-OneActive :
      (hash : Text) (w : Claims F) → OneActive w → OneActive (deactivate up now hash w).0
  unfolding deactivate
  deactivate-OneActive hash w h = elim (Bool-cases (up w.tables.calls)) [
    | inl e ↦ rw e (λ k. ground (arith, actives-deactivate now hash k w.challenges, h k))
    | inr e ↦ rw e h
  ]

  pub deactivate-none :
      (hash : Text) (w : Claims F)
      → (deactivate up now hash w).1 ≡ ok tt
      → actives hash (deactivate up now hash w).0.challenges ≡ 0
  unfolding deactivate
  deactivate-none hash w h = elim (Bool-cases (up w.tables.calls)) [
    | inl e ↦
        rw e (ground (arith, actives-deactivate now hash hash w.challenges, text_eq_iff hash hash))
    | inr e ↦ ground arith
  ]

  pub create_challenge-OneActive :
      (c : Challenge) (w : Claims F)
      → actives c.deactivation_hash w.challenges ≡ 0
      → OneActive w
      → OneActive (create_challenge up now c w).0
  unfolding create_challenge
  create_challenge-OneActive c w z h = elim (Bool-cases (up w.tables.calls)) [
    | inl e ↦ rw e (λ k. ground (
      arith,
      actives-append k w.challenges (record c { id = w.next_challenge } ∷ []),
      h k,
      z,
      text_eq_iff c.deactivation_hash k,
    ))
    | inr e ↦ rw e h
  ]

  pub create_answer_challenges :
      (a : Answer) (w : Claims F) → (create_answer up now a w).0.challenges ≡ w.challenges
  unfolding create_answer
  create_answer_challenges a w = ground arith

  pub fetch_challenge_challenges :
      (hash : Text) (w : Claims F) → (fetch_challenge up now hash w).0.challenges ≡ w.challenges
  unfolding fetch_challenge
  fetch_challenge_challenges [] w = refl
  fetch_challenge_challenges (c ∷ hash) w = ground arith
