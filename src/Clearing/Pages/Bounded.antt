-- ===== src/Clearing/Pages/Bounded.antt =====
-- The pages that a statement can have.
use offchain_service.Base.{
  ℕ, zero, suc, ◌+◌, ◌≤◌, ◌<◌, ◌≡◌, inl, inr, refl, true, Option, none, some, List, leb, Text,
  is_some, Bool-cases, Result, ok, err, arith,
}
use offchain_service.Base.Dict.{Dict}
use offchain_service.Base.Numbers.{Numbers}
use offchain_service.Order.{Order}
use offchain_service.Clearing.Entities.{Transaction, Statement}
use offchain_service.Clearing.Bank.{Answer, thrown, answered, PagedStatement, parsed}
use offchain_service.Clearing.Pages.{
  CreatePorts, Run, Step, going_on, ended, broken, pass, process_page, process_statement, next_page,
  by_step, with_orders, after_page, end_ids, fetch_many,
}

-- The provider never announces more pages.
abbrev pub Announces : {F : Type 0} → ℕ → CreatePorts F → Type 0
Announces m ports =
    (page : ℕ) (target offset : Text) (p : PagedStatement)
    → ports.bank.request page target offset ≡ answered p
    → p.total_paginas ≤ m

module _ (n : Numbers) (ports : CreatePorts n.F) (m : ℕ) (bound : Announces m ports) where
  open n use {F}

  -- The page after the statement's, and not after the last.
  abbrev Follows : Statement → Step F → Type 0
  Follows s (going_on s' r) = (s'.current_page ≡ s.current_page + 1) × (s'.current_page ≤ m)
  Follows s (ended r) = Unit
  Follows s (broken r) = Unit

  next_page-Follows :
      (s : Statement) (r : Run F) (a : Answer PagedStatement)
      → ports.bank.request (s.current_page + 1) s.target s.offset ≡ a
      → Follows s (next_page n ports (parsed (s.current_page + 1) s.target s.offset a) r)
  next_page-Follows s r (thrown x) e = tt
  next_page-Follows s r (answered p) e =
      elim (Bool-cases (leb (s.current_page + 1) p.total_paginas)) [
        | inl h ↦
            let l = bound (s.current_page + 1) s.target s.offset p e in
            rw h (refl, ground (arith, l))
        | inr h ↦ rw h tt
      ]

  after_page-Follows : (s : Statement) (r : Run F) → Follows s (after_page n ports s r)
  after_page-Follows s r = elim (Bool-cases s.last_page) [
    | inl h ↦ rw h tt
    | inr h ↦
        rw h
          (next_page-Follows s r (ports.bank.request (s.current_page + 1) s.target s.offset) refl)
  ]

  with_orders-Follows :
      (s : Statement) (xs : List Transaction) (r : Run F) (found : Result (Dict (Order F)))
      → Follows s (with_orders n ports s xs r found)
  with_orders-Follows s xs r (err e) = tt
  with_orders-Follows s xs r (ok orders) =
      after_page-Follows s (process_page n ports s.current_page xs r orders)

  pass-Follows : (s : Statement) (r : Run F) → Follows s (pass n ports s r)
  unfolding pass
  pass-Follows s r =
      elim s.transactions
        as (λ t. Follows s (elim t [
          | none ↦ broken r
          | some xs ↦ with_orders n ports s xs r (fetch_many n ports (end_ids r.cache xs) r.tables)
        ])) [
          | none ↦ tt
          | some xs ↦ with_orders-Follows s xs r (fetch_many n ports (end_ids r.cache xs) r.tables)
        ]

  by_step-some :
      (loop : Statement → Run F → Option (Run F)) (s : Statement) (x : Step F)
      → Follows s x
      → ((s' : Statement) (r : Run F)
          → s'.current_page ≡ s.current_page + 1
          → s'.current_page ≤ m
          → is_some (loop s' r) ≡ true)
      → is_some (by_step n ports loop x) ≡ true
  by_step-some loop s (going_on s' r) (e, l) h = h s' r e l
  by_step-some loop s (ended r) f h = refl
  by_step-some loop s (broken r) f h = refl

  -- Where the provider never announces more than so many pages, the loop comes to its end from any
  -- of them: the fuel is one for each page up to the announced number, the first being number zero.
  pub process_statement-some :
      (fuel : ℕ) (s : Statement) (r : Run F)
      → 0 < fuel
      → m < fuel + s.current_page
      → is_some (process_statement n ports fuel s r) ≡ true
  unfolding process_statement
  process_statement-some zero s r p l = absurd (omega arith)
  process_statement-some (suc fuel) s r p l =
      by_step-some (process_statement n ports fuel) s (pass n ports s r) (pass-Follows s r)
        (λ s' r' e k.
          process_statement-some fuel s' r' (omega (arith, e, k, l)) (omega (arith, e, l)))
