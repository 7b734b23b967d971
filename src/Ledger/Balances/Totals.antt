-- ===== src/Ledger/Balances/Totals.antt =====
-- The exact totals of all accounts under a run of entries.
use offchain_service.Base.{
  ℕ, ◌+◌, ◌≡◌, inl, inr, refl, Option, none, some, List, [], ◌∷◌, if◌then◌else◌, Result, ok, err,
  arith, Text, ◌>>=◌, Result-cases,
}
use offchain_service.Base.Numbers.{Numbers}
use offchain_service.Base.Dict.{Dict, lookup, insert}
use offchain_service.Price.Calculus.{Ethers, IsExact}
use offchain_service.Ledger.Entry.{JournalEntry, debit, credit}
use offchain_service.Ledger.Balances.{
  Balance, is_mint_or_fx_tunnel, new_balance, add_journal_entry, or_new,
}
use offchain_service.Ledger.Balances.Posting.{received, paid, Posts, post-Posts}

abbrev pub uint256_sum : {F : Type 0} → Dict (Balance F) → ℕ
uint256_sum [] = 0
uint256_sum ((_, b) ∷ d) = b.uint256total + uint256_sum d

abbrev pub held : {F : Type 0} → Option (Balance F) → ℕ
held none = 0
held (some b) = b.uint256total

uint256_sum-insert :
    {F : Type 0} (k : Text) (b : Balance F) (d : Dict (Balance F))
    → uint256_sum (insert k b d) + held (lookup k d) ≡ uint256_sum d + b.uint256total
uint256_sum-insert k b [] = omega arith
uint256_sum-insert k b ((j, a) ∷ d) = ground (arith, uint256_sum-insert k b d)

-- What a run of entries adds to all accounts together, and what it takes.
abbrev pub all_received : {F : Type 0} → List (JournalEntry F) → ℕ
all_received [] = 0
all_received (e ∷ es) = received e + all_received es

abbrev pub all_paid : {F : Type 0} → List (JournalEntry F) → ℕ
all_paid [] = 0
all_paid (e ∷ es) = paid e + all_paid es

module _ (n : Numbers) (c : Ethers) where
  open n use {F}

  -- A chain of `addJournalEntry` calls on one builder.
  unfoldable pub add_journal_entries :
      List (JournalEntry F) → Dict (Balance F) → Result (Dict (Balance F))
  add_journal_entries [] d = ok d
  add_journal_entries (e ∷ es) d = add_journal_entry n c e d >>= add_journal_entries es

  pub held-or_new :
      (e : JournalEntry F) (o : Option (Balance F)) → (or_new n c e o).uint256total ≡ held o
  unfolding new_balance
  held-or_new e none = refl
  held-or_new e (some b) = refl

  module _ (exact : IsExact c) where
    inserted :
        (e : JournalEntry F) (d : Dict (Balance F)) (r : Result (Balance F)) {d' : Dict (Balance F)}
        → Posts e (or_new n c e (lookup e.account d)) r
        → (r >>= λ b. ok (insert e.account b d)) ≡ ok d'
        → uint256_sum d' + paid e ≡ uint256_sum d + received e
    inserted e d (ok b) p h =
        ground (arith, uint256_sum-insert e.account b d, held-or_new e (lookup e.account d))
    inserted e d (err k) p h = cc

    add_journal_entry_sum :
        (e : JournalEntry F) (d : Dict (Balance F)) {d' : Dict (Balance F)}
        → add_journal_entry n c e d ≡ ok d'
        → uint256_sum d' + paid e ≡ uint256_sum d + received e
    unfolding add_journal_entry
    add_journal_entry_sum e d h = inserted e d _ (post-Posts n c exact e _) h

    -- With an exact fixed-point library, over any run of entries that are posted, the sum of the exact totals of all accounts moves
    -- by what the entries credit and debit, those that come out of a chain or a bridge aside.
    pub add_journal_entries_sum :
        (es : List (JournalEntry F)) (d : Dict (Balance F)) {d' : Dict (Balance F)}
        → add_journal_entries es d ≡ ok d'
        → uint256_sum d' + all_paid es ≡ uint256_sum d + all_received es
    unfolding add_journal_entries
    add_journal_entries_sum [] d h = ground arith
    add_journal_entries_sum (e ∷ es) d h = elim (Result-cases (add_journal_entry n c e d)) [
      | inl (d1, f) ↦
          omega (arith, add_journal_entry_sum e d f, add_journal_entries_sum es d1 (rw f at h))
      | inr (k, f) ↦ absurd (cc)
    ]

    -- With an exact fixed-point library, a transfer, posted as its debit and its credit of one
    -- amount, keeps the sum; where its source is a chain
    -- or a bridge account, it adds the amount.
    pub transfer_sum :
        (from to : JournalEntry F) (d : Dict (Balance F)) {d' : Dict (Balance F)}
        → from.movement_type ≡ debit
        → to.movement_type ≡ credit
        → from.uint256amount ≡ to.uint256amount
        → add_journal_entries (from ∷ to ∷ []) d ≡ ok d'
        → uint256_sum d'
          ≡ uint256_sum d + (if is_mint_or_fx_tunnel from then to.uint256amount else 0)
    transfer_sum from to d p q a h = ground (arith, add_journal_entries_sum (from ∷ to ∷ []) d h)
