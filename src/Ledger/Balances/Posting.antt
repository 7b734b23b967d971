-- ===== src/Ledger/Balances/Posting.antt =====
-- One entry posted to one balance.
use offchain_service.Base.{
  ℕ, ◌+◌, ◌-◌, ◌<◌, ◌≤◌, ◌≡◌, ◌⊎◌, ◌≢◌, ◌↔◌, true, false, none, some, if◌then◌else◌, Result, ok,
  err, arith, Bool-cases, inl, inr, ◌>>=◌,
}
use offchain_service.Base.Numbers.{Numbers}
use offchain_service.Price.Calculus.{Ethers, IsExact, fixed_limit, CurrencyAmount, pad_units}
use offchain_service.Price.Calculus.Laws.{Gives, sum-Gives, sub-Gives}
use offchain_service.Ledger.Entry.{JournalEntry, exit}
use offchain_service.Ledger.Balances.{
  Balance, is_mint_or_fx_tunnel, is_debit, post, move_uint256, kn_amount, with_uint256,
  record_entry, take_back,
}

-- What an entry adds to the exact total of its account, and what it takes.
abbrev pub received : {F : Type 0} → JournalEntry F → ℕ
received e = if is_debit e.movement_type then 0 else e.uint256amount

abbrev pub paid : {F : Type 0} → JournalEntry F → ℕ
paid e =
    if is_mint_or_fx_tunnel e then 0 else if is_debit e.movement_type then e.uint256amount else 0

-- The entry can be posted: it is the debit of a mint or a tunnel, or the exact total stays within
-- its bounds.
abbrev pub Fits : {F : Type 0} → JournalEntry F → ℕ → Type 0
Fits e held =
    (is_mint_or_fx_tunnel e ≡ true)
    ⊎ ((held < fixed_limit) × (paid e ≤ held) × (held + received e < fixed_limit))

-- How posting an entry ends.
abbrev pub Posts : {F : Type 0} → JournalEntry F → Balance F → Result (Balance F) → Type 0
Posts e b (ok b') =
    (b'.uint256total + paid e ≡ b.uint256total + received e)
    × (b'.nonce ≡ b.nonce + 1)
    × (b'.account ≡ b.account)
    × (b'.group ≡ e.account_group)
    × Fits e b.uint256total
Posts e b (err _) = ¬ Fits e b.uint256total

module _ (n : Numbers) (c : Ethers) (exact : IsExact c) where
  open n use {F}

  -- The new exact total, or an error where it leaves its bounds.
  abbrev Moves : JournalEntry F → ℕ → Result CurrencyAmount → Type 0
  Moves e held (ok a) =
      (is_mint_or_fx_tunnel e ≡ false)
      → (a.unassigned_number + paid e ≡ held + received e) × Fits e held
  Moves e held (err _) = (is_mint_or_fx_tunnel e ≡ false) → ¬ Fits e held

  Gives-sub-Moves :
      (e : JournalEntry F) (held : ℕ) (r : Result CurrencyAmount)
      → is_debit e.movement_type ≡ true
      → Gives ((held < fixed_limit) × (e.uint256amount ≤ held)) (held - e.uint256amount) r
      → Moves e held r
  Gives-sub-Moves e held (ok a) d g = ground arith
  Gives-sub-Moves e held (err k) d g = ground arith

  Gives-sum-Moves :
      (e : JournalEntry F) (held : ℕ) (r : Result CurrencyAmount)
      → is_debit e.movement_type ≡ false
      → Gives (held + e.uint256amount < fixed_limit) (held + e.uint256amount) r
      → Moves e held r
  Gives-sum-Moves e held (ok a) d g = ground arith
  Gives-sum-Moves e held (err k) d g = ground arith

  move_uint256-Moves : (e : JournalEntry F) (held : ℕ) → Moves e held (move_uint256 n c e held)
  unfolding move_uint256 pad_units
  move_uint256-Moves e held = elim (Bool-cases (is_debit e.movement_type)) [
    | inl d ↦ rw d (
        Gives-sub-Moves e held _ d
          (sub-Gives c exact (kn_amount e held) (kn_amount e e.uint256amount)))
    | inr d ↦ rw d (
        Gives-sum-Moves e held _ d
          (sum-Gives c exact (kn_amount e held) (kn_amount e e.uint256amount)))
  ]

  record_entry-uint256total :
      (e : JournalEntry F) (b : Balance F) → (record_entry n e b).uint256total ≡ b.uint256total
  unfolding record_entry
  record_entry-uint256total e b = ground arith

  -- The balance that is stamped already, with the result of the move.
  stamped-Posts :
      (e : JournalEntry F) (b s : Balance F) (r : Result CurrencyAmount)
      → is_mint_or_fx_tunnel e ≡ false
      → s.nonce ≡ b.nonce + 1
      → s.account ≡ b.account
      → s.group ≡ e.account_group
      → Moves e b.uint256total r
      → Posts e b (r >>= λ a. ok (with_uint256 n c s a))
  stamped-Posts e b s (ok a) m h1 h2 h3 h4 = (ground arith, h1, h2, h3, ground arith)
  stamped-Posts e b s (err k) m h1 h2 h3 h4 = h4 m

  -- With a fixed-point library that is exact within its format, an entry is posted exactly where it
  -- is the debit of a mint or of a tunnel, or the exact total stays within bounds, and it throws
  -- everywhere else. A posted entry counts itself in the nonce, keeps the account and sets the
  -- group; it moves the exact total by its amount, and by nothing if it is such a debit.
  pub post-Posts : (e : JournalEntry F) (b : Balance F) → Posts e b (post n c e b)
  unfolding post
  post-Posts e b = elim (Bool-cases (is_mint_or_fx_tunnel e)) [
    | inl m ↦ rw m (ground arith)
    | inr m ↦ rw m (
        rw (record_entry-uint256total e b) (
          stamped-Posts e b (record_entry n e b) (move_uint256 n c e b.uint256total) m
            (ground arith) (ground arith) (ground arith) (move_uint256-Moves e b.uint256total)))
  ]

-- A balance is dated: it has an exit date, that of its last entry, exactly if its status is `exit`.
abbrev pub IsDated : {F : Type 0} → Balance F → Type 0
IsDated b =
    ((b.status ≡ exit) × (b.exit_date ≡ some b.last_journal_entry_date))
    ⊎ ((b.status ≢ exit) × (b.exit_date ≡ none))

module _ (n : Numbers) (c : Ethers) where
  open n use {F, le, of_ℕ}

  -- Whatever the balance was before, a posted entry leaves it dated.
  pub post-IsDated :
      (e : JournalEntry F) (b : Balance F) {b' : Balance F} → post n c e b ≡ ok b' → IsDated b'
  unfolding post record_entry take_back move_uint256
  post-IsDated e b h = ground arith

  -- After an entry that is no debit of a mint or a tunnel, the status is `exit` exactly if the
  -- new total is not positive.
  pub post-exit_iff :
      (e : JournalEntry F) (b : Balance F) {b' : Balance F}
      → post n c e b ≡ ok b'
      → is_mint_or_fx_tunnel e ≡ false
      → (b'.status ≡ exit) ↔ (le b'.total (of_ℕ 0) ≡ true)
  unfolding post record_entry take_back move_uint256
  post-exit_iff e b h m = ground arith
