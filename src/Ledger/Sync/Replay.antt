-- ===== src/Ledger/Sync/Replay.antt =====
-- The loop of `syncBalances` and the journal.
use offchain_service.Base.{
  ℕ, ◌+◌, ◌≡◌, ◌⊎◌, refl, sym, subst, true, false, ◌||◌, List, [], ◌∷◌, any, length, Error, Result,
  ok, err, arith, Bool-cases, inl, inr, ap, ◌∙◌, All,
}
use offchain_service.Base.Numbers.{Numbers}
use offchain_service.Ledger.Entry.{JournalEntry}
use offchain_service.Ledger.Sync.{LedgerRows, SyncPorts, has_keys, sync_new, sync_balances}
use offchain_service.Ledger.Sync.Journal.{
  or-true, is_known-fetch_entry, saved_rows-any, saved_rows-length, has_keys_refl, IsUnique,
  saved_rows-IsUnique, build_new-entry, sync_new-ok, sync_new-err,
}

module _ (n : Numbers) (ports : SyncPorts n) where
  open n use {F}

  -- What a successful round adds to the journal: a row with the entry's keys.
  sync_new-any :
      (k : JournalEntry F) (rows : LedgerRows F) (e : JournalEntry F) {rows' : LedgerRows F}
      → sync_new n ports rows e ≡ (rows', ok tt)
      → any (has_keys k) rows'.journal ≡ any (has_keys k) rows.journal || has_keys k e
  sync_new-any k rows e h =
      let (b, x, built, saved) = sync_new-ok n ports rows e h in
      ap (λ (r : LedgerRows F). any (has_keys k) r.journal) saved
      ∙ saved_rows-any k e x b rows (build_new-entry n ports rows e built)

  sync_new_self :
      (rows : LedgerRows F) (e : JournalEntry F) {rows' : LedgerRows F}
      → sync_new n ports rows e ≡ (rows', ok tt)
      → any (has_keys e) rows'.journal ≡ true
  sync_new_self rows e h =
      ground
        (arith, sync_new-any e rows e h, has_keys_refl e, or-true (any (has_keys e) rows.journal))

  sync_new-length :
      (rows : LedgerRows F) (e : JournalEntry F) {rows' : LedgerRows F}
      → sync_new n ports rows e ≡ (rows', ok tt)
      → length rows'.journal ≡ length rows.journal + 1
  sync_new-length rows e h =
      let (b, x, _, saved) = sync_new-ok n ports rows e h in
      ap (λ (r : LedgerRows F). length r.journal) saved ∙ saved_rows-length b x rows

  sync_new-IsUnique :
      (rows : LedgerRows F) (e : JournalEntry F) {rows' : LedgerRows F}
      → sync_new n ports rows e ≡ (rows', ok tt)
      → any (has_keys e) rows.journal ≡ false
      → IsUnique rows.journal
      → IsUnique rows'.journal
  sync_new-IsUnique rows e h known u =
      let (b, x, built, saved) = sync_new-ok n ports rows e h in
      subst (λ (r : LedgerRows F). IsUnique r.journal) (sym saved)
        (saved_rows-IsUnique e x b rows (build_new-entry n ports rows e built) u known)

  -- A failed round leaves the journal as it was.
  sync_new-journal :
      (rows : LedgerRows F) (e : JournalEntry F) {rows' : LedgerRows F} {k : Error}
      → sync_new n ports rows e ≡ (rows', err k)
      → rows'.journal ≡ rows.journal
  sync_new-journal rows e h = elim (sync_new-err n ports rows e h) [
    | inl same ↦ ap (λ (r : LedgerRows F). r.journal) same
    | inr (b, x, built, lost) ↦ ap (λ (r : LedgerRows F). r.journal) lost
  ]

  sync_new-cases :
      (rows : LedgerRows F) (e : JournalEntry F)
      → ((rows' : LedgerRows F) × (sync_new n ports rows e ≡ (rows', ok tt)))
        ⊎ ((rows' : LedgerRows F) × (k : Error) × (sync_new n ports rows e ≡ (rows', err k)))
  sync_new-cases rows e = by_end (sync_new n ports rows e) refl
    where
      by_end :
          (out : LedgerRows F × Result (Unit {0}))
          → sync_new n ports rows e ≡ out
          → ((rows' : LedgerRows F) × (sync_new n ports rows e ≡ (rows', ok tt)))
            ⊎ ((rows' : LedgerRows F) × (k : Error) × (sync_new n ports rows e ≡ (rows', err k)))
      by_end (rows', ok _) h = inl (rows', h)
      by_end (rows', err k) h = inr (rows', k, h)

  -- The three ways of a round.
  round_known :
      (c : ℕ) (e : JournalEntry F) (es : List (JournalEntry F)) (rows : LedgerRows F)
      → any (has_keys e) rows.journal ≡ true
      → sync_balances n ports c (e ∷ es) rows ≡ sync_balances n ports c es rows
  unfolding sync_balances
  round_known c e es rows h = rw (is_known-fetch_entry e rows.journal, h, sync_balances)

  round_saved :
      (c : ℕ) (e : JournalEntry F) (es : List (JournalEntry F)) (rows : LedgerRows F)
      {rows' : LedgerRows F}
      → any (has_keys e) rows.journal ≡ false
      → sync_new n ports rows e ≡ (rows', ok tt)
      → sync_balances n ports c (e ∷ es) rows ≡ sync_balances n ports (c + 1) es rows'
  unfolding sync_balances
  round_saved c e es rows h s =
      rw (is_known-fetch_entry e rows.journal, h, s, sync_balances)
        (ap (λ (x : LedgerRows F × Result (Unit {0})). sync_balances n ports (c + 1) es x.0) s)

  round_failed :
      (c : ℕ) (e : JournalEntry F) (es : List (JournalEntry F)) (rows : LedgerRows F)
      {rows' : LedgerRows F} {k : Error}
      → any (has_keys e) rows.journal ≡ false
      → sync_new n ports rows e ≡ (rows', err k)
      → sync_balances n ports c (e ∷ es) rows ≡ (rows', err k)
  unfolding sync_balances
  round_failed c e es rows {rows'} {k} h s =
      rw (is_known-fetch_entry e rows.journal, h, s, sync_balances)
        (ap (λ (x : LedgerRows F × Result (Unit {0})). (x.0, err k)) s)

  -- An induction over the rounds: a property of the rows and the result, kept by each.
  pub rounds :
      (P : ℕ → List (JournalEntry F) → LedgerRows F → LedgerRows F × Result ℕ → Type 0)
      → ((c : ℕ) (rows : LedgerRows F) → P c [] rows (rows, ok c))
      → ((c : ℕ) (e : JournalEntry F) (es : List (JournalEntry F)) (rows : LedgerRows F)
          → any (has_keys e) rows.journal ≡ true
          → P c es rows (sync_balances n ports c es rows)
          → P c (e ∷ es) rows (sync_balances n ports c es rows))
      → ((c : ℕ) (e : JournalEntry F) (es : List (JournalEntry F)) (rows rows' : LedgerRows F)
          → any (has_keys e) rows.journal ≡ false
          → sync_new n ports rows e ≡ (rows', ok tt)
          → P (c + 1) es rows' (sync_balances n ports (c + 1) es rows')
          → P c (e ∷ es) rows (sync_balances n ports (c + 1) es rows'))
      → ((c : ℕ) (e : JournalEntry F) (es : List (JournalEntry F)) (rows rows' : LedgerRows F)
            (k : Error)
          → sync_new n ports rows e ≡ (rows', err k)
          → P c (e ∷ es) rows (rows', err k))
      → (c : ℕ) (es : List (JournalEntry F)) (rows : LedgerRows F)
      → P c es rows (sync_balances n ports c es rows)
  rounds P done known saved failed c [] rows = unfold sync_balances in done c rows
  rounds P done known saved failed c (e ∷ es) rows =
      elim (Bool-cases (any (has_keys e) rows.journal)) [
        | inl h ↦
            rw (round_known c e es rows h)
              (known c e es rows h (rounds P done known saved failed c es rows))
        | inr h ↦ elim (sync_new-cases rows e) [
          | inl (rows', s) ↦
              rw (round_saved c e es rows h s)
                (saved c e es rows rows' h s (rounds P done known saved failed (c + 1) es rows'))
          | inr (rows', k, s) ↦ rw (round_failed c e es rows h s) (failed c e es rows rows' k s)
        ]
      ]

  -- However the loop ends, no two rows of the journal have the same keys if none had before.
  pub sync_balances-IsUnique :
      (c : ℕ) (es : List (JournalEntry F)) (rows : LedgerRows F)
      → IsUnique rows.journal
      → IsUnique (sync_balances n ports c es rows).0.journal
  sync_balances-IsUnique =
      rounds (λ c es rows out. IsUnique rows.journal → IsUnique out.0.journal) (λ c rows u. u)
        (λ c e es rows h ih u. ih u)
        (λ c e es rows rows' h s ih u. ih (sync_new-IsUnique rows e s h u))
        (λ c e es rows rows' k s u. subst IsUnique (sym (sync_new-journal rows e s)) u)

  -- A loop that ends well has counted exactly the rows that it added.
  pub sync_balances_count :
      (c : ℕ) (es : List (JournalEntry F)) (rows : LedgerRows F) {m : ℕ}
      → (sync_balances n ports c es rows).1 ≡ ok m
      → length (sync_balances n ports c es rows).0.journal + c ≡ length rows.journal + m
  sync_balances_count c es rows {m} h =
      rounds (λ c es rows out. out.1 ≡ ok m → length out.0.journal + c ≡ length rows.journal + m)
        (λ c rows u. ground arith) (λ c e es rows h ih u. ih u)
        (λ c e es rows rows' h s ih u. omega (arith, ih u, sync_new-length rows e s))
        (λ c e es rows rows' k s u. cc) c es rows h

  -- Rows are never lost.
  sync_balances-any :
      (k : JournalEntry F) (c : ℕ) (es : List (JournalEntry F)) (rows : LedgerRows F)
      → any (has_keys k) rows.journal ≡ true
      → any (has_keys k) (sync_balances n ports c es rows).0.journal ≡ true
  sync_balances-any stored =
      rounds
        (λ c es rows out.
          any (has_keys stored) rows.journal ≡ true → any (has_keys stored) out.0.journal ≡ true)
        (λ c rows u. u) (λ c e es rows h ih u. ih u)
        (λ c e es rows rows' h s ih u.
          ih (sync_new-any stored rows e s ∙ ap (λ b. b || has_keys stored e) u))
        (λ c e es rows rows' k s u. ap (any (has_keys stored)) (sync_new-journal rows e s) ∙ u)

  -- Every entry of a loop that ends well is in the journal.
  sync_balances-All :
      (c : ℕ) (es : List (JournalEntry F)) (rows : LedgerRows F) {m : ℕ}
      → (sync_balances n ports c es rows).1 ≡ ok m
      → All (λ e. any (has_keys e) (sync_balances n ports c es rows).0.journal ≡ true) es
  sync_balances-All c es rows {m} h =
      rounds (λ c es rows out. out.1 ≡ ok m → All (λ e. any (has_keys e) out.0.journal ≡ true) es)
        (λ c rows u. tt) (λ c e es rows h ih u. (sync_balances-any e c es rows h, ih u))
        (λ c e es rows rows' h s ih u.
          (sync_balances-any e (c + 1) es rows' (sync_new_self rows e s), ih u))
        (λ c e es rows rows' k s u. cc) c es rows h

  -- On entries that the journal has, the loop does nothing.
  sync_balances-known :
      (c : ℕ) (es : List (JournalEntry F)) (rows : LedgerRows F)
      → All (λ e. any (has_keys e) rows.journal ≡ true) es
      → sync_balances n ports c es rows ≡ (rows, ok c)
  sync_balances-known c [] rows h = unfold sync_balances in refl
  sync_balances-known c (e ∷ es) rows h =
      round_known c e es rows h.0 ∙ sync_balances-known c es rows h.1

  -- Replaying the entries of a loop that ended well saves nothing and changes no row.
  pub sync_balances_replay :
      (c d : ℕ) (es : List (JournalEntry F)) (rows : LedgerRows F) {m : ℕ}
      → (sync_balances n ports c es rows).1 ≡ ok m
      → let rows' = (sync_balances n ports c es rows).0 in
        sync_balances n ports d es rows' ≡ (rows', ok d)
  sync_balances_replay c d es rows h = sync_balances-known d es _ (sync_balances-All c es rows h)
