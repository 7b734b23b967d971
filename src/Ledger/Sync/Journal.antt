-- ===== src/Ledger/Sync/Journal.antt =====
-- The keys of the stored journal, and what saving an entry does to them.
use offchain_service.Base.{
  ◌+◌, ◌≡◌, ◌⊎◌, inl, inr, refl, sym, ap, ◌∙◌, Bool, true, false, ◌||◌, List, [], ◌∷◌, ◌++◌, any,
  length, text_eq_iff, arith, text_eq_refl, Error, Result, ok, err, bind-ok, then-ok, ok_injective,
}
use offchain_service.Base.Lists.{length-append}
use offchain_service.Ledger.Entry.{JournalEntry}
use offchain_service.Ledger.Sync.{
  LedgerRows, SaveAnswers, SyncPorts, has_keys, fetch_entry, fetch_balance, is_known, or_undefined,
  store_both, store_journal, with_balance, upsert, save, build_new, save_built, sync_new, validate,
  checksum,
}
use offchain_service.Base.Dict.{lookup}
use offchain_service.Base.Numbers.{Numbers}
use offchain_service.Ledger.Balances.{Balance, add_journal_entry, new_builder}

pub or-true : (b : Bool) → (b || true) ≡ true
or-true true = refl
or-true false = refl

module _ {F : Type 0} where
  pub has_keys_comm : (a b : JournalEntry F) → has_keys a b ≡ has_keys b a
  unfolding has_keys
  has_keys_comm a b = ground (
    arith,
    text_eq_iff a.transaction_hash b.transaction_hash,
    text_eq_iff b.transaction_hash a.transaction_hash,
  )

  -- An entry is known exactly if a row has its keys.
  pub is_known-fetch_entry :
      (e : JournalEntry F) (rows : List (JournalEntry F))
      → is_known e (fetch_entry e rows) ≡ any (has_keys e) rows
  unfolding fetch_entry has_keys
  is_known-fetch_entry e [] = refl
  is_known-fetch_entry e (r ∷ rows) = ground (arith, is_known-fetch_entry e rows)

  pub any-append :
      (p : JournalEntry F → Bool) (xs ys : List (JournalEntry F))
      → any p (xs ++ ys) ≡ any p xs || any p ys
  any-append p [] ys = refl
  any-append p (x ∷ xs) ys = ground (arith, any-append p xs ys)

  -- What a save that ends well leaves.
  abbrev pub saved_rows : Balance F → JournalEntry F → LedgerRows F → LedgerRows F
  saved_rows b e rows = record {
    balances = upsert b rows.balances;
    journal = rows.journal ++ e ∷ [];
  }

  store_both-ok :
      (answers : SaveAnswers F) (b : Balance F) (e : JournalEntry F) (rows : LedgerRows F)
      (r : Result (Unit {0})) {rows' : LedgerRows F}
      → store_both answers b e rows r ≡ (rows', ok tt)
      → rows' ≡ saved_rows b e rows
  store_both-ok answers b e rows (err k) h = ground arith
  store_both-ok answers b e rows (ok _) {rows'} h =
      stored (answers.journal_answer (with_balance b rows) e) h
    where
      stored :
          (j : Result (Unit {0}))
          → store_journal e (with_balance b rows) j ≡ (rows', ok tt)
          → rows' ≡ saved_rows b e rows
      stored (err k) h = ground arith
      stored (ok _) h = sym (ap (λ (x : LedgerRows F × Result (Unit {0})). x.0) h)

  -- A save that fails leaves the rows as they were, or has written the balance.
  store_both-err :
      (answers : SaveAnswers F) (b : Balance F) (e : JournalEntry F) (rows : LedgerRows F)
      (r : Result (Unit {0})) {rows' : LedgerRows F} {k : Error}
      → store_both answers b e rows r ≡ (rows', err k)
      → (rows' ≡ rows) ⊎ (rows' ≡ with_balance b rows)
  store_both-err answers b e rows (err k) h =
      inl (sym (ap (λ (x : LedgerRows F × Result (Unit {0})). x.0) h))
  store_both-err answers b e rows (ok _) {rows'} {k} h =
      inr (stored (answers.journal_answer (with_balance b rows) e) h)
    where
      stored :
          (j : Result (Unit {0}))
          → store_journal e (with_balance b rows) j ≡ (rows', err k)
          → rows' ≡ with_balance b rows
      stored (err k) h = sym (ap (λ (x : LedgerRows F × Result (Unit {0})). x.0) h)
      stored (ok _) h = ground arith

  pub saved_rows-any :
      (k e x : JournalEntry F) (b : Balance F) (rows : LedgerRows F)
      → x ≡ record e { entry_type = x.entry_type }
      → any (has_keys k) (saved_rows b x rows).journal
        ≡ any (has_keys k) rows.journal || has_keys k e
  unfolding has_keys
  saved_rows-any k e x b rows h =
      let same : has_keys k x ≡ has_keys k e = rw h refl in
      ground (arith, same, any-append (has_keys k) rows.journal (x ∷ []))

  pub saved_rows-length :
      (b : Balance F) (e : JournalEntry F) (rows : LedgerRows F)
      → length (saved_rows b e rows).journal ≡ length rows.journal + 1
  saved_rows-length b e rows = length-append rows.journal (e ∷ [])

  pub has_keys_refl : (e : JournalEntry F) → has_keys e e ≡ true
  unfolding has_keys
  has_keys_refl e = ground (arith, text_eq_refl e.transaction_hash)

  -- No two rows have the same keys.
  abbrev pub IsUnique : List (JournalEntry F) → Type 0
  IsUnique [] = Unit
  IsUnique (x ∷ xs) = (any (has_keys x) xs ≡ false) × IsUnique xs

  pub IsUnique-append :
      (e : JournalEntry F) (xs : List (JournalEntry F))
      → IsUnique xs
      → any (has_keys e) xs ≡ false
      → IsUnique (xs ++ e ∷ [])
  IsUnique-append e [] u h = (refl, tt)
  IsUnique-append e (x ∷ xs) u h = (
    ground (arith, any-append (has_keys x) xs (e ∷ []), has_keys_comm e x),
    IsUnique-append e xs u.1 (ground arith),
  )

  pub saved_rows-IsUnique :
      (e x : JournalEntry F) (b : Balance F) (rows : LedgerRows F)
      → x ≡ record e { entry_type = x.entry_type }
      → IsUnique rows.journal
      → any (has_keys e) rows.journal ≡ false
      → IsUnique (saved_rows b x rows).journal
  unfolding has_keys
  saved_rows-IsUnique e x b rows h u free =
      IsUnique-append x rows.journal u
        (ap (λ (y : JournalEntry F). any (has_keys y) rows.journal) h ∙ free)

module _ (n : Numbers) (ports : SyncPorts n) where
  open n use {F}
  open ports use {ethers, clock, answers}

  -- The saved entry is the given one, with the status of its balance.
  pub build_new-entry :
      (rows : LedgerRows F) (e : JournalEntry F) {b : Balance F} {x : JournalEntry F}
      → build_new n ports rows e ≡ ok (b, x)
      → x ≡ record e { entry_type = x.entry_type }
  unfolding build_new
  build_new-entry rows e {b} {x} h =
      let o = fetch_balance e.account rows.balances in
      let (_, h1) = then-ok (validate n ports o) _ h in
      let (built, _, h2) =
        bind-ok (add_journal_entry n ethers e (new_builder n ethers (o ∷ []) [])) _ h1 in
      let (c, _, h3) = bind-ok (or_undefined (lookup e.account built)) _ h2 in
      let (sum, _, h4) = bind-ok (checksum n ports (clock e) c) _ h3 in
      let same = ap (λ (p : Balance F × JournalEntry F). p.1) (ok_injective h4) in
      sym same ∙ ap (λ (y : JournalEntry F). record e { entry_type = y.entry_type }) same

  -- A round that ends well has saved what it built.
  pub sync_new-ok :
      (rows : LedgerRows F) (e : JournalEntry F) {rows' : LedgerRows F}
      → sync_new n ports rows e ≡ (rows', ok tt)
      → (b : Balance F) × (x : JournalEntry F) × (build_new n ports rows e ≡ ok (b, x))
        × (rows' ≡ saved_rows b x rows)
  unfolding sync_new save
  sync_new-ok rows e {rows'} h = built (build_new n ports rows e) refl h
    where
      built :
          (r : Result (Balance F × JournalEntry F))
          → build_new n ports rows e ≡ r
          → save_built n ports rows r ≡ (rows', ok tt)
          → (b : Balance F) × (x : JournalEntry F) × (build_new n ports rows e ≡ ok (b, x))
            × (rows' ≡ saved_rows b x rows)
      built (err k) q h = ground arith
      built (ok (b, x)) q h = (b, x, q, store_both-ok answers b x rows _ h)

  -- A round that fails leaves the rows as they were, or has written the balance that it built.
  pub sync_new-err :
      (rows : LedgerRows F) (e : JournalEntry F) {rows' : LedgerRows F} {k : Error}
      → sync_new n ports rows e ≡ (rows', err k)
      → (rows' ≡ rows)
        ⊎ ((b : Balance F) × (x : JournalEntry F) × (build_new n ports rows e ≡ ok (b, x))
            × (rows' ≡ with_balance b rows))
  unfolding sync_new save
  sync_new-err rows e {rows'} {k} h = built (build_new n ports rows e) refl h
    where
      built :
          (r : Result (Balance F × JournalEntry F))
          → build_new n ports rows e ≡ r
          → save_built n ports rows r ≡ (rows', err k)
          → (rows' ≡ rows)
            ⊎ ((b : Balance F) × (x : JournalEntry F) × (build_new n ports rows e ≡ ok (b, x))
                × (rows' ≡ with_balance b rows))
      built (err k') q h = inl (sym (ap (λ (x : LedgerRows F × Result (Unit {0})). x.0) h))
      built (ok (b, x)) q h = elim (store_both-err answers b x rows _ h) [
        | inl same ↦ inl same
        | inr lost ↦ inr (b, x, q, lost)
      ]
