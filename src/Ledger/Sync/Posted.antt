-- ===== src/Ledger/Sync/Posted.antt =====
-- What a round of `syncBalances` has built for its save.
use offchain_service.Base.{
  ◌≡◌, ◌≢◌, refl, sym, ap, subst, ◌∙◌, Option, none, some, List, [], ◌∷◌, Text, text_eq,
  text_eq_refl, text_eq_iff, ok, ◌>>=◌, Bool-cases, inl, inr, bind-ok, then-ok, ok_injective, arith,
}
use offchain_service.Base.Dict.{Dict, lookup, insert, lookup-insert}
use offchain_service.Base.Numbers.{Numbers}
use offchain_service.Ledger.Entry.{JournalEntry}
use offchain_service.Ledger.Balances.{
  Balance, post, add_journal_entry, new_builder, put_balance, or_new,
}
use offchain_service.Ledger.Sync.{
  LedgerRows, SyncPorts, fetch_balance, build_new, validate, checksum,
}

module _ {F : Type 0} where
  -- The row that is fetched is the account's.
  pub fetch_balance_account :
      (account : Text) (rows : List (Balance F)) {b : Balance F}
      → fetch_balance account rows ≡ some b
      → b.account ≡ account
  unfolding fetch_balance
  fetch_balance_account account [] h = ground arith
  fetch_balance_account account (r ∷ rows) h = elim (Bool-cases (text_eq r.account account)) [
    | inl e ↦ ground (arith, text_eq_iff r.account account)
    | inr e ↦ fetch_balance_account account rows (rw e at h)
  ]

module _ (n : Numbers) (ports : SyncPorts n) where
  open n use {F}
  open ports use {ethers, clock}

  lookup-put_balance :
      (t : Text) (b : Balance F) → t ≢ [] → lookup t (put_balance n ethers t b []) ≡ some b
  lookup-put_balance [] b ne = absurd (ne refl)
  lookup-put_balance (k ∷ ks) b ne = rw (text_eq_refl (k ∷ ks)) refl

  -- The builder holds the fetched balance, unless its account is the empty text.
  lookup-new_builder :
      (account : Text) (rows : List (Balance F)) (o : Option (Balance F))
      → account ≢ []
      → fetch_balance account rows ≡ o
      → lookup account (new_builder n ethers (o ∷ []) []) ≡ o
  unfolding new_builder
  lookup-new_builder account rows none ne h = refl
  lookup-new_builder account rows (some b) ne h =
      let same : account ≡ b.account = sym (fetch_balance_account account rows h) in
      subst (λ t. lookup account (put_balance n ethers t b []) ≡ some b) same
        (lookup-put_balance account b ne)

  -- The balance that a round saves is the posted one, with a checksum, and the entry has its status.
  pub record Builds (rows : LedgerRows F) (e : JournalEntry F) (b : Balance F) (x : JournalEntry F)
      : Type 0 where
    pub before : Balance F
    pub sum : Text
    pub posted :
        post n ethers e (or_new n ethers e (fetch_balance e.account rows.balances)) ≡ ok before
    pub balance : b ≡ record before { checksum = sum }
    pub entry : x ≡ record e { entry_type = before.status }

  abbrev pair : JournalEntry F → Balance F → Text → Balance F × JournalEntry F
  pair e c sum = (record c { checksum = sum }, record e { entry_type = c.status })

  signed :
      (rows : LedgerRows F) (e : JournalEntry F) (c : Balance F) {b : Balance F}
      {x : JournalEntry F}
      → post n ethers e (or_new n ethers e (fetch_balance e.account rows.balances)) ≡ ok c
      → (checksum n ports (clock e) c >>= λ sum. ok (pair e c sum)) ≡ ok (b, x)
      → Builds rows e b x
  signed rows e c p h =
      let (sum, _, f) = bind-ok (checksum n ports (clock e) c) (λ sum. ok (pair e c sum)) h in
      let same = sym (ok_injective f) in
      record {
        before = c;
        sum = sum;
        posted = p;
        balance = ap (λ (y : Balance F × JournalEntry F). y.0) same;
        entry = ap (λ (y : Balance F × JournalEntry F). y.1) same;
      }

  add_journal_entry-ok :
      (e : JournalEntry F) (d : Dict (Balance F)) {built : Dict (Balance F)}
      → add_journal_entry n ethers e d ≡ ok built
      → (b : Balance F) × (post n ethers e (or_new n ethers e (lookup e.account d)) ≡ ok b)
        × (lookup e.account built ≡ some b)
  unfolding add_journal_entry
  add_journal_entry-ok e d h =
      let (b, p, f) =
        bind-ok (post n ethers e (or_new n ethers e (lookup e.account d)))
          (λ b. ok (insert e.account b d)) h in
      let inserted : lookup e.account (insert e.account b d) ≡ some b =
        rw (lookup-insert, text_eq_refl e.account) refl in
      (b, p, ap (lookup e.account) (sym (ok_injective f)) ∙ inserted)

  pub build_new-Builds :
      (rows : LedgerRows F) (e : JournalEntry F) {b : Balance F} {x : JournalEntry F}
      → e.account ≢ []
      → build_new n ports rows e ≡ ok (b, x)
      → Builds rows e b x
  unfolding build_new
  build_new-Builds rows e ne h =
      let o = fetch_balance e.account rows.balances in
      let d = new_builder n ethers (o ∷ []) [] in
      let (_, h1) = then-ok (validate n ports o) _ h in
      let (built, h2, h3) = bind-ok (add_journal_entry n ethers e d) _ h1 in
      let (b, p, f) = add_journal_entry-ok e d h2 in
      let q = lookup-new_builder e.account rows.balances o ne refl in
      signed rows e b (subst (λ x. post n ethers e (or_new n ethers e x) ≡ ok b) q p) (rw f at h3)
