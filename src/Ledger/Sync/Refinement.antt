-- ===== src/Ledger/Sync/Refinement.antt =====
-- The loop of `syncBalances` against a ledger that is only a total for each account.
use offchain_service.Base.{
  ℕ, ◌+◌, ◌≡◌, refl, sym, ap, subst, ◌∙◌, Option, none, some, List, [], ◌∷◌, ◌++◌, All,
  if◌then◌else◌, Text, text_eq, text_eq_iff, Error, Result, ok, err, ◌⊎◌, inl, inr, arith,
}
use mathlib.Core.List.{append-nil, append_assoc}
use offchain_service.Base.Numbers.{Numbers}
use offchain_service.Price.Calculus.{IsExact}
use offchain_service.Ledger.Entry.{AccountGroup, JournalEntry}
use offchain_service.Ledger.Balances.{Balance, new_balance, post, or_new}
use offchain_service.Ledger.Balances.Posting.{received, paid, Posts, post-Posts}
use offchain_service.Ledger.Balances.Totals.{held, held-or_new}
use offchain_service.Ledger.Sync.{
  LedgerRows, SyncPorts, fetch_balance, upsert, with_balance, sync_new, sync_balances,
}
use offchain_service.Ledger.Sync.Journal.{saved_rows, sync_new-ok, sync_new-err}
use offchain_service.Ledger.Sync.Posted.{fetch_balance_account, Builds, build_new-Builds}
use offchain_service.Ledger.Sync.Grouped.{
  IsRegular, InGroups, fetch_balance-upsert, upsert-InGroups,
}
use offchain_service.Ledger.Sync.Replay.{rounds}

module _ {F : Type 0} where
  -- The abstract ledger: the exact total of each account.
  abbrev pub total_of : LedgerRows F → Text → ℕ
  total_of rows account = held (fetch_balance account rows.balances)

  -- What the entries give an account, and what they take from it.
  abbrev pub received_by : Text → List (JournalEntry F) → ℕ
  received_by account [] = 0
  received_by account (e ∷ es) =
      let rest = received_by account es in
      if text_eq e.account account then received e + rest else rest

  abbrev pub paid_by : Text → List (JournalEntry F) → ℕ
  paid_by account [] = 0
  paid_by account (e ∷ es) =
      let rest = paid_by account es in if text_eq e.account account then paid e + rest else rest

  -- The journal has grown by some entries, and every account has moved by them, and by one more
  -- entry where the loop was stopped between the two statements of its save.
  pub record Refines (rows : LedgerRows F) (out : LedgerRows F × Result ℕ) : Type 0 where
    pub entries : List (JournalEntry F)
    pub lost : List (JournalEntry F)
    pub appended : out.0.journal ≡ rows.journal ++ entries
    pub moved :
        (account : Text)
        → total_of out.0 account + paid_by account (entries ++ lost)
          ≡ total_of rows account + received_by account (entries ++ lost)
    pub end : (lost ≡ []) ⊎ ((e : JournalEntry F) × (k : Error) × (lost ≡ e ∷ []) × (out.1 ≡ err k))

  Refines-refl : (rows : LedgerRows F) (r : Result ℕ) → Refines rows (rows, r)
  Refines-refl rows r = record {
    entries = [];
    lost = [];
    appended = sym (append-nil rows.journal);
    moved = λ account. refl;
    end = inl refl;
  }

  -- One entry moves the totals of the rows to those of a table of balances.
  abbrev MovesBy : LedgerRows F → List (Balance F) → JournalEntry F → Type 0
  MovesBy rows balances x =
      (account : Text)
      → held (fetch_balance account balances) + paid_by account (x ∷ [])
        ≡ total_of rows account + received_by account (x ∷ [])

  Refines-saved :
      (b : Balance F) (x : JournalEntry F) (rows : LedgerRows F) (out : LedgerRows F × Result ℕ)
      → MovesBy rows (upsert b rows.balances) x
      → Refines (saved_rows b x rows) out
      → Refines rows out
  Refines-saved b x rows out m q = record {
    entries = x ∷ q.entries;
    lost = q.lost;
    appended = q.appended ∙ append_assoc rows.journal (x ∷ []) q.entries;
    moved = λ a. ground (arith, m a, q.moved a);
    end = q.end;
  }

  Refines-lost :
      (b : Balance F) (x : JournalEntry F) (rows : LedgerRows F) (k : Error)
      → MovesBy rows (upsert b rows.balances) x
      → Refines rows (with_balance b rows, err k)
  Refines-lost b x rows k m = record {
    entries = [];
    lost = x ∷ [];
    appended = sym (append-nil rows.journal);
    moved = m;
    end = inr (x, k, refl, refl);
  }

module _ (n : Numbers) (ports : SyncPorts n) (exact : IsExact ports.ethers)
    (group_of : Text → AccountGroup) where
  open n use {F}
  open ports use {ethers}

  or_new_account :
      (e : JournalEntry F) (rows : List (Balance F))
      → (or_new n ethers e (fetch_balance e.account rows)).account ≡ e.account
  or_new_account e rows = by_row (fetch_balance e.account rows) refl
    where
      by_row :
          (o : Option (Balance F))
          → fetch_balance e.account rows ≡ o
          → (or_new n ethers e o).account ≡ e.account
      by_row none h = unfold new_balance in refl
      by_row (some b) h = fetch_balance_account e.account rows h

  -- The balance that a round stores is the account's, in its group, with the new total.
  stored :
      (rows : LedgerRows F) (e : JournalEntry F) (b : Balance F)
      → IsRegular group_of e
      → post n ethers e (or_new n ethers e (fetch_balance e.account rows.balances)) ≡ ok b
      → (b.account ≡ e.account)
        × (b.group ≡ group_of b.account)
        × (b.uint256total + paid e ≡ total_of rows e.account + received e)
  stored rows e b (ne, g) p =
      let o = or_new n ethers e (fetch_balance e.account rows.balances) in
      let (t, _, a, h, _) = subst (Posts e o) p (post-Posts n ethers exact e o) in
      let same : b.account ≡ e.account = a ∙ or_new_account e rows.balances in
      (
        same,
        h ∙ g ∙ ap group_of (sym same),
        omega (arith, t, held-or_new n ethers e (fetch_balance e.account rows.balances)),
      )

  Builds-MovesBy :
      (rows : LedgerRows F) (e : JournalEntry F) (b : Balance F) (x : JournalEntry F)
      → IsRegular group_of e
      → InGroups group_of rows.balances
      → Builds n ports rows e b x
      → MovesBy rows (upsert b rows.balances) x × InGroups group_of (upsert b rows.balances)
  Builds-MovesBy rows e b x reg h s =
      let (a, g, t) = stored rows e s.before reg s.posted in
      let signed : Balance F = record s.before { checksum = s.sum } in
      rw (s.balance, s.entry)
        (
          λ y. rw (fetch_balance-upsert group_of y signed rows.balances h g) (
              ground (
                arith,
                a,
                t,
                text_eq_iff e.account y,
                text_eq_iff s.before.account y,
                text_eq_iff y e.account,
              )),
          upsert-InGroups group_of signed rows.balances h g,
        )

  -- A round that ends well, and one that does not.
  round_saved :
      (rows rows' : LedgerRows F) (e : JournalEntry F)
      → IsRegular group_of e
      → InGroups group_of rows.balances
      → sync_new n ports rows e ≡ (rows', ok tt)
      → ((out : LedgerRows F × Result ℕ) → Refines rows' out → Refines rows out)
        × InGroups group_of rows'.balances
  round_saved rows rows' e reg h s =
      let (b, x, built, saved) = sync_new-ok n ports rows e s in
      let (m, g) = Builds-MovesBy rows e b x reg h (build_new-Builds n ports rows e reg.0 built) in
      (
        λ out q. Refines-saved b x rows out m (subst (λ r. Refines r out) saved q),
        subst (λ (r : LedgerRows F). InGroups group_of r.balances) (sym saved) g,
      )

  round_failed :
      (rows rows' : LedgerRows F) (e : JournalEntry F) (k : Error)
      → IsRegular group_of e
      → InGroups group_of rows.balances
      → sync_new n ports rows e ≡ (rows', err k)
      → Refines rows (rows', err k)
  round_failed rows rows' e k reg h s = elim (sync_new-err n ports rows e s) [
    | inl same ↦ subst (λ r. Refines rows (r, err k)) (sym same) (Refines-refl rows (err k))
    | inr (b, x, built, lost) ↦
        let (m, _) =
          Builds-MovesBy rows e b x reg h (build_new-Builds n ports rows e reg.0 built) in
        subst (λ r. Refines rows (r, err k)) (sym lost) (Refines-lost b x rows k m)
  ]

  -- Where each entry names an account and carries that account's group, and each row of `balance`
  -- is in its account's group, the loop implements the abstract ledger, however it ends and
  -- whatever the database answers to the two statements of each save: it appends some entries to
  -- the journal, and the stored total of every account moves by what these entries give it and take
  -- from it; where an error has stopped the loop, it may also have moved by one entry more that is
  -- not in the journal.
  pub sync_balances-Refines :
      (c : ℕ) (es : List (JournalEntry F)) (rows : LedgerRows F)
      → All (IsRegular group_of) es
      → InGroups group_of rows.balances
      → Refines rows (sync_balances n ports c es rows)
  sync_balances-Refines =
      rounds n ports
        (λ c es rows out.
          All (IsRegular group_of) es → InGroups group_of rows.balances → Refines rows out)
        (λ c rows a h. Refines-refl rows (ok c)) (λ c e es rows k ih a h. ih a.1 h)
        (λ c e es rows rows' k s ih a h.
          let (after, h') = round_saved rows rows' e a.0 h s in after _ (ih a.1 h'))
        (λ c e es rows rows' k s a h. round_failed rows rows' e k a.0 h s)
