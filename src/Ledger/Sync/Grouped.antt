-- ===== src/Ledger/Sync/Grouped.antt =====
-- The table `balance` with each row in its account's group.
use offchain_service.Base.{
  ◌==◌, ◌≡◌, ◌≢◌, refl, sym, ap, ◌∙◌, true, ◌&&◌, some, List, [], ◌∷◌, All, if◌then◌else◌, Text,
  text_eq, text_eq_iff, Bool-cases, inl, inr, arith,
}
use offchain_service.Ledger.Entry.{AccountGroup, JournalEntry}
use offchain_service.Ledger.Balances.{Balance}
use offchain_service.Ledger.Sync.{fetch_balance, upsert, group_id}

module _ {F : Type 0} (group_of : Text → AccountGroup) where
  -- The entry names an account, and carries the account's group.
  abbrev pub IsRegular : JournalEntry F → Type 0
  IsRegular e = (e.account ≢ []) × (e.account_group ≡ group_of e.account)

  -- Every row carries its account's group.
  abbrev pub InGroups : List (Balance F) → Type 0
  InGroups = All (λ b. b.group ≡ group_of b.account)

  same_group :
      (r b : Balance F)
      → r.group ≡ group_of r.account
      → b.group ≡ group_of b.account
      → text_eq r.account b.account ≡ true
      → (group_id r.group == group_id b.group) ≡ true
  same_group r b h k e =
      let same : r.account ≡ b.account = (text_eq_iff r.account b.account).0 e in
      let groups : r.group ≡ b.group = h ∙ ap group_of same ∙ sym k in rw groups (ground arith)

  pub fetch_balance-upsert :
      (a : Text) (b : Balance F) (rows : List (Balance F))
      → InGroups rows
      → b.group ≡ group_of b.account
      → fetch_balance a (upsert b rows)
        ≡ (if text_eq b.account a then some b else fetch_balance a rows)
  unfolding fetch_balance upsert
  fetch_balance-upsert a b [] h k = refl
  fetch_balance-upsert a b (r ∷ rows) (g, h) k = elim (Bool-cases (text_eq r.account b.account)) [
    | inl e ↦
        let s = same_group r b g k e in
        let q : r.account ≡ b.account = (text_eq_iff r.account b.account).0 e in
        rw (e, s, q) (ground arith)
    | inr e ↦ rw e (
        ground (
          arith,
          e,
          text_eq_iff r.account a,
          text_eq_iff b.account a,
          text_eq_iff r.account b.account,
          fetch_balance-upsert a b rows h k,
        ))
  ]

  pub upsert-InGroups :
      (b : Balance F) (rows : List (Balance F))
      → InGroups rows
      → b.group ≡ group_of b.account
      → InGroups (upsert b rows)
  unfolding upsert
  upsert-InGroups b [] h k = (k, tt)
  upsert-InGroups b (r ∷ rows) (g, h) k =
      elim (Bool-cases (text_eq r.account b.account && group_id r.group == group_id b.group)) [
        | inl e ↦ rw e (k, h)
        | inr e ↦ rw e (g, upsert-InGroups b rows h k)
      ]
