-- ===== src/Badges/Signatures/Laws.antt =====
-- What a signature rests on.
use offchain_service.Base.{
  ℕ, ◌<◌, ◌≤◌, ◌≡◌, inl, inr, refl, ap, true, Option, none, some, is_some, List, ◌∷◌, ◌==◌, ◌&&◌,
  text_eq, text_eq_refl, arith,
}
use offchain_service.Base.Lists.{IsOneOf, IsOneOf-keep_intro, IsOneOf-keep_elim}
use offchain_service.Badges.{
  MintHistory, MintRequest, BadgePorts, number_or_zero, is_row_of, unexpired, held_date,
  verification,
}
use offchain_service.Badges.Laws.{HasLast, own_rows}
use offchain_service.Badges.Signatures.{signed_row, due_or_new}

module _ (ports : BadgePorts) (r : MintRequest) where
  open ports use {environment, now, sign, order_by_due}

  -- The date is in the future, and no row of the wallet and the badge is due later.
  abbrev pub IsLatest : ℕ → List MintHistory → Type 0
  IsLatest due rows =
      (now < due)
      × ((m : MintHistory) → IsOneOf m (own_rows ports r rows) → number_or_zero m.due_date ≤ due)

  pub due_or_new-IsLatest :
      (amount : Option ℕ) (last : Option MintHistory) (rows : List MintHistory)
      → HasLast (own_rows ports r rows) last
      → IsLatest (due_or_new ports (verification ports r amount last).due_date) rows
  unfolding verification
  due_or_new-IsLatest amount none rows nothing = (ground arith, λ m i. elim (nothing m i) [ ])
  due_or_new-IsLatest amount (some l) rows (_, latest) =
      (after l.due_date, λ m i. let h = latest m i in let k = at_most l.due_date in omega arith)
    where
      after : (d : Option ℕ) → now < due_or_new ports (held_date ports (unexpired ports d))
      after none = ground arith
      after (some d) = ground arith

      at_most :
          (d : Option ℕ) → number_or_zero d ≤ due_or_new ports (held_date ports (unexpired ports d))
      at_most none = ground arith
      at_most (some d) = ground arith

  pub own_row :
      (due : ℕ) → is_row_of r.crypto_wallet r.reference_metadata_id (signed_row r due) ≡ true
  unfolding signed_row
  own_row due = rw text_eq_refl (ground arith)

  -- A row that says until when and for which chain a signature holds.
  abbrev pub IsRow : ℕ → List MintHistory → MintHistory → Type 0
  IsRow due rows m =
      IsOneOf m rows
      × (is_row_of r.crypto_wallet r.reference_metadata_id m ≡ true)
      × (m.due_date ≡ some due)

  due_of-row :
      (m : MintHistory) (due : ℕ)
      → is_row_of r.crypto_wallet r.reference_metadata_id m ≡ true
      → number_or_zero m.due_date ≡ due
      → m.due_date ≡ some due
  due_of-row m due own e = by_date m.due_date own e
    where
      by_date :
          (d : Option ℕ)
          → (text_eq m.crypto_wallet r.crypto_wallet
              && (m.reference_metadata_id == r.reference_metadata_id)
              && is_some d)
            ≡ true
          → number_or_zero d ≡ due
          → d ≡ some due
      by_date none h e = ground arith
      by_date (some d) h e = ap some e

  -- The last row, once the row of a new signature is stored.
  pub stored-IsRow :
      (due : ℕ) (rows : List MintHistory) (last : Option MintHistory)
      → IsLatest due rows
      → HasLast (own_rows ports r (signed_row r due ∷ rows)) last
      → (m : MintHistory) × (last ≡ some m) × IsRow due (signed_row r due ∷ rows) m
  unfolding signed_row
  stored-IsRow due rows none latest nothing =
      elim (nothing (signed_row r due) (
        IsOneOf-keep_intro (is_row_of r.crypto_wallet r.reference_metadata_id) (signed_row r due)
          (signed_row r due ∷ rows) (inl refl) (own_row due))) [ ]
  stored-IsRow due rows (some m) (_, latest) (i, greatest) =
      let own = is_row_of r.crypto_wallet r.reference_metadata_id in
      let (j, is_own) = IsOneOf-keep_elim own m (signed_row r due ∷ rows) i in
      let least = greatest (signed_row r due) (
        IsOneOf-keep_intro own (signed_row r due) (signed_row r due ∷ rows) (inl refl)
          (own_row due)) in
      let most = at_most m j is_own in (m, refl, (j, is_own, due_of-row m due is_own (omega arith)))
    where
      at_most :
          (m : MintHistory)
          → IsOneOf m (signed_row r due ∷ rows)
          → is_row_of r.crypto_wallet r.reference_metadata_id m ≡ true
          → number_or_zero m.due_date ≤ due
      at_most m (inl same) own =
          let e = ap (λ (x : MintHistory). number_or_zero x.due_date) same in omega arith
      at_most m (inr k) own =
          latest m
            (IsOneOf-keep_intro (is_row_of r.crypto_wallet r.reference_metadata_id) m rows k own)
