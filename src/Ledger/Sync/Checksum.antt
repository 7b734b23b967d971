-- ===== src/Ledger/Sync/Checksum.antt =====
-- The checksum of a balance and its validation.
use offchain_service.Base.{
  ℕ, ◌≡◌, ◌≢◌, refl, ◌∙◌, some, ◌∷◌, Text, text_eq_iff, text_eq_refl, ok, arith,
}
use offchain_service.Base.Numbers.{Numbers, IsPrinting}
use offchain_service.Base.Texts.{IsFree, split, join, split-join}
use offchain_service.Ledger.Balances.{Balance}
use offchain_service.Ledger.Sync.{
  Encryption, SyncPorts, security_tuple, checksum, validate, validate_parts,
}

-- Decrypting with the same vector and secret gives back what was encrypted.
abbrev pub RoundTrips : Encryption → Type 0
RoundTrips c =
    (content iv secret cipher : Text)
    → c.encrypt content iv secret ≡ ok cipher
    → c.decrypt cipher iv secret ≡ ok content

module _ (n : Numbers) (ports : SyncPorts n) (printing : IsPrinting n b'|')
    (trip : RoundTrips ports.encryption) where
  open n use {F, show, show_ℕ}
  open printing use {
    read-show, read-show_ℕ, show-IsFree, show_ℕ-IsFree, eq-of_ℕ, lt-add_one, lt-sub_one,
  }

  validate_parts-signed :
      (time : Text) (b : Balance F)
      → validate_parts n ports (time ∷ security_tuple n ports b) b ≡ ok tt
  unfolding validate_parts security_tuple
  validate_parts-signed time b =
      grind (arith, text_eq_refl, read-show, read-show_ℕ, eq-of_ℕ, lt-add_one, lt-sub_one)

  security_tuple-split :
      (time : ℕ) (b : Balance F)
      → IsFree b'|' b.account
      → split b'|' (join b'|' (show_ℕ time) (security_tuple n ports b))
        ≡ show_ℕ time ∷ security_tuple n ports b
  unfolding security_tuple
  security_tuple-split time b free = split-join b'|' (show_ℕ time) _ (show_ℕ-IsFree time) (
    free,
    (
      show-IsFree b.total,
      (
        show-IsFree b.l1_total,
        (show-IsFree b.l2_total, (show_ℕ-IsFree b.uint256total, (show_ℕ-IsFree b.nonce, tt))),
      ),
    ),
  )

  -- What `validate` compares: the signed balance with the stored one.
  validate_lem :
      (time : ℕ) (signed stored : Balance F)
      → IsFree b'|' signed.account
      → stored.account ≡ signed.account
      → checksum n ports time signed ≡ ok stored.checksum
      → validate n ports (some stored)
        ≡ validate_parts n ports (show_ℕ time ∷ security_tuple n ports signed) stored
  unfolding validate checksum
  validate_lem time signed stored free same h =
      rw (same, trip _ _ _ _ h, security_tuple-split time signed free)

  -- A balance that carries its own checksum is accepted: where the cipher gives back what it took,
  -- numbers print and read back, and the account's text has no `|`.
  pub validate-checksum :
      (time : ℕ) (b : Balance F) (sum : Text)
      → IsFree b'|' b.account
      → checksum n ports time b ≡ ok sum
      → validate n ports (some (record b { checksum = sum })) ≡ ok tt
  unfolding security_tuple validate_parts
  validate-checksum time b sum free h =
      validate_lem time b (record b { checksum = sum }) free refl h
      ∙ validate_parts-signed (show_ℕ time) b

  -- A row that carries the checksum of a balance of the same account, but whose exact total is
  -- printed otherwise than the signed one, is refused: under the same conditions on the cipher, the
  -- numbers and the account.
  pub validate-tampered :
      (time : ℕ) (signed stored : Balance F)
      → IsFree b'|' signed.account
      → stored.account ≡ signed.account
      → checksum n ports time signed ≡ ok stored.checksum
      → show_ℕ stored.uint256total ≢ show_ℕ signed.uint256total
      → validate n ports (some stored) ≢ ok tt
  unfolding validate_parts security_tuple
  validate-tampered time signed stored free same h tampered accepted = ground (
    arith,
    validate_lem time signed stored free same h,
    text_eq_iff (show_ℕ signed.uint256total) (show_ℕ stored.uint256total),
  )
