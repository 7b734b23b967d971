-- ===== src/Identity/Fingerprints.antt =====
-- src/domain/upstream-domains/identity/authentication/usecases/generate-auth-token.usecase.ts,
-- `resolveRoles`: which of the roles in the database have a fingerprint that the service computes.
pub mod Laws
use offchain_service.Base.{
  ℕ, ltb, Bool, false, Option, none, some, List, [], ◌∷◌, any, if◌then◌else◌, Text, codes, text_eq,
  Result, ok, err, ◌>>=◌,
}
use offchain_service.Base.Lists.{keep}
use offchain_service.Base.Texts.{join}
use offchain_service.Base.Results.{reference_error}
use offchain_service.Ledger.Sync.{Encryption}

-- `Role`
pub record Role : Type 0 where
  pub id : Text
  pub fingerprint : Text
  pub user_identifier : Text
  pub transaction_hash : Text
  pub block_number : ℕ
  pub chain_id : ℕ
  pub role_type : Text
  pub source_address : Text
  pub event_type : Text
  pub expires_at : Option ℕ

abbrev pub is_expired_at : ℕ → Option ℕ → Bool
is_expired_at now none = false
is_expired_at now (some t) = ltb t now

-- The filter by expiry. For an expired role it writes a log line that reads `filteredRoles`, the
-- constant that the filter is to define, and such a read throws. The rows are roles, never null.
abbrev pub filter_roles : ℕ → List Role → Result (List Role)
filter_roles now [] = ok []
filter_roles now (r ∷ rs) =
    let rest = (filter_roles now rs >>= λ kept. ok (r ∷ kept)) in
    if is_expired_at now r.expires_at then err reference_error else rest

-- What `resolveRoles` runs with: `String` on a number, the cipher and its key.
pub record FingerprintPorts : Type 0 where
  pub show_ℕ : ℕ → Text
  pub cipher : Encryption
  pub cbc_key : Text

module _ (ports : FingerprintPorts) where
  open ports use {show_ℕ, cipher, cbc_key}

  -- The fingerprint that is expected of a role.
  unfoldable pub expected_fingerprint : Role → Result Text
  expected_fingerprint r =
      cipher.encrypt
        (join b'|' r.user_identifier
          (show_ℕ r.chain_id ∷ r.transaction_hash ∷ r.source_address ∷ r.event_type ∷ []))
        r.transaction_hash cbc_key

  -- `Promise.all(expectedFingerprints)`
  abbrev pub expected_fingerprints : List Role → Result (List Text)
  expected_fingerprints [] = ok []
  expected_fingerprints (r ∷ rs) = do
    f ← expected_fingerprint r
    fs ← expected_fingerprints rs
    ok (f ∷ fs)

  -- The roles with a fingerprint of the set.
  abbrev pub validated : List Role → List Text → List Role
  validated roles fs = keep (λ r. any (text_eq r.fingerprint) fs) roles

  -- `resolveRoles` from the filtered roles on.
  abbrev pub resolve_filtered : List Role → Result (List Role)
  resolve_filtered [] = ok []
  resolve_filtered (r ∷ rs) = do fs ← expected_fingerprints (r ∷ rs); ok (validated (r ∷ rs) fs)

  -- `resolveRoles` from the fetched roles on.
  abbrev pub resolve_fetched : ℕ → Option (List Role) → Result (List Role)
  resolve_fetched now none = ok []
  resolve_fetched now (some fetched) = do
    filtered ← filter_roles now fetched
    resolve_filtered filtered

  -- `resolveRoles`
  unfoldable pub resolve_roles :
      (Text → ℕ → Option (List Text) → Result (Option (List Role)))
      → ℕ
      → Text
      → ℕ
      → Option (List Text)
      → Result (List Role)
  unfolding expected_fingerprint
  resolve_roles fetch now identifier chain_id scopes =
      fetch identifier chain_id scopes >>= resolve_fetched now
