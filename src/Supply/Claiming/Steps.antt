-- ===== src/Supply/Claiming/Steps.antt =====
-- src/domain/supply/usecases/claim-locked-supply.usecase.ts: the steps that `executeChallenge` and
-- `validateAnswer` share.
use offchain_service.Base.{
  ℕ, ◌+◌, ltb, Bool, Option, List, [], ◌∷◌, ◌++◌, if◌then◌else◌, Text, codes, Result, ok, err,
}
use offchain_service.Base.Dict.{Dict, lookup}
use offchain_service.Base.Results.{database_failed, and_then}
use offchain_service.Base.Numbers.{Numbers}
use offchain_service.Order.{Order, OrderStatus, set_status}
use offchain_service.Clearing.Database.{Tables, Reason, create_transition}
use offchain_service.Ledger.Sync.{Encryption}
use offchain_service.Supply.Claiming.{
  Entry, ip_ban_threshold, attempts_of, report_failure, to_lower_case, filter_by_email,
}
use offchain_service.Supply.Claiming.Challenges.{Claims, called, deactivate}

-- What the use case is given: the database's answers, the clock, the orders by their status, the
-- hash, the secrets, the cipher, a fresh one-time code, the mail, the signature of a claim and its
-- trial on the chain.
pub record ClaimPorts (F : Type 0) : Type 0 where
  pub up : ℕ → Bool
  pub now : ℕ
  pub fetch_locked : List OrderStatus → Tables F → Dict (Order F)
  pub hash : Text → Text
  pub identity_secret : Text
  pub cipher : Encryption
  pub cbc_key : Text
  pub one_time_password : Text
  pub is_mailed : Bool
  pub delegate_claim_locked : Entry → Order F → Result (Option Text)
  pub estimate_claim_locked : Entry → Order F → Text → Result (Unit {0})

module _ (n : Numbers) (ports : ClaimPorts n.F) where
  open n use {F}
  open ports use {up, now}

  -- `generateVerificationHash` and `generateDeactivationHash`
  unfoldable pub generate_verification_hash : Text → Text → Text
  generate_verification_hash address code =
      ports.hash (codes "v=" ++ address ++ b':' ∷ code ++ b':' ∷ ports.identity_secret)

  unfoldable pub generate_deactivation_hash : Text → Text
  generate_deactivation_hash address =
      ports.hash (codes "d=" ++ address ++ b':' ∷ ports.identity_secret)

  -- `reportFailure`, whose promise no one awaits: a ban also deactivates the challenges.
  unfoldable pub report : Entry → Claims F → Claims F
  report e w =
      let w' = record w { attempts = report_failure generate_deactivation_hash e w.attempts } in
      let (w'', _) =
        deactivate up now (generate_deactivation_hash (to_lower_case e.email_address)) w' in
      if ltb ip_ban_threshold (attempts_of (lookup e.client_ip w.attempts.errors) + 1)
      then w''
      else w'

  -- `FetchableOrderPort.fetchLockedAndNotClaimedInStatus`
  abbrev pub fetch_orders : List OrderStatus → Claims F → Claims F × Result (Dict (Order F))
  fetch_orders statuses w =
      if up w.tables.calls
      then (called w, ok (ports.fetch_locked statuses w.tables))
      else (called w, err database_failed)

  -- `filterByEmail`; no order passes it if there is none.
  abbrev pub filter_orders : Text → Dict (Order F) → Claims F → Claims F × Result (List (Order F))
  filter_orders address orders w = (w, filter_by_email n ports.cipher ports.cbc_key address orders)

  -- `createOrderTransitionInteractor.execute`
  abbrev pub transition : Reason → Order F → Claims F → Claims F × Result (Unit {0})
  transition reason o w =
      let (t, r) = create_transition up o reason w.tables in (record w { tables = t }, r)

  -- The loop that sets the status of the orders and stores it.
  unfoldable pub set_statuses :
      OrderStatus → Reason → List (Order F) → Claims F → Claims F × Result (Unit {0})
  set_statuses st reason [] w = (w, ok tt)
  set_statuses st reason (o ∷ os) w =
      and_then (transition reason (set_status st o) w) (λ _. set_statuses st reason os)
