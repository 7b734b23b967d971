-- ===== src/Supply/Claiming/Challenges.antt =====
-- src/domain/supply/entities/{challenge,answer}.entity.ts, and the tables `challenge` and `answer`,
-- by the adapters under src/infrastructure/repositories/offchain/supply.
pub mod Active
use offchain_service.Base.{
  ℕ, ◌+◌, Bool, true, false, ◌&&◌, Option, none, some, List, [], ◌∷◌, ◌++◌, map, if◌then◌else◌,
  Text, text_eq, Result, ok, err,
}
use offchain_service.Base.Results.{database_failed}
use offchain_service.Clearing.Database.{Tables}
use offchain_service.Supply.Claiming.{Attempts}

-- `ChallengeProps`, with the number that the table gives.
pub record Challenge : Type 0 where
  pub id : ℕ
  pub identifier_order_id : Text
  pub client_ip : Text
  pub client_agent : Text
  pub verification_hash : Text
  pub deactivation_hash : Text
  pub deactivated_at : Option ℕ
  pub expires_at : ℕ
  pub created_at : ℕ

-- `AnswerProps`, with the number that the table gives.
pub record Answer : Type 0 where
  pub id : ℕ
  pub identifier_order_id : Text
  pub client_ip : Text
  pub client_agent : Text
  pub verification_hash : Text
  pub challenge_id : ℕ
  pub created_at : ℕ

-- A mail with a one-time code.
pub record Mail : Type 0 where
  pub to : Text
  pub one_time_password : Text

-- The database, the tables of attempts and bans, and the mails that were sent.
pub record Claims (F : Type 0) : Type 0 where
  pub attempts : Attempts
  pub challenges : List Challenge
  pub answers : List Answer
  pub next_challenge : ℕ
  pub next_answer : ℕ
  pub tables : Tables F
  pub mails : List Mail

abbrev pub is_none {ℓ} : {A : Type ℓ} → Option A → Bool
is_none none = true
is_none (some _) = false

-- A challenge that is active under a deactivation hash.
abbrev pub is_active : Text → Challenge → Bool
is_active hash c = is_none c.deactivated_at && text_eq c.deactivation_hash hash

abbrev pub deactivate_row : ℕ → Text → Challenge → Challenge
deactivate_row now hash c = if is_active hash c then record c { deactivated_at = some now } else c

-- The first row with the hash that is not deactivated.
abbrev pub find_challenge : Text → List Challenge → Option Challenge
find_challenge hash [] = none
find_challenge hash (c ∷ cs) =
    let rest = find_challenge hash cs in
    if text_eq c.verification_hash hash && is_none c.deactivated_at then some c else rest

module _ {F : Type 0} where
  abbrev pub called : Claims F → Claims F
  called w = record w { tables = record w.tables { calls = w.tables.calls + 1 } }

module _ {F : Type 0} (up : ℕ → Bool) (now : ℕ) where
  -- `PersistableChallengePort.deactivate`
  unfoldable pub deactivate : Text → Claims F → Claims F × Result (Unit {0})
  deactivate hash w =
      if up w.tables.calls
      then (record (called w) { challenges = map (deactivate_row now hash) w.challenges }, ok tt)
      else (called w, err database_failed)

  -- `PersistableChallengePort.create`
  unfoldable pub create_challenge : Challenge → Claims F → Claims F × Result Challenge
  create_challenge c w =
      if up w.tables.calls
      then (
        record (called w) {
          challenges = w.challenges ++ record c { id = w.next_challenge } ∷ [];
          next_challenge = w.next_challenge + 1;
        },
        ok (record c { id = w.next_challenge }),
      )
      else (called w, err database_failed)

  -- `PersistableAnswerPort.create`
  unfoldable pub create_answer : Answer → Claims F → Claims F × Result Answer
  create_answer a w =
      if up w.tables.calls
      then (
        record (called w) {
          answers = w.answers ++ record a { id = w.next_answer } ∷ [];
          next_answer = w.next_answer + 1;
        },
        ok (record a { id = w.next_answer }),
      )
      else (called w, err database_failed)

  -- `FetchableChallengePort.fetch`; an empty hash is not looked for.
  unfoldable pub fetch_challenge : Text → Claims F → Claims F × Result (Option Challenge)
  fetch_challenge [] w = (w, ok none)
  fetch_challenge (c ∷ hash) w =
      if up w.tables.calls
      then (called w, ok (find_challenge (c ∷ hash) w.challenges))
      else (called w, err database_failed)
