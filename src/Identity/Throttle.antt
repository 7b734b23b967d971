-- ===== src/Identity/Throttle.antt =====
-- src/domain/upstream-domains/identity/authentication/usecases/generate-auth-token.usecase.ts: the
-- failures and bans by address, which the use case keeps between requests. Each change of them has
-- no await within, so requests that overlap change them one after the other.
pub mod Laws
use offchain_service.Base.{
  ℕ, ◌+◌, ◌-◌, ◌*◌, leb, ltb, Bool, false, Option, none, some, [], if◌then◌else◌, Text,
}
use offchain_service.Base.Dict.{Dict, lookup, insert}

-- An entry of `ipRetryCount`.
pub record Failures : Type 0 where
  pub count : ℕ
  pub last_failure : ℕ

-- `bannedIPs` and `ipRetryCount`
pub record Throttle : Type 0 where
  pub banned : Dict ℕ
  pub retries : Dict Failures

abbrev pub unused : Throttle
unused = record { banned = []; retries = [] }

-- `maxFailures`
abbrev pub max_failures : ℕ
max_failures = 5

-- `1000 * 60 * 60 * 24`
abbrev pub one_day : ℕ
one_day = 86400000

abbrev pub is_due : Option ℕ → ℕ → Bool
is_due none now = false
is_due (some due) now = leb now due

-- `isBannedIP`
unfoldable pub is_banned_ip : ℕ → Text → Throttle → Bool
is_banned_ip now ip t = is_due (lookup ip t.banned) now

-- `setBannedIP`
unfoldable pub set_banned_ip : ℕ → Text → Throttle → Throttle
set_banned_ip now ip t = record t { banned = insert ip (now + one_day) t.banned }

abbrev pub count_of : Option Failures → ℕ
count_of none = 0
count_of (some f) = f.count

abbrev pub last_of : ℕ → Option Failures → ℕ
last_of now none = now
last_of now (some f) = f.last_failure

-- `isIPRetryLimitReached`
unfoldable pub is_ip_retry_limit_reached : Text → Throttle → Bool
is_ip_retry_limit_reached ip t = leb max_failures (count_of (lookup ip t.retries))

-- `this.ipRetryCount[ip] = { count, lastFailure: new Date() }`
abbrev pub count_failures : ℕ → Text → ℕ → Throttle → Throttle
count_failures now ip k t = record t {
  retries = insert ip (record { count = k; last_failure = now }) t.retries;
}

-- `setFailedIPRequest`; `last < now - one_day` is written without the subtraction.
unfoldable pub set_failed_ip_request : ℕ → Text → Throttle → Throttle
unfolding set_banned_ip is_ip_retry_limit_reached
set_failed_ip_request now ip t =
    let before = lookup ip t.retries in
    let counted = count_failures now ip (count_of before + 1) t in
    if ltb (last_of now before + one_day) now
    then count_failures now ip 1 t
    else if is_ip_retry_limit_reached ip counted
    then set_banned_ip now ip counted
    else counted
