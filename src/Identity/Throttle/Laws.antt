-- ===== src/Identity/Throttle/Laws.antt =====
-- What the failures and bans keep.
use offchain_service.Base.{
  ℕ, ◌+◌, ◌≡◌, ◌≤◌, ltb, leb, refl, Bool, true, false, ◌&&◌, Option, none, some, if◌then◌else◌,
  Text, text_eq, text_eq_refl, arith,
}
use offchain_service.Base.Dict.{lookup, lookup-insert}
use offchain_service.Identity.Throttle.{
  Failures, Throttle, unused, max_failures, one_day, count_of, last_of, set_failed_ip_request,
}

-- Five failures or more, and the address is banned until a day after the last.
abbrev pub Bans : Option Failures → Option ℕ → Type 0
Bans none due = Unit
Bans (some f) due = max_failures ≤ f.count → due ≡ some (f.last_failure + one_day)

abbrev pub IsGuarded : Throttle → Type 0
IsGuarded t = (ip : Text) → Bans (lookup ip t.retries) (lookup ip t.banned)

pub unused-IsGuarded : IsGuarded unused
unused-IsGuarded ip = tt

-- The entry of an address after a failure.
abbrev after_failure : ℕ → Option Failures → Failures
after_failure now before = record {
  count = if ltb (last_of now before + one_day) now then 1 else count_of before + 1;
  last_failure = now;
}

abbrev is_over : ℕ → Option Failures → Bool
is_over now before = leb max_failures (after_failure now before).count

lookup_retries-set_failed :
    (now : ℕ) (ip other : Text) (t : Throttle)
    → lookup other (set_failed_ip_request now ip t).retries ≡ (
        if text_eq ip other
        then some (after_failure now (lookup ip t.retries))
        else lookup other t.retries)
unfolding set_failed_ip_request
lookup_retries-set_failed now ip other t =
    ground (arith, lookup-insert ip other (after_failure now (lookup ip t.retries)) t.retries)

lookup_banned-set_failed :
    (now : ℕ) (ip other : Text) (t : Throttle)
    → lookup other (set_failed_ip_request now ip t).banned ≡ (
        if text_eq ip other && is_over now (lookup ip t.retries)
        then some (now + one_day)
        else lookup other t.banned)
unfolding set_failed_ip_request
lookup_banned-set_failed now ip other t = ground (
  arith,
  lookup-insert ip other (now + one_day) t.banned,
  lookup-insert ip ip (after_failure now (lookup ip t.retries)) t.retries,
  text_eq_refl ip,
)

-- A failure keeps the bans.
pub set_failed_ip_request-IsGuarded :
    (now : ℕ) (ip : Text) (t : Throttle) → IsGuarded t → IsGuarded (set_failed_ip_request now ip t)
set_failed_ip_request-IsGuarded now ip t g other =
    rw (lookup_retries-set_failed now ip other t, lookup_banned-set_failed now ip other t)
      (cases (text_eq ip other) refl)
  where
    cases :
        (b : Bool)
        → text_eq ip other ≡ b
        → Bans
            (if b then some (after_failure now (lookup ip t.retries)) else lookup other t.retries)
            (if b && is_over now (lookup ip t.retries)
              then some (now + one_day)
              else lookup other t.banned)
    cases true e = ground arith
    cases false e = g other
