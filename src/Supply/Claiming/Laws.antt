-- ===== src/Supply/Claiming/Laws.antt =====
-- Bans, codes and claimable orders.
use offchain_service.Base.{
  ℕ, ◌+◌, ◌≡◌, ◌≢◌, ◌↔◌, ◌∙◌, refl, sym, ap, subst, Bool, true, false, ltb, ◌==◌, some, List, [],
  ◌∷◌, any, length, All, count_if, if◌then◌else◌, Bool-cases, Result-cases, inl, inr, Text, text_eq,
  text_eq_iff, Result, ok, err, ◌>>=◌, arith,
}
use offchain_service.Base.Dict.{Dict, lookup, lookup-insert}
use offchain_service.Base.Numbers.{Numbers}
use offchain_service.Order.{Order, email, claimed, has_payments, in_status}
use offchain_service.Ledger.Sync.{Encryption}
use offchain_service.Supply.Claiming.{
  Entry, Attempts, no_attempts, ip_ban_threshold, attempts_of, is_banned, report_failure,
  report_failures, validate_otp, is_given, selects, filter_by_email,
}

-- The failed attempts of an address in a run of attempts.
abbrev pub failures : Text → List Entry → ℕ
failures ip es = count_if (λ e. text_eq e.client_ip ip) es

module _ (hash : Text → Text) where
  -- An address is banned exactly if its attempts have passed the threshold.
  abbrev Bans : Text → Attempts → Type 0
  Bans ip s = is_banned ip s ≡ ltb ip_ban_threshold (attempts_of (lookup ip s.errors))

  attempts-report_failure :
      (ip : Text) (e : Entry) (s : Attempts)
      → attempts_of (lookup ip (report_failure hash e s).errors)
        ≡ attempts_of (lookup ip s.errors) + (if text_eq e.client_ip ip then 1 else 0)
  unfolding report_failure
  attempts-report_failure ip e s =
      elim (Bool-cases (ltb ip_ban_threshold (attempts_of (lookup e.client_ip s.errors) + 1))) [
        | inl b ↦ rw (b, lookup-insert) (ground (arith, text_eq_iff e.client_ip ip))
        | inr b ↦ rw (b, lookup-insert) (ground (arith, text_eq_iff e.client_ip ip))
      ]

  report_failure-Bans :
      (ip : Text) (e : Entry) (s : Attempts) → Bans ip s → Bans ip (report_failure hash e s)
  unfolding report_failure is_banned
  report_failure-Bans ip e s h =
      elim (Bool-cases (ltb ip_ban_threshold (attempts_of (lookup e.client_ip s.errors) + 1))) [
        | inl b ↦ rw (b, lookup-insert, lookup-insert) (ground (arith, text_eq_iff e.client_ip ip))
        | inr b ↦ rw (b, lookup-insert) (ground (arith, text_eq_iff e.client_ip ip))
      ]

  report_failures_lem :
      (ip : Text) (es : List Entry) (s : Attempts)
      → Bans ip s
      → is_banned ip (report_failures hash es s)
        ≡ ltb ip_ban_threshold (attempts_of (lookup ip s.errors) + failures ip es)
  unfolding report_failures
  report_failures_lem ip [] s h = ground arith
  report_failures_lem ip (e ∷ es) s h =
      report_failures_lem ip es (report_failure hash e s) (report_failure-Bans ip e s h)
      ∙ ground (arith, attempts-report_failure ip e s)

  -- After any run of failed attempts, of whatever addresses, an address is banned exactly if more
  -- than fifteen of them were its own.
  pub report_failures_ban :
      (ip : Text) (es : List Entry)
      → is_banned ip (report_failures hash es no_attempts) ≡ ltb 15 (failures ip es)
  unfolding is_banned
  report_failures_ban ip es = ground (arith, report_failures_lem ip es no_attempts refl)

any-All : (c : ℕ) (s : Text) → (any (λ d. d == c) s ≡ false) ↔ All (λ d. d ≢ c) s
any-All c [] = (λ _. tt, λ _. refl)
any-All c (d ∷ s) =
    let (f, g) = any-All c s in
    (λ h. (ground arith, f (ground arith)), λ (ne, h). ground (arith, g h))

-- A one-time code is accepted exactly if it has six characters, none of them `0` or `O`.
pub validate_otp_iff :
    (code : Text)
    → (validate_otp code ≡ ok tt)
      ↔ ((length code ≡ 6) × All (λ c. c ≢ b'0') code × All (λ c. c ≢ b'O') code)
unfolding validate_otp
validate_otp_iff code =
    let (f, g) = any-All b'0' code in
    let (f', g') = any-All b'O' code in
    (
      λ h. (ground arith, f (ground arith), f' (ground arith)),
      λ (len, h, h'). ground (arith, len, g h, g' h'),
    )

module _ (n : Numbers) (cipher : Encryption) (cbc_key : Text) where
  open n use {F}

  -- What makes an order claimable: it is an e-mail address's, paid, locked and not claimed, and the
  -- lock holds the amount of the order.
  pub record IsClaimable (o : Order F) : Type 0 where
    pub by_email : o.identifier_type ≡ email
    pub paid : has_payments o ≡ true
    pub locked : is_given o.lock_transaction_hash ≡ true
    pub unclaimed : is_given o.claim_transaction_hash ≡ false
    pub open_status : o.status ≢ some claimed
    pub lock_matched : o.total_locked_uint256 ≡ some o.amount_of_tokens.unassigned_number

  selects-IsClaimable :
      (address id : Text) (o : Order F)
      → selects n cipher cbc_key address id o ≡ ok true
      → IsClaimable o
  unfolding selects in_status
  selects-IsClaimable address id o h = ground arith

  abbrev taken : List (Order F) → Result (List (Order F)) → List (Order F)
  taken default (ok os) = os
  taken default (err k) = default

  -- A round of the loop, by whether the order is selected.
  round-IsClaimable :
      (b : Bool) (o : Order F) (r : Result (List (Order F))) {os : List (Order F)}
      → (b ≡ true → IsClaimable o)
      → ((rest : List (Order F)) → r ≡ ok rest → All IsClaimable rest)
      → (r >>= λ rest. ok (if b then o ∷ rest else rest)) ≡ ok os
      → All IsClaimable os
  round-IsClaimable true o (ok rest) f g h =
      subst (All IsClaimable) (ap (taken []) h) (f refl, g rest refl)
  round-IsClaimable false o (ok rest) f g h =
      subst (All IsClaimable) (ap (taken []) h) (g rest refl)
  round-IsClaimable b o (err k) f g h = ground arith

  -- Only claimable orders pass the filter.
  pub filter_by_email-IsClaimable :
      (address : Text) (orders : Dict (Order F)) {os : List (Order F)}
      → filter_by_email n cipher cbc_key address orders ≡ ok os
      → All IsClaimable os
  unfolding filter_by_email
  filter_by_email-IsClaimable address [] h = ground arith
  filter_by_email-IsClaimable address ((id, o) ∷ orders) h =
      elim (Result-cases (selects n cipher cbc_key address id o)) [
        | inl (b, e) ↦
            round-IsClaimable b o (filter_by_email n cipher cbc_key address orders)
              (λ t. selects-IsClaimable address id o (e ∙ ap ok t))
              (λ rest f. filter_by_email-IsClaimable address orders f)
              (ap
                  (λ q. q >>= λ b'. filter_by_email n cipher cbc_key address orders >>= λ rest.
                    ok (if b' then o ∷ rest else rest))
                  (sym e)
                ∙ h)
        | inr (k, e) ↦ ground arith
      ]
