-- ===== src/Identity/Fingerprints/Laws.antt =====
-- Which roles are resolved.
use offchain_service.Base.{
  ℕ, ◌≡◌, ◌↔◌, inl, inr, refl, sym, ap, ◌∙◌, subst, Bool, true, false, Option, some, List, [], ◌∷◌,
  any, if◌then◌else◌, Bool-cases, Text, text_eq, text_eq_iff, Result, ok, err, ◌>>=◌, bind-ok,
  ok_injective, arith,
}
use offchain_service.Base.Lists.{IsOneOf, IsOneOf-keep_intro, IsOneOf-keep_elim}
use offchain_service.Base.Results.{reference_error}
use offchain_service.Identity.Fingerprints.{
  Role, FingerprintPorts, is_expired_at, filter_roles, expected_fingerprint, expected_fingerprints,
  validated, resolve_filtered, resolve_roles,
}

-- One of the roles is past its time.
abbrev pub has_expired : ℕ → List Role → Bool
has_expired now roles = any (λ r. is_expired_at now r.expires_at) roles

filter_roles_lem :
    (now : ℕ) (roles : List Role)
    → filter_roles now roles ≡ (if has_expired now roles then err reference_error else ok roles)
filter_roles_lem now [] = refl
filter_roles_lem now (r ∷ rs) = ground (arith, filter_roles_lem now rs)

any-text_eq_elim : (t : Text) (fs : List Text) → any (text_eq t) fs ≡ true → IsOneOf t fs
any-text_eq_elim t [] h = ground (arith, h)
any-text_eq_elim t (f ∷ fs) h = elim (Bool-cases (text_eq t f)) [
  | inl e ↦ inl ((text_eq_iff t f).0 e)
  | inr e ↦ inr (any-text_eq_elim t fs (ground arith))
]

any-text_eq_intro : (t : Text) (fs : List Text) → IsOneOf t fs → any (text_eq t) fs ≡ true
any-text_eq_intro t [] never = elim never [ ]
any-text_eq_intro t (f ∷ fs) (inl same) = ground (arith, (text_eq_iff t f).1 same)
any-text_eq_intro t (f ∷ fs) (inr i) = ground (arith, any-text_eq_intro t fs i)

module _ (ports : FingerprintPorts) where
  -- The text is the fingerprint that is expected of one of the roles.
  abbrev pub IsExpected : Text → List Role → Type 0
  IsExpected t roles = (q : Role) × IsOneOf q roles × (expected_fingerprint ports q ≡ ok t)

  IsExpected-cons : (t : Text) (r : Role) (rs : List Role) → IsExpected t rs → IsExpected t (r ∷ rs)
  IsExpected-cons t r rs (q, i, e) = (q, inr i, e)

  expected_fingerprints-IsExpected :
      (roles : List Role) (t : Text) (fs : List Text)
      → expected_fingerprints ports roles ≡ ok fs
      → IsOneOf t fs
      → IsExpected t roles
  expected_fingerprints-IsExpected [] t fs h i = absurd (subst (IsOneOf t) (sym (ok_injective h)) i)
  expected_fingerprints-IsExpected (r ∷ rs) t fs h i =
      let (f, first, h1) =
        bind-ok (expected_fingerprint ports r)
          (λ f. expected_fingerprints ports rs >>= λ gs. ok (f ∷ gs)) h in
      let (gs, others, h2) = bind-ok (expected_fingerprints ports rs) (λ gs. ok (f ∷ gs)) h1 in
      elim (subst (IsOneOf t) (sym (ok_injective h2)) i) [
        | inl same ↦ (r, inl refl, first ∙ ap ok (sym same))
        | inr j ↦ IsExpected-cons t r rs (expected_fingerprints-IsExpected rs t gs others j)
      ]

  IsExpected-fingerprints :
      (roles : List Role) (t : Text) (fs : List Text)
      → expected_fingerprints ports roles ≡ ok fs
      → IsExpected t roles
      → IsOneOf t fs
  IsExpected-fingerprints [] t fs h (q, never, e) = elim never [ ]
  IsExpected-fingerprints (r ∷ rs) t fs h (q, i, e) =
      let (f, first, h1) =
        bind-ok (expected_fingerprint ports r)
          (λ f. expected_fingerprints ports rs >>= λ gs. ok (f ∷ gs)) h in
      let (gs, others, h2) = bind-ok (expected_fingerprints ports rs) (λ gs. ok (f ∷ gs)) h1 in
      subst (IsOneOf t) (ok_injective h2) (elim i [
        | inl same ↦ inl (ok_injective (sym e ∙ ap (expected_fingerprint ports) same ∙ first))
        | inr j ↦ inr (IsExpected-fingerprints rs t gs others (q, j, e))
      ])

module _ (ports : FingerprintPorts)
    (fetch : Text → ℕ → Option (List Text) → Result (Option (List Role))) (now : ℕ)
    (identifier : Text) (chain_id : ℕ) (scopes : Option (List Text)) (fetched : List Role)
    (found : fetch identifier chain_id scopes ≡ ok (some fetched)) where
  -- One expired role among those that are fetched, and the resolution throws, whatever the others are.
  pub resolve_roles_expired :
      has_expired now fetched ≡ true
      → resolve_roles ports fetch now identifier chain_id scopes ≡ err reference_error
  unfolding resolve_roles
  resolve_roles_expired e = rw (found, filter_roles_lem now fetched, e)

  resolve_filtered-validated :
      (filtered roles : List Role)
      → resolve_filtered ports filtered ≡ ok roles
      → (fs : List Text) × (expected_fingerprints ports filtered ≡ ok fs)
        × (validated ports filtered fs ≡ roles)
  resolve_filtered-validated [] roles h = ([], refl, ok_injective h)
  resolve_filtered-validated (r ∷ rs) roles h =
      let (fs, expected, h1) =
        bind-ok (expected_fingerprints ports (r ∷ rs)) (λ fs. ok (validated ports (r ∷ rs) fs)) h in
      (fs, expected, ok_injective h1)

  resolve_roles-filtered :
      (roles : List Role)
      → resolve_roles ports fetch now identifier chain_id scopes ≡ ok roles
      → (has_expired now fetched ≡ false) × (resolve_filtered ports fetched ≡ ok roles)
  unfolding resolve_roles
  resolve_roles-filtered roles h = elim (Bool-cases (has_expired now fetched)) [
    | inl e ↦ absurd (threw (sym (resolve_roles_expired e) ∙ h))
    | inr e ↦ (e, sym (rw (found, filter_roles_lem now fetched, e)) ∙ h)
  ]
    where
      threw : err reference_error ≡ ok roles → ⊥
      threw h = cc

  -- Where the resolution ends well, no fetched role is expired, and the roles that it gives are the
  -- fetched ones whose fingerprint is expected of one of the fetched ones.
  pub resolve_roles_iff :
      (roles : List Role)
      → resolve_roles ports fetch now identifier chain_id scopes ≡ ok roles
      → (has_expired now fetched ≡ false)
        × ((r : Role)
            → IsOneOf r roles ↔ (IsOneOf r fetched × IsExpected ports r.fingerprint fetched))
  resolve_roles_iff roles h =
      let (fresh, h1) = resolve_roles-filtered roles h in
      let (fs, expected, same) = resolve_filtered-validated fetched roles h1 in
      (
        fresh,
        λ r. (
          λ i. sound r fs expected (subst (IsOneOf r) (sym same) i),
          λ i. subst (IsOneOf r) same (complete r fs expected i),
        ),
      )
    where
      sound :
          (r : Role) (fs : List Text)
          → expected_fingerprints ports fetched ≡ ok fs
          → IsOneOf r (validated ports fetched fs)
          → IsOneOf r fetched × IsExpected ports r.fingerprint fetched
      sound r fs expected i =
          let (j, q) =
            IsOneOf-keep_elim (λ (x : Role). any (text_eq x.fingerprint) fs) r fetched i in
          (
            j,
            expected_fingerprints-IsExpected ports fetched r.fingerprint fs expected
                (any-text_eq_elim r.fingerprint fs q),
          )

      complete :
          (r : Role) (fs : List Text)
          → expected_fingerprints ports fetched ≡ ok fs
          → IsOneOf r fetched × IsExpected ports r.fingerprint fetched
          → IsOneOf r (validated ports fetched fs)
      complete r fs expected (j, x) =
          IsOneOf-keep_intro (λ (x : Role). any (text_eq x.fingerprint) fs) r fetched j
            (any-text_eq_intro r.fingerprint fs
              (IsExpected-fingerprints ports fetched r.fingerprint fs expected x))
