-- ===== src/Identity/Authorization/Laws.antt =====
-- When a token is valid.
use offchain_service.Base.{
  ◌≡◌, ◌≢◌, ◌↔◌, ◌⊎◌, inl, inr, refl, true, false, Option, none, some, List, [], ◌∷◌, any, all,
  count_if, Text, Result, ok, err, ◌>>=◌, arith,
}
use offchain_service.Identity.Roles.{RoleType, includes}
use offchain_service.Identity.Authorization.{
  AuthRoleConstraint, listed, execute, is_ok, check_roles,
}

-- What the constraint asks of the roles of a token: one role of `OR` if it lists any, exactly one
-- entry of `XOR` if it lists any, and all of `EQ`.
pub record Meets (c : AuthRoleConstraint) (roles : List RoleType) : Type 0 where
  pub meets_or : (listed c.or ≡ []) ⊎ (any (includes roles) (listed c.or) ≡ true)
  pub meets_xor : (listed c.xor ≡ []) ⊎ (count_if (includes roles) (listed c.xor) ≡ 1)
  pub meets_eq : all (includes roles) (listed c.eq) ≡ true

refused :
    (c : AuthRoleConstraint) (v : Result (Option (List RoleType)))
    → ((r : RoleType) (rs : List RoleType) → v ≢ ok (some (r ∷ rs)))
    → is_ok (v >>= check_roles c) ≡ false
unfolding check_roles
refused c (err k) h = refl
refused c (ok none) h = refl
refused c (ok (some [])) h = refl
refused c (ok (some (r ∷ rs))) h = absurd (h r rs refl)

module _ (verify : Text → Result (Option (List RoleType))) (token : Text)
    (c : AuthRoleConstraint) where
  -- Where `XOR` is given, or `EQ` lists no role, a token that the port verifies with at least one
  -- role is valid exactly if its roles meet the constraint: one of `OR` if it lists any, exactly one
  -- entry of `XOR` if it lists any, and all of `EQ`.
  pub execute-Meets :
      (r : RoleType) (rs : List RoleType)
      → verify token ≡ ok (some (r ∷ rs))
      → (c.xor ≢ none) ⊎ (listed c.eq ≡ [])
      → (execute verify token c ≡ true) ↔ Meets c (r ∷ rs)
  unfolding execute
  execute-Meets r rs v (inl x) = rw v (λ h. ground arith, λ m. ground arith)
  execute-Meets r rs v (inr e) = rw v (λ h. ground arith, λ m. ground arith)

  -- A token that is not verified, or has no roles, is not valid.
  pub execute_refuses :
      ((r : RoleType) (rs : List RoleType) → verify token ≢ ok (some (r ∷ rs)))
      → execute verify token c ≡ false
  unfolding execute
  execute_refuses h = refused c (verify token) h

  -- `EQ` without `XOR` restricts nothing: a token that the port verifies with at least one role,
  -- one that meets what `OR` asks, is valid although it lacks a role that `EQ` lists, and so does
  -- not meet the constraint.
  pub execute-eq_unchecked :
      (r : RoleType) (rs : List RoleType)
      → verify token ≡ ok (some (r ∷ rs))
      → c.xor ≡ none
      → (listed c.or ≡ []) ⊎ (any (includes (r ∷ rs)) (listed c.or) ≡ true)
      → all (includes (r ∷ rs)) (listed c.eq) ≡ false
      → (execute verify token c ≡ true) × (¬ Meets c (r ∷ rs))
  unfolding execute
  execute-eq_unchecked r rs v x (inl o) lacks = (ground arith, λ m. ground (arith, m.meets_eq))
  execute-eq_unchecked r rs v x (inr o) lacks = (ground arith, λ m. ground (arith, m.meets_eq))
