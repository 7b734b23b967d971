-- ===== src/Identity/Authorization.antt =====
-- src/domain/upstream-domains/identity/authorization/usecases/validate-auth-token.usecase.ts.
pub mod Laws
use offchain_service.Base.{
  ℕ, ◌==◌, Bool, true, false, ◌&&◌, not, Option, none, some, List, [], ◌∷◌, any, all, count_if,
  is_some, Text, Error, Result, ok, err, ◌>>=◌, ◌>>◌, throw_if,
}
use offchain_service.Base.Results.{unauthorized, forbidden}
use offchain_service.Identity.Roles.{RoleType, role_id, includes}

-- `AuthRoleConstraint`
pub record AuthRoleConstraint : Type 0 where
  pub eq : Option (List RoleType)
  pub or : Option (List RoleType)
  pub xor : Option (List RoleType)

-- `!roleConstraint[constraint] || roleConstraint[constraint]?.length === 0`: the loop passes over it.
abbrev pub is_skipped : Option (List RoleType) → Bool
is_skipped none = true
is_skipped (some []) = true
is_skipped (some (_ ∷ _)) = false

abbrev pub listed : Option (List RoleType) → List RoleType
listed none = []
listed (some roles) = roles

-- The method `XOR`
unfoldable pub check_xor : AuthRoleConstraint → List RoleType → Result (Unit {0})
unfolding role_id
check_xor c roles =
    throw_if (is_some c.xor && not (count_if (includes roles) (listed c.xor) == 1)) forbidden

-- The method `OR`
unfoldable pub check_or : AuthRoleConstraint → List RoleType → Result (Unit {0})
unfolding role_id
check_or c roles = throw_if (is_some c.or && not (any (includes roles) (listed c.or))) forbidden

-- The method `EQ`, which asks whether `XOR` is an array.
unfoldable pub check_eq : AuthRoleConstraint → List RoleType → Result (Unit {0})
unfolding role_id
check_eq c roles =
    throw_if (is_some c.eq && is_some c.xor && not (all (includes roles) (listed c.eq))) forbidden

-- A round of the loop over the constraint's keys.
abbrev unless : Bool → Result (Unit {0}) → Result (Unit {0})
unless true check = ok tt
unless false check = check

-- The `try` block on the roles of the verified token. The keys come in the order of the object;
-- whether one of them throws does not depend on it.
unfoldable pub check_roles : AuthRoleConstraint → Option (List RoleType) → Result (Unit {0})
unfolding check_xor check_or check_eq
check_roles c none = err unauthorized
check_roles c (some []) = err unauthorized
check_roles c (some (r ∷ rs)) = do
  unless (is_skipped c.eq) (check_eq c (r ∷ rs))
  unless (is_skipped c.or) (check_or c (r ∷ rs))
  unless (is_skipped c.xor) (check_xor c (r ∷ rs))

abbrev is_ok : Result (Unit {0}) → Bool
is_ok (ok _) = true
is_ok (err _) = false

-- `execute`: the field `valid`. The argument `verify` is the JWT port, which gives the roles of
-- the token's payload.
unfoldable pub execute : (Text → Result (Option (List RoleType))) → Text → AuthRoleConstraint → Bool
unfolding check_roles
execute verify token c = is_ok (verify token >>= check_roles c)
