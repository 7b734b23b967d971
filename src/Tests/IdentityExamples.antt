-- ===== src/Tests/IdentityExamples.antt =====
-- The properties of the authorization at a token of one role.
use offchain_service.Base.{
  ◌≡◌, ◌↔◌, inl, inr, refl, true, Option, none, some, List, [], ◌∷◌, Text, Result, ok, err,
}
use offchain_service.Base.Results.{port}
use offchain_service.Identity.Roles.{RoleType, admin, holder, role_id}
use offchain_service.Identity.Authorization.{AuthRoleConstraint, execute}
use offchain_service.Identity.Authorization.Laws.{Meets, execute-Meets, execute-eq_unchecked}

-- The empty token is refused, and every other carries the role of a holder.
abbrev verify : Text → Result (Option (List RoleType))
verify [] = err (port 0)
verify (_ ∷ _) = ok (some (holder ∷ []))

abbrev holders : AuthRoleConstraint
holders = record { eq = none; or = some (admin ∷ holder ∷ []); xor = none }

abbrev admins : AuthRoleConstraint
admins = record { eq = some (admin ∷ []); or = none; xor = none }

execute-Meets_example : (execute verify (b't' ∷ []) holders ≡ true) ↔ Meets holders (holder ∷ [])
execute-Meets_example = execute-Meets verify (b't' ∷ []) holders holder [] refl (inr refl)

execute-eq_unchecked_example :
    (execute verify (b't' ∷ []) admins ≡ true) × (¬ Meets admins (holder ∷ []))
unfolding role_id
execute-eq_unchecked_example =
    execute-eq_unchecked verify (b't' ∷ []) admins holder [] refl refl (inl refl) refl
