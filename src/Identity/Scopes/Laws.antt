-- ===== src/Identity/Scopes/Laws.antt =====
-- What the check of the scopes accepts.
use offchain_service.Base.{
  ◌≡◌, refl, ◌∙◌, any, is_some, text_eq, text_eq_iff, Bool, true, false, if◌then◌else◌, Option,
  none, some, List, [], ◌∷◌, Text, arith,
}
use offchain_service.Base.Dict.{Dict, lookup, lookup-insert}
use offchain_service.Base.Numbers.{Numbers}
use offchain_service.Identity.Roles.{Scopes}
use offchain_service.Identity.Scopes.{
  add_resources, resources_at, gather, get_resource_scopes_from_roles, ScopeError, too_many_scopes,
  invalid_scope_length, scope_not_found, is_role_value, validate_requested_scopes,
}

one_of :
    (many long : Bool)
    → (e : ScopeError) × ((if many
          then some too_many_scopes
          else if long
          then some invalid_scope_length
          else some scope_not_found)
        ≡ some e)
one_of true long = (_, refl)
one_of false true = (_, refl)
one_of false false = (_, refl)

module _ (n : Numbers) where
  -- The values of the enum are texts, so none of them is a number.
  is_role_value_never : (scope : Text) → is_role_value n scope ≡ false
  unfolding is_role_value
  is_role_value_never scope = refl

  -- Every list of scopes is refused.
  pub validate_requested_scopes_refuses :
      (scopes : Option (List Text))
      → (e : ScopeError) × (validate_requested_scopes n scopes ≡ some e)
  unfolding validate_requested_scopes
  validate_requested_scopes_refuses none = (_, refl)
  validate_requested_scopes_refuses (some []) = (_, refl)
  validate_requested_scopes_refuses (some (t ∷ ts)) = one_of _ _

lookup-add_resources :
    (k t : Text) (resources : Option Scopes) (acc : Dict Scopes)
    → lookup k (add_resources t resources acc)
      ≡ (if is_some (lookup k acc) then lookup k acc else if text_eq t k then resources else none)
lookup-add_resources k t none acc = ground arith
lookup-add_resources k t (some resources) acc =
    ground (arith, lookup-insert t k resources acc, text_eq_iff t k)

lookup-gather :
    (k : Text) (ts : List Text) (acc : Dict Scopes)
    → lookup k (gather acc ts) ≡ (
        if is_some (lookup k acc)
        then lookup k acc
        else if any (λ t. text_eq t k) ts
        then resources_at k
        else none)
lookup-gather k [] acc = ground arith
lookup-gather k (t ∷ ts) acc =
    lookup-gather k ts (add_resources t (resources_at t) acc)
    ∙ ground (arith, lookup-add_resources k t (resources_at t) acc, text_eq_iff t k)

-- The scopes of a token hold the resources of each of its roles that has any, and nothing else.
pub lookup-get_resource_scopes_from_roles :
    (roles : List Text) (k : Text)
    → lookup k (get_resource_scopes_from_roles roles)
      ≡ (if any (λ t. text_eq t k) roles then resources_at k else none)
unfolding get_resource_scopes_from_roles
lookup-get_resource_scopes_from_roles roles k = lookup-gather k roles []
