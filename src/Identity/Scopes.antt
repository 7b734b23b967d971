-- ===== src/Identity/Scopes.antt =====
-- src/domain/upstream-domains/identity/authentication: the texts of the roles, the scopes of a
-- challenge, in entities/auth-challenge.entity.ts, and their check and the resources of the roles,
-- in usecases/generate-auth-token.usecase.ts.
pub mod Laws
use offchain_service.Base.{
  ℕ, ◌==◌, leb, ltb, Bool, false, ◌&&◌, ◌||◌, not, Option, none, some, List, [], ◌∷◌, ◌++◌, map,
  any, all, length, is_some, if◌then◌else◌, Text, codes, text_eq,
}
use offchain_service.Base.Dict.{Dict, lookup, insert}
use offchain_service.Base.Texts.{split}
use offchain_service.Base.Numbers.{Numbers}
use offchain_service.Supply.Claiming.Addresses.{is_between}
use offchain_service.Identity.Roles.{
  RoleType, admin, holder, impact_cultivation_validator, impact_cultivation_producer,
  impact_cultivation_workflow_webhook, stock_option_user, stock_option_admin, promotional_supplier,
  website_integration, internal_integration, external_integration, Scopes, resources_by_role,
}

-- The members of `enum RoleType`, in its order.
abbrev pub role_types : List RoleType
role_types =
    admin ∷ holder ∷ impact_cultivation_validator ∷ impact_cultivation_producer
    ∷ impact_cultivation_workflow_webhook ∷ stock_option_user ∷ stock_option_admin
    ∷ promotional_supplier ∷ website_integration ∷ internal_integration ∷ external_integration ∷ []

-- `RoleType.ADMIN` and the other values
unfoldable pub role_text : RoleType → Text
role_text admin = codes "0x309"
role_text holder = codes "0x1a4"
role_text impact_cultivation_validator = codes "0x2a01"
role_text impact_cultivation_producer = codes "0x2a02"
role_text impact_cultivation_workflow_webhook = codes "0x2a10"
role_text stock_option_user = codes "0x3a01"
role_text stock_option_admin = codes "0x3a02"
role_text promotional_supplier = codes "0x4a01"
role_text website_integration = codes "0x5a01"
role_text internal_integration = codes "0x6a02"
role_text external_integration = codes "0x7a03"

-- The keys of the enum's object, which for an enum of texts are the names alone.
unfoldable pub role_name : RoleType → Text
role_name admin = codes "ADMIN"
role_name holder = codes "HOLDER"
role_name impact_cultivation_validator = codes "IMPACT_CULTIVATION_VALIDATOR"
role_name impact_cultivation_producer = codes "IMPACT_CULTIVATION_PRODUCER"
role_name impact_cultivation_workflow_webhook = codes "IMPACT_CULTIVATION_WORKFLOW_WEBHOOK"
role_name stock_option_user = codes "STOCK_OPTION_USER"
role_name stock_option_admin = codes "STOCK_OPTION_ADMIN"
role_name promotional_supplier = codes "PROMOTIONAL_SUPPLIER"
role_name website_integration = codes "WEBSITE_INTEGRATION"
role_name internal_integration = codes "INTERNAL_INTEGRATION"
role_name external_integration = codes "EXTERNAL_INTEGRATION"

-- The role that a function on the roles gives the text to.
abbrev find_role : (RoleType → Text) → Text → List RoleType → Option RoleType
find_role f t [] = none
find_role f t (r ∷ rs) = let rest = find_role f t rs in if text_eq (f r) t then some r else rest

-- `RoleType[key]`
unfoldable pub role_at : Text → Option Text
unfolding role_name role_text
role_at key = elim (find_role role_name key role_types) [
  | none ↦ none
  | some r ↦ some (role_text r)
]

-- `getRawScopes`
abbrev pub get_raw_scopes : Option Text → Option (List Text)
get_raw_scopes none = none
get_raw_scopes (some scope) = some (split b',' scope)

-- The values of those texts that are keys.
abbrev values_of : List Text → List Text
values_of [] = []
values_of (t ∷ ts) = let rest = values_of ts in elim (role_at t) [ none ↦ rest | some v ↦ v ∷ rest ]

-- `getRoles`
unfoldable pub get_roles : Option Text → Option (List Text)
unfolding role_at
get_roles none = none
get_roles (some scope) = some (values_of (split b',' scope))

-- A text or a number, and `===` on them.
pub data Value (F : Type 0) : Type 0 where
  text : Text → Value F
  number : F → Value F

-- What `validateRequestedScopes` gives, of which `null` is none.
pub data ScopeError : Type 0 where
  empty_scope too_many_scopes invalid_scope_length scope_not_found : ScopeError

-- What `trim` takes away.
abbrev is_space : ℕ → Bool
is_space c =
    is_between 9 13 c
    || (c == 32)
    || (c == 160)
    || (c == 0x1680)
    || is_between 0x2000 0x200a c
    || is_between 0x2028 0x2029 c
    || (c == 0x202f)
    || (c == 0x205f)
    || (c == 0x3000)
    || (c == 0xfeff)

module _ (n : Numbers) where
  open n use {F, eq, read}

  abbrev pub strictly_equal : Value F → Value F → Bool
  strictly_equal (text s) (text t) = text_eq s t
  strictly_equal (number x) (number y) = eq x y
  strictly_equal (text s) (number y) = false
  strictly_equal (number x) (text t) = false

  -- `Object.values(RoleType).includes(Number(scope))`
  unfoldable pub is_role_value : Text → Bool
  unfolding role_text
  is_role_value scope =
      any (λ r. strictly_equal (text (role_text r)) (number (read scope))) role_types

  -- `validateRequestedScopes`
  unfoldable pub validate_requested_scopes : Option (List Text) → Option ScopeError
  unfolding is_role_value
  validate_requested_scopes none = some empty_scope
  validate_requested_scopes (some []) = some empty_scope
  validate_requested_scopes (some (t ∷ ts)) =
      if ltb 8 (length (t ∷ ts))
      then some too_many_scopes
      else if any (λ s. ltb 64 (length s) || all is_space s) (t ∷ ts)
      then some invalid_scope_length
      else if any (λ s. not (is_role_value s)) (t ∷ ts)
      then some scope_not_found
      else none

-- `ResourcesByRole[roleType]?.resources`
unfoldable pub resources_at : Text → Option Scopes
unfolding role_text resources_by_role
resources_at t = elim (find_role role_text t role_types) [
  | none ↦ none
  | some r ↦ resources_by_role r
]

abbrev add_resources : Text → Option Scopes → Dict Scopes → Dict Scopes
add_resources t none acc = acc
add_resources t (some resources) acc =
    if is_some (lookup t acc) then acc else insert t resources acc

-- The loop of `reduce`
abbrev gather : Dict Scopes → List Text → Dict Scopes
gather acc [] = acc
gather acc (t ∷ ts) = gather (add_resources t (resources_at t) acc) ts

-- `getResourceScopesFromRoles`
unfoldable pub get_resource_scopes_from_roles : List Text → Dict Scopes
unfolding resources_at
get_resource_scopes_from_roles ts = gather [] ts
