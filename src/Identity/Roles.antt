-- ===== src/Identity/Roles.antt =====
-- src/domain/upstream-domains/identity/authentication/enums: role-type.enum.ts,
-- resource-category.enum.ts and scope-type.enum.ts.
use offchain_service.Base.{ℕ, ◌==◌, Bool, Option, none, some, List, [], ◌∷◌, any}

-- `enum RoleType`
pub data RoleType : Type 0 where
  admin holder impact_cultivation_validator impact_cultivation_producer : RoleType
  impact_cultivation_workflow_webhook stock_option_user stock_option_admin : RoleType
  promotional_supplier website_integration internal_integration external_integration : RoleType

-- The number that a role's text stands for.
unfoldable pub role_id : RoleType → ℕ
role_id admin = 0x309
role_id holder = 0x1a4
role_id impact_cultivation_validator = 0x2a01
role_id impact_cultivation_producer = 0x2a02
role_id impact_cultivation_workflow_webhook = 0x2a10
role_id stock_option_user = 0x3a01
role_id stock_option_admin = 0x3a02
role_id promotional_supplier = 0x4a01
role_id website_integration = 0x5a01
role_id internal_integration = 0x6a02
role_id external_integration = 0x7a03

-- `userRoles.includes(role)`
abbrev pub includes : List RoleType → RoleType → Bool
includes roles r = any (λ x. role_id x == role_id r) roles

-- `enum ScopeType`
pub data ScopeType : Type 0 where
  read write overwrite delete scope_admin : ScopeType

-- `enum ResourceCategoryEnum`
pub data ResourceCategory : Type 0 where
  impactful_cultivation stock_option discount rewards badges api : ResourceCategory

unfoldable pub category_id : ResourceCategory → ℕ
category_id impactful_cultivation = 0xafff
category_id stock_option = 0xbfff
category_id discount = 0xcfff
category_id rewards = 0xdfff
category_id badges = 0xefff
category_id api = 0xffff

-- The resources of all categories, `ResourcesAggregateEnum`.
pub data Resource : Type 0 where
  producer producer_document audit_pool validator_manifest validator_veredict : Resource
  workflow_status_webhook benchmark evaluation_metric stock_option_contract : Resource
  discount_voucher reward custom_mint auth_challenge : Resource

unfoldable pub resource_id : Resource → ℕ
resource_id producer = 0xa000
resource_id producer_document = 0xa001
resource_id audit_pool = 0xa002
resource_id validator_manifest = 0xa003
resource_id validator_veredict = 0xa004
resource_id workflow_status_webhook = 0xa005
resource_id benchmark = 0xa006
resource_id evaluation_metric = 0xa007
resource_id stock_option_contract = 0xb001
resource_id discount_voucher = 0xc001
resource_id reward = 0xd001
resource_id custom_mint = 0xe001
resource_id auth_challenge = 0xf001

-- `ResourceCategoryScopes`: the scopes of each resource of a category, in the order of the text.
abbrev pub Scopes : Type 0
Scopes = List (ResourceCategory × List (Resource × List ScopeType))

-- `ResourcesByRole[role].resources`
unfoldable pub resources_by_role : RoleType → Option Scopes
resources_by_role admin = none
resources_by_role holder = some ((discount, (discount_voucher, read ∷ []) ∷ []) ∷ [])
resources_by_role impact_cultivation_validator = some (
    (
      impactful_cultivation,
      (audit_pool, read ∷ [])
          ∷ (validator_manifest, read ∷ write ∷ overwrite ∷ [])
          ∷ (validator_veredict, write ∷ [])
          ∷ (producer_document, read ∷ [])
          ∷ [],
    )
    ∷ [])
resources_by_role impact_cultivation_producer = some (
    (impactful_cultivation, (audit_pool, read ∷ write ∷ []) ∷ (producer_document, write ∷ []) ∷ [])
    ∷ [])
resources_by_role impact_cultivation_workflow_webhook = some (
    (
      impactful_cultivation,
      (workflow_status_webhook, write ∷ [])
          ∷ (audit_pool, write ∷ [])
          ∷ (producer, write ∷ [])
          ∷ (producer_document, write ∷ [])
          ∷ [],
    )
    ∷ [])
resources_by_role stock_option_user =
    some ((stock_option, (stock_option_contract, read ∷ []) ∷ []) ∷ [])
resources_by_role stock_option_admin =
    some ((stock_option, (stock_option_contract, write ∷ []) ∷ []) ∷ [])
resources_by_role promotional_supplier = some ((discount, (discount_voucher, write ∷ []) ∷ []) ∷ [])
resources_by_role website_integration = some ((api, (auth_challenge, read ∷ []) ∷ []) ∷ [])
resources_by_role internal_integration = some ((api, (auth_challenge, write ∷ []) ∷ []) ∷ [])
resources_by_role external_integration = some ((api, (auth_challenge, write ∷ []) ∷ []) ∷ [])
