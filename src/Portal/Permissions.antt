-- ===== src/Portal/Permissions.antt =====
-- apiserver/pkg/model/permission.go, apiserver/pkg/service/role.go and RequirePermission of
-- apiserver/pkg/middleware/auth.go.
pub mod Rules
pub mod Init
use kumquat.Base.{
  ℕ, String, Bool, true, false, ◌&&◌, ◌||◌, List, [], ◌∷◌, Option, none, some, eqb, ◌=ˢ◌,
  if◌then◌else◌,
}

pub record Permission : Type 0 where
  pub role_id : ℕ
  pub resource : String
  pub action : String
  pub effect : String

abbrev effect_allow : String
effect_allow = "allow"

abbrev pub effect_deny : String
effect_deny = "deny"

-- A rule without a role.
abbrev allow : String → String → Permission
allow resource action = record {
  role_id = 0;
  resource = resource;
  action = action;
  effect = effect_allow;
}

-- PredefinedPermissions[role], nil for another role
unfoldable pub predefined_permissions : String → List Permission
predefined_permissions role =
    if role =ˢ "admin"
    then allow "*" "*" ∷ []
    else (if role =ˢ "member"
        then allow "application" "*"
          ∷ allow "workspace" "*"
          ∷ allow "module" "read"
          ∷ allow "project" "*"
          ∷ allow "user" "read"
          ∷ allow "role" "read"
          ∷ []
        else (if role =ˢ "guest"
            then allow "application" "read" ∷ allow "workspace" "read" ∷ allow "*" "read" ∷ []
            else []))

unfoldable pub match_permission : String → String → String → String → Bool
match_permission rule_resource rule_action req_resource req_action =
    ((rule_resource =ˢ "*") || (rule_resource =ˢ req_resource))
    && ((rule_action =ˢ "*") || (rule_action =ˢ req_action))

-- The loop of CheckPermission.
unfoldable pub check_rules : String → String → Bool → List Permission → Bool
check_rules resource action allowed [] = allowed
check_rules resource action allowed (p ∷ perms) =
    let skip = check_rules resource action allowed perms in
    let next = check_rules resource action true perms in
    if match_permission p.resource p.action resource action
    then (if p.effect =ˢ effect_deny then false else next)
    else skip

-- `none` is an error of the database, in the argument and in the result.
unfoldable pub check_permission : Option (List Permission) → String → String → Option Bool
check_permission none resource action = none
check_permission (some perms) resource action = some (check_rules resource action false perms)

pub data Answer : Type 0 where
  internal_error forbidden next_handler : Answer

-- RequirePermission, after the role of the request was read.
unfoldable pub require_permission : Option (List Permission) → String → String → Answer
require_permission perms resource action = elim (check_permission perms resource action) [
  | none ↦ internal_error
  | some allowed ↦ if allowed then next_handler else forbidden
]

-- The tables of roles and permissions, within a transaction. `none` is an error.
pub record Tables : Type 1 where
  pub State : Type 0
  -- the id of the role with the name, or that there is none
  pub find_role : String → State → Option (Option ℕ)
  pub create_role : String → State → Option (ℕ × State)
  pub count_permissions : ℕ → State → Option ℕ
  pub create_permission : Permission → State → Option State

module _ (t : Tables) where
  open t use {State, find_role, create_role, count_permissions, create_permission}

  -- tx.Where("name = ?", roleName).First(&role), and tx.Create(&role) where there is none
  unfoldable pub find_or_create_role : String → State → Option (ℕ × State)
  find_or_create_role name s = elim (find_role name s) [
    | none ↦ none
    | some answer ↦ elim answer [ none ↦ create_role name s | some id ↦ some (id, s) ]
  ]

  unfoldable pub create_permissions : ℕ → List Permission → State → Option State
  create_permissions id [] s = some s
  create_permissions id (p ∷ perms) s = elim (create_permission (record p { role_id = id }) s) [
    | none ↦ none
    | some s' ↦ create_permissions id perms s'
  ]

  -- Predefined permissions are written where the role has no permission records.
  unfoldable pub init_permissions : String → ℕ → State → Option State
  init_permissions name id s = elim (count_permissions id s) [
    | none ↦ none
    | some count ↦
        if eqb count 0 then create_permissions id (predefined_permissions name) s else some s
  ]

  unfoldable pub init_role : String → State → Option State
  init_role name s = elim (find_or_create_role name s) [
    | none ↦ none
    | some (id, s') ↦ init_permissions name id s'
  ]

  unfoldable pub init_named : List String → State → Option State
  init_named [] s = some s
  init_named (name ∷ names) s = elim (init_role name s) [
    | none ↦ none
    | some s' ↦ init_named names s'
  ]

  -- InitRoles; an error rolls the transaction back.
  unfoldable pub init_roles : State → Option State
  init_roles s = init_named ("admin" ∷ "member" ∷ "guest" ∷ []) s
