-- ===== src/Tests/Portal.antt =====
-- Tests of the portal's API server.
use kumquat.Base.{
  ℕ, String, ◌≡◌, refl, sym, ap, ◌∙◌, select-append, true, not, ◌&&◌, ◌||◌, List, [], ◌∷◌, ◌++◌,
  none, some, Map, lookup, any, length, eqb, select, ◌=ˢ◌,
}
use kumquat.Portal.Permissions.{
  Permission, Tables, check_permission, predefined_permissions, init_roles, find_or_create_role,
  init_named, init_role, init_permissions, create_permissions,
}
use kumquat.Portal.Permissions.Rules.{
  matches, denies, check_permission_iff, predefined_permissions_lem,
}
use kumquat.Portal.Permissions.Init.{IsTables, rules-init_roles}

abbrev rule : ℕ → String → String → String → Permission
rule id resource action effect = record {
  role_id = id;
  resource = resource;
  action = action;
  effect = effect;
}

-- Everything but the deletion of clusters.
abbrev operator : List Permission
operator = rule 7 "*" "*" "allow" ∷ rule 7 "cluster" "delete" "deny" ∷ []

check_permission_iff_example :
    check_permission (some operator) "cluster" "delete"
    ≡ some (
        any (matches "cluster" "delete") operator && not (any (denies "cluster" "delete") operator))
check_permission_iff_example = check_permission_iff "cluster" "delete" operator

predefined_permissions_lem_example :
    (check_permission (some (predefined_permissions "admin")) "user" "write" ≡ some true)
    × (check_permission (some (predefined_permissions "guest")) "user" "write"
        ≡ some ("read" =ˢ "write"))
    × (check_permission (some (predefined_permissions "member")) "user" "write"
        ≡ some (
            ("application" =ˢ "user")
            || ("workspace" =ˢ "user")
            || ("project" =ˢ "user")
            || ((("module" =ˢ "user") || ("user" =ˢ "user") || ("role" =ˢ "user"))
                && ("read" =ˢ "write"))))
predefined_permissions_lem_example = predefined_permissions_lem "user" "write"

-- Roles by name, with ids in the order of their creation, and rules.
abbrev Rows : Type 0
Rows = Map ℕ × List Permission

abbrev rules_of : ℕ → Rows → List Permission
rules_of id rows = select (λ p. eqb p.role_id id) rows.1

abbrev tables : Tables
tables = record {
  State = Rows;
  find_role = λ name rows. some (lookup name rows.0);
  create_role = λ name rows. some (length rows.0, ((name, length rows.0) ∷ rows.0, rows.1));
  count_permissions = λ id rows. some (length (rules_of id rows));
  create_permission = λ p rows. some (rows.0, rows.1 ++ p ∷ []);
}

tables-IsTables : IsTables tables rules_of
tables-IsTables = record {
  counted = λ id n s e. cc;
  added = λ p s s' id e.
      ap (λ o. elim o [ none ↦ rules_of id s | some left ↦ rules_of id left ]) (sym e)
      ∙ select-append (λ x. eqb x.role_id id) s.1 (p ∷ []);
  untouched = λ name s s' new id e.
      ap (λ o. elim o [ none ↦ rules_of id s | some created ↦ rules_of id created.1 ]) (sym e);
}

-- The role of a guest has a rule of its own already.
abbrev customised : Rows
customised = (("guest", 0) ∷ [], rule 0 "application" "read" "deny" ∷ [])

abbrev initialised : Rows
initialised = elim (init_roles tables customised) [ none ↦ customised | some rows ↦ rows ]

rules-init_roles_example : rules_of 0 initialised ≡ rules_of 0 customised
unfolding init_roles init_named init_role find_or_create_role init_permissions create_permissions
    predefined_permissions lookup
rules-init_roles_example =
    rules-init_roles tables rules_of tables-IsTables 0 customised initialised refl refl
