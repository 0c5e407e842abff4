-- ===== src/Portal/Permissions/Rules.antt =====
-- What CheckPermission answers.
use mathlib.Core.List.{Permᴰ}
use kumquat.Base.{
  String, ◌≡◌, refl, sym, ap, ◌∙◌, Bool, true, false, not, ◌&&◌, ◌||◌, List, [], ◌∷◌, some, any,
  all, ◌=ˢ◌, arith,
}
use kumquat.Portal.Permissions.{
  Permission, effect_deny, predefined_permissions, match_permission, check_rules, check_permission,
}

module _ (resource action : String) where
  abbrev pub matches : Permission → Bool
  matches p = match_permission p.resource p.action resource action

  abbrev pub denies : Permission → Bool
  denies p = matches p && (p.effect =ˢ effect_deny)

  check_rules_lem :
      (allowed : Bool) (perms : List Permission)
      → check_rules resource action allowed perms
        ≡ ((allowed || any matches perms) && not (any denies perms))
  unfolding check_rules
  check_rules_lem allowed [] = ground arith
  check_rules_lem allowed (p ∷ perms) =
      ground (arith, check_rules_lem allowed perms, check_rules_lem true perms)

  -- Where the database answers, a request is allowed exactly when some rule of the role matches it
  -- and no rule that denies does.
  pub check_permission_iff :
      (perms : List Permission)
      → check_permission (some perms) resource action
        ≡ some (any matches perms && not (any denies perms))
  unfolding check_permission
  check_permission_iff perms = ap some (check_rules_lem false perms)

  any-perm : (p : Permission → Bool) {xs ys : List Permission} → Permᴰ xs ys → any p xs ≡ any p ys
  any-perm p Permᴰ.nil = refl
  any-perm p (Permᴰ.cons e d) = ground (arith, ap p e, any-perm p d)
  any-perm p (Permᴰ.swap e d) = ground (arith, ap p e, ap p d)
  any-perm p (Permᴰ.trans d e) = any-perm p d ∙ any-perm p e

  -- The order in which the database lists the rules does not matter.
  pub check_permission-perm :
      {xs ys : List Permission} (reordered : Permᴰ xs ys)
      → check_permission (some xs) resource action ≡ check_permission (some ys) resource action
  check_permission-perm {xs} {ys} reordered =
      check_permission_iff xs
      ∙ ap (λ b. some (b && not (any denies xs))) (any-perm matches reordered)
      ∙ ap (λ b. some (any matches ys && not b)) (any-perm denies reordered)
      ∙ sym (check_permission_iff ys)

  -- Where no rule denies, a match is enough.
  any_allowed :
      (perms : List Permission)
      → all (λ p. not (p.effect =ˢ effect_deny)) perms ≡ true
      → check_permission (some perms) resource action ≡ some (any matches perms)
  any_allowed perms h = check_permission_iff perms ∙ ap some (ground (arith, no_denial perms h))
    where
      no_denial :
          (ps : List Permission)
          → all (λ p. not (p.effect =ˢ effect_deny)) ps ≡ true
          → any denies ps ≡ false
      no_denial [] k = refl
      no_denial (p ∷ ps) k = ground (arith, no_denial ps)

  -- By the predefined rules an admin may do everything, a guest may read everything and do nothing
  -- else, and a member may do everything with applications, workspaces and projects, read modules,
  -- users and roles, and do nothing else.
  pub predefined_permissions_lem :
      (check_permission (some (predefined_permissions "admin")) resource action ≡ some true)
      × (check_permission (some (predefined_permissions "guest")) resource action
          ≡ some ("read" =ˢ action))
      × (check_permission (some (predefined_permissions "member")) resource action
          ≡ some (
              ("application" =ˢ resource)
              || ("workspace" =ˢ resource)
              || ("project" =ˢ resource)
              || ((("module" =ˢ resource) || ("user" =ˢ resource) || ("role" =ˢ resource))
                  && ("read" =ˢ action))))
  unfolding predefined_permissions match_permission
  predefined_permissions_lem = (
    any_allowed (predefined_permissions "admin") refl,
    any_allowed (predefined_permissions "guest") refl ∙ ap some (ground arith),
    any_allowed (predefined_permissions "member") refl ∙ ap some (ground arith),
  )
