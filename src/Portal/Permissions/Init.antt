-- ===== src/Portal/Permissions/Init.antt =====
-- InitRoles of apiserver/pkg/service/role.go over tables that keep their documented laws.
use kumquat.Base.{
  ℕ, String, ◌≡◌, sym, ap, ◌∙◌, true, false, List, [], ◌∷◌, ◌++◌, none, some, eqb, length, is_nil,
  arith, if◌then◌else◌, Bool-cases, Option-cases, inl, inr,
}
use kumquat.Portal.Permissions.{
  Permission, Tables, predefined_permissions, find_or_create_role, create_permissions,
  init_permissions, init_role, init_named, init_roles,
}
use mathlib.Core.List.{append-nil}

-- What the database promises of the rules that it lists for a role: Count counts them, Create of a
-- permission adds it to those of its role, and Create of a role leaves all rules as they are.
pub record IsTables (t : Tables) (rules : ℕ → t.State → List Permission) : Type 0 where
  pub counted :
      (id n : ℕ) (s : t.State) → t.count_permissions id s ≡ some n → n ≡ length (rules id s)
  pub added :
      (p : Permission) (s s' : t.State) (id : ℕ)
      → t.create_permission p s ≡ some s'
      → rules id s' ≡ rules id s ++ (if eqb p.role_id id then p ∷ [] else [])
  pub untouched :
      (name : String) (s s' : t.State) (new id : ℕ)
      → t.create_role name s ≡ some (new, s')
      → rules id s' ≡ rules id s

module _ (t : Tables) (rules : ℕ → t.State → List Permission) (laws : IsTables t rules)
    (id : ℕ) where
  open t use {State}

  rules-find_or_create_role :
      (name : String) (s s' : State) (found : ℕ)
      → find_or_create_role t name s ≡ some (found, s')
      → rules id s' ≡ rules id s
  unfolding find_or_create_role
  rules-find_or_create_role name s s' new e = elim (Option-cases (t.find_role name s)) [
    | inl f ↦ cc (rw (f, find_or_create_role) at e)
    | inr (answer, f) ↦ elim (Option-cases answer) [
      | inl g ↦ laws.untouched name s s' new id (rw (f, g, find_or_create_role) at e)
      | inr (old, g) ↦
          let same : some (old, s) ≡ some (new, s') = rw (f, g, find_or_create_role) at e in
          ap (λ o. elim o [ none ↦ rules id s | some answered ↦ rules id answered.1 ]) (sym same)
    ]
  ]

  -- Rules that are created for another role.
  rules-create_permissions :
      (other : ℕ) (perms : List Permission) (s s' : State)
      → eqb other id ≡ false
      → create_permissions t other perms s ≡ some s'
      → rules id s' ≡ rules id s
  unfolding create_permissions
  rules-create_permissions other [] s s' d e =
      ap (λ o. elim o [ none ↦ rules id s | some left ↦ rules id left ]) (sym e)
  rules-create_permissions other (p ∷ perms) s s' d e =
      elim (Option-cases (t.create_permission (record p { role_id = other }) s)) [
        | inl f ↦ cc (rw (f, create_permissions) at e)
        | inr (s1, f) ↦
            let one : rules id s1 ≡ rules id s =
              laws.added (record p { role_id = other }) s s1 id f
              ∙ ap (λ b. rules id s ++ (if b then record p { role_id = other } ∷ [] else [])) d
              ∙ append-nil (rules id s) in
            rules-create_permissions other perms s1 s' d (rw (f, create_permissions) at e) ∙ one
      ]

  has_rules :
      (s : State) (n : ℕ) → is_nil (rules id s) ≡ false → n ≡ length (rules id s) → eqb n 0 ≡ false
  has_rules s n h e = counted (rules id s) h e
    where
      counted : (ps : List Permission) → is_nil ps ≡ false → n ≡ length ps → eqb n 0 ≡ false
      counted [] k e = cc
      counted (p ∷ ps) k e = ground arith

  rules-init_permissions :
      (name : String) (other : ℕ) (s s' : State)
      → is_nil (rules id s) ≡ false
      → init_permissions t name other s ≡ some s'
      → rules id s' ≡ rules id s
  unfolding init_permissions
  rules-init_permissions name other s s' h e = elim (Option-cases (t.count_permissions other s)) [
    | inl f ↦ cc (rw (f, init_permissions) at e)
    | inr (n, f) ↦ elim (Bool-cases (eqb n 0)) [
      | inr some_rules ↦
          ap (λ o. elim o [ none ↦ rules id s | some left ↦ rules id left ])
            (sym (rw (f, some_rules, init_permissions) at e))
      | inl no_rules ↦
          rules-create_permissions other (predefined_permissions name) s s'
            (another other n no_rules (laws.counted other n s f))
            (rw (f, no_rules, init_permissions) at e)
    ]
  ]
    where
      another : (other n : ℕ) → eqb n 0 ≡ true → n ≡ length (rules other s) → eqb other id ≡ false
      another other n zero_rules counted = elim (Bool-cases (eqb other id)) [
        | inr e ↦ e
        | inl e ↦
            let same : other ≡ id = ground arith in
            let some_rules : eqb n 0 ≡ false =
              has_rules s n h (counted ∙ ap (λ j. length (rules j s)) same) in
            cc
      ]

  rules-init_role :
      (name : String) (s s' : State)
      → is_nil (rules id s) ≡ false
      → init_role t name s ≡ some s'
      → rules id s' ≡ rules id s
  unfolding init_role
  rules-init_role name s s' h e = elim (Option-cases (find_or_create_role t name s)) [
    | inl f ↦ cc (rw (f, init_role) at e)
    | inr ((role, s1), f) ↦
        let same : rules id s1 ≡ rules id s = rules-find_or_create_role name s s1 role f in
        rules-init_permissions name role s1 s' (ap is_nil same ∙ h) (rw (f, init_role) at e) ∙ same
  ]

  rules-init_named :
      (names : List String) (s s' : State)
      → is_nil (rules id s) ≡ false
      → init_named t names s ≡ some s'
      → rules id s' ≡ rules id s
  unfolding init_named
  rules-init_named [] s s' h e =
      ap (λ o. elim o [ none ↦ rules id s | some left ↦ rules id left ]) (sym e)
  rules-init_named (name ∷ names) s s' h e = elim (Option-cases (init_role t name s)) [
    | inl f ↦ cc (rw (f, init_named) at e)
    | inr (s1, f) ↦
        let same : rules id s1 ≡ rules id s = rules-init_role name s s1 h f in
        rules-init_named names s1 s' (ap is_nil same ∙ h) (rw (f, init_named) at e) ∙ same
  ]

  -- InitRoles, where it succeeds, leaves the rules of every role that has some as they are, provided
  -- that the tables count and add rules as documented.
  pub rules-init_roles :
      (s s' : State) (customised : is_nil (rules id s) ≡ false) (done : init_roles t s ≡ some s')
      → rules id s' ≡ rules id s
  unfolding init_roles
  rules-init_roles s s' customised done =
      rules-init_named ("admin" ∷ "member" ∷ "guest" ∷ []) s s' customised done
