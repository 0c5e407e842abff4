-- ===== src/Cache/Requests.antt =====
-- CalculatePodResources, AddResourceList and MaxResourceList of
-- engine/internal/manager/scheduler/cache/cache.go.
use kumquat.Base.{List, [], ◌∷◌, Option, none, some, lookup, insert, is_nil, if◌then◌else◌}
use kumquat.Api.{Application, Resources, ResourceList}

module _ (r : Resources) where
  open r use {Quantity, add, less, unmarshal}

  pub add_resource_list : ResourceList Quantity → ResourceList Quantity → ResourceList Quantity
  add_resource_list list [] = list
  add_resource_list list ((name, quantity) ∷ new) =
      add_resource_list
        (elim (lookup name list) [
          | none ↦ insert name quantity list
          | some value ↦ insert name (add value quantity) list
        ])
        new

  pub max_resource_list : ResourceList Quantity → ResourceList Quantity → ResourceList Quantity
  max_resource_list list [] = list
  max_resource_list list ((name, quantity) ∷ new) =
      max_resource_list
        (elim (lookup name list) [
          | none ↦ insert name quantity list
          | some value ↦ if less value quantity then insert name quantity list else list
        ])
        new

  add_containers : ResourceList Quantity → List (ResourceList Quantity) → ResourceList Quantity
  add_containers list [] = list
  add_containers list (c ∷ cs) = add_containers (add_resource_list list c) cs

  max_containers : ResourceList Quantity → List (ResourceList Quantity) → ResourceList Quantity
  max_containers list [] = list
  max_containers list (c ∷ cs) = max_containers (max_resource_list list c) cs

  -- nil is `none`: no template, or one that cannot be decoded
  unfoldable pub calculate_pod_resources : Application → Option (ResourceList Quantity)
  unfolding add_containers max_containers add_resource_list max_resource_list
  calculate_pod_resources app =
      if is_nil app.template then none else (elim (unmarshal app.template) [
        | none ↦ none
        | some template ↦
            some (max_containers (add_containers [] template.containers) template.init_containers)
      ])
