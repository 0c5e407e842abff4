-- ===== src/Tests/Samples.antt =====
-- Clusters, an application and instances of the parameters that the tests share.
use kumquat.Base.{
  ℕ, ◌+◌, ◌-◌, ◌*◌, ◌/◌, ltb, eqb, if◌then◌else◌, String, false, List, [], ◌∷◌, some, ℤ, pos,
  pos_part, ◌+ℤ◌, ◌-ℤ◌, ltb_ℤ, eqb_ℤ, to_int32,
}
use kumquat.Api.{Application, ManagedCluster, Resources, ClusterTopology, NodeAffinity, in_values}
use kumquat.Api.Floats.{Floats}

-- Quantities as integers, and one container that requests two units of each resource.
abbrev pub whole_units : Resources
whole_units = record {
  Quantity = ℤ;
  none_of = pos 0;
  add = λ a b. a +ℤ b;
  sub = λ a b. a -ℤ b;
  is_zero = λ a. eqb_ℤ a (pos 0);
  is_negative = λ a. ltb_ℤ a (pos 0);
  less = λ a b. ltb_ℤ a b;
  milli_value = λ a. a;
  value = λ a. a;
  unmarshal = λ bytes. some (record {
    containers = (("cpu", pos 2) ∷ ("memory", pos 2) ∷ []) ∷ [];
    init_containers = [];
    volumes = [];
  });
}

-- Numbers that are not negative, as fractions; a difference stops at 0.
abbrev pub fractions : Floats
fractions = record {
  Float = ℕ × ℕ;
  of_int = λ z. (pos_part z, 1);
  add = λ x y. (x.0 * y.1 + y.0 * x.1, x.1 * y.1);
  sub = λ x y. (x.0 * y.1 - y.0 * x.1, x.1 * y.1);
  mul = λ x y. (x.0 * y.0, x.1 * y.1);
  div = λ x y. (x.0 * y.1, x.1 * y.0);
  ceil = λ x. ((x.0 + x.1 - 1) / x.1, 1);
  floor = λ x. (x.0 / x.1, 1);
  max = λ x y. if ltb (x.0 * y.1) (y.0 * x.1) then y else x;
  less = λ x y. ltb (x.0 * y.1) (y.0 * x.1);
  equal = λ x y. eqb (x.0 * y.1) (y.0 * x.1);
  to_int = λ x. to_int32 (pos (x.0 / x.1));
}

-- Numbers that are natural; quotients are rounded down.
abbrev pub whole_numbers : Floats
whole_numbers = record {
  Float = ℕ;
  of_int = λ z. pos_part z;
  add = λ x y. x + y;
  sub = λ x y. x - y;
  mul = λ x y. x * y;
  div = λ x y. x / y;
  ceil = λ x. x;
  floor = λ x. x;
  max = λ x y. if ltb x y then y else x;
  less = λ x y. ltb x y;
  equal = λ x y. eqb x y;
  to_int = λ x. to_int32 (pos x);
}

abbrev pub in_zone : String → String → ManagedCluster ℤ
in_zone name zone = record {
  name = name;
  labels = ("zone", zone) ∷ [];
  deleting = false;
  taints = [];
  resource_summary =
      record {
        name = "default";
        allocatable = ("cpu", pos 10) ∷ ("memory", pos 10) ∷ [];
        allocating = [];
        allocated = [];
      }
      ∷ [];
  conditions = [];
}

abbrev pub wants_zone : String → NodeAffinity
wants_zone zone = record {
  required = some (
      record {
        match_expressions = record { key = "zone"; operator = in_values; values = zone ∷ [] } ∷ [];
        match_fields = [];
      }
      ∷ []);
  preferred = [];
}

abbrev pub sized : String → ℕ → ClusterTopology
sized name n = record { name = name; replicas = pos n }

abbrev pub stateful_app : ℕ → List ClusterTopology → Application
stateful_app n topology = record {
  name = "db";
  namespace = "prod";
  annotations = [];
  workload_kind = "StatefulSet";
  replicas = some (pos n);
  template = 1 ∷ [];
  cluster_affinity = some (wants_zone "a");
  cluster_tolerations = [];
  scheduling_phase = "Pending";
  topology = topology;
}
