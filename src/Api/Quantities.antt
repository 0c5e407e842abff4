-- ===== src/Api/Quantities.antt =====
-- What the code takes from Kubernetes' resource.Quantity and from the decoding of a pod template.
-- The type and its operations are parameters; the laws say that a quantity stands for an exact
-- amount and that its operations compute with it.
use kumquat.Base.{ℕ, ◌≡◌, ℤ, ◌+ℤ◌, ◌-ℤ◌, pos, ltb_ℤ, eqb_ℤ, Bool, List, Option, Map}

-- v1.Container, v1.Volume and v1.PodTemplateSpec, as far as the scheduler reads them.
pub record PodTemplate (Quantity : Type 0) : Type 0 where
  -- the requests of the containers and of the init containers
  pub containers : List (Map Quantity)
  pub init_containers : List (Map Quantity)
  -- for each volume, whether it is a persistent volume claim
  pub volumes : List Bool

pub record Resources : Type 1 where
  pub Quantity : Type 0
  pub none_of : Quantity
  pub add : Quantity → Quantity → Quantity
  pub sub : Quantity → Quantity → Quantity
  pub is_zero : Quantity → Bool
  -- q.Sign() < 0
  pub is_negative : Quantity → Bool
  -- a.Cmp(b) < 0
  pub less : Quantity → Quantity → Bool
  pub milli_value : Quantity → ℤ
  pub value : Quantity → ℤ
  -- json.Unmarshal of a raw pod template
  pub unmarshal : List ℕ → Option (PodTemplate Quantity)

-- The documented meaning of the operations: a quantity is an exact amount.
pub record IsExact (r : Resources) : Type 0 where
  pub amount : r.Quantity → ℤ
  pub amount-none_of : amount r.none_of ≡ pos 0
  pub amount-add : (a b : r.Quantity) → amount (r.add a b) ≡ amount a +ℤ amount b
  pub amount-sub : (a b : r.Quantity) → amount (r.sub a b) ≡ amount a -ℤ amount b
  pub is_zero_lem : (a : r.Quantity) → r.is_zero a ≡ eqb_ℤ (amount a) (pos 0)
  pub is_negative_lem : (a : r.Quantity) → r.is_negative a ≡ ltb_ℤ (amount a) (pos 0)
  pub less_lem : (a b : r.Quantity) → r.less a b ≡ ltb_ℤ (amount a) (amount b)
