-- ===== src/Api/Floats.antt =====
-- What the scheduler, the rollout code and the portal take from float64 and package math, as
-- parameters.
use kumquat.Base.{Bool, ℕ, ◌+◌, ◌-◌, ◌*◌, ◌/◌, ◌<◌, ◌≡◌, ℤ, pos}

pub record Floats : Type 1 where
  pub Float : Type 0
  -- float64(n)
  pub of_int : ℤ → Float
  pub add : Float → Float → Float
  pub sub : Float → Float → Float
  pub mul : Float → Float → Float
  pub div : Float → Float → Float
  -- math.Ceil
  pub ceil : Float → Float
  -- math.Floor
  pub floor : Float → Float
  -- math.Max
  pub max : Float → Float → Float
  -- x < y
  pub less : Float → Float → Bool
  -- x == y
  pub equal : Float → Float → Bool
  -- int32(x), which truncates
  pub to_int : Float → ℤ

-- int32(math.Ceil(float64(a) * float64(b) / float64(c)))
abbrev pub ceil_share : Floats → ℤ → ℤ → ℤ → ℤ
ceil_share f a b c = f.to_int (f.ceil (f.div (f.mul (f.of_int a) (f.of_int b)) (f.of_int c)))

-- What IEEE arithmetic gives where the product is exact: the quotient rounded up.
abbrev pub IsCeiling : Floats → Type 0
IsCeiling f =
    (a b c : ℕ)
    → a * b < 9007199254740992
    → 0 < c
    → c < 2147483648
    → (a * b + c - 1) / c < 2147483648
    → ceil_share f (pos a) (pos b) (pos c) ≡ pos ((a * b + c - 1) / c)
