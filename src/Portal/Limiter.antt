-- ===== src/Portal/Limiter.antt =====
-- apiserver/pkg/middleware/rate_limiter.go
pub mod Steps
pub mod Burst
use kumquat.Base.{
  ℕ, String, Bool, true, false, not, ◌||◌, List, [], ◌∷◌, Option, none, some, Map, ℤ, pos, ltb_ℤ,
  ◌-ℤ◌, lookup, insert, delete, if◌then◌else◌,
}
use kumquat.Api.Floats.{Floats}

-- A point in time counts nanoseconds. `seconds` is the method of time.Duration.
module _ (f : Floats) (seconds : ℤ → f.Float) where
  open f use {Float, of_int, less, equal}

  pub record TokenBucket : Type 0 where
    pub tokens : Float
    pub last_time : ℤ

  pub record RateLimiter : Type 0 where
    pub buckets : Map TokenBucket
    pub rate : Float
    pub burst : ℤ
    pub cleanup_interval : ℤ

  -- 10 * time.Minute
  abbrev pub new_rate_limiter : Float → ℤ → RateLimiter
  new_rate_limiter rate burst = record {
    buckets = [];
    rate = rate;
    burst = burst;
    cleanup_interval = pos 600000000000;
  }

  abbrev pub at_least : Float → Float → Bool
  at_least x y = less y x || equal x y

  -- b.tokens after the refill up to the burst
  unfoldable pub refilled : RateLimiter → TokenBucket → ℤ → Float
  refilled l b now =
      let sum = f.add b.tokens (f.mul (seconds (now -ℤ b.last_time)) l.rate) in
      if less (of_int l.burst) sum then of_int l.burst else sum

  abbrev pub with_bucket : String → Float → ℤ → RateLimiter → RateLimiter
  with_bucket key tokens now l = record l {
    buckets = insert key (record { tokens = tokens; last_time = now }) l.buckets;
  }

  -- allow(key) at the time `now`
  unfoldable pub allow : String → ℤ → RateLimiter → Bool × RateLimiter
  allow key now l = elim (lookup key l.buckets) [
    | none ↦ (true, with_bucket key (of_int l.burst) now l)
    | some b ↦
        let tokens = refilled l b now in
        if at_least tokens (of_int (pos 1))
        then (true, with_bucket key (f.sub tokens (of_int (pos 1))) now l)
        else (false, with_bucket key tokens now l)
  ]

  unfoldable pub drop_stale : ℤ → Map TokenBucket → Map TokenBucket
  drop_stale cutoff [] = []
  drop_stale cutoff ((key, b) ∷ buckets) =
      let rest = drop_stale cutoff buckets in
      if ltb_ℤ b.last_time cutoff then rest else (key, b) ∷ rest

  -- A tick of cleanup.
  unfoldable pub cleanup : ℤ → RateLimiter → RateLimiter
  cleanup now l = record l { buckets = drop_stale (now -ℤ l.cleanup_interval) l.buckets }

-- The status that the middleware answers with, or that it calls the next handler.
pub data Served : Type 0 where
  too_many_requests next_handler : Served

-- RateLimit and RateLimitWithKey, for the key of the request.
pub serve :
    (f : Floats) (seconds : ℤ → f.Float)
    → String
    → ℤ
    → RateLimiter f seconds
    → Served × RateLimiter f seconds
serve f seconds key now l =
    let (allowed, l') = allow f seconds key now l in
    if not allowed then (too_many_requests, l') else (next_handler, l')
