-- ===== src/Portal/Limiter/Steps.antt =====
-- Runs of the rate limiter: requests and ticks of the cleanup while the clock goes on.
use kumquat.Base.{
  ℕ, ◌+◌, ◌≤◌, String, ◌≡◌, refl, sym, ap, subst, ◌∙◌, ◌-◌, ltb_ℤ, true, [], ◌∷◌, some, Map, ℤ, pos,
  ◌-ℤ◌, lookup, insert, All, ◌=ˢ◌, arith, Bool-cases, Option-cases, inl, inr,
}
use kumquat.Api.Floats.{Floats}
use kumquat.Portal.Limiter.{
  TokenBucket, RateLimiter, new_rate_limiter, at_least, refilled, with_bucket, allow, drop_stale,
  cleanup,
}

module _ (f : Floats) (seconds : ℤ → f.Float) where
  open f use {Float, of_int}

  abbrev zero : Float
  zero = of_int (pos 0)

  abbrev one : Float
  one = of_int (pos 1)

  -- The clock, in nanoseconds, and the limiter.
  abbrev pub Moment : Type 0
  Moment = ℕ × RateLimiter f seconds

  pub data Step : Moment → Moment → Type 0 where
    waits : (d now : ℕ) (l : RateLimiter f seconds) → Step (now, l) (now + d, l)
    requests :
        (key : String) (now : ℕ) (l : RateLimiter f seconds)
        → Step (now, l) (now, (allow f seconds key (pos now) l).1)
    cleans :
        (now : ℕ) (l : RateLimiter f seconds) → Step (now, l) (now, cleanup f seconds (pos now) l)

  -- What runs from the start lead to.
  pub data Reached (rate : Float) (burst : ℤ) : Moment → Type 0 where
    start : (now : ℕ) → Reached rate burst (now, new_rate_limiter f seconds rate burst)
    step : {a b : Moment} → Reached rate burst a → Step a b → Reached rate burst b

  -- What float64 gives for numbers that are not negative, and for a rate that is not.
  pub record IsArithmetic (rate : Float) (burst : ℤ) : Type 0 where
    pub adds :
        (x y : Float)
        → at_least f seconds x zero ≡ true
        → at_least f seconds y zero ≡ true
        → at_least f seconds (f.add x y) zero ≡ true
    pub adds_one :
        (x y : Float)
        → at_least f seconds x zero ≡ true
        → at_least f seconds y one ≡ true
        → at_least f seconds (f.add x y) one ≡ true
    pub subtracts :
        (x : Float) → at_least f seconds x one ≡ true → at_least f seconds (f.sub x one) zero ≡ true
    pub accrues : (d : ℕ) → at_least f seconds (f.mul (seconds (pos d)) rate) zero ≡ true
    pub monotone :
        (d e : ℕ)
        → d ≤ e
        → at_least f seconds (f.mul (seconds (pos d)) rate) one ≡ true
        → at_least f seconds (f.mul (seconds (pos e)) rate) one ≡ true
    -- the burst is at least one token
    pub burst_one : at_least f seconds (of_int burst) one ≡ true
    pub burst_zero : at_least f seconds (of_int burst) zero ≡ true

  -- Between requests a bucket holds no negative number of tokens, and was used in the past.
  pub record IsSound (now : ℕ) (b : TokenBucket f seconds) : Type 0 where
    pub natural : at_least f seconds b.tokens zero ≡ true
    pub used : ℕ
    pub used_then : b.last_time ≡ pos used
    pub past : used ≤ now

  abbrev AllSound : ℕ → Map (TokenBucket f seconds) → Type 0
  AllSound now buckets = All (λ e. IsSound now e.1) buckets

  later-AllSound :
      (now d : ℕ) (buckets : Map (TokenBucket f seconds))
      → AllSound now buckets
      → AllSound (now + d) buckets
  later-AllSound now d [] h = tt
  later-AllSound now d (e ∷ buckets) h = (
    record {
      natural = h.0.natural;
      used = h.0.used;
      used_then = h.0.used_then;
      past = omega (arith, h.0.past);
    },
    later-AllSound now d buckets h.1,
  )

  insert-AllSound :
      (now : ℕ) (key : String) (b : TokenBucket f seconds) (buckets : Map (TokenBucket f seconds))
      → IsSound now b
      → AllSound now buckets
      → AllSound now (insert key b buckets)
  unfolding insert
  insert-AllSound now key b [] s h = (s, tt)
  insert-AllSound now key b ((k, c) ∷ buckets) s h = elim (Bool-cases (k =ˢ key)) [
    | inl e ↦ rw e (s, h.1)
    | inr e ↦ rw e (h.0, insert-AllSound now key b buckets s h.1)
  ]

  lookup-AllSound :
      (now : ℕ) (key : String) (b : TokenBucket f seconds) (buckets : Map (TokenBucket f seconds))
      → AllSound now buckets
      → lookup key buckets ≡ some b
      → IsSound now b
  unfolding lookup
  lookup-AllSound now key b [] h e = cc
  lookup-AllSound now key b ((k, c) ∷ buckets) h e = elim (Bool-cases (k =ˢ key)) [
    | inl same ↦
        let found : some c ≡ some b = rw same at e in
        let equal : c ≡ b = cc in subst (IsSound now) equal h.0
    | inr other ↦ lookup-AllSound now key b buckets h.1 (rw other at e)
  ]

  drop_stale-AllSound :
      (now : ℕ) (cutoff : ℤ) (buckets : Map (TokenBucket f seconds))
      → AllSound now buckets
      → AllSound now (drop_stale f seconds cutoff buckets)
  unfolding drop_stale
  drop_stale-AllSound now cutoff [] h = tt
  drop_stale-AllSound now cutoff ((k, c) ∷ buckets) h =
      elim (Bool-cases (ltb_ℤ c.last_time cutoff)) [
        | inl e ↦ rw e (drop_stale-AllSound now cutoff buckets h.1)
        | inr e ↦ rw e (h.0, drop_stale-AllSound now cutoff buckets h.1)
      ]

  elapsed_lem : (now k : ℕ) → k ≤ now → (pos now -ℤ pos k) ≡ pos (now - k)
  unfolding ◌-ℤ◌
  elapsed_lem now k h = ground arith

  module _ (rate : Float) (burst : ℤ) (laws : IsArithmetic rate burst) where
    pub record IsValid (now : ℕ) (l : RateLimiter f seconds) : Type 0 where
      pub same_rate : l.rate ≡ rate
      pub same_burst : l.burst ≡ burst
      pub sound : AllSound now l.buckets

    -- The refill, from the tokens `t` of a bucket last used at `k`.
    refilled_from :
        (now k : ℕ) (l : RateLimiter f seconds) (b : TokenBucket f seconds)
        → l.rate ≡ rate
        → b.last_time ≡ pos k
        → k ≤ now
        → f.mul (seconds (pos now -ℤ b.last_time)) l.rate ≡ f.mul (seconds (pos (now - k))) rate
    refilled_from now k l b r e h =
        ap (λ t. f.mul (seconds (pos now -ℤ t)) l.rate) e
        ∙ ap (λ z. f.mul (seconds z) l.rate) (elapsed_lem now k h)
        ∙ ap (f.mul (seconds (pos (now - k)))) r

    -- A refill leaves at least as much as `x`, which the burst is, too.
    refilled_least :
        (x : Float) (now : ℕ) (l : RateLimiter f seconds) (b : TokenBucket f seconds)
        → l.burst ≡ burst
        → at_least f seconds (of_int burst) x ≡ true
        → at_least f seconds (f.add b.tokens (f.mul (seconds (pos now -ℤ b.last_time)) l.rate)) x
          ≡ true
        → at_least f seconds (refilled f seconds l b (pos now)) x ≡ true
    unfolding refilled
    refilled_least x now l b same full sum =
        elim (Bool-cases (
          f.less (of_int l.burst)
            (f.add b.tokens (f.mul (seconds (pos now -ℤ b.last_time)) l.rate)))) [
              | inl e ↦ rw (e, refilled) (ap (λ z. at_least f seconds (of_int z) x) same ∙ full)
              | inr e ↦ rw (e, refilled) sum
            ]

    with_bucket-IsValid :
        (key : String) (tokens : Float) (now : ℕ) (l : RateLimiter f seconds)
        → IsValid now l
        → at_least f seconds tokens zero ≡ true
        → IsValid now (with_bucket f seconds key tokens (pos now) l)
    with_bucket-IsValid key tokens now l v natural = record {
      same_rate = v.same_rate;
      same_burst = v.same_burst;
      sound =
          insert-AllSound now key (record { tokens = tokens; last_time = pos now }) l.buckets
            (record { natural = natural; used = now; used_then = refl; past = omega arith })
            v.sound;
    }

    refilled-natural :
        (now : ℕ) (l : RateLimiter f seconds) (b : TokenBucket f seconds)
        → IsValid now l
        → IsSound now b
        → at_least f seconds (refilled f seconds l b (pos now)) zero ≡ true
    refilled-natural now l b v s = refilled_least zero now l b v.same_burst laws.burst_zero (
        subst (λ y. at_least f seconds (f.add b.tokens y) zero ≡ true)
          (sym (refilled_from now s.used l b v.same_rate s.used_then s.past))
          (laws.adds b.tokens _ s.natural (laws.accrues (now - s.used))))

    allow-IsValid :
        (key : String) (now : ℕ) (l : RateLimiter f seconds)
        → IsValid now l
        → IsValid now (allow f seconds key (pos now) l).1
    unfolding allow
    allow-IsValid key now l v = elim (Option-cases (lookup key l.buckets)) [
      | inl e ↦
          rw (e, allow)
            (with_bucket-IsValid key (of_int l.burst) now l v
              (ap (λ z. at_least f seconds (of_int z) zero) v.same_burst ∙ laws.burst_zero))
      | inr (b, e) ↦
          let tokens : Float = refilled f seconds l b (pos now) in
          let natural : at_least f seconds tokens zero ≡ true =
            refilled-natural now l b v (lookup-AllSound now key b l.buckets v.sound e) in
          elim (Bool-cases (at_least f seconds tokens one)) [
            | inl enough ↦
                rw (e, enough, allow)
                  (with_bucket-IsValid key (f.sub tokens one) now l v
                    (laws.subtracts tokens enough))
            | inr short ↦ rw (e, short, allow) (with_bucket-IsValid key tokens now l v natural)
          ]
    ]

    later-IsValid : (now d : ℕ) (l : RateLimiter f seconds) → IsValid now l → IsValid (now + d) l
    later-IsValid now d l v = record {
      same_rate = v.same_rate;
      same_burst = v.same_burst;
      sound = later-AllSound now d l.buckets v.sound;
    }

    Step-IsValid : {a b : Moment} → Step a b → IsValid a.0 a.1 → IsValid b.0 b.1
    unfolding cleanup
    Step-IsValid (waits d now l) v = later-IsValid now d l v
    Step-IsValid (requests key now l) v = allow-IsValid key now l v
    Step-IsValid (cleans now l) v = record {
      same_rate = v.same_rate;
      same_burst = v.same_burst;
      sound = drop_stale-AllSound now (pos now -ℤ l.cleanup_interval) l.buckets v.sound;
    }

    Reached-IsValid : {a : Moment} → Reached rate burst a → IsValid a.0 a.1
    Reached-IsValid (start now) = record { same_rate = refl; same_burst = refl; sound = tt }
    Reached-IsValid (step before taken) = Step-IsValid taken (Reached-IsValid before)

    -- Whatever requests and cleanups came before, a client that waits for as long as one token takes
    -- to accrue is served, where the burst is at least one token and float64 keeps the order of the
    -- sums and products in question.
    pub allow-after_wait :
        (now d : ℕ) (l : RateLimiter f seconds) (reached : Reached rate burst (now, l))
        (key : String) (long_enough : at_least f seconds (f.mul (seconds (pos d)) rate) one ≡ true)
        → (allow f seconds key (pos (now + d)) l).0 ≡ true
    unfolding allow
    allow-after_wait now d l reached key long_enough =
        let v = later-IsValid now d l (Reached-IsValid reached) in
        elim (Option-cases (lookup key l.buckets)) [
          | inl e ↦ rw (e, allow) refl
          | inr (b, e) ↦
              let s = lookup-AllSound now key b l.buckets (Reached-IsValid reached).sound e in
              let enough : at_least f seconds (refilled f seconds l b (pos (now + d))) one ≡ true =
                refilled_least one (now + d) l b v.same_burst laws.burst_one (
                  subst (λ y. at_least f seconds (f.add b.tokens y) one ≡ true)
                    (sym (
                      refilled_from (now + d) s.used l b v.same_rate s.used_then
                        (omega (arith, s.past))))
                    (laws.adds_one b.tokens _ s.natural
                      (laws.monotone d (now + d - s.used) (omega (arith, s.past)) long_enough))) in
              rw (e, enough, allow) refl
        ]
