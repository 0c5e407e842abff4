-- ===== src/Portal/Limiter/Burst.antt =====
-- Requests of one client at one moment.
use kumquat.Base.{
  ℕ, zero, suc, ◌+◌, ◌-◌, ◌≤◌, ◌<◌, String, ◌≡◌, refl, ap, ◌∙◌, true, false, none, some, ℤ, pos,
  ◌-ℤ◌, ltb, leb, lookup, lookup-insert, eq_iff, if◌then◌else◌, arith, Bool-cases, inl, inr,
}
use kumquat.Api.Floats.{Floats}
use kumquat.Portal.Limiter.{TokenBucket, RateLimiter, at_least, refilled, with_bucket, allow}

-- What float64 gives exactly for the integers up to 2^53.
pub record IsExact (f : Floats) (seconds : ℤ → f.Float) (rate : f.Float) : Type 0 where
  -- no time, no tokens
  pub nothing_accrues :
      (m : ℕ)
      → m < 9007199254740992
      → f.add (f.of_int (pos m)) (f.mul (seconds (pos 0)) rate) ≡ f.of_int (pos m)
  pub takes_one :
      (m : ℕ)
      → m < 9007199254740992
      → f.sub (f.of_int (pos (m + 1))) (f.of_int (pos 1)) ≡ f.of_int (pos m)
  pub at_least_one :
      (m : ℕ)
      → m < 9007199254740992
      → at_least f seconds (f.of_int (pos m)) (f.of_int (pos 1)) ≡ leb 1 m
  pub compares :
      (b m : ℕ)
      → b < 9007199254740992
      → m < 9007199254740992
      → f.less (f.of_int (pos b)) (f.of_int (pos m)) ≡ ltb b m

module _ (f : Floats) (seconds : ℤ → f.Float) (key : String) (now : ℕ) where
  open f use {of_int}

  -- How many of `n` requests at the moment `now` are allowed.
  pub allowed_of : ℕ → RateLimiter f seconds → ℕ
  allowed_of zero l = 0
  allowed_of (suc n) l =
      let (ok, l') = allow f seconds key (pos now) l in (if ok then 1 else 0) + allowed_of n l'

  abbrev bucket : ℕ → TokenBucket f seconds
  bucket m = record { tokens = of_int (pos m); last_time = pos now }

  module _ (rate : f.Float) (b : ℕ) (small : b < 9007199254740992)
      (laws : IsExact f seconds rate) where
    no_time : (pos now -ℤ pos now) ≡ pos 0
    unfolding ◌-ℤ◌
    no_time = ground arith

    refilled_now :
        (m : ℕ) (l : RateLimiter f seconds)
        → l.rate ≡ rate
        → l.burst ≡ pos b
        → m ≤ b
        → refilled f seconds l (bucket m) (pos now) ≡ of_int (pos m)
    unfolding refilled
    refilled_now m l r e h =
        let same : f.add (of_int (pos m)) (f.mul (seconds (pos now -ℤ pos now)) l.rate)
            ≡ of_int (pos m) =
          ap (λ z. f.add (of_int (pos m)) (f.mul (seconds z) l.rate)) no_time
          ∙ ap (λ t. f.add (of_int (pos m)) (f.mul (seconds (pos 0)) t)) r
          ∙ laws.nothing_accrues m (omega arith) in
        let below : f.less (of_int l.burst) (of_int (pos m)) ≡ false =
          ap (λ z. f.less (of_int z) (of_int (pos m))) e
          ∙ laws.compares b m small (omega arith)
          ∙ ground arith in
        rw (same, below) refl

    known_after :
        (m : ℕ) (l : RateLimiter f seconds)
        → lookup key (with_bucket f seconds key (of_int (pos m)) (pos now) l).buckets
          ≡ some (bucket m)
    known_after m l = ground (arith, lookup-insert key key (bucket m) l.buckets, eq_iff key key)

    allow_empty :
        (l : RateLimiter f seconds)
        → l.rate ≡ rate
        → l.burst ≡ pos b
        → lookup key l.buckets ≡ some (bucket 0)
        → allow f seconds key (pos now) l
          ≡ (false, with_bucket f seconds key (of_int (pos 0)) (pos now) l)
    unfolding allow
    allow_empty l r e known =
        let short : at_least f seconds (of_int (pos 0)) (of_int (pos 1)) ≡ false =
          laws.at_least_one 0 (omega arith) in
        rw (known, refilled_now 0 l r e (omega arith), short, allow) refl

    allow_filled :
        (m : ℕ) (l : RateLimiter f seconds)
        → l.rate ≡ rate
        → l.burst ≡ pos b
        → m + 1 ≤ b
        → lookup key l.buckets ≡ some (bucket (m + 1))
        → allow f seconds key (pos now) l
          ≡ (true, with_bucket f seconds key (of_int (pos m)) (pos now) l)
    unfolding allow
    allow_filled m l r e h known =
        let enough : at_least f seconds (of_int (pos (m + 1))) (of_int (pos 1)) ≡ true =
          laws.at_least_one (m + 1) (omega arith) ∙ ground arith in
        rw (known, refilled_now (m + 1) l r e h, enough, laws.takes_one m (omega arith), allow) refl

    -- From a bucket of `m` tokens, `m` requests are allowed.
    allowed_from :
        (n m : ℕ) (l : RateLimiter f seconds)
        → l.rate ≡ rate
        → l.burst ≡ pos b
        → m ≤ b
        → lookup key l.buckets ≡ some (bucket m)
        → allowed_of n l ≡ (if leb n m then n else m)
    unfolding allowed_of
    allowed_from zero m l r e h known = ground arith
    allowed_from (suc n) m l r e h known = elim (Bool-cases (leb 1 m)) [
      | inr none_left ↦
          let empty : lookup key l.buckets ≡ some (bucket 0) =
            known ∙ ap (λ j. some (bucket j)) (ground arith) in
          let l' = with_bucket f seconds key (of_int (pos 0)) (pos now) l in
          let rest = allowed_from n 0 l' r e (omega arith) (known_after 0 l) in
          ap (λ o. (if o.0 then 1 else 0) + allowed_of n o.1) (allow_empty l r e empty)
          ∙ ground (arith, rest)
      | inl some_left ↦
          let filled : lookup key l.buckets ≡ some (bucket (m - 1 + 1)) =
            known ∙ ap (λ j. some (bucket j)) (ground arith) in
          let l' = with_bucket f seconds key (of_int (pos (m - 1))) (pos now) l in
          let rest = allowed_from n (m - 1) l' r e (omega arith) (known_after (m - 1) l) in
          ap (λ o. (if o.0 then 1 else 0) + allowed_of n o.1)
            (allow_filled (m - 1) l r e (ground arith) filled)
          ∙ ground (arith, rest)
    ]

    -- Of `n` requests of a new client at one moment one more than the burst is allowed, or all where
    -- they are fewer, where the burst is below 2^53 and float64 calculates exactly with the integers
    -- up to it.
    pub burst_and_one :
        (n : ℕ) (l : RateLimiter f seconds) (same_rate : l.rate ≡ rate)
        (same_burst : l.burst ≡ pos b) (unknown : lookup key l.buckets ≡ none)
        → allowed_of n l ≡ (if leb n (b + 1) then n else b + 1)
    unfolding allowed_of allow
    burst_and_one zero l r e unknown = ground arith
    burst_and_one (suc n) l r e unknown =
        let l' = with_bucket f seconds key (of_int (pos b)) (pos now) l in
        let rest = allowed_from n b l' r e (omega arith) (known_after b l) in
        let first : allow f seconds key (pos now) l ≡ (true, l') = rw (unknown, e, allow) refl in
        ap (λ o. (if o.0 then 1 else 0) + allowed_of n o.1) first ∙ ground (arith, rest)
