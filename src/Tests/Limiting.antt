-- ===== src/Tests/Limiting.antt =====
-- Tests of the rate limiter: two tokens a second, a burst of three.
use kumquat.Base.{ℕ, ◌+◌, ◌/◌, ◌≡◌, refl, true, ℤ, pos, pos_part, leb, lookup, if◌then◌else◌, arith}
use kumquat.Portal.Limiter.{RateLimiter, new_rate_limiter, allow}
use kumquat.Portal.Limiter.Steps.{requests, Reached, start, step, IsArithmetic, allow-after_wait}
use kumquat.Portal.Limiter.Burst.{IsExact, allowed_of, burst_and_one}
use kumquat.Tests.Samples.{whole_numbers}

abbrev seconds : ℤ → ℕ
seconds d = pos_part d / 1000000000

abbrev fresh : RateLimiter whole_numbers seconds
fresh = new_rate_limiter whole_numbers seconds 2 (pos 3)

fresh-IsArithmetic : IsArithmetic whole_numbers seconds 2 (pos 3)
fresh-IsArithmetic = record {
  adds = λ x y h k. ground arith;
  adds_one = λ x y h k. ground arith;
  subtracts = λ x h. ground arith;
  accrues = λ d. ground arith;
  monotone = λ d e l h. ground arith;
  burst_one = refl;
  burst_zero = refl;
}

-- Five requests of one client.
abbrev after_five : RateLimiter whole_numbers seconds
after_five =
    let ask : RateLimiter whole_numbers seconds → RateLimiter whole_numbers seconds =
      λ l. (allow whole_numbers seconds "10.0.0.1" (pos 7) l).1 in
    ask (ask (ask (ask (ask fresh))))

after_five-Reached : Reached whole_numbers seconds 2 (pos 3) (7, after_five)
after_five-Reached =
    let ask : (l : RateLimiter whole_numbers seconds)
        → Reached whole_numbers seconds 2 (pos 3) (7, l)
        → Reached whole_numbers seconds 2 (pos 3)
            (7, (allow whole_numbers seconds "10.0.0.1" (pos 7) l).1) =
      λ l r. step r (requests "10.0.0.1" 7 l) in
    ask _ (ask _ (ask _ (ask _ (ask _ (start 7)))))

allow-after_wait_example :
    (allow whole_numbers seconds "10.0.0.1" (pos (7 + 1000000000)) after_five).0 ≡ true
allow-after_wait_example =
    allow-after_wait whole_numbers seconds 2 (pos 3) fresh-IsArithmetic 7 1000000000 after_five
      after_five-Reached "10.0.0.1" refl

whole_numbers-IsExact : IsExact whole_numbers seconds 2
whole_numbers-IsExact = record {
  nothing_accrues = λ m h. omega arith;
  takes_one = λ m h. omega arith;
  at_least_one = λ m h. ground arith;
  compares = λ b m h k. refl;
}

burst_and_one_example :
    allowed_of whole_numbers seconds "10.0.0.1" 7 5 fresh ≡ (if leb 5 (3 + 1) then 5 else 3 + 1)
unfolding lookup
burst_and_one_example =
    burst_and_one whole_numbers seconds "10.0.0.1" 7 2 3 (omega arith) whole_numbers-IsExact 5 fresh
      refl refl refl
