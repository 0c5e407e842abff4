-- ===== src/Framework/Normalize.antt =====
-- The range and the order of the scores after normalizeFinalScores of framework/runtime.go.
use native.Mathlib.Nat.{div-le_of_le-mul, le-div_iff_mul-le, div-mul-le_self}
use kumquat.Base.{
  mul64-pos, div64-pos, ℕ, ◌+◌, ◌-◌, ◌*◌, ◌/◌, ◌≤◌, ◌<◌, String, ◌≡◌, ◌≢◌, refl, true, [], ◌∷◌, Map,
  ℤ, pos, pos_part, neg_part, ltb_ℤ, eqb_ℤ, ◌≤ℤ◌, sub64, mul64, div64, lookup_or, has_key, All,
  ◌=ˢ◌, if◌then◌else◌, arith, Bool-cases, inl, inr,
}
use kumquat.Framework.Runtime.{min_score, max_score, map_values, normalize_final_scores}

-- A score whose differences, times 100, fit an int64.
abbrev pub IsSmallScore : ℤ → Type 0
IsSmallScore s = (pos_part s ≤ 36028797018963968) × (neg_part s ≤ 36028797018963968)

abbrev pub IsPercent : ℤ → Type 0
IsPercent s = (neg_part s ≡ 0) × (pos_part s ≤ 100)

-- s - least, where that is not negative
abbrev above : ℤ → ℤ → ℕ
above s least = pos_part s + neg_part least - (neg_part s + pos_part least)

sub64-above :
    (s least : ℤ)
    → IsSmallScore s
    → IsSmallScore least
    → least ≤ℤ s
    → sub64 s least ≡ pos (above s least)
unfolding sub64
sub64-above s least a b h = ground arith

percent_lem :
    (d whole : ℕ)
    → d ≤ whole
    → 0 < whole
    → whole ≤ 72057594037927936
    → div64 (mul64 (pos d) (pos 100)) (pos whole) ≡ pos (d * 100 / whole)
percent_lem d whole h p b =
    rw (mul64-pos d 100 (omega arith)) (div64-pos (d * 100) whole (omega arith))

percent-le : (d whole : ℕ) → d ≤ whole → 0 < whole → d * 100 / whole ≤ 100
percent-le d whole h p = div-le_of_le-mul whole (omega arith)

percent_mono : (d e whole : ℕ) → d ≤ e → 0 < whole → d * 100 / whole ≤ e * 100 / whole
percent_mono d e whole h p =
    (le-div_iff_mul-le p).1 (omega (arith, div-mul-le_self (d * 100) whole))

-- The extremes bound every entry.
min_score-le :
    (least : ℤ) (scores : Map ℤ)
    → (min_score least scores ≤ℤ least) × All (λ e. min_score least scores ≤ℤ e.1) scores
unfolding min_score
min_score-le least [] = (omega arith, tt)
min_score-le least ((name, s) ∷ scores) =
    let (a, rest) = min_score-le (if ltb_ℤ s least then s else least) scores in
    (ground (arith, a), (ground (arith, a), rest))

le-max_score :
    (most : ℤ) (scores : Map ℤ)
    → (most ≤ℤ max_score most scores) × All (λ e. e.1 ≤ℤ max_score most scores) scores
unfolding max_score
le-max_score most [] = (omega arith, tt)
le-max_score most ((name, s) ∷ scores) =
    let (a, rest) = le-max_score (if ltb_ℤ most s then s else most) scores in
    (ground (arith, a), (ground (arith, a), rest))

extremes-IsSmallScore :
    (a b : ℤ) (scores : Map ℤ)
    → IsSmallScore a
    → IsSmallScore b
    → All (λ e. IsSmallScore e.1) scores
    → IsSmallScore (min_score a scores) × IsSmallScore (max_score b scores)
unfolding min_score max_score
extremes-IsSmallScore a b [] sa sb h = (sa, sb)
extremes-IsSmallScore a b ((name, s) ∷ scores) sa sb h =
    extremes-IsSmallScore (if ltb_ℤ s a then s else a) (if ltb_ℤ b s then s else b) scores
      (ground arith) (ground arith) h.1

-- An entry that lies between the extremes of all.
abbrev Within : ℤ → ℤ → ℤ → Type 0
Within least most s = (least ≤ℤ s) × (s ≤ℤ most) × IsSmallScore s

abbrev percent_of : ℤ → ℤ → ℤ → ℤ
percent_of least most s = div64 (mul64 (sub64 s least) (pos 100)) (sub64 most least)

record IsScaling (f : ℤ → ℤ) (least most : ℤ) : Type 0 where
  percent : (s : ℤ) → Within least most s → IsPercent (f s)
  mono : (s t : ℤ) → Within least most s → Within least most t → s ≤ℤ t → f s ≤ℤ f t

module _ (least most : ℤ) (small_least : IsSmallScore least) (small_most : IsSmallScore most)
    (apart : above most least ≢ 0) (ordered : least ≤ℤ most) where
  percent_of_lem :
      (s : ℤ)
      → Within least most s
      → percent_of least most s ≡ pos (above s least * 100 / above most least)
  percent_of_lem s (lo, hi, small) =
      rw
        (
          sub64-above s least small small_least lo,
          sub64-above most least small_most small_least ordered,
        )
        (percent_lem (above s least) (above most least) (omega arith) (omega arith)
          (omega (arith, small_least, small_most)))

  percent_of-IsScaling : IsScaling (percent_of least most) least most
  percent_of-IsScaling = record {
    percent = λ s w.
        rw (percent_of_lem s w)
          (refl, percent-le (above s least) (above most least) (omega (arith, w.1)) (omega arith));
    mono = λ s t w v le.
        rw (percent_of_lem s w, percent_of_lem t v)
          (omega (
            arith,
            percent_mono (above s least) (above t least) (above most least) (omega arith)
                (omega arith),
          ));
  }

fifty-IsScaling : (least most : ℤ) → IsScaling (λ s. pos 50) least most
fifty-IsScaling least most = record {
  percent = λ s w. omega arith;
  mono = λ s t w v le. omega arith;
}

-- The normalisation applies one scaling to all entries.
record IsScaled (scores : Map ℤ) : Type 0 where
  f : ℤ → ℤ
  least : ℤ
  most : ℤ
  scaling : IsScaling f least most
  within : All (λ e. Within least most e.1) scores
  is_map : normalize_final_scores scores ≡ map_values f scores

All-Within :
    (least most : ℤ) (scores : Map ℤ)
    → All (λ e. least ≤ℤ e.1) scores
    → All (λ e. e.1 ≤ℤ most) scores
    → All (λ e. IsSmallScore e.1) scores
    → All (λ e. Within least most e.1) scores
All-Within least most [] a b c = tt
All-Within least most (e ∷ scores) a b c =
    ((a.0, b.0, c.0), All-Within least most scores a.1 b.1 c.1)

scores-IsScaled : (scores : Map ℤ) → All (λ e. IsSmallScore e.1) scores → IsScaled scores
unfolding normalize_final_scores map_values
scores-IsScaled [] h = record {
  f = λ s. pos 50;
  least = pos 0;
  most = pos 0;
  scaling = fifty-IsScaling (pos 0) (pos 0);
  within = tt;
  is_map = refl;
}
scores-IsScaled ((name, s) ∷ rest) h =
    let least = min_score s rest in
    let most = max_score s rest in
    let (small_least, small_most) = extremes-IsSmallScore s s rest h.0 h.0 h.1 in
    let (a, lows) = min_score-le s rest in
    let (b, highs) = le-max_score s rest in
    let within = All-Within least most ((name, s) ∷ rest) (a, lows) (b, highs) h in
    elim (Bool-cases (eqb_ℤ most least)) [
      | inl e ↦ record {
        f = λ s. pos 50;
        least = least;
        most = most;
        scaling = fifty-IsScaling least most;
        within = within;
        is_map = rw e;
      }
      | inr e ↦ record {
        f = percent_of least most;
        least = least;
        most = most;
        scaling =
            percent_of-IsScaling least most small_least small_most (ground (arith, a, b))
              (omega (arith, a, b));
        within = within;
        is_map = rw e;
      }
    ]

All-map_values :
    (f : ℤ → ℤ) (least most : ℤ) (scores : Map ℤ)
    → IsScaling f least most
    → All (λ e. Within least most e.1) scores
    → All (λ e. IsPercent e.1) (map_values f scores)
unfolding map_values
All-map_values f least most [] sc w = tt
All-map_values f least most ((name, s) ∷ scores) sc w =
    (sc.percent s w.0, All-map_values f least most scores sc w.1)

lookup_or-map_values :
    (f : ℤ → ℤ) (name : String) (scores : Map ℤ)
    → has_key name scores ≡ true
    → lookup_or (pos 0) name (map_values f scores) ≡ f (lookup_or (pos 0) name scores)
unfolding map_values lookup_or has_key
lookup_or-map_values f name [] h = cc
lookup_or-map_values f name ((j, s) ∷ scores) h = elim (Bool-cases (j =ˢ name)) [
  | inl e ↦ rw e
  | inr e ↦ rw e (lookup_or-map_values f name scores (rw e at h))
]

Within-at :
    (least most : ℤ) (name : String) (scores : Map ℤ)
    → All (λ e. Within least most e.1) scores
    → has_key name scores ≡ true
    → Within least most (lookup_or (pos 0) name scores)
unfolding lookup_or has_key
Within-at least most name [] w h = cc
Within-at least most name ((j, s) ∷ scores) w h = elim (Bool-cases (j =ˢ name)) [
  | inl e ↦ rw e w.0
  | inr e ↦ rw e (Within-at least most name scores w.1 (rw e at h))
]

-- The final normalisation brings every score to the range 0 … 100, where the scores are so small
-- that their differences, times 100, fit an int64.
pub normalize_final_scores_range :
    (scores : Map ℤ)
    → All (λ e. IsSmallScore e.1) scores
    → All (λ e. IsPercent e.1) (normalize_final_scores scores)
normalize_final_scores_range scores h =
    let k = scores-IsScaled scores h in
    rw (k.is_map) (All-map_values k.f k.least k.most scores k.scaling k.within)

-- It keeps the order: of two clusters with scores, one that scores at most as much as the other
-- still does so afterwards, under the same condition.
pub normalize_final_scores_order :
    (scores : Map ℤ) (a b : String)
    → All (λ e. IsSmallScore e.1) scores
    → has_key a scores ≡ true
    → has_key b scores ≡ true
    → lookup_or (pos 0) a scores ≤ℤ lookup_or (pos 0) b scores
    → lookup_or (pos 0) a (normalize_final_scores scores)
      ≤ℤ lookup_or (pos 0) b (normalize_final_scores scores)
normalize_final_scores_order scores a b h ha hb le =
    let k = scores-IsScaled scores h in
    rw (k.is_map, lookup_or-map_values k.f a scores ha, lookup_or-map_values k.f b scores hb)
      (k.scaling.mono _ _ (Within-at k.least k.most a scores k.within ha)
        (Within-at k.least k.most b scores k.within hb) le)
