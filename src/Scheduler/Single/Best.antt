-- ===== src/Scheduler/Single/Best.antt =====
-- The score of the cluster that selectCluster of scheduler.go selects.
use kumquat.Base.{
  All, String, ◌≡◌, refl, ◌∙◌, sym, true, ◌⊎◌, inl, inr, List, [], ◌∷◌, Map, ℤ, pos, negsuc,
  neg_part, ltb_ℤ, ◌≤ℤ◌, lookup_or, has_key, keys, contains, sort_strings, contains-sort_strings,
  ◌=ˢ◌, eq_iff, eq_refl, arith, Bool-cases,
}
use kumquat.Scheduler.Single.{best_of, select_cluster}

abbrev score_of : Map ℤ → String → ℤ
score_of scores name = lookup_or (pos 0) name scores

abbrev AllBelow : Map ℤ → ℤ → List String → Type 0
AllBelow scores most = All (λ name. score_of scores name ≤ℤ most)

AllBelow-le :
    (scores : Map ℤ) (a b : ℤ) (names : List String)
    → a ≤ℤ b
    → AllBelow scores a names
    → AllBelow scores b names
AllBelow-le scores a b [] le h = tt
AllBelow-le scores a b (name ∷ names) le h =
    (omega (arith, h.0), AllBelow-le scores a b names le h.1)

-- What the loop ends with: the name it starts with, where no other is better, or the best other.
record IsBetter (scores : Map ℤ) (names : List String) (most : ℤ) (best : String) : Type 0 where
  known : contains best names ≡ true
  better : most ≤ℤ score_of scores best
  greatest : AllBelow scores (score_of scores best) names

best_of-IsBetter :
    (scores : Map ℤ) (names : List String) (selected : String) (most : ℤ)
    → ((best_of scores names selected most ≡ selected) × AllBelow scores most names)
      ⊎ IsBetter scores names most (best_of scores names selected most)
unfolding best_of contains
best_of-IsBetter scores [] selected most = inl (refl, tt)
best_of-IsBetter scores (name ∷ names) selected most =
    elim (Bool-cases (ltb_ℤ most (score_of scores name))) [
      | inl e ↦ rw e (
          inr (elim (best_of-IsBetter scores names name (score_of scores name)) [
            | inl (same, below) ↦ rw same (record {
              known = ground (arith, eq_refl name);
              better = ground arith;
              greatest = (omega arith, below);
            })
            | inr b ↦ record {
              known = ground (arith, b.known);
              better = ground (arith, b.better);
              greatest = (b.better, b.greatest);
            }
          ]))
      | inr e ↦ rw e (elim (best_of-IsBetter scores names selected most) [
        | inl (same, below) ↦ inl (same, (ground arith, below))
        | inr b ↦ inr (record {
          known = ground (arith, b.known);
          better = b.better;
          greatest = (ground (arith, b.better), b.greatest);
        })
      ])
    ]

contains-keys : (name : String) (scores : Map ℤ) → contains name (keys scores) ≡ has_key name scores
unfolding contains keys has_key
contains-keys name [] = refl
contains-keys name ((k, s) ∷ scores) = ground (arith, contains-keys name scores)

contains-sorted_keys :
    (name : String) (scores : Map ℤ)
    → contains name (sort_strings (keys scores)) ≡ has_key name scores
contains-sorted_keys name scores =
    contains-sort_strings name (keys scores) ∙ contains-keys name scores

AllBelow-contains :
    (scores : Map ℤ) (most : ℤ) (names : List String) (name : String)
    → AllBelow scores most names
    → contains name names ≡ true
    → score_of scores name ≤ℤ most
unfolding contains
AllBelow-contains scores most [] name h m = cc
AllBelow-contains scores most (x ∷ names) name h m = elim (Bool-cases (x =ˢ name)) [
  | inl e ↦ ground (arith, eq_iff x name, h.0)
  | inr e ↦ AllBelow-contains scores most names name h.1 (rw e at m)
]

module _ (scores : Map ℤ) (name : String) (scored : has_key name scores ≡ true)
    (natural : neg_part (lookup_or (pos 0) name scores) ≡ 0) where
  selected-IsBetter :
      IsBetter scores (sort_strings (keys scores)) (negsuc 0) (select_cluster scores)
  unfolding select_cluster
  selected-IsBetter = elim (best_of-IsBetter scores (sort_strings (keys scores)) "" (negsuc 0)) [
    | inl (same, below) ↦
        let bad : score_of scores name ≤ℤ negsuc 0 =
          AllBelow-contains scores (negsuc 0) (sort_strings (keys scores)) name below
            (contains-sorted_keys name scores ∙ scored) in
        let absurd : ⊥ = omega (arith, bad, natural) in elim absurd [ ]
    | inr b ↦ b
  ]

  -- Where a cluster has a score that is not negative, the selected cluster has a score, too.
  pub select_cluster-known : has_key (select_cluster scores) scores ≡ true
  select_cluster-known =
      sym (contains-sorted_keys (select_cluster scores) scores) ∙ selected-IsBetter.known

  -- The selected cluster scores at least as much as each cluster whose score is not negative.
  pub select_cluster_best :
      lookup_or (pos 0) name scores ≤ℤ lookup_or (pos 0) (select_cluster scores) scores
  select_cluster_best =
      AllBelow-contains scores (score_of scores (select_cluster scores))
        (sort_strings (keys scores)) name selected-IsBetter.greatest
        (contains-sorted_keys name scores ∙ scored)
