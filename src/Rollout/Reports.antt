-- ===== src/Rollout/Reports.antt =====
-- engine/internal/manager/application/rollout_status.go. An answer of a cluster holds the fields of the
-- rollout that the code reads, and there is none where GetClient or Get fails.
use kumquat.Base.{
  String, ◌≡◌, refl, ap, ◌∙◌, Bool, true, false, ◌&&◌, ◌||◌, List, [], ◌∷◌, Option, none, some, ℤ,
  pos, to_int32, contains, ◌=ˢ◌, if◌then◌else◌, arith, eq_iff, Bool-cases, inl, inr,
}

-- LastUpdateTime is never written.
pub record RolloutStatus : Type 0 where
  pub phase : String
  pub current_step : ℤ
  pub current_step_weight : ℤ
  pub stable_replicas : ℤ
  pub canary_replicas : ℤ
  pub updated_replicas : ℤ
  pub ready_replicas : ℤ
  pub message : String

-- The fields below status, where they are found with the right type.
pub record RolloutReading : Type 0 where
  pub found_phase : Option String
  pub found_message : Option String
  pub current_step_index : Option ℤ
  pub found_step_weight : Option ℤ
  pub found_stable : Option ℤ
  pub found_canary : Option ℤ
  pub found_updated : Option ℤ
  pub found_ready : Option ℤ

abbrev text_or_empty : Option String → String
text_or_empty none = ""
text_or_empty (some s) = s

abbrev int32_or_zero : Option ℤ → ℤ
int32_or_zero none = pos 0
int32_or_zero (some n) = to_int32 n

pub extract_rollout_status : RolloutReading → RolloutStatus
extract_rollout_status r = record {
  phase = text_or_empty r.found_phase;
  current_step = int32_or_zero r.current_step_index;
  current_step_weight = int32_or_zero r.found_step_weight;
  stable_replicas = int32_or_zero r.found_stable;
  canary_replicas = int32_or_zero r.found_canary;
  updated_replicas = int32_or_zero r.found_updated;
  ready_replicas = int32_or_zero r.found_ready;
  message = text_or_empty r.found_message;
}

-- A ClusterStatus; `rest` are its fields other than the name and the rollout.
pub record TrackedStatus (A : Type 0) : Type 0 where
  pub cluster_name : String
  pub rollout : Option RolloutStatus
  pub rest : A

-- `zeros` are the zero values of the other fields.
module _ {A : Type 0} (zeros : A) where
  unfoldable pub update_cluster_rollout_status :
      String → RolloutStatus → List (TrackedStatus A) → List (TrackedStatus A)
  update_cluster_rollout_status name r [] =
      record { cluster_name = name; rollout = some r; rest = zeros } ∷ []
  update_cluster_rollout_status name r (cs ∷ statuses) =
      let later = update_cluster_rollout_status name r statuses in
      if cs.cluster_name =ˢ name then record cs { rollout = some r } ∷ statuses else cs ∷ later

  abbrev pub update_by_answer :
      String → Option RolloutReading → List (TrackedStatus A) → List (TrackedStatus A)
  update_by_answer name none statuses = statuses
  update_by_answer name (some r) statuses =
      update_cluster_rollout_status name (extract_rollout_status r) statuses

  unfoldable pub aggregate_clusters :
      (String → Option RolloutReading)
      → List String
      → List (TrackedStatus A)
      → List (TrackedStatus A)
  aggregate_clusters answers [] statuses = statuses
  aggregate_clusters answers (name ∷ names) statuses =
      aggregate_clusters answers names (update_by_answer name (answers name) statuses)

  -- The flag is whether the application has a rollout strategy.
  unfoldable pub aggregate_rollout_status :
      Bool
      → (String → Option RolloutReading)
      → List String
      → List (TrackedStatus A)
      → List (TrackedStatus A)
  aggregate_rollout_status has_strategy answers clusters statuses =
      if has_strategy then aggregate_clusters answers clusters statuses else statuses

  -- The first status of a cluster in a list.
  abbrev pub tracked : String → List (TrackedStatus A) → Option (Option RolloutStatus × A)
  tracked name [] = none
  tracked name (cs ∷ statuses) =
      let later = tracked name statuses in
      if cs.cluster_name =ˢ name then some (cs.rollout, cs.rest) else later

  abbrev pub with_rollout :
      RolloutStatus → Option (Option RolloutStatus × A) → Option RolloutStatus × A
  with_rollout r none = (some r, zeros)
  with_rollout r (some (_, rest)) = (some r, rest)

  tracked-update_cluster_rollout_status :
      (k name : String) (r : RolloutStatus) (statuses : List (TrackedStatus A))
      → tracked name (update_cluster_rollout_status k r statuses) ≡ (
          if k =ˢ name
          then some (with_rollout r (tracked name statuses))
          else tracked name statuses)
  unfolding update_cluster_rollout_status
  tracked-update_cluster_rollout_status k name r [] = refl
  tracked-update_cluster_rollout_status k name r (cs ∷ statuses) =
      elim (Bool-cases (cs.cluster_name =ˢ k)) [
        | inl e ↦
            let same : cs.cluster_name =ˢ name ≡ (k =ˢ name) =
              ap (λ j. j =ˢ name)
                (let p : cs.cluster_name ≡ k = ground (arith, eq_iff cs.cluster_name k) in p) in
            elim (Bool-cases (k =ˢ name)) [
              | inl f ↦ rw (e, same, f) refl
              | inr f ↦ rw (e, same, f) refl
            ]
        | inr e ↦ elim (Bool-cases (cs.cluster_name =ˢ name)) [
          | inl f ↦
              let other : k =ˢ name ≡ false =
                ground
                  (arith, eq_iff cs.cluster_name k, eq_iff cs.cluster_name name, eq_iff k name) in
              rw (e, f, other) refl
          | inr f ↦ rw (e, f) (tracked-update_cluster_rollout_status k name r statuses)
        ]
      ]

  -- A cluster that was asked and answered has the answer as its rollout.
  abbrev pub answered :
      Bool
      → Option RolloutReading
      → Option (Option RolloutStatus × A)
      → Option (Option RolloutStatus × A)
  answered true (some r) before = some (with_rollout (extract_rollout_status r) before)
  answered _ _ before = before

  no_answer : (b : Bool) (o : Option (Option RolloutStatus × A)) → o ≡ answered b none o
  no_answer true o = refl
  no_answer false o = refl

  one_answer :
      (b : Bool) (r : RolloutReading) (o : Option (Option RolloutStatus × A))
      → (if b then some (with_rollout (extract_rollout_status r) o) else o) ≡ answered b (some r) o
  one_answer true r o = refl
  one_answer false r o = refl

  tracked-update_by_answer :
      (k name : String) (a : Option RolloutReading) (statuses : List (TrackedStatus A))
      → tracked name (update_by_answer k a statuses)
        ≡ answered (k =ˢ name) a (tracked name statuses)
  tracked-update_by_answer k name none statuses = no_answer (k =ˢ name) (tracked name statuses)
  tracked-update_by_answer k name (some r) statuses =
      tracked-update_cluster_rollout_status k name (extract_rollout_status r) statuses
      ∙ one_answer (k =ˢ name) r (tracked name statuses)

  -- A second answer of the cluster is the same.
  answered_again :
      (b : Bool) (a : Option RolloutReading) (o : Option (Option RolloutStatus × A))
      → answered b a (answered true a o) ≡ answered true a o
  answered_again true none o = refl
  answered_again true (some r) none = refl
  answered_again true (some r) (some (_, rest)) = refl
  answered_again false a o = refl

  answered_first :
      (answers : String → Option RolloutReading) (k name : String) (b : Bool)
      (o : Option (Option RolloutStatus × A))
      → answered b (answers name) (answered (k =ˢ name) (answers k) o)
        ≡ answered ((k =ˢ name) || b) (answers name) o
  answered_first answers k name b o = elim (Bool-cases (k =ˢ name)) [
    | inl e ↦
        let same : k ≡ name = ground (arith, eq_iff k name) in
        rw e (
          ap (λ j. answered b (answers name) (answered true (answers j) o)) same
          ∙ answered_again b (answers name) o)
    | inr e ↦ rw e refl
  ]

  tracked-aggregate_clusters :
      (answers : String → Option RolloutReading) (name : String) (clusters : List String)
      (statuses : List (TrackedStatus A))
      → tracked name (aggregate_clusters answers clusters statuses)
        ≡ answered (contains name clusters) (answers name) (tracked name statuses)
  unfolding aggregate_clusters contains
  tracked-aggregate_clusters answers name [] statuses = refl
  tracked-aggregate_clusters answers name (k ∷ clusters) statuses =
      tracked-aggregate_clusters answers name clusters (update_by_answer k (answers k) statuses)
      ∙ ap (answered (contains name clusters) (answers name))
          (tracked-update_by_answer k name (answers k) statuses)
      ∙ answered_first answers k name (contains name clusters) (tracked name statuses)

  -- After AggregateRolloutStatus a cluster has the rollout that it reports, where the application has
  -- a rollout strategy and the cluster was asked and answered: its other fields stay, or are zero
  -- where it had no status. The status of any other cluster stays as it was.
  pub tracked-aggregate_rollout_status :
      (has_strategy : Bool) (answers : String → Option RolloutReading) (name : String)
      (clusters : List String) (statuses : List (TrackedStatus A))
      → tracked name (aggregate_rollout_status has_strategy answers clusters statuses)
        ≡ answered (has_strategy && contains name clusters) (answers name) (tracked name statuses)
  unfolding aggregate_rollout_status
  tracked-aggregate_rollout_status true answers name clusters statuses =
      tracked-aggregate_clusters answers name clusters statuses
  tracked-aggregate_rollout_status false answers name clusters statuses = refl
