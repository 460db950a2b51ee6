-- ===== src/Experiment/Plan/Totals.antt =====
-- How many slots `build_experiment_plan` of backend/app/services/diagnosis_experiment_design.py
-- fills.
use context_lens.Prelude.{
  ℕ, ◌+◌, ◌*◌, ◌≤◌, ◌≡◌, refl, ap, ◌∙◌, min, Bool, List, [], ◌∷◌, map, arith, ◌==◌, ltb, length,
  length-append, Bool-cases, inl, inr,
}
use context_lens.Prelude.Counting.{filter_if, count_if}
use context_lens.Prelude.Floats.{Floats}
use context_lens.Experiment.{
  Bucket, retrieval_related, generation_incomplete, mixed_ambiguous, easy_control, group_targets,
  all_buckets,
}
use context_lens.Experiment.Scoring.{ScoredCandidate, sc_run_id}
use context_lens.Experiment.Plan.{
  manual, assisted, Picks, no_picks, ExperimentPlan, make_slot, pool_of, in_bucket, pick_all,
  shortage, plan_bucket, plan_buckets, final_check, build_experiment_plan, total_slots,
}
use context_lens.Experiment.Plan.Pairing.{
  times, picked_total, pick_all-IsPaired, pick_all-total, no_picks-IsPaired,
}

length-map {ℓ κ} :
    {A : Type ℓ} {B : Type κ} (f : A → B) (xs : List A) → length (map f xs) ≡ length xs
length-map f [] = refl
length-map f (x ∷ xs) = omega (arith, length-map f xs)

pub count-filter-le {ℓ} :
    {A : Type ℓ} (p q : A → Bool) (xs : List A) → count_if p (filter_if q xs) ≤ count_if p xs
count-filter-le p q [] = omega arith
count-filter-le p q (x ∷ xs) = elim (Bool-cases (q x)) [
  | inl e ↦ rw e (omega (arith, count-filter-le p q xs))
  | inr e ↦ rw e (omega (arith, count-filter-le p q xs))
]

module _ {F : Type 0} (fl : Floats F) (targets : Bucket → ℕ)
    (scored : List (ScoredCandidate F)) where
  -- the picks of a bucket, when its turn comes
  abbrev pub picks_of : Bucket → Picks F
  picks_of b = pick_all (targets b) (pool_of b scored) no_picks

  pub plan_bucket-manual :
      (b : Bucket) (plan : ExperimentPlan F)
      → length (plan_bucket fl targets scored b plan).manual_slots
        ≡ length plan.manual_slots + length (picks_of b).manual_picked
  unfolding plan_bucket
  plan_bucket-manual b plan = omega (
    arith,
    length-append plan.manual_slots (map (make_slot fl manual) (picks_of b).manual_picked),
    length-map (make_slot fl manual) (picks_of b).manual_picked,
  )

  pub plan_bucket-assisted :
      (b : Bucket) (plan : ExperimentPlan F)
      → length (plan_bucket fl targets scored b plan).assisted_slots
        ≡ length plan.assisted_slots + length (picks_of b).assisted_picked
  unfolding plan_bucket
  plan_bucket-assisted b plan = omega (
    arith,
    length-append plan.assisted_slots (map (make_slot fl assisted) (picks_of b).assisted_picked),
    length-map (make_slot fl assisted) (picks_of b).assisted_picked,
  )

  -- a plan with no slot yet
  abbrev pub empty_plan : ExperimentPlan F
  empty_plan = record { manual_slots = []; assisted_slots = []; warnings = []; bucket_summary = [] }

  abbrev pub gathered : ExperimentPlan F
  gathered = plan_buckets fl targets scored all_buckets empty_plan

  pub build-cases :
      ((build_experiment_plan fl targets scored).manual_slots ≡ gathered.manual_slots)
      × ((build_experiment_plan fl targets scored).assisted_slots ≡ gathered.assisted_slots)
      × (20 ≤ total_slots gathered
          → (build_experiment_plan fl targets scored).warnings ≡ gathered.warnings)
  unfolding build_experiment_plan final_check
  build-cases = elim (Bool-cases (ltb (total_slots gathered) 20)) [
    | inl e ↦ rw e (refl, refl, λ h. absurd (ground arith))
    | inr e ↦ rw e (refl, refl, λ h. refl)
  ]

  -- a sum over the four buckets
  abbrev pub over_buckets : (Bucket → ℕ) → ℕ
  over_buckets f =
      f retrieval_related + f generation_incomplete + f mixed_ambiguous + f easy_control

  abbrev pub step_1 : ExperimentPlan F
  step_1 = plan_bucket fl targets scored retrieval_related empty_plan

  abbrev pub step_2 : ExperimentPlan F
  step_2 = plan_bucket fl targets scored generation_incomplete step_1

  abbrev pub step_3 : ExperimentPlan F
  step_3 = plan_bucket fl targets scored mixed_ambiguous step_2

  gathered-manual :
      length gathered.manual_slots ≡ over_buckets (λ b. length (picks_of b).manual_picked)
  unfolding plan_buckets
  gathered-manual = omega (
    arith,
    plan_bucket-manual retrieval_related empty_plan,
    plan_bucket-manual generation_incomplete step_1,
    plan_bucket-manual mixed_ambiguous step_2,
    plan_bucket-manual easy_control step_3,
  )

  gathered-assisted :
      length gathered.assisted_slots ≡ over_buckets (λ b. length (picks_of b).assisted_picked)
  unfolding plan_buckets
  gathered-assisted = omega (
    arith,
    plan_bucket-assisted retrieval_related empty_plan,
    plan_bucket-assisted generation_incomplete step_1,
    plan_bucket-assisted mixed_ambiguous step_2,
    plan_bucket-assisted easy_control step_3,
  )

  module _ (differ : (r : ℕ) → times r scored ≤ 1) where
    bucket_total :
        (b : Bucket) → picked_total (picks_of b) ≡ min (targets b * 2) (length (pool_of b scored))
    bucket_total b = omega (
      arith,
      pick_all-total (targets b) (pool_of b scored) no_picks (no_picks-IsPaired (targets b))
          (λ (r : ℕ). omega (
            arith,
            differ r,
            count-filter-le {0} (λ (sc : ScoredCandidate F). sc_run_id sc == r) (in_bucket b)
                scored,
          )),
    )

    -- Among candidates whose runs differ, a plan has in all as many slots as its buckets can fill:
    -- for each of the four, twice the target or all the candidates of the bucket, whichever is less.
    pub total-build :
        total_slots (build_experiment_plan fl targets scored)
        ≡ over_buckets (λ b. min (targets b * 2) (length (pool_of b scored)))
    total-build = omega (
      arith,
      ap length build-cases.0,
      ap length build-cases.1,
      gathered-manual,
      gathered-assisted,
      bucket_total retrieval_related,
      bucket_total generation_incomplete,
      bucket_total mixed_ambiguous,
      bucket_total easy_control,
    )

    -- the groups of a bucket that has enough candidates
    bucket_full :
        (b : Bucket)
        → targets b * 2 ≤ length (pool_of b scored)
        → (length (picks_of b).manual_picked ≡ targets b)
          × (length (picks_of b).assisted_picked ≡ targets b)
    bucket_full b enough =
        let paired =
          pick_all-IsPaired (targets b) (pool_of b scored) no_picks
            (no_picks-IsPaired (targets b)) in
        omega (arith, bucket_total b, paired.manual_le, paired.assisted_le)

  shortage-nil :
      (b : Bucket) → targets b * 2 ≤ length (pool_of b scored) → shortage fl targets scored b ≡ []
  unfolding shortage
  shortage-nil b enough = ground arith

  gathered-warnings :
      ((b : Bucket) → targets b * 2 ≤ length (pool_of b scored)) → gathered.warnings ≡ []
  unfolding plan_buckets plan_bucket
  gathered-warnings enough = rw (
    shortage-nil retrieval_related (enough retrieval_related),
    shortage-nil generation_incomplete (enough generation_incomplete),
    shortage-nil mixed_ambiguous (enough mixed_ambiguous),
    shortage-nil easy_control (enough easy_control),
  )

-- With the default targets, among candidates whose runs differ and which are enough for twice the
-- target of each bucket, the plan has ten manual slots, ten assisted slots and no warning.
pub build-fills :
    {F : Type 0} (fl : Floats F) (scored : List (ScoredCandidate F))
    → ((r : ℕ) → times r scored ≤ 1)
    → ((b : Bucket) → group_targets b * 2 ≤ length (pool_of b scored))
    → (length (build_experiment_plan fl group_targets scored).manual_slots ≡ 10)
      × (length (build_experiment_plan fl group_targets scored).assisted_slots ≡ 10)
      × ((build_experiment_plan fl group_targets scored).warnings ≡ [])
build-fills fl scored differ enough =
    let full = λ (b : Bucket). bucket_full fl group_targets scored differ b (enough b) in
    let built = build-cases fl group_targets scored in
    let m : length (gathered fl group_targets scored).manual_slots ≡ 10 = omega (
      arith,
      gathered-manual fl group_targets scored,
      full retrieval_related,
      full generation_incomplete,
      full mixed_ambiguous,
      full easy_control,
    ) in
    let a : length (gathered fl group_targets scored).assisted_slots ≡ 10 = omega (
      arith,
      gathered-assisted fl group_targets scored,
      full retrieval_related,
      full generation_incomplete,
      full mixed_ambiguous,
      full easy_control,
    ) in
    (
      ap length built.0 ∙ m,
      ap length built.1 ∙ a,
      built.2 (omega (arith, m, a)) ∙ gathered-warnings fl group_targets scored enough,
    )
