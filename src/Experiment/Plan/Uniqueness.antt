-- ===== src/Experiment/Plan/Uniqueness.antt =====
-- Which runs get into the plan of `build_experiment_plan` of
-- backend/app/services/diagnosis_experiment_design.py, and which group a query goes to.
use context_lens.Prelude.{
  ℕ, ◌+◌, ◌≤◌, ◌≡◌, min, refl, ap, Bool, List, [], ◌∷◌, ◌++◌, map, arith, if◌then◌else◌, ◌==◌,
  Bool-cases, inl, inr, ◌⊎◌,
}
use context_lens.Prelude.Counting.{filter_if, count_if, count_if-append}
use context_lens.Prelude.Floats.{Floats}
use context_lens.Prelude.Text.{Str}
use context_lens.Experiment.{
  Bucket, retrieval_related, generation_incomplete, mixed_ambiguous, easy_control, CandidateRun,
}
use context_lens.Experiment.Scoring.{ScoredCandidate, Weights, sc_run_id, score_candidates}
use context_lens.Experiment.Scoring.Laws.{candidates_of, score_candidates-times}
use context_lens.Experiment.Plan.{
  Mode, manual, assisted, no_picks, ExperimentPlan, ExperimentSlot, make_slot, pool_of, in_bucket,
  plan_bucket, plan_buckets, build_experiment_plan, ExportRow, export_row, plan_to_export_rows,
}
use context_lens.Experiment.Plan.Pairing.{
  no_picks-IsPaired, pick_all-IsPaired, times, pick_all-picked,
}
use context_lens.Experiment.Plan.Totals.{
  over_buckets, picks_of, empty_plan, gathered, build-cases, step_1, step_2, step_3,
}

-- how often a run has a slot
abbrev pub slots_of : {F : Type 0} → ℕ → List (ExperimentSlot F) → ℕ
slots_of r slots = count_if (λ s. s.run_id == r) slots

abbrev pub planned : {F : Type 0} → ℕ → ExperimentPlan F → ℕ
planned r plan = slots_of r plan.manual_slots + slots_of r plan.assisted_slots

count-filter {ℓ} :
    {A : Type ℓ} (p q : A → Bool) (x : A) (xs : List A)
    → count_if p (filter_if q (x ∷ xs))
      ≡ (if q x then if p x then 1 else 0 else 0) + count_if p (filter_if q xs)
count-filter p q x xs = elim (Bool-cases (q x)) [ inl e ↦ rw e | inr e ↦ rw e (omega arith) ]

rank_cases :
    (b : Bucket)
    → (b ≡ retrieval_related)
      ⊎ ((b ≡ generation_incomplete) ⊎ ((b ≡ mixed_ambiguous) ⊎ (b ≡ easy_control)))
rank_cases retrieval_related = inl refl
rank_cases generation_incomplete = inr (inl refl)
rank_cases mixed_ambiguous = inr (inr (inl refl))
rank_cases easy_control = inr (inr (inr refl))

-- A candidate is in one bucket.
one_bucket :
    {F : Type 0} (sc : ScoredCandidate F) (n : ℕ)
    → (if in_bucket retrieval_related sc then n else 0)
        + (if in_bucket generation_incomplete sc then n else 0)
        + (if in_bucket mixed_ambiguous sc then n else 0)
        + (if in_bucket easy_control sc then n else 0)
      ≡ n
one_bucket sc n = elim (rank_cases sc.bucket) [
  | inl e ↦ rw e (omega arith)
  | inr (inl e) ↦ rw e (omega arith)
  | inr (inr (inl e)) ↦ rw e (omega arith)
  | inr (inr (inr e)) ↦ rw e (omega arith)
]

times-pools :
    {F : Type 0} (r : ℕ) (scored : List (ScoredCandidate F))
    → times r (pool_of retrieval_related scored)
        + times r (pool_of generation_incomplete scored)
        + times r (pool_of mixed_ambiguous scored)
        + times r (pool_of easy_control scored)
      ≡ times r scored
times-pools r [] = refl
times-pools {F} r (sc ∷ scored) =
    let of_run = λ (x : ScoredCandidate F). sc_run_id x == r in
    omega (
      arith,
      times-pools r scored,
      one_bucket sc (if sc_run_id sc == r then 1 else 0),
      count-filter {0} of_run (in_bucket retrieval_related) sc scored,
      count-filter {0} of_run (in_bucket generation_incomplete) sc scored,
      count-filter {0} of_run (in_bucket mixed_ambiguous) sc scored,
      count-filter {0} of_run (in_bucket easy_control) sc scored,
    )

module _ {F : Type 0} (fl : Floats F) where
  slots-map :
      (mode : Mode) (r : ℕ) (xs : List (ScoredCandidate F))
      → slots_of r (map (make_slot fl mode) xs) ≡ times r xs
  unfolding make_slot
  slots-map mode r [] = refl
  slots-map mode r (x ∷ xs) = omega (arith, slots-map mode r xs)

  module _ (targets : Bucket → ℕ) (scored : List (ScoredCandidate F)) where
    -- A bucket's turn adds one slot of a run at most, and none if the run is not in the bucket's pool.
    plan_bucket-planned :
        (r : ℕ) (b : Bucket) (plan : ExperimentPlan F)
        → planned r (plan_bucket fl targets scored b plan)
          ≤ planned r plan + min 1 (times r (pool_of b scored))
    unfolding plan_bucket
    plan_bucket-planned r b plan =
        let of_run = λ (s : ExperimentSlot F). s.run_id == r in
        let picks = picks_of fl targets scored b in
        let paired =
          pick_all-IsPaired (targets b) (pool_of b scored) no_picks
            (no_picks-IsPaired (targets b)) in
        ground (
          arith,
          count_if-append {0} of_run plan.manual_slots
              (map (make_slot fl manual) picks.manual_picked),
          count_if-append {0} of_run plan.assisted_slots
              (map (make_slot fl assisted) picks.assisted_picked),
          slots-map manual r picks.manual_picked,
          slots-map assisted r picks.assisted_picked,
          pick_all-picked (targets b) (pool_of b scored) no_picks r,
          paired.marked r,
        )

    -- how many buckets have the run among their candidates
    abbrev pub buckets_of : ℕ → ℕ
    buckets_of r = over_buckets fl targets scored (λ b. min 1 (times r (pool_of b scored)))

    gathered-planned :
        (r : ℕ)
        → (planned r (gathered fl targets scored) ≤ buckets_of r)
          × (planned r (gathered fl targets scored) ≤ times r scored)
    unfolding plan_buckets
    gathered-planned r = omega (
      arith,
      times-pools r scored,
      plan_bucket-planned r retrieval_related (empty_plan fl targets scored),
      plan_bucket-planned r generation_incomplete (step_1 fl targets scored),
      plan_bucket-planned r mixed_ambiguous (step_2 fl targets scored),
      plan_bucket-planned r easy_control (step_3 fl targets scored),
    )

    build-planned :
        (r : ℕ)
        → (planned r (build_experiment_plan fl targets scored) ≤ buckets_of r)
          × (planned r (build_experiment_plan fl targets scored) ≤ times r scored)
    build-planned r =
        let built = build-cases fl targets scored in
        omega (arith, ap (slots_of r) built.0, ap (slots_of r) built.1, gathered-planned r)

  -- The export of the plan has one row for each slot.
  export-slots :
      (slots : List (ExperimentSlot F)) (r : ℕ)
      → count_if (λ (row : ExportRow F). row.run_id == r) (map export_row slots) ≡ slots_of r slots
  unfolding export_row
  export-slots [] r = refl
  export-slots (s ∷ slots) r = omega (arith, export-slots slots r)

  -- In the export of the plan a run has at most one row for each bucket that it is a candidate of,
  -- both modes together, and at most as many rows as it has candidates. So a run that is once among
  -- the candidates is at most once in the export, in one mode.
  pub export-once :
      (targets : Bucket → ℕ) (w : Weights F) (lower md5_hexdigest : Str → Str)
      (candidates : List (CandidateRun F)) (r : ℕ)
      → (count_if
            (λ (row : ExportRow F). row.run_id == r)
            (plan_to_export_rows (
              build_experiment_plan fl targets
                (score_candidates fl w lower md5_hexdigest candidates)))
          ≤ buckets_of targets (score_candidates fl w lower md5_hexdigest candidates) r)
        × (count_if
              (λ (row : ExportRow F). row.run_id == r)
              (plan_to_export_rows (
                build_experiment_plan fl targets
                  (score_candidates fl w lower md5_hexdigest candidates)))
            ≤ candidates_of r candidates)
  unfolding plan_to_export_rows
  export-once targets w lower md5_hexdigest candidates r =
      let scored = score_candidates fl w lower md5_hexdigest candidates in
      let plan = build_experiment_plan fl targets scored in
      omega (
        arith,
        build-planned targets scored r,
        score_candidates-times fl w lower md5_hexdigest candidates r,
        export-slots (plan.manual_slots ++ plan.assisted_slots) r,
        count_if-append {0} (λ (s : ExperimentSlot F). s.run_id == r) plan.manual_slots
            plan.assisted_slots,
      )
