-- ===== src/Experiment/Plan.antt =====
-- The balanced plan, `build_experiment_plan` of
-- backend/app/services/diagnosis_experiment_design.py. A warning is a value in place of its text, a
-- set of ids is the list of its additions, and targets are from 0 on.
pub mod Pairing
pub mod Totals
pub mod Uniqueness
pub mod Queries
use context_lens.Prelude.{
  ℕ, ◌+◌, ◌-◌, ◌*◌, Bool, true, false, ◌&&◌, not, Option, none, some, List, [], ◌∷◌, ◌++◌, map,
  if◌then◌else◌, ◌==◌, ltb, leb, length,
}
use context_lens.Prelude.Counting.{filter_if, contains}
use context_lens.Prelude.Floats.{Floats}
use context_lens.Prelude.Text.{Str}
use context_lens.Experiment.{
  Bucket, retrieval_related, generation_incomplete, mixed_ambiguous, easy_control, all_buckets,
  compute_difficulty,
}
use context_lens.Experiment.Scoring.{ScoredCandidate, Reason, sc_run_id}

pub data Mode : Type 0 where
  manual assisted : Mode

pub record ExperimentSlot (F : Type 0) : Type 0 where
  pub run_id : ℕ
  pub mode : Mode
  pub bucket : Bucket
  pub failure_type : Str
  pub query_text : Str
  pub difficulty_score : F
  pub rationale : List (Reason F)
  pub manual_sessions : ℕ
  pub assisted_sessions : ℕ

pub data Warning : Type 0 where
  -- the bucket, what it needs and what is available
  bucket_incomplete : Bucket → ℕ → ℕ → Warning
  -- how many slots are filled
  few_slots : ℕ → Warning

-- the value of one key of `bucket_summary`
pub record BucketInfo : Type 0 where
  pub available : ℕ
  pub needed_total : ℕ
  pub assigned : ℕ

pub record ExperimentPlan (F : Type 0) : Type 0 where
  pub manual_slots : List (ExperimentSlot F)
  pub assisted_slots : List (ExperimentSlot F)
  pub warnings : List Warning
  pub bucket_summary : List (Bucket × BucketInfo)

-- the variables of the greedy pairing within a bucket
pub record Picks (F : Type 0) : Type 0 where
  pub used_query_ids_manual : List ℕ
  pub used_query_ids_assisted : List ℕ
  pub assigned_run_ids : List ℕ
  pub manual_picked : List (ScoredCandidate F)
  pub assisted_picked : List (ScoredCandidate F)

abbrev pub no_picks : {F : Type 0} → Picks F
no_picks = record {
  used_query_ids_manual = [];
  used_query_ids_assisted = [];
  assigned_run_ids = [];
  manual_picked = [];
  assisted_picked = [];
}

-- a number for each bucket, to compare two
abbrev bucket_code : Bucket → ℕ
bucket_code retrieval_related = 0
bucket_code generation_incomplete = 1
bucket_code mixed_ambiguous = 2
bucket_code easy_control = 3

abbrev pub in_bucket : {F : Type 0} → Bucket → ScoredCandidate F → Bool
in_bucket b sc = bucket_code sc.bucket == bucket_code b

-- `bucket_pools[bucket]`
abbrev pub pool_of : {F : Type 0} → Bucket → List (ScoredCandidate F) → List (ScoredCandidate F)
pool_of b scored = filter_if (in_bucket b) scored

-- The group that the candidate goes to, given what the groups still need and whether they have its
-- query; none for the last `continue`.
pub choose : ℕ → ℕ → Bool → Bool → Option Mode
choose m_needs a_needs in_manual in_assisted =
    let can_manual = ltb 0 m_needs && not in_manual in
    let can_assisted = ltb 0 a_needs && not in_assisted in
    if can_manual && can_assisted
    then if leb a_needs m_needs then some manual else some assisted
    else if can_manual
    then some manual
    else if can_assisted
    then some assisted
    else if ltb 0 m_needs
    then some manual
    else if ltb 0 a_needs
    then some assisted
    else none

module _ {F : Type 0} where
  -- the candidate in the chosen group, and its run marked as assigned
  pub assign : ScoredCandidate F → Option Mode → Picks F → Picks F
  assign sc none p = p
  assign sc (some manual) p = record p {
    manual_picked = p.manual_picked ++ sc ∷ [];
    used_query_ids_manual = sc.candidate.query_case_id ∷ p.used_query_ids_manual;
    assigned_run_ids = sc_run_id sc ∷ p.assigned_run_ids;
  }
  assign sc (some assisted) p = record p {
    assisted_picked = p.assisted_picked ++ sc ∷ [];
    used_query_ids_assisted = sc.candidate.query_case_id ∷ p.used_query_ids_assisted;
    assigned_run_ids = sc_run_id sc ∷ p.assigned_run_ids;
  }

  -- the end of the loop's body, past its `continue` and its `break`
  pub pick_one : ℕ → ScoredCandidate F → Picks F → Picks F
  unfolding choose assign
  pick_one target sc p =
      let qcid = sc.candidate.query_case_id in
      assign sc
        (choose (target - length p.manual_picked) (target - length p.assisted_picked)
          (contains p.used_query_ids_manual qcid) (contains p.used_query_ids_assisted qcid))
        p

  -- neither group needs a candidate
  abbrev pub is_full : ℕ → Picks F → Bool
  is_full target p =
      leb (target - length p.manual_picked) 0 && leb (target - length p.assisted_picked) 0

  -- `for sc in pool`
  unfoldable pub pick_all : ℕ → List (ScoredCandidate F) → Picks F → Picks F
  unfolding pick_one
  pick_all target [] p = p
  pick_all target (sc ∷ pool) p = elim (contains p.assigned_run_ids (sc_run_id sc)) [
    | true ↦ pick_all target pool p
    | false ↦ elim (is_full target p) [
      | true ↦ p
      | false ↦ pick_all target pool (pick_one target sc p)
    ]
  ]

-- `len(manual_slots) + len(assisted_slots)`
abbrev pub total_slots : {F : Type 0} → ExperimentPlan F → ℕ
total_slots plan = length plan.manual_slots + length plan.assisted_slots

module _ {F : Type 0} (fl : Floats F) where
  unfoldable pub make_slot : Mode → ScoredCandidate F → ExperimentSlot F
  make_slot mode sc = record {
    run_id = sc_run_id sc;
    mode = mode;
    bucket = sc.bucket;
    failure_type = sc.candidate.failure_type;
    query_text = sc.candidate.query_text;
    difficulty_score = fl.round (compute_difficulty fl sc.candidate) 3;
    rationale = sc.score_reasons;
    manual_sessions = sc.candidate.manual_sessions;
    assisted_sessions = sc.candidate.assisted_sessions;
  }

  module _ (targets : Bucket → ℕ) (scored : List (ScoredCandidate F)) where
    -- the warning about a bucket with too few candidates
    shortage : Bucket → List Warning
    shortage b =
        let needed_total = targets b * 2 in
        let available = length (pool_of b scored) in
        if ltb available needed_total then bucket_incomplete b needed_total available ∷ [] else []

    -- the body of `for bucket in ALL_BUCKETS`
    pub plan_bucket : Bucket → ExperimentPlan F → ExperimentPlan F
    unfolding pick_all make_slot shortage
    plan_bucket b plan =
        let picks = pick_all (targets b) (pool_of b scored) no_picks in
        record {
          manual_slots = plan.manual_slots ++ map (make_slot manual) picks.manual_picked;
          assisted_slots = plan.assisted_slots ++ map (make_slot assisted) picks.assisted_picked;
          warnings = plan.warnings ++ shortage b;
          bucket_summary =
              plan.bucket_summary
              ++ (
                b,
                record {
                  available = length (pool_of b scored);
                  needed_total = targets b * 2;
                  assigned = length picks.manual_picked + length picks.assisted_picked;
                },
              )
                ∷ [];
        }

    pub plan_buckets : List Bucket → ExperimentPlan F → ExperimentPlan F
    unfolding plan_bucket
    plan_buckets [] plan = plan
    plan_buckets (b ∷ buckets) plan = plan_buckets buckets (plan_bucket b plan)

    final_check : ExperimentPlan F → ExperimentPlan F
    final_check plan =
        if ltb (total_slots plan) 20
        then record plan { warnings = plan.warnings ++ few_slots (total_slots plan) ∷ [] }
        else plan

    unfoldable pub build_experiment_plan : ExperimentPlan F
    unfolding plan_buckets final_check
    build_experiment_plan = final_check (
        plan_buckets all_buckets
          (record { manual_slots = []; assisted_slots = []; warnings = []; bucket_summary = [] }))

-- a row of the export, in the order of `EXPORT_PLAN_ROW_KEYS`
pub record ExportRow (F : Type 0) : Type 0 where
  pub run_id : ℕ
  pub assigned_mode : Mode
  pub bucket : Bucket
  pub failure_type : Str
  pub query_text : Str
  pub difficulty_score : F
  pub rationale : List (Reason F)
  pub existing_manual_sessions : ℕ
  pub existing_assisted_sessions : ℕ

export_row : {F : Type 0} → ExperimentSlot F → ExportRow F
export_row slot = record {
  run_id = slot.run_id;
  assigned_mode = slot.mode;
  bucket = slot.bucket;
  failure_type = slot.failure_type;
  query_text = slot.query_text;
  difficulty_score = slot.difficulty_score;
  rationale = slot.rationale;
  existing_manual_sessions = slot.manual_sessions;
  existing_assisted_sessions = slot.assisted_sessions;
}

unfoldable pub plan_to_export_rows : {F : Type 0} → ExperimentPlan F → List (ExportRow F)
unfolding export_row
plan_to_export_rows plan = map export_row (plan.manual_slots ++ plan.assisted_slots)
