-- ===== src/Tests/Experiments.antt =====
-- Tests and examples of the experiment plan. Scores are hundredths.
use context_lens.Prelude.{
  All, ℕ, zero, suc, ◌+◌, ◌*◌, ◌≤◌, ◌<◌, ◌≡◌, refl, none, some, List, [], ◌∷◌, ◌++◌, arith, ◌==◌,
  length, map, min,
}
use context_lens.Prelude.Counting.{count_if, sort_by}
use context_lens.Prelude.Text.{Str, codes, text_eq, strip}
use context_lens.Experiment.{
  Bucket, retrieval_related, generation_incomplete, mixed_ambiguous, easy_control, CandidateRun,
  group_targets, classify_bucket, compute_difficulty,
}
use context_lens.Experiment.Scoring.{
  ScoredCandidate, sc_run_id, score_candidates, query_fingerprint, default_weights,
}
use context_lens.Experiment.Scoring.Explained.{IsExplained}
use context_lens.Experiment.Scoring.Laws.{candidates_of, Descending, score_candidates-Descending}
use context_lens.Experiment.Plan.{
  no_picks, pick_all, pool_of, build_experiment_plan, total_slots, plan_to_export_rows, ExportRow,
}
use context_lens.Experiment.Plan.Pairing.{times}
use context_lens.Experiment.Plan.Queries.{Begin, pick_all_split}
use context_lens.Experiment.Plan.Totals.{total-build, build-fills, over_buckets}
use context_lens.Experiment.Plan.Uniqueness.{export-once, buckets_of}
use context_lens.Chunker.{ℤ, pos, negsuc}
use context_lens.Tests.Signed.{signed_floats, signed-IsRanking, signed-Reverses}
use context_lens.Tests.Data.{test_floats}

abbrev candidate_run : Str → ℕ → ℕ → CandidateRun ℕ
candidate_run label r q = record {
  run_id = r;
  failure_type = label;
  query_text = codes "where is it" ++ q ∷ [];
  query_case_id = q;
  dataset_id = some 1;
  retrieval_relevance = some 20;
  context_coverage = none;
  completeness = some 140;
  faithfulness = none;
  manual_sessions = 0;
  assisted_sessions = 1;
}

abbrev scored_run : Bucket → ℕ → ℕ → ScoredCandidate ℕ
scored_run b r q = record {
  candidate = candidate_run (codes "UNKNOWN") r q;
  bucket = b;
  score = 30;
  score_reasons = [];
}

-- `n` candidates of a bucket, from the run `r` on
abbrev several : Bucket → ℕ → ℕ → List (ScoredCandidate ℕ)
several b r zero = []
several b r (suc n) = scored_run b r r ∷ several b (r + 1) n

abbrev twenty_two : List (ScoredCandidate ℕ)
twenty_two =
    several retrieval_related 1 9
    ++ several generation_incomplete 10 6
    ++ several mixed_ambiguous 16 4
    ++ several easy_control 20 3

-- runs in ascending order, from `k` on
abbrev Above : ℕ → List (ScoredCandidate ℕ) → Type 0
Above k [] = Unit
Above k (sc ∷ scs) = (k ≤ sc_run_id sc) × Above (suc (sc_run_id sc)) scs

below_none : (k r : ℕ) (scs : List (ScoredCandidate ℕ)) → Above k scs → r < k → times r scs ≡ 0
below_none k r [] above h = refl
below_none k r (sc ∷ scs) (this, rest) h =
    ground (arith, below_none (suc (sc_run_id sc)) r scs rest (omega arith))

ascending_differ :
    (k : ℕ) (scs : List (ScoredCandidate ℕ)) → Above k scs → (r : ℕ) → times r scs ≤ 1
ascending_differ k [] above r = omega arith
ascending_differ k (sc ∷ scs) (this, rest) r = ground (
  arith,
  ascending_differ (suc (sc_run_id sc)) scs rest r,
  below_none (suc (sc_run_id sc)) r scs rest,
)

enough : (b : Bucket) → group_targets b * 2 ≤ length (pool_of b twenty_two)
enough retrieval_related = omega arith
enough generation_incomplete = omega arith
enough mixed_ambiguous = omega arith
enough easy_control = omega arith

build-fills_example :
    (length (build_experiment_plan test_floats group_targets twenty_two).manual_slots ≡ 10)
    × (length (build_experiment_plan test_floats group_targets twenty_two).assisted_slots ≡ 10)
    × ((build_experiment_plan test_floats group_targets twenty_two).warnings ≡ [])
build-fills_example =
    build-fills test_floats twenty_two (ascending_differ 0 twenty_two (omega arith)) enough

-- too few candidates for the bucket
abbrev scarce : List (ScoredCandidate ℕ)
scarce = several retrieval_related 1 9 ++ several generation_incomplete 10 2

total-build_example :
    total_slots (build_experiment_plan test_floats group_targets scarce)
    ≡ over_buckets test_floats group_targets scarce
        (λ b. min (group_targets b * 2) (length (pool_of b scarce)))
total-build_example =
    total-build test_floats group_targets scarce (ascending_differ 0 scarce (omega arith))

total_scarce : total_slots (build_experiment_plan test_floats group_targets scarce) ≡ 10
unfolding build_experiment_plan
total_scarce = refl

pick_all_split_example :
    Begin
      (scored_run easy_control 5 7)
      (scored_run easy_control 4 7)
      (pick_all 2 (scored_run easy_control 5 7 ∷ scored_run easy_control 4 7 ∷ []) no_picks)
pick_all_split_example =
    pick_all_split 2 (scored_run easy_control 5 7) (scored_run easy_control 4 7) [] (omega arith)
      (omega arith) refl

abbrev candidates : List (CandidateRun ℕ)
candidates =
    candidate_run (codes "NO_FAILURE") 1 1
    ∷ candidate_run (codes "RETRIEVAL_MISS") 2 2
    ∷ candidate_run (codes " UNKNOWN ") 3 2
    ∷ candidate_run (codes "strange") 4 3
    ∷ []

abbrev same : Str → Str
same s = s

export-once_example :
    (count_if
        (λ (row : ExportRow ℕ). row.run_id == 3)
        (plan_to_export_rows (
          build_experiment_plan test_floats group_targets
            (score_candidates test_floats (default_weights test_floats) same same candidates)))
      ≤ buckets_of test_floats group_targets
          (score_candidates test_floats (default_weights test_floats) same same candidates)
          3)
    × (count_if
          (λ (row : ExportRow ℕ). row.run_id == 3)
          (plan_to_export_rows (
            build_experiment_plan test_floats group_targets
              (score_candidates test_floats (default_weights test_floats) same same candidates)))
        ≤ candidates_of 3 candidates)
export-once_example =
    export-once test_floats group_targets (default_weights test_floats) same same candidates 3

-- the same candidates, with signed hundredths
abbrev signed_run : Str → ℕ → ℕ → ℕ → CandidateRun ℤ
signed_run label r q sessions = record {
  run_id = r;
  failure_type = label;
  query_text = codes "where is it" ++ q ∷ [];
  query_case_id = q;
  dataset_id = some 1;
  retrieval_relevance = some (pos 20);
  context_coverage = none;
  completeness = some (pos 140);
  faithfulness = none;
  manual_sessions = 0;
  assisted_sessions = sessions;
}

abbrev signed_candidates : List (CandidateRun ℤ)
signed_candidates =
    signed_run (codes "NO_FAILURE") 1 1 0
    ∷ signed_run (codes "RETRIEVAL_MISS") 2 2 1
    ∷ signed_run (codes "UNKNOWN") 3 2 0
    ∷ signed_run (codes "strange") 4 3 1
    ∷ []

score_candidates-Descending_example :
    Descending signed_floats
      (score_candidates signed_floats (default_weights signed_floats) same same signed_candidates)
    × All
        (IsExplained signed_floats (default_weights signed_floats))
        (score_candidates signed_floats (default_weights signed_floats) same same signed_candidates)
    × ((r : ℕ)
        → count_if
            (λ (sc : ScoredCandidate ℤ). sc_run_id sc == r)
            (score_candidates signed_floats
              (default_weights signed_floats)
              same
              same
              signed_candidates)
          ≡ candidates_of r signed_candidates)
score_candidates-Descending_example =
    score_candidates-Descending signed_floats signed-IsRanking (default_weights signed_floats) same
      same signed_candidates signed-Reverses

-- the runs and their scores, in the order of the list
abbrev scores : List (ℕ × ℤ)
scores =
    map (λ (sc : ScoredCandidate ℤ). (sc_run_id sc, sc.score))
      (score_candidates signed_floats (default_weights signed_floats) same same signed_candidates)

scores_lem : scores ≡ (4, pos 3900) ∷ (2, pos 3900) ∷ (3, pos 1900) ∷ (1, negsuc 4099) ∷ []
unfolding score_candidates query_fingerprint sort_by text_eq strip classify_bucket
    compute_difficulty
scores_lem = refl
