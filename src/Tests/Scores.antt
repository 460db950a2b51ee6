-- ===== src/Tests/Scores.antt =====
-- Tests of the heuristic evaluation, on a run that has found one chunk.
use context_lens.Prelude.{ℕ, ◌≡◌, refl, false, some, none, [], ◌∷◌, Result, ok, err}
use context_lens.Prelude.Text.{codes}
use context_lens.Trace.Rows.{Db}
use context_lens.Trace.Store.{get_row}
use context_lens.Trace.Write.{run_at, is_nil, create_run, add_retrieval}
use context_lens.Trace.Context.{context_rows}
use context_lens.Evaluation.{
  Scores, miss_scores, classify_heuristic_failure_from_scores, compute_minimal_retrieval_evaluation,
  compute_hybrid_skipped_evaluation,
}
use context_lens.Evaluation.Realism.{
  classify_low_quality_failure, default_profile, classify-classify,
}
use context_lens.Evaluation.Laws.{is_miss, is_miss-exact, skipped_same}
use context_lens.Run.Pipeline.Heuristic.{created}
use context_lens.Tests.Data.{test_floats}
use context_lens.Tests.Runs.{run_db}

-- the run has found one chunk
abbrev one_hit : Db ℕ
one_hit = add_retrieval (record { run_id = 1; chunk_id = 1; rank = 1; score = 90 } ∷ []) run_db

abbrev of_scores : Result (Scores ℕ) → Scores ℕ
of_scores (ok s) = s
of_scores (err e) = miss_scores

scored :
    compute_minimal_retrieval_evaluation test_floats 1 one_hit
    ≡ ok (of_scores (compute_minimal_retrieval_evaluation test_floats 1 one_hit))
unfolding compute_minimal_retrieval_evaluation run_at add_retrieval created create_run get_row
scored = refl

is_miss-exact_example :
    is_miss (of_scores (compute_minimal_retrieval_evaluation test_floats 1 one_hit)).failure_type
    ≡ is_nil (context_rows 1 one_hit)
is_miss-exact_example = is_miss-exact test_floats 1 one_hit scored

abbrev skipped : Scores ℕ
skipped = of_scores (compute_hybrid_skipped_evaluation test_floats 1 (codes "a") one_hit)

skipped_scored : compute_hybrid_skipped_evaluation test_floats 1 (codes "a") one_hit ≡ ok skipped
unfolding compute_hybrid_skipped_evaluation compute_minimal_retrieval_evaluation run_at
    add_retrieval created create_run get_row
skipped_scored = refl

skipped_same_example :
    (base : Scores ℕ) × (compute_minimal_retrieval_evaluation test_floats 1 one_hit ≡ ok base)
    × (skipped.failure_type ≡ base.failure_type)
    × (skipped.completeness ≡ base.completeness)
    × (skipped.retrieval_relevance ≡ base.retrieval_relevance)
    × (skipped.context_coverage ≡ base.context_coverage)
skipped_same_example = skipped_same test_floats 1 (codes "a") one_hit skipped_scored

classify-classify_example :
    classify_low_quality_failure test_floats
      (some 20)
      (some 90)
      none
      (classify_heuristic_failure_from_scores test_floats false (some 80) (some 30) none)
      (default_profile test_floats)
    ≡ classify_heuristic_failure_from_scores test_floats false (some 20) (some 90) none
classify-classify_example =
    classify-classify test_floats false (some 80) (some 30) none (some 20) (some 90) none
