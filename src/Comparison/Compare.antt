-- ===== src/Comparison/Compare.antt =====
-- The comparison of pipeline configurations, `compare_pipeline_configs` of
-- backend/app/services/config_comparison.py.
pub mod Integrity
use context_lens.Prelude.{
  ℕ, ◌+◌, Bool, true, false, ◌&&◌, ◌||◌, not, Option, none, some, List, [], ◌∷◌, ◌++◌, map,
  if◌then◌else◌, ◌==◌, ltb, leb, length, min, max, Result, ok, err, value_error, require, ◌>>=◌,
  ◌>>◌,
}
use context_lens.Prelude.Counting.{contains}
use context_lens.Prelude.Floats.{Floats}
use context_lens.Domain.Statistics.{
  ConfidenceTier, low, confidence_tier_from_effective_sample_size,
  comparison_statistically_reliable_by_effective_sample,
}
use context_lens.Trace.Rows.{Db, EvaluatorType, llm, heuristic}
use context_lens.Trace.Write.{is_nil, is_none}
use context_lens.Comparison.{
  Aggregate, Scope, ConfigComparisonMetrics, distinct, query_case_set, build_metrics_list,
}
use context_lens.Comparison.Ranking.{ConfigScoreComparisonSummary, build_config_score_comparison}

-- `_MAX_CONFIG_IDS`
abbrev pub max_config_ids : ℕ
max_config_ids = 64

-- `evaluator_type`
pub data EvaluatorChoice : Type 0 where
  one : EvaluatorType → EvaluatorChoice
  both : EvaluatorChoice

-- `_comparison_confidence_fields`
pub record Confidence : Type 0 where
  pub comparison_confidence : ConfidenceTier
  pub comparison_statistically_reliable : Bool
  pub min_traced_runs_across_configs : ℕ
  pub effective_sample_size : ℕ

module _ {F : Type 0} where
  least : (ConfigComparisonMetrics F → ℕ) → ℕ → List (ConfigComparisonMetrics F) → ℕ
  least f m [] = m
  least f m (r ∷ rows) = least f (min m (f r)) rows

  pub comparison_confidence_fields : List (ConfigComparisonMetrics F) → Confidence
  unfolding least
  comparison_confidence_fields [] = record {
    comparison_confidence = low;
    comparison_statistically_reliable = false;
    min_traced_runs_across_configs = 0;
    effective_sample_size = 0;
  }
  comparison_confidence_fields (r ∷ rows) =
      let effective = least (λ m. m.unique_query_count) r.unique_query_count rows in
      record {
        comparison_confidence = confidence_tier_from_effective_sample_size effective;
        comparison_statistically_reliable =
            comparison_statistically_reliable_by_effective_sample effective;
        min_traced_runs_across_configs = least (λ m. m.traced_runs) r.traced_runs rows;
        effective_sample_size = effective;
      }

  -- `by_pid.get(pid)`, of rows with different ids
  traced_of : ℕ → List (ConfigComparisonMetrics F) → ℕ
  traced_of pid [] = 0
  traced_of pid (m ∷ rows) =
      let later = traced_of pid rows in if m.pipeline_config_id == pid then m.traced_runs else later

-- `a == b` for frozensets
subset : List ℕ → List ℕ → Bool
subset [] ys = true
subset (x ∷ xs) ys = contains ys x && subset xs ys

pub same_set : List ℕ → List ℕ → Bool
unfolding subset
same_set xs ys = subset xs ys && subset ys xs

-- `len(set(sets)) > 1`, negated: each set is the first one
all_same : List ℕ → List (List ℕ) → Bool
unfolding same_set
all_same first [] = true
all_same first (s ∷ sets) = same_set first s && all_same first sets

pub sets_agree : List (List ℕ) → Bool
unfolding all_same
sets_agree [] = true
sets_agree (s ∷ sets) = all_same s sets

module _ {F : Type 0} where
  -- each configuration has the runs that are asked for
  pub enough_runs : ℕ → List (ConfigComparisonMetrics F) → List ℕ → Result (Unit {0})
  unfolding traced_of
  enough_runs least_runs rows [] = ok tt
  enough_runs least_runs rows (pid ∷ pids) = do
    require (not (ltb (traced_of pid rows) least_runs)) value_error
    enough_runs least_runs rows pids

  pub enforce_integrity :
      List ℕ → List (ConfigComparisonMetrics F) → (ℕ → List ℕ) → Option ℕ → Bool → Result (Unit {0})
  unfolding sets_agree enough_runs
  enforce_integrity pids rows query_sets min_traced_runs require_same_queries = do
    require (not (require_same_queries && leb 2 (length pids)) || sets_agree (map query_sets pids))
        value_error
    elim min_traced_runs [ none ↦ ok tt | some n ↦ enough_runs n rows pids ]

-- a bucket of the response
pub record BucketRows (F : Type 0) : Type 0 where
  pub bucket : EvaluatorType
  pub configs : List (ConfigComparisonMetrics F)
  pub score_comparison : ConfigScoreComparisonSummary F

pub record ConfigComparisonResponse (F : Type 0) : Type 0 where
  pub evaluator_type : EvaluatorChoice
  pub pipeline_config_ids : List ℕ
  -- one bucket, or the two of `both`
  pub buckets : List (BucketRows F)
  pub confidence : Confidence
  pub dataset_id : Option ℕ
  pub strict_comparison_applied : Bool
  pub min_traced_runs_enforced : Option ℕ

-- the keyword arguments of `compare_pipeline_configs`
pub record Request : Type 0 where
  pub evaluator_type : EvaluatorChoice
  pub dataset_id : Option ℕ
  pub min_traced_runs : Option ℕ
  pub strict_comparison : Bool
  pub include_benchmark_realism : Bool

-- `min_traced_runs or 2`
or_two : Option ℕ → ℕ
or_two none = 2
or_two (some n) = if n == 0 then 2 else n

unfoldable pub effective_min : Request → Option ℕ
unfolding or_two
effective_min req =
    if req.strict_comparison then some (max 2 (or_two req.min_traced_runs)) else req.min_traced_runs

-- `resolve_include_benchmark_realism_for_comparison`
unfoldable pub scope_of : Request → List ℕ → Scope
scope_of req pids = record {
  pids = pids;
  dataset_id = req.dataset_id;
  include_benchmark_realism = req.include_benchmark_realism || not (is_none req.dataset_id);
}

module _ {F : Type 0} (fl : Floats F) (aggregate : Aggregate F) (db : Db F) (req : Request) where
  pub rows_in : List ℕ → EvaluatorType → List (ConfigComparisonMetrics F)
  unfolding scope_of
  rows_in pids bucket = build_metrics_list fl aggregate db (scope_of req pids) bucket pids

  -- one bucket's rows, past the check
  pub checked_rows : List ℕ → EvaluatorType → Result (List (ConfigComparisonMetrics F))
  unfolding enforce_integrity rows_in effective_min scope_of
  checked_rows pids bucket = do
    enforce_integrity pids (rows_in pids bucket) (query_case_set db (scope_of req pids))
        (effective_min req) req.strict_comparison
    ok (rows_in pids bucket)

  bucket_rows : EvaluatorType → List (ConfigComparisonMetrics F) → BucketRows F
  bucket_rows bucket rows = record {
    bucket = bucket;
    configs = rows;
    score_comparison = build_config_score_comparison fl rows true;
  }

  response :
      List ℕ → List (BucketRows F) → List (ConfigComparisonMetrics F) → ConfigComparisonResponse F
  unfolding comparison_confidence_fields effective_min
  response pids buckets rows = record {
    evaluator_type = req.evaluator_type;
    pipeline_config_ids = pids;
    buckets = buckets;
    confidence = comparison_confidence_fields rows;
    dataset_id = req.dataset_id;
    strict_comparison_applied = req.strict_comparison;
    min_traced_runs_enforced = effective_min req;
  }

  pub compare_buckets : EvaluatorChoice → List ℕ → Result (ConfigComparisonResponse F)
  unfolding checked_rows bucket_rows response
  compare_buckets (one bucket) pids = do
    rows ← checked_rows pids bucket
    ok (response pids (bucket_rows bucket rows ∷ []) rows)
  compare_buckets both pids = do
    list_h ← checked_rows pids heuristic
    list_l ← checked_rows pids llm
    ok (
        response pids (bucket_rows heuristic list_h ∷ bucket_rows llm list_l ∷ [])
          (list_h ++ list_l))

  unfoldable pub compare_pipeline_configs : List ℕ → Result (ConfigComparisonResponse F)
  unfolding compare_buckets
  compare_pipeline_configs pipeline_config_ids =
      let pids = distinct pipeline_config_ids in
      do
        require (not (is_nil pids)) value_error
        require (not (ltb max_config_ids (length pids))) value_error
        require (not (req.strict_comparison && is_none req.dataset_id)) value_error
        compare_buckets req.evaluator_type pids
