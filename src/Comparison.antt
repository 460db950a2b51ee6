-- ===== src/Comparison.antt =====
-- What a comparison of pipeline configurations reads: the selects of
-- backend/app/services/config_comparison.py, with its filters. The averages, percentiles and standard
-- deviations of a group of runs are the database's, a parameter.
pub mod Ranking
pub mod Compare
use context_lens.Prelude.{
  ℕ, ◌+◌, Bool, true, false, ◌&&◌, ◌||◌, not, Option, none, some, List, [], ◌∷◌, map, if◌then◌else◌,
  ◌==◌, ltb, leb, length,
}
use context_lens.Prelude.Counting.{filter_if, count_if, contains}
use context_lens.Prelude.Floats.{Floats}
use context_lens.Prelude.Text.{text_eq}
use context_lens.Domain.EvaluatorBucket.{of_bucket}
use context_lens.Domain.FailureTaxonomy.{FailureType, value}
use context_lens.Trace.Rows.{
  Db, Run, RunMetadata, QueryCase, EvaluationResult, EvaluationMetadata, EvaluatorType,
  RetrievalResult, llm, heuristic,
}
use context_lens.Trace.Store.{get_row, rows_of}
use context_lens.Trace.Write.{is_nil}

-- the averages, percentiles and standard deviations of `_MAIN_SQL` for one configuration
pub record Averages (F : Type 0) : Type 0 where
  pub avg_retrieval_latency_ms : Option F
  pub p95_retrieval_latency_ms : Option F
  pub avg_evaluation_latency_ms : Option F
  pub p95_evaluation_latency_ms : Option F
  pub avg_total_latency_ms : Option F
  pub p95_total_latency_ms : Option F
  pub avg_groundedness : Option F
  pub avg_faithfulness : Option F
  pub avg_completeness : Option F
  pub avg_retrieval_relevance : Option F
  pub avg_context_coverage : Option F
  pub avg_evaluation_cost_per_run_usd : Option F
  pub stddev_samp_completeness : Option F
  pub stddev_samp_faithfulness : Option F
  pub stddev_samp_retrieval_relevance : Option F
  pub stddev_samp_context_coverage : Option F
  pub stddev_samp_retrieval_latency_ms : Option F
  pub stddev_samp_total_latency_ms : Option F

-- the aggregates over the runs of a group, each with the evaluations of the bucket that it has
abbrev pub Aggregate : Type 0 → Type 0
Aggregate F = List (Run × List (EvaluationResult F)) → Averages F

-- the parameters that the three selects share
pub record Scope : Type 0 where
  pub pids : List ℕ
  pub dataset_id : Option ℕ
  pub include_benchmark_realism : Bool

-- a set of numbers, by first occurrences: `SELECT DISTINCT`, `dict.fromkeys`
pub distinct_from : List ℕ → List ℕ → List ℕ
distinct_from seen [] = []
distinct_from seen (x ∷ xs) =
    if contains seen x then distinct_from seen xs else x ∷ distinct_from (x ∷ seen) xs

unfoldable pub distinct : List ℕ → List ℕ
unfolding distinct_from
distinct xs = distinct_from [] xs

-- `metadata_json->>'benchmark_realism' IS NULL`, unless realism runs are included
realism_filter : Bool → Option RunMetadata → Bool
realism_filter true metadata = true
realism_filter false none = true
realism_filter false (some metadata) = not metadata.benchmark_realism

-- the join with the query case, and the filter on its dataset
dataset_filter : Option ℕ → Option QueryCase → Bool
dataset_filter dataset_id none = false
dataset_filter none (some qc) = true
dataset_filter (some dataset_id) (some qc) = qc.dataset_id == dataset_id

module _ {F : Type 0} (db : Db F) where
  -- the `WHERE` of the selects
  in_scope : Scope → Run → Bool
  unfolding realism_filter dataset_filter
  in_scope scope run =
      contains scope.pids run.pipeline_config_id
      && not (is_nil (rows_of (λ (rr : RetrievalResult F). rr.run_id) run.id db.retrieval_results))
      && realism_filter scope.include_benchmark_realism run.metadata_json
      && dataset_filter scope.dataset_id
          (get_row (λ (qc : QueryCase). qc.id) run.query_case_id db.query_cases)

  -- `run_base`, for one configuration
  unfoldable pub runs_of : Scope → ℕ → List Run
  unfolding in_scope
  runs_of scope pid =
      filter_if (λ (run : Run). in_scope scope run && run.pipeline_config_id == pid) db.runs

  -- `_query_query_case_sets`: the bucket has no part in it
  unfoldable pub query_case_set : Scope → ℕ → List ℕ
  unfolding runs_of
  query_case_set scope pid = distinct (map (λ (run : Run). run.query_case_id) (runs_of scope pid))

-- `round_metric_float` at its three decimals
unfoldable pub round_metric_float : {F : Type 0} → Floats F → Option F → Option F
round_metric_float fl none = none
round_metric_float fl (some x) = some (fl.round x 3)

-- `_metric_float` of each column
round_averages : {F : Type 0} → Floats F → Averages F → Averages F
unfolding round_metric_float
round_averages fl a = record {
  avg_retrieval_latency_ms = round_metric_float fl a.avg_retrieval_latency_ms;
  p95_retrieval_latency_ms = round_metric_float fl a.p95_retrieval_latency_ms;
  avg_evaluation_latency_ms = round_metric_float fl a.avg_evaluation_latency_ms;
  p95_evaluation_latency_ms = round_metric_float fl a.p95_evaluation_latency_ms;
  avg_total_latency_ms = round_metric_float fl a.avg_total_latency_ms;
  p95_total_latency_ms = round_metric_float fl a.p95_total_latency_ms;
  avg_groundedness = round_metric_float fl a.avg_groundedness;
  avg_faithfulness = round_metric_float fl a.avg_faithfulness;
  avg_completeness = round_metric_float fl a.avg_completeness;
  avg_retrieval_relevance = round_metric_float fl a.avg_retrieval_relevance;
  avg_context_coverage = round_metric_float fl a.avg_context_coverage;
  avg_evaluation_cost_per_run_usd = round_metric_float fl a.avg_evaluation_cost_per_run_usd;
  stddev_samp_completeness = round_metric_float fl a.stddev_samp_completeness;
  stddev_samp_faithfulness = round_metric_float fl a.stddev_samp_faithfulness;
  stddev_samp_retrieval_relevance = round_metric_float fl a.stddev_samp_retrieval_relevance;
  stddev_samp_context_coverage = round_metric_float fl a.stddev_samp_context_coverage;
  stddev_samp_retrieval_latency_ms = round_metric_float fl a.stddev_samp_retrieval_latency_ms;
  stddev_samp_total_latency_ms = round_metric_float fl a.stddev_samp_total_latency_ms;
}

-- a row of the comparison
pub record ConfigComparisonMetrics (F : Type 0) : Type 0 where
  pub pipeline_config_id : ℕ
  pub traced_runs : ℕ
  pub unique_query_count : ℕ
  -- the rounded averages, none if the configuration has no run in the scope
  pub averages : Option (Averages F)
  -- how many evaluations have a label; a label of none is no key
  pub failure_type_counts : FailureType → ℕ

module _ {F : Type 0} (fl : Floats F) (aggregate : Aggregate F) (db : Db F) (scope : Scope)
    (bucket : EvaluatorType) where
  evaluations_of : Run → List (EvaluationResult F)
  evaluations_of run =
      filter_if (of_bucket bucket)
        (rows_of (λ (er : EvaluationResult F). er.run_id) run.id db.evaluation_results)

  -- `_query_failures`, for one configuration and one label
  count_failures : List Run → FailureType → ℕ
  count_failures [] label = 0
  count_failures (run ∷ runs) label =
      count_if (λ (er : EvaluationResult F). text_eq (value er.failure_type) (value label))
        (evaluations_of run)
      + count_failures runs label

  -- `_query_main` and a step of `_build_metrics_list`
  metrics_of : ℕ → ConfigComparisonMetrics F
  unfolding evaluations_of count_failures runs_of round_averages
  metrics_of pid =
      let runs = runs_of db scope pid in
      record {
        pipeline_config_id = pid;
        traced_runs = length runs;
        unique_query_count = length (query_case_set db scope pid);
        averages =
            if is_nil runs
            then none
            else some (
                round_averages fl
                  (aggregate (map (λ (run : Run). (run, evaluations_of run)) runs)));
        failure_type_counts = count_failures runs;
      }

  unfoldable pub build_metrics_list : List ℕ → List (ConfigComparisonMetrics F)
  unfolding metrics_of
  build_metrics_list [] = []
  build_metrics_list (pid ∷ pids) = metrics_of pid ∷ build_metrics_list pids
