-- ===== src/Tests/Comparisons.antt =====
-- Tests and examples of the comparison of configurations. Scores are hundredths.
use context_lens.Prelude.{
  ℕ, ◌≤◌, ◌≡◌, refl, true, false, ◌&&◌, none, some, List, [], ◌∷◌, arith, inl, inr, length, ok,
  ◌==◌, ltb,
}
use context_lens.Prelude.Counting.{contains}
use context_lens.Prelude.Text.{text_eq}
use context_lens.Trace.Rows.{Db, Run, RetrievalResult, completed}
use context_lens.Trace.Store.{get_row, rows_of}
use context_lens.Trace.Write.{is_none}
use context_lens.Comparison.{
  Averages, Aggregate, ConfigComparisonMetrics, distinct, runs_of, query_case_set,
  build_metrics_list,
}
use context_lens.Comparison.Ranking.{Scored, score_of, rank_avg_dimension}
use context_lens.Comparison.Ranking.Laws.{Holds, rank_extremes}
use context_lens.Comparison.Compare.{
  Request, both, ConfigComparisonResponse, scope_of, compare_pipeline_configs,
}
use context_lens.Comparison.Compare.Integrity.{AtLeast, compare_strict}
use context_lens.Tests.Data.{test_floats, hundredths-IsRanking, start_db}

abbrev averages : ℕ → Averages ℕ
averages n = record {
  avg_retrieval_latency_ms = none;
  p95_retrieval_latency_ms = none;
  avg_evaluation_latency_ms = none;
  p95_evaluation_latency_ms = none;
  avg_total_latency_ms = none;
  p95_total_latency_ms = none;
  avg_groundedness = none;
  avg_faithfulness = none;
  avg_completeness = some n;
  avg_retrieval_relevance = none;
  avg_context_coverage = none;
  avg_evaluation_cost_per_run_usd = none;
  stddev_samp_completeness = none;
  stddev_samp_faithfulness = none;
  stddev_samp_retrieval_relevance = none;
  stddev_samp_context_coverage = none;
  stddev_samp_retrieval_latency_ms = none;
  stddev_samp_total_latency_ms = none;
}

abbrev row : ℕ → ℕ → ConfigComparisonMetrics ℕ
row pid n = record {
  pipeline_config_id = pid;
  traced_runs = 3;
  unique_query_count = 2;
  averages = some (averages n);
  failure_type_counts = λ label. 0;
}

abbrev three_rows : List (ConfigComparisonMetrics ℕ)
three_rows = row 4 60 ∷ row 2 80 ∷ row 7 80 ∷ []

rank_extremes_example :
    (best : Scored ℕ) × (worst : Scored ℕ) × (rank_avg_dimension test_floats three_rows
        (λ a. a.avg_completeness)
      ≡ some (best, worst))
    × Holds (λ a. a.avg_completeness) three_rows best
    × Holds (λ a. a.avg_completeness) three_rows worst
    × (ltb best.1 80 ≡ false)
    × (ltb 80 worst.1 ≡ false)
    × ((80 == best.1 && ltb 7 best.0) ≡ false)
    × ((80 == worst.1 && ltb 7 worst.0) ≡ false)
rank_extremes_example =
    rank_extremes test_floats hundredths-IsRanking (λ a. a.avg_completeness) three_rows (row 7 80)
      80 (inr (inr (inl refl))) (omega arith) (unfold score_of in refl)

abbrev past_run : ℕ → ℕ → Run
past_run id pid = record {
  id = id;
  query_case_id = 1;
  pipeline_config_id = pid;
  status = completed;
  retrieval_latency_ms = some 3;
  generation_latency_ms = none;
  evaluation_latency_ms = some 1;
  total_latency_ms = some 4;
  metadata_json = none;
  trace_instrumentation_json = none;
}

abbrev hit : ℕ → RetrievalResult ℕ
hit run_id = record { run_id = run_id; chunk_id = 1; rank = 1; score = 90 }

-- two configurations with two runs each, on one query case
abbrev compared_db : Db ℕ
compared_db = record start_db {
  runs = past_run 1 1 ∷ past_run 2 5 ∷ past_run 3 1 ∷ past_run 4 5 ∷ [];
  retrieval_results = hit 1 ∷ hit 2 ∷ hit 3 ∷ hit 4 ∷ [];
}

abbrev same_averages : Aggregate ℕ
same_averages runs = averages 50

abbrev strict_request : Request
strict_request = record {
  evaluator_type = both;
  dataset_id = some 1;
  min_traced_runs = some 1;
  strict_comparison = true;
  include_benchmark_realism = false;
}

compared :
    (r : ConfigComparisonResponse ℕ) × (compare_pipeline_configs test_floats same_averages
        compared_db strict_request
        (5 ∷ 1 ∷ 5 ∷ [])
      ≡ ok r)
unfolding compare_pipeline_configs distinct get_row rows_of text_eq query_case_set runs_of
    build_metrics_list
compared = (_, refl)

compare_strict_example :
    (is_none strict_request.dataset_id ≡ false)
    × (length (distinct (5 ∷ 1 ∷ 5 ∷ [])) ≤ 64)
    × (2 ≤ length (runs_of compared_db (scope_of strict_request (distinct (5 ∷ 1 ∷ 5 ∷ []))) 1))
    × AtLeast
        (some 1)
        (length (runs_of compared_db (scope_of strict_request (distinct (5 ∷ 1 ∷ 5 ∷ []))) 1))
    × ((n : ℕ)
        → contains
            (query_case_set compared_db (scope_of strict_request (distinct (5 ∷ 1 ∷ 5 ∷ []))) 1)
            n
          ≡ contains
              (query_case_set compared_db (scope_of strict_request (distinct (5 ∷ 1 ∷ 5 ∷ []))) 5)
              n)
compare_strict_example =
    compare_strict test_floats same_averages compared_db strict_request (5 ∷ 1 ∷ 5 ∷ []) 1 5 refl
      compared.1 refl refl
