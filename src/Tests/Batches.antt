-- ===== src/Tests/Batches.antt =====
-- Tests and examples of batches of runs.
use context_lens.Prelude.{
  ℕ, ◌≤◌, ◌≡◌, ◌≢◌, refl, true, false, none, List, [], ◌∷◌, arith, length, ◌+◌,
}
use context_lens.Prelude.Counting.{sort_by}
use context_lens.Trace.Rows.{Db, QueryCase}
use context_lens.Trace.Store.{get_row, rows_of}
use context_lens.Trace.Invariant.{WellTraced}
use context_lens.Run.Phases.{query_case_at, pipeline_config_at}
use context_lens.Run.Pipeline.{validate_run_create_prerequisites}
use context_lens.Evaluation.Realism.{default_profile}
use context_lens.Batch.{
  BatchCell, Draws, perturb_search_chunk_hits, load_ordered_query_cases, chosen_cases, batch_cells,
}
use context_lens.Batch.Cell.NoHits.{committed_db}
use context_lens.Batch.Runner.{BatchResult, finished, stuck, heuristic, llm, run_batch_benchmark}
use context_lens.Batch.Runner.Laws.{batch_finishes, heuristic_stuck}
use context_lens.Tests.Data.{test_floats, test_world, empty_world, test_case, test_config, start_db}
use context_lens.Tests.Runs.{start-WellTraced}

abbrev no_noise : Draws ℕ
no_noise = record {
  empties = false;
  drops_top = true;
  shuffled = λ hits. hits;
  relevance_delta = 0;
  coverage_delta = 0;
  completeness_delta = 0;
  faithfulness_delta = 0;
}

abbrev same_order : ℕ → List QueryCase → List QueryCase
same_order dataset_id cases = cases

abbrev only_cell : BatchCell
only_cell = record { dataset_id = 1; query_case_id = 1; pipeline_config_id = 1; repetition = 0 }

not_empty : ◌≢◌ {A = List ℕ} (1 ∷ []) []
not_empty e = absurd (ground arith)

drops-top :
    perturb_search_chunk_hits no_noise
      (record { thresholds = default_profile test_floats; shuffle_lower_ranks = true })
      ((4, 90) ∷ (5, 80) ∷ [])
    ≡ (5, 80) ∷ []
unfolding perturb_search_chunk_hits
drops-top = refl

batch_finishes_example :
    (r : BatchResult) × (db' : Db ℕ) × (run_batch_benchmark test_world none none
        (λ cell. no_noise)
        same_order
        (1 ∷ [])
        (1 ∷ [])
        2
        3
        llm
        start_db
      ≡ finished r db')
    × (r.total_runs ≡ length (batch_cells same_order start_db 2 3 (1 ∷ []) (1 ∷ [])))
    × (r.total_runs ≤ 6)
    × (r.successes + r.failures ≡ r.total_runs)
    × WellTraced db'
batch_finishes_example =
    batch_finishes test_world none none (λ cell. no_noise) same_order (1 ∷ []) (1 ∷ []) 2 3 start_db
      llm tt refl (omega arith) (omega arith) not_empty not_empty start-WellTraced

heuristic_stuck_example :
    run_batch_benchmark empty_world none none
      (λ cell. no_noise)
      same_order
      (1 ∷ [])
      (1 ∷ [])
      1
      1
      heuristic
      start_db
    ≡ stuck (committed_db empty_world none none no_noise only_cell start_db)
unfolding batch_cells chosen_cases load_ordered_query_cases validate_run_create_prerequisites
    query_case_at pipeline_config_at get_row rows_of sort_by
heuristic_stuck_example =
    heuristic_stuck empty_world none none (λ cell. no_noise) same_order (1 ∷ []) (1 ∷ []) 1 1
      start_db {cell = only_cell} {cells = []} {qc = test_case} {pc = test_config} (omega arith)
      (omega arith) not_empty not_empty refl refl refl refl refl start-WellTraced
