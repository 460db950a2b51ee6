-- ===== src/Batch/Cell.antt =====
-- One run of a batch: `_execute_heuristic_cell` with `commit=True`, `_execute_llm_cell` and
-- `_mark_run_failed` of backend/app/services/batch_runner.py. An UPDATE of a row waits while another
-- open transaction has updated that row.
pub mod NoHits
pub mod Full
use context_lens.Prelude.{
  ℕ, ◌+◌, Bool, true, false, ◌&&◌, ◌||◌, Option, none, some, List, [], ◌∷◌, Result, ok, err, other,
  value_error, ◌>>=◌, if◌then◌else◌, ◌==◌, ltb,
}
use context_lens.Prelude.Counting.{contains}
use context_lens.Prelude.Text.{Str, codes}
use context_lens.Domain.FailureTaxonomy.{value}
use context_lens.Trace.Rows.{
  Db, Run, RunMetadata, QueryCase, PipelineConfig, status_eq, running, retrieval_completed,
  completed, failed,
}
use context_lens.Trace.Store.{or_raise}
use context_lens.Trace.Write.{
  run_at, save_run, create_run, persist_evaluation_and_complete_run,
  merge_run_trace_instrumentation, heuristic_run_instrumentation,
}
use context_lens.Evaluation.{Scores, compute_minimal_retrieval_evaluation}
use context_lens.Run.World.{World}
use context_lens.Run.Phases.{or_zero, query_case_at, pipeline_config_at, store_hits}
use context_lens.Run.Pipeline.{
  validate_run_create_prerequisites, heuristic_input, run_full_benchmark_pipeline, failed_run,
}
use context_lens.Batch.{BatchCell, Draws, Realism, perturb_search_chunk_hits, with_noise}

-- How a cell ends: with success or without, with the database; by an exception, with the committed
-- database and the runs that the open transaction of the batch's session has updated; or by the
-- exception that ends the batch.
pub data CellEnd (F : Type 0) : Type 0 where
  cell_done : Bool → Db F → CellEnd F
  cell_raised : Db F → List ℕ → CellEnd F
  not_configured : Db F → CellEnd F

-- The metadata of a run, without the batch's own keys.
pub run_metadata : Option Str → Bool → RunMetadata
run_metadata mode realism = record {
  request_id = none;
  evaluator_execution_mode = mode;
  queue_enqueue_failed = false;
  benchmark_realism = realism;
}

pub is_some_realism : {F : Type 0} → Option (Realism F) → Bool
is_some_realism none = false
is_some_realism (some r) = true

module _ {F : Type 0} (w : World F) (document_id : Option ℕ) where
  module _ (realism : Option (Realism F)) (draws : Draws F) where
    -- the hits of the search, perturbed
    pub search_hits : QueryCase → PipelineConfig → Db F → Result (List (ℕ × F))
    search_hits qc pc db = do
      hits ← w.search_chunks db qc.query_text pc.top_k document_id
      ok (elim realism [
        | none ↦ hits
        | some profile ↦ perturb_search_chunk_hits draws profile hits
      ])

    -- the evaluation with its noise, in the transaction that holds the hits
    pub evaluate_cell : ℕ → Db F → Result (Db F)
    evaluate_cell run_id db = do
      run ← or_raise (run_at run_id db) other
      ev ← compute_minimal_retrieval_evaluation w.floats run_id db
      stored ←
          persist_evaluation_and_complete_run w.upper_beyond_ascii run_id
            (heuristic_input w (or_zero run.retrieval_latency_ms)
              (elim realism [ none ↦ ev | some profile ↦ with_noise w.floats draws profile ev ]))
            retrieval_completed db
      ok (merge_run_trace_instrumentation run_id heuristic_run_instrumentation stored)

    -- After the hits are stored, the session has updated the run.
    pub finish_cell : Db F → ℕ → Db F → CellEnd F
    unfolding evaluate_cell
    finish_cell committed run_id pending = elim (evaluate_cell run_id pending) [
      | ok db ↦ cell_done true db
      | err e ↦ cell_raised committed (run_id ∷ [])
    ]

    -- from the committed run on
    pub search_cell : Run → QueryCase → PipelineConfig → Db F → CellEnd F
    unfolding search_hits finish_cell
    search_cell run qc pc db = elim (search_hits qc pc db) [
      | err e ↦ cell_raised db []
      | ok hits ↦ elim (store_hits w run hits db) [
        | err e ↦ cell_raised db []
        | ok pending ↦ finish_cell db run.id pending
      ]
    ]

    unfoldable pub execute_heuristic_cell : BatchCell → Db F → CellEnd F
    unfolding search_cell run_metadata is_some_realism
    execute_heuristic_cell cell db =
        elim (validate_run_create_prerequisites w cell.query_case_id cell.pipeline_config_id
          document_id false db) [
            | err e ↦ cell_raised db []
            | ok _ ↦ elim (query_case_at w cell.query_case_id db) [
              | err e ↦ cell_raised db []
              | ok qc ↦ elim (pipeline_config_at w cell.pipeline_config_id db) [
                | err e ↦ cell_raised db []
                | ok pc ↦
                    let (run, db') =
                      create_run cell.query_case_id cell.pipeline_config_id running
                        (some (run_metadata none (is_some_realism realism))) db in
                    search_cell run qc pc db'
              ]
            ]
          ]

  -- `r is not None and r.status == STATUS_COMPLETED`
  is_completed : Option Run → Bool
  is_completed none = false
  is_completed (some run) = status_eq run.status completed

  -- the rest of the cell, from the pipeline on
  after_pipeline : ℕ → Result (Unit {0}) × Db F → CellEnd F
  unfolding is_completed
  after_pipeline run_id (ok _, db) = cell_done (is_completed (run_at run_id db)) db
  after_pipeline run_id (err e, db) = cell_raised db []

  -- `_execute_llm_cell`; the sessions are its own.
  unfoldable pub execute_llm_cell : Bool → BatchCell → Db F → CellEnd F
  unfolding after_pipeline run_metadata
  execute_llm_cell hybrid cell db =
      elim (validate_run_create_prerequisites w cell.query_case_id cell.pipeline_config_id
        document_id true db) [
          | err other ↦ not_configured db
          | err e ↦ cell_raised db []
          | ok _ ↦
              let mode = if hybrid then codes "hybrid" else codes "llm_only" in
              let (run, db') =
                create_run cell.query_case_id cell.pipeline_config_id running
                  (some (run_metadata (some mode) false)) db in
              after_pipeline run.id (run_full_benchmark_pipeline w run.id document_id db')
        ]

-- the run of the higher id
newer : Run → Option Run → Option Run
newer run none = some run
newer run (some best) = if ltb best.id run.id then some run else some best

-- `order_by(Run.id.desc()).limit(1)` over the runs of a query case and a configuration
newest_run : ℕ → ℕ → List Run → Option Run → Option Run
unfolding newer
newest_run qc cfg [] best = best
newest_run qc cfg (run ∷ runs) best =
    newest_run qc cfg runs
      (if run.query_case_id == qc && run.pipeline_config_id == cfg then newer run best else best)

module _ {F : Type 0} where
  -- `_mark_run_failed` in a second session: none if it waits for a transaction that is never ended
  pub mark_failed_unless_held : Run → List ℕ → Db F → Option (Db F)
  mark_failed_unless_held run held db =
      if status_eq run.status completed || status_eq run.status failed
      then some db
      else if contains held run.id
      then none
      else some (save_run (failed_run run) db)

  unfoldable pub mark_newest_failed : BatchCell → List ℕ → Db F → Option (Db F)
  unfolding newest_run mark_failed_unless_held
  mark_newest_failed cell held db =
      elim (newest_run cell.query_case_id cell.pipeline_config_id db.runs none) [
        | none ↦ some db
        | some run ↦ mark_failed_unless_held run held db
      ]
