-- ===== src/Batch/Runner.antt =====
-- `run_batch_benchmark` of backend/app/services/batch_runner.py, with `commit=True`.
pub mod Laws
use context_lens.Prelude.{
  ℕ, ◌+◌, Bool, true, false, ◌&&◌, ◌||◌, Option, none, some, List, [], ◌∷◌, Result, ok, err, Exn,
  value_error, other, if◌then◌else◌, ltb,
}
use context_lens.Prelude.Text.{Str, codes, text_eq}
use context_lens.Trace.Rows.{Db, QueryCase}
use context_lens.Trace.Write.{is_nil}
use context_lens.Run.World.{World}
use context_lens.Batch.{BatchCell, Draws, Realism, batch_cells}
use context_lens.Batch.Cell.{
  CellEnd, cell_done, cell_raised, not_configured, execute_heuristic_cell, execute_llm_cell,
  mark_newest_failed,
}

-- `evaluator_type`, once stripped and in lower case
pub data BatchMode : Type 0 where
  heuristic llm llm_hybrid : BatchMode

-- `BatchBenchmarkResult` without its id and its rate
pub record BatchResult : Type 0 where
  pub total_runs : ℕ
  pub successes : ℕ
  pub failures : ℕ

-- The batch returns, raises, or waits for a lock of its own session.
pub data BatchEnd (F : Type 0) : Type 0 where
  finished : BatchResult → Db F → BatchEnd F
  raised : Exn → Db F → BatchEnd F
  stuck : Db F → BatchEnd F

unfoldable pub counted : Bool → BatchResult → BatchResult
counted success r =
    if success
    then record r { total_runs = r.total_runs + 1; successes = r.successes + 1 }
    else record r { total_runs = r.total_runs + 1; failures = r.failures + 1 }

module _ {F : Type 0} (w : World F) (document_id : Option ℕ) (realism : Option (Realism F))
    (draws : BatchCell → Draws F) where
  pub execute_cell : BatchMode → BatchCell → Db F → CellEnd F
  unfolding execute_heuristic_cell execute_llm_cell
  execute_cell heuristic cell db = execute_heuristic_cell w document_id realism (draws cell) cell db
  execute_cell llm cell db = execute_llm_cell w document_id false cell db
  execute_cell llm_hybrid cell db = execute_llm_cell w document_id true cell db

  -- what the handler does after an exception: only a heuristic batch marks a run
  pub after_failure : BatchMode → BatchCell → List ℕ → Db F → Option (Db F)
  unfolding mark_newest_failed
  after_failure heuristic cell held db = mark_newest_failed cell held db
  after_failure llm cell held db = some db
  after_failure llm_hybrid cell held db = some db

  -- the loop's body over the cells that are left
  pub run_cells : BatchMode → List BatchCell → BatchResult → Db F → BatchEnd F
  unfolding execute_cell after_failure
  run_cells mode [] result db = finished result db
  run_cells mode (cell ∷ cells) result db = elim (execute_cell mode cell db) [
    | cell_done success db' ↦ run_cells mode cells (counted success result) db'
    | not_configured db' ↦ raised other db'
    | cell_raised db' held ↦ elim (after_failure mode cell held db') [
      | none ↦ stuck db'
      | some db'' ↦ run_cells mode cells (counted false result) db''
    ]
  ]

  module _ (shuffle : ℕ → List QueryCase → List QueryCase) where
    unfoldable pub run_batch_benchmark : List ℕ → List ℕ → ℕ → ℕ → BatchMode → Db F → BatchEnd F
    unfolding run_cells
    run_batch_benchmark dataset_ids config_ids queries_per_dataset runs_per_query mode db =
        if ltb queries_per_dataset 1 || ltb runs_per_query 1
        then raised value_error db
        else if is_nil dataset_ids || is_nil config_ids
        then raised value_error db
        else run_cells mode
            (batch_cells shuffle db queries_per_dataset runs_per_query config_ids dataset_ids)
            (record { total_runs = 0; successes = 0; failures = 0 }) db
