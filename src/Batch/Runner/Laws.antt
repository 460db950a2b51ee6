-- ===== src/Batch/Runner/Laws.antt =====
-- How a batch ends: `run_batch_benchmark` of backend/app/services/batch_runner.py.
use context_lens.Prelude.{
  ℕ, suc, ◌+◌, ◌*◌, ◌≤◌, ◌≡◌, ◌≢◌, refl, ◌∙◌, Bool, true, false, Option, some, List, [], ◌∷◌, ok,
  length, arith,
}
use context_lens.Trace.Rows.{Db, QueryCase, PipelineConfig}
use context_lens.Trace.Invariant.{WellTraced}
use context_lens.Run.World.{World}
use context_lens.Run.Phases.{query_case_at, pipeline_config_at}
use context_lens.Run.Pipeline.{validate_run_create_prerequisites}
use context_lens.Batch.{BatchCell, Draws, Realism, batch_cells}
use context_lens.Batch.Counts.{length-batch_cells}
use context_lens.Batch.Cell.{CellEnd, cell_done, cell_raised, not_configured}
use context_lens.Batch.Cell.NoHits.{committed_db, no_hits-raises, mark-waits}
use context_lens.Batch.Cell.Full.{EndsWell, llm_cell-EndsWell}
use context_lens.Batch.Runner.{
  BatchMode, heuristic, llm, llm_hybrid, BatchResult, BatchEnd, finished, stuck, counted,
  execute_cell, after_failure, run_cells, run_batch_benchmark,
}

module _ {F : Type 0} (w : World F) (document_id : Option ℕ) (realism : Option (Realism F))
    (draws : BatchCell → Draws F) where
  -- a full mode
  abbrev pub IsFull : BatchMode → Type 0
  IsFull heuristic = ⊥
  IsFull llm = Unit
  IsFull llm_hybrid = Unit

  full_cell-EndsWell :
      (mode : BatchMode) (cell : BatchCell) (db : Db F)
      → IsFull mode
      → w.api_key_configured ≡ true
      → WellTraced db
      → EndsWell (execute_cell w document_id realism draws mode cell db)
  unfolding execute_cell
  full_cell-EndsWell heuristic cell db full configured old = absurd full
  full_cell-EndsWell llm cell db full configured old =
      llm_cell-EndsWell w document_id false cell db configured old
  full_cell-EndsWell llm_hybrid cell db full configured old =
      llm_cell-EndsWell w document_id true cell db configured old

  full-after_failure :
      (mode : BatchMode) (cell : BatchCell) (held : List ℕ) (db : Db F)
      → IsFull mode
      → after_failure w document_id realism draws mode cell held db ≡ some db
  unfolding after_failure
  full-after_failure heuristic cell held db full = absurd full
  full-after_failure llm cell held db full = refl
  full-after_failure llm_hybrid cell held db full = refl

  -- the counts of a batch agree with each other
  abbrev Adds : BatchResult → Type 0
  Adds r = r.successes + r.failures ≡ r.total_runs

  -- what a batch of `n` more cells ends with
  abbrev Ends : ℕ → BatchResult → BatchEnd F → Type 0
  Ends n r end =
      (r' : BatchResult) × (db' : Db F) × (end ≡ finished r' db')
      × (r'.total_runs ≡ r.total_runs + n)
      × Adds r'
      × WellTraced db'

  counted-Adds : (success : Bool) (r : BatchResult) → Adds r → Adds (counted success r)
  unfolding counted
  counted-Adds true r adds = ground arith
  counted-Adds false r adds = ground arith

  counted-total_runs :
      (success : Bool) (r : BatchResult) → (counted success r).total_runs ≡ r.total_runs + 1
  unfolding counted
  counted-total_runs true r = refl
  counted-total_runs false r = refl

  later-Ends :
      (success : Bool) (n : ℕ) (r : BatchResult) (end : BatchEnd F)
      → Ends n (counted success r) end
      → Ends (suc n) r end
  later-Ends success n r end (r', db', e, total, adds, kept) =
      let one = counted-total_runs success r in (r', db', e, omega arith, adds, kept)

  run_cells-Ends :
      (mode : BatchMode) (cells : List BatchCell) (r : BatchResult) (db : Db F)
      → IsFull mode
      → w.api_key_configured ≡ true
      → Adds r
      → WellTraced db
      → Ends (length cells) r (run_cells w document_id realism draws mode cells r db)
  unfolding run_cells
  run_cells-Ends mode [] r db full configured adds old = (r, db, refl, omega arith, adds, old)
  run_cells-Ends mode (cell ∷ cells) r db full configured adds old =
      step (execute_cell w document_id realism draws mode cell db) refl
        (full_cell-EndsWell mode cell db full configured old)
        (λ r' db'. run_cells-Ends mode cells r' db' full configured)
    where
      step :
          (end : CellEnd F)
          → execute_cell w document_id realism draws mode cell db ≡ end
          → EndsWell end
          → ((r' : BatchResult) (db' : Db F)
              → Adds r'
              → WellTraced db'
              → Ends (length cells) r' (run_cells w document_id realism draws mode cells r' db'))
          → Ends
              (suc (length cells))
              r
              (run_cells w document_id realism draws mode (cell ∷ cells) r db)
      step (cell_done success db') e kept rest =
          rw (run_cells, e)
            (later-Ends success (length cells) r _
              (rest (counted success r) db' (counted-Adds success r adds) kept))
      step (cell_raised db' held) e kept rest =
          rw (run_cells, e, full-after_failure mode cell held db' full)
            (later-Ends false (length cells) r _
              (rest (counted false r) db' (counted-Adds false r adds) kept.0))
      step (not_configured db') e kept rest = absurd kept

  module _ (shuffle : ℕ → List QueryCase → List QueryCase) (dataset_ids config_ids : List ℕ)
      (queries_per_dataset runs_per_query : ℕ) (db : Db F) where
    -- the runs of the batch
    abbrev pub all_cells : List BatchCell
    all_cells = batch_cells shuffle db queries_per_dataset runs_per_query config_ids dataset_ids

    abbrev pub batch : BatchMode → BatchEnd F
    batch mode =
        run_batch_benchmark w document_id realism draws shuffle dataset_ids config_ids
          queries_per_dataset runs_per_query mode db

    enters_loop :
        (mode : BatchMode)
        → 1 ≤ queries_per_dataset
        → 1 ≤ runs_per_query
        → dataset_ids ≢ []
        → config_ids ≢ []
        → batch mode
          ≡ run_cells w document_id realism draws mode all_cells
              (record { total_runs = 0; successes = 0; failures = 0 })
              db
    unfolding run_batch_benchmark
    enters_loop mode q r ds cfgs = ground arith

    -- With an API key, at least one query and repetition, and a dataset and a configuration, a batch
    -- of either full mode on a database that satisfies the invariant finishes: it counts exactly one
    -- run for each of its cells, which are at most as many as the product of the numbers of datasets,
    -- queries, configurations and repetitions, each run as a success or a failure, and leaves a
    -- database that satisfies the invariant.
    pub batch_finishes :
        (mode : BatchMode)
        → IsFull mode
        → w.api_key_configured ≡ true
        → 1 ≤ queries_per_dataset
        → 1 ≤ runs_per_query
        → dataset_ids ≢ []
        → config_ids ≢ []
        → WellTraced db
        → (r : BatchResult) × (db' : Db F) × (batch mode ≡ finished r db')
          × (r.total_runs ≡ length all_cells)
          × (r.total_runs
              ≤ length dataset_ids * (queries_per_dataset * (length config_ids * runs_per_query)))
          × (r.successes + r.failures ≡ r.total_runs)
          × WellTraced db'
    batch_finishes mode full configured q r ds cfgs old =
        let (result, db', e, total, adds, kept) =
          run_cells-Ends mode all_cells (record { total_runs = 0; successes = 0; failures = 0 }) db
            full configured refl old in
        let bound =
          length-batch_cells shuffle db queries_per_dataset runs_per_query config_ids dataset_ids in
        (
          result,
          db',
          enters_loop mode q r ds cfgs ∙ e,
          omega arith,
          omega (arith, bound),
          adds,
          kept,
        )

    -- A heuristic batch never returns if its first cell passes validation and the search of that cell
    -- finds nothing: the cell raises, its session keeps the row of the run that it has updated, and
    -- the second session waits for that row. The run is left as it was committed.
    pub heuristic_stuck :
        {cell : BatchCell} {cells : List BatchCell} {qc : QueryCase} {pc : PipelineConfig}
        → 1 ≤ queries_per_dataset
        → 1 ≤ runs_per_query
        → dataset_ids ≢ []
        → config_ids ≢ []
        → all_cells ≡ cell ∷ cells
        → validate_run_create_prerequisites w cell.query_case_id cell.pipeline_config_id document_id
            false db
          ≡ ok tt
        → query_case_at w cell.query_case_id db ≡ ok qc
        → pipeline_config_at w cell.pipeline_config_id db ≡ ok pc
        → w.search_chunks
            (committed_db w document_id realism (draws cell) cell db)
            qc.query_text
            pc.top_k
            document_id
          ≡ ok []
        → WellTraced db
        → batch heuristic ≡ stuck (committed_db w document_id realism (draws cell) cell db)
    unfolding run_cells execute_cell after_failure
    heuristic_stuck {cell} {cells} {qc} {pc} q r ds cfgs first valid found config nothing old = rw (
      enters_loop heuristic q r ds cfgs,
      first,
      run_cells,
      no_hits-raises w document_id realism (draws cell) cell db qc pc valid found config nothing
          old,
      mark-waits w document_id realism (draws cell) cell db old,
    )
