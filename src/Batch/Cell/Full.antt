-- ===== src/Batch/Cell/Full.antt =====
-- How a full cell ends: `_execute_llm_cell` of backend/app/services/batch_runner.py.
use context_lens.Prelude.{
  ℕ, ◌≡◌, refl, Bool, true, false, Option, some, [], Exn, Result, ok, err, lookup_error, arith,
  if◌then◌else◌, Result-cases, inl, inr,
}
use context_lens.Prelude.Text.{codes}
use context_lens.Trace.Rows.{Db, RunMetadata, running}
use context_lens.Trace.Write.{create_run}
use context_lens.Trace.Invariant.{WellTraced}
use context_lens.Run.World.{World}
use context_lens.Run.Pipeline.{validate_run_create_prerequisites}
use context_lens.Run.Pipeline.Heuristic.{created, create_run-WellTraced}
use context_lens.Run.Pipeline.Keeps.{pipeline-WellTraced}
use context_lens.Batch.{BatchCell}
use context_lens.Batch.Cell.{
  CellEnd, cell_done, cell_raised, not_configured, run_metadata, after_pipeline, execute_llm_cell,
}

-- The cell ends by itself, holds no lock, and leaves a database that satisfies the invariant of the
-- trace tables.
abbrev pub EndsWell : {F : Type 0} → CellEnd F → Type 0
EndsWell (cell_done success db) = WellTraced db
EndsWell (cell_raised db held) = WellTraced db × (held ≡ [])
EndsWell (not_configured db) = ⊥

module _ {F : Type 0} (w : World F) (document_id : Option ℕ) where
  -- With an API key the prerequisites fail for a missing row alone.
  validate-lookup :
      (query_case_id pipeline_config_id : ℕ) (db : Db F) {e : Exn}
      → w.api_key_configured ≡ true
      → validate_run_create_prerequisites w query_case_id pipeline_config_id document_id true db
        ≡ err e
      → e ≡ lookup_error
  unfolding validate_run_create_prerequisites
  validate-lookup query_case_id pipeline_config_id db configured h = ground arith

  after-EndsWell :
      (run_id : ℕ) (ended : Result (Unit {0}) × Db F)
      → WellTraced ended.1
      → EndsWell (after_pipeline w document_id run_id ended)
  unfolding after_pipeline
  after-EndsWell run_id (ok _, db) old = old
  after-EndsWell run_id (err e, db) old = (old, refl)

  pub llm_cell-EndsWell :
      (hybrid : Bool) (cell : BatchCell) (db : Db F)
      → w.api_key_configured ≡ true
      → WellTraced db
      → EndsWell (execute_llm_cell w document_id hybrid cell db)
  unfolding execute_llm_cell create_run created
  llm_cell-EndsWell hybrid cell db configured old =
      elim (Result-cases (
        validate_run_create_prerequisites w cell.query_case_id cell.pipeline_config_id document_id
          true db)) [
            | inr (e, h) ↦
                let missing =
                  validate-lookup cell.query_case_id cell.pipeline_config_id db configured h in
                rw (execute_llm_cell, h, missing) (old, refl)
            | inl (done, h) ↦
                let mode = if hybrid then codes "hybrid" else codes "llm_only" in
                let meta : Option RunMetadata = some (run_metadata (some mode) false) in
                let start = created cell.query_case_id cell.pipeline_config_id running meta db in
                let kept =
                  create_run-WellTraced cell.query_case_id cell.pipeline_config_id running meta db
                    (inr refl) old in
                rw (execute_llm_cell, h)
                  (after-EndsWell start.0.id _
                    (pipeline-WellTraced w start.0.id document_id start.1 kept))
          ]
