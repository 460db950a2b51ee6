-- ===== src/Run/Pipeline.antt =====
-- The pipelines of a run: backend/app/services/run_create.py, with the two-commit retrieval of
-- backend/app/services/benchmark_run.py. A session that ends in an exception is rolled back, so a
-- transaction is the committed database with what it raised.
pub mod Settles
pub mod Keeps
pub mod Heuristic
pub mod Completes
use context_lens.Prelude.{
  ℕ, ◌+◌, Bool, true, false, ◌||◌, Option, none, some, List, ◌∷◌, Result, ok, err, Exn, value_error,
  type_error, lookup_error, other, ◌>>=◌, ◌>>◌, require, if◌then◌else◌, ◌==◌,
}
use context_lens.Trace.Rows.{
  Db, Run, RunMetadata, QueryCase, PipelineConfig, Status, status_eq, running, retrieval_completed,
  generation_completed, completed, failed, heuristic,
}
use context_lens.Domain.FailureTaxonomy.{value}
use context_lens.Trace.Store.{get_row, or_raise}
use context_lens.Trace.Write.{
  run_at, save_run, is_none, create_run, EvaluationInput, persist_evaluation_and_complete_run,
  merge_run_trace_instrumentation, heuristic_run_instrumentation,
}
use context_lens.Evaluation.{Scores, compute_minimal_retrieval_evaluation}
use context_lens.Run.World.{World}
use context_lens.Run.Phases.{
  or_zero, query_case_at, pipeline_config_at, store_hits, execute_retrieval_for_existing_run,
  execute_generation_for_run, execute_llm_judge_and_complete_run,
}

-- a value or an exception, and the database as committed
abbrev pub Committed : Type 0 → Type 0 → Type 0
Committed F A = Result A × Db F

-- `async with async_session_maker() as session: …; await session.commit()`
unfoldable pub commit : {F : Type 0} → Db F → Result (Db F) → Committed F (Unit {0})
commit db (ok db') = (ok tt, db')
commit db (err e) = (err e, db)

-- the next transaction, unless the one before raised
unfoldable pub then_commit :
    {F A B : Type 0} → Committed F A → (A → Db F → Committed F B) → Committed F B
then_commit (ok a, db) next = next a db
then_commit (err e, db) next = (err e, db)

unfoldable pub failed_run : Run → Run
failed_run run = record run { status = failed }

-- `_mark_run_failed_safe` and `mark_run_failed_sync`
unfoldable pub mark_run_failed : {F : Type 0} → ℕ → Db F → Db F
mark_run_failed run_id db = elim (run_at run_id db) [
  | none ↦ db
  | some run ↦ if status_eq run.status completed then db else save_run (failed_run run) db
]

-- one stage of the pipeline: a phase that runs when the run has its status
unfoldable pub when_status :
    {F : Type 0} → ℕ → Status → (Db F → Result (Db F)) → Db F → Committed F (Unit {0})
when_status run_id status phase db = elim (run_at run_id db) [
  | none ↦ (ok tt, db)
  | some run ↦ if status_eq run.status status then commit db (phase db) else (ok tt, db)
]

-- the `except` clauses of the pipeline
unfoldable pub handle_errors : {F : Type 0} → ℕ → Committed F (Unit {0}) → Committed F (Unit {0})
handle_errors run_id (err value_error, db) = (ok tt, mark_run_failed run_id db)
handle_errors run_id (err type_error, db) = (ok tt, mark_run_failed run_id db)
handle_errors run_id (r, db) = (r, db)

module _ {F : Type 0} (w : World F) where
  -- the three stages, each in a session of its own
  unfoldable pub run_stages : ℕ → Option ℕ → Db F → Committed F (Unit {0})
  run_stages run_id document_id db =
      then_commit
        (then_commit
          (when_status run_id running (execute_retrieval_for_existing_run w run_id document_id) db)
          (λ _. when_status run_id retrieval_completed (execute_generation_for_run w run_id)))
        (λ _. when_status run_id generation_completed (execute_llm_judge_and_complete_run w run_id))

  unfoldable pub run_full_benchmark_pipeline : ℕ → Option ℕ → Db F → Committed F (Unit {0})
  run_full_benchmark_pipeline run_id document_id db = elim (run_at run_id db) [
    | none ↦ (ok tt, db)
    | some run ↦
        if status_eq run.status completed || status_eq run.status failed
        then (ok tt, db)
        else handle_errors run_id (run_stages run_id document_id db)
  ]

  -- `validate_run_create_prerequisites`; the flag says that the mode is full or full_hybrid, and
  -- `FullModeNotConfiguredError` is a RuntimeError
  unfoldable pub validate_run_create_prerequisites :
      ℕ → ℕ → Option ℕ → Bool → Db F → Result (Unit {0})
  validate_run_create_prerequisites query_case_id pipeline_config_id document_id full db = do
    qc ← or_raise (get_row (λ (q : QueryCase). q.id) query_case_id db.query_cases) lookup_error
    pc ←
        or_raise (get_row (λ (p : PipelineConfig). p.id) pipeline_config_id db.pipeline_configs)
          lookup_error
    require (document_exists document_id db) lookup_error
    if full then require w.api_key_configured other else ok tt
    where
      document_exists : Option ℕ → Db F → Bool
      document_exists none db = true
      document_exists (some id) db =
          if is_none (get_row (λ d. d) id db.documents) then false else true

  -- the row with status running, committed before the search
  unfoldable pub start_run : ℕ → ℕ → Db F → Result ((Run × QueryCase × PipelineConfig) × Db F)
  start_run query_case_id pipeline_config_id db = do
    qc ← query_case_at w query_case_id db
    pc ← pipeline_config_at w pipeline_config_id db
    let (run, db') = create_run query_case_id pipeline_config_id running none db
    ok ((run, qc, pc), db')

  unfoldable pub search_and_store :
      Option ℕ → Run × QueryCase × PipelineConfig → Db F → Result (Db F)
  search_and_store document_id (run, qc, pc) db = do
    hits ← w.search_chunks db qc.query_text pc.top_k document_id
    store_hits w run hits db

  -- `execute_retrieval_benchmark_run` with `commit=True`; it gives the run's id
  unfoldable pub execute_retrieval_benchmark_run : ℕ → ℕ → Option ℕ → Db F → Committed F ℕ
  execute_retrieval_benchmark_run query_case_id pipeline_config_id document_id db =
      elim (start_run query_case_id pipeline_config_id db) [
        | err e ↦ (err e, db)
        | ok (started, db') ↦
            then_commit (commit db' (search_and_store document_id started db'))
              (λ _. λ db''. (ok started.0.id, db''))
      ]

  -- the keyword arguments of the heuristic evaluation
  unfoldable pub heuristic_input : ℕ → Scores F → EvaluationInput F
  heuristic_input retrieval_ms ev = record {
    evaluation_latency_ms = w.evaluation_ms;
    total_latency_ms = retrieval_ms + w.evaluation_ms;
    faithfulness = ev.faithfulness;
    completeness = ev.completeness;
    retrieval_relevance = ev.retrieval_relevance;
    context_coverage = ev.context_coverage;
    groundedness = none;
    failure_type = some (value ev.failure_type);
    used_llm_judge = false;
    cost_usd = none;
    metadata_json = some ev.metadata_json;
  }

  -- the part of `create_and_execute_run_from_ids` after retrieval
  unfoldable pub evaluate_heuristically : ℕ → Db F → Result (Db F)
  evaluate_heuristically run_id db = do
    run ← or_raise (run_at run_id db) value_error
    ev ← compute_minimal_retrieval_evaluation w.floats run_id db
    stored ←
        persist_evaluation_and_complete_run w.upper_beyond_ascii run_id
          (heuristic_input (or_zero run.retrieval_latency_ms) ev) retrieval_completed db
    ok (merge_run_trace_instrumentation run_id heuristic_run_instrumentation stored)

  -- the created run's id, or what was raised, and the committed database
  unfoldable pub create_and_execute_run_from_ids : ℕ → ℕ → Option ℕ → Db F → Committed F ℕ
  create_and_execute_run_from_ids query_case_id pipeline_config_id document_id db =
      elim (validate_run_create_prerequisites query_case_id pipeline_config_id document_id false
        db) [
          | err e ↦ (err e, db)
          | ok _ ↦
              then_commit
                (execute_retrieval_benchmark_run query_case_id pipeline_config_id document_id db)
                (λ rid. λ db'.
                  then_commit (commit db' (evaluate_heuristically rid db'))
                    (λ _. λ db''. (ok rid, db'')))
        ]
