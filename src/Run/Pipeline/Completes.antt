-- ===== src/Run/Pipeline/Completes.antt =====
-- The pipeline of a full run completes a run that has its answer.
use context_lens.Prelude.{ℕ, ◌≡◌, refl, ◌∙◌, Option, some, length, ok, inr}
use context_lens.Trace.Rows.{
  Db, Run, QueryCase, generation_completed, retrieval_completed, running, completed,
}
use context_lens.Trace.Write.{run_at, retrieval_of, generation_of, evaluation_of}
use context_lens.Trace.Invariant.{IsPhase, IsTraced, WellTraced}
use context_lens.Run.World.{World}
use context_lens.Run.Phases.{
  query_case_at, execute_retrieval_for_existing_run, execute_generation_for_run,
  execute_llm_judge_and_complete_run,
}
use context_lens.Run.Phases.Completes.{Answers, single_row, empty_row, judge_ends}
use context_lens.Run.Pipeline.{
  commit, then_commit, handle_errors, run_stages, run_full_benchmark_pipeline,
}
use context_lens.Run.Pipeline.Settles.{
  HasStatus, judge-LeadsTo, when_status-other, when_status-same, pipeline-open,
}

module _ {F : Type 0} (w : World F) (run_id : ℕ) (document_id : Option ℕ) (db : Db F) where
  judge_stage :
      (run : Run) (qc : QueryCase)
      → Answers w
      → WellTraced db
      → run_at run_id db ≡ some run
      → run.status ≡ generation_completed
      → query_case_at w run.query_case_id db ≡ ok qc
      → (db' : Db F) × (execute_llm_judge_and_complete_run w run_id db ≡ ok db')
  judge_stage run qc answers old here status case =
      let was : IsPhase generation_completed run (length (retrieval_of run_id db))
          (length (generation_of run_id db)) (length (evaluation_of run_id db)) =
        rw (here, IsTraced, status) at (old.at run_id) in
      let (gen, one) = single_row (generation_of run_id db) was.1 in
      judge_ends w run_id db run qc gen here status case one
        (empty_row (evaluation_of run_id db) was.2) answers

  last_stage :
      (db' : Db F)
      → HasStatus run_id generation_completed db
      → execute_llm_judge_and_complete_run w run_id db ≡ ok db'
      → run_stages w run_id document_id db ≡ (ok tt, db')
  unfolding run_stages then_commit commit
  last_stage db' at ends =
      rw
        (
          run_stages,
          when_status-other run_id generation_completed running
              (execute_retrieval_for_existing_run w run_id document_id) db refl at,
          when_status-other run_id generation_completed retrieval_completed
              (execute_generation_for_run w run_id) db refl at,
          when_status-same run_id generation_completed (execute_llm_judge_and_complete_run w run_id)
              db at,
          ends,
        )
        refl

  -- In a database that satisfies the invariant of the trace tables, with a judge that answers
  -- whatever it is asked, the pipeline of a run that is at generation_completed and whose query case
  -- exists returns, and the run is completed.
  pub pipeline_ends :
      (run : Run) (qc : QueryCase)
      → Answers w
      → WellTraced db
      → run_at run_id db ≡ some run
      → run.status ≡ generation_completed
      → query_case_at w run.query_case_id db ≡ ok qc
      → (db' : Db F) × (run_full_benchmark_pipeline w run_id document_id db ≡ (ok tt, db'))
        × HasStatus run_id completed db'
  unfolding handle_errors
  pipeline_ends run qc answers old here status case =
      let (db', ends) = judge_stage run qc answers old here status case in
      let at : HasStatus run_id generation_completed db = (run, here, status) in
      (
        db',
        pipeline-open w run_id document_id generation_completed db (inr (inr refl)) at
            ∙ rw (last_stage db' at ends) refl,
        judge-LeadsTo w run_id db db' ends,
      )
