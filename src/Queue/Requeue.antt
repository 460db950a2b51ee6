-- ===== src/Queue/Requeue.antt =====
-- `requeue_full_run` of backend/app/services/run_requeue.py and `get_run_queue_status` of
-- backend/app/services/run_queue_status.py. Both return or raise over the database as committed and
-- the broker as left.
pub mod Laws
pub mod Resumes
use context_lens.Prelude.{
  ℕ, Bool, true, false, ◌&&◌, not, Option, none, some, Result, ok, err, value_error, lookup_error,
  conflict_error, redis_error, ◌>>=◌, ◌>>◌, require, if◌then◌else◌,
}
use context_lens.Trace.Rows.{
  Db, Run, Status, status_eq, failed, EvaluatorType, heuristic, llm, GenerationResult,
  EvaluationResult,
}
use context_lens.Trace.Store.{scalar_one_or_none, or_raise}
use context_lens.Trace.Write.{run_at, generation_of, evaluation_of, save_run}
use context_lens.Run.World.{World}
use context_lens.Queue.Broker.{
  Broker, Job, find_primary_job_for_run, clear_stale_full_run_lock_if_applicable, lock_present,
  enqueue_full_benchmark_run,
}
use context_lens.Domain.EvaluatorBucket.{is_heuristic}
use context_lens.Queue.Eligibility.{
  infer_pipeline_heuristic_vs_full, evaluate_structural_requeue_eligibility,
  structural_requeue_eligibility, normalize_failed_run_for_resume, infer_document_id_for_full_run,
}

-- the fields of `RunQueueStatusResponse`; the message is dropped
pub record RunQueueStatusResponse : Type 0 where
  pub run_id : ℕ
  pub run_status : Status
  pub pipeline : EvaluatorType
  pub job : Option Job
  pub lock_present : Bool
  pub requeue_eligible : Bool

unfoldable pub heuristic_status : Run → RunQueueStatusResponse
heuristic_status run = record {
  run_id = run.id;
  run_status = run.status;
  pipeline = heuristic;
  job = none;
  lock_present = false;
  requeue_eligible = false;
}

module _ (run_id : ℕ) where
  unfoldable pub full_status : Run → Bool → Broker → Result (RunQueueStatusResponse × Broker)
  full_status run struct_ok b = do
    job ← find_primary_job_for_run run_id b
    cleared ← clear_stale_full_run_lock_if_applicable run_id run.status job b
    let present = lock_present run_id cleared.1
    ok (
      record {
        run_id = run.id;
        run_status = run.status;
        pipeline = llm;
        job = job;
        lock_present = present;
        requeue_eligible = struct_ok && not present;
      },
      cleared.1,
    )

module _ {F : Type 0} (w : World F) (run_id : ℕ) where
  -- up to the lookup of the job: the run that may be queued again
  unfoldable pub eligible_run : Db F → Result Run
  eligible_run db = do
    run ← or_raise (run_at run_id db) lookup_error
    eligible ← structural_requeue_eligibility run db
    require eligible conflict_error
    ok run

  -- the lock is cleared when it is stale
  unfoldable pub clear_lock : Run → Broker → Result (Bool × Broker)
  clear_lock run b = do
    job ← find_primary_job_for_run run_id b
    clear_stale_full_run_lock_if_applicable run_id run.status job b

  -- a failed run is resumed, and the job is queued
  unfoldable pub resume_and_enqueue : Run → Db F → Broker → Result ((Run × ℕ) × Db F × Broker)
  resume_and_enqueue run db b = do
    require w.api_key_configured value_error
    require (not (lock_present run_id b)) conflict_error
    run' ← normalize_failed_run_for_resume run db
    let db' = if status_eq run.status failed then save_run run' db else db
    queued ← enqueue_full_benchmark_run run_id (infer_document_id_for_full_run run_id db') b
    ok ((run', queued.0), db', queued.1)

  -- An exception after the lock was cleared leaves the lock cleared.
  unfoldable pub requeue_full_run : Db F → Broker → Result (Run × ℕ) × Db F × Broker
  requeue_full_run db b = elim (eligible_run db) [
    | err e ↦ (err e, db, b)
    | ok run ↦ elim (clear_lock run b) [
      | err e ↦ (err e, db, b)
      | ok (cleared, b') ↦ elim (resume_and_enqueue run db b') [
        | err e ↦ (err e, db, b')
        | ok (result, db', b'') ↦ (ok result, db', b'')
      ]
    ]
  ]

module _ {F : Type 0} (run_id : ℕ) where
  unfoldable pub get_run_queue_status : Db F → Broker → Result (RunQueueStatusResponse × Broker)
  get_run_queue_status db b = do
    run ← or_raise (run_at run_id db) lookup_error
    g ← scalar_one_or_none (generation_of run_id db)
    e ← scalar_one_or_none (evaluation_of run_id db)
    if is_heuristic (infer_pipeline_heuristic_vs_full g e)
        then ok (heuristic_status run, b)
        else full_status run_id run (evaluate_structural_requeue_eligibility run g e) b
