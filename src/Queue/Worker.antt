-- ===== src/Queue/Worker.antt =====
-- The job that a worker runs: `full_benchmark_run_job` and `full_run_on_failure` of
-- backend/app/workers/full_run_worker.py.
pub mod Laws
use context_lens.Prelude.{ℕ, Bool, true, false, Option, none, some, Result, ok, err, if◌then◌else◌}
use context_lens.Trace.Rows.{Db}
use context_lens.Run.World.{World}
use context_lens.Run.Pipeline.{mark_run_failed, run_full_benchmark_pipeline}
use context_lens.Queue.Broker.{Broker, Job, acquire_lock, delete_lock}

module _ {F : Type 0} (w : World F) where
  -- `finally: redis.delete(key)`
  unfoldable pub release_after :
      ℕ → Broker → Result (Unit {0}) × Db F → Result (Unit {0}) × Db F × Broker
  release_after run_id b (r, db) = (r, db, delete_lock run_id b)

  -- a job that nothing interrupts
  unfoldable pub full_benchmark_run_job :
      ℕ → Option ℕ → Db F → Broker → Result (Unit {0}) × Db F × Broker
  full_benchmark_run_job run_id document_id db b = elim (acquire_lock run_id b) [
    | err e ↦ (err e, db, b)
    | ok (false, b') ↦ (ok tt, db, b')
    | ok (true, b') ↦ release_after run_id b' (run_full_benchmark_pipeline w run_id document_id db)
  ]

-- after the last retry
unfoldable pub full_run_on_failure : {F : Type 0} → Job → Db F → Db F
full_run_on_failure job db = elim job.first_arg [
  | none ↦ db
  | some run_id ↦ mark_run_failed run_id db
]
