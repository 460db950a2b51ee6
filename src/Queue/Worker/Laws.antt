-- ===== src/Queue/Worker/Laws.antt =====
-- A worker's job: the invariant is kept, and its lock is gone afterwards.
use context_lens.Prelude.{ℕ, ◌≡◌, refl, true, false, Option, ok, Result-cases, inl, inr}
use context_lens.Trace.Rows.{Db}
use context_lens.Trace.Invariant.{WellTraced}
use context_lens.Run.World.{World}
use context_lens.Run.Pipeline.{run_full_benchmark_pipeline}
use context_lens.Run.Pipeline.Keeps.{pipeline-WellTraced}
use context_lens.Queue.Broker.{Broker, lock_present, acquire_lock, delete_lock}
use context_lens.Queue.Broker.Laws.{present-delete}
use context_lens.Queue.Worker.{release_after, full_benchmark_run_job}

module _ {F : Type 0} (w : World F) (run_id : ℕ) (document_id : Option ℕ) (db : Db F)
    (b : Broker) where
  -- A job that gets the lock runs the pipeline once, whether it returns or raises, gives back what
  -- the pipeline gave, and leaves no lock behind.
  pub job-releases :
      {b' : Broker}
      → acquire_lock run_id b ≡ ok (true, b')
      → (b'' : Broker) × (full_benchmark_run_job w run_id document_id db b ≡ (
        (run_full_benchmark_pipeline w run_id document_id db).0,
        (run_full_benchmark_pipeline w run_id document_id db).1,
        b'',
      ))
        × (lock_present run_id b'' ≡ false)
  unfolding full_benchmark_run_job release_after
  job-releases {b'} h =
      rw (full_benchmark_run_job, h) (delete_lock run_id b', refl, present-delete run_id b')

  -- Whether a job gets the lock, finds it held, or does not reach the server, the committed database
  -- satisfies the invariant of the trace tables if it did so before.
  pub job-WellTraced :
      WellTraced db → WellTraced ((full_benchmark_run_job w run_id document_id db b).1)
  unfolding full_benchmark_run_job release_after
  job-WellTraced old = elim (Result-cases (acquire_lock run_id b)) [
    | inr (e, h) ↦ rw (h, full_benchmark_run_job) old
    | inl ((false, b'), h) ↦ rw (h, full_benchmark_run_job) old
    | inl ((true, b'), h) ↦
        rw (h, full_benchmark_run_job) (pipeline-WellTraced w run_id document_id db old)
  ]
