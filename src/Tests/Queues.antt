-- ===== src/Tests/Queues.antt =====
-- Tests of the lock, of the worker and of the re-enqueue.
use context_lens.Prelude.{ℕ, ◌≡◌, refl, true, false, ok, arith}
use context_lens.Trace.Rows.{Run}
use context_lens.Trace.Store.{get_row, rows_of}
use context_lens.Trace.Write.{run_at, generation_of, evaluation_of, create_run}
use context_lens.Run.Pipeline.Heuristic.{created}
use context_lens.Queue.Broker.{
  Broker, live, acquire_lock, delete_lock, lock_present, wait, find_primary_job_for_run, newest_of,
  clear_stale_full_run_lock_if_applicable, may_clear, enqueue_full_benchmark_run,
}
use context_lens.Queue.Broker.Laws.{locked, acquire-free, release-removes}
use context_lens.Queue.Eligibility.{
  infer_pipeline_heuristic_vs_full, is_heuristic_only_evaluated_run,
  evaluate_structural_requeue_eligibility, allow_requeue, structural_requeue_eligibility,
  normalize_failed_run_for_resume,
}
use context_lens.Queue.Requeue.{
  requeue_full_run, get_run_queue_status, full_status, eligible_run, clear_lock, resume_and_enqueue,
}
use context_lens.Queue.Requeue.Laws.{status-requeue}
use context_lens.Queue.Requeue.Resumes.{Continues, requeue-Continues}
use context_lens.Tests.Data.{test_world, test_broker}
use context_lens.Tests.Runs.{run_db, run-WellTraced}

taken_once : acquire_lock 1 test_broker ≡ ok (true, locked 1 test_broker)
unfolding lock_present live rows_of
taken_once = acquire-free 1 test_broker refl refl

release-removes_example :
    (b'' : Broker) × (acquire_lock 1 (wait 4000 (locked 1 test_broker)) ≡ ok (true, b''))
    × (lock_present 1 b'' ≡ true)
    × (lock_present 1 (delete_lock 1 b'') ≡ false)
release-removes_example = release-removes 1 test_broker 4000 taken_once (omega arith)

status-requeue_example :
    (result : Run × ℕ) × ((requeue_full_run test_world 1 run_db test_broker).0 ≡ ok result)
unfolding get_run_queue_status run_at get_row created create_run generation_of rows_of evaluation_of
    infer_pipeline_heuristic_vs_full is_heuristic_only_evaluated_run full_status
    find_primary_job_for_run clear_stale_full_run_lock_if_applicable may_clear newest_of
    evaluate_structural_requeue_eligibility allow_requeue lock_present live
status-requeue_example = status-requeue test_world 1 run_db test_broker refl refl refl

requeue-Continues_example : Continues test_world 1 run_db run_db
unfolding requeue_full_run eligible_run run_at get_row created create_run
    structural_requeue_eligibility generation_of rows_of evaluation_of
    evaluate_structural_requeue_eligibility allow_requeue is_heuristic_only_evaluated_run clear_lock
    find_primary_job_for_run clear_stale_full_run_lock_if_applicable may_clear newest_of
    lock_present live resume_and_enqueue normalize_failed_run_for_resume enqueue_full_benchmark_run
requeue-Continues_example = requeue-Continues test_world 1 run_db test_broker refl run-WellTraced
