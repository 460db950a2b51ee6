-- ===== src/Queue/Broker.antt =====
-- What the queue keeps in Redis: backend/app/queue/full_run.py and the lock of
-- backend/app/workers/full_run_worker.py. A key with a time to live is a row with the second at which
-- it expires; the server is reachable or not during a whole call.
pub mod Laws
use context_lens.Prelude.{
  ℕ, ◌+◌, Bool, true, false, ◌&&◌, ◌||◌, not, Option, none, some, List, [], ◌∷◌, ◌++◌, Result, ok,
  err, redis_error, ◌==◌, ltb, if◌then◌else◌, require, ◌>>=◌, ◌>>◌,
}
use context_lens.Trace.Rows.{Status, running, failed, status_eq}
use context_lens.Trace.Store.{rows_of, delete_row}
use context_lens.Trace.Write.{is_nil}

pub data JobStatus : Type 0 where
  queued started finished failed_job stopped canceled deferred scheduled : JobStatus

-- an RQ job of the full-run queue; `first_arg` is none when `int(args[0])` is none or raises
pub record Job : Type 0 where
  pub id : ℕ
  pub first_arg : Option ℕ
  pub document_id : Option ℕ
  pub status : JobStatus
  pub enqueued_at : Option ℕ
  pub created_at : Option ℕ
  pub started_at : Option ℕ
  pub ended_at : Option ℕ

-- a lock key with its expiry
pub record Lock : Type 0 where
  pub run_id : ℕ
  pub expires_at : ℕ

pub record Broker : Type 0 where
  pub reachable : Bool
  pub now : ℕ
  pub locks : List Lock
  -- the jobs of the queue and of its registries, in the order of the scan
  pub jobs : List Job
  pub next_job_id : ℕ

abbrev pub lock_ttl_sec : ℕ
lock_ttl_sec = 3600

unfoldable pub first_of : Option ℕ → ℕ → ℕ
first_of none later = later
first_of (some t) later = t

-- `_rq_job_sort_ts`
unfoldable pub rq_job_sort_ts : Job → ℕ
rq_job_sort_ts job =
    first_of job.enqueued_at
      (first_of job.created_at (first_of job.started_at (first_of job.ended_at 0)))

unfoldable pub is_job_of : ℕ → Job → Bool
is_job_of run_id job = elim job.first_arg [ none ↦ false | some id ↦ id == run_id ]

-- the head of the candidates sorted by descending time stamp: the sort is stable
unfoldable pub newest_of : ℕ → List Job → Option Job
newest_of run_id [] = none
newest_of run_id (job ∷ jobs) =
    let rest = newest_of run_id jobs in
    if is_job_of run_id job
    then (elim rest [
      | none ↦ some job
      | some other ↦
          if ltb (rq_job_sort_ts job) (rq_job_sort_ts other) then some other else some job
    ])
    else rest

unfoldable pub find_primary_job_for_run : ℕ → Broker → Result (Option Job)
find_primary_job_for_run run_id b =
    if b.reachable then ok (newest_of run_id b.jobs) else err redis_error

-- the live lock keys of a run
unfoldable pub live : ℕ → List Lock → List Lock
live now [] = []
live now (l ∷ ls) = let rest = live now ls in if ltb now l.expires_at then l ∷ rest else rest

-- `redis.exists(key) > 0`
unfoldable pub lock_present : ℕ → Broker → Bool
lock_present run_id b = not (is_nil (rows_of (λ (l : Lock). l.run_id) run_id (live b.now b.locks)))

-- `redis.delete(key)`
unfoldable pub delete_lock : ℕ → Broker → Broker
delete_lock run_id b = record b { locks = delete_row (λ (l : Lock). l.run_id) run_id b.locks }

-- `redis.set(key, b"1", nx=True, ex=LOCK_TTL_SEC)`
unfoldable pub acquire_lock : ℕ → Broker → Result (Bool × Broker)
acquire_lock run_id b =
    if b.reachable
    then (if lock_present run_id b
        then ok (false, b)
        else ok (
          true,
          record b {
            locks =
                record { run_id = run_id; expires_at = b.now + lock_ttl_sec }
                ∷ delete_row (λ (l : Lock). l.run_id) run_id b.locks;
          },
        ))
    else err redis_error

-- seconds pass
unfoldable pub wait : ℕ → Broker → Broker
wait seconds b = record b { now = b.now + seconds }

-- `_STALE_LOCK_RQ_STATUSES`
unfoldable pub is_stale : JobStatus → Bool
is_stale failed_job = true
is_stale stopped = true
is_stale canceled = true
is_stale _ = false

-- the test before the lock is looked up
unfoldable pub may_clear : Status → Option Job → Bool
may_clear run_status none = false
may_clear run_status (some job) =
    is_stale job.status && (status_eq run_status running || status_eq run_status failed)

-- whether a key was deleted, and the broker afterwards
unfoldable pub clear_stale_full_run_lock_if_applicable :
    ℕ → Status → Option Job → Broker → Result (Bool × Broker)
clear_stale_full_run_lock_if_applicable run_id run_status job b =
    if may_clear run_status job
    then (if b.reachable
        then (if lock_present run_id b then ok (true, delete_lock run_id b) else ok (false, b))
        else err redis_error)
    else ok (false, b)

-- the job's id and the broker with the job
unfoldable pub enqueue_full_benchmark_run : ℕ → Option ℕ → Broker → Result (ℕ × Broker)
enqueue_full_benchmark_run run_id document_id b =
    if b.reachable
    then ok (
      b.next_job_id,
      record b {
        jobs =
            b.jobs
            ++ record {
              id = b.next_job_id;
              first_arg = some run_id;
              document_id = document_id;
              status = queued;
              enqueued_at = some b.now;
              created_at = some b.now;
              started_at = none;
              ended_at = none;
            }
              ∷ [];
        next_job_id = b.next_job_id + 1;
      },
    )
    else err redis_error
