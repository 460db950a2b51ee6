-- ===== src/Queue/Requeue/Laws.antt =====
-- Inspection and re-enqueue agree: what the status calls eligible is queued.
use context_lens.Prelude.{
  ℕ, ◌≡◌, refl, ap, ◌∙◌, Bool, true, false, not, Option, some, arith, ok, Bool-cases, Option-cases,
  Result-cases, inl, inr,
}
use context_lens.Trace.Rows.{Db, Run, Status, GenerationResult, EvaluationResult, status_eq, failed}
use context_lens.Trace.Store.{scalar_one_or_none}
use context_lens.Trace.Write.{run_at, retrieval_of, generation_of, evaluation_of, is_nil, is_none}
use context_lens.Trace.Write.Laws.{id-run_at}
use context_lens.Run.World.{World}
use context_lens.Queue.Broker.{
  Broker, Job, find_primary_job_for_run, clear_stale_full_run_lock_if_applicable, lock_present,
  delete_lock, enqueue_full_benchmark_run,
}
use context_lens.Domain.EvaluatorBucket.{is_heuristic}
use context_lens.Queue.Eligibility.{
  infer_pipeline_heuristic_vs_full, evaluate_structural_requeue_eligibility,
  structural_requeue_eligibility, resumed_run, normalize_failed_run_for_resume,
}
use context_lens.Queue.Requeue.{
  RunQueueStatusResponse, eligible_run, clear_lock, resume_and_enqueue, requeue_full_run,
  full_status, heuristic_status, get_run_queue_status,
}

cleared-reachable :
    (run_id : ℕ) (st : Status) (job : Option Job) (b : Broker) (cleared : Bool) {b' : Broker}
    → clear_stale_full_run_lock_if_applicable run_id st job b ≡ ok (cleared, b')
    → b'.reachable ≡ b.reachable
unfolding clear_stale_full_run_lock_if_applicable delete_lock
cleared-reachable run_id st job b cleared h = ground arith

up-found :
    (run_id : ℕ) (b : Broker) (job : Option Job)
    → find_primary_job_for_run run_id b ≡ ok job
    → b.reachable ≡ true
unfolding find_primary_job_for_run
up-found run_id b job h = ground arith

full_status-free :
    (run_id : ℕ) (run : Run) (struct_ok : Bool) (b : Broker) {b' : Broker}
    {r : RunQueueStatusResponse}
    → full_status run_id run struct_ok b ≡ ok (r, b')
    → r.requeue_eligible ≡ true
    → (struct_ok ≡ true) × (b'.reachable ≡ true) × (lock_present run_id b' ≡ false)
unfolding full_status
full_status-free run_id run struct_ok b {b'} {r} h e =
    elim (Result-cases (find_primary_job_for_run run_id b)) [
      | inr (x, f) ↦ absurd (ground arith)
      | inl (job, f) ↦
          elim (Result-cases (clear_stale_full_run_lock_if_applicable run_id run.status job b)) [
            | inr (x, c) ↦ absurd (ground arith)
            | inl ((cleared, b1), c) ↦
                let up =
                  cleared-reachable run_id run.status job b cleared c ∙ up-found run_id b job f in
                ground arith
          ]
    ]

module _ {F : Type 0} (run_id : ℕ) (db : Db F) where
  -- what the inspection has read when it calls the run eligible
  pub record Eligible (b b' : Broker) : Type 0 where
    pub run : Run
    pub generation : Option GenerationResult
    pub evaluation : Option (EvaluationResult F)
    pub here : run_at run_id db ≡ some run
    pub one_answer : scalar_one_or_none (generation_of run_id db) ≡ ok generation
    pub one_evaluation : scalar_one_or_none (evaluation_of run_id db) ≡ ok evaluation
    pub structural : evaluate_structural_requeue_eligibility run generation evaluation ≡ true
    pub up : b'.reachable ≡ true
    pub free : lock_present run_id b' ≡ false

  status-Eligible :
      (b : Broker) {b' : Broker} {r : RunQueueStatusResponse}
      → get_run_queue_status run_id db b ≡ ok (r, b')
      → r.requeue_eligible ≡ true
      → Eligible b b'
  unfolding get_run_queue_status
  status-Eligible b {b'} {r} h e = elim (Option-cases (run_at run_id db)) [
    | inl n ↦ absurd (ground arith)
    | inr (run, here) ↦ elim (Result-cases (scalar_one_or_none (generation_of run_id db))) [
      | inr (x, g) ↦ absurd (ground arith)
      | inl (generation, g) ↦ elim (Result-cases (scalar_one_or_none (evaluation_of run_id db))) [
        | inr (x, v) ↦ absurd (ground arith)
        | inl (evaluation, v) ↦
            elim (Bool-cases
              (is_heuristic (infer_pipeline_heuristic_vs_full generation evaluation))) [
                | inl y ↦ absurd (unfold heuristic_status in ground arith)
                | inr y ↦
                    let (structural, up, free) =
                      full_status-free run_id run
                        (evaluate_structural_requeue_eligibility run generation evaluation) b
                        {r = r} (ground (arith, h)) e in
                    record {
                      run = run;
                      generation = generation;
                      evaluation = evaluation;
                      here = here;
                      one_answer = g;
                      one_evaluation = v;
                      structural = structural;
                      up = up;
                      free = free;
                    }
              ]
      ]
    ]
  ]

module _ {F : Type 0} (w : World F) (run_id : ℕ) (db : Db F) where
  Eligible-run : {b b' : Broker} (e : Eligible run_id db b b') → eligible_run w run_id db ≡ ok e.run
  unfolding eligible_run structural_requeue_eligibility
  Eligible-run e =
      let same = id-run_at db run_id e.run e.here in
      let g = ap (λ k. scalar_one_or_none (generation_of k db)) same ∙ e.one_answer in
      let v = ap (λ k. scalar_one_or_none (evaluation_of k db)) same ∙ e.one_evaluation in
      rw (e.here, structural_requeue_eligibility, g, v, e.structural) refl

  lock-free :
      (run : Run) (b : Broker)
      → b.reachable ≡ true
      → lock_present run_id b ≡ false
      → clear_lock w run_id run b ≡ ok (false, b)
  unfolding clear_lock find_primary_job_for_run clear_stale_full_run_lock_if_applicable
  lock-free run b up free = ground arith

  normalized :
      (run : Run) (generation : Option GenerationResult)
      → scalar_one_or_none (generation_of run.id db) ≡ ok generation
      → (run' : Run) × (normalize_failed_run_for_resume run db ≡ ok run')
  unfolding normalize_failed_run_for_resume
  normalized run generation one = elim (Bool-cases (status_eq run.status failed)) [
    | inr c ↦ (run, rw (c, normalize_failed_run_for_resume) refl)
    | inl c ↦ (
      resumed_run run (not (is_none generation)) (not (is_nil (retrieval_of run.id db))),
      rw (c, normalize_failed_run_for_resume, one) refl,
    )
  ]

  -- resuming and queueing succeed on a free lock
  queued :
      (run run' : Run) (b : Broker)
      → w.api_key_configured ≡ true
      → b.reachable ≡ true
      → lock_present run_id b ≡ false
      → normalize_failed_run_for_resume run db ≡ ok run'
      → (job_id : ℕ) × (db' : Db F) × (b' : Broker) × (resume_and_enqueue w run_id run db b
          ≡ ok ((run', job_id), db', b'))
  unfolding resume_and_enqueue enqueue_full_benchmark_run
  queued run run' b key up free n = rw (resume_and_enqueue, key, free, n, up) (_, _, _, refl)

  -- When the inspection calls a run eligible and the API key is configured, the re-enqueue that
  -- follows on the broker that the inspection left succeeds.
  pub status-requeue :
      (b : Broker) {b' : Broker} {r : RunQueueStatusResponse}
      → get_run_queue_status run_id db b ≡ ok (r, b')
      → r.requeue_eligible ≡ true
      → w.api_key_configured ≡ true
      → (result : Run × ℕ) × ((requeue_full_run w run_id db b').0 ≡ ok result)
  unfolding requeue_full_run
  status-requeue b {b'} h e key =
      let facts = status-Eligible run_id db b h e in
      let run = facts.run in
      let same = id-run_at db run_id run facts.here in
      let (run', n) =
        normalized run facts.generation
          (ap (λ k. scalar_one_or_none (generation_of k db)) same ∙ facts.one_answer) in
      let (job_id, db', b'', q) = queued run run' b' key facts.up facts.free n in
      rw (Eligible-run facts, requeue_full_run, lock-free run b' facts.up facts.free, q)
        ((run', job_id), refl)
