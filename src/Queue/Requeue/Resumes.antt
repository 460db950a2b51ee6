-- ===== src/Queue/Requeue/Resumes.antt =====
-- A run that was queued again can be continued, and the invariant of the trace tables is kept.
use context_lens.Prelude.{
  ℕ, ◌≡◌, refl, ap, sym, ◌∙◌, Bool, true, false, not, Option, some, List, [], ◌∷◌, arith, length,
  ok, Bool-cases, Option-cases, Result-cases, inl, inr, if◌then◌else◌,
}
use context_lens.Trace.Rows.{Db, Run, GenerationResult, Status, status_eq, failed}
use context_lens.Trace.Store.{scalar_one_or_none}
use context_lens.Trace.Write.{
  run_at, retrieval_of, generation_of, evaluation_of, save_run, is_nil, is_none,
}
use context_lens.Trace.Write.Laws.{id-run_at, run_at-save_run_self, rows-save_run}
use context_lens.Trace.Invariant.{IsPhase, IsTraced, WellTraced, Frame-WellTraced, Frame-save_run}
use context_lens.Run.World.{World}
use context_lens.Run.Pipeline.Settles.{HasStatus, Resumable}
use context_lens.Queue.Broker.{Broker, enqueue_full_benchmark_run}
use context_lens.Queue.Eligibility.{
  allow_requeue, evaluate_structural_requeue_eligibility, structural_requeue_eligibility,
  resumed_run, normalize_failed_run_for_resume,
}
use context_lens.Queue.Requeue.{eligible_run, clear_lock, resume_and_enqueue, requeue_full_run}

one-length :
    {A : Type 0} (rows : List A) (r : Option A)
    → scalar_one_or_none rows ≡ ok r
    → length rows ≡ (if not (is_none r) then 1 else 0)
one-length [] r h = ground arith
one-length (x ∷ []) r h = ground arith
one-length (x ∷ y ∷ rows) r h = cc

resumed-IsPhase :
    (run : Run) (answered : Bool) (nr : ℕ) (retrieved : Bool) (ng ne : ℕ)
    → IsPhase failed run nr ng ne
    → ng ≡ (if answered then 1 else 0)
    → (retrieved ≡ false → nr ≡ 0)
    → IsPhase
        (resumed_run run answered retrieved).status
        (resumed_run run answered retrieved)
        nr
        ng
        ne
unfolding resumed_run
resumed-IsPhase run true nr retrieved ng ne was g r = ground arith
resumed-IsPhase run false nr true ng ne was g r = ground arith
resumed-IsPhase run false nr false ng ne was g r = let none_ = r refl in ground arith

nil-length : {A : Type 0} (rows : List A) → not (is_nil rows) ≡ false → length rows ≡ 0
nil-length [] h = refl
nil-length (x ∷ rows) h = cc

resumed-id :
    (run : Run) (answered retrieved : Bool) → (resumed_run run answered retrieved).id ≡ run.id
unfolding resumed_run
resumed-id run true retrieved = refl
resumed-id run false true = refl
resumed-id run false false = refl

resumed-Resumable :
    (run : Run) (answered retrieved : Bool) → Resumable (resumed_run run answered retrieved).status
unfolding resumed_run
resumed-Resumable run true retrieved = inr (inr refl)
resumed-Resumable run false true = inr (inl refl)
resumed-Resumable run false false = inl refl

module _ {F : Type 0} (w : World F) (run_id : ℕ) (db : Db F) where
  -- a run that may be queued again
  eligible-facts :
      {run : Run}
      → eligible_run w run_id db ≡ ok run
      → (run_at run_id db ≡ some run) × (allow_requeue run ≡ true)
  unfolding eligible_run structural_requeue_eligibility evaluate_structural_requeue_eligibility
  eligible-facts {run} h = elim (Option-cases (run_at run_id db)) [
    | inl e ↦ absurd (ground arith)
    | inr (run', e) ↦ elim (Result-cases (scalar_one_or_none (generation_of run'.id db))) [
      | inr (x, g) ↦ absurd (ground arith)
      | inl (generation, g) ↦ elim (Result-cases (scalar_one_or_none (evaluation_of run'.id db))) [
        | inr (x, v) ↦ absurd (ground arith)
        | inl (evaluation, v) ↦ elim (Bool-cases (allow_requeue run')) [
          | inl a ↦ (ground arith, ground arith)
          | inr a ↦ absurd (ground arith)
        ]
      ]
    ]
  ]

  -- what the re-enqueue leaves
  abbrev pub Continues : Db F → Type 0
  Continues db' = WellTraced db' × ((s : Status) × Resumable s × HasStatus run_id s db')

  resumed-Continues :
      (run : Run) (r : Option GenerationResult)
      → run_at run_id db ≡ some run
      → run.status ≡ failed
      → scalar_one_or_none (generation_of run.id db) ≡ ok r
      → WellTraced db
      → Continues
          (save_run (resumed_run run (not (is_none r)) (not (is_nil (retrieval_of run.id db)))) db)
  resumed-Continues run r here e one old =
      let same = id-run_at db run_id run here in
      let rows = retrieval_of run.id db in
      let new = resumed_run run (not (is_none r)) (not (is_nil rows)) in
      let there : run_at run_id (save_run new db) ≡ some new =
        run_at-save_run_self db run new run_id here (resumed-id run _ _) in
      let kept = rows-save_run db new run_id in
      let was : IsPhase failed run (length (retrieval_of run_id db))
          (length (generation_of run_id db)) (length (evaluation_of run_id db)) =
        rw (here, IsTraced, e) at (old.at run_id) in
      (
        Frame-WellTraced run_id run here (Frame-save_run db new run_id (resumed-id run _ _ ∙ same))
            (rw (IsTraced, there, kept.0, kept.1, kept.2)
              (resumed-IsPhase run (not (is_none r)) _ (not (is_nil rows)) _ _ was
                (one-length (generation_of run_id db) r
                  (ap (λ k. scalar_one_or_none (generation_of k db)) (sym same) ∙ one))
                (λ nothing.
                  ap (λ k. length (retrieval_of k db)) (sym same) ∙ nil-length rows nothing)))
            old,
        (new.status, resumed-Resumable run _ _, (new, there, refl)),
      )

  allowed-Resumable :
      (run : Run)
      → allow_requeue run ≡ true
      → status_eq run.status failed ≡ false
      → Resumable run.status
  unfolding allow_requeue
  allowed-Resumable run a f = ground arith

  enqueue-Continues :
      (run : Run) (b : Broker) {result : Run × ℕ} {db' : Db F} {b' : Broker}
      → run_at run_id db ≡ some run
      → allow_requeue run ≡ true
      → resume_and_enqueue w run_id run db b ≡ ok (result, db', b')
      → WellTraced db
      → Continues db'
  unfolding resume_and_enqueue normalize_failed_run_for_resume enqueue_full_benchmark_run
  enqueue-Continues run b {db' = db'} here allowed h old =
      elim (Bool-cases (status_eq run.status failed)) [
        | inr f ↦
            let same : db' ≡ db = ground arith in
            rw same (old, (run.status, allowed-Resumable run allowed f, (run, here, refl)))
        | inl f ↦ elim (Result-cases (scalar_one_or_none (generation_of run.id db))) [
          | inr (x, g) ↦ absurd (ground arith)
          | inl (r, g) ↦
              let same : db'
                  ≡ save_run
                      (resumed_run run (not (is_none r)) (not (is_nil (retrieval_of run.id db))))
                      db =
                ground arith in
              rw same (resumed-Continues run r here (ground arith) g old)
        ]
      ]

  -- If a re-enqueue succeeds on a database that satisfies the invariant of the trace tables, the new
  -- database satisfies it, and its run has a status from which the worker's pipeline continues.
  pub requeue-Continues :
      (b : Broker) {result : Run × ℕ} {db' : Db F} {b' : Broker}
      → requeue_full_run w run_id db b ≡ (ok result, db', b')
      → WellTraced db
      → Continues db'
  unfolding requeue_full_run
  requeue-Continues b {db' = db'} h old = elim (Result-cases (eligible_run w run_id db)) [
    | inr (x, e) ↦ absurd (ground arith)
    | inl (run, e) ↦ elim (Result-cases (clear_lock w run_id run b)) [
      | inr (x, c) ↦ absurd (ground arith)
      | inl ((cleared, b1), c) ↦ elim (Result-cases (resume_and_enqueue w run_id run db b1)) [
        | inr (x, q) ↦ absurd (ground arith)
        | inl ((result, db1, b2), q) ↦
            let (here, allowed) = eligible-facts e in
            let same : db' ≡ db1 = ground arith in
            rw same (enqueue-Continues run b1 here allowed q old)
      ]
    ]
  ]
