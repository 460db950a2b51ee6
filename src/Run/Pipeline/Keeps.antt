-- ===== src/Run/Pipeline/Keeps.antt =====
-- The pipelines keep the invariant of the trace tables.
use context_lens.Prelude.{
  ℕ, ◌≡◌, refl, false, Option, some, arith, Result, ok, err, value_error, type_error, Option-cases,
  Result-cases, Bool-cases, inl, inr, ◌||◌,
}
use context_lens.Trace.Rows.{
  Db, Run, Status, status_eq, running, retrieval_completed, generation_completed, completed, failed,
}
use context_lens.Trace.Write.{run_at, save_run}
use context_lens.Trace.Write.Laws.{run_at-save_run_self, id-run_at, rows-save_run}
use context_lens.Trace.Invariant.{IsPhase, IsTraced, WellTraced, Frame-WellTraced, Frame-save_run}
use context_lens.Run.World.{World}
use context_lens.Run.Phases.Retrieval.{retrieval_sound, retrieved-WellTraced}
use context_lens.Run.Phases.Generation.{generation-WellTraced}
use context_lens.Run.Phases.Judge.{judge-WellTraced}
use context_lens.Run.Pipeline.{
  Committed, commit, then_commit, when_status, failed_run, mark_run_failed, handle_errors,
  run_stages, run_full_benchmark_pipeline,
}
use context_lens.Run.Pipeline.Settles.{HasStatus}

failed-IsPhase :
    (s : Status) (run : Run) (nr ng ne : ℕ)
    → status_eq s completed ≡ false
    → IsPhase s run nr ng ne
    → IsPhase failed (failed_run run) nr ng ne
failed-IsPhase s run nr ng ne open_ h = ground arith

module _ {F : Type 0} (run_id : ℕ) where
  mark_open-WellTraced :
      (db : Db F) (run : Run)
      → run_at run_id db ≡ some run
      → status_eq run.status completed ≡ false
      → WellTraced db
      → WellTraced (save_run (failed_run run) db)
  unfolding failed_run
  mark_open-WellTraced db run here open_ old =
      let new = failed_run run in
      let rows = rows-save_run db new run_id in
      Frame-WellTraced run_id run here (Frame-save_run db new run_id (id-run_at db run_id run here))
        (rw (IsTraced, run_at-save_run_self db run new run_id here refl, rows.0, rows.1, rows.2)
          (failed-IsPhase run.status run _ _ _ open_ (rw here at (old.at run_id))))
        old

  -- Marking a run as failed keeps the invariant of the trace tables, whatever the run's status is
  -- and whether it exists.
  pub mark_run_failed-WellTraced :
      (db : Db F) → WellTraced db → WellTraced (mark_run_failed run_id db)
  unfolding mark_run_failed
  mark_run_failed-WellTraced db old = elim (Option-cases (run_at run_id db)) [
    | inl e ↦ rw (e, mark_run_failed) old
    | inr (run, e) ↦ elim (Bool-cases (status_eq run.status completed)) [
      | inl c ↦ rw (e, mark_run_failed, c) old
      | inr c ↦ rw (e, mark_run_failed, c) (mark_open-WellTraced db run e c old)
    ]
  ]

  when_status-WellTraced :
      (s : Status) (phase : Db F → Result (Db F)) (db : Db F)
      → ((db' : Db F) → HasStatus run_id s db → phase db ≡ ok db' → WellTraced db')
      → WellTraced db
      → WellTraced ((when_status run_id s phase db).1)
  unfolding when_status commit
  when_status-WellTraced s phase db keeps old = elim (Option-cases (run_at run_id db)) [
    | inl e ↦ rw (e, when_status) old
    | inr (run, e) ↦ elim (Bool-cases (status_eq run.status s)) [
      | inr c ↦ rw (e, when_status, c) old
      | inl c ↦ elim (Result-cases (phase db)) [
        | inl (db', h) ↦ rw (e, when_status, c, h) (keeps db' (run, e, ground arith) h)
        | inr (x, h) ↦ rw (e, when_status, c, h) old
      ]
    ]
  ]

  then-WellTraced :
      (out : Committed F (Unit {0})) (stage : Db F → Committed F (Unit {0}))
      → ((db : Db F) → WellTraced db → WellTraced ((stage db).1))
      → WellTraced (out.1)
      → WellTraced ((then_commit out (λ _. stage)).1)
  unfolding then_commit
  then-WellTraced (ok a, db) stage next old = next db old
  then-WellTraced (err e, db) stage next old = old

  handled-WellTraced :
      (out : Committed F (Unit {0}))
      → WellTraced (out.1)
      → WellTraced ((handle_errors run_id out).1)
  unfolding handle_errors
  handled-WellTraced (ok a, db) old = old
  handled-WellTraced (err value_error, db) old = mark_run_failed-WellTraced db old
  handled-WellTraced (err type_error, db) old = mark_run_failed-WellTraced db old
  handled-WellTraced (err _, db) old = old

module _ {F : Type 0} (w : World F) (run_id : ℕ) (document_id : Option ℕ) where
  stages-WellTraced :
      (db : Db F) → WellTraced db → WellTraced ((run_stages w run_id document_id db).1)
  unfolding run_stages
  stages-WellTraced db old =
      then-WellTraced run_id _ _
        (λ db2 old2.
          when_status-WellTraced run_id generation_completed _ db2
            (λ db' at h. judge-WellTraced w run_id db2 h old2) old2)
        (then-WellTraced run_id _ _
          (λ db1 old1.
            when_status-WellTraced run_id retrieval_completed _ db1
              (λ db' at h. generation-WellTraced w run_id db1 h old1) old1)
          (when_status-WellTraced run_id running _ db
            (λ db' at h.
              let (run, hits, here, e) = retrieval_sound w run_id document_id db h in
              rw e (
                retrieved-WellTraced w run_id document_id db run hits here
                  (let (run', here', running_) = at in ground arith) old))
            old))

  -- Whatever the pipeline does, returning or raising, the committed database satisfies the
  -- invariant of the trace tables if it did so before.
  pub pipeline-WellTraced :
      (db : Db F)
      → WellTraced db
      → WellTraced ((run_full_benchmark_pipeline w run_id document_id db).1)
  unfolding run_full_benchmark_pipeline
  pipeline-WellTraced db old = elim (Option-cases (run_at run_id db)) [
    | inl e ↦ rw (e, run_full_benchmark_pipeline) old
    | inr (run, e) ↦
        elim (Bool-cases (status_eq run.status completed || status_eq run.status failed)) [
          | inl c ↦ rw (e, run_full_benchmark_pipeline, c) old
          | inr c ↦
              rw (e, run_full_benchmark_pipeline, c)
                (handled-WellTraced run_id _ (stages-WellTraced db old))
        ]
  ]
