-- ===== src/Run/Pipeline/Settles.antt =====
-- How the pipeline of a full run ends: the statuses its stages lead to.
use context_lens.Prelude.{
  ℕ, ◌≡◌, ◌≢◌, refl, false, Option, some, arith, Result, ok, err, Exn, value_error, type_error,
  lookup_error, conflict_error, api_error, redis_error, other, Result-cases, inl, inr, ◌⊎◌,
}
use context_lens.Trace.Rows.{
  Db, Run, Status, status_eq, running, retrieval_completed, generation_completed, completed, failed,
}
use context_lens.Trace.Write.{run_at, save_run, completed_run}
use context_lens.Trace.Write.Laws.{run_at-save_run_self}
use context_lens.Trace.Write.Evaluated.{persist_sound, run_at-evaluated}
use context_lens.Run.World.{World}
use context_lens.Run.Phases.{
  retrieved_run, generated_run, execute_retrieval_for_existing_run, execute_generation_for_run,
  execute_llm_judge_and_complete_run,
}
use context_lens.Run.Phases.Retrieval.{retrieval_sound, run_at-retrieved}
use context_lens.Run.Phases.Generation.{generation_sound, run_at-generated}
use context_lens.Run.Phases.Judge.{judge_sound, merge-some}
use context_lens.Run.Pipeline.{
  Committed, commit, then_commit, when_status, failed_run, mark_run_failed, handle_errors,
  run_stages, run_full_benchmark_pipeline,
}

-- a run exists and has this status
abbrev pub HasStatus : {F : Type 0} → ℕ → Status → Db F → Type 0
HasStatus run_id s db = (run : Run) × (run_at run_id db ≡ some run) × (run.status ≡ s)

-- a phase that ends in `t` whenever it succeeds
abbrev pub LeadsTo : {F : Type 0} → ℕ → Status → (Db F → Result (Db F)) → Type 0
LeadsTo {F} run_id t phase = (db db' : Db F) → phase db ≡ ok db' → HasStatus run_id t db'

module _ {F : Type 0} (w : World F) (run_id : ℕ) where
  pub retrieval-LeadsTo :
      (document_id : Option ℕ)
      → LeadsTo run_id retrieval_completed (execute_retrieval_for_existing_run w run_id document_id)
  unfolding retrieved_run
  retrieval-LeadsTo document_id db db' h =
      let (run, hits, here, e) = retrieval_sound w run_id document_id db h in
      rw e (
        retrieved_run run w.retrieval_ms,
        run_at-retrieved w run_id document_id db run hits here,
        refl,
      )

  pub generation-LeadsTo : LeadsTo run_id generation_completed (execute_generation_for_run w run_id)
  unfolding generated_run
  generation-LeadsTo db db' h =
      let (run, answer, facts) = generation_sound w run_id db h in
      rw (facts.result) (
        generated_run run w.generation_ms,
        run_at-generated w run_id db run answer facts.here,
        refl,
      )

  pub judge-LeadsTo : LeadsTo run_id completed (execute_llm_judge_and_complete_run w run_id)
  unfolding completed_run
  judge-LeadsTo db db' h =
      let c = (judge_sound w run_id db h).concluded in
      let (run, ready, e) =
        persist_sound w.upper_beyond_ascii run_id c.input db generation_completed c.persisted in
      let new = completed_run run c.input in
      let there : run_at run_id c.stored ≡ some new =
        rw e (run_at-evaluated w.upper_beyond_ascii run_id c.input db run ready.0) in
      rw (c.result, merge-some run_id c.patch c.stored new there)
        (
          record new { trace_instrumentation_json = some c.patch },
          run_at-save_run_self c.stored new
              (record new { trace_instrumentation_json = some c.patch }) run_id there refl,
          refl,
        )

-- the statuses from which a stage continues
abbrev pub Resumable : Status → Type 0
Resumable s = (s ≡ running) ⊎ (s ≡ retrieval_completed) ⊎ (s ≡ generation_completed)

abbrev pub Stopped : {F : Type 0} → ℕ → Db F → Type 0
Stopped run_id db = (s : Status) × Resumable s × HasStatus run_id s db

-- Stages led to the status `t`, or one raised and left a status from which they continue.
abbrev pub After : {F : Type 0} → ℕ → Status → Committed F (Unit {0}) → Type 0
After run_id t out =
    ((out.0 ≡ ok tt) × HasStatus run_id t (out.1))
    ⊎ ((e : Exn) × (out.0 ≡ err e) × Stopped run_id (out.1))

module _ {F : Type 0} (run_id : ℕ) where
  pub when_status-other :
      (s t : Status) (phase : Db F → Result (Db F)) (db : Db F)
      → status_eq s t ≡ false
      → HasStatus run_id s db
      → when_status run_id t phase db ≡ (ok tt, db)
  unfolding when_status
  when_status-other s t phase db ne (run, here, e) = ground arith

  pub when_status-same :
      (s : Status) (phase : Db F → Result (Db F)) (db : Db F)
      → HasStatus run_id s db
      → when_status run_id s phase db ≡ commit db (phase db)
  unfolding when_status
  when_status-same s phase db (run, here, e) = ground arith

  pub when_status-After :
      (s t : Status) (phase : Db F → Result (Db F)) (db : Db F)
      → Resumable s
      → LeadsTo run_id t phase
      → HasStatus run_id s db
      → After run_id t (when_status run_id s phase db)
  unfolding commit
  when_status-After s t phase db resumable leads (run, here, e) = elim (Result-cases (phase db)) [
    | inl (db', h) ↦
        rw (when_status-same s phase db (run, here, e), h, commit) (inl (refl, leads db db' h))
    | inr (x, h) ↦
        rw (when_status-same s phase db (run, here, e), h, commit)
          (inr (x, refl, (s, resumable, (run, here, e))))
  ]

  pub then-After :
      (s t : Status) (out : Committed F (Unit {0})) (stage : Db F → Committed F (Unit {0}))
      → After run_id s out
      → ((db : Db F) → HasStatus run_id s db → After run_id t (stage db))
      → After run_id t (then_commit out (λ _. stage))
  unfolding then_commit
  then-After s t (ok a, db) stage (inl (h, at)) next = next db at
  then-After s t (ok a, db) stage (inr (e, h, _)) next = cc
  then-After s t (err x, db) stage (inl (h, at)) next = cc
  then-After s t (err x, db) stage (inr (e, h, stopped)) next = inr (x, refl, stopped)

  pub mark_run_failed-open :
      (s : Status) (db : Db F) (run : Run)
      → run_at run_id db ≡ some run
      → status_eq run.status completed ≡ false
      → mark_run_failed run_id db ≡ save_run (failed_run run) db
  unfolding mark_run_failed
  mark_run_failed-open s db run here ne = ground arith

  pub failed-HasStatus :
      (s : Status) (db : Db F)
      → Resumable s
      → HasStatus run_id s db
      → HasStatus run_id failed (mark_run_failed run_id db)
  unfolding failed_run
  failed-HasStatus s db resumable (run, here, e) =
      rw (mark_run_failed-open s db run here (ground arith))
        (failed_run run, run_at-save_run_self db run (failed_run run) run_id here refl, refl)

  -- what a pipeline leaves: a run that ended, or an exception for the queue to retry
  abbrev pub Settled : Committed F (Unit {0}) → Type 0
  Settled out =
      ((out.0 ≡ ok tt) × (HasStatus run_id completed (out.1) ⊎ HasStatus run_id failed (out.1)))
      ⊎ ((e : Exn) × (out.0 ≡ err e)
          × (e ≢ value_error)
          × (e ≢ type_error)
          × Stopped run_id (out.1))

  handled :
      (out : Committed F (Unit {0}))
      → After run_id completed out
      → Settled (handle_errors run_id out)
  unfolding handle_errors
  handled (ok a, db) (inl (h, at)) = inl (refl, inl at)
  handled (ok a, db) (inr (e, h, _)) = cc
  handled (err x, db) (inl (h, at)) = cc
  handled (err value_error, db) (inr (e, h, (s, r, at))) =
      inl (refl, inr (failed-HasStatus s db r at))
  handled (err type_error, db) (inr (e, h, (s, r, at))) =
      inl (refl, inr (failed-HasStatus s db r at))
  handled (err lookup_error, db) (inr (e, h, at)) = inr (lookup_error, refl, cc, cc, at)
  handled (err conflict_error, db) (inr (e, h, at)) = inr (conflict_error, refl, cc, cc, at)
  handled (err api_error, db) (inr (e, h, at)) = inr (api_error, refl, cc, cc, at)
  handled (err redis_error, db) (inr (e, h, at)) = inr (redis_error, refl, cc, cc, at)
  handled (err other, db) (inr (e, h, at)) = inr (other, refl, cc, cc, at)

module _ {F : Type 0} (w : World F) (run_id : ℕ) (document_id : Option ℕ) where
  first_stage-After :
      (s : Status) (db : Db F)
      → (s ≡ running) ⊎ (s ≡ retrieval_completed)
      → HasStatus run_id s db
      → After run_id retrieval_completed
          (when_status run_id running (execute_retrieval_for_existing_run w run_id document_id) db)
  first_stage-After s db (inl e) at =
      when_status-After run_id running retrieval_completed _ db (inl refl)
        (retrieval-LeadsTo w run_id document_id) (rw e at at)
  first_stage-After s db (inr e) at =
      rw
        (when_status-other run_id s running
          (execute_retrieval_for_existing_run w run_id document_id) db (ground arith) at)
        (inl (refl, rw e at at))

  second_stage-After :
      (s : Status) (db : Db F)
      → Resumable s
      → HasStatus run_id s db
      → After run_id generation_completed (
          then_commit
            (when_status run_id running
              (execute_retrieval_for_existing_run w run_id document_id)
              db)
            (λ _. when_status run_id retrieval_completed (execute_generation_for_run w run_id)))
  unfolding then_commit
  second_stage-After s db (inr (inr e)) at =
      rw
        (
          when_status-other run_id s running
              (execute_retrieval_for_existing_run w run_id document_id) db (ground arith) at,
          when_status-other run_id s retrieval_completed (execute_generation_for_run w run_id) db
              (ground arith) at,
        )
        (inl (refl, rw e at at))
  second_stage-After s db (inl e) at =
      then-After run_id retrieval_completed generation_completed _ _
        (first_stage-After s db (inl e) at)
        (λ db' at'.
          when_status-After run_id retrieval_completed generation_completed _ db' (inr (inl refl))
            (generation-LeadsTo w run_id) at')
  second_stage-After s db (inr (inl e)) at =
      then-After run_id retrieval_completed generation_completed _ _
        (first_stage-After s db (inr e) at)
        (λ db' at'.
          when_status-After run_id retrieval_completed generation_completed _ db' (inr (inl refl))
            (generation-LeadsTo w run_id) at')

  pub stages-After :
      (s : Status) (db : Db F)
      → Resumable s
      → HasStatus run_id s db
      → After run_id completed (run_stages w run_id document_id db)
  unfolding run_stages
  stages-After s db resumable at =
      then-After run_id generation_completed completed _ _ (second_stage-After s db resumable at)
        (λ db' at'.
          when_status-After run_id generation_completed completed _ db' (inr (inr refl))
            (judge-LeadsTo w run_id) at')

  pub pipeline-open :
      (s : Status) (db : Db F)
      → Resumable s
      → HasStatus run_id s db
      → run_full_benchmark_pipeline w run_id document_id db
        ≡ handle_errors run_id (run_stages w run_id document_id db)
  unfolding run_full_benchmark_pipeline
  pipeline-open s db resumable (run, here, e) = ground arith

  -- A full run that is running, or between two phases, is completed or failed when its pipeline
  -- returns. When the pipeline raises, the exception is no ValueError and no TypeError, and the run
  -- has a status from which the pipeline continues.
  pub pipeline-Settled :
      (s : Status) (db : Db F)
      → Resumable s
      → HasStatus run_id s db
      → Settled run_id (run_full_benchmark_pipeline w run_id document_id db)
  pipeline-Settled s db resumable (run, here, e) =
      rw (pipeline-open s db resumable (run, here, e)) (
        handled run_id (run_stages w run_id document_id db)
          (stages-After s db resumable (run, here, e)))
