-- ===== src/Trace/Write/Evaluated.antt =====
-- What `persist_evaluation_and_complete_run` does, and that it keeps the invariant.
use context_lens.Prelude.{
  ℕ, ◌≡◌, ◌≤◌, refl, true, false, some, List, [], ◌∷◌, arith, length, ok, ◌&&◌, Option-cases, inl,
  inr, ◌⊎◌,
}
use context_lens.Trace.Rows.{Db, Run, Status, status_eq, retrieval_completed, generation_completed}
use context_lens.Trace.Write.{
  run_at, retrieval_of, generation_of, evaluation_of, save_run, add_evaluation, is_nil,
  EvaluationInput, completed_run, evaluation_row, store_evaluation_result,
  persist_evaluation_and_complete_run,
}
use context_lens.Trace.Write.Laws.{
  run_at-save_run_self, evaluation_of-add_self, id-run_at, length-is_nil,
}
use context_lens.Trace.Invariant.{
  IsPhase, IsTraced, WellTraced, IsTracedAt, Frame, Frame-WellTraced, Frame-trans, Frame-save_run,
  Frame-add_evaluation,
}

-- the rows of a run that is ready for its evaluation
rows_before :
    {A : Type 0} (s status : Status) (run : Run) (rows : List A) (ng ne : ℕ)
    → (s ≡ retrieval_completed) ⊎ (s ≡ generation_completed)
    → status ≡ s
    → status_eq s retrieval_completed && is_nil rows ≡ false
    → IsPhase status run (length rows) ng ne
    → (1 ≤ length rows) × (ng ≤ 1)
rows_before s status run rows ng ne which e ready was = ground (arith, length-is_nil rows)

module _ {F : Type 0} (upper : ℕ → List ℕ) (run_id : ℕ) (ev : EvaluationInput F) (db : Db F) where
  -- the database afterwards
  pub evaluated : Run → Db F
  evaluated run =
      save_run (completed_run run ev) (add_evaluation (evaluation_row upper run_id ev) db)

  -- The conditions under which the evaluation of `run` is accepted.
  abbrev pub Ready : Run → Status → Type 0
  Ready run s =
      (run_at run_id db ≡ some run)
      × (run.status ≡ s)
      × (evaluation_of run_id db ≡ [])
      × (status_eq s retrieval_completed && is_nil (retrieval_of run_id db) ≡ false)
      × (status_eq s generation_completed && is_nil (generation_of run_id db) ≡ false)
      × (ev.used_llm_judge && is_nil (generation_of run_id db) ≡ false)

  status_eq→eq : (a b : Status) → status_eq a b ≡ true → a ≡ b
  status_eq→eq a b h = ground arith

  pub persist_sound :
      (s : Status) {db' : Db F}
      → persist_evaluation_and_complete_run upper run_id ev s db ≡ ok db'
      → (run : Run) × Ready run s × (db' ≡ evaluated run)
  unfolding persist_evaluation_and_complete_run store_evaluation_result evaluated
  persist_sound s h = elim (Option-cases (run_at run_id db)) [
    | inl e ↦ absurd (ground arith)
    | inr (run, e) ↦ (
      run,
      (e, ground arith, ground arith, ground arith, ground arith, ground arith),
      ground arith,
    )
  ]

  -- In a database that is ready for the evaluation (the run has the prerequisite status and no
  -- evaluation, and the rows that the status and the judge ask for are there) the call succeeds,
  -- stores the evaluation and completes the run.
  pub persist_complete :
      (s : Status) (run : Run)
      → Ready run s
      → persist_evaluation_and_complete_run upper run_id ev s db ≡ ok (evaluated run)
  unfolding persist_evaluation_and_complete_run store_evaluation_result evaluated
  persist_complete s run ready = ground arith

  pub evaluated-Frame : (run : Run) → run_at run_id db ≡ some run → Frame run_id db (evaluated run)
  unfolding evaluated evaluation_row completed_run
  evaluated-Frame run here =
      Frame-trans run_id (Frame-add_evaluation db run_id (evaluation_row upper run_id ev) refl) (
        Frame-save_run (add_evaluation (evaluation_row upper run_id ev) db) (completed_run run ev)
          run_id (id-run_at db run_id run here))

  pub run_at-evaluated :
      (run : Run)
      → run_at run_id db ≡ some run
      → run_at run_id (evaluated run) ≡ some (completed_run run ev)
  unfolding evaluated completed_run run_at add_evaluation
  run_at-evaluated run here =
      run_at-save_run_self (add_evaluation (evaluation_row upper run_id ev) db) run
        (completed_run run ev) run_id here refl

  pub retrieval_of-evaluated :
      (run : Run) → retrieval_of run_id (evaluated run) ≡ retrieval_of run_id db
  unfolding evaluated retrieval_of save_run add_evaluation
  retrieval_of-evaluated run = refl

  pub generation_of-evaluated :
      (run : Run) → generation_of run_id (evaluated run) ≡ generation_of run_id db
  unfolding evaluated generation_of save_run add_evaluation
  generation_of-evaluated run = refl

  pub evaluation_of-evaluated :
      (run : Run)
      → evaluation_of run_id db ≡ []
      → evaluation_of run_id (evaluated run) ≡ evaluation_row upper run_id ev ∷ []
  unfolding evaluated save_run evaluation_row evaluation_of
  evaluation_of-evaluated run h =
      evaluation_of-add_self db (evaluation_row upper run_id ev) run_id refl h

  evaluated-IsTracedAt :
      (s : Status) (run : Run)
      → (s ≡ retrieval_completed) ⊎ (s ≡ generation_completed)
      → Ready run s
      → IsTracedAt run_id db
      → IsTracedAt run_id (evaluated run)
  unfolding completed_run
  evaluated-IsTracedAt s run which ready old =
      rw
        (
          IsTraced,
          run_at-evaluated run ready.0,
          retrieval_of-evaluated run,
          generation_of-evaluated run,
          evaluation_of-evaluated run ready.2,
        )
        (let was : IsTraced (some run) (length (retrieval_of run_id db))
              (length (generation_of run_id db)) (length (evaluation_of run_id db)) =
            rw (ready.0) at old in
          let (some_rows, one_answer) =
            rows_before s run.status run (retrieval_of run_id db) _ _ which ready.1 ready.3 was in
          (some_rows, one_answer, refl, refl, refl))

  -- If the call succeeds, from a prerequisite status of retrieval_completed or generation_completed
  -- and on a database that satisfies the invariant of the trace tables, the new database satisfies
  -- it.
  pub persist-WellTraced :
      (s : Status) {db' : Db F}
      → (s ≡ retrieval_completed) ⊎ (s ≡ generation_completed)
      → persist_evaluation_and_complete_run upper run_id ev s db ≡ ok db'
      → WellTraced db
      → WellTraced db'
  persist-WellTraced s which h old =
      let (run, ready, e) = persist_sound s h in
      rw e (
        Frame-WellTraced run_id run ready.0 (evaluated-Frame run ready.0)
          (evaluated-IsTracedAt s run which ready (old.at run_id)) old)
