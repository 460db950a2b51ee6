-- ===== src/Run/Phases/Generation.antt =====
-- The generation phase: what it stores, and that it keeps the invariant.
use context_lens.Prelude.{
  ℕ, ◌≡◌, refl, false, some, [], ◌∷◌, arith, length, ok, Option-cases, Result-cases, inl, inr,
}
use context_lens.Trace.Rows.{Db, Run, retrieval_completed}
use context_lens.Trace.Write.{
  run_at, retrieval_of, generation_of, evaluation_of, save_run, add_generation,
  store_generation_result, is_nil,
}
use context_lens.Trace.Write.Laws.{
  run_at-save_run_self, id-run_at, generation_of-add_self, length-is_nil,
}
use context_lens.Trace.Context.{context_rows, bodies_of}
use context_lens.Trace.Context.Laws.{length-context_rows}
use context_lens.Trace.Invariant.{
  IsTraced, WellTraced, IsTracedAt, Frame, Frame-WellTraced, Frame-trans, Frame-save_run,
  Frame-add_generation,
}
use context_lens.Run.World.{World, Answer}
use context_lens.Run.Phases.{
  generated_run, query_case_at, generate_rag_answer, generation_row, execute_generation_for_run,
}

module _ {F : Type 0} (w : World F) (run_id : ℕ) (db : Db F) where
  pub generated : Run → Answer → Db F
  generated run answer =
      save_run (generated_run run w.generation_ms)
        (add_generation (generation_row w run_id answer) db)

  pub record GenerationFacts (run : Run) (answer : Answer) (db' : Db F) : Type 0 where
    pub here : run_at run_id db ≡ some run
    pub status : run.status ≡ retrieval_completed
    pub unanswered : generation_of run_id db ≡ []
    pub context : is_nil (context_rows run_id db) ≡ false
    pub result : db' ≡ generated run answer

  pub generation_sound :
      {db' : Db F}
      → execute_generation_for_run w run_id db ≡ ok db'
      → (run : Run) × (answer : Answer) × GenerationFacts run answer db'
  unfolding execute_generation_for_run store_generation_result generated
  generation_sound h = elim (Option-cases (run_at run_id db)) [
    | inl e ↦ absurd (ground arith)
    | inr (run, e) ↦ elim (Result-cases (query_case_at w run.query_case_id db)) [
      | inr (x, q) ↦ absurd (ground arith)
      | inl (qc, q) ↦
          elim (Result-cases
            (generate_rag_answer w qc.query_text (bodies_of (context_rows run_id db)))) [
              | inr (x, a) ↦ absurd (ground arith)
              | inl (answer, a) ↦ (
                run,
                answer,
                record {
                  here = e;
                  status = ground arith;
                  unanswered = ground arith;
                  context = ground arith;
                  result = ground arith;
                },
              )
            ]
    ]
  ]

  module _ (run : Run) (answer : Answer) (here : run_at run_id db ≡ some run) where
    generated-Frame : Frame run_id db (generated run answer)
    unfolding generated generated_run generation_row
    generated-Frame =
        Frame-trans run_id (Frame-add_generation db run_id (generation_row w run_id answer) refl) (
          Frame-save_run (add_generation (generation_row w run_id answer) db)
            (generated_run run w.generation_ms) run_id (id-run_at db run_id run here))

    pub run_at-generated :
        run_at run_id (generated run answer) ≡ some (generated_run run w.generation_ms)
    unfolding generated generated_run run_at add_generation
    run_at-generated =
        run_at-save_run_self (add_generation (generation_row w run_id answer) db) run
          (generated_run run w.generation_ms) run_id here refl

    pub retrieval_of-generated : retrieval_of run_id (generated run answer) ≡ retrieval_of run_id db
    unfolding generated retrieval_of save_run add_generation
    retrieval_of-generated = refl

    pub generation_of-generated :
        generation_of run_id db ≡ []
        → generation_of run_id (generated run answer) ≡ generation_row w run_id answer ∷ []
    unfolding generated save_run generation_of generation_row
    generation_of-generated h =
        generation_of-add_self db (generation_row w run_id answer) run_id refl h

    pub evaluation_of-generated :
        evaluation_of run_id (generated run answer) ≡ evaluation_of run_id db
    unfolding generated evaluation_of save_run add_generation
    evaluation_of-generated = refl

  -- If the generation phase succeeds on a database that satisfies the invariant of the trace tables,
  -- the new database satisfies it.
  pub generation-WellTraced :
      {db' : Db F}
      → execute_generation_for_run w run_id db ≡ ok db'
      → WellTraced db
      → WellTraced db'
  generation-WellTraced h old =
      let (run, answer, facts) = generation_sound h in
      let was : IsTraced (some run) (length (retrieval_of run_id db))
          (length (generation_of run_id db)) (length (evaluation_of run_id db)) =
        rw (facts.here) at (old.at run_id) in
      let new : IsTracedAt run_id (generated run answer) =
        rw
          (
            IsTraced,
            run_at-generated run answer facts.here,
            retrieval_of-generated run answer facts.here,
            generation_of-generated run answer facts.here facts.unanswered,
            evaluation_of-generated run answer facts.here,
          )
          (unfold generated_run in
            ground (
              arith,
              facts.status,
              was,
              length-is_nil (context_rows run_id db) facts.context,
              length-context_rows run_id db,
            )) in
      rw (facts.result)
        (Frame-WellTraced run_id run facts.here (generated-Frame run answer facts.here) new old)
