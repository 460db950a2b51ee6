-- ===== src/Run/Pipeline/Heuristic.antt =====
-- The heuristic run: creating its row keeps the invariant, and what happens without hits.
use context_lens.Prelude.{
  ℕ, ◌+◌, ◌≡◌, ◌≤◌, ◌≢◌, refl, sym, ◌∙◌, ap, false, Option, none, some, List, [], ◌∷◌, arith, ok,
  err, value_error, Option-cases, inl, inr, ◌⊎◌, length, if◌then◌else◌,
}
use mathlib.Core.Path.{subst}
use native.Mathlib.Decide.{ℕ_discrete}
use context_lens.Trace.Rows.{
  Db, Run, RunMetadata, QueryCase, PipelineConfig, Status, pending, running, retrieval_completed,
}
use context_lens.Trace.Store.{get_row, scalar_one_or_none}
use context_lens.Trace.Store.Laws.{get-append, get-append_some}
use context_lens.Trace.Write.{
  store_retrieval_results, retrieval_rows, chunks_exist, EvaluationInput, is_nil, run_at,
  retrieval_of, generation_of, evaluation_of, create_run, persist_evaluation_and_complete_run,
}
use context_lens.Trace.Context.{context_rows}
use context_lens.Trace.Invariant.{IsPhase, IsTraced, WellTraced}
use context_lens.Evaluation.{miss_scores, scores_from, compute_minimal_retrieval_evaluation}
use context_lens.Run.World.{World}
use context_lens.Run.Phases.{
  ranked, query_case_at, pipeline_config_at, or_zero, retrieved_run, store_hits,
}
use context_lens.Run.Phases.Retrieval.{
  retrieved, run_at-retrieved, retrieval_of-retrieved, retrieved-WellTraced,
}
use context_lens.Run.Pipeline.{
  commit, then_commit, validate_run_create_prerequisites, start_run, search_and_store,
  execute_retrieval_benchmark_run, heuristic_input, evaluate_heuristically,
  create_and_execute_run_from_ids,
}
use context_lens.Run.Pipeline.Settles.{HasStatus}

module _ {F : Type 0} (query_case_id pipeline_config_id : ℕ) (status : Status)
    (meta : Option RunMetadata) (db : Db F) where
  unfoldable pub created : Run × Db F
  created = create_run query_case_id pipeline_config_id status meta db

  pub run_at-created_self :
      run_at db.next_run_id db ≡ none → run_at db.next_run_id (created.1) ≡ some (created.0)
  unfolding run_at created create_run
  run_at-created_self h =
      get-append (λ (r : Run). r.id) db.next_run_id db.runs (created.0) h ∙ ground arith

  run_at-created_ne : (j : ℕ) → db.next_run_id ≢ j → run_at j (created.1) ≡ run_at j db
  unfolding run_at created create_run
  run_at-created_ne j ne = elim (Option-cases (get_row (λ (r : Run). r.id) j db.runs)) [
    | inl e ↦ get-append (λ (r : Run). r.id) j db.runs (created.0) e ∙ ground (arith, e)
    | inr (run, e) ↦ get-append_some (λ (r : Run). r.id) j db.runs (created.0) run e ∙ sym e
  ]

  rows-created :
      (j : ℕ)
      → (retrieval_of j (created.1) ≡ retrieval_of j db)
        × (generation_of j (created.1) ≡ generation_of j db)
        × (evaluation_of j (created.1) ≡ evaluation_of j db)
  unfolding retrieval_of generation_of evaluation_of created create_run
  rows-created j = (refl, refl, refl)

  new-IsPhase :
      (s : Status) (run : Run) (nr ng ne : ℕ)
      → (s ≡ pending) ⊎ (s ≡ running)
      → (nr ≡ 0) × (ng ≡ 0) × (ne ≡ 0)
      → IsPhase s run nr ng ne
  new-IsPhase s run nr ng ne which h = ground arith

  created-status : (created.0).status ≡ status
  unfolding created create_run
  created-status = refl

  created-next : (created.1).next_run_id ≡ db.next_run_id + 1
  unfolding created create_run
  created-next = refl

  -- Creating a run that is pending or running keeps the invariant of the trace tables.
  pub create_run-WellTraced :
      (status ≡ pending) ⊎ (status ≡ running) → WellTraced db → WellTraced (created.1)
  create_run-WellTraced which old = record {
    at = λ j.
        let rows = rows-created j in
        elim (ℕ_discrete db.next_run_id j) [
          | no ne ↦ rw (IsTraced, run_at-created_ne j ne, rows.0, rows.1, rows.2) (old.at j)
          | yes e ↦
              let gone : run_at j db ≡ none = old.fresh j (omega (arith, e)) in
              let here : run_at j (created.1) ≡ some (created.0) =
                subst (λ k. run_at k (created.1) ≡ some (created.0)) e
                  (run_at-created_self (old.fresh db.next_run_id (omega arith))) in
              rw (IsTraced, here, rows.0, rows.1, rows.2)
                (new-IsPhase (created.0).status (created.0) _ _ _ (rw created-status which)
                  (rw (gone, IsTraced) at (old.at j)))
        ];
    fresh = λ j le.
        run_at-created_ne j (λ e. absurd (omega (arith, le, e, created-next)))
        ∙ old.fresh j (omega (arith, created-next));
  }

module _ {F : Type 0} (w : World F) (run_id : ℕ) (db : Db F) where
  one_at_most :
      {A : Type 0} (rows : List A)
      → length rows ≤ 1
      → (r : Option A) × (scalar_one_or_none rows ≡ ok r)
  one_at_most [] h = (none, refl)
  one_at_most (x ∷ []) h = (some x, refl)
  one_at_most (x ∷ y ∷ rows) h = absurd (omega arith)

  phase-one : (s : Status) (run : Run) (nr ng ne : ℕ) → IsPhase s run nr ng ne → ne ≤ 1
  phase-one s run nr ng ne h = ground arith

  pub persist-no_hits :
      (upper : ℕ → List ℕ) (ev : EvaluationInput F)
      → WellTraced db
      → retrieval_of run_id db ≡ []
      → persist_evaluation_and_complete_run upper run_id ev retrieval_completed db ≡ err value_error
  unfolding persist_evaluation_and_complete_run
  persist-no_hits upper ev old empty = elim (Option-cases (run_at run_id db)) [
    | inl e ↦ ground arith
    | inr (run, e) ↦
        let was : IsTraced (some run) (length (retrieval_of run_id db))
            (length (generation_of run_id db)) (length (evaluation_of run_id db)) =
          rw e at (old.at run_id) in
        let (r, one) = one_at_most (evaluation_of run_id db) (phase-one run.status run _ _ _ was) in
        elim r [ none ↦ ground arith | some row ↦ ground arith ]
  ]

  -- In a database that satisfies the invariant of the trace tables, the heuristic evaluation of a
  -- run without retrieval rows ends in a ValueError.
  pub evaluate-no_hits :
      WellTraced db
      → retrieval_of run_id db ≡ []
      → evaluate_heuristically w run_id db ≡ err value_error
  unfolding evaluate_heuristically compute_minimal_retrieval_evaluation
  evaluate-no_hits old empty =
      let refused = λ (ev : EvaluationInput F). persist-no_hits w.upper_beyond_ascii ev old empty in
      elim (Option-cases (run_at run_id db)) [
        | inl e ↦ ground arith
        | inr (run, e) ↦
            elim (Option-cases
              (get_row (λ (q : QueryCase). q.id) run.query_case_id db.query_cases)) [
                | inl q ↦ ground arith
                | inr (qc, q) ↦
                    let ev =
                      if is_nil (context_rows run_id db)
                      then miss_scores
                      else scores_from w.floats qc (context_rows run_id db) in
                    ground
                      (arith, refused (heuristic_input w (or_zero run.retrieval_latency_ms) ev))
              ]
      ]

List-nil : {A : Type 0} (xs : List A) → length xs ≡ 0 → xs ≡ []
List-nil [] h = refl
List-nil (x ∷ xs) h = absurd (omega arith)

module _ {F : Type 0} (w : World F) (query_case_id pipeline_config_id : ℕ) (document_id : Option ℕ)
    (meta : Option RunMetadata) (db : Db F) where
  -- the database with the new run, and the one after a search without hits
  abbrev pub running_with : Db F
  running_with = (created query_case_id pipeline_config_id running meta db).1

  abbrev pub new_run : Run
  new_run = (created query_case_id pipeline_config_id running meta db).0

  abbrev pub stuck_db : Db F
  stuck_db = retrieved w db.next_run_id document_id running_with new_run []

  pub store-no_hits : store_hits w new_run [] running_with ≡ ok stuck_db
  unfolding created create_run store_hits store_retrieval_results retrieved ranked retrieval_rows
      chunks_exist
  store-no_hits = refl

  pub stuck-facts :
      WellTraced db
      → HasStatus db.next_run_id retrieval_completed stuck_db
        × WellTraced stuck_db
        × (retrieval_of db.next_run_id stuck_db ≡ [])
  unfolding retrieved_run
  stuck-facts old =
      let here =
        run_at-created_self query_case_id pipeline_config_id running meta db
          (old.fresh db.next_run_id (omega arith)) in
      let rows = rows-created query_case_id pipeline_config_id running meta db db.next_run_id in
      let none_before : retrieval_of db.next_run_id db ≡ [] =
        List-nil (retrieval_of db.next_run_id db)
          (rw (old.fresh db.next_run_id (omega arith), IsTraced) at (old.at db.next_run_id)).0 in
      let count = retrieval_of-retrieved w db.next_run_id document_id running_with new_run [] in
      (
        (
          retrieved_run new_run w.retrieval_ms,
          run_at-retrieved w db.next_run_id document_id running_with new_run [] here,
          refl,
        ),
        retrieved-WellTraced w db.next_run_id document_id running_with new_run [] here
            (created-status query_case_id pipeline_config_id running meta db)
            (create_run-WellTraced query_case_id pipeline_config_id running meta db (inr refl) old),
        List-nil (retrieval_of db.next_run_id stuck_db)
            (omega (arith, count, ap length (rows.0 ∙ none_before))),
      )

module _ {F : Type 0} (w : World F) (query_case_id pipeline_config_id : ℕ) (document_id : Option ℕ)
    (db : Db F) where
  -- the database in which the search is made
  abbrev pub running_db : Db F
  running_db = running_with w query_case_id pipeline_config_id document_id none db

  abbrev first_run : Run
  first_run = new_run w query_case_id pipeline_config_id document_id none db

  abbrev stopped_db : Db F
  stopped_db = stuck_db w query_case_id pipeline_config_id document_id none db

  search-no_hits :
      (qc : QueryCase) (pc : PipelineConfig)
      → w.search_chunks running_db qc.query_text pc.top_k document_id ≡ ok []
      → search_and_store w document_id (first_run, qc, pc) running_db ≡ ok stopped_db
  unfolding search_and_store
  search-no_hits qc pc nothing =
      rw (nothing, search_and_store)
        (store-no_hits w query_case_id pipeline_config_id document_id none db)

  started :
      (qc : QueryCase) (pc : PipelineConfig)
      → query_case_at w query_case_id db ≡ ok qc
      → pipeline_config_at w pipeline_config_id db ≡ ok pc
      → start_run w query_case_id pipeline_config_id db ≡ ok ((first_run, qc, pc), running_db)
  unfolding start_run created
  started qc pc q p = ground arith

  outcome :
      (qc : QueryCase) (pc : PipelineConfig)
      → validate_run_create_prerequisites w query_case_id pipeline_config_id document_id false db
        ≡ ok tt
      → start_run w query_case_id pipeline_config_id db ≡ ok ((first_run, qc, pc), running_db)
      → search_and_store w document_id (first_run, qc, pc) running_db ≡ ok stopped_db
      → evaluate_heuristically w db.next_run_id stopped_db ≡ err value_error
      → create_and_execute_run_from_ids w query_case_id pipeline_config_id document_id db
        ≡ (err value_error, stopped_db)
  unfolding create_and_execute_run_from_ids execute_retrieval_benchmark_run then_commit commit
      created create_run
  outcome qc pc valid s h r =
      rw
        (
          valid, create_and_execute_run_from_ids, s, execute_retrieval_benchmark_run, h,
          then_commit, commit, r,
        )
        refl

  -- If the prerequisites hold, the query case and the pipeline configuration exist, the search finds
  -- nothing, and the database satisfies the invariant of the trace tables, then a heuristic run ends
  -- in a ValueError, the committed run stays at retrieval_completed, and the invariant holds.
  pub heuristic-no_hits :
      (qc : QueryCase) (pc : PipelineConfig)
      → validate_run_create_prerequisites w query_case_id pipeline_config_id document_id false db
        ≡ ok tt
      → query_case_at w query_case_id db ≡ ok qc
      → pipeline_config_at w pipeline_config_id db ≡ ok pc
      → w.search_chunks running_db qc.query_text pc.top_k document_id ≡ ok []
      → WellTraced db
      → (db' : Db F) × (create_and_execute_run_from_ids w query_case_id pipeline_config_id
            document_id db
          ≡ (err value_error, db'))
        × HasStatus db.next_run_id retrieval_completed db'
        × WellTraced db'
  heuristic-no_hits qc pc valid q p nothing old =
      let facts = stuck-facts w query_case_id pipeline_config_id document_id none db old in
      (
        stopped_db,
        outcome qc pc valid (started qc pc q p) (search-no_hits qc pc nothing)
            (evaluate-no_hits w db.next_run_id stopped_db facts.1 facts.2),
        facts.0,
        facts.1,
      )
