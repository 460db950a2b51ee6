-- ===== src/Run/Phases/Retrieval.antt =====
-- The retrieval phase: what it stores, and that it keeps the invariant.
use context_lens.Prelude.{
  ℕ, ◌≡◌, refl, ap, ◌∙◌, Option, some, List, [], ◌∷◌, ◌++◌, arith, length, All, ◌+◌, suc, >>=-eq-ok,
  ok, value_error,
}
use context_lens.Trace.Rows.{
  Db, Run, RetrievalResult, QueryCase, PipelineConfig, running, retrieval_completed,
}
use context_lens.Trace.Store.{or_raise}
use context_lens.Trace.Store.Laws.{rows_of-append, rows_of-All}
use context_lens.Trace.Write.{
  run_at, retrieval_of, generation_of, evaluation_of, save_run, add_retrieval, retrieval_rows,
  store_retrieval_results,
}
use context_lens.Trace.Write.Laws.{run_at-save_run_self, id-run_at, retrieval_of-add_rows_self}
use context_lens.Trace.Invariant.{
  IsTraced, WellTraced, Frame, Frame-WellTraced, Frame-trans, Frame-save_run, Frame-add_retrieval,
}
use context_lens.Run.World.{World}
use context_lens.Run.Phases.{
  ranked, retrieved_run, store_hits, query_case_at, pipeline_config_at,
  execute_retrieval_for_existing_run,
}

pub length-ranked :
    {F : Type 0} (k : ℕ) (hits : List (ℕ × F)) → length (ranked k hits) ≡ length hits
unfolding ranked
length-ranked k [] = refl
length-ranked k ((c, s) ∷ hits) = ap suc (length-ranked (suc k) hits)

-- The rows are of the run and stand for the hits, in their order, with ranks from `k` on.
abbrev pub IsRanked : {F : Type 0} → ℕ → ℕ → List (ℕ × F) → List (RetrievalResult F) → Type 0
IsRanked run_id k [] [] = Unit
IsRanked run_id k [] (row ∷ rows) = ⊥
IsRanked run_id k (hit ∷ hits) [] = ⊥
IsRanked run_id k ((chunk_id, score) ∷ hits) (row ∷ rows) =
    (row.run_id ≡ run_id)
    × (row.chunk_id ≡ chunk_id)
    × (row.rank ≡ k)
    × (row.score ≡ score)
    × IsRanked run_id (suc k) hits rows

rows-IsRanked :
    {F : Type 0} (run_id k : ℕ) (hits : List (ℕ × F))
    → IsRanked run_id k hits (retrieval_rows run_id (ranked k hits))
unfolding retrieval_rows ranked
rows-IsRanked run_id k [] = tt
rows-IsRanked run_id k ((c, s) ∷ hits) = (refl, refl, refl, refl, rows-IsRanked run_id (suc k) hits)

rows_own :
    {F : Type 0} (run_id k : ℕ) (hits : List (ℕ × F))
    → All (λ (row : RetrievalResult F). row.run_id ≡ run_id) (retrieval_rows run_id (ranked k hits))
unfolding retrieval_rows ranked
rows_own run_id k [] = tt
rows_own run_id k ((c, s) ∷ hits) = (refl, rows_own run_id (suc k) hits)

module _ {F : Type 0} (w : World F) (run_id : ℕ) (document_id : Option ℕ) (db : Db F) where
  unfoldable pub retrieved : Run → List (ℕ × F) → Db F
  retrieved run hits =
      save_run (retrieved_run run w.retrieval_ms)
        (add_retrieval (retrieval_rows run_id (ranked 1 hits)) db)

  store_hits_sound :
      (run : Run) (hits : List (ℕ × F)) {db' : Db F}
      → run_at run_id db ≡ some run
      → store_hits w run hits db ≡ ok db'
      → db' ≡ retrieved run hits
  unfolding store_hits store_retrieval_results retrieved
  store_hits_sound run hits here h = ground (arith, id-run_at db run_id run here)

  -- If the retrieval phase succeeds, the run was there, and the new database is the old one with a
  -- row for each hit of the search, ranked from 1, and the run marked retrieval_completed.
  pub retrieval_sound :
      {db' : Db F}
      → execute_retrieval_for_existing_run w run_id document_id db ≡ ok db'
      → (run : Run) × (hits : List (ℕ × F)) × (run_at run_id db ≡ some run)
        × (db' ≡ retrieved run hits)
  unfolding execute_retrieval_for_existing_run
  retrieval_sound h =
      let (run, found, h) = >>=-eq-ok (or_raise (run_at run_id db) value_error) _ h in
      let (qc, _, h) = >>=-eq-ok (query_case_at w run.query_case_id db) _ h in
      let (pc, _, h) = >>=-eq-ok (pipeline_config_at w run.pipeline_config_id db) _ h in
      let (hits, _, h) = >>=-eq-ok (w.search_chunks db qc.query_text pc.top_k document_id) _ h in
      let here : run_at run_id db ≡ some run = ground arith in
      (run, hits, here, store_hits_sound run hits here h)

  retrieved-rows :
      (run : Run) (hits : List (ℕ × F))
      → retrieval_of run_id (retrieved run hits)
        ≡ retrieval_of run_id db ++ retrieval_rows run_id (ranked 1 hits)
  unfolding retrieved retrieval_of save_run add_retrieval
  retrieved-rows run hits =
      let new = retrieval_rows run_id (ranked 1 hits) in
      rows_of-append (λ (row : RetrievalResult F). row.run_id) run_id db.retrieval_results new
      ∙ ap (λ (l : List (RetrievalResult F)). retrieval_of run_id db ++ l)
          (rows_of-All (λ (row : RetrievalResult F). row.run_id) run_id new
            (rows_own run_id 1 hits))

  retrieved-Frame :
      (run : Run) (hits : List (ℕ × F))
      → run_at run_id db ≡ some run
      → Frame run_id db (retrieved run hits)
  unfolding retrieved retrieved_run
  retrieved-Frame run hits here =
      let rows = ranked 1 hits in
      Frame-trans run_id (Frame-add_retrieval db run_id rows) (
        Frame-save_run (add_retrieval (retrieval_rows run_id rows) db)
          (retrieved_run run w.retrieval_ms) run_id (id-run_at db run_id run here))

  pub run_at-retrieved :
      (run : Run) (hits : List (ℕ × F))
      → run_at run_id db ≡ some run
      → run_at run_id (retrieved run hits) ≡ some (retrieved_run run w.retrieval_ms)
  unfolding retrieved retrieved_run run_at add_retrieval
  run_at-retrieved run hits here =
      run_at-save_run_self (add_retrieval (retrieval_rows run_id (ranked 1 hits)) db) run
        (retrieved_run run w.retrieval_ms) run_id here refl

  -- If the retrieval phase succeeds, the run, its query case and its configuration are there; the
  -- search for the query text with the configuration's top_k and the given document found hits; the
  -- run has, behind its earlier retrieval rows, one row for each hit, in their order and ranked from 1,
  -- and is marked retrieval_completed with the time of the search.
  pub retrieval_stores :
      {db' : Db F}
      → execute_retrieval_for_existing_run w run_id document_id db ≡ ok db'
      → (run : Run) × (qc : QueryCase) × (pc : PipelineConfig) × (hits : List (ℕ × F))
        × (rows : List (RetrievalResult F)) × (run_at run_id db ≡ some run)
        × (query_case_at w run.query_case_id db ≡ ok qc)
        × (pipeline_config_at w run.pipeline_config_id db ≡ ok pc)
        × (w.search_chunks db qc.query_text pc.top_k document_id ≡ ok hits)
        × (retrieval_of run_id db' ≡ retrieval_of run_id db ++ rows)
        × IsRanked run_id 1 hits rows
        × (run_at run_id db'
            ≡ some (record run {
              retrieval_latency_ms = some w.retrieval_ms;
              status = retrieval_completed;
            }))
  unfolding execute_retrieval_for_existing_run retrieved_run
  retrieval_stores h =
      let (run, found, h) = >>=-eq-ok (or_raise (run_at run_id db) value_error) _ h in
      let (qc, case_found, h) = >>=-eq-ok (query_case_at w run.query_case_id db) _ h in
      let (pc, config_found, h) = >>=-eq-ok (pipeline_config_at w run.pipeline_config_id db) _ h in
      let (hits, searched, h) =
        >>=-eq-ok (w.search_chunks db qc.query_text pc.top_k document_id) _ h in
      let here : run_at run_id db ≡ some run = ground arith in
      rw (store_hits_sound run hits here h) (
        run,
        qc,
        pc,
        hits,
        retrieval_rows run_id (ranked 1 hits),
        here,
        case_found,
        config_found,
        searched,
        retrieved-rows run hits,
        rows-IsRanked run_id 1 hits,
        run_at-retrieved run hits here,
      )

  pub retrieval_of-retrieved :
      (run : Run) (hits : List (ℕ × F))
      → length (retrieval_of run_id (retrieved run hits))
        ≡ length (retrieval_of run_id db) + length hits
  unfolding retrieved retrieval_of save_run
  retrieval_of-retrieved run hits =
      retrieval_of-add_rows_self db run_id (ranked 1 hits) ∙ omega (arith, length-ranked 1 hits)

  pub generation_of-retrieved :
      (run : Run) (hits : List (ℕ × F))
      → generation_of run_id (retrieved run hits) ≡ generation_of run_id db
  unfolding retrieved generation_of save_run add_retrieval
  generation_of-retrieved run hits = refl

  pub evaluation_of-retrieved :
      (run : Run) (hits : List (ℕ × F))
      → evaluation_of run_id (retrieved run hits) ≡ evaluation_of run_id db
  unfolding retrieved evaluation_of save_run add_retrieval
  evaluation_of-retrieved run hits = refl

  -- Storing the hits of a search for a run that is running keeps the invariant of the trace tables,
  -- whatever the hits are.
  pub retrieved-WellTraced :
      (run : Run) (hits : List (ℕ × F))
      → run_at run_id db ≡ some run
      → run.status ≡ running
      → WellTraced db
      → WellTraced (retrieved run hits)
  retrieved-WellTraced run hits here status old =
      let was : IsTraced (some run) (length (retrieval_of run_id db))
          (length (generation_of run_id db)) (length (evaluation_of run_id db)) =
        rw here at (old.at run_id) in
      Frame-WellTraced run_id run here (retrieved-Frame run hits here)
        (rw
          (
            IsTraced,
            run_at-retrieved run hits here,
            generation_of-retrieved run hits,
            evaluation_of-retrieved run hits,
          )
          (unfold retrieved_run in ground arith))
        old
