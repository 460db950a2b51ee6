-- ===== src/Batch/Cell/NoHits.antt =====
-- A heuristic cell whose search finds nothing: backend/app/services/batch_runner.py.
use context_lens.Prelude.{
  ℕ, ◌≤◌, ◌<◌, ◌≡◌, refl, false, ◌&&◌, Option, none, some, List, [], ◌∷◌, ◌++◌, Exn, ok, err, ◌==◌,
  ltb, lt→ltb, arith, All, eq→==, Bool-cases, Option-cases, Result-cases, inl, inr,
}
use context_lens.Trace.Rows.{Db, Run, RunMetadata, QueryCase, PipelineConfig}
use context_lens.Trace.Store.{get_row}
use context_lens.Trace.Write.{run_at, retrieval_of, create_run}
use context_lens.Trace.Invariant.{WellTraced}
use context_lens.Evaluation.{Scores, compute_minimal_retrieval_evaluation}
use context_lens.Run.World.{World}
use context_lens.Run.Phases.{or_zero, query_case_at, pipeline_config_at, store_hits}
use context_lens.Run.Pipeline.{validate_run_create_prerequisites, heuristic_input}
use context_lens.Run.Pipeline.Heuristic.{
  created, persist-no_hits, running_with, new_run, stuck_db, store-no_hits, stuck-facts,
}
use context_lens.Batch.{BatchCell, Draws, Realism, perturb_search_chunk_hits, with_noise}
use context_lens.Batch.Cell.{
  cell_raised, run_metadata, is_some_realism, search_hits, evaluate_cell, finish_cell, search_cell,
  execute_heuristic_cell, newest_run, mark_failed_unless_held, newer, mark_newest_failed,
}

module _ {F : Type 0} (w : World F) (document_id : Option ℕ) (realism : Option (Realism F))
    (draws : Draws F) where
  evaluate-refused :
      (run_id : ℕ) (db : Db F)
      → WellTraced db
      → retrieval_of run_id db ≡ []
      → (e : Exn) × (evaluate_cell w document_id realism draws run_id db ≡ err e)
  unfolding evaluate_cell
  evaluate-refused run_id db old empty =
      elim (Result-cases (evaluate_cell w document_id realism draws run_id db)) [
        | inr (e, q) ↦ (e, q)
        | inl (db', q) ↦ elim (Option-cases (run_at run_id db)) [
          | inl gone ↦ absurd (ground arith)
          | inr (run, here) ↦
              elim (Result-cases (compute_minimal_retrieval_evaluation w.floats run_id db)) [
                | inr (x, c) ↦ absurd (ground arith)
                | inl (ev, c) ↦
                    let noisy : Scores F = elim realism [
                      | none ↦ ev
                      | some profile ↦ with_noise w.floats draws profile ev
                    ] in
                    absurd (
                      ground (
                        arith,
                        persist-no_hits w run_id db w.upper_beyond_ascii
                            (heuristic_input w (or_zero run.retrieval_latency_ms) noisy) old empty,
                      ))
              ]
        ]
      ]

  hits-none :
      (qc : QueryCase) (pc : PipelineConfig) (db : Db F)
      → w.search_chunks db qc.query_text pc.top_k document_id ≡ ok []
      → search_hits w document_id realism draws qc pc db ≡ ok []
  unfolding search_hits perturb_search_chunk_hits
  hits-none qc pc db nothing = elim (Option-cases realism) [
    | inl e ↦ rw (search_hits, nothing, e)
    | inr (profile, e) ↦ rw (search_hits, nothing, e)
  ]

  search_cell-raises :
      (run : Run) (qc : QueryCase) (pc : PipelineConfig) (committed stored : Db F)
      → w.search_chunks committed qc.query_text pc.top_k document_id ≡ ok []
      → store_hits w run [] committed ≡ ok stored
      → WellTraced stored
      → retrieval_of run.id stored ≡ []
      → search_cell w document_id realism draws run qc pc committed
        ≡ cell_raised committed (run.id ∷ [])
  unfolding search_cell finish_cell
  search_cell-raises run qc pc committed stored nothing held old empty =
      let (e, refused) = evaluate-refused run.id stored old empty in
      rw (search_cell, hits-none qc pc committed nothing, held, finish_cell, refused)

  -- the metadata of the cell's run
  abbrev pub cell_metadata : Option RunMetadata
  cell_metadata = some (run_metadata none (is_some_realism realism))

  module _ (cell : BatchCell) (db : Db F) where
    -- the committed database, with the run that the cell has created
    abbrev pub committed_db : Db F
    committed_db =
        running_with w cell.query_case_id cell.pipeline_config_id document_id cell_metadata db

    abbrev pub cell_run : Run
    cell_run = new_run w cell.query_case_id cell.pipeline_config_id document_id cell_metadata db

    run_id_lem : cell_run.id ≡ db.next_run_id
    unfolding created create_run
    run_id_lem = refl

    cell-raises :
        (qc : QueryCase) (pc : PipelineConfig)
        → validate_run_create_prerequisites w cell.query_case_id cell.pipeline_config_id document_id
            false db
          ≡ ok tt
        → query_case_at w cell.query_case_id db ≡ ok qc
        → pipeline_config_at w cell.pipeline_config_id db ≡ ok pc
        → search_cell w document_id realism draws cell_run qc pc committed_db
          ≡ cell_raised committed_db (cell_run.id ∷ [])
        → execute_heuristic_cell w document_id realism draws cell db
          ≡ cell_raised committed_db (cell_run.id ∷ [])
    unfolding execute_heuristic_cell created
    cell-raises qc pc valid q p raises = rw (execute_heuristic_cell, valid, q, p) raises

    -- The cell ends in an exception, and the open transaction of its session has updated its run.
    pub no_hits-raises :
        (qc : QueryCase) (pc : PipelineConfig)
        → validate_run_create_prerequisites w cell.query_case_id cell.pipeline_config_id document_id
            false db
          ≡ ok tt
        → query_case_at w cell.query_case_id db ≡ ok qc
        → pipeline_config_at w cell.pipeline_config_id db ≡ ok pc
        → w.search_chunks committed_db qc.query_text pc.top_k document_id ≡ ok []
        → WellTraced db
        → execute_heuristic_cell w document_id realism draws cell db
          ≡ cell_raised committed_db (cell_run.id ∷ [])
    no_hits-raises qc pc valid q p nothing old =
        let facts =
          stuck-facts w cell.query_case_id cell.pipeline_config_id document_id cell_metadata db
            old in
        cell-raises qc pc valid q p (
          search_cell-raises cell_run qc pc committed_db
            (stuck_db w cell.query_case_id cell.pipeline_config_id document_id cell_metadata db)
            nothing
            (store-no_hits w cell.query_case_id cell.pipeline_config_id document_id cell_metadata
              db)
            facts.1 (rw run_id_lem facts.2))

-- runs below an id
abbrev pub Below : ℕ → List Run → Type 0
Below n runs = All (λ (run : Run). run.id < n) runs

fresh-Below :
    (n : ℕ) (runs : List Run)
    → ((j : ℕ) → n ≤ j → get_row (λ (run : Run). run.id) j runs ≡ none)
    → Below n runs
unfolding get_row
fresh-Below n [] fresh = tt
fresh-Below n (run ∷ runs) fresh = elim (Bool-cases (ltb run.id n)) [
  | inl lower ↦ (ground arith, fresh-Below n runs (λ j le. later-none run runs j (fresh j le)))
  | inr higher ↦ absurd (here-none run runs (fresh run.id (ground arith)))
]
  where
    later-none :
        (run : Run) (runs : List Run) (j : ℕ)
        → get_row (λ (r : Run). r.id) j (run ∷ runs) ≡ none
        → get_row (λ (r : Run). r.id) j runs ≡ none
    later-none run runs j h = ground arith

    here-none :
        (run : Run) (runs : List Run) → get_row (λ (r : Run). r.id) run.id (run ∷ runs) ≡ none → ⊥
    here-none run runs h = ground arith

-- no run, or one below an id
abbrev OptBelow : ℕ → Option Run → Type 0
OptBelow n none = Unit
OptBelow n (some run) = run.id < n

newer-OptBelow :
    (n : ℕ) (run : Run) (best : Option Run)
    → run.id < n
    → OptBelow n best
    → OptBelow n (newer run best)
unfolding newer
newer-OptBelow n run none lt below = lt
newer-OptBelow n run (some b) lt below = elim (Bool-cases (ltb b.id run.id)) [
  | inl e ↦ rw e lt
  | inr e ↦ rw e below
]

newer-higher : (run : Run) (best : Option Run) → OptBelow run.id best → newer run best ≡ some run
unfolding newer
newer-higher run none below = refl
newer-higher run (some b) below = rw (lt→ltb b.id run.id below)

-- The last run, of a higher id than all others, is the newest one of its query case and
-- configuration.
newest-last :
    (run : Run) (runs : List Run) (best : Option Run)
    → Below run.id runs
    → OptBelow run.id best
    → newest_run run.query_case_id run.pipeline_config_id (runs ++ run ∷ []) best ≡ some run
unfolding newest_run
newest-last run [] best below now =
    rw
      (
        eq→== run.query_case_id run.query_case_id refl,
        eq→== run.pipeline_config_id run.pipeline_config_id refl,
      )
      (newer-higher run best now)
newest-last run (r ∷ runs) best (this, below) now =
    elim (Bool-cases
      (r.query_case_id == run.query_case_id && r.pipeline_config_id == run.pipeline_config_id)) [
        | inl e ↦
            rw (newest_run, e)
              (newest-last run runs (newer r best) below (newer-OptBelow run.id r best this now))
        | inr e ↦ rw (newest_run, e) (newest-last run runs best below now)
      ]

module _ {F : Type 0} (w : World F) (document_id : Option ℕ) (realism : Option (Realism F))
    (draws : Draws F) (cell : BatchCell) (db : Db F) where
  -- The second session waits for the run that the first one has updated.
  pub mark-waits :
      WellTraced db
      → mark_newest_failed cell
          ((cell_run w document_id realism draws cell db).id ∷ [])
          (committed_db w document_id realism draws cell db)
        ≡ none
  unfolding mark_newest_failed mark_failed_unless_held created create_run run_at
  mark-waits old =
      let run = cell_run w document_id realism draws cell db in
      let below = fresh-Below db.next_run_id db.runs (λ j le. old.fresh j le) in
      rw (mark_newest_failed, newest-last run db.runs none below tt)
        (rw (eq→== db.next_run_id db.next_run_id refl))
