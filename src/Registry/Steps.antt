-- ===== src/Registry/Steps.antt =====
-- The registry's operations as steps of the database, and the references that they keep.
use context_lens.Prelude.{
  ℕ, ◌≡◌, ◌≤◌, sym, ◌∙◌, Bool, Option, some, List, [], ◌∷◌, ◌++◌, arith, ◌==◌, ok, Option-cases,
  Bool-cases, inl, inr,
}
use context_lens.Prelude.Text.{Str}
use context_lens.Trace.Rows.{Db, Dataset, QueryCase, PipelineConfig, Run, RunMetadata, Status}
use context_lens.Trace.Store.{get_row, put_row, delete_row}
use context_lens.Trace.Store.Laws.{get-put, get-append, get-append_some, get-delete}
use context_lens.Trace.Write.{create_run}
use context_lens.Run.World.{World}
use context_lens.Run.Pipeline.{validate_run_create_prerequisites}
use context_lens.Registry.{
  DatasetPatch, QueryCasePatch, PipelineConfigPatch, validate_pipeline_row, create_dataset,
  update_dataset, delete_dataset, create_query_case, update_query_case, delete_query_case,
  create_pipeline_config, update_pipeline_config, delete_pipeline_config,
}
use context_lens.Registry.References.{IsReferenced}

-- `_validate_pipeline_row` accepts the row
abbrev pub IsAcceptable : PipelineConfig → Type 0
IsAcceptable row = (row.chunk_overlap ≤ row.chunk_size) × (1 ≤ row.top_k)

pub validate-IsAcceptable :
    (row : PipelineConfig) → validate_pipeline_row row ≡ ok tt → IsAcceptable row
unfolding validate_pipeline_row
validate-IsAcceptable row h = ground arith

unfoldable pub AllAcceptable : List PipelineConfig → Type 0
AllAcceptable ps =
    (id : ℕ) (p : PipelineConfig) → get_row (λ p. p.id) id ps ≡ some p → IsAcceptable p

pub acceptable-append :
    (ps : List PipelineConfig) (new : PipelineConfig)
    → IsAcceptable new
    → AllAcceptable ps
    → AllAcceptable (ps ++ new ∷ [])
unfolding AllAcceptable
acceptable-append ps new ok_ old id p h =
    elim (Option-cases (get_row (λ (p : PipelineConfig). p.id) id ps)) [
      | inr (z, e) ↦ old id p (e ∙ sym (get-append_some (λ p. p.id) id ps new z e) ∙ h)
      | inl e ↦ ground (arith, get-append (λ (p : PipelineConfig). p.id) id ps new e)
    ]

pub acceptable-put :
    (ps : List PipelineConfig) (new : PipelineConfig)
    → IsAcceptable new
    → AllAcceptable ps
    → AllAcceptable (put_row (λ p. p.id) new ps)
unfolding AllAcceptable
acceptable-put ps new ok_ old id p h = elim (Bool-cases (new.id == id)) [
  | inr c ↦ old id p (ground (arith, get-put (λ (p : PipelineConfig). p.id) new id ps))
  | inl c ↦ elim (Option-cases (get_row (λ (p : PipelineConfig). p.id) id ps)) [
    | inl e ↦ absurd (ground (arith, get-put (λ (p : PipelineConfig). p.id) new id ps))
    | inr (z, e) ↦ ground (arith, get-put (λ (p : PipelineConfig). p.id) new id ps)
  ]
]

pub acceptable-delete :
    (ps : List PipelineConfig) (gone : ℕ)
    → AllAcceptable ps
    → AllAcceptable (delete_row (λ p. p.id) gone ps)
unfolding AllAcceptable
acceptable-delete ps gone old id p h =
    old id p (ground (arith, get-delete (λ (p : PipelineConfig). p.id) gone id ps))

module _ {F : Type 0} where
  -- every query case has its dataset, every run its query case and its pipeline configuration, and
  -- every pipeline configuration satisfies the checks
  pub record Consistent (db : Db F) : Type 0 where
    pub cases :
        IsReferenced
          (λ (q : QueryCase). q.id)
          (λ q. q.dataset_id)
          (λ (d : Dataset). d.id)
          db.query_cases
          db.datasets
    pub run_cases :
        IsReferenced
          (λ (r : Run). r.id)
          (λ r. r.query_case_id)
          (λ (q : QueryCase). q.id)
          db.runs
          db.query_cases
    pub run_configs :
        IsReferenced
          (λ (r : Run). r.id)
          (λ r. r.pipeline_config_id)
          (λ (p : PipelineConfig). p.id)
          db.runs
          db.pipeline_configs
    pub configs : AllAcceptable db.pipeline_configs

  -- one call of the registry, or the creation of a run whose prerequisites hold
  pub data Step : Db F → Db F → Type 0 where
    dataset_created :
        (name : Str) (description metadata_json : Option Str) (db : Db F)
        → Step db ((create_dataset name description metadata_json db).1)
    dataset_updated : (id : ℕ) (p : DatasetPatch) (db : Db F) → Step db ((update_dataset id p db).1)
    dataset_deleted :
        (id : ℕ) (deleted : Bool) (db db' : Db F)
        → delete_dataset id db ≡ ok (deleted, db')
        → Step db db'
    case_created :
        (dataset_id : ℕ) (text : Str) (answer metadata_json : Option Str) (row : QueryCase)
        (db db' : Db F)
        → create_query_case dataset_id text answer metadata_json db ≡ ok (row, db')
        → Step db db'
    case_updated :
        (id : ℕ) (p : QueryCasePatch) (row : Option QueryCase) (db db' : Db F)
        → update_query_case id p db ≡ ok (row, db')
        → Step db db'
    case_deleted :
        (id : ℕ) (deleted : Bool) (db db' : Db F)
        → delete_query_case id db ≡ ok (deleted, db')
        → Step db db'
    config_created :
        (given row : PipelineConfig) (db db' : Db F)
        → create_pipeline_config given db ≡ ok (row, db')
        → Step db db'
    config_updated :
        (id : ℕ) (p : PipelineConfigPatch) (row : Option PipelineConfig) (db db' : Db F)
        → update_pipeline_config id p db ≡ ok (row, db')
        → Step db db'
    config_deleted :
        (id : ℕ) (deleted : Bool) (db db' : Db F)
        → delete_pipeline_config id db ≡ ok (deleted, db')
        → Step db db'
    run_created :
        (w : World F) (qc pc : ℕ) (document_id : Option ℕ) (full : Bool) (status : Status)
        (meta : Option RunMetadata) (db : Db F)
        → validate_run_create_prerequisites w qc pc document_id full db ≡ ok tt
        → Step db ((create_run qc pc status meta db).1)

  -- the databases that calls lead to
  pub data Reachable (start : Db F) : Db F → Type 0 where
    begin : Reachable start start
    next : {db db' : Db F} → Reachable start db → Step db db' → Reachable start db'
