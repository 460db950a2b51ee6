-- ===== src/Registry/Consistency/Configs.antt =====
-- The calls on pipeline configurations, and the creation of runs, keep the references.
use context_lens.Prelude.{
  ℕ, ◌+◌, ◌≡◌, refl, Bool, Option, List, [], ◌∷◌, ◌++◌, arith, ok, Option-cases, Bool-cases,
  Result-cases, inl, inr,
}
use context_lens.Trace.Rows.{Db, QueryCase, PipelineConfig, Run, RunMetadata, Status}
use context_lens.Trace.Store.{get_row, put_row, rows_of, delete_row}
use context_lens.Trace.Write.{is_none, is_nil, create_run}
use context_lens.Run.World.{World}
use context_lens.Run.Pipeline.{validate_run_create_prerequisites}
use context_lens.Registry.{
  PipelineConfigPatch, validate_pipeline_row, patched_pipeline_config, config_at,
  create_pipeline_config, save_pipeline_config, update_pipeline_config, delete_pipeline_config,
}
use context_lens.Registry.References.{
  IsReferenced, append-IsReferenced, append_parent-IsReferenced, put_parent-IsReferenced,
  delete_parent-IsReferenced,
}
use context_lens.Registry.Steps.{
  AllAcceptable, Consistent, validate-IsAcceptable, acceptable-append, acceptable-put,
  acceptable-delete,
}

module _ {F : Type 0} (db : Db F) (old : Consistent db) where
  -- the pipeline configurations are replaced by others that keep the references
  with_configs :
      (configs : List PipelineConfig) (later : ℕ)
      → IsReferenced
          (λ (r : Run). r.id)
          (λ r. r.pipeline_config_id)
          (λ (p : PipelineConfig). p.id)
          db.runs
          configs
      → AllAcceptable configs
      → Consistent (record db { pipeline_configs = configs; next_pipeline_config_id = later })
  with_configs configs later refs valid = record {
    cases = old.cases;
    run_cases = old.run_cases;
    run_configs = refs;
    configs = valid;
  }

  pub created-config :
      (given row : PipelineConfig) (db' : Db F)
      → create_pipeline_config given db ≡ ok (row, db')
      → Consistent db'
  unfolding create_pipeline_config
  created-config given row db' h =
      let new : PipelineConfig = record given { id = db.next_pipeline_config_id } in
      elim (Result-cases (validate_pipeline_row new)) [
        | inr (x, e) ↦ absurd (ground arith)
        | inl (tt, e) ↦
            let same : db' ≡ record db {
              pipeline_configs = db.pipeline_configs ++ new ∷ [];
              next_pipeline_config_id = db.next_pipeline_config_id + 1;
            } =
              ground arith in
            rw same (
              with_configs (db.pipeline_configs ++ new ∷ []) _
                (append_parent-IsReferenced (λ (r : Run). r.id) (λ r. r.pipeline_config_id)
                  (λ (p : PipelineConfig). p.id) db.runs db.pipeline_configs new old.run_configs)
                (acceptable-append db.pipeline_configs new (validate-IsAcceptable new e)
                  old.configs))
      ]

  pub updated-config :
      (id : ℕ) (p : PipelineConfigPatch) (row : Option PipelineConfig) (db' : Db F)
      → update_pipeline_config id p db ≡ ok (row, db')
      → Consistent db'
  unfolding update_pipeline_config save_pipeline_config
  updated-config id p row db' h = elim (Option-cases (config_at id db)) [
    | inl e ↦ let same : db' ≡ db = ground arith in rw same old
    | inr (q, e) ↦
        let new = patched_pipeline_config p q in
        elim (Result-cases (validate_pipeline_row new)) [
          | inr (x, v) ↦ absurd (ground arith)
          | inl (tt, v) ↦
              let same : db' ≡ record db {
                pipeline_configs = put_row (λ (p : PipelineConfig). p.id) new db.pipeline_configs;
              } =
                ground arith in
              rw same (
                with_configs (put_row (λ (p : PipelineConfig). p.id) new db.pipeline_configs) _
                  (put_parent-IsReferenced (λ (r : Run). r.id) (λ r. r.pipeline_config_id)
                    (λ (p : PipelineConfig). p.id) db.runs db.pipeline_configs new old.run_configs)
                  (acceptable-put db.pipeline_configs new (validate-IsAcceptable new v)
                    old.configs))
        ]
  ]

  pub deleted-config :
      (id : ℕ) (deleted : Bool) (db' : Db F)
      → delete_pipeline_config id db ≡ ok (deleted, db')
      → Consistent db'
  unfolding delete_pipeline_config
  deleted-config id deleted db' h = elim (Bool-cases (is_none (config_at id db))) [
    | inl e ↦ let same : db' ≡ db = ground arith in rw same old
    | inr e ↦ elim (Bool-cases (is_nil (rows_of (λ (r : Run). r.pipeline_config_id) id db.runs))) [
      | inr used ↦ absurd (ground arith)
      | inl unused ↦
          let same : db' ≡ record db {
            pipeline_configs = delete_row (λ (p : PipelineConfig). p.id) id db.pipeline_configs;
          } =
            ground arith in
          rw same (
            with_configs (delete_row (λ (p : PipelineConfig). p.id) id db.pipeline_configs) _
              (delete_parent-IsReferenced (λ (r : Run). r.id) (λ r. r.pipeline_config_id)
                (λ (p : PipelineConfig). p.id) db.runs db.pipeline_configs id unused
                old.run_configs)
              (acceptable-delete db.pipeline_configs id old.configs))
    ]
  ]

  pub created-run :
      (w : World F) (qc pc : ℕ) (document_id : Option ℕ) (full : Bool) (status : Status)
      (meta : Option RunMetadata)
      → validate_run_create_prerequisites w qc pc document_id full db ≡ ok tt
      → Consistent ((create_run qc pc status meta db).1)
  unfolding create_run validate_run_create_prerequisites
  created-run w qc pc document_id full status meta h =
      elim (Option-cases (get_row (λ (q : QueryCase). q.id) qc db.query_cases)) [
        | inl e ↦ absurd (ground arith)
        | inr (q, e) ↦
            elim (Option-cases (get_row (λ (p : PipelineConfig). p.id) pc db.pipeline_configs)) [
              | inl f ↦ absurd (ground arith)
              | inr (p, f) ↦ record {
                cases = old.cases;
                run_cases =
                    append-IsReferenced (λ (r : Run). r.id) (λ r. r.query_case_id)
                      (λ (q : QueryCase). q.id) db.runs db.query_cases _ (rw e refl) old.run_cases;
                run_configs =
                    append-IsReferenced (λ (r : Run). r.id) (λ r. r.pipeline_config_id)
                      (λ (p : PipelineConfig). p.id) db.runs db.pipeline_configs _ (rw f refl)
                      old.run_configs;
                configs = old.configs;
              }
            ]
      ]
