-- ===== src/Registry/Consistency.antt =====
-- Every call of the registry keeps the references between its tables.
pub mod Cases
pub mod Configs
use context_lens.Prelude.{
  ℕ, ◌+◌, ◌≡◌, ◌≢◌, ◌≤◌, refl, sym, ◌∙◌, Bool, true, false, ◌&&◌, not, Option, none, some, List, [],
  ◌∷◌, ◌++◌, arith, ◌==◌, Result, ok, err, value_error, lookup_error, conflict_error, require,
  ◌>>=◌, ◌>>◌, if◌then◌else◌, Option-cases, Bool-cases, Result-cases, inl, inr,
}
use context_lens.Prelude.Text.{Str}
use context_lens.Trace.Rows.{Db, Dataset, QueryCase, PipelineConfig, Run, RunMetadata, Status}
use context_lens.Trace.Store.{get_row, put_row, rows_of, delete_row, or_raise}
use context_lens.Trace.Write.{is_none, is_nil, create_run}
use context_lens.Run.World.{World}
use context_lens.Run.Pipeline.{validate_run_create_prerequisites}
use context_lens.Registry.{
  Field, DatasetPatch, QueryCasePatch, PipelineConfigPatch, validate_pipeline_row, patched_dataset,
  patched_query_case, patched_pipeline_config, dataset_at, case_at, config_at, create_dataset,
  save_dataset, update_dataset, delete_dataset, create_query_case, save_query_case, new_dataset_id,
  update_query_case, delete_query_case, create_pipeline_config, save_pipeline_config,
  update_pipeline_config, delete_pipeline_config,
}
use context_lens.Registry.References.{
  IsReferenced, append-IsReferenced, append_parent-IsReferenced, put-IsReferenced,
  put_parent-IsReferenced, delete-IsReferenced, delete_parent-IsReferenced,
}
use context_lens.Registry.Consistency.Cases.{
  created-dataset, updated-dataset, deleted-dataset, created-case, updated-case, deleted-case,
}
use context_lens.Registry.Consistency.Configs.{
  created-config, updated-config, deleted-config, created-run,
}
use context_lens.Registry.Steps.{
  AllAcceptable, Consistent, validate-IsAcceptable, acceptable-append, acceptable-put,
  acceptable-delete, Step, Reachable, begin, next, dataset_created, dataset_updated,
  dataset_deleted, case_created, case_updated, case_deleted, config_created, config_updated,
  config_deleted, run_created,
}

-- A call of the registry that succeeds, or the creation of a run whose prerequisites hold, leads from
-- a consistent database to another.
Step-Consistent : {F : Type 0} {db db' : Db F} → Step db db' → Consistent db → Consistent db'
Step-Consistent (dataset_created name description metadata_json db) old =
    created-dataset db old name description metadata_json
Step-Consistent (dataset_updated id p db) old = updated-dataset db old id p
Step-Consistent (dataset_deleted id deleted db db' h) old = deleted-dataset db old id deleted db' h
Step-Consistent (case_created d t a m row db db' h) old = created-case db old d t a m row db' h
Step-Consistent (case_updated id p row db db' h) old = updated-case db old id p row db' h
Step-Consistent (case_deleted id deleted db db' h) old = deleted-case db old id deleted db' h
Step-Consistent (config_created given row db db' h) old = created-config db old given row db' h
Step-Consistent (config_updated id p row db db' h) old = updated-config db old id p row db' h
Step-Consistent (config_deleted id deleted db db' h) old = deleted-config db old id deleted db' h
Step-Consistent (run_created w qc pc document_id full status meta db h) old =
    created-run db old w qc pc document_id full status meta h

-- Any sequence of successful calls of the registry, and of run creations whose prerequisites hold,
-- keeps the references: every query case has its dataset, every run its query case and its pipeline
-- configuration, and every pipeline configuration has an overlap within its size and a top_k from 1 on.
pub Reachable-Consistent :
    {F : Type 0} {start db : Db F} → Reachable start db → Consistent start → Consistent db
Reachable-Consistent begin old = old
Reachable-Consistent (next steps step) old = Step-Consistent step (Reachable-Consistent steps old)
