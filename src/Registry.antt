-- ===== src/Registry.antt =====
-- Datasets, query cases and pipeline configurations: dataset_write.py, dataset_delete.py,
-- query_case_write.py, query_case_delete.py, pipeline_config_write.py and pipeline_config_delete.py of
-- backend/app/services. `fields_set` is a flag with each value of a patch.
pub mod References
pub mod Steps
pub mod Consistency
use context_lens.Prelude.{
  ℕ, ◌+◌, Bool, true, false, ◌&&◌, Option, none, some, List, [], ◌∷◌, ◌++◌, Result, ok, err,
  value_error, lookup_error, conflict_error, other, ◌>>=◌, ◌>>◌, require, if◌then◌else◌, leb, ltb,
  not,
}
use context_lens.Prelude.Text.{Str}
use context_lens.Trace.Rows.{Db, Dataset, QueryCase, PipelineConfig, Run}
use context_lens.Trace.Store.{get_row, put_row, rows_of, delete_row, or_raise}
use context_lens.Trace.Write.{is_none, is_nil}

-- a key of a patch: whether it is in `fields_set`, and its value
pub record Field (A : Type 0) : Type 0 where
  pub present : Bool
  pub given : Option A

-- `if "x" in fs and x is not None: row.x = x`
unfoldable pub set_given : {A : Type 0} → Field A → A → A
set_given f old = if f.present then (elim f.given [ none ↦ old | some a ↦ a ]) else old

-- `if "x" in fs: row.x = x`
unfoldable pub set_optional : {A : Type 0} → Field A → Option A → Option A
set_optional f old = if f.present then f.given else old

pub record DatasetPatch : Type 0 where
  pub name : Field Str
  pub description : Field Str
  pub metadata_json : Field Str

pub record QueryCasePatch : Type 0 where
  pub dataset_id : Field ℕ
  pub query_text : Field Str
  pub expected_answer : Field Str
  pub metadata_json : Field Str

pub record PipelineConfigPatch : Type 0 where
  pub name : Field Str
  pub embedding_model : Field Str
  pub chunk_strategy : Field Str
  pub chunk_size : Field ℕ
  pub chunk_overlap : Field ℕ
  pub top_k : Field ℕ
  pub metadata_json : Field Str

-- `_validate_pipeline_row`; InvalidPipelineConfigError is a ValueError
unfoldable pub validate_pipeline_row : PipelineConfig → Result (Unit {0})
validate_pipeline_row row = do
  require (leb row.chunk_overlap row.chunk_size) value_error
  require (not (ltb row.top_k 1)) value_error

unfoldable pub patched_dataset : DatasetPatch → Dataset → Dataset
patched_dataset p row = record row {
  name = set_given p.name row.name;
  description = set_optional p.description row.description;
  metadata_json = set_optional p.metadata_json row.metadata_json;
}

unfoldable pub patched_query_case : QueryCasePatch → ℕ → QueryCase → QueryCase
patched_query_case p dataset_id row = record row {
  dataset_id = dataset_id;
  query_text = set_given p.query_text row.query_text;
  expected_answer = set_optional p.expected_answer row.expected_answer;
  metadata_json = set_optional p.metadata_json row.metadata_json;
}

unfoldable pub patched_pipeline_config : PipelineConfigPatch → PipelineConfig → PipelineConfig
patched_pipeline_config p row = record row {
  name = set_given p.name row.name;
  embedding_model = set_given p.embedding_model row.embedding_model;
  chunk_strategy = set_given p.chunk_strategy row.chunk_strategy;
  chunk_size = set_given p.chunk_size row.chunk_size;
  chunk_overlap = set_given p.chunk_overlap row.chunk_overlap;
  top_k = set_given p.top_k row.top_k;
  metadata_json = set_optional p.metadata_json row.metadata_json;
}

module _ {F : Type 0} where
  unfoldable pub dataset_at : ℕ → Db F → Option Dataset
  dataset_at id db = get_row (λ d. d.id) id db.datasets

  unfoldable pub case_at : ℕ → Db F → Option QueryCase
  case_at id db = get_row (λ q. q.id) id db.query_cases

  unfoldable pub config_at : ℕ → Db F → Option PipelineConfig
  config_at id db = get_row (λ p. p.id) id db.pipeline_configs

  unfoldable pub create_dataset : Str → Option Str → Option Str → Db F → Dataset × Db F
  create_dataset name description metadata_json db =
      let row : Dataset = record {
        id = db.next_dataset_id;
        name = name;
        description = description;
        metadata_json = metadata_json;
      } in
      (
        row,
        record db { datasets = db.datasets ++ row ∷ []; next_dataset_id = db.next_dataset_id + 1 },
      )

  unfoldable pub save_dataset : Dataset → Db F → Db F
  save_dataset row db = record db { datasets = put_row (λ d. d.id) row db.datasets }

  unfoldable pub update_dataset : ℕ → DatasetPatch → Db F → Option Dataset × Db F
  update_dataset id p db = elim (dataset_at id db) [
    | none ↦ (none, db)
    | some row ↦ (some (patched_dataset p row), save_dataset (patched_dataset p row) db)
  ]

  -- whether a row was deleted
  unfoldable pub delete_dataset : ℕ → Db F → Result (Bool × Db F)
  delete_dataset id db =
      if is_none (dataset_at id db)
      then ok (false, db)
      else if is_nil (rows_of (λ (q : QueryCase). q.dataset_id) id db.query_cases)
      then ok (true, record db { datasets = delete_row (λ d. d.id) id db.datasets })
      else err conflict_error

  unfoldable pub create_query_case :
      ℕ → Str → Option Str → Option Str → Db F → Result (QueryCase × Db F)
  create_query_case dataset_id query_text expected_answer metadata_json db = do
    parent ← or_raise (dataset_at dataset_id db) lookup_error
    let row : QueryCase = record {
      id = db.next_query_case_id;
      dataset_id = dataset_id;
      query_text = query_text;
      expected_answer = expected_answer;
      metadata_json = metadata_json;
    }
    ok (
      row,
      record db {
        query_cases = db.query_cases ++ row ∷ [];
        next_query_case_id = db.next_query_case_id + 1;
      },
    )

  unfoldable pub save_query_case : QueryCase → Db F → Db F
  save_query_case row db = record db { query_cases = put_row (λ q. q.id) row db.query_cases }

  -- the dataset of the patched row, looked up when the patch has one
  unfoldable pub new_dataset_id : Field ℕ → QueryCase → Db F → Result ℕ
  new_dataset_id f row db =
      if f.present
      then (do
        id ← or_raise f.given other
        parent ← or_raise (dataset_at id db) lookup_error
        ok id)
      else ok row.dataset_id

  unfoldable pub update_query_case : ℕ → QueryCasePatch → Db F → Result (Option QueryCase × Db F)
  update_query_case id p db = elim (case_at id db) [
    | none ↦ ok (none, db)
    | some row ↦ (do
      dataset_id ← new_dataset_id p.dataset_id row db
      let new = patched_query_case p dataset_id row
      ok (some new, save_query_case new db))
  ]

  unfoldable pub delete_query_case : ℕ → Db F → Result (Bool × Db F)
  delete_query_case id db =
      if is_none (case_at id db)
      then ok (false, db)
      else if is_nil (rows_of (λ (r : Run). r.query_case_id) id db.runs)
      then ok (true, record db { query_cases = delete_row (λ q. q.id) id db.query_cases })
      else err conflict_error

  -- the row's id is given by the database
  unfoldable pub create_pipeline_config : PipelineConfig → Db F → Result (PipelineConfig × Db F)
  create_pipeline_config given db = do
    let row : PipelineConfig = record given { id = db.next_pipeline_config_id }
    valid ← validate_pipeline_row row
    ok (
      row,
      record db {
        pipeline_configs = db.pipeline_configs ++ row ∷ [];
        next_pipeline_config_id = db.next_pipeline_config_id + 1;
      },
    )

  unfoldable pub save_pipeline_config : PipelineConfig → Db F → Db F
  save_pipeline_config row db = record db {
    pipeline_configs = put_row (λ p. p.id) row db.pipeline_configs;
  }

  unfoldable pub update_pipeline_config :
      ℕ → PipelineConfigPatch → Db F → Result (Option PipelineConfig × Db F)
  update_pipeline_config id p db = elim (config_at id db) [
    | none ↦ ok (none, db)
    | some row ↦ (do
      valid ← validate_pipeline_row (patched_pipeline_config p row)
      ok (
        some (patched_pipeline_config p row),
        save_pipeline_config (patched_pipeline_config p row) db,
      ))
  ]

  unfoldable pub delete_pipeline_config : ℕ → Db F → Result (Bool × Db F)
  delete_pipeline_config id db =
      if is_none (config_at id db)
      then ok (false, db)
      else if is_nil (rows_of (λ (r : Run). r.pipeline_config_id) id db.runs)
      then ok (true, record db { pipeline_configs = delete_row (λ p. p.id) id db.pipeline_configs })
      else err conflict_error
