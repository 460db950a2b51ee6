-- ===== src/Registry/Consistency/Cases.antt =====
-- The calls on datasets and query cases keep the references.
use context_lens.Prelude.{
  ℕ, ◌+◌, ◌≡◌, Bool, true, false, Option, some, [], ◌∷◌, ◌++◌, arith, ok, Option-cases, Bool-cases,
  Result-cases, inl, inr,
}
use context_lens.Prelude.Text.{Str}
use context_lens.Trace.Rows.{Db, Dataset, QueryCase, Run}
use context_lens.Trace.Store.{get_row, rows_of, delete_row}
use context_lens.Trace.Write.{is_none, is_nil}
use context_lens.Registry.{
  Field, DatasetPatch, QueryCasePatch, patched_dataset, patched_query_case, dataset_at, case_at,
  create_dataset, save_dataset, update_dataset, delete_dataset, create_query_case, save_query_case,
  new_dataset_id, update_query_case, delete_query_case,
}
use context_lens.Registry.References.{
  append-IsReferenced, append_parent-IsReferenced, put-IsReferenced, put_parent-IsReferenced,
  delete-IsReferenced, delete_parent-IsReferenced,
}
use context_lens.Registry.Steps.{Consistent}

module _ {F : Type 0} (db : Db F) (old : Consistent db) where
  pub created-dataset :
      (name : Str) (description metadata_json : Option Str)
      → Consistent ((create_dataset name description metadata_json db).1)
  unfolding create_dataset
  created-dataset name description metadata_json = record {
    cases =
        append_parent-IsReferenced (λ (q : QueryCase). q.id) (λ q. q.dataset_id)
          (λ (d : Dataset). d.id) db.query_cases db.datasets _ old.cases;
    run_cases = old.run_cases;
    run_configs = old.run_configs;
    configs = old.configs;
  }

  pub updated-dataset : (id : ℕ) (p : DatasetPatch) → Consistent ((update_dataset id p db).1)
  unfolding update_dataset save_dataset
  updated-dataset id p = elim (Option-cases (dataset_at id db)) [
    | inl e ↦ rw (e, update_dataset) old
    | inr (row, e) ↦
        rw (e, update_dataset)
          (record {
            cases =
                put_parent-IsReferenced (λ (q : QueryCase). q.id) (λ q. q.dataset_id)
                  (λ (d : Dataset). d.id) db.query_cases db.datasets (patched_dataset p row)
                  old.cases;
            run_cases = old.run_cases;
            run_configs = old.run_configs;
            configs = old.configs;
          })
  ]

  without_dataset :
      (id : ℕ)
      → is_nil (rows_of (λ (q : QueryCase). q.dataset_id) id db.query_cases) ≡ true
      → Consistent (record db { datasets = delete_row (λ (d : Dataset). d.id) id db.datasets })
  without_dataset id unused = record {
    cases =
        delete_parent-IsReferenced (λ (q : QueryCase). q.id) (λ q. q.dataset_id)
          (λ (d : Dataset). d.id) db.query_cases db.datasets id unused old.cases;
    run_cases = old.run_cases;
    run_configs = old.run_configs;
    configs = old.configs;
  }

  pub deleted-dataset :
      (id : ℕ) (deleted : Bool) (db' : Db F)
      → delete_dataset id db ≡ ok (deleted, db')
      → Consistent db'
  unfolding delete_dataset
  deleted-dataset id deleted db' h = elim (Bool-cases (is_none (dataset_at id db))) [
    | inl e ↦ let same : db' ≡ db = ground arith in rw same old
    | inr e ↦
        elim (Bool-cases (is_nil (rows_of (λ (q : QueryCase). q.dataset_id) id db.query_cases))) [
          | inr used ↦ absurd (ground arith)
          | inl unused ↦
              let same : db'
                  ≡ record db { datasets = delete_row (λ (d : Dataset). d.id) id db.datasets } =
                ground arith in
              rw same (without_dataset id unused)
        ]
  ]

  with_case :
      (row : QueryCase) (later : ℕ)
      → is_none (dataset_at row.dataset_id db) ≡ false
      → Consistent
          (record db { query_cases = db.query_cases ++ row ∷ []; next_query_case_id = later })
  unfolding dataset_at
  with_case row later there = record {
    cases =
        append-IsReferenced (λ (q : QueryCase). q.id) (λ q. q.dataset_id) (λ (d : Dataset). d.id)
          db.query_cases db.datasets row there old.cases;
    run_cases =
        append_parent-IsReferenced (λ (r : Run). r.id) (λ r. r.query_case_id)
          (λ (q : QueryCase). q.id) db.runs db.query_cases row old.run_cases;
    run_configs = old.run_configs;
    configs = old.configs;
  }

  pub created-case :
      (dataset_id : ℕ) (text : Str) (answer metadata_json : Option Str) (row : QueryCase)
      (db' : Db F)
      → create_query_case dataset_id text answer metadata_json db ≡ ok (row, db')
      → Consistent db'
  unfolding create_query_case
  created-case dataset_id text answer metadata_json row db' h =
      elim (Option-cases (dataset_at dataset_id db)) [
        | inl e ↦ absurd (ground arith)
        | inr (parent, e) ↦
            let same : db' ≡ record db {
              query_cases = db.query_cases ++ row ∷ [];
              next_query_case_id = db.next_query_case_id + 1;
            } =
              ground arith in
            rw same (with_case row _ (ground arith))
      ]

  saved-case :
      (row : QueryCase)
      → is_none (dataset_at row.dataset_id db) ≡ false
      → Consistent (save_query_case row db)
  unfolding dataset_at save_query_case
  saved-case row there = record {
    cases =
        put-IsReferenced (λ (q : QueryCase). q.id) (λ q. q.dataset_id) (λ (d : Dataset). d.id)
          db.query_cases db.datasets row there old.cases;
    run_cases =
        put_parent-IsReferenced (λ (r : Run). r.id) (λ r. r.query_case_id) (λ (q : QueryCase). q.id)
          db.runs db.query_cases row old.run_cases;
    run_configs = old.run_configs;
    configs = old.configs;
  }

  new-dataset :
      (f : Field ℕ) (id : ℕ) (row : QueryCase) (dataset_id : ℕ)
      → case_at id db ≡ some row
      → new_dataset_id f row db ≡ ok dataset_id
      → is_none (dataset_at dataset_id db) ≡ false
  unfolding new_dataset_id case_at dataset_at
  new-dataset f id row dataset_id here h =
      let was = old.cases id row here in
      elim (Bool-cases f.present) [
        | inr c ↦ ground arith
        | inl c ↦ elim (Option-cases f.given) [
          | inl g ↦ absurd (ground arith)
          | inr (given, g) ↦
              elim (Option-cases (get_row (λ (d : Dataset). d.id) given db.datasets)) [
                | inl e ↦ absurd (ground arith)
                | inr (parent, e) ↦ ground arith
              ]
        ]
      ]

  pub updated-case :
      (id : ℕ) (p : QueryCasePatch) (row : Option QueryCase) (db' : Db F)
      → update_query_case id p db ≡ ok (row, db')
      → Consistent db'
  unfolding update_query_case patched_query_case
  updated-case id p row db' h = elim (Option-cases (case_at id db)) [
    | inl e ↦ let same : db' ≡ db = ground arith in rw same old
    | inr (q, e) ↦ elim (Result-cases (new_dataset_id p.dataset_id q db)) [
      | inr (x, n) ↦ absurd (ground arith)
      | inl (dataset_id, n) ↦
          let same : db' ≡ save_query_case (patched_query_case p dataset_id q) db = ground arith in
          rw same (
            saved-case (patched_query_case p dataset_id q)
              (new-dataset p.dataset_id id q dataset_id e n))
    ]
  ]

  without_case :
      (id : ℕ)
      → is_nil (rows_of (λ (r : Run). r.query_case_id) id db.runs) ≡ true
      → Consistent
          (record db { query_cases = delete_row (λ (q : QueryCase). q.id) id db.query_cases })
  without_case id unused = record {
    cases =
        delete-IsReferenced (λ (q : QueryCase). q.id) (λ q. q.dataset_id) (λ (d : Dataset). d.id)
          db.query_cases db.datasets id old.cases;
    run_cases =
        delete_parent-IsReferenced (λ (r : Run). r.id) (λ r. r.query_case_id)
          (λ (q : QueryCase). q.id) db.runs db.query_cases id unused old.run_cases;
    run_configs = old.run_configs;
    configs = old.configs;
  }

  pub deleted-case :
      (id : ℕ) (deleted : Bool) (db' : Db F)
      → delete_query_case id db ≡ ok (deleted, db')
      → Consistent db'
  unfolding delete_query_case
  deleted-case id deleted db' h = elim (Bool-cases (is_none (case_at id db))) [
    | inl e ↦ let same : db' ≡ db = ground arith in rw same old
    | inr e ↦ elim (Bool-cases (is_nil (rows_of (λ (r : Run). r.query_case_id) id db.runs))) [
      | inr used ↦ absurd (ground arith)
      | inl unused ↦
          let same : db'
              ≡ record db { query_cases = delete_row (λ (q : QueryCase). q.id) id db.query_cases } =
            ground arith in
          rw same (without_case id unused)
    ]
  ]
