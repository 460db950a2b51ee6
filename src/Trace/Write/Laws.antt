-- ===== src/Trace/Write/Laws.antt =====
-- What the reads of a run return after the writes.
use context_lens.Prelude.{
  ℕ, ◌≡◌, ◌≢◌, refl, ap, ◌∙◌, false, some, List, [], ◌∷◌, ◌++◌, arith, length, suc, length-append,
  append-nil, ◌==◌, if◌then◌else◌, ◌+◌, ◌≤◌, All,
}
use context_lens.Trace.Rows.{Db, Run, RetrievalResult, GenerationResult, EvaluationResult}
use context_lens.Trace.Store.{rows_of}
use context_lens.Trace.Store.Laws.{
  replaced, get-put, key-get, rows_of-append, rows_of-All, rows_of-none,
}
use context_lens.Trace.Write.{
  run_at, retrieval_of, generation_of, evaluation_of, save_run, add_retrieval, add_generation,
  add_evaluation, retrieval_rows, is_nil,
}

pub length-is_nil : {A : Type 0} (xs : List A) → is_nil xs ≡ false → 1 ≤ length xs
length-is_nil [] h = cc
length-is_nil (x ∷ xs) h = omega arith

module _ {F : Type 0} (db : Db F) where
  pub run_at-save_run :
      (run : Run) (j : ℕ)
      → run_at j (save_run run db)
        ≡ (if run.id == j then replaced run (run_at j db) else run_at j db)
  unfolding run_at save_run
  run_at-save_run run j = get-put (λ r. r.id) run j db.runs

  pub id-run_at : (j : ℕ) (run : Run) → run_at j db ≡ some run → run.id ≡ j
  unfolding run_at
  id-run_at j run h = key-get (λ r. r.id) j db.runs run h

  -- the run that is there, with new columns
  pub run_at-save_run_self :
      (old new : Run) (j : ℕ)
      → run_at j db ≡ some old
      → new.id ≡ old.id
      → run_at j (save_run new db) ≡ some new
  run_at-save_run_self old new j h e = run_at-save_run new j ∙ ground (arith, id-run_at j old h)

  pub run_at-save_run_ne :
      (new : Run) (i j : ℕ) → new.id ≡ i → i ≢ j → run_at j (save_run new db) ≡ run_at j db
  run_at-save_run_ne new i j e ne = run_at-save_run new j ∙ ground arith

  -- new columns of a run leave the other tables alone
  pub rows-save_run :
      (run : Run) (j : ℕ)
      → (retrieval_of j (save_run run db) ≡ retrieval_of j db)
        × (generation_of j (save_run run db) ≡ generation_of j db)
        × (evaluation_of j (save_run run db) ≡ evaluation_of j db)
  unfolding retrieval_of generation_of evaluation_of save_run
  rows-save_run run j = (refl, refl, refl)

  pub retrieval_of-add :
      (j : ℕ) (rows : List (RetrievalResult F))
      → retrieval_of j (add_retrieval rows db)
        ≡ retrieval_of j db ++ rows_of (λ (r : RetrievalResult F). r.run_id) j rows
  unfolding retrieval_of add_retrieval
  retrieval_of-add j rows = rows_of-append (λ r. r.run_id) j db.retrieval_results rows

  pub generation_of-add_self :
      (row : GenerationResult) (j : ℕ)
      → row.run_id ≡ j
      → generation_of j db ≡ []
      → generation_of j (add_generation row db) ≡ row ∷ []
  unfolding generation_of add_generation
  generation_of-add_self row j e h =
      rows_of-append (λ g. g.run_id) j db.generation_results (row ∷ [])
      ∙ rw (h, rows_of-All (λ (g : GenerationResult). g.run_id) j (row ∷ []) (e, tt))

  pub generation_of-add_ne :
      (row : GenerationResult) (i j : ℕ)
      → row.run_id ≡ i
      → i ≢ j
      → generation_of j (add_generation row db) ≡ generation_of j db
  unfolding generation_of add_generation
  generation_of-add_ne row i j e ne =
      rows_of-append (λ g. g.run_id) j db.generation_results (row ∷ [])
      ∙ rw (rows_of-none (λ (g : GenerationResult). g.run_id) i j (row ∷ []) ne (e, tt))
          (append-nil _)

  pub evaluation_of-add_self :
      (row : EvaluationResult F) (j : ℕ)
      → row.run_id ≡ j
      → evaluation_of j db ≡ []
      → evaluation_of j (add_evaluation row db) ≡ row ∷ []
  unfolding evaluation_of add_evaluation
  evaluation_of-add_self row j e h =
      rows_of-append (λ g. g.run_id) j db.evaluation_results (row ∷ [])
      ∙ rw (h, rows_of-All (λ (g : EvaluationResult F). g.run_id) j (row ∷ []) (e, tt))

  pub evaluation_of-add_ne :
      (row : EvaluationResult F) (i j : ℕ)
      → row.run_id ≡ i
      → i ≢ j
      → evaluation_of j (add_evaluation row db) ≡ evaluation_of j db
  unfolding evaluation_of add_evaluation
  evaluation_of-add_ne row i j e ne =
      rows_of-append (λ g. g.run_id) j db.evaluation_results (row ∷ [])
      ∙ rw (rows_of-none (λ (g : EvaluationResult F). g.run_id) i j (row ∷ []) ne (e, tt))
          (append-nil _)

module _ {F : Type 0} where
  retrieval_rows-All :
      (run_id : ℕ) (xs : List (ℕ × ℕ × F)) → All (λ r. r.run_id ≡ run_id) (retrieval_rows run_id xs)
  unfolding retrieval_rows
  retrieval_rows-All run_id [] = tt
  retrieval_rows-All run_id ((c, k, s) ∷ xs) = (refl, retrieval_rows-All run_id xs)

  pub length-retrieval_rows :
      (run_id : ℕ) (xs : List (ℕ × ℕ × F)) → length (retrieval_rows run_id xs) ≡ length xs
  unfolding retrieval_rows
  length-retrieval_rows run_id [] = refl
  length-retrieval_rows run_id ((c, k, s) ∷ xs) = ap suc (length-retrieval_rows run_id xs)

  pub retrieval_of-add_rows_self :
      (db : Db F) (j : ℕ) (xs : List (ℕ × ℕ × F))
      → length (retrieval_of j (add_retrieval (retrieval_rows j xs) db))
        ≡ length (retrieval_of j db) + length xs
  retrieval_of-add_rows_self db j xs =
      let rows = retrieval_rows j xs in
      ap length (retrieval_of-add db j rows)
      ∙ ap (λ (new : List (RetrievalResult F)). length (retrieval_of j db ++ new))
          (rows_of-All (λ r. r.run_id) j rows (retrieval_rows-All j xs))
      ∙ omega (arith, length-append (retrieval_of j db) rows, length-retrieval_rows j xs)

  pub retrieval_of-add_rows_ne :
      (db : Db F) (i j : ℕ) (xs : List (ℕ × ℕ × F))
      → i ≢ j
      → retrieval_of j (add_retrieval (retrieval_rows i xs) db) ≡ retrieval_of j db
  retrieval_of-add_rows_ne db i j xs ne =
      let rows = retrieval_rows i xs in
      retrieval_of-add db j rows
      ∙ rw
          (rows_of-none (λ (r : RetrievalResult F). r.run_id) i j rows ne (retrieval_rows-All i xs))
          (append-nil _)
