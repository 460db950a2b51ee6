-- ===== src/Trace/Context/Laws.antt =====
-- The joined rows of a run come from its retrieval rows.
use context_lens.Prelude.{ℕ, ◌≡◌, ◌≤◌, refl, List, [], ◌∷◌, arith, length, suc}
use context_lens.Prelude.Text.{Str}
use context_lens.Trace.Rows.{Db, RetrievalResult, Chunk}
use context_lens.Trace.Write.{retrieval_of}
use context_lens.Trace.Context.{join_chunks, insert_by_rank, order_by_rank, context_rows}

module _ {F : Type 0} where
  length-join_chunks :
      (rrs : List (RetrievalResult F)) (chunks : List Chunk)
      → length (join_chunks rrs chunks) ≤ length rrs
  unfolding join_chunks
  length-join_chunks [] chunks = omega arith
  length-join_chunks (rr ∷ rrs) chunks = ground (arith, length-join_chunks rrs chunks)

  length-insert_by_rank :
      (x : RetrievalResult F × Str) (ys : List (RetrievalResult F × Str))
      → length (insert_by_rank x ys) ≡ suc (length ys)
  unfolding insert_by_rank
  length-insert_by_rank x [] = refl
  length-insert_by_rank x (y ∷ ys) = ground (arith, length-insert_by_rank x ys)

  length-order_by_rank :
      (xs : List (RetrievalResult F × Str)) → length (order_by_rank xs) ≡ length xs
  unfolding order_by_rank
  length-order_by_rank [] = refl
  length-order_by_rank (x ∷ xs) =
      omega (arith, length-insert_by_rank x (order_by_rank xs), length-order_by_rank xs)

  -- There are no more joined rows than retrieval rows.
  pub length-context_rows :
      (run_id : ℕ) (db : Db F) → length (context_rows run_id db) ≤ length (retrieval_of run_id db)
  unfolding context_rows
  length-context_rows run_id db = omega (
    arith,
    length-order_by_rank (join_chunks (retrieval_of run_id db) db.chunks),
    length-join_chunks (retrieval_of run_id db) db.chunks,
  )
