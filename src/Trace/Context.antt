-- ===== src/Trace/Context.antt =====
-- The retrieved rows of a run with their chunks' texts, ordered by rank: the statement that
-- generation_phase.py, full_rag_evaluation.py and minimal_retrieval_evaluation.py share.
pub mod Laws
use context_lens.Prelude.{ℕ, Option, none, some, List, [], ◌∷◌, ◌++◌, leb, if◌then◌else◌}
use context_lens.Prelude.Text.{Str, codes}
use context_lens.Trace.Rows.{Db, RetrievalResult, Chunk}
use context_lens.Trace.Store.{get_row}
use context_lens.Trace.Write.{retrieval_of}

module _ {F : Type 0} where
  -- `JOIN chunks ON chunks.id = retrieval_results.chunk_id`
  unfoldable pub join_chunks :
      List (RetrievalResult F) → List Chunk → List (RetrievalResult F × Str)
  join_chunks [] chunks = []
  join_chunks (rr ∷ rrs) chunks =
      let rest = join_chunks rrs chunks in
      elim (get_row (λ (c : Chunk). c.id) rr.chunk_id chunks) [
        | none ↦ rest
        | some c ↦ (rr, c.content) ∷ rest
      ]

  unfoldable pub insert_by_rank :
      RetrievalResult F × Str → List (RetrievalResult F × Str) → List (RetrievalResult F × Str)
  insert_by_rank x [] = x ∷ []
  insert_by_rank x (y ∷ ys) =
      let further = insert_by_rank x ys in if leb x.0.rank y.0.rank then x ∷ y ∷ ys else y ∷ further

  unfoldable pub order_by_rank : List (RetrievalResult F × Str) → List (RetrievalResult F × Str)
  unfolding insert_by_rank
  order_by_rank [] = []
  order_by_rank (x ∷ xs) = insert_by_rank x (order_by_rank xs)

  unfoldable pub context_rows : ℕ → Db F → List (RetrievalResult F × Str)
  context_rows run_id db = order_by_rank (join_chunks (retrieval_of run_id db) db.chunks)

  unfoldable pub bodies_of : List (RetrievalResult F × Str) → List Str
  bodies_of [] = []
  bodies_of ((_, content) ∷ rows) = content ∷ bodies_of rows

  unfoldable pub scores_of : List (RetrievalResult F × Str) → List F
  scores_of [] = []
  scores_of ((rr, _) ∷ rows) = rr.score ∷ scores_of rows

-- `"\n\n".join(bodies)`
unfoldable pub join_bodies : List Str → Str
join_bodies [] = []
join_bodies (b ∷ []) = b
join_bodies (b ∷ c ∷ bs) = b ++ (codes "\n\n" ++ join_bodies (c ∷ bs))
