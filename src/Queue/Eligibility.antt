-- ===== src/Queue/Eligibility.antt =====
-- Which runs may be queued again: the tests of backend/app/services/run_requeue.py.
use context_lens.Prelude.{
  ℕ, Bool, true, false, ◌||◌, not, Option, none, some, List, [], ◌∷◌, Result, ok, ◌>>=◌, ◌==◌,
  if◌then◌else◌,
}
use context_lens.Domain.EvaluatorBucket.{is_heuristic, resolved_evaluator_type}
use context_lens.Trace.Rows.{
  Db, Run, Chunk, RetrievalResult, GenerationResult, EvaluatorType, llm, heuristic,
  EvaluationResult, status_eq, running, retrieval_completed, generation_completed, completed,
  failed,
}
use context_lens.Trace.Store.{get_row, scalar_one_or_none}
use context_lens.Trace.Write.{retrieval_of, generation_of, evaluation_of, is_none, is_nil}

-- `run.status in ALLOW_REQUEUE_STATUSES`
unfoldable pub allow_requeue : Run → Bool
allow_requeue run =
    status_eq run.status running
    || status_eq run.status retrieval_completed
    || status_eq run.status generation_completed
    || status_eq run.status failed

-- `_normalize_failed_run_for_resume`, of a run that is failed: the run with its new status
unfoldable pub resumed_run : Run → Bool → Bool → Run
resumed_run run true retrieved = record run { status = generation_completed }
resumed_run run false true = record run { status = retrieval_completed }
resumed_run run false false = record run { status = running }

-- the distinct documents of the run's hits
unfoldable pub insert_distinct : ℕ → List ℕ → List ℕ
insert_distinct x [] = x ∷ []
insert_distinct x (y ∷ ys) = let rest = insert_distinct x ys in if x == y then y ∷ ys else y ∷ rest

abbrev pub only : List ℕ → Option ℕ
only [] = none
only (x ∷ []) = some x
only (x ∷ y ∷ xs) = none

module _ {F : Type 0} where
  -- `_is_heuristic_only_evaluated_run`
  unfoldable pub is_heuristic_only_evaluated_run :
      Option GenerationResult → Option (EvaluationResult F) → Bool
  is_heuristic_only_evaluated_run (some g) evaluation = false
  is_heuristic_only_evaluated_run none none = false
  is_heuristic_only_evaluated_run none (some e) =
      is_heuristic (resolved_evaluator_type e.used_llm_judge e.metadata_json)

  -- `infer_pipeline_heuristic_vs_full`
  unfoldable pub infer_pipeline_heuristic_vs_full :
      Option GenerationResult → Option (EvaluationResult F) → EvaluatorType
  infer_pipeline_heuristic_vs_full g e =
      if is_heuristic_only_evaluated_run g e then heuristic else llm

  -- the verdict without the message
  unfoldable pub evaluate_structural_requeue_eligibility :
      Run → Option GenerationResult → Option (EvaluationResult F) → Bool
  evaluate_structural_requeue_eligibility run g e =
      if status_eq run.status completed
      then false
      else if not (allow_requeue run)
      then false
      else not (is_heuristic_only_evaluated_run g e)

  unfoldable pub structural_requeue_eligibility : Run → Db F → Result Bool
  structural_requeue_eligibility run db = do
    g ← scalar_one_or_none (generation_of run.id db)
    e ← scalar_one_or_none (evaluation_of run.id db)
    ok (evaluate_structural_requeue_eligibility run g e)

  unfoldable pub normalize_failed_run_for_resume : Run → Db F → Result Run
  normalize_failed_run_for_resume run db = if not (status_eq run.status failed) then ok run else (do
    g ← scalar_one_or_none (generation_of run.id db)
    ok (resumed_run run (not (is_none g)) (not (is_nil (retrieval_of run.id db)))))

  unfoldable pub documents_of : List (RetrievalResult F) → Db F → List ℕ
  documents_of [] db = []
  documents_of (r ∷ rs) db =
      let rest = documents_of rs db in
      elim (get_row (λ (c : Chunk). c.id) r.chunk_id db.chunks) [
        | none ↦ rest
        | some c ↦ insert_distinct c.document_id rest
      ]

  unfoldable pub infer_document_id_for_full_run : ℕ → Db F → Option ℕ
  infer_document_id_for_full_run run_id db = only (documents_of (retrieval_of run_id db) db)
