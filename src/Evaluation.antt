-- ===== src/Evaluation.antt =====
-- Deterministic scores from stored rows: backend/app/services/minimal_retrieval_evaluation.py.
pub mod Tokens
pub mod Laws
pub mod Realism
use context_lens.Prelude.{
  ℕ, Bool, true, false, ◌&&◌, Option, none, some, List, [], ◌∷◌, Result, ok, err, value_error,
  ◌>>=◌, if◌then◌else◌, length,
}
use context_lens.Prelude.Floats.{Floats}
use context_lens.Prelude.Text.{Str, strip}
use context_lens.Domain.FailureTaxonomy.{
  FailureType, no_failure, retrieval_miss, retrieval_partial, context_insufficient,
  answer_incomplete, value,
}
use context_lens.Trace.Rows.{Db, QueryCase, EvaluationMetadata, RetrievalResult, heuristic}
use context_lens.Trace.Store.{get_row, or_raise}
use context_lens.Trace.Write.{run_at, is_nil}
use context_lens.Trace.Context.{context_rows, bodies_of, scores_of, join_bodies}
use Tokens.{significant_tokens, token_recall}

-- `MinimalRetrievalEvalScores`; its `used_llm_judge` is always false
pub record Scores (F : Type 0) : Type 0 where
  pub faithfulness : Option F
  pub completeness : Option F
  pub retrieval_relevance : Option F
  pub context_coverage : Option F
  pub failure_type : FailureType
  pub metadata_json : EvaluationMetadata F

-- `metadata_json` of a heuristic evaluation
unfoldable pub heuristic_metadata : {F : Type 0} → Bool → EvaluationMetadata F
heuristic_metadata skipped = record {
  evaluator_type = some heuristic;
  hybrid_judge_skipped = skipped;
  hybrid_judge_gate_failed = false;
  hybrid_gate_max_chunk_score = none;
  generation_model = none;
  generation_input_tokens = none;
  generation_output_tokens = none;
}

-- no retrieval results
unfoldable pub miss_scores : {F : Type 0} → Scores F
miss_scores = record {
  faithfulness = none;
  completeness = none;
  retrieval_relevance = none;
  context_coverage = none;
  failure_type = retrieval_miss;
  metadata_json = heuristic_metadata false;
}

module _ {F : Type 0} (fl : Floats F) where
  abbrev pub relevance_partial_threshold : F
  relevance_partial_threshold = fl.lit 3 1

  abbrev pub context_insufficient_threshold : F
  context_insufficient_threshold = fl.lit 4 1

  abbrev pub completeness_incomplete_threshold : F
  completeness_incomplete_threshold = fl.lit 5 1

  -- `v is not None and v < threshold`
  abbrev pub below : Option F → F → Bool
  below none threshold = false
  below (some v) threshold = fl.lt v threshold

  unfoldable pub classify_heuristic_failure_from_scores :
      Bool → Option F → Option F → Option F → FailureType
  classify_heuristic_failure_from_scores miss relevance coverage completeness =
      if miss
      then retrieval_miss
      else if below relevance relevance_partial_threshold
      then retrieval_partial
      else if below coverage context_insufficient_threshold
      then context_insufficient
      else if below completeness completeness_incomplete_threshold
      then answer_incomplete
      else no_failure

  unfoldable pub sum_from : F → List F → F
  sum_from acc [] = acc
  sum_from acc (x ∷ xs) = sum_from (fl.add acc x) xs

  -- `sum(scores) / len(scores)`
  unfoldable pub mean : List F → F
  unfolding sum_from
  mean scores = fl.div (sum_from (fl.of_nat 0) scores) (fl.of_nat (length scores))

  -- `if qc.expected_answer and qc.expected_answer.strip()`
  unfoldable pub completeness_of : Option Str → Str → Option F
  completeness_of none chunk_text = none
  completeness_of (some answer) chunk_text =
      if is_nil (strip answer) then none else token_recall fl (significant_tokens answer) chunk_text

  -- the scores of at least one retrieved row
  unfoldable pub scores_from : QueryCase → List (RetrievalResult F × Str) → Scores F
  scores_from qc rows =
      let chunk_text = join_bodies (bodies_of rows) in
      let relevance = some (mean (scores_of rows)) in
      let coverage = token_recall fl (significant_tokens qc.query_text) chunk_text in
      let complete = completeness_of qc.expected_answer chunk_text in
      record {
        faithfulness = none;
        completeness = complete;
        retrieval_relevance = relevance;
        context_coverage = coverage;
        failure_type = classify_heuristic_failure_from_scores false relevance coverage complete;
        metadata_json = heuristic_metadata false;
      }

  unfoldable pub compute_minimal_retrieval_evaluation : ℕ → Db F → Result (Scores F)
  compute_minimal_retrieval_evaluation run_id db = do
    run ← or_raise (run_at run_id db) value_error
    qc ← or_raise (get_row (λ (q : QueryCase). q.id) run.query_case_id db.query_cases) value_error
    let rows = context_rows run_id db
    ok (if is_nil rows then miss_scores else scores_from qc rows)

  unfoldable pub max_from : F → List F → F
  max_from best [] = best
  max_from best (y ∷ ys) = max_from (if fl.lt best y then y else best) ys

  -- `max(scores) if scores else 0.0`
  unfoldable pub max_chunk_score_of : List F → F
  max_chunk_score_of [] = fl.of_nat 0
  max_chunk_score_of (x ∷ xs) = max_from x xs

  unfoldable pub hybrid_retrieval_gate_passes : F → Option F → Option F → Bool
  hybrid_retrieval_gate_passes max_chunk_score none coverage = false
  hybrid_retrieval_gate_passes max_chunk_score (some relevance) none = false
  hybrid_retrieval_gate_passes max_chunk_score (some relevance) (some coverage) =
      fl.ge max_chunk_score (fl.lit 88 2)
      && fl.ge relevance (fl.lit 55 2)
      && fl.ge coverage (fl.lit 42 2)

  unfoldable pub compute_hybrid_skipped_evaluation : ℕ → Str → Db F → Result (Scores F)
  compute_hybrid_skipped_evaluation run_id generated_answer db = do
    base ← compute_minimal_retrieval_evaluation run_id db
    run ← or_raise (run_at run_id db) value_error
    qc ← or_raise (get_row (λ (q : QueryCase). q.id) run.query_case_id db.query_cases) value_error
    let rows = context_rows run_id db
    let chunk_text = join_bodies (bodies_of rows)
    ok (
        if is_nil rows then base else (record base {
          faithfulness = token_recall fl (significant_tokens generated_answer) chunk_text;
          failure_type =
              classify_heuristic_failure_from_scores false base.retrieval_relevance
                base.context_coverage base.completeness;
          metadata_json = heuristic_metadata true;
        }))
