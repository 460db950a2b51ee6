-- ===== src/Run/Phases.antt =====
-- The phases of a run: backend/app/services/benchmark_run.py, generation_phase.py and
-- full_rag_evaluation.py. A phase commits once, at its end, so it is a function to the new database
-- or an exception, after which the session is rolled back.
pub mod Retrieval
pub mod Generation
pub mod Judge
pub mod Completes
use context_lens.Prelude.{
  ℕ, zero, suc, ◌+◌, Bool, true, false, ◌&&◌, not, Option, none, some, List, [], ◌∷◌, Result, ok,
  err, value_error, ◌>>=◌, ◌>>◌, require, if◌then◌else◌,
}
use context_lens.Prelude.Text.{Str, codes, text_eq}
use context_lens.Domain.FailureTaxonomy.{value}
use context_lens.Trace.Rows.{
  Db, Run, RunMetadata, QueryCase, PipelineConfig, GenerationResult, EvaluationMetadata, llm,
  heuristic, status_eq, retrieval_completed, generation_completed,
}
use context_lens.Trace.Store.{get_row, or_raise, scalar_one_or_none}
use context_lens.Trace.Write.{
  run_at, generation_of, save_run, is_none, is_nil, store_retrieval_results,
  store_generation_result, EvaluationInput, persist_evaluation_and_complete_run,
  merge_run_trace_instrumentation, full_llm_run_instrumentation,
  hybrid_skipped_judge_instrumentation,
}
use context_lens.Trace.Context.{context_rows, bodies_of, scores_of}
use context_lens.Evaluation.{
  Scores, compute_minimal_retrieval_evaluation, compute_hybrid_skipped_evaluation,
  max_chunk_score_of, hybrid_retrieval_gate_passes,
}
use context_lens.Run.World.{World, Answer, Verdict}

-- `latency or 0`
abbrev pub or_zero : Option ℕ → ℕ
or_zero none = 0
or_zero (some n) = n

-- `rows`: (chunk_id, rank, score), ranks from 1 on
unfoldable pub ranked : {F : Type 0} → ℕ → List (ℕ × F) → List (ℕ × ℕ × F)
ranked rank [] = []
ranked rank ((chunk_id, score) ∷ hits) = (chunk_id, rank, score) ∷ ranked (suc rank) hits

-- `meta.get("evaluator_execution_mode") or "llm_only"`, compared with "hybrid"
unfoldable pub uses_hybrid : Option RunMetadata → Bool
uses_hybrid none = false
uses_hybrid (some meta) = elim meta.evaluator_execution_mode [
  | none ↦ false
  | some mode ↦ text_eq mode (codes "hybrid")
]

-- what a run becomes when its hits, its answer are stored
unfoldable pub retrieved_run : Run → ℕ → Run
retrieved_run run ms = record run { retrieval_latency_ms = some ms; status = retrieval_completed }

unfoldable pub generated_run : Run → ℕ → Run
generated_run run ms = record run { generation_latency_ms = some ms; status = generation_completed }

module _ {F : Type 0} (w : World F) where
  unfoldable pub query_case_at : ℕ → Db F → Result QueryCase
  query_case_at id db = or_raise (get_row (λ (q : QueryCase). q.id) id db.query_cases) value_error

  unfoldable pub pipeline_config_at : ℕ → Db F → Result PipelineConfig
  pipeline_config_at id db =
      or_raise (get_row (λ (p : PipelineConfig). p.id) id db.pipeline_configs) value_error

  -- store the hits of a search and mark the run
  unfoldable pub store_hits : Run → List (ℕ × F) → Db F → Result (Db F)
  store_hits run hits db = do
    stored ← store_retrieval_results run.id (ranked 1 hits) db
    ok (save_run (retrieved_run run w.retrieval_ms) stored)

  unfoldable pub execute_retrieval_for_existing_run : ℕ → Option ℕ → Db F → Result (Db F)
  execute_retrieval_for_existing_run run_id document_id db = do
    run ← or_raise (run_at run_id db) value_error
    qc ← query_case_at run.query_case_id db
    pc ← pipeline_config_at run.pipeline_config_id db
    hits ← w.search_chunks db qc.query_text pc.top_k document_id
    store_hits run hits db

  -- `generate_rag_answer`
  unfoldable pub generate_rag_answer : Str → List Str → Result Answer
  generate_rag_answer query chunk_bodies = do
    require (not (is_nil chunk_bodies)) value_error
    w.provider_answer query chunk_bodies

  unfoldable pub generation_row : ℕ → Answer → GenerationResult
  generation_row run_id answer = record {
    run_id = run_id;
    answer_text = answer.answer_text;
    model_id = answer.model_id;
    input_tokens = answer.input_tokens;
    output_tokens = answer.output_tokens;
  }

  unfoldable pub execute_generation_for_run : ℕ → Db F → Result (Db F)
  execute_generation_for_run run_id db = do
    run ← or_raise (run_at run_id db) value_error
    require (status_eq run.status retrieval_completed) value_error
    existing ← scalar_one_or_none (generation_of run_id db)
    require (is_none existing) value_error
    require (not (is_nil (context_rows run_id db))) value_error
    qc ← query_case_at run.query_case_id db
    answer ← generate_rag_answer qc.query_text (bodies_of (context_rows run_id db))
    stored ← store_generation_result (generation_row run_id answer) db
    ok (save_run (generated_run run w.generation_ms) stored)

  -- the metadata of a full evaluation, over the keys that the judge or the heuristics gave
  unfoldable pub full_metadata : EvaluationMetadata F → GenerationResult → EvaluationMetadata F
  full_metadata meta gen = record meta {
    generation_model = some gen.model_id;
    generation_input_tokens = gen.input_tokens;
    generation_output_tokens = gen.output_tokens;
  }

  -- `(gen_cost or 0) + (judge_cost or 0)`, if one of them is known
  unfoldable pub total_cost : Option ℕ → Option ℕ → Option ℕ
  total_cost none none = none
  total_cost none (some j) = some j
  total_cost (some g) none = some g
  total_cost (some g) (some j) = some (g + j)

  -- `retrieval_ms + generation_ms + eval_ms`
  unfoldable pub total_ms : Run → ℕ
  total_ms run =
      or_zero run.retrieval_latency_ms + or_zero run.generation_latency_ms + w.evaluation_ms

  unfoldable pub gen_cost_of : GenerationResult → Option ℕ
  gen_cost_of gen = w.estimate_usd_from_tokens gen.input_tokens gen.output_tokens

  unfoldable pub skipped_input : Run → GenerationResult → Scores F → EvaluationInput F
  skipped_input run gen ev = record {
    evaluation_latency_ms = w.evaluation_ms;
    total_latency_ms = total_ms run;
    faithfulness = ev.faithfulness;
    completeness = ev.completeness;
    retrieval_relevance = ev.retrieval_relevance;
    context_coverage = ev.context_coverage;
    groundedness = none;
    failure_type = some (value ev.failure_type);
    used_llm_judge = false;
    cost_usd = gen_cost_of gen;
    metadata_json = some (full_metadata ev.metadata_json gen);
  }

  -- the gate held: heuristic scores, no judge
  unfoldable pub complete_without_judge : ℕ → Run → GenerationResult → Db F → Result (Db F)
  complete_without_judge run_id run gen db = do
    ev ← compute_hybrid_skipped_evaluation w.floats run_id gen.answer_text db
    stored ←
        persist_evaluation_and_complete_run w.upper_beyond_ascii run_id (skipped_input run gen ev)
          generation_completed db
    ok (
        merge_run_trace_instrumentation run_id
          (hybrid_skipped_judge_instrumentation gen.input_tokens gen.output_tokens
            (gen_cost_of gen))
          stored)

  unfoldable pub judge_cost_of : Verdict F → Option ℕ
  judge_cost_of ev = w.estimate_usd_from_tokens ev.judge_input_tokens ev.judge_output_tokens

  -- `gate_score` is the highest chunk score of a hybrid run, none for a run with the judge alone
  unfoldable pub judged_input : Run → GenerationResult → Option F → Verdict F → EvaluationInput F
  judged_input run gen gate_score ev = record {
    evaluation_latency_ms = w.evaluation_ms;
    total_latency_ms = total_ms run;
    faithfulness = ev.faithfulness;
    completeness = ev.completeness;
    retrieval_relevance = ev.retrieval_relevance;
    context_coverage = ev.context_coverage;
    groundedness = ev.groundedness;
    failure_type = ev.failure_type;
    used_llm_judge = true;
    cost_usd = total_cost (gen_cost_of gen) (judge_cost_of ev);
    metadata_json = some (
        full_metadata
          (record {
            evaluator_type = some llm;
            hybrid_judge_skipped = false;
            hybrid_judge_gate_failed = not (is_none gate_score);
            hybrid_gate_max_chunk_score = gate_score;
            generation_model = none;
            generation_input_tokens = none;
            generation_output_tokens = none;
          })
          gen);
  }

  unfoldable pub complete_with_judge :
      ℕ → Run → GenerationResult → QueryCase → Option F → Db F → Result (Db F)
  complete_with_judge run_id run gen qc gate_score db = do
    ev ←
        w.evaluate_with_llm_judge qc.query_text (bodies_of (context_rows run_id db)) gen.answer_text
          qc.expected_answer
    stored ←
        persist_evaluation_and_complete_run w.upper_beyond_ascii run_id
          (judged_input run gen gate_score ev) generation_completed db
    ok (
        merge_run_trace_instrumentation run_id
          (full_llm_run_instrumentation ev.judge_input_tokens ev.judge_output_tokens
            gen.input_tokens gen.output_tokens (total_cost (gen_cost_of gen) (judge_cost_of ev)))
          stored)

  -- the hybrid gate, false for a run whose mode is another
  unfoldable pub gate_of : Bool → ℕ → F → Db F → Result Bool
  gate_of false run_id max_chunk_score db = ok false
  gate_of true run_id max_chunk_score db = do
    pre ← compute_minimal_retrieval_evaluation w.floats run_id db
    ok (
        hybrid_retrieval_gate_passes w.floats max_chunk_score pre.retrieval_relevance
          pre.context_coverage)

  unfoldable pub execute_llm_judge_and_complete_run : ℕ → Db F → Result (Db F)
  execute_llm_judge_and_complete_run run_id db = do
    run ← or_raise (run_at run_id db) value_error
    require (status_eq run.status generation_completed) value_error
    found ← scalar_one_or_none (generation_of run_id db)
    gen ← or_raise found value_error
    qc ← query_case_at run.query_case_id db
    let best = max_chunk_score_of w.floats (scores_of (context_rows run_id db))
    let use_hybrid = uses_hybrid run.metadata_json
    gate_ok ← gate_of use_hybrid run_id best db
    if use_hybrid && gate_ok
        then complete_without_judge run_id run gen db
        else complete_with_judge run_id run gen qc (if use_hybrid then some best else none) db
