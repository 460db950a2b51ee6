-- ===== src/Trace/Write.antt =====
-- Writes of trace rows: backend/app/services/trace_persistence.py, trace_instrumentation.py and
-- evaluation_persistence.py. A write that breaks a unique key or a foreign key raises.
pub mod Laws
pub mod Evaluated
use context_lens.Prelude.{
  ℕ, ◌+◌, Bool, true, false, ◌&&◌, not, Option, none, some, List, [], ◌∷◌, ◌++◌, map, Result, ok,
  err, value_error, other, ◌>>=◌, ◌>>◌, require, ◌==◌, leb, if◌then◌else◌,
}
use context_lens.Prelude.Text.{Str}
use context_lens.Domain.FailureTaxonomy.{FailureType, failure_type_for_storage}
use context_lens.Trace.Rows.{
  Db, Run, RunMetadata, RetrievalResult, GenerationResult, EvaluationResult, EvaluationMetadata,
  Chunk, Instrumentation, Status, status_eq, retrieval_completed, generation_completed, completed,
  heuristic_only, llm_only, hybrid,
}
use context_lens.Trace.Store.{get_row, put_row, rows_of, scalar_one_or_none, or_raise}

abbrev pub is_none : {A : Type 0} → Option A → Bool
is_none none = true
is_none (some _) = false

abbrev pub is_nil : {A : Type 0} → List A → Bool
is_nil [] = true
is_nil (x ∷ xs) = false

module _ {F : Type 0} where
  -- `session.get(Run, run_id)`
  unfoldable pub run_at : ℕ → Db F → Option Run
  run_at run_id db = get_row (λ r. r.id) run_id db.runs

  unfoldable pub retrieval_of : ℕ → Db F → List (RetrievalResult F)
  retrieval_of run_id db = rows_of (λ r. r.run_id) run_id db.retrieval_results

  unfoldable pub generation_of : ℕ → Db F → List GenerationResult
  generation_of run_id db = rows_of (λ g. g.run_id) run_id db.generation_results

  unfoldable pub evaluation_of : ℕ → Db F → List (EvaluationResult F)
  evaluation_of run_id db = rows_of (λ e. e.run_id) run_id db.evaluation_results

  -- new values of a run's columns
  unfoldable pub save_run : Run → Db F → Db F
  save_run run db = record db { runs = put_row (λ r. r.id) run db.runs }

  unfoldable pub add_retrieval : List (RetrievalResult F) → Db F → Db F
  add_retrieval rows db = record db { retrieval_results = db.retrieval_results ++ rows }

  unfoldable pub add_generation : GenerationResult → Db F → Db F
  add_generation row db = record db { generation_results = db.generation_results ++ row ∷ [] }

  unfoldable pub add_evaluation : EvaluationResult F → Db F → Db F
  add_evaluation row db = record db { evaluation_results = db.evaluation_results ++ row ∷ [] }

  unfoldable pub create_run : ℕ → ℕ → Status → Option RunMetadata → Db F → Run × Db F
  create_run query_case_id pipeline_config_id status metadata_json db =
      let run : Run = record {
        id = db.next_run_id;
        query_case_id = query_case_id;
        pipeline_config_id = pipeline_config_id;
        status = status;
        retrieval_latency_ms = none;
        generation_latency_ms = none;
        evaluation_latency_ms = none;
        total_latency_ms = none;
        metadata_json = metadata_json;
        trace_instrumentation_json = none;
      } in
      (run, record db { runs = db.runs ++ run ∷ []; next_run_id = db.next_run_id + 1 })

  -- the rows of `chunk_scores`, whose elements are (chunk_id, rank, score)
  unfoldable pub retrieval_rows : ℕ → List (ℕ × ℕ × F) → List (RetrievalResult F)
  retrieval_rows run_id [] = []
  retrieval_rows run_id ((chunk_id, rank, score) ∷ rest) =
      record { run_id = run_id; chunk_id = chunk_id; rank = rank; score = score }
      ∷ retrieval_rows run_id rest

  -- every row refers to a chunk
  unfoldable pub chunks_exist : List (ℕ × ℕ × F) → Db F → Bool
  chunks_exist [] db = true
  chunks_exist ((chunk_id, _, _) ∷ rest) db =
      not (is_none (get_row (λ (c : Chunk). c.id) chunk_id db.chunks)) && chunks_exist rest db

  unfoldable pub store_retrieval_results : ℕ → List (ℕ × ℕ × F) → Db F → Result (Db F)
  store_retrieval_results run_id chunk_scores db = do
    require (chunks_exist chunk_scores db) other
    ok (add_retrieval (retrieval_rows run_id chunk_scores) db)

  -- `session.add(GenerationResult(…))`
  unfoldable pub store_generation_result : GenerationResult → Db F → Result (Db F)
  store_generation_result row db = do
    require (is_nil (generation_of row.run_id db)) other
    ok (add_generation row db)

  -- JSON-merge of a patch that gives every key
  unfoldable pub merge_run_trace_instrumentation : ℕ → Instrumentation → Db F → Db F
  merge_run_trace_instrumentation run_id patch db = elim (run_at run_id db) [
    | none ↦ db
    | some run ↦ save_run (record run { trace_instrumentation_json = some patch }) db
  ]

unfoldable pub heuristic_run_instrumentation : Instrumentation
heuristic_run_instrumentation = record {
  evaluator_execution_mode = heuristic_only;
  total_eval_rows = 1;
  heuristic_eval_rows = 1;
  llm_eval_rows = 0;
  llm_generation_calls = 0;
  llm_judge_calls_attempted = 0;
  llm_judge_calls_skipped_by_heuristics = 0;
  llm_judge_calls_used_for_final_judgment = 0;
  estimated_prompt_tokens = none;
  estimated_completion_tokens = none;
  estimated_cost_usd = none;
}

-- `_sum_tokens` of two counts
unfoldable pub sum_tokens : Option ℕ → Option ℕ → Option ℕ
sum_tokens none b = b
sum_tokens (some a) none = some a
sum_tokens (some a) (some b) = some (a + b)

unfoldable pub full_llm_run_instrumentation :
    Option ℕ → Option ℕ → Option ℕ → Option ℕ → Option ℕ → Instrumentation
full_llm_run_instrumentation judge_in judge_out gen_in gen_out cost_usd = record {
  evaluator_execution_mode = llm_only;
  total_eval_rows = 1;
  heuristic_eval_rows = 0;
  llm_eval_rows = 1;
  llm_generation_calls = 1;
  llm_judge_calls_attempted = 1;
  llm_judge_calls_skipped_by_heuristics = 0;
  llm_judge_calls_used_for_final_judgment = 1;
  estimated_prompt_tokens = sum_tokens gen_in judge_in;
  estimated_completion_tokens = sum_tokens gen_out judge_out;
  estimated_cost_usd = cost_usd;
}

unfoldable pub hybrid_skipped_judge_instrumentation :
    Option ℕ → Option ℕ → Option ℕ → Instrumentation
hybrid_skipped_judge_instrumentation gen_in gen_out gen_cost = record {
  evaluator_execution_mode = hybrid;
  total_eval_rows = 1;
  heuristic_eval_rows = 1;
  llm_eval_rows = 0;
  llm_generation_calls = 1;
  llm_judge_calls_attempted = 1;
  llm_judge_calls_skipped_by_heuristics = 1;
  llm_judge_calls_used_for_final_judgment = 0;
  estimated_prompt_tokens = gen_in;
  estimated_completion_tokens = gen_out;
  estimated_cost_usd = gen_cost;
}

-- The keyword arguments of `persist_evaluation_and_complete_run`. The latencies are measured with
-- `max(0, …)`, so they are naturals.
pub record EvaluationInput (F : Type 0) : Type 0 where
  pub evaluation_latency_ms : ℕ
  pub total_latency_ms : ℕ
  pub faithfulness : Option F
  pub completeness : Option F
  pub retrieval_relevance : Option F
  pub context_coverage : Option F
  pub groundedness : Option F
  pub failure_type : Option Str
  pub used_llm_judge : Bool
  pub cost_usd : Option ℕ
  pub metadata_json : Option (EvaluationMetadata F)

-- what `run` becomes when its evaluation is stored
unfoldable pub completed_run : {F : Type 0} → Run → EvaluationInput F → Run
completed_run run ev = record run {
  evaluation_latency_ms = some ev.evaluation_latency_ms;
  total_latency_ms = some ev.total_latency_ms;
  status = completed;
}

module _ {F : Type 0} (upper_beyond_ascii : ℕ → Str) where
  unfoldable pub evaluation_row : ℕ → EvaluationInput F → EvaluationResult F
  evaluation_row run_id ev = record {
    run_id = run_id;
    faithfulness = ev.faithfulness;
    completeness = ev.completeness;
    retrieval_relevance = ev.retrieval_relevance;
    context_coverage = ev.context_coverage;
    groundedness = ev.groundedness;
    failure_type = failure_type_for_storage upper_beyond_ascii ev.failure_type;
    used_llm_judge = ev.used_llm_judge;
    cost_usd = ev.cost_usd;
    metadata_json = ev.metadata_json;
  }

  unfoldable pub store_evaluation_result : ℕ → EvaluationInput F → Db F → Result (Db F)
  store_evaluation_result run_id ev db = do
    require (is_nil (evaluation_of run_id db)) other
    ok (add_evaluation (evaluation_row run_id ev) db)

  unfoldable pub persist_evaluation_and_complete_run :
      ℕ → EvaluationInput F → Status → Db F → Result (Db F)
  persist_evaluation_and_complete_run run_id ev prerequisite_status db = do
    run ← or_raise (run_at run_id db) value_error
    require (status_eq run.status prerequisite_status) value_error
    existing ← scalar_one_or_none (evaluation_of run_id db)
    require (is_none existing) value_error
    require
        (not (status_eq prerequisite_status retrieval_completed && is_nil (retrieval_of run_id db)))
        value_error
    require
        (not
          (status_eq prerequisite_status generation_completed && is_nil (generation_of run_id db)))
        value_error
    require (not (ev.used_llm_judge && is_nil (generation_of run_id db))) value_error
    stored ← store_evaluation_result run_id ev db
    ok (save_run (completed_run run ev) stored)
