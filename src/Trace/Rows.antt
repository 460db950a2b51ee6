-- ===== src/Trace/Rows.antt =====
-- The rows of backend/app/models and the statuses of backend/app/services/run_lifecycle.py.
-- A JSON column is a record of the keys that the services write.
use context_lens.Prelude.{ℕ, Bool, Option, List, ◌==◌}
use context_lens.Prelude.Text.{Str}
use context_lens.Domain.FailureTaxonomy.{FailureType}

pub data Status : Type 0 where
  pending running retrieval_completed generation_completed completed failed : Status

abbrev status_code : Status → ℕ
status_code pending = 0
status_code running = 1
status_code retrieval_completed = 2
status_code generation_completed = 3
status_code completed = 4
status_code failed = 5

abbrev pub status_eq : Status → Status → Bool
status_eq a b = status_code a == status_code b

pub record Dataset : Type 0 where
  pub id : ℕ
  pub name : Str
  pub description : Option Str
  pub metadata_json : Option Str

pub record QueryCase : Type 0 where
  pub id : ℕ
  pub dataset_id : ℕ
  pub query_text : Str
  pub expected_answer : Option Str
  pub metadata_json : Option Str

pub record PipelineConfig : Type 0 where
  pub id : ℕ
  pub name : Str
  pub embedding_model : Str
  pub chunk_strategy : Str
  pub chunk_size : ℕ
  pub chunk_overlap : ℕ
  pub top_k : ℕ
  pub metadata_json : Option Str

pub record Chunk : Type 0 where
  pub id : ℕ
  pub document_id : ℕ
  pub content : Str

pub record RunMetadata : Type 0 where
  pub request_id : Option Str
  pub evaluator_execution_mode : Option Str
  pub queue_enqueue_failed : Bool
  pub benchmark_realism : Bool

pub data ExecutionMode : Type 0 where
  heuristic_only llm_only hybrid : ExecutionMode

-- `trace_instrumentation_json`
pub record Instrumentation : Type 0 where
  pub evaluator_execution_mode : ExecutionMode
  pub total_eval_rows : ℕ
  pub heuristic_eval_rows : ℕ
  pub llm_eval_rows : ℕ
  pub llm_generation_calls : ℕ
  pub llm_judge_calls_attempted : ℕ
  pub llm_judge_calls_skipped_by_heuristics : ℕ
  pub llm_judge_calls_used_for_final_judgment : ℕ
  pub estimated_prompt_tokens : Option ℕ
  pub estimated_completion_tokens : Option ℕ
  pub estimated_cost_usd : Option ℕ

pub record Run : Type 0 where
  pub id : ℕ
  pub query_case_id : ℕ
  pub pipeline_config_id : ℕ
  pub status : Status
  pub retrieval_latency_ms : Option ℕ
  pub generation_latency_ms : Option ℕ
  pub evaluation_latency_ms : Option ℕ
  pub total_latency_ms : Option ℕ
  pub metadata_json : Option RunMetadata
  pub trace_instrumentation_json : Option Instrumentation

pub record RetrievalResult (F : Type 0) : Type 0 where
  pub run_id : ℕ
  pub chunk_id : ℕ
  pub rank : ℕ
  pub score : F

pub record GenerationResult : Type 0 where
  pub run_id : ℕ
  pub answer_text : Str
  pub model_id : Str
  pub input_tokens : Option ℕ
  pub output_tokens : Option ℕ

-- `metadata_json["evaluator_type"]`
pub data EvaluatorType : Type 0 where
  llm heuristic : EvaluatorType

pub record EvaluationMetadata (F : Type 0) : Type 0 where
  -- none if the key is missing
  pub evaluator_type : Option EvaluatorType
  pub hybrid_judge_skipped : Bool
  pub hybrid_judge_gate_failed : Bool
  pub hybrid_gate_max_chunk_score : Option F
  pub generation_model : Option Str
  pub generation_input_tokens : Option ℕ
  pub generation_output_tokens : Option ℕ

pub record EvaluationResult (F : Type 0) : Type 0 where
  pub run_id : ℕ
  pub faithfulness : Option F
  pub completeness : Option F
  pub retrieval_relevance : Option F
  pub context_coverage : Option F
  pub groundedness : Option F
  pub failure_type : FailureType
  pub used_llm_judge : Bool
  pub cost_usd : Option ℕ
  pub metadata_json : Option (EvaluationMetadata F)

pub record Db (F : Type 0) : Type 0 where
  pub datasets : List Dataset
  pub query_cases : List QueryCase
  pub pipeline_configs : List PipelineConfig
  pub documents : List ℕ
  pub chunks : List Chunk
  pub runs : List Run
  pub retrieval_results : List (RetrievalResult F)
  pub generation_results : List GenerationResult
  pub evaluation_results : List (EvaluationResult F)
  -- the next id of each autoincrement column
  pub next_dataset_id : ℕ
  pub next_query_case_id : ℕ
  pub next_pipeline_config_id : ℕ
  pub next_run_id : ℕ
