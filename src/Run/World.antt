-- ===== src/Run/World.antt =====
-- What the phases of a run take from outside: the embedder with the database's vector search, the
-- LLM provider, the clock, and the token prices of the configuration.
use context_lens.Prelude.{ℕ, Option, List, Result, Bool}
use context_lens.Prelude.Floats.{Floats}
use context_lens.Prelude.Text.{Str}
use context_lens.Trace.Rows.{Db}

-- `GenerationModelResult` of backend/app/services/rag_generation.py
pub record Answer : Type 0 where
  pub answer_text : Str
  pub model_id : Str
  pub input_tokens : Option ℕ
  pub output_tokens : Option ℕ

-- `LLMJudgeEvalResult` of backend/app/services/llm_judge_evaluation.py
pub record Verdict (F : Type 0) : Type 0 where
  pub faithfulness : Option F
  pub completeness : Option F
  pub groundedness : Option F
  pub retrieval_relevance : Option F
  pub context_coverage : Option F
  pub failure_type : Option Str
  pub judge_input_tokens : Option ℕ
  pub judge_output_tokens : Option ℕ

pub record World (F : Type 0) : Type 0 where
  pub floats : Floats F
  pub upper_beyond_ascii : ℕ → Str
  -- the hits of a query text under `top_k` and a document filter, best first, as (chunk_id, score)
  pub search_chunks : Db F → Str → ℕ → Option ℕ → Result (List (ℕ × F))
  -- the configured provider's answer to a query over chunk bodies
  pub provider_answer : Str → List Str → Result Answer
  -- the judge's verdict on query, chunk bodies, generated answer and reference answer
  pub evaluate_with_llm_judge : Str → List Str → Str → Option Str → Result (Verdict F)
  -- `estimate_usd_from_tokens`
  pub estimate_usd_from_tokens : Option ℕ → Option ℕ → Option ℕ
  -- measured milliseconds of the phases
  pub retrieval_ms : ℕ
  pub generation_ms : ℕ
  pub evaluation_ms : ℕ
  -- `require_llm_api_key_for_full_mode` does not raise
  pub api_key_configured : Bool
