-- ===== src/Judge/Retry.antt =====
-- The judge's verdict, with at most one more call after an answer that cannot be parsed:
-- backend/app/services/llm_judge_evaluation.py. What the provider's client answers to the first and to
-- the second call is a parameter; the constant entries of the metadata are left out.
pub mod Laws
pub mod Range
pub mod Spending
pub mod Total
use context_lens.Prelude.{
  ℕ, ◌+◌, ◌≡◌, refl, Bool, true, false, ◌&&◌, Option, none, some, List, [], ◌∷◌, ◌++◌, map,
  if◌then◌else◌, Result, ok, err, ◌>>=◌, length, take,
}
use context_lens.Prelude.Floats.{Floats}
use context_lens.Prelude.Text.{Str, codes, text_eq}
use context_lens.Domain.FailureTaxonomy.{FailureType, value}
use context_lens.Run.World.{Verdict}
use context_lens.Judge.{
  ScoreKey, faithfulness, completeness, groundedness, retrieval_relevance, context_coverage, Json,
  ParseWarning, empty_judge_response, fenced_json_invalid, balanced_brace_json_invalid,
  json_root_not_object, json_decode_failed, invalid_numeric, failure_type_missing_default_unknown,
  failure_type_unrecognized_normalized_to_unknown, JsonLibrary,
}
use context_lens.Judge.Extract.{extract_judge_json_object}
use context_lens.Judge.Payload.{KeyReading, JudgeParseResult, key_text, parse_judge_payload}

-- what a call of the model gives
pub record Reply : Type 0 where
  pub raw : Str
  pub input_tokens : Option ℕ
  pub output_tokens : Option ℕ

-- the three keys of `_with_retry_metadata`
pub record RetryKeys : Type 0 where
  pub judge_initial_parse_ok : Bool
  pub judge_retry_attempted : Bool
  pub judge_retry_succeeded : Bool

pub record JudgeMetadata : Type 0 where
  pub judge_model : Str
  pub llm_provider : Str
  pub raw_judge_text_preview : Str
  pub judge_parse_ok : Bool
  pub judge_parse_warnings : List ParseWarning
  pub judge_score_clamping_occurred : Bool
  pub judge_raw_failure_type : Option Str
  pub judge_parse_warning_count : ℕ
  -- the entry of the metadata, which is missing if the provider gives none
  pub metadata_input_tokens : Option ℕ
  pub metadata_output_tokens : Option ℕ
  -- none before `_with_retry_metadata`
  pub retry_keys : Option RetryKeys

-- `LLMJudgeEvalResult`: the verdict and its metadata
pub record JudgeEval (F : Type 0) : Type 0 where
  pub verdict : Verdict F
  pub metadata : JudgeMetadata

-- `_compute_judge_parse_ok`
is_critical : ParseWarning → Bool
is_critical empty_judge_response = true
is_critical json_decode_failed = true
is_critical json_root_not_object = true
is_critical balanced_brace_json_invalid = true
is_critical fenced_json_invalid = true
is_critical (invalid_numeric k) = false
is_critical failure_type_missing_default_unknown = false
is_critical failure_type_unrecognized_normalized_to_unknown = false

pub compute_judge_parse_ok : List ParseWarning → Bool
unfolding is_critical
compute_judge_parse_ok [] = true
compute_judge_parse_ok (w ∷ ws) = if is_critical w then false else compute_judge_parse_ok ws

or_zero : Option ℕ → ℕ
or_zero none = 0
or_zero (some n) = n

pub total_tokens : Option ℕ → Option ℕ → Option ℕ
unfolding or_zero
total_tokens none none = none
total_tokens (some a) b = some (a + or_zero b)
total_tokens none (some b) = some (0 + b)

-- an entry that is written only if there is a value
abbrev updated : Option ℕ → Option ℕ → Option ℕ
updated old none = old
updated old (some n) = some n

-- `prov_label`, of the provider's name in lower case
provider_label : Str → Str
provider_label provider =
    if text_eq provider (codes "anthropic") then codes "anthropic" else codes "openai"

module _ {F : Type 0} where
  -- `pr.scores.get(key)`
  pub score_for : ScoreKey → List (KeyReading F) → Option F
  score_for k [] = none
  score_for k (r ∷ rs) =
      let later = score_for k rs in if text_eq (key_text r.key) (key_text k) then r.score else later

  pub with_retry_metadata : JudgeEval F → RetryKeys → Option ℕ → Option ℕ → JudgeEval F
  with_retry_metadata base keys input_tokens output_tokens =
      let m = base.metadata in
      let v = base.verdict in
      record {
        verdict = record v {
          judge_input_tokens = input_tokens;
          judge_output_tokens = output_tokens;
        };
        metadata = record m {
          retry_keys = some keys;
          metadata_input_tokens = updated m.metadata_input_tokens input_tokens;
          metadata_output_tokens = updated m.metadata_output_tokens output_tokens;
        };
      }

module _ {F : Type 0} (fl : Floats F) (json : JsonLibrary F) (upper_beyond_ascii : ℕ → Str)
    (model_id provider : Str) where
  pub result_of : Reply → JudgeParseResult F → JudgeEval F
  unfolding score_for compute_judge_parse_ok provider_label
  result_of reply pr = record {
    verdict = record {
      faithfulness = score_for faithfulness pr.readings;
      completeness = score_for completeness pr.readings;
      groundedness = score_for groundedness pr.readings;
      retrieval_relevance = score_for retrieval_relevance pr.readings;
      context_coverage = score_for context_coverage pr.readings;
      failure_type = elim (pr.failure_type) [ none ↦ none | some ft ↦ some (value ft) ];
      judge_input_tokens = reply.input_tokens;
      judge_output_tokens = reply.output_tokens;
    };
    metadata = record {
      judge_model = model_id;
      llm_provider = provider_label provider;
      raw_judge_text_preview = take 2000 reply.raw;
      judge_parse_ok = compute_judge_parse_ok pr.warnings;
      judge_parse_warnings = pr.warnings;
      judge_score_clamping_occurred = pr.score_clamping_occurred;
      judge_raw_failure_type = pr.raw_failure_type;
      judge_parse_warning_count = length pr.warnings;
      metadata_input_tokens = reply.input_tokens;
      metadata_output_tokens = reply.output_tokens;
      retry_keys = none;
    };
  }

  -- `_build_result_from_raw`
  pub build_result_from_raw : Reply → Result (JudgeEval F)
  unfolding result_of
  build_result_from_raw reply = do
    extracted ← extract_judge_json_object json reply.raw
    pr ← parse_judge_payload fl json upper_beyond_ascii extracted.0 extracted.1
    ok (result_of reply pr)

  -- the second call, after a first result whose answer could not be parsed
  pub evaluate_again : Reply → Result Reply → Result (JudgeEval F)
  unfolding build_result_from_raw with_retry_metadata total_tokens
  evaluate_again reply1 call2 = do
    reply2 ← call2
    r2 ← build_result_from_raw reply2
    ok (
        with_retry_metadata r2
          (record {
            judge_initial_parse_ok = false;
            judge_retry_attempted = true;
            judge_retry_succeeded = r2.metadata.judge_parse_ok;
          })
          (total_tokens reply1.input_tokens reply2.input_tokens)
          (total_tokens reply1.output_tokens reply2.output_tokens))

  -- `evaluate_with_llm_judge`, from the first call on
  unfoldable pub evaluate_with_llm_judge : Result Reply → Result Reply → Result (JudgeEval F)
  unfolding build_result_from_raw evaluate_again with_retry_metadata result_of
  evaluate_with_llm_judge call1 call2 = do
    reply1 ← call1
    r1 ← build_result_from_raw reply1
    (if r1.metadata.judge_parse_ok
        then ok (
            with_retry_metadata r1
              (record {
                judge_initial_parse_ok = true;
                judge_retry_attempted = false;
                judge_retry_succeeded = false;
              })
              reply1.input_tokens reply1.output_tokens)
        else evaluate_again reply1 call2)
