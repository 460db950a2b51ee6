-- ===== src/Judge/Retry/Laws.antt =====
-- How a verdict comes about: `evaluate_with_llm_judge` of
-- backend/app/services/llm_judge_evaluation.py.
use context_lens.Prelude.{
  ℕ, ◌≡◌, refl, true, false, arith, Result, ok, err, Bool-cases, Result-cases, inl, inr, ◌⊎◌,
}
use context_lens.Prelude.Floats.{Floats}
use context_lens.Prelude.Text.{Str}
use context_lens.Judge.{JsonLibrary}
use context_lens.Judge.Extract.{extract_judge_json_object, Extracted}
use context_lens.Judge.Payload.{JudgeParseResult, parse_judge_payload}
use context_lens.Judge.Retry.{
  Reply, JudgeEval, total_tokens, with_retry_metadata, result_of, build_result_from_raw,
  evaluate_again, evaluate_with_llm_judge,
}

module _ {F : Type 0} (fl : Floats F) where
  module _ (json : JsonLibrary F) (upper_beyond_ascii : ℕ → Str) (model_id provider : Str) where
    -- A result built from an answer, step by step.
    pub record Built (reply : Reply) (r : JudgeEval F) : Type 0 where
      pub extracted : Extracted json
      pub pr : JudgeParseResult F
      pub parsed : parse_judge_payload fl json upper_beyond_ascii extracted.0 extracted.1 ≡ ok pr
      pub result : r ≡ result_of fl json upper_beyond_ascii model_id provider reply pr

    pub build-Built :
        (reply : Reply) {r : JudgeEval F}
        → build_result_from_raw fl json upper_beyond_ascii model_id provider reply ≡ ok r
        → Built reply r
    unfolding build_result_from_raw
    build-Built reply h = elim (Result-cases (extract_judge_json_object json reply.raw)) [
      | inr (x, e) ↦ absurd (ground arith)
      | inl (extracted, e) ↦
          elim (Result-cases
            (parse_judge_payload fl json upper_beyond_ascii extracted.0 extracted.1)) [
              | inr (x, e') ↦ absurd (ground arith)
              | inl (pr, e') ↦ record {
                extracted = extracted;
                pr = pr;
                parsed = e';
                result = ground arith;
              }
            ]
    ]

    -- the result of the first answer, or of the second one
    pub record Once (call1 : Result Reply) (r : JudgeEval F) : Type 0 where
      pub reply : Reply
      pub base : JudgeEval F
      pub answered : call1 ≡ ok reply
      pub built : build_result_from_raw fl json upper_beyond_ascii model_id provider reply ≡ ok base
      pub parsed : base.metadata.judge_parse_ok ≡ true
      pub result :
          r
          ≡ with_retry_metadata base
              (record {
                judge_initial_parse_ok = true;
                judge_retry_attempted = false;
                judge_retry_succeeded = false;
              })
              reply.input_tokens
              reply.output_tokens

    pub record Twice (call1 call2 : Result Reply) (r : JudgeEval F) : Type 0 where
      pub reply1 : Reply
      pub reply2 : Reply
      pub base : JudgeEval F
      pub answered1 : call1 ≡ ok reply1
      pub answered2 : call2 ≡ ok reply2
      pub first : JudgeEval F
      pub built1 :
          build_result_from_raw fl json upper_beyond_ascii model_id provider reply1 ≡ ok first
      pub unparsed : first.metadata.judge_parse_ok ≡ false
      pub built :
          build_result_from_raw fl json upper_beyond_ascii model_id provider reply2 ≡ ok base
      pub result :
          r
          ≡ with_retry_metadata base
              (record {
                judge_initial_parse_ok = false;
                judge_retry_attempted = true;
                judge_retry_succeeded = base.metadata.judge_parse_ok;
              })
              (total_tokens reply1.input_tokens reply2.input_tokens)
              (total_tokens reply1.output_tokens reply2.output_tokens)

    again-Twice :
        (reply1 : Reply) (call2 : Result Reply) (first : JudgeEval F) {r : JudgeEval F}
        → build_result_from_raw fl json upper_beyond_ascii model_id provider reply1 ≡ ok first
        → first.metadata.judge_parse_ok ≡ false
        → evaluate_again fl json upper_beyond_ascii model_id provider reply1 call2 ≡ ok r
        → Twice (ok reply1) call2 r
    unfolding evaluate_again
    again-Twice reply1 call2 first built1 unparsed h = elim (Result-cases call2) [
      | inr (x, c) ↦ absurd (ground arith)
      | inl (reply2, c) ↦
          elim (Result-cases
            (build_result_from_raw fl json upper_beyond_ascii model_id provider reply2)) [
              | inr (x, e) ↦ absurd (ground arith)
              | inl (r2, e) ↦ record {
                reply1 = reply1;
                reply2 = reply2;
                base = r2;
                answered1 = refl;
                answered2 = c;
                first = first;
                built1 = built1;
                unparsed = unparsed;
                built = e;
                result = ground arith;
              }
            ]
    ]

    pub evaluate-cases :
        (call1 call2 : Result Reply) {r : JudgeEval F}
        → evaluate_with_llm_judge fl json upper_beyond_ascii model_id provider call1 call2 ≡ ok r
        → Once call1 r ⊎ Twice call1 call2 r
    unfolding evaluate_with_llm_judge
    evaluate-cases (err x) call2 h = absurd (ground arith)
    evaluate-cases (ok reply1) call2 h =
        elim (Result-cases
          (build_result_from_raw fl json upper_beyond_ascii model_id provider reply1)) [
            | inr (x, e) ↦ absurd (ground arith)
            | inl (r1, e) ↦ elim (Bool-cases r1.metadata.judge_parse_ok) [
              | inl parsed ↦ inl (record {
                reply = reply1;
                base = r1;
                answered = refl;
                built = e;
                parsed = parsed;
                result = ground arith;
              })
              | inr failed ↦ inr (again-Twice reply1 call2 r1 e failed (ground arith))
            ]
          ]
