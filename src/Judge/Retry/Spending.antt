-- ===== src/Judge/Retry/Spending.antt =====
-- The calls and the tokens of a verdict: `evaluate_with_llm_judge` of
-- backend/app/services/llm_judge_evaluation.py.
use context_lens.Prelude.{
  ℕ, ◌+◌, ◌≡◌, refl, ap, Bool, true, false, ◌&&◌, Option, none, some, Result, ok, arith, inl, inr,
  ◌⊎◌,
}
use context_lens.Trace.Write.{is_none}
use context_lens.Prelude.Floats.{Floats}
use context_lens.Prelude.Text.{Str}
use context_lens.Judge.{JsonLibrary}
use context_lens.Judge.Retry.{
  Reply, RetryKeys, JudgeEval, total_tokens, with_retry_metadata, build_result_from_raw,
  evaluate_with_llm_judge,
}
use context_lens.Judge.Retry.Laws.{evaluate-cases}

-- The count of two calls: unknown if both counts are, and else their sum, where an unknown one is 0.
abbrev known : Option ℕ → ℕ
known none = 0
known (some n) = n

abbrev pub Adds : Option ℕ → Option ℕ → Option ℕ → Type 0
Adds a b total = (known total ≡ known a + known b) × (is_none total ≡ (is_none a && is_none b))

total_tokens-Adds : (a b : Option ℕ) → Adds a b (total_tokens a b)
unfolding total_tokens
total_tokens-Adds none none = (refl, refl)
total_tokens-Adds none (some n) = (refl, refl)
total_tokens-Adds (some m) none = (omega arith, refl)
total_tokens-Adds (some m) (some n) = (refl, refl)

module _ {F : Type 0} (fl : Floats F) where
  module _ (json : JsonLibrary F) (upper_beyond_ascii : ℕ → Str) (model_id provider : Str) where
    -- an answer whose result says whether it could be parsed
    abbrev pub Parses : Reply → Bool → Type 0
    Parses reply parsed =
        (first : JudgeEval F) × (build_result_from_raw fl json upper_beyond_ascii model_id provider
            reply
          ≡ ok first)
        × (first.metadata.judge_parse_ok ≡ parsed)

    -- a verdict of one answer: no second call has a part in it
    abbrev pub SpendsOnce : Reply → JudgeEval F → RetryKeys → Type 0
    SpendsOnce reply1 r keys =
        Parses reply1 true
        × ((call : Result Reply)
            → evaluate_with_llm_judge fl json upper_beyond_ascii model_id provider (ok reply1) call
              ≡ ok r)
        × (keys.judge_initial_parse_ok ≡ true)
        × (keys.judge_retry_attempted ≡ false)
        × (keys.judge_retry_succeeded ≡ false)
        × (r.metadata.judge_parse_ok ≡ true)
        × (r.verdict.judge_input_tokens ≡ reply1.input_tokens)
        × (r.verdict.judge_output_tokens ≡ reply1.output_tokens)

    -- and one of two answers
    abbrev pub SpendsTwice : Reply → Reply → JudgeEval F → RetryKeys → Type 0
    SpendsTwice reply1 reply2 r keys =
        Parses reply1 false
        × Parses reply2 r.metadata.judge_parse_ok
        × (keys.judge_initial_parse_ok ≡ false)
        × (keys.judge_retry_attempted ≡ true)
        × (keys.judge_retry_succeeded ≡ r.metadata.judge_parse_ok)
        × Adds reply1.input_tokens reply2.input_tokens r.verdict.judge_input_tokens
        × Adds reply1.output_tokens reply2.output_tokens r.verdict.judge_output_tokens

    once-any_call :
        (reply1 : Reply) (base : JudgeEval F) (call : Result Reply)
        → build_result_from_raw fl json upper_beyond_ascii model_id provider reply1 ≡ ok base
        → base.metadata.judge_parse_ok ≡ true
        → evaluate_with_llm_judge fl json upper_beyond_ascii model_id provider (ok reply1) call
          ≡ ok (
              with_retry_metadata base
                (record {
                  judge_initial_parse_ok = true;
                  judge_retry_attempted = false;
                  judge_retry_succeeded = false;
                })
                reply1.input_tokens
                reply1.output_tokens)
    unfolding evaluate_with_llm_judge
    once-any_call reply1 base call built parsed = ground arith

    -- A verdict comes either of a first answer that could be parsed, with that answer's tokens, and is
    -- the same whatever a second call would give; or of a first answer that could not be parsed and a
    -- second one, with the sum of their tokens, where an unknown count is 0 and two unknown ones stay
    -- unknown. The metadata say which, and whether the second answer could be parsed.
    pub evaluate-spends :
        (reply1 : Reply) (call2 : Result Reply) {r : JudgeEval F}
        → evaluate_with_llm_judge fl json upper_beyond_ascii model_id provider (ok reply1) call2
          ≡ ok r
        → (keys : RetryKeys) × (r.metadata.retry_keys ≡ some keys)
          × (SpendsOnce reply1 r keys
              ⊎ ((reply2 : Reply) × (call2 ≡ ok reply2) × SpendsTwice reply1 reply2 r keys))
    unfolding with_retry_metadata
    evaluate-spends reply1 call2 {r} h =
        elim (evaluate-cases fl json upper_beyond_ascii model_id provider (ok reply1) call2 h) [
          | inl once ↦
              let same : once.reply ≡ reply1 = cc (once.answered) in
              let built = rw same at (once.built) in
              rw (once.result) (
                _,
                refl,
                inl (
                  (once.base, built, once.parsed),
                  (λ call. rw same (once-any_call reply1 once.base call built (once.parsed))),
                  refl,
                  refl,
                  refl,
                  once.parsed,
                  ap (λ (x : Reply). x.input_tokens) same,
                  ap (λ (x : Reply). x.output_tokens) same,
                ),
              )
          | inr twice ↦
              let same : twice.reply1 ≡ reply1 = cc (twice.answered1) in
              rw (twice.result) (
                _,
                refl,
                inr (
                  twice.reply2,
                  twice.answered2,
                  (
                    (twice.first, rw same at (twice.built1), twice.unparsed),
                    (twice.base, twice.built, refl),
                    refl,
                    refl,
                    refl,
                    rw same (total_tokens-Adds reply1.input_tokens (twice.reply2).input_tokens),
                    rw same (total_tokens-Adds reply1.output_tokens (twice.reply2).output_tokens),
                  ),
                ),
              )
        ]
