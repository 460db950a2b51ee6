-- ===== src/Judge/Retry/Range.antt =====
-- The range of a verdict's scores: `evaluate_with_llm_judge` of
-- backend/app/services/llm_judge_evaluation.py.
use context_lens.Prelude.{ℕ, ◌≡◌, Option, List, [], ◌∷◌, Result, ok, All, Bool-cases, inl, inr}
use context_lens.Prelude.Floats.{Floats}
use context_lens.Prelude.Text.{Str, text_eq}
use context_lens.Run.World.{Verdict}
use context_lens.Judge.{
  ScoreKey, faithfulness, completeness, groundedness, retrieval_relevance, context_coverage,
  JsonLibrary,
}
use context_lens.Judge.Payload.{KeyReading, key_text, score_keys}
use context_lens.Judge.Payload.Scores.{
  IsCompared, IsUnitScore, read_keys-IsUnitScore, parsed_readings,
}
use context_lens.Judge.Retry.{
  Reply, RetryKeys, JudgeEval, score_for, with_retry_metadata, result_of, build_result_from_raw,
  evaluate_with_llm_judge,
}
use context_lens.Judge.Retry.Laws.{build-Built, evaluate-cases}

module _ {F : Type 0} (fl : Floats F) where
  -- each score of a verdict is missing or from 0 to 1
  pub record IsUnitVerdict (v : Verdict F) : Type 0 where
    pub faithfulness_unit : IsUnitScore fl v.faithfulness
    pub completeness_unit : IsUnitScore fl v.completeness
    pub groundedness_unit : IsUnitScore fl v.groundedness
    pub retrieval_relevance_unit : IsUnitScore fl v.retrieval_relevance
    pub context_coverage_unit : IsUnitScore fl v.context_coverage

  score_for-IsUnitScore :
      (k : ScoreKey) (rs : List (KeyReading F))
      → All (λ (r : KeyReading F). IsUnitScore fl r.score) rs
      → IsUnitScore fl (score_for k rs)
  unfolding score_for
  score_for-IsUnitScore k [] units = tt
  score_for-IsUnitScore k (r ∷ rs) (this, rest) =
      elim (Bool-cases (text_eq (key_text r.key) (key_text k))) [
        | inl e ↦ rw e this
        | inr e ↦ rw e (score_for-IsUnitScore k rs rest)
      ]

  module _ (json : JsonLibrary F) (upper_beyond_ascii : ℕ → Str) (model_id provider : Str) where
    built-IsUnitVerdict :
        IsCompared fl
        → (reply : Reply) {r : JudgeEval F}
        → build_result_from_raw fl json upper_beyond_ascii model_id provider reply ≡ ok r
        → IsUnitVerdict r.verdict
    unfolding result_of
    built-IsUnitVerdict compared reply h =
        let built = build-Built fl json upper_beyond_ascii model_id provider reply h in
        let units = read_keys-IsUnitScore fl compared json built.extracted.0 score_keys (
          parsed_readings fl json upper_beyond_ascii built.extracted.0 built.extracted.1
            built.parsed) in
        rw (built.result) (record {
          faithfulness_unit = score_for-IsUnitScore faithfulness built.pr.readings units;
          completeness_unit = score_for-IsUnitScore completeness built.pr.readings units;
          groundedness_unit = score_for-IsUnitScore groundedness built.pr.readings units;
          retrieval_relevance_unit =
              score_for-IsUnitScore retrieval_relevance built.pr.readings units;
          context_coverage_unit = score_for-IsUnitScore context_coverage built.pr.readings units;
        })

    retry-IsUnitVerdict :
        (base : JudgeEval F) (keys : RetryKeys) (inp out : Option ℕ)
        → IsUnitVerdict base.verdict
        → IsUnitVerdict (with_retry_metadata base keys inp out).verdict
    unfolding with_retry_metadata
    retry-IsUnitVerdict base keys inp out u = record {
      faithfulness_unit = u.faithfulness_unit;
      completeness_unit = u.completeness_unit;
      groundedness_unit = u.groundedness_unit;
      retrieval_relevance_unit = u.retrieval_relevance_unit;
      context_coverage_unit = u.context_coverage_unit;
    }

    -- Whatever the model answers, each score of the verdict is missing or from 0 to 1.
    pub evaluate-IsUnitVerdict :
        IsCompared fl
        → (call1 call2 : Result Reply) {r : JudgeEval F}
        → evaluate_with_llm_judge fl json upper_beyond_ascii model_id provider call1 call2 ≡ ok r
        → IsUnitVerdict r.verdict
    evaluate-IsUnitVerdict compared call1 call2 h =
        elim (evaluate-cases fl json upper_beyond_ascii model_id provider call1 call2 h) [
          | inl once ↦ rw (once.result) (
              retry-IsUnitVerdict once.base _ _ _
                (built-IsUnitVerdict compared once.reply once.built))
          | inr twice ↦ rw (twice.result) (
              retry-IsUnitVerdict twice.base _ _ _
                (built-IsUnitVerdict compared twice.reply2 twice.built))
        ]
