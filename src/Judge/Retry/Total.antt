-- ===== src/Judge/Retry/Total.antt =====
-- When a verdict is given: `evaluate_with_llm_judge` of
-- backend/app/services/llm_judge_evaluation.py.
use context_lens.Prelude.{ℕ, ◌≡◌, some, [], arith, Result, ok, err, other, Result-cases, inl, inr}
use context_lens.Prelude.Floats.{Floats}
use context_lens.Prelude.Text.{Str, strip}
use context_lens.Judge.{ScoreKey, huge_int, JsonLibrary}
use context_lens.Judge.Extract.{extract_judge_json_object, Extracted}
use context_lens.Judge.Extract.Total.{LoadsObjects, Decodes, extract_total}
use context_lens.Judge.Payload.{field_at, key_text}
use context_lens.Judge.Payload.Scores.{IsReadable, parse_total, parse_raises}
use context_lens.Judge.Retry.{
  Reply, JudgeEval, result_of, build_result_from_raw, evaluate_again, evaluate_with_llm_judge,
}

module _ {F : Type 0} (fl : Floats F) where
  module _ (json : JsonLibrary F) (upper_beyond_ascii : ℕ → Str) (model_id provider : Str) where
    -- The texts that are decoded of an answer raise nothing but a `JSONDecodeError`, and a decoded
    -- object has no score that is an integer beyond the floats.
    abbrev pub IsDecodable : Reply → Type 0
    IsDecodable reply = Decodes json (IsReadable fl json) (strip reply.raw)

    nothing-IsReadable : IsReadable fl json []
    unfolding field_at
    nothing-IsReadable k h = absurd (ground arith)

    build_total :
        LoadsObjects json
        → (reply : Reply) → IsDecodable reply
        → (r : JudgeEval F) × (build_result_from_raw fl json upper_beyond_ascii model_id provider
              reply
            ≡ ok r)
    unfolding build_result_from_raw
    build_total objects reply decodes =
        let (found, e, readable) =
          extract_total json (IsReadable fl json) nothing-IsReadable objects reply.raw decodes in
        let (pr, e') = parse_total fl json upper_beyond_ascii found.0 found.1 readable in
        (result_of fl json upper_beyond_ascii model_id provider reply pr, ground arith)

    again_total :
        LoadsObjects json
        → (reply1 reply2 : Reply) → IsDecodable reply2
        → (r : JudgeEval F) × (evaluate_again fl json upper_beyond_ascii model_id provider reply1
              (ok reply2)
            ≡ ok r)
    unfolding evaluate_again
    again_total objects reply1 reply2 decodes =
        let (r2, e) = build_total objects reply2 decodes in
        elim (Result-cases
          (evaluate_again fl json upper_beyond_ascii model_id provider reply1 (ok reply2))) [
            | inl (r, q) ↦ (r, q)
            | inr (x, q) ↦ absurd (ground arith)
          ]

    -- Two answers of the model give a verdict, for a decoder that gives an object, if anything, for a
    -- text that a brace begins: if the texts that are decoded of these two answers (a fenced object,
    -- the text between matching braces, and the whole text) raise nothing but a JSONDecodeError, and
    -- the objects that are decoded of them have no score that is an integer beyond the floats.
    pub evaluate_total :
        LoadsObjects json
        → (reply1 reply2 : Reply) → IsDecodable reply1
        → IsDecodable reply2
        → (r : JudgeEval F) × (evaluate_with_llm_judge fl json upper_beyond_ascii model_id provider
              (ok reply1)
              (ok reply2)
            ≡ ok r)
    unfolding evaluate_with_llm_judge
    evaluate_total objects reply1 reply2 decodes1 decodes2 =
        let (r1, e) = build_total objects reply1 decodes1 in
        let (r2, e') = again_total objects reply1 reply2 decodes2 in
        elim (Result-cases (
          evaluate_with_llm_judge fl json upper_beyond_ascii model_id provider (ok reply1)
            (ok reply2))) [ inl (r, q) ↦ (r, q) | inr (x, q) ↦ absurd (ground arith) ]

    -- If the first answer has, under one of the five keys, an integer that no float can hold, the
    -- evaluation raises, and no second call can help it.
    pub evaluate_raises :
        (reply1 : Reply) (call2 : Result Reply) (found : Extracted json) (k : ScoreKey)
        → extract_judge_json_object json reply1.raw ≡ ok found
        → field_at found.0 (key_text k) ≡ some huge_int
        → evaluate_with_llm_judge fl json upper_beyond_ascii model_id provider (ok reply1) call2
          ≡ err other
    unfolding evaluate_with_llm_judge build_result_from_raw
    evaluate_raises reply1 call2 found k extracted huge =
        ground (arith, parse_raises fl json upper_beyond_ascii found.0 found.1 k huge)
