-- ===== src/Tests/Judges.antt =====
-- Tests and examples of the judge. Scores are hundredths.
use context_lens.Prelude.{
  ℕ, ◌≡◌, ◌≢◌, refl, false, Option, none, some, [], ◌∷◌, ◌++◌, arith, if◌then◌else◌, Result, ok,
  err, other, value_error, api_error, drop, Bool-cases, inl, inr, ◌⊎◌,
}
use context_lens.Prelude.Text.{Str, codes, text_eq, find, strip, starts_with}
use context_lens.Judge.{
  ScoreKey, faithfulness, completeness, groundedness, retrieval_relevance, context_coverage, number,
  huge_int, Fields, Root, object, another, JsonLibrary,
}
use context_lens.Judge.Extract.{extract_judge_json_object, fenced_object, braced}
use context_lens.Judge.Extract.Braces.{IsBalanced, braced-IsBalanced}
use context_lens.Judge.Extract.Total.{LoadsObjects}
use context_lens.Judge.Payload.{field_at, key_text, parse_judge_payload}
use context_lens.Judge.Payload.Scores.{IsCompared}
use context_lens.Judge.Retry.{Reply, JudgeEval, RetryKeys, evaluate_with_llm_judge}
use context_lens.Judge.Retry.Range.{IsUnitVerdict, evaluate-IsUnitVerdict}
use context_lens.Judge.Retry.Spending.{SpendsOnce, SpendsTwice, evaluate-spends}
use context_lens.Judge.Retry.Total.{IsDecodable, evaluate_total, evaluate_raises}
use context_lens.Tests.Data.{test_floats}

abbrev answered_text : Str
answered_text = codes "{\"completeness\": 2}"

abbrev read_fields : Fields ℕ
read_fields = (codes "completeness", number 200) ∷ []

-- a decoder that knows three texts, one of which it raises on
read_loads : Str → Result (Option (Root ℕ))
read_loads s =
    if text_eq s answered_text
    then ok (some (object read_fields))
    else if text_eq s (codes "7")
    then ok (some another)
    else if text_eq s (codes "{1e}")
    then err value_error
    else ok none

abbrev library : JsonLibrary ℕ
library = record { loads = read_loads; float_of_text = λ s. none; str_of = λ v. [] }

-- a decoder that finds an integer beyond the floats in every text
abbrev huge_library : JsonLibrary ℕ
huge_library = record {
  loads = λ s. ok (some (object ((codes "groundedness", huge_int) ∷ [])));
  float_of_text = λ s. none;
  str_of = λ v. [];
}

abbrev upper_alone : ℕ → Str
upper_alone c = c ∷ []

abbrev good_reply : Reply
good_reply = record {
  raw = codes "Here: {\"completeness\": 2} done";
  input_tokens = some 10;
  output_tokens = none;
}

abbrev bad_reply : Reply
bad_reply = record { raw = codes "no {idea}"; input_tokens = some 5; output_tokens = none }

abbrev judged : Result (JudgeEval ℕ)
judged =
    evaluate_with_llm_judge test_floats library upper_alone (codes "judge-model") (codes "openai")
      (ok bad_reply) (ok good_reply)

-- The first answer cannot be parsed, so the second one decides, clamped, with the tokens of both.
judged_twice :
    (r : JudgeEval ℕ) × (judged ≡ ok r)
    × (r.verdict.completeness ≡ some 100)
    × (r.verdict.judge_input_tokens ≡ some 15)
unfolding evaluate_with_llm_judge extract_judge_json_object parse_judge_payload read_loads text_eq
    find strip starts_with field_at
judged_twice = (_, refl, refl, refl)

-- What `json.loads` raises beyond a JSONDecodeError is raised by the evaluation.
loads_raises :
    evaluate_with_llm_judge test_floats library upper_alone
      (codes "judge-model")
      (codes "openai")
      (ok (record { raw = codes "so {1e}"; input_tokens = none; output_tokens = none }))
      (ok good_reply)
    ≡ err value_error
unfolding evaluate_with_llm_judge extract_judge_json_object read_loads text_eq find strip
loads_raises = refl

hundredths-IsCompared : IsCompared test_floats
hundredths-IsCompared = record {
  lt_asym = λ a b h. ground arith;
  lt_irrefl = λ a. ground arith;
  zero_lt_one = refl;
}

evaluate-IsUnitVerdict_example : IsUnitVerdict test_floats judged_twice.0.verdict
evaluate-IsUnitVerdict_example =
    evaluate-IsUnitVerdict test_floats library upper_alone (codes "judge-model") (codes "openai")
      hundredths-IsCompared (ok bad_reply) (ok good_reply) judged_twice.1

evaluate-spends_example :
    (keys : RetryKeys) × (judged_twice.0.metadata.retry_keys ≡ some keys)
    × (SpendsOnce test_floats library upper_alone
          (codes "judge-model")
          (codes "openai")
          bad_reply
          judged_twice.0
          keys
        ⊎ ((reply2 : Reply) × (◌≡◌ {A = Result Reply} (ok good_reply) (ok reply2))
            × SpendsTwice test_floats library upper_alone
                (codes "judge-model")
                (codes "openai")
                bad_reply
                reply2
                judged_twice.0
                keys))
evaluate-spends_example =
    evaluate-spends test_floats library upper_alone (codes "judge-model") (codes "openai") bad_reply
      (ok good_reply) judged_twice.1

-- the brace scan on the text of the good reply
braced_good : braced good_reply.raw ≡ some answered_text
unfolding braced find
braced_good = refl

braced-IsBalanced_example :
    ((start : ℕ) × (rest : Str) × (find good_reply.raw (codes "{") 0 ≡ some start)
      × (answered_text ++ rest ≡ drop start good_reply.raw))
    × IsBalanced answered_text
braced-IsBalanced_example = braced-IsBalanced good_reply.raw answered_text braced_good

library-LoadsObjects : LoadsObjects library
unfolding read_loads text_eq
library-LoadsObjects r h = elim (Bool-cases (text_eq (b'{' ∷ r) answered_text)) [
  | inl e ↦ absurd (ground arith)
  | inr e ↦ absurd (ground arith)
]

read_fields-fits : (k : ScoreKey) → field_at read_fields (key_text k) ≢ some huge_int
unfolding field_at text_eq
read_fields-fits faithfulness h = absurd (ground arith)
read_fields-fits completeness h = absurd (ground arith)
read_fields-fits groundedness h = absurd (ground arith)
read_fields-fits retrieval_relevance h = absurd (ground arith)
read_fields-fits context_coverage h = absurd (ground arith)

-- what the library gives for a text, but for the one that it raises on
abbrev Decoded : Str → Type 0
Decoded piece =
    (root : Option (Root ℕ)) × (read_loads piece ≡ ok root)
    × ((fields : Fields ℕ)
        → root ≡ some (object fields)
        → (k : ScoreKey) → field_at fields (key_text k) ≢ some huge_int)

read_loads-Decoded : (s : Str) → text_eq s (codes "{1e}") ≡ false → Decoded s
unfolding read_loads
read_loads-Decoded s calm = elim (Bool-cases (text_eq s answered_text)) [
  | inl e ↦ (
    some (object read_fields),
    ground arith,
    λ fields h k. let same : fields ≡ read_fields = cc in rw same (read_fields-fits k),
  )
  | inr e ↦ elim (Bool-cases (text_eq s (codes "7"))) [
    | inl e' ↦ (some another, ground arith, λ fields h k. absurd (ground arith))
    | inr e' ↦ (none, ground arith, λ fields h k. absurd (ground arith))
  ]
]

bad-IsDecodable :
    IsDecodable test_floats library upper_alone (codes "judge-model") (codes "openai") bad_reply
unfolding fenced_object braced find strip text_eq
bad-IsDecodable piece (inl e) = absurd (ground arith)
bad-IsDecodable piece (inr (inl e)) =
    let same : piece ≡ codes "{idea}" = cc in rw same (read_loads-Decoded (codes "{idea}") refl)
bad-IsDecodable piece (inr (inr e)) = rw e (read_loads-Decoded bad_reply.raw refl)

good-IsDecodable :
    IsDecodable test_floats library upper_alone (codes "judge-model") (codes "openai") good_reply
unfolding fenced_object braced find strip text_eq
good-IsDecodable piece (inl e) = absurd (ground arith)
good-IsDecodable piece (inr (inl e)) =
    let same : piece ≡ answered_text = cc in rw same (read_loads-Decoded answered_text refl)
good-IsDecodable piece (inr (inr e)) = rw e (read_loads-Decoded good_reply.raw refl)

evaluate_total_example :
    (r : JudgeEval ℕ) × (evaluate_with_llm_judge test_floats library upper_alone
        (codes "judge-model")
        (codes "openai")
        (ok bad_reply)
        (ok good_reply)
      ≡ ok r)
evaluate_total_example =
    evaluate_total test_floats library upper_alone (codes "judge-model") (codes "openai")
      library-LoadsObjects bad_reply good_reply bad-IsDecodable good-IsDecodable

huge_found :
    extract_judge_json_object huge_library good_reply.raw
    ≡ ok ((codes "groundedness", huge_int) ∷ [], [])
unfolding extract_judge_json_object find strip starts_with
huge_found = refl

huge_field :
    field_at {F = ℕ} ((codes "groundedness", huge_int) ∷ []) (key_text groundedness) ≡ some huge_int
unfolding field_at text_eq
huge_field = refl

evaluate_raises_example :
    evaluate_with_llm_judge test_floats huge_library upper_alone
      (codes "judge-model")
      (codes "openai")
      (ok good_reply)
      (err api_error)
    ≡ err other
evaluate_raises_example =
    evaluate_raises test_floats huge_library upper_alone (codes "judge-model") (codes "openai")
      good_reply (err api_error) ((codes "groundedness", huge_int) ∷ [], []) groundedness huge_found
      huge_field
