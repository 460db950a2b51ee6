-- ===== src/Judge.antt =====
-- What the judge's answer is read as: the values of a JSON object, the warnings and the result of
-- backend/app/services/llm_judge_parse.py. `json.loads`, `float` of a text and `str` of a value are
-- parameters.
pub mod Extract
pub mod Payload
pub mod Retry
use context_lens.Prelude.{ℕ, Bool, Option, List, Result}
use context_lens.Prelude.Text.{Str}
use context_lens.Domain.FailureTaxonomy.{FailureType}

-- `SCORE_KEYS`
pub data ScoreKey : Type 0 where
  faithfulness completeness groundedness retrieval_relevance context_coverage : ScoreKey

-- A value of a decoded object: `number` is a float or an integer that a float can hold, `huge_int`
-- an integer beyond them, `compound` a list or an object.
pub data Json (F : Type 0) : Type 0 where
  null : Json F
  boolean : Bool → Json F
  number : F → Json F
  huge_int : Json F
  text : Str → Json F
  compound : Str → Json F

abbrev pub Fields : Type 0 → Type 0
Fields F = List (Str × Json F)

-- what `json.loads` gives: an object, or a value of another kind
pub data Root (F : Type 0) : Type 0 where
  object : Fields F → Root F
  another : Root F

pub data ParseWarning : Type 0 where
  empty_judge_response fenced_json_invalid balanced_brace_json_invalid : ParseWarning
  json_root_not_object json_decode_failed : ParseWarning
  invalid_numeric : ScoreKey → ParseWarning
  failure_type_missing_default_unknown : ParseWarning
  failure_type_unrecognized_normalized_to_unknown : ParseWarning

-- the library calls on decoded values; `float_of_text` is none where `float` raises a `ValueError`
pub record JsonLibrary (F : Type 0) : Type 0 where
  -- none for a `JSONDecodeError`, an exception for any other one, such as the plain `ValueError` of an
  -- integer with too many digits or the `RecursionError` of a deep nesting
  pub loads : Str → Result (Option (Root F))
  pub float_of_text : Str → Option F
  pub str_of : Json F → Str
