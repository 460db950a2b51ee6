-- ===== src/Judge/Payload.antt =====
-- Scores and label from the decoded object, `parse_judge_payload` of
-- backend/app/services/llm_judge_parse.py. `float` raises an `OverflowError` on a huge integer, which
-- no handler there catches; it is `other` here.
pub mod Scores
use context_lens.Prelude.{
  ℕ, ◌≡◌, refl, Bool, true, false, ◌&&◌, ◌||◌, not, Option, none, some, List, [], ◌∷◌, ◌++◌,
  if◌then◌else◌, Result, ok, err, other, ◌>>=◌,
}
use context_lens.Prelude.Floats.{Floats, fmax, fmin}
use context_lens.Prelude.Text.{Str, codes, strip, text_eq}
use context_lens.Domain.FailureTaxonomy.{FailureType, unknown, value, upper, normalize_failure_type}
use context_lens.Judge.{
  ScoreKey, faithfulness, completeness, groundedness, retrieval_relevance, context_coverage, Json,
  null, boolean, number, huge_int, text, compound, Fields, ParseWarning, invalid_numeric,
  failure_type_missing_default_unknown, failure_type_unrecognized_normalized_to_unknown,
  JsonLibrary,
}

abbrev pub score_keys : List ScoreKey
score_keys =
    faithfulness ∷ completeness ∷ groundedness ∷ retrieval_relevance ∷ context_coverage ∷ []

abbrev pub key_text : ScoreKey → Str
key_text faithfulness = codes "faithfulness"
key_text completeness = codes "completeness"
key_text groundedness = codes "groundedness"
key_text retrieval_relevance = codes "retrieval_relevance"
key_text context_coverage = codes "context_coverage"

-- `data[key]`, none if the key is missing
unfoldable pub field_at : {F : Type 0} → Fields F → Str → Option (Json F)
field_at [] key = none
field_at ((k, v) ∷ fields) key =
    let later = field_at fields key in if text_eq k key then some v else later

-- what one round of the loop over the keys finds
pub record KeyReading (F : Type 0) : Type 0 where
  pub key : ScoreKey
  -- `scores_raw[k]`, none if the key is missing
  pub raw : Option (Json F)
  pub invalid : Bool
  -- `scores[k]`
  pub score : Option F
  pub clamped : Bool

pub record JudgeParseResult (F : Type 0) : Type 0 where
  pub readings : List (KeyReading F)
  pub failure_type : Option FailureType
  pub warnings : List ParseWarning
  pub score_clamping_occurred : Bool
  pub raw_failure_type : Option Str

module _ {F : Type 0} (fl : Floats F) where
  -- `max(0.0, min(1.0, x))`
  pub clamp01 : F → F
  clamp01 x = fmax fl (fl.lit 0 1) (fmin fl (fl.lit 10 1) x)

module _ {F : Type 0} (fl : Floats F) (json : JsonLibrary F) where
  -- a number that is not NaN
  not_nan : F → Option F
  not_nan x = if fl.eq x x then some x else none

  -- `_coerce_raw_number`
  pub coerce_raw_number : Json F → Result (Option F)
  unfolding not_nan
  coerce_raw_number null = ok none
  coerce_raw_number (boolean b) = ok (not_nan (if b then fl.of_nat 1 else fl.of_nat 0))
  coerce_raw_number (number x) = ok (not_nan x)
  coerce_raw_number huge_int = err other
  coerce_raw_number (text s) = elim (json.float_of_text s) [
    | none ↦ ok none
    | some x ↦ ok (not_nan x)
  ]
  coerce_raw_number (compound s) = ok none

  -- `_clamp01_val`, which coerces by the same steps
  pub clamp01_val : Json F → Result (Option F)
  unfolding clamp01
  clamp01_val v = do
    x ← coerce_raw_number v
    ok (elim x [ none ↦ none | some y ↦ some (clamp01 fl y) ])

  -- `v is None`
  is_null : Json F → Bool
  is_null null = true
  is_null (boolean b) = false
  is_null (number x) = false
  is_null huge_int = false
  is_null (text s) = false
  is_null (compound s) = false

  abs_of : F → F
  abs_of x = if fl.lt x (fl.lit 0 1) then fl.neg x else x

  -- the test for `clamping_any`
  was_clamped : Option F → Option F → Bool
  unfolding abs_of
  was_clamped none clamped = false
  was_clamped (some raw) none = false
  was_clamped (some raw) (some clamped) =
      fl.lt raw (fl.lit 0 1)
      || fl.lt (fl.lit 10 1) raw
      || fl.lt (fl.lit 1 12) (abs_of (fl.sub raw clamped))

  missing_key : ScoreKey → KeyReading F
  missing_key k = record { key = k; raw = none; invalid = false; score = none; clamped = false }

  is_none_score : Option F → Bool
  is_none_score none = true
  is_none_score (some x) = false

  pub read_key : Fields F → ScoreKey → Result (KeyReading F)
  unfolding missing_key is_null was_clamped is_none_score coerce_raw_number clamp01_val
  read_key fields k = elim (field_at fields (key_text k)) [
    | none ↦ ok (missing_key k)
    | some v ↦ do
      raw_num ← coerce_raw_number v
      clamped ← clamp01_val v
      ok (record {
        key = k;
        raw = some v;
        invalid = is_none_score raw_num && not (is_null v);
        score = clamped;
        clamped = was_clamped raw_num clamped;
      })
  ]

  -- `for k in SCORE_KEYS`
  pub read_keys : Fields F → List ScoreKey → Result (List (KeyReading F))
  unfolding read_key
  read_keys fields [] = ok []
  read_keys fields (k ∷ ks) = do
    reading ← read_key fields k
    rest ← read_keys fields ks
    ok (reading ∷ rest)

  invalid_warnings : List (KeyReading F) → List ParseWarning
  invalid_warnings [] = []
  invalid_warnings (r ∷ rs) =
      if r.invalid then invalid_numeric r.key ∷ invalid_warnings rs else invalid_warnings rs

  any_clamped : List (KeyReading F) → Bool
  any_clamped [] = false
  any_clamped (r ∷ rs) = r.clamped || any_clamped rs

  -- `str(data["failure_type"]).strip() or None`
  raw_label : Fields F → Option Str
  raw_label fields = elim (field_at fields (codes "failure_type")) [
    | none ↦ none
    | some null ↦ none
    | some v ↦ elim (strip (json.str_of v)) [ [] ↦ none | c ∷ s ↦ some (c ∷ s) ]
  ]

  module _ (upper_beyond_ascii : ℕ → Str) where
    -- `ft == "UNKNOWN" and raw_ft.upper() not in ("UNKNOWN", "")`
    is_unrecognized : Option FailureType → Str → Bool
    is_unrecognized (some unknown) raw =
        not (text_eq (upper upper_beyond_ascii raw) (codes "UNKNOWN"))
        && not (text_eq (upper upper_beyond_ascii raw) [])
    is_unrecognized ft raw = false

    abbrev Label : Type 0
    Label = Option FailureType × List ParseWarning

    label_of : Option Str → Label
    unfolding is_unrecognized
    label_of none = (some unknown, failure_type_missing_default_unknown ∷ [])
    label_of (some raw) =
        let ft = normalize_failure_type upper_beyond_ascii (some raw) in
        (
          ft,
          if is_unrecognized ft raw
              then failure_type_unrecognized_normalized_to_unknown ∷ []
              else [],
        )

    unfoldable pub parse_judge_payload : Fields F → List ParseWarning → Result (JudgeParseResult F)
    unfolding read_keys invalid_warnings any_clamped raw_label label_of
    parse_judge_payload fields existing_warnings = do
      readings ← read_keys fields score_keys
      let label = label_of (raw_label fields)
      ok (record {
        readings = readings;
        failure_type = label.0;
        warnings = existing_warnings ++ invalid_warnings readings ++ label.1;
        score_clamping_occurred = any_clamped readings;
        raw_failure_type = raw_label fields;
      })
