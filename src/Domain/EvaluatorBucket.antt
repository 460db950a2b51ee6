-- ===== src/Domain/EvaluatorBucket.antt =====
-- The evaluator buckets of backend/app/domain/evaluator_bucket.py: the conditions in SQL's logic, where
-- none stands for NULL, and their mirror in Python.
pub mod Laws
use context_lens.Prelude.{Bool, true, false, ◌||◌, not, Option, none, some}
use context_lens.Trace.Rows.{EvaluatorType, llm, heuristic, EvaluationMetadata, EvaluationResult}

abbrev pub is_heuristic : EvaluatorType → Bool
is_heuristic llm = false
is_heuristic heuristic = true

-- `OR` and `NOT`
sql_or : Option Bool → Option Bool → Option Bool
sql_or (some true) b = some true
sql_or (some false) b = b
sql_or none (some true) = some true
sql_or none (some false) = none
sql_or none none = none

sql_not : Option Bool → Option Bool
sql_not none = none
sql_not (some b) = some (not b)

-- a row passes a `WHERE` if its condition is true
passes : Option Bool → Bool
passes none = false
passes (some b) = b

module _ {F : Type 0} where
  -- `metadata_json->>'evaluator_type'`, NULL if the column or its key is missing
  unfoldable pub type_key : Option (EvaluationMetadata F) → Option EvaluatorType
  type_key none = none
  type_key (some meta) = meta.evaluator_type

  -- `metadata_json->>'evaluator_type' = 'llm'`
  says_llm : Option (EvaluationMetadata F) → Option Bool
  unfolding type_key
  says_llm meta = elim (type_key meta) [ none ↦ none | some t ↦ some (not (is_heuristic t)) ]

  pub sql_is_llm_bucket : EvaluationResult F → Option Bool
  unfolding sql_or says_llm
  sql_is_llm_bucket er = sql_or (some er.used_llm_judge) (says_llm er.metadata_json)

  pub sql_is_heuristic_bucket : EvaluationResult F → Option Bool
  unfolding sql_is_llm_bucket sql_not
  sql_is_heuristic_bucket er = sql_not (sql_is_llm_bucket er)

  -- the evaluations that `_bucket_filter` lets through
  unfoldable pub of_bucket : EvaluatorType → EvaluationResult F → Bool
  unfolding sql_is_llm_bucket sql_is_heuristic_bucket passes
  of_bucket llm er = passes (sql_is_llm_bucket er)
  of_bucket heuristic er = passes (sql_is_heuristic_bucket er)

  unfoldable pub resolved_evaluator_type : Bool → Option (EvaluationMetadata F) → EvaluatorType
  resolved_evaluator_type true meta = llm
  resolved_evaluator_type false none = heuristic
  resolved_evaluator_type false (some meta) = elim (meta.evaluator_type) [
    | some llm ↦ llm
    | some heuristic ↦ heuristic
    | none ↦ heuristic
  ]
