-- ===== src/Domain/EvaluatorBucket/Laws.antt =====
-- The two forms of the bucket in backend/app/domain/evaluator_bucket.py, compared.
use context_lens.Prelude.{◌≡◌, Bool, ◌&&◌, ◌||◌, not, arith}
use context_lens.Trace.Rows.{EvaluatorType, llm, heuristic, EvaluationResult}
use context_lens.Trace.Write.{is_none}
use context_lens.Domain.EvaluatorBucket.{
  is_heuristic, sql_or, sql_not, passes, says_llm, sql_is_llm_bucket, sql_is_heuristic_bucket,
  of_bucket, resolved_evaluator_type, type_key,
}

abbrev pub same_type : EvaluatorType → EvaluatorType → Bool
same_type llm t = not (is_heuristic t)
same_type heuristic t = is_heuristic t

-- The condition of a bucket in SQL lets an evaluation through exactly if the function in Python gives
-- the bucket, and the evaluation was judged by a model or its metadata have the key evaluator_type. An
-- evaluation with neither, without metadata or with metadata that lack the key, is in no bucket.
pub of_bucket-resolved :
    {F : Type 0} (bucket : EvaluatorType) (er : EvaluationResult F)
    → of_bucket bucket er ≡ (
        same_type bucket (resolved_evaluator_type er.used_llm_judge er.metadata_json)
        && (er.used_llm_judge || not (is_none (type_key er.metadata_json))))
unfolding of_bucket resolved_evaluator_type sql_is_llm_bucket sql_is_heuristic_bucket sql_or sql_not
    passes says_llm type_key
of_bucket-resolved llm er = ground arith
of_bucket-resolved heuristic er = ground arith
