-- ===== src/Tests/Labels.antt =====
-- Tests of the labels and the tiers.
use context_lens.Prelude.{arith, ℕ, ◌≡◌, refl, [], ◌∷◌, some, ◌&&◌, ◌||◌, not, false, none}
use context_lens.Prelude.Text.{Str, codes, strip}
use context_lens.Domain.EvaluatorBucket.{of_bucket, resolved_evaluator_type, type_key}
use context_lens.Domain.EvaluatorBucket.Laws.{same_type, of_bucket-resolved}
use context_lens.Trace.Rows.{EvaluationResult, heuristic}
use context_lens.Trace.Write.{is_none}
use context_lens.Domain.FailureTaxonomy.{
  value, retrieval_miss, normalize_failure_type, failure_type_for_storage,
}
use context_lens.Domain.FailureTaxonomy.Laws.{Spells, normalize-Spells}

-- an evaluation whose metadata lack the key evaluator_type
abbrev legacy : EvaluationResult ℕ
legacy = record {
  run_id = 1;
  faithfulness = none;
  completeness = some 50;
  retrieval_relevance = some 40;
  context_coverage = some 60;
  groundedness = none;
  failure_type = retrieval_miss;
  used_llm_judge = false;
  cost_usd = none;
  metadata_json = some (record {
    evaluator_type = none;
    hybrid_judge_skipped = false;
    hybrid_judge_gate_failed = false;
    hybrid_gate_max_chunk_score = none;
    generation_model = none;
    generation_input_tokens = none;
    generation_output_tokens = none;
  });
}

of_bucket-resolved_example : of_bucket heuristic legacy ≡ (
    same_type heuristic (resolved_evaluator_type false legacy.metadata_json)
    && (false || not (is_none (type_key legacy.metadata_json))))
of_bucket-resolved_example = of_bucket-resolved heuristic legacy

-- so the heuristic bucket leaves it out
legacy-left-out : of_bucket heuristic legacy ≡ false
unfolding of_bucket
legacy-left-out = refl

abbrev same : ℕ → Str
same c = c ∷ []

spelled : Spells (strip (codes " retrieval Miss ")) (value retrieval_miss)
unfolding strip value
spelled = ground arith

normalize-Spells_example :
    (normalize_failure_type same (some (codes " retrieval Miss ")) ≡ some retrieval_miss)
    × (failure_type_for_storage same (some (codes " retrieval Miss ")) ≡ retrieval_miss)
normalize-Spells_example = normalize-Spells same (codes " retrieval Miss ") retrieval_miss spelled
