-- ===== src/Evaluation/Realism.antt =====
-- The classification after noise of batch runs, `classify_low_quality_failure` of
-- backend/app/services/benchmark_realism.py.
use context_lens.Prelude.{◌≡◌, refl, Bool, true, false, Option, if◌then◌else◌}
use context_lens.Prelude.Floats.{Floats}
use context_lens.Domain.FailureTaxonomy.{
  FailureType, retrieval_partial, context_insufficient, answer_incomplete, no_failure,
}
use context_lens.Evaluation.{
  below, relevance_partial_threshold, context_insufficient_threshold,
  completeness_incomplete_threshold, classify_heuristic_failure_from_scores,
}
use context_lens.Evaluation.Laws.{is_miss, classify-miss}

-- the thresholds of `BenchmarkRealismProfile`
pub record BenchmarkRealismProfile (F : Type 0) : Type 0 where
  pub relevance_low_threshold : F
  pub context_coverage_low_threshold : F
  pub completeness_low_threshold : F

module _ {F : Type 0} (fl : Floats F) where
  abbrev pub default_profile : BenchmarkRealismProfile F
  default_profile = record {
    relevance_low_threshold = relevance_partial_threshold fl;
    context_coverage_low_threshold = context_insufficient_threshold fl;
    completeness_low_threshold = completeness_incomplete_threshold fl;
  }

  pub classify_low_quality_failure :
      Option F → Option F → Option F → FailureType → BenchmarkRealismProfile F → FailureType
  classify_low_quality_failure relevance coverage completeness current profile =
      if is_miss current
      then current
      else if below fl relevance profile.relevance_low_threshold
      then retrieval_partial
      else if below fl coverage profile.context_coverage_low_threshold
      then context_insufficient
      else if below fl completeness profile.completeness_low_threshold
      then answer_incomplete
      else no_failure

  -- With the thresholds of the default profile, the label that new scores are given in place of a
  -- heuristic label is the heuristic label of the new scores, whatever the old scores were.
  pub classify-classify :
      (miss : Bool) (relevance coverage completeness relevance' coverage' completeness' : Option F)
      → classify_low_quality_failure relevance' coverage' completeness'
          (classify_heuristic_failure_from_scores fl miss relevance coverage completeness)
          default_profile
        ≡ classify_heuristic_failure_from_scores fl miss relevance' coverage' completeness'
  unfolding classify_low_quality_failure
  classify-classify true r c k r' c' k' = unfold classify_heuristic_failure_from_scores in refl
  classify-classify false r c k r' c' k' =
      rw (classify-miss fl r c k) (unfold classify_heuristic_failure_from_scores in refl)
