-- ===== src/Comparison/Ranking.antt =====
-- The best and the worst configuration by a score, `_rank_avg_dimension`, `_delta_pct` and
-- `build_config_score_comparison` of backend/app/services/config_comparison.py.
pub mod Laws
use context_lens.Prelude.{
  ℕ, Bool, true, false, Option, none, some, List, [], ◌∷◌, if◌then◌else◌, ◌==◌, ltb, leb,
}
use context_lens.Prelude.Floats.{Floats}
use context_lens.Comparison.{Averages, ConfigComparisonMetrics, round_metric_float}

-- a configuration's id and its value
abbrev pub Scored : Type 0 → Type 0
Scored F = ℕ × F

module _ {F : Type 0} where
  -- the average of a row, none if it has no averages
  unfoldable pub score_of : (Averages F → Option F) → ConfigComparisonMetrics F → Option F
  score_of get_val m = elim (m.averages) [ none ↦ none | some a ↦ get_val a ]

  -- `eligible`
  unfoldable pub eligible_of :
      (Averages F → Option F) → List (ConfigComparisonMetrics F) → List (Scored F)
  unfolding score_of
  eligible_of get_val [] = []
  eligible_of get_val (m ∷ metrics) =
      let rest = eligible_of get_val metrics in
      if leb m.traced_runs 0
      then rest
      else elim (score_of get_val m) [ none ↦ rest | some v ↦ (m.pipeline_config_id, v) ∷ rest ]

  -- Python's `max` and `min`: the first item that no other one beats
  pub best_by : (Scored F → Scored F → Bool) → Scored F → List (Scored F) → Scored F
  best_by beats best [] = best
  best_by beats best (t ∷ ts) = best_by beats (if beats t best then t else best) ts

module _ {F : Type 0} (fl : Floats F) where
  -- `(v, -id) > (w, -jd)`
  pub ranks_above : Scored F → Scored F → Bool
  ranks_above (id, v) (jd, w) = if fl.eq v w then ltb id jd else fl.lt w v

  -- `(v, id) < (w, jd)`
  pub ranks_below : Scored F → Scored F → Bool
  ranks_below (id, v) (jd, w) = if fl.eq v w then ltb id jd else fl.lt v w

  -- none for `(None, None, None, None)`
  pub rank_avg_dimension :
      List (ConfigComparisonMetrics F) → (Averages F → Option F) → Option (Scored F × Scored F)
  rank_avg_dimension metrics get_val = elim (eligible_of get_val metrics) [
    | [] ↦ none
    | t ∷ ts ↦ some (best_by ranks_above t ts, best_by ranks_below t ts)
  ]

  score_eps : F
  score_eps = fl.lit 1 9

  abs_of : F → F
  abs_of x = if fl.lt x (fl.of_nat 0) then fl.neg x else x

  pub delta_pct : F → F → Option F
  unfolding score_eps abs_of
  delta_pct best_v worst_v =
      if fl.lt (abs_of (fl.sub best_v worst_v)) score_eps
      then some (fl.lit 0 1)
      else if fl.lt score_eps worst_v
      then some (fl.div (fl.mul (fl.lit 1000 1) (fl.sub best_v worst_v)) worst_v)
      else none

-- the ids and the difference of one score
pub record Extremes (F : Type 0) : Type 0 where
  pub best_config : Option ℕ
  pub worst_config : Option ℕ
  pub delta : Option F

pub record ConfigScoreComparisonSummary (F : Type 0) : Type 0 where
  pub faithfulness : Extremes F
  pub completeness : Extremes F

module _ {F : Type 0} (fl : Floats F) where
  extremes_of : Option (Scored F × Scored F) → Extremes F
  unfolding delta_pct round_metric_float
  extremes_of none = record { best_config = none; worst_config = none; delta = none }
  extremes_of (some ((best, bv), (worst, wv))) = record {
    best_config = some best;
    worst_config = some worst;
    delta = round_metric_float fl (delta_pct fl bv wv);
  }

  unfoldable pub build_config_score_comparison :
      List (ConfigComparisonMetrics F) → Bool → ConfigScoreComparisonSummary F
  unfolding rank_avg_dimension extremes_of
  build_config_score_comparison metrics include_faithfulness = record {
    faithfulness =
        if include_faithfulness
        then extremes_of (rank_avg_dimension fl metrics (λ (a : Averages F). a.avg_faithfulness))
        else extremes_of none;
    completeness =
        extremes_of (rank_avg_dimension fl metrics (λ (a : Averages F). a.avg_completeness));
  }
