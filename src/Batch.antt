-- ===== src/Batch.antt =====
-- Batches of benchmark runs: the cells of `run_batch_benchmark` in
-- backend/app/services/batch_runner.py, and the noise of
-- backend/app/services/benchmark_realism.py. What a random generator draws is a parameter.
pub mod Cell
pub mod Counts
pub mod Runner
use context_lens.Prelude.{
  ℕ, zero, suc, ◌+◌, Bool, true, false, ◌&&◌, Option, none, some, List, [], ◌∷◌, ◌++◌, map,
  if◌then◌else◌, ltb, leb, take, drop, length,
}
use context_lens.Prelude.Counting.{sort_by}
use context_lens.Prelude.Floats.{Floats, fmax, fmin}
use context_lens.Domain.FailureTaxonomy.{FailureType}
use context_lens.Trace.Rows.{Db, QueryCase}
use context_lens.Trace.Store.{rows_of}
use context_lens.Evaluation.{Scores}
use context_lens.Evaluation.Realism.{BenchmarkRealismProfile, classify_low_quality_failure}

-- what the generator of a cell draws: the outcomes of the two comparisons with a probability, the
-- order of a tail, and the four numbers of the noise
pub record Draws (F : Type 0) : Type 0 where
  pub empties : Bool
  pub drops_top : Bool
  pub shuffled : List (ℕ × F) → List (ℕ × F)
  pub relevance_delta : F
  pub coverage_delta : F
  pub completeness_delta : F
  pub faithfulness_delta : F

-- a realism profile: the thresholds, and whether the tail is shuffled
pub record Realism (F : Type 0) : Type 0 where
  pub thresholds : BenchmarkRealismProfile F
  pub shuffle_lower_ranks : Bool

module _ {F : Type 0} (draws : Draws F) where
  -- all but the first hit in another order
  shuffle_tail : List (ℕ × F) → List (ℕ × F)
  shuffle_tail [] = []
  shuffle_tail (h ∷ []) = h ∷ []
  shuffle_tail (h ∷ k ∷ hits) = h ∷ draws.shuffled (k ∷ hits)

  unfoldable pub perturb_search_chunk_hits : Realism F → List (ℕ × F) → List (ℕ × F)
  unfolding shuffle_tail
  perturb_search_chunk_hits profile [] = []
  perturb_search_chunk_hits profile (h ∷ hits) =
      if draws.empties
      then []
      else let out = if draws.drops_top then hits else h ∷ hits in
        if profile.shuffle_lower_ranks then shuffle_tail out else out

module _ {F : Type 0} (fl : Floats F) (draws : Draws F) where
  -- `_clamp01(v + d)`
  nudge : F → Option F → Option F
  nudge d none = none
  nudge d (some v) = some (fmax fl (fl.lit 0 1) (fmin fl (fl.lit 10 1) (fl.add v d)))

  -- `apply_heuristic_score_noise`, with the label that the new scores are given
  unfoldable pub with_noise : Realism F → Scores F → Scores F
  unfolding nudge
  with_noise profile ev =
      let relevance = nudge draws.relevance_delta ev.retrieval_relevance in
      let coverage = nudge draws.coverage_delta ev.context_coverage in
      let completeness = nudge draws.completeness_delta ev.completeness in
      record ev {
        retrieval_relevance = relevance;
        context_coverage = coverage;
        completeness = completeness;
        faithfulness = nudge draws.faithfulness_delta ev.faithfulness;
        failure_type =
            classify_low_quality_failure fl relevance coverage completeness ev.failure_type
              profile.thresholds;
      }

-- the loop variables of one run of a batch
pub record BatchCell : Type 0 where
  pub dataset_id : ℕ
  pub query_case_id : ℕ
  pub pipeline_config_id : ℕ
  pub repetition : ℕ

-- `range(n)`, from `rep` on
reps_from : ℕ → ℕ → ℕ → ℕ → ℕ → List BatchCell
reps_from ds qc cfg rep zero = []
reps_from ds qc cfg rep (suc n) =
    record { dataset_id = ds; query_case_id = qc; pipeline_config_id = cfg; repetition = rep }
    ∷ reps_from ds qc cfg (suc rep) n

cells_of_configs : ℕ → ℕ → ℕ → List ℕ → List BatchCell
unfolding reps_from
cells_of_configs runs_per_query ds qc [] = []
cells_of_configs runs_per_query ds qc (cfg ∷ cfgs) =
    reps_from ds qc cfg 0 runs_per_query ++ cells_of_configs runs_per_query ds qc cfgs

cells_of_cases : ℕ → ℕ → List ℕ → List QueryCase → List BatchCell
unfolding cells_of_configs
cells_of_cases runs_per_query ds cfgs [] = []
cells_of_cases runs_per_query ds cfgs (qc ∷ qcs) =
    cells_of_configs runs_per_query ds qc.id cfgs ++ cells_of_cases runs_per_query ds cfgs qcs

-- `_load_ordered_query_cases`
unfoldable pub load_ordered_query_cases : {F : Type 0} → ℕ → Db F → List QueryCase
load_ordered_query_cases dataset_id db =
    sort_by (λ (a : QueryCase) (b : QueryCase). ltb a.id b.id)
      (rows_of (λ (qc : QueryCase). qc.dataset_id) dataset_id db.query_cases)

-- The runs of the nested loops in their order. No run writes a query case, so they can all be read
-- at the start. `shuffle` is the order that a seed gives for a dataset, or no change without one.
module _ {F : Type 0} (shuffle : ℕ → List QueryCase → List QueryCase) (db : Db F) where
  unfoldable pub chosen_cases : ℕ → ℕ → List QueryCase
  chosen_cases queries_per_dataset ds =
      take queries_per_dataset (shuffle ds (load_ordered_query_cases ds db))

  unfoldable pub batch_cells : ℕ → ℕ → List ℕ → List ℕ → List BatchCell
  unfolding cells_of_cases
  batch_cells queries_per_dataset runs_per_query cfgs [] = []
  batch_cells queries_per_dataset runs_per_query cfgs (ds ∷ dss) =
      cells_of_cases runs_per_query ds cfgs (chosen_cases queries_per_dataset ds)
      ++ batch_cells queries_per_dataset runs_per_query cfgs dss
