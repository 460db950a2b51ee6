-- ===== src/Experiment/Scoring/Explained.antt =====
-- What the reasons of a score say of it: `score_candidates` of
-- backend/app/services/diagnosis_experiment_design.py.
use context_lens.Prelude.{ℕ, ◌+◌, ◌-◌, ◌≡◌, true, List, [], ◌∷◌, arith, All}
use context_lens.Prelude.Counting.{count_if, All-sort_by}
use context_lens.Prelude.Floats.{Floats}
use context_lens.Prelude.Text.{Str, text_eq}
use context_lens.Experiment.{CandidateRun, compute_difficulty}
use context_lens.Experiment.Scoring.{
  Reason, no_failure_penalised, has_failure, difficulty_bonus, repeat_query, existing_sessions,
  ScoredCandidate, Weights, failure_signal, with_difficulty, with_repeat, with_sessions, score_one,
  score_each, score_candidates, query_fingerprint, ranks_before,
}

module _ {F : Type 0} (fl : Floats F) (w : Weights F) where
  -- what a reason adds to the score of a candidate: 40 for a failure, and else by the weights
  abbrev pub amount : CandidateRun F → Reason F → F
  amount c (no_failure_penalised p) = w.no_failure_penalty
  amount c (has_failure label) = fl.lit 400 1
  amount c (difficulty_bonus b d) = fl.mul (compute_difficulty fl c) w.difficulty_bonus_weight
  amount c (repeat_query n p) = fl.mul w.repeat_query_penalty (fl.of_nat (n - 1))
  amount c (existing_sessions total p) =
      fl.mul w.heavy_session_penalty_per (fl.of_nat (c.manual_sessions + c.assisted_sessions))

  abbrev pub added : CandidateRun F → F → List (Reason F) → F
  added c acc [] = acc
  added c acc (r ∷ rs) = added c (fl.add acc (amount c r)) rs

  -- The score of a candidate with a positive difficulty bonus is the sum of its reasons.
  abbrev pub IsExplained : ScoredCandidate F → Type 0
  IsExplained sc =
      fl.lt (fl.of_nat 0) (fl.mul (compute_difficulty fl sc.candidate) w.difficulty_bonus_weight)
        ≡ true
      → sc.score ≡ added sc.candidate (fl.lit 0 1) sc.score_reasons

  score_one-IsExplained : (seen : ℕ) (c : CandidateRun F) → IsExplained (score_one fl w seen c)
  unfolding score_one failure_signal with_difficulty with_repeat with_sessions
  score_one-IsExplained seen c bonus =
      let same : (seen + 1) - 1 ≡ seen = omega arith in ground (arith, same, bonus)

  score_each-IsExplained :
      (lower md5_hexdigest : Str → Str) (seen : List Str) (cs : List (CandidateRun F))
      → All IsExplained (score_each fl w lower md5_hexdigest seen cs)
  unfolding score_each
  score_each-IsExplained lower md5_hexdigest seen [] = tt
  score_each-IsExplained lower md5_hexdigest seen (c ∷ cs) =
      let fp = query_fingerprint lower md5_hexdigest c.query_text in
      (
        score_one-IsExplained (count_if (text_eq fp) seen) c,
        score_each-IsExplained lower md5_hexdigest (fp ∷ seen) cs,
      )

  pub score_candidates-IsExplained :
      (lower md5_hexdigest : Str → Str) (cs : List (CandidateRun F))
      → All IsExplained (score_candidates fl w lower md5_hexdigest cs)
  unfolding score_candidates
  score_candidates-IsExplained lower md5_hexdigest cs =
      All-sort_by IsExplained (ranks_before fl) (score_each fl w lower md5_hexdigest [] cs)
        (score_each-IsExplained lower md5_hexdigest [] cs)
