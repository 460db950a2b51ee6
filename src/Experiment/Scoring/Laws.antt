-- ===== src/Experiment/Scoring/Laws.antt =====
-- What `score_candidates` of backend/app/services/diagnosis_experiment_design.py keeps of its
-- candidates, and their order.
use context_lens.Prelude.{ℕ, ◌≡◌, ◌≤◌, refl, ◌∙◌, false, List, [], ◌∷◌, arith, ◌==◌, All}
use context_lens.Prelude.Counting.{
  count_if, count_if-sort_by, sort_by, IsSorted, IsOrder, sort_by-IsSorted,
}
use context_lens.Prelude.Floats.{Floats, IsRanking}
use context_lens.Prelude.Text.{Str}
use context_lens.Experiment.{CandidateRun}
use context_lens.Experiment.Scoring.Explained.{IsExplained, score_candidates-IsExplained}
use context_lens.Experiment.Scoring.{
  ScoredCandidate, Weights, sc_run_id, score_one, score_each, score_candidates, query_fingerprint,
  ranks_before,
}

-- how often a run is among the candidates
abbrev pub candidates_of : {F : Type 0} → ℕ → List (CandidateRun F) → ℕ
candidates_of r cs = count_if (λ c. c.run_id == r) cs

module _ {F : Type 0} (fl : Floats F) where
  module _ (w : Weights F) (lower md5_hexdigest : Str → Str) where
    score_each-times :
        (seen : List Str) (cs : List (CandidateRun F)) (r : ℕ)
        → count_if
            (λ (sc : ScoredCandidate F). sc_run_id sc == r)
            (score_each fl w lower md5_hexdigest seen cs)
          ≡ candidates_of r cs
    unfolding score_each score_one
    score_each-times seen [] r = refl
    score_each-times seen (c ∷ cs) r =
        omega
          (arith, score_each-times (query_fingerprint lower md5_hexdigest c.query_text ∷ seen) cs r)

    -- Every run is scored as often as it is among the candidates.
    pub score_candidates-times :
        (cs : List (CandidateRun F)) (r : ℕ)
        → count_if
            (λ (sc : ScoredCandidate F). sc_run_id sc == r)
            (score_candidates fl w lower md5_hexdigest cs)
          ≡ candidates_of r cs
    unfolding score_candidates
    score_candidates-times cs r =
        count_if-sort_by (ranks_before fl) (λ (sc : ScoredCandidate F). sc_run_id sc == r)
          (score_each fl w lower md5_hexdigest [] cs)
        ∙ score_each-times [] cs r

  -- what the minus of the keys is to do: it turns the order round
  abbrev pub Reverses : Type 0
  Reverses = (a b : F) → fl.lt (fl.neg a) (fl.neg b) ≡ fl.lt b a

  -- A candidate may come after `s`: its score is not above that of `s`, and if it is not below it
  -- either, its run id is not above that of `s`.
  abbrev pub Follows : ScoredCandidate F → ScoredCandidate F → Type 0
  Follows s t =
      (fl.lt s.score t.score ≡ false) × (fl.lt t.score s.score ≡ false → sc_run_id t ≤ sc_run_id s)

  abbrev pub Descending : List (ScoredCandidate F) → Type 0
  Descending [] = Unit
  Descending (s ∷ rest) = All (Follows s) rest × Descending rest

  module _ (ranking : IsRanking fl) where
    open ranking use {lt_asym, lt_trans, eq_iff}

    ranks_before-IsOrder : IsOrder (ranks_before fl)
    unfolding ranks_before
    ranks_before-IsOrder = record {
      asym = λ a b h.
          let x = fl.neg a.score in
          let y = fl.neg b.score in ground (arith, eq_iff x y, eq_iff y x, lt_asym x y, h);
      trans = λ a b c h k.
          let x = fl.neg a.score in
          let y = fl.neg b.score in
          let z = fl.neg c.score in
          ground (
            arith,
            eq_iff x y,
            eq_iff y x,
            eq_iff y z,
            eq_iff z y,
            eq_iff x z,
            eq_iff z x,
            lt_trans x y z,
            lt_trans y z x,
            lt_trans z x y,
            h,
            k,
          );
    }

    before-Follows :
        Reverses → (s t : ScoredCandidate F) → ranks_before fl t s ≡ false → Follows s t
    unfolding ranks_before
    before-Follows reverses s t h =
        let x = fl.neg t.score in
        let y = fl.neg s.score in
        let back = reverses t.score s.score in
        let forth = reverses s.score t.score in
        (
          ground (arith, eq_iff x y, back, forth, h),
          λ level. ground (arith, eq_iff x y, back, forth, h, level),
        )

    All-Follows :
        Reverses
        → (s : ScoredCandidate F) (rest : List (ScoredCandidate F))
        → All (λ (t : ScoredCandidate F). ranks_before fl t s ≡ false) rest
        → All (Follows s) rest
    All-Follows reverses s [] h = tt
    All-Follows reverses s (t ∷ rest) (h, hs) =
        (before-Follows reverses s t h, All-Follows reverses s rest hs)

    IsSorted-Descending :
        Reverses
        → (scs : List (ScoredCandidate F)) → IsSorted (ranks_before fl) scs
        → Descending scs
    IsSorted-Descending reverses [] h = tt
    IsSorted-Descending reverses (s ∷ rest) (h, hs) =
        (All-Follows reverses s rest h, IsSorted-Descending reverses rest hs)

    -- For numbers that are ordered and whose order the minus turns round: no scored candidate comes
    -- after one of a lower score, and of two with the same score the one with the higher run id comes
    -- first; every run is scored as often as it is among the candidates; and the score of a candidate
    -- with a positive difficulty bonus is the sum of what its reasons stand for, which is 40 for a
    -- failure, the penalty for none, the bonus, the penalty for each earlier candidate of the same
    -- text, and the penalty for each session.
    pub score_candidates-Descending :
        (w : Weights F) (lower md5_hexdigest : Str → Str) (cs : List (CandidateRun F))
        → Reverses
        → Descending (score_candidates fl w lower md5_hexdigest cs)
          × All (IsExplained fl w) (score_candidates fl w lower md5_hexdigest cs)
          × ((r : ℕ)
              → count_if
                  (λ (sc : ScoredCandidate F). sc_run_id sc == r)
                  (score_candidates fl w lower md5_hexdigest cs)
                ≡ candidates_of r cs)
    score_candidates-Descending w lower md5_hexdigest cs reverses = (
      unfold score_candidates in
          IsSorted-Descending reverses
            (sort_by (ranks_before fl) (score_each fl w lower md5_hexdigest [] cs))
            (sort_by-IsSorted (ranks_before fl) ranks_before-IsOrder
              (score_each fl w lower md5_hexdigest [] cs)),
      score_candidates-IsExplained fl w lower md5_hexdigest cs,
      score_candidates-times w lower md5_hexdigest cs,
    )
