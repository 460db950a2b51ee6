-- ===== src/Experiment/Scoring.antt =====
-- Scoring of the candidates, `score_candidates` of
-- backend/app/services/diagnosis_experiment_design.py. The MD5 digest and `str.lower` are
-- parameters, and a reason is a value in place of its text.
pub mod Explained
pub mod Laws
use context_lens.Prelude.{
  ℕ, ◌+◌, Bool, true, false, ◌&&◌, Option, none, some, List, [], ◌∷◌, ◌++◌, take, if◌then◌else◌,
  ◌==◌, ltb, length,
}
use context_lens.Prelude.Counting.{count_if, sort_by}
use context_lens.Prelude.Floats.{Floats}
use context_lens.Prelude.Text.{Str, strip, is_space, text_eq}
use context_lens.Experiment.{
  Bucket, retrieval_related, generation_incomplete, mixed_ambiguous, easy_control, CandidateRun,
  classify_bucket, compute_difficulty,
}

-- the texts of `score_reasons`, with what they show
pub data Reason (F : Type 0) : Type 0 where
  no_failure_penalised : F → Reason F
  has_failure : Str → Reason F
  difficulty_bonus : F → F → Reason F
  repeat_query : ℕ → F → Reason F
  existing_sessions : ℕ → F → Reason F

pub record ScoredCandidate (F : Type 0) : Type 0 where
  pub candidate : CandidateRun F
  pub bucket : Bucket
  pub score : F
  pub score_reasons : List (Reason F)

-- `bucket == "easy_control"`
abbrev pub is_easy : Bucket → Bool
is_easy easy_control = true
is_easy retrieval_related = false
is_easy generation_incomplete = false
is_easy mixed_ambiguous = false

-- `re.sub(r"\s+", " ", t)`; `after` tells whether the character before is white space.
squeeze : Bool → Str → Str
squeeze after [] = []
squeeze after (c ∷ s) =
    let rest = squeeze (is_space c) s in
    if is_space c then if after then rest else b' ' ∷ rest else c ∷ rest

-- `lower` is `str.lower`, and `md5_hexdigest` the digest of the encoded text.
unfoldable pub query_fingerprint : (Str → Str) → (Str → Str) → Str → Str
unfolding squeeze
query_fingerprint lower md5_hexdigest text =
    take 12 (md5_hexdigest (squeeze false (lower (strip text))))

-- the keyword arguments of `score_candidates`
pub record Weights (F : Type 0) : Type 0 where
  pub no_failure_penalty : F
  pub repeat_query_penalty : F
  pub heavy_session_penalty_per : F
  pub difficulty_bonus_weight : F

-- `sc.candidate.run_id`
abbrev pub sc_run_id : {F : Type 0} → ScoredCandidate F → ℕ
sc_run_id sc = sc.candidate.run_id

module _ {F : Type 0} (fl : Floats F) where
  -- the defaults of the keyword arguments
  abbrev pub default_weights : Weights F
  default_weights = record {
    no_failure_penalty = fl.neg (fl.lit 500 1);
    repeat_query_penalty = fl.neg (fl.lit 300 1);
    heavy_session_penalty_per = fl.neg (fl.lit 100 1);
    difficulty_bonus_weight = fl.lit 200 1;
  }

  -- `(-s.score, -s.candidate.run_id) < (-t.score, -t.candidate.run_id)`
  pub ranks_before : ScoredCandidate F → ScoredCandidate F → Bool
  ranks_before s t =
      if fl.eq (fl.neg s.score) (fl.neg t.score)
      then ltb (sc_run_id t) (sc_run_id s)
      else fl.lt (fl.neg s.score) (fl.neg t.score)

  module _ (w : Weights F) where
    -- A step of the scoring: the score so far, and the reasons for it.
    abbrev Tally : Type 0
    Tally = F × List (Reason F)

    failure_signal : CandidateRun F → Bucket → Tally
    failure_signal c bucket =
        if is_easy bucket
        then (
          fl.add (fl.lit 0 1) w.no_failure_penalty,
          no_failure_penalised w.no_failure_penalty ∷ [],
        )
        else (fl.add (fl.lit 0 1) (fl.lit 400 1), has_failure c.failure_type ∷ [])

    with_difficulty : CandidateRun F → Tally → Tally
    with_difficulty c (base, reasons) =
        let difficulty = compute_difficulty fl c in
        let bonus = fl.mul difficulty w.difficulty_bonus_weight in
        (
          fl.add base bonus,
          if fl.lt (fl.of_nat 0) bonus
              then reasons ++ difficulty_bonus bonus difficulty ∷ []
              else reasons,
        )

    with_repeat : ℕ → Tally → Tally
    with_repeat seen_count (base, reasons) =
        let penalty = fl.mul w.repeat_query_penalty (fl.of_nat seen_count) in
        if ltb 0 seen_count
        then (fl.add base penalty, reasons ++ repeat_query (seen_count + 1) penalty ∷ [])
        else (base, reasons)

    with_sessions : ℕ → Tally → Tally
    with_sessions total (base, reasons) =
        let sp = fl.mul w.heavy_session_penalty_per (fl.of_nat total) in
        if ltb 0 total
        then (fl.add base sp, reasons ++ existing_sessions total sp ∷ [])
        else (base, reasons)

    pub score_one : ℕ → CandidateRun F → ScoredCandidate F
    unfolding failure_signal with_difficulty with_repeat with_sessions
    score_one seen_count c =
        let bucket = classify_bucket (some c.failure_type) in
        let tally =
          with_sessions (c.manual_sessions + c.assisted_sessions)
            (with_repeat seen_count (with_difficulty c (failure_signal c bucket))) in
        record { candidate = c; bucket = bucket; score = tally.0; score_reasons = tally.1 }

    module _ (lower md5_hexdigest : Str → Str) where
      -- `seen` holds the fingerprints that `query_seen` counts.
      pub score_each : List Str → List (CandidateRun F) → List (ScoredCandidate F)
      score_each seen [] = []
      score_each seen (c ∷ cs) =
          let fp = query_fingerprint lower md5_hexdigest c.query_text in
          score_one (count_if (text_eq fp) seen) c ∷ score_each (fp ∷ seen) cs

      unfoldable pub score_candidates : List (CandidateRun F) → List (ScoredCandidate F)
      unfolding score_one score_each ranks_before query_fingerprint
      score_candidates candidates = sort_by ranks_before (score_each [] candidates)
