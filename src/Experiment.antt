-- ===== src/Experiment.antt =====
-- Candidates of a diagnosis timing study: the buckets, the candidate's record and its difficulty, of
-- backend/app/services/diagnosis_experiment_design.py. A bucket name that is not one of the four
-- cannot be built here.
pub mod Scoring
pub mod Plan
use context_lens.Prelude.{
  ℕ, Bool, Option, none, some, List, [], ◌∷◌, map, length, if◌then◌else◌, ◌==◌,
}
use context_lens.Prelude.Floats.{Floats, fmax, fmin}
use context_lens.Prelude.Text.{Str, codes, strip, text_eq}

pub data Bucket : Type 0 where
  retrieval_related generation_incomplete mixed_ambiguous easy_control : Bucket

-- `FAILURE_TO_BUCKET`
abbrev pub failure_to_bucket : List (Str × Bucket)
failure_to_bucket =
    (codes "RETRIEVAL_MISS", retrieval_related)
    ∷ (codes "RETRIEVAL_PARTIAL", retrieval_related)
    ∷ (codes "CHUNK_FRAGMENTATION", retrieval_related)
    ∷ (codes "ANSWER_UNSUPPORTED", generation_incomplete)
    ∷ (codes "ANSWER_INCOMPLETE", generation_incomplete)
    ∷ (codes "CONTEXT_TRUNCATION", generation_incomplete)
    ∷ (codes "MIXED_FAILURE", mixed_ambiguous)
    ∷ (codes "UNKNOWN", mixed_ambiguous)
    ∷ (codes "CONTEXT_INSUFFICIENT", mixed_ambiguous)
    ∷ (codes "NO_FAILURE", easy_control)
    ∷ []

-- `GROUP_TARGETS`
abbrev pub group_targets : Bucket → ℕ
group_targets retrieval_related = 4
group_targets generation_incomplete = 3
group_targets mixed_ambiguous = 2
group_targets easy_control = 1

-- `ALL_BUCKETS`
abbrev pub all_buckets : List Bucket
all_buckets = retrieval_related ∷ generation_incomplete ∷ mixed_ambiguous ∷ easy_control ∷ []

pub record CandidateRun (F : Type 0) : Type 0 where
  pub run_id : ℕ
  pub failure_type : Str
  pub query_text : Str
  pub query_case_id : ℕ
  pub dataset_id : Option ℕ
  pub retrieval_relevance : Option F
  pub context_coverage : Option F
  pub completeness : Option F
  pub faithfulness : Option F
  pub manual_sessions : ℕ
  pub assisted_sessions : ℕ

-- `FAILURE_TO_BUCKET.get(name, default)`, and the same for a shorter table
bucket_get : List (Str × Bucket) → Str → Bucket → Bucket
bucket_get [] name default = default
bucket_get ((key, b) ∷ table) name default =
    let later = bucket_get table name default in if text_eq key name then b else later

unfoldable pub classify_bucket : Option Str → Bucket
unfolding bucket_get
classify_bucket none = easy_control
classify_bucket (some []) = easy_control
classify_bucket (some (c ∷ s)) = bucket_get failure_to_bucket (strip (c ∷ s)) mixed_ambiguous

module _ {F : Type 0} (fl : Floats F) where
  -- one summand of the difficulty: a missing score is neutral, a low one is hard
  component : Option F → F
  component none = fl.lit 5 1
  component (some val) = fl.sub (fl.lit 10 1) (fmax fl (fl.lit 0 1) (fmin fl (fl.lit 10 1) val))

  sum_of : F → List F → F
  sum_of acc [] = acc
  sum_of acc (x ∷ xs) = sum_of (fl.add acc x) xs

  -- The list of components has four items, never none.
  unfoldable pub compute_difficulty : CandidateRun F → F
  unfolding component sum_of
  compute_difficulty c =
      let components =
        map component
          (c.retrieval_relevance ∷ c.context_coverage ∷ c.completeness ∷ c.faithfulness ∷ []) in
      fl.div (sum_of (fl.of_nat 0) components) (fl.of_nat (length components))
