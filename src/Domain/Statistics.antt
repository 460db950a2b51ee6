-- ===== src/Domain/Statistics.antt =====
-- Confidence in a comparison: backend/app/domain/benchmark_statistics.py.
use context_lens.Prelude.{ℕ, ◌≡◌, ◌≤◌, Bool, false, ◌&&◌, not, arith, ltb, leb, if◌then◌else◌}

pub data ConfidenceTier : Type 0 where
  low medium high : ConfidenceTier

abbrev pub recommended_min_traced_runs : ℕ
recommended_min_traced_runs = 20

abbrev pub recommended_min_unique_queries : ℕ
recommended_min_unique_queries = 10

pub confidence_tier_from_min_traced_runs : ℕ → ConfidenceTier
confidence_tier_from_min_traced_runs min_traced =
    if leb recommended_min_traced_runs min_traced
    then high
    else if leb 5 min_traced
    then medium
    else low

pub comparison_statistically_reliable : ℕ → Bool
comparison_statistically_reliable min_traced = leb recommended_min_traced_runs min_traced

unfoldable pub confidence_tier_from_effective_sample_size : ℕ → ConfidenceTier
confidence_tier_from_effective_sample_size effective_sample_size =
    if ltb effective_sample_size 8
    then low
    else if ltb effective_sample_size 15
    then medium
    else high

unfoldable pub comparison_statistically_reliable_by_effective_sample : ℕ → Bool
comparison_statistically_reliable_by_effective_sample effective_sample_size =
    leb recommended_min_unique_queries effective_sample_size

abbrev pub rank : ConfidenceTier → ℕ
rank low = 0
rank medium = 1
rank high = 2

abbrev pub is_low : ConfidenceTier → Bool
is_low t = leb (rank t) 0

abbrev pub is_high : ConfidenceTier → Bool
is_high t = leb 2 (rank t)

-- Neither tier falls as its sample grows.
pub tiers_mono :
    (a b : ℕ)
    → a ≤ b
    → (rank (confidence_tier_from_effective_sample_size a)
        ≤ rank (confidence_tier_from_effective_sample_size b))
      × (rank (confidence_tier_from_min_traced_runs a)
          ≤ rank (confidence_tier_from_min_traced_runs b))
unfolding confidence_tier_from_effective_sample_size confidence_tier_from_min_traced_runs
tiers_mono a b h = (ground arith, ground arith)

-- By distinct queries no comparison of the tier `high` is unreliable and no reliable one has the tier
-- `low`; by traced runs a comparison is reliable exactly when its tier is `high`.
pub tiers_agree :
    (n : ℕ)
    → (is_high (confidence_tier_from_effective_sample_size n)
          && not (comparison_statistically_reliable_by_effective_sample n)
        ≡ false)
      × (comparison_statistically_reliable_by_effective_sample n
            && is_low (confidence_tier_from_effective_sample_size n)
          ≡ false)
      × (comparison_statistically_reliable n ≡ is_high (confidence_tier_from_min_traced_runs n))
unfolding confidence_tier_from_effective_sample_size confidence_tier_from_min_traced_runs
    comparison_statistically_reliable comparison_statistically_reliable_by_effective_sample
tiers_agree n = (ground arith, ground arith, ground arith)
