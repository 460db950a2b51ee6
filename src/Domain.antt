-- ===== src/Domain.antt =====
-- Labels and thresholds that the services share: backend/app/domain.
pub mod EvaluatorBucket
pub mod FailureTaxonomy
pub mod Statistics
