-- ===== src/Tests.antt =====
-- Tests: the properties applied to concrete texts, databases and queues.
mod Data
mod Signed
mod Chunks
mod Labels
mod Runs
mod Traces
mod Queues
mod Registries
mod Scores
mod Experiments
mod Judges
mod Comparisons
mod Batches
mod Ingests
