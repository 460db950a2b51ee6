-- ===== src/Run.antt =====
-- The life of a benchmark run: its phases, the pipeline that the worker runs, the worker's lock and
-- the re-enqueueing of a run.
pub mod World
pub mod Phases
pub mod Pipeline
