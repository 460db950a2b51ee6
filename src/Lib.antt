-- ===== src/Lib.antt =====
-- ContextLens, the service that chunks documents, runs retrieval benchmarks through a
-- retrieval-generation-judge pipeline, and stores traced evaluations (backend/app). This library
-- models the core of the service and proves what makes it correct.
--
-- A document is cut into chunks (Chunker), which its ingest stores (Ingest). The registry keeps
-- datasets, query cases and pipeline configurations (Registry). A run is created for a query case
-- and a configuration, and goes through its phases, each of which commits once (Run): retrieval
-- stores ranked hits, generation stores an answer, and the judge, or heuristics in its place
-- (Evaluation), give the evaluation that completes the run. The rows that the phases leave are the
-- trace (Trace). Full runs are jobs of a Redis queue, whose worker holds a lock; a run that stopped
-- can be inspected and queued again (Queue).
--
-- Files and sources:
--   Prelude        shared types: lists and options over the native naturals, Python's exceptions as
--                  results, Python's strings as code points, the operations on floats
--   Chunker        backend/app/services/chunker.py: chunk_text, _chunk_fixed, _split_recursive,
--                  _build_chunks_from_pieces
--   Ingest         backend/app/services/text_document_ingest.py: the ingest of a file, from the parser's
--                  text to the stored chunks
--   Domain         failure_taxonomy.py, benchmark_statistics.py and evaluator_bucket.py of
--                  backend/app/domain
--   Trace          backend/app/models and backend/app/services/trace_persistence.py,
--                  trace_instrumentation.py, evaluation_persistence.py: Rows has the columns, Store
--                  the reads and writes of a table, Write the operations, Context the join of hits
--                  and chunks, Invariant what a run's status says about its rows
--   Evaluation     backend/app/services/minimal_retrieval_evaluation.py, and the classification of
--                  benchmark_realism.py
--   Experiment     backend/app/services/diagnosis_experiment_design.py: the buckets and the
--                  difficulty, Scoring of the candidates, the balanced Plan with its export
--   Judge          backend/app/services/llm_judge_parse.py (Extract, Payload) and
--                  llm_judge_evaluation.py (Retry)
--   Comparison     backend/app/services/config_comparison.py: the selects, the Ranking of the
--                  configurations and the strict checks (Compare)
--   Batch          backend/app/services/batch_runner.py: one Cell and the whole batch (Runner), with
--                  the noise of backend/app/services/benchmark_realism.py
--   Run            backend/app/services/benchmark_run.py, generation_phase.py,
--                  full_rag_evaluation.py (Phases) and run_create.py (Pipeline); World holds what the
--                  phases take from outside
--   Registry       dataset_write.py, dataset_delete.py, query_case_write.py, query_case_delete.py,
--                  pipeline_config_write.py, pipeline_config_delete.py of backend/app/services
--   Queue          backend/app/queue/full_run.py, backend/app/workers/full_run_worker.py,
--                  backend/app/services/run_requeue.py and run_queue_status.py
--   Tests          the properties at concrete inputs
--
-- State is passed on: an operation takes the database, and gives the new one or an exception. A
-- session that ends in an exception is rolled back, so a phase that raises leaves the database as it
-- was committed before. Messages of exceptions are dropped and their classes kept: RuntimeError and
-- database errors are `other`, LookupError and its subclasses `lookup_error`, conflict errors of the
-- services `conflict_error`, errors of an LLM provider `api_error`.
--
-- Bounds and fuel: the fixed strategy takes the length of the text as fuel, which is enough since the
-- start grows by at least one; the recursive strategy recurs over its list of separators; all else is
-- structural. Identifiers, sizes and milliseconds are natural numbers; the parameters of chunk_text
-- are integers.
--
-- Parameters: the type of floats with its operations; the upper case of characters beyond ASCII;
-- the vector search, the LLM provider, the token prices and the clock; json.loads, float of a text
-- and str of a value for the judge's answer; str.lower and the MD5 digest; the averages,
-- percentiles and deviations that the database computes of a group of runs; what the random
-- generators of a batch draw, and the order that they give the query cases. An UPDATE of a row
-- waits for an open transaction that has updated the row, and a batch that waits for its own
-- session is stuck. A run takes the judge's verdict as a parameter too, and Judge has the code that
-- gives it. A Redis server is reachable or not during a whole call, and its lock expires when the
-- seconds of its time to live have passed. The invariant of the trace tables is about one session
-- at a time: interleaved workers are not modelled beyond the lock.
--
-- Not modelled: the HTTP routes and their schemas, settings, the dashboards, the parsing and
-- embedding of documents, which the ingest takes as parameters, the prompts, a batch that does not
-- commit and its own keys of the metadata, the sessions of diagnosis timing, seeds, scripts,
-- migrations and the frontend.
pub mod Prelude
pub mod Chunker
pub mod Ingest
pub mod Domain
pub mod Trace
pub mod Evaluation
pub mod Batch
pub mod Comparison
pub mod Experiment
pub mod Judge
pub mod Run
pub mod Registry
pub mod Queue
pub mod Tests
