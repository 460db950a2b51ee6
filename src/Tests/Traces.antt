-- ===== src/Tests/Traces.antt =====
-- Tests of the phases: retrieval, generation, judge and the evaluation that is persisted.
use context_lens.Prelude.{◌++◌, ℕ, ◌≡◌, refl, true, none, some, List, [], ◌∷◌, Result, ok, err}
use context_lens.Trace.Rows.{
  completed, Db, Run, running, generation_completed, QueryCase, PipelineConfig, RetrievalResult,
  retrieval_completed,
}
use context_lens.Trace.Store.{get_row, put_row, rows_of}
use context_lens.Trace.Write.{
  add_generation, store_generation_result, run_at, retrieval_of, generation_of, evaluation_of,
  create_run, save_run, add_retrieval, retrieval_rows, chunks_exist, store_retrieval_results,
  EvaluationInput,
}
use context_lens.Trace.Write.Evaluated.{Ready}
use context_lens.Trace.Context.{bodies_of, context_rows, insert_by_rank, join_chunks, order_by_rank}
use context_lens.Trace.Invariant.{WellTraced}
use context_lens.Run.Phases.{
  generate_rag_answer, generated_run, generation_row, ranked, retrieved_run, store_hits,
  query_case_at, pipeline_config_at, execute_retrieval_for_existing_run, execute_generation_for_run,
  execute_llm_judge_and_complete_run,
}
use context_lens.Run.Phases.Retrieval.{retrieved, IsRanked, retrieval_stores, retrieved-WellTraced}
use context_lens.Run.Phases.Generation.{generation-WellTraced}
use context_lens.Run.Phases.Completes.{Answers}
use context_lens.Run.Pipeline.{run_full_benchmark_pipeline}
use context_lens.Run.Pipeline.Settles.{HasStatus}
use context_lens.Run.Pipeline.Completes.{pipeline_ends}
use context_lens.Run.Pipeline.Heuristic.{created}
use context_lens.Tests.Data.{test_case, test_world, start_db}
use context_lens.Tests.Runs.{run_db, run-WellTraced}

abbrev of_result : Db ℕ → Result (Db ℕ) → Db ℕ
of_result db (ok db') = db'
of_result db (err e) = db

abbrev retrieved_db : Db ℕ
retrieved_db = of_result run_db (execute_retrieval_for_existing_run test_world 1 none run_db)

retrieval_ok : execute_retrieval_for_existing_run test_world 1 none run_db ≡ ok retrieved_db
unfolding execute_retrieval_for_existing_run run_at get_row created create_run query_case_at
    pipeline_config_at store_hits store_retrieval_results chunks_exist ranked
retrieval_ok = refl

abbrev generated_db : Db ℕ
generated_db = of_result retrieved_db (execute_generation_for_run test_world 1 retrieved_db)

generation_ok : execute_generation_for_run test_world 1 retrieved_db ≡ ok generated_db
unfolding execute_retrieval_for_existing_run run_at get_row created create_run query_case_at
    pipeline_config_at store_hits store_retrieval_results chunks_exist ranked
    execute_generation_for_run save_run put_row add_retrieval retrieved_run generation_of
    generate_rag_answer generated_run generation_row bodies_of context_rows insert_by_rank
    join_chunks order_by_rank rows_of add_generation retrieval_of retrieval_rows
    store_generation_result
generation_ok = refl

abbrev judged_db : Db ℕ
judged_db = of_result generated_db (execute_llm_judge_and_complete_run test_world 1 generated_db)

retrieval_stores_example :
    (run : Run) × (qc : QueryCase) × (pc : PipelineConfig) × (hits : List (ℕ × ℕ)) × (rows : List
      (RetrievalResult ℕ))
    × (run_at 1 run_db ≡ some run)
    × (query_case_at test_world run.query_case_id run_db ≡ ok qc)
    × (pipeline_config_at test_world run.pipeline_config_id run_db ≡ ok pc)
    × (test_world.search_chunks run_db qc.query_text pc.top_k none ≡ ok hits)
    × (retrieval_of 1 retrieved_db ≡ retrieval_of 1 run_db ++ rows)
    × IsRanked 1 1 hits rows
    × (run_at 1 retrieved_db
        ≡ some (record run {
          retrieval_latency_ms = some test_world.retrieval_ms;
          status = retrieval_completed;
        }))
retrieval_stores_example = retrieval_stores test_world 1 none run_db retrieval_ok

abbrev the_run : Run
the_run = (created 1 1 running none start_db).0

abbrev the_hits : List (ℕ × ℕ)
the_hits = (1, 90) ∷ (2, 60) ∷ []

retrieved_db-WellTraced : WellTraced retrieved_db
unfolding execute_retrieval_for_existing_run run_at get_row created create_run query_case_at
    pipeline_config_at store_hits store_retrieval_results chunks_exist ranked retrieved save_run
    retrieved_run add_retrieval retrieval_rows
retrieved_db-WellTraced =
    retrieved-WellTraced test_world 1 none run_db the_run the_hits refl refl run-WellTraced

generated_db-WellTraced : WellTraced generated_db
generated_db-WellTraced =
    generation-WellTraced test_world 1 retrieved_db generation_ok retrieved_db-WellTraced

abbrev input : EvaluationInput ℕ
input = record {
  evaluation_latency_ms = 5;
  total_latency_ms = 12;
  faithfulness = some 90;
  completeness = none;
  retrieval_relevance = some 70;
  context_coverage = some 60;
  groundedness = none;
  failure_type = none;
  used_llm_judge = true;
  cost_usd = none;
  metadata_json = none;
}

abbrev done_run : Run
done_run = generated_run (retrieved_run the_run 3) 4

ready : Ready test_world.upper_beyond_ascii 1 input generated_db done_run generation_completed
unfolding execute_retrieval_for_existing_run run_at get_row created create_run query_case_at
    pipeline_config_at store_hits store_retrieval_results chunks_exist ranked
    execute_generation_for_run save_run put_row add_retrieval retrieved_run generation_of
    generate_rag_answer generated_run generation_row bodies_of context_rows insert_by_rank
    join_chunks order_by_rank rows_of add_generation retrieval_of retrieval_rows
    store_generation_result evaluation_of
ready = (refl, refl, refl, refl, refl, refl)

judge-Answers : Answers test_world
judge-Answers = λ query bodies answer reference. (_, refl)

case_found : query_case_at test_world done_run.query_case_id generated_db ≡ ok test_case
unfolding execute_retrieval_for_existing_run run_at get_row created create_run query_case_at
    pipeline_config_at store_hits store_retrieval_results chunks_exist ranked
    execute_generation_for_run save_run put_row add_retrieval retrieved_run generation_of
    generate_rag_answer generated_run generation_row bodies_of context_rows insert_by_rank
    join_chunks order_by_rank rows_of add_generation retrieval_of retrieval_rows
    store_generation_result
case_found = refl

pipeline_ends_example :
    (db' : Db ℕ) × (run_full_benchmark_pipeline test_world 1 none generated_db ≡ (ok tt, db'))
    × HasStatus 1 completed db'
unfolding retrieved_run generated_run created create_run
pipeline_ends_example =
    pipeline_ends test_world 1 none generated_db done_run test_case judge-Answers
      generated_db-WellTraced ready.0 refl case_found
