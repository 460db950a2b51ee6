-- ===== src/Tests/Runs.antt =====
-- Tests of the pipelines: a run that is created, one that runs, one that finds nothing.
use context_lens.Prelude.{ℕ, ◌≡◌, refl, none, err, value_error, inl, inr}
use context_lens.Trace.Rows.{Db, Run, running, retrieval_completed}
use context_lens.Trace.Store.{get_row, rows_of}
use context_lens.Trace.Write.{run_at, retrieval_of, generation_of, evaluation_of, create_run}
use context_lens.Trace.Invariant.{WellTraced}
use context_lens.Run.Phases.{query_case_at, pipeline_config_at}
use context_lens.Run.Pipeline.{
  run_full_benchmark_pipeline, create_and_execute_run_from_ids, validate_run_create_prerequisites,
}
use context_lens.Run.Pipeline.Settles.{HasStatus, Settled, pipeline-Settled}
use context_lens.Run.Pipeline.Keeps.{pipeline-WellTraced}
use context_lens.Run.Pipeline.Heuristic.{created, create_run-WellTraced, heuristic-no_hits}
use context_lens.Tests.Data.{test_world, empty_world, test_case, test_config, start_db}

pub start-WellTraced : WellTraced start_db
unfolding run_at get_row retrieval_of generation_of evaluation_of rows_of
start-WellTraced = record { at = λ j. (refl, refl, refl); fresh = λ j le. refl }

-- the database with one run
abbrev pub run_db : Db ℕ
run_db = (created 1 1 running none start_db).1

abbrev the_run : Run
the_run = (created 1 1 running none start_db).0

pub run-WellTraced : WellTraced run_db
run-WellTraced = create_run-WellTraced 1 1 running none start_db (inr refl) start-WellTraced

pub run-HasStatus : HasStatus 1 running run_db
unfolding created create_run run_at get_row
run-HasStatus = (the_run, refl, refl)

pipeline-Settled_example : Settled 1 (run_full_benchmark_pipeline test_world 1 none run_db)
pipeline-Settled_example =
    pipeline-Settled test_world 1 none running run_db (inl refl) run-HasStatus

pipeline-WellTraced_example : WellTraced ((run_full_benchmark_pipeline test_world 1 none run_db).1)
pipeline-WellTraced_example = pipeline-WellTraced test_world 1 none run_db run-WellTraced

heuristic-no_hits_example :
    (db' : Db ℕ) × (create_and_execute_run_from_ids empty_world 1 1 none start_db
      ≡ (err value_error, db'))
    × HasStatus 1 retrieval_completed db'
    × WellTraced db'
unfolding validate_run_create_prerequisites query_case_at pipeline_config_at get_row
heuristic-no_hits_example =
    heuristic-no_hits empty_world 1 1 none start_db test_case test_config refl refl refl refl
      start-WellTraced
