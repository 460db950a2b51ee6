-- ===== src/Tests/Data.antt =====
-- A small database and a world for the tests: one dataset, one query case, one pipeline
-- configuration, two chunks of a document, and collaborators that answer. Scores are hundredths.
use context_lens.Prelude.{
  ℕ, zero, suc, ◌+◌, ◌*◌, true, Option, none, some, List, [], ◌∷◌, Result, ok, arith, ltb, ◌==◌,
  leb,
}
use Prim.Native.Nat.{◌/◌, ◌-◌}
use context_lens.Prelude.Floats.{Floats, IsRanking}
use context_lens.Prelude.Text.{Str, codes}
use context_lens.Trace.Rows.{Db, Dataset, QueryCase, PipelineConfig, Chunk}
use context_lens.Run.World.{World, Answer, Verdict}
use context_lens.Queue.Broker.{Broker}

abbrev pub hundredths : ℕ → ℕ → ℕ
hundredths n zero = n * 100
hundredths n (suc zero) = n * 10
hundredths n (suc (suc k)) = n

abbrev pub test_floats : Floats ℕ
test_floats = record {
  lt = ltb;
  ge = λ a b. leb b a;
  eq = λ a b. a == b;
  add = λ a b. a + b;
  sub = λ a b. a - b;
  mul = λ a b. (a * b) / 100;
  neg = λ a. a;
  round = λ a k. a;
  div = λ a b. (a * 100) / b;
  of_nat = λ n. n * 100;
  lit = hundredths;
}

pub hundredths-IsRanking : IsRanking test_floats
hundredths-IsRanking = record {
  lt_asym = λ a b h. ground arith;
  lt_trans = λ a b c h k. ground arith;
  eq_iff = λ a b. ground arith;
}

abbrev pub found_two : Db ℕ → Str → ℕ → Option ℕ → Result (List (ℕ × ℕ))
found_two db query top_k document_id = ok ((1, 90) ∷ (2, 60) ∷ [])

abbrev pub found_none : Db ℕ → Str → ℕ → Option ℕ → Result (List (ℕ × ℕ))
found_none db query top_k document_id = ok []

abbrev answered : Str → List Str → Result Answer
answered query bodies = ok (record {
  answer_text = codes "a";
  model_id = codes "m";
  input_tokens = some 10;
  output_tokens = some 5;
})

abbrev judged : Str → List Str → Str → Option Str → Result (Verdict ℕ)
judged query bodies answer expected = ok (record {
  faithfulness = some 90;
  completeness = some 80;
  groundedness = some 85;
  retrieval_relevance = some 70;
  context_coverage = some 60;
  failure_type = some (codes "no failure");
  judge_input_tokens = some 20;
  judge_output_tokens = none;
})

abbrev priced : Option ℕ → Option ℕ → Option ℕ
priced (some i) (some o) = some (i + o)
priced _ _ = none

abbrev pub world_with : (Db ℕ → Str → ℕ → Option ℕ → Result (List (ℕ × ℕ))) → World ℕ
world_with search = record {
  floats = test_floats;
  upper_beyond_ascii = λ c. c ∷ [];
  search_chunks = search;
  provider_answer = answered;
  evaluate_with_llm_judge = judged;
  estimate_usd_from_tokens = priced;
  retrieval_ms = 3;
  generation_ms = 4;
  evaluation_ms = 5;
  api_key_configured = true;
}

abbrev pub test_world : World ℕ
test_world = world_with found_two

abbrev pub empty_world : World ℕ
empty_world = world_with found_none

abbrev pub test_case : QueryCase
test_case = record {
  id = 1;
  dataset_id = 1;
  query_text = codes "q";
  expected_answer = none;
  metadata_json = none;
}

abbrev pub test_config : PipelineConfig
test_config = record {
  id = 1;
  name = codes "p";
  embedding_model = codes "e";
  chunk_strategy = codes "fixed";
  chunk_size = 100;
  chunk_overlap = 10;
  top_k = 3;
  metadata_json = none;
}

abbrev test_dataset : Dataset
test_dataset = record { id = 1; name = codes "d"; description = none; metadata_json = none }

abbrev chunk_of : ℕ → Str → Chunk
chunk_of id content = record { id = id; document_id = 7; content = content }

-- no run yet
abbrev pub start_db : Db ℕ
start_db = record {
  datasets = test_dataset ∷ [];
  query_cases = test_case ∷ [];
  pipeline_configs = test_config ∷ [];
  documents = 7 ∷ [];
  chunks = chunk_of 1 (codes "x") ∷ chunk_of 2 (codes "y") ∷ [];
  runs = [];
  retrieval_results = [];
  generation_results = [];
  evaluation_results = [];
  next_dataset_id = 2;
  next_query_case_id = 2;
  next_pipeline_config_id = 2;
  next_run_id = 1;
}

abbrev pub test_broker : Broker
test_broker = record { reachable = true; now = 50; locks = []; jobs = []; next_job_id = 1 }
