-- ===== src/Tests/Registries.antt =====
-- Tests of the registry.
use context_lens.Prelude.{ℕ, none, arith, Bool-cases, inl, inr, ◌==◌}
use context_lens.Prelude.Text.{codes}
use context_lens.Trace.Rows.{Db}
use context_lens.Trace.Store.{get_row}
use context_lens.Registry.{create_dataset}
use context_lens.Registry.Steps.{Consistent, AllAcceptable, begin, next, dataset_created}
use context_lens.Registry.Consistency.{Reachable-Consistent}
use context_lens.Tests.Data.{start_db}

start-Consistent : Consistent start_db
unfolding get_row AllAcceptable
start-Consistent = record {
  cases = λ id x h. elim (Bool-cases (1 == id)) [
    | inl e ↦ ground arith
    | inr e ↦ absurd (ground arith)
  ];
  run_cases = λ id x h. cc;
  run_configs = λ id x h. cc;
  configs = λ id x h. elim (Bool-cases (1 == id)) [
    | inl e ↦ ground arith
    | inr e ↦ absurd (ground arith)
  ];
}

abbrev more_db : Db ℕ
more_db = (create_dataset (codes "new") none none start_db).1

Reachable-Consistent_example : Consistent more_db
Reachable-Consistent_example =
    Reachable-Consistent (next begin (dataset_created (codes "new") none none start_db))
      start-Consistent
