-- ===== src/Batch/Counts.antt =====
-- How many runs a batch has: the loops of `run_batch_benchmark` in
-- backend/app/services/batch_runner.py.
use context_lens.Prelude.{
  ℕ, zero, suc, ◌*◌, ◌≤◌, ◌≡◌, refl, List, [], ◌∷◌, arith, take, length, length-append, length-take,
}
use native.Mathlib.Nat.{mul-le-mul_right}
use context_lens.Trace.Rows.{Db, QueryCase}
use context_lens.Batch.{
  reps_from, cells_of_configs, cells_of_cases, load_ordered_query_cases, chosen_cases, batch_cells,
}

length-reps_from : (ds qc cfg rep n : ℕ) → length (reps_from ds qc cfg rep n) ≡ n
unfolding reps_from
length-reps_from ds qc cfg rep zero = refl
length-reps_from ds qc cfg rep (suc n) = omega (arith, length-reps_from ds qc cfg (suc rep) n)

length-cells_of_configs :
    (n ds qc : ℕ) (cfgs : List ℕ) → length (cells_of_configs n ds qc cfgs) ≡ length cfgs * n
unfolding cells_of_configs
length-cells_of_configs n ds qc [] = omega arith
length-cells_of_configs n ds qc (cfg ∷ cfgs) = omega (
  arith,
  length-append (reps_from ds qc cfg 0 n) (cells_of_configs n ds qc cfgs),
  length-reps_from ds qc cfg 0 n,
  length-cells_of_configs n ds qc cfgs,
)

length-cells_of_cases :
    (n ds : ℕ) (cfgs : List ℕ) (qcs : List QueryCase)
    → length (cells_of_cases n ds cfgs qcs) ≡ length qcs * (length cfgs * n)
unfolding cells_of_cases
length-cells_of_cases n ds cfgs [] = omega arith
length-cells_of_cases n ds cfgs (qc ∷ qcs) = omega (
  arith,
  length-append (cells_of_configs n ds qc.id cfgs) (cells_of_cases n ds cfgs qcs),
  length-cells_of_configs n ds qc.id cfgs,
  length-cells_of_cases n ds cfgs qcs,
)

-- at most the product of the sizes of the loops
pub length-batch_cells :
    {F : Type 0} (shuffle : ℕ → List QueryCase → List QueryCase) (db : Db F) (q n : ℕ)
    (cfgs dss : List ℕ)
    → length (batch_cells shuffle db q n cfgs dss) ≤ length dss * (q * (length cfgs * n))
unfolding batch_cells chosen_cases
length-batch_cells shuffle db q n cfgs [] = omega arith
length-batch_cells shuffle db q n cfgs (ds ∷ dss) =
    let cases = shuffle ds (load_ordered_query_cases ds db) in
    let few : length (take q cases) ≤ q = omega (arith, length-take q cases) in
    omega (
      arith,
      length-append (cells_of_cases n ds cfgs (take q cases)) (batch_cells shuffle db q n cfgs dss),
      length-cells_of_cases n ds cfgs (take q cases),
      mul-le-mul_right (length cfgs * n) few,
      length-batch_cells shuffle db q n cfgs dss,
    )
