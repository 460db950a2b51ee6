-- ===== src/Trace/Invariant.antt =====
-- The invariant of the trace tables: what a run's status says about its rows.
use context_lens.Prelude.{
  ℕ, ◌≡◌, ◌≢◌, ◌≤◌, refl, ◌∙◌, false, Option, none, some, List, arith, length,
}
use mathlib.Core.Path.{subst}
use native.Mathlib.Decide.{ℕ_discrete}
use context_lens.Trace.Rows.{
  Db, Run, Instrumentation, GenerationResult, EvaluationResult, Status, pending, running,
  retrieval_completed, generation_completed, completed, failed,
}
use context_lens.Trace.Write.{
  run_at, retrieval_of, generation_of, evaluation_of, save_run, is_none, add_retrieval,
  retrieval_rows, add_generation, add_evaluation,
}
use context_lens.Trace.Write.Laws.{
  run_at-save_run_ne, retrieval_of-add_rows_ne, generation_of-add_ne, evaluation_of-add_ne,
}

-- The numbers of retrieval, generation and evaluation rows of a run with this status, and the
-- latencies that it has.
abbrev pub IsPhase : Status → Run → ℕ → ℕ → ℕ → Type 0
IsPhase pending r nr ng ne = (nr ≡ 0) × (ng ≡ 0) × (ne ≡ 0)
IsPhase running r nr ng ne = (nr ≡ 0) × (ng ≡ 0) × (ne ≡ 0)
IsPhase retrieval_completed r nr ng ne = (ng ≡ 0) × (ne ≡ 0)
IsPhase generation_completed r nr ng ne = (1 ≤ nr) × (ng ≡ 1) × (ne ≡ 0)
IsPhase completed r nr ng ne =
    (1 ≤ nr)
    × (ng ≤ 1)
    × (ne ≡ 1)
    × (is_none r.evaluation_latency_ms ≡ false)
    × (is_none r.total_latency_ms ≡ false)
IsPhase failed r nr ng ne = (ng ≤ 1) × (ng ≤ nr) × (ne ≡ 0)

-- a merged patch is no part of a phase
pub IsPhase-patch :
    (s : Status) (r : Run) (patch : Instrumentation) (nr ng ne : ℕ)
    → IsPhase s r nr ng ne
    → IsPhase s (record r { trace_instrumentation_json = some patch }) nr ng ne
IsPhase-patch pending r patch nr ng ne h = h
IsPhase-patch _ r patch nr ng ne h = h

-- Rows belong to runs: an id with no run has none.
abbrev pub IsTraced : Option Run → ℕ → ℕ → ℕ → Type 0
IsTraced none nr ng ne = (nr ≡ 0) × (ng ≡ 0) × (ne ≡ 0)
IsTraced (some r) nr ng ne = IsPhase r.status r nr ng ne

module _ {F : Type 0} where
  abbrev pub IsTracedAt : ℕ → Db F → Type 0
  IsTracedAt j db =
      IsTraced (run_at j db) (length (retrieval_of j db)) (length (generation_of j db))
        (length (evaluation_of j db))

  pub record WellTraced (db : Db F) : Type 0 where
    pub at : (j : ℕ) → IsTracedAt j db
    -- no run has an id that the sequence has not given
    pub fresh : (j : ℕ) → db.next_run_id ≤ j → run_at j db ≡ none

  -- What a change to the run `i` leaves alone.
  pub record Frame (i : ℕ) (db db' : Db F) : Type 0 where
    pub runs : (j : ℕ) → i ≢ j → run_at j db' ≡ run_at j db
    pub retrieval : (j : ℕ) → i ≢ j → retrieval_of j db' ≡ retrieval_of j db
    pub generation : (j : ℕ) → i ≢ j → generation_of j db' ≡ generation_of j db
    pub evaluation : (j : ℕ) → i ≢ j → evaluation_of j db' ≡ evaluation_of j db
    pub sequence : db'.next_run_id ≡ db.next_run_id

  IsTracedAt-cong :
      (j : ℕ) (db db' : Db F)
      → run_at j db' ≡ run_at j db
      → retrieval_of j db' ≡ retrieval_of j db
      → generation_of j db' ≡ generation_of j db
      → evaluation_of j db' ≡ evaluation_of j db
      → IsTracedAt j db
      → IsTracedAt j db'
  IsTracedAt-cong j db db' r n g e h = rw (IsTraced, r, n, g, e) h

  -- A change to a run that exists keeps the invariant if the run satisfies it afterwards.
  pub Frame-WellTraced :
      {db db' : Db F} (i : ℕ) (run : Run)
      → run_at i db ≡ some run
      → Frame i db db'
      → IsTracedAt i db'
      → WellTraced db
      → WellTraced db'
  Frame-WellTraced {db} {db'} i run here f new old = record {
    at = λ j. elim (ℕ_discrete i j) [
      | yes e ↦ subst (λ k. IsTracedAt k db') e new
      | no ne ↦
          IsTracedAt-cong j db db' (f.runs j ne) (f.retrieval j ne) (f.generation j ne)
            (f.evaluation j ne) (old.at j)
    ];
    fresh = λ j le. elim (ℕ_discrete i j) [
      | yes e ↦ absurd (cc (old.fresh j (omega (arith, f.sequence))))
      | no ne ↦ f.runs j ne ∙ old.fresh j (omega (arith, f.sequence))
    ];
  }

  pub Frame-trans : {a b c : Db F} (i : ℕ) → Frame i a b → Frame i b c → Frame i a c
  Frame-trans i f g = record {
    runs = λ j ne. g.runs j ne ∙ f.runs j ne;
    retrieval = λ j ne. g.retrieval j ne ∙ f.retrieval j ne;
    generation = λ j ne. g.generation j ne ∙ f.generation j ne;
    evaluation = λ j ne. g.evaluation j ne ∙ f.evaluation j ne;
    sequence = g.sequence ∙ f.sequence;
  }

  pub Frame-save_run : (db : Db F) (new : Run) (i : ℕ) → new.id ≡ i → Frame i db (save_run new db)
  unfolding save_run retrieval_of generation_of evaluation_of
  Frame-save_run db new i e = record {
    runs = λ j ne. run_at-save_run_ne db new i j e ne;
    retrieval = λ j ne. refl;
    generation = λ j ne. refl;
    evaluation = λ j ne. refl;
    sequence = refl;
  }

  pub Frame-add_retrieval :
      (db : Db F) (i : ℕ) (xs : List (ℕ × ℕ × F))
      → Frame i db (add_retrieval (retrieval_rows i xs) db)
  unfolding run_at add_retrieval generation_of evaluation_of
  Frame-add_retrieval db i xs = record {
    runs = λ j ne. refl;
    retrieval = λ j ne. retrieval_of-add_rows_ne db i j xs ne;
    generation = λ j ne. refl;
    evaluation = λ j ne. refl;
    sequence = refl;
  }

  pub Frame-add_generation :
      (db : Db F) (i : ℕ) (row : GenerationResult)
      → row.run_id ≡ i
      → Frame i db (add_generation row db)
  unfolding run_at add_generation retrieval_of evaluation_of
  Frame-add_generation db i row e = record {
    runs = λ j ne. refl;
    retrieval = λ j ne. refl;
    generation = λ j ne. generation_of-add_ne db row i j e ne;
    evaluation = λ j ne. refl;
    sequence = refl;
  }

  pub Frame-add_evaluation :
      (db : Db F) (i : ℕ) (row : EvaluationResult F)
      → row.run_id ≡ i
      → Frame i db (add_evaluation row db)
  unfolding run_at add_evaluation retrieval_of generation_of
  Frame-add_evaluation db i row e = record {
    runs = λ j ne. refl;
    retrieval = λ j ne. refl;
    generation = λ j ne. refl;
    evaluation = λ j ne. evaluation_of-add_ne db row i j e ne;
    sequence = refl;
  }
