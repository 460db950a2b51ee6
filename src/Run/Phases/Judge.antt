-- ===== src/Run/Phases/Judge.antt =====
-- The judge phase: it ends in one stored evaluation and keeps the invariant.
use context_lens.Prelude.{
  ℕ, ◌≡◌, refl, Bool, true, false, ◌&&◌, not, Option, none, some, arith, ok, Option-cases,
  Result-cases, inl, inr, if◌then◌else◌,
}
use context_lens.Trace.Rows.{
  Db, Run, QueryCase, GenerationResult, Instrumentation, generation_completed,
}
use context_lens.Trace.Store.{scalar_one_or_none}
use context_lens.Trace.Write.{
  run_at, generation_of, save_run, merge_run_trace_instrumentation, EvaluationInput,
  hybrid_skipped_judge_instrumentation, full_llm_run_instrumentation,
  persist_evaluation_and_complete_run,
}
use context_lens.Trace.Write.Laws.{run_at-save_run_self, id-run_at, rows-save_run}
use context_lens.Trace.Write.Evaluated.{persist-WellTraced}
use context_lens.Trace.Context.{context_rows, bodies_of, scores_of}
use context_lens.Trace.Invariant.{
  IsPhase-patch, IsTraced, WellTraced, Frame-WellTraced, Frame-save_run,
}
use context_lens.Evaluation.{compute_hybrid_skipped_evaluation, max_chunk_score_of}
use context_lens.Run.World.{World}
use context_lens.Run.Phases.{
  query_case_at, gen_cost_of, judge_cost_of, total_cost, uses_hybrid, gate_of,
  complete_without_judge, complete_with_judge, skipped_input, judged_input,
  execute_llm_judge_and_complete_run,
}

module _ {F : Type 0} (run_id : ℕ) (patch : Instrumentation) (db : Db F) where
  pub merge-none : run_at run_id db ≡ none → merge_run_trace_instrumentation run_id patch db ≡ db
  unfolding merge_run_trace_instrumentation
  merge-none h = ground arith

  pub merge-some :
      (run : Run)
      → run_at run_id db ≡ some run
      → merge_run_trace_instrumentation run_id patch db
        ≡ save_run (record run { trace_instrumentation_json = some patch }) db
  unfolding merge_run_trace_instrumentation
  merge-some run h = ground arith

  pub merge-WellTraced :
      WellTraced db → WellTraced (merge_run_trace_instrumentation run_id patch db)
  merge-WellTraced old = elim (Option-cases (run_at run_id db)) [
    | inl e ↦ rw (merge-none e) old
    | inr (run, e) ↦
        let new = record run { trace_instrumentation_json = some patch } in
        let rows = rows-save_run db new run_id in
        rw (merge-some run e) (
          Frame-WellTraced run_id run e (Frame-save_run db new run_id (id-run_at db run_id run e))
            (rw (IsTraced, run_at-save_run_self db run new run_id e refl, rows.0, rows.1, rows.2)
              (IsPhase-patch run.status run patch _ _ _ (rw e at (old.at run_id))))
            old)
  ]

module _ {F : Type 0} (w : World F) (run_id : ℕ) (db : Db F) where
  -- The judge phase ended in `db'`: one evaluation was persisted, and a patch merged.
  pub record Concluded (db' : Db F) : Type 0 where
    pub input : EvaluationInput F
    pub patch : Instrumentation
    pub stored : Db F
    pub persisted :
        persist_evaluation_and_complete_run w.upper_beyond_ascii run_id input generation_completed
          db
        ≡ ok stored
    pub result : db' ≡ merge_run_trace_instrumentation run_id patch stored

  without_judge-Concluded :
      (run : Run) (gen : GenerationResult) {db' : Db F}
      → complete_without_judge w run_id run gen db ≡ ok db'
      → (c : Concluded db') × (c.input.used_llm_judge ≡ false)
  unfolding complete_without_judge skipped_input
  without_judge-Concluded run gen h =
      elim (Result-cases (compute_hybrid_skipped_evaluation w.floats run_id gen.answer_text db)) [
        | inr (x, e) ↦ absurd (ground arith)
        | inl (ev, e) ↦
            elim (Result-cases (
              persist_evaluation_and_complete_run w.upper_beyond_ascii run_id
                (skipped_input w run gen ev) generation_completed db)) [
                  | inr (x, p) ↦ absurd (ground arith)
                  | inl (stored, p) ↦ (
                    record {
                      input = skipped_input w run gen ev;
                      patch =
                          hybrid_skipped_judge_instrumentation gen.input_tokens gen.output_tokens
                            (gen_cost_of w gen);
                      stored = stored;
                      persisted = p;
                      result = ground arith;
                    },
                    refl,
                  )
                ]
      ]

  with_judge-Concluded :
      (run : Run) (gen : GenerationResult) (qc : QueryCase) (gate_score : Option F) {db' : Db F}
      → complete_with_judge w run_id run gen qc gate_score db ≡ ok db'
      → (c : Concluded db') × (c.input.used_llm_judge ≡ true)
  unfolding complete_with_judge judged_input
  with_judge-Concluded run gen qc gate_score h =
      elim (Result-cases (
        w.evaluate_with_llm_judge qc.query_text (bodies_of (context_rows run_id db)) gen.answer_text
          qc.expected_answer)) [
            | inr (x, e) ↦ absurd (ground arith)
            | inl (ev, e) ↦
                elim (Result-cases (
                  persist_evaluation_and_complete_run w.upper_beyond_ascii run_id
                    (judged_input w run gen gate_score ev) generation_completed db)) [
                      | inr (x, p) ↦ absurd (ground arith)
                      | inl (stored, p) ↦ (
                        record {
                          input = judged_input w run gen gate_score ev;
                          patch =
                              full_llm_run_instrumentation ev.judge_input_tokens
                                ev.judge_output_tokens gen.input_tokens gen.output_tokens
                                (total_cost w (gen_cost_of w gen) (judge_cost_of w ev));
                          stored = stored;
                          persisted = p;
                          result = ground arith;
                        },
                        refl,
                      )
                    ]
          ]

  either-Concluded :
      (run : Run) (gen : GenerationResult) (qc : QueryCase) (gate_score : Option F) (skip : Bool)
      {db' : Db F}
      → (if skip
          then complete_without_judge w run_id run gen db
          else complete_with_judge w run_id run gen qc gate_score db)
        ≡ ok db'
      → (c : Concluded db') × (c.input.used_llm_judge ≡ not skip)
  either-Concluded run gen qc gate_score true h = without_judge-Concluded run gen h
  either-Concluded run gen qc gate_score false h = with_judge-Concluded run gen qc gate_score h

  -- what the phase has read when it ends
  pub record JudgeFacts (db' : Db F) : Type 0 where
    pub run : Run
    pub gate : Bool
    pub here : run_at run_id db ≡ some run
    pub gate_eq :
        gate_of w
          (uses_hybrid run.metadata_json)
          run_id
          (max_chunk_score_of w.floats (scores_of (context_rows run_id db)))
          db
        ≡ ok gate
    pub concluded : Concluded db'
    pub judge_eq : concluded.input.used_llm_judge ≡ not (uses_hybrid run.metadata_json && gate)

  pub judge_sound :
      {db' : Db F} → execute_llm_judge_and_complete_run w run_id db ≡ ok db' → JudgeFacts db'
  unfolding execute_llm_judge_and_complete_run
  judge_sound h = elim (Option-cases (run_at run_id db)) [
    | inl e ↦ absurd (ground arith)
    | inr (run, e) ↦ elim (Result-cases (scalar_one_or_none (generation_of run_id db))) [
      | inr (x, g) ↦ absurd (ground arith)
      | inl (none, g) ↦ absurd (ground arith)
      | inl (some gen, g) ↦ elim (Result-cases (query_case_at w run.query_case_id db)) [
        | inr (x, q) ↦ absurd (ground arith)
        | inl (qc, q) ↦
            let best = max_chunk_score_of w.floats (scores_of (context_rows run_id db)) in
            let use_hybrid = uses_hybrid run.metadata_json in
            elim (Result-cases (gate_of w use_hybrid run_id best db)) [
              | inr (x, a) ↦ absurd (ground arith)
              | inl (gate, a) ↦
                  let (c, judged) =
                    either-Concluded run gen qc (if use_hybrid then some best else none)
                      (use_hybrid && gate) (ground arith) in
                  record {
                    run = run;
                    gate = gate;
                    here = e;
                    gate_eq = a;
                    concluded = c;
                    judge_eq = judged;
                  }
            ]
      ]
    ]
  ]

  -- If the judge phase succeeds on a database that satisfies the invariant of the trace tables, the
  -- new database satisfies it.
  pub judge-WellTraced :
      {db' : Db F}
      → execute_llm_judge_and_complete_run w run_id db ≡ ok db'
      → WellTraced db
      → WellTraced db'
  judge-WellTraced h old =
      let c = (judge_sound h).concluded in
      rw (c.result) (
        merge-WellTraced run_id c.patch c.stored (
          persist-WellTraced w.upper_beyond_ascii run_id c.input db generation_completed (inr refl)
            c.persisted old))
