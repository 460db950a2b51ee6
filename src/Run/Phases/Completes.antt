-- ===== src/Run/Phases/Completes.antt =====
-- The judge phase ends: with a judge that answers, a run that has its answer is completed.
use context_lens.Prelude.{
  ℕ, ◌≡◌, refl, Bool, true, false, ◌&&◌, Option, none, some, List, [], ◌∷◌, arith, length, ok,
  Option-cases, inl, inr, if◌then◌else◌,
}
use context_lens.Prelude.Text.{Str}
use context_lens.Trace.Rows.{Db, Run, QueryCase, GenerationResult, generation_completed}
use context_lens.Trace.Store.{get_row}
use context_lens.Trace.Write.{
  run_at, generation_of, evaluation_of, EvaluationInput, persist_evaluation_and_complete_run,
}
use context_lens.Trace.Write.Evaluated.{evaluated, persist_complete}
use context_lens.Trace.Context.{context_rows, bodies_of, scores_of}
use context_lens.Evaluation.{
  Scores, compute_minimal_retrieval_evaluation, compute_hybrid_skipped_evaluation,
  max_chunk_score_of,
}
use context_lens.Run.World.{World, Verdict}
use context_lens.Run.Phases.{
  query_case_at, uses_hybrid, gate_of, complete_without_judge, complete_with_judge, skipped_input,
  judged_input, execute_llm_judge_and_complete_run,
}

-- a judge that answers whatever it is asked
abbrev pub Answers : {F : Type 0} → World F → Type 0
Answers {F} w =
    (query : Str) (bodies : List Str) (answer : Str) (reference : Option Str)
    → (v : Verdict F) × (w.evaluate_with_llm_judge query bodies answer reference ≡ ok v)

pub single_row : {A : Type 0} (rows : List A) → length rows ≡ 1 → (a : A) × (rows ≡ a ∷ [])
single_row [] h = absurd (omega arith)
single_row (a ∷ []) h = (a, refl)
single_row (a ∷ b ∷ rows) h = absurd (omega arith)

pub empty_row : {A : Type 0} (rows : List A) → length rows ≡ 0 → rows ≡ []
empty_row [] h = refl
empty_row (a ∷ rows) h = absurd (omega arith)

module _ {F : Type 0} (w : World F) (run_id : ℕ) (db : Db F) (run : Run) (qc : QueryCase)
    (gen : GenerationResult) (here : run_at run_id db ≡ some run)
    (status : run.status ≡ generation_completed)
    (case : query_case_at w run.query_case_id db ≡ ok qc)
    (answered : generation_of run_id db ≡ gen ∷ []) (fresh : evaluation_of run_id db ≡ []) where
  persisted :
      (input : EvaluationInput F)
      → persist_evaluation_and_complete_run w.upper_beyond_ascii run_id input generation_completed
          db
        ≡ ok (evaluated w.upper_beyond_ascii run_id input db run)
  persisted input =
      persist_complete w.upper_beyond_ascii run_id input db generation_completed run
        (here, status, fresh, refl, rw answered refl, rw answered (ground arith))

  scored : (ev : Scores F) × (compute_minimal_retrieval_evaluation w.floats run_id db ≡ ok ev)
  unfolding compute_minimal_retrieval_evaluation query_case_at
  scored =
      elim (Option-cases (get_row (λ (q : QueryCase). q.id) run.query_case_id db.query_cases)) [
        | inl e ↦ absurd (ground arith)
        | inr (q, e) ↦ rw (here, compute_minimal_retrieval_evaluation, e) (_, refl)
      ]

  skipped :
      (answer : Str)
      → (ev : Scores F) × (compute_hybrid_skipped_evaluation w.floats run_id answer db ≡ ok ev)
  unfolding compute_hybrid_skipped_evaluation query_case_at
  skipped answer =
      let (base, b) = scored in
      elim (Option-cases (get_row (λ (q : QueryCase). q.id) run.query_case_id db.query_cases)) [
        | inl e ↦ absurd (ground arith)
        | inr (q, e) ↦ rw (b, compute_hybrid_skipped_evaluation, here, e) (_, refl)
      ]

  gated : (hybrid : Bool) (best : F) → (gate : Bool) × (gate_of w hybrid run_id best db ≡ ok gate)
  unfolding gate_of
  gated false best = (false, refl)
  gated true best = let (base, b) = scored in rw (b, gate_of) (_, refl)

  without : (db' : Db F) × (complete_without_judge w run_id run gen db ≡ ok db')
  unfolding complete_without_judge
  without =
      let (ev, e) = skipped gen.answer_text in
      rw (e, complete_without_judge, persisted (skipped_input w run gen ev)) (_, refl)

  with_judge :
      Answers w
      → (gate_score : Option F)
      → (db' : Db F) × (complete_with_judge w run_id run gen qc gate_score db ≡ ok db')
  unfolding complete_with_judge
  with_judge answers gate_score =
      let (v, e) =
        answers qc.query_text (bodies_of (context_rows run_id db)) gen.answer_text
          qc.expected_answer in
      rw (e, complete_with_judge, persisted (judged_input w run gen gate_score v)) (_, refl)

  either :
      Answers w
      → (skip : Bool) (gate_score : Option F)
      → (db' : Db F) × ((if skip
            then complete_without_judge w run_id run gen db
            else complete_with_judge w run_id run gen qc gate_score db)
          ≡ ok db')
  either answers true gate_score = without
  either answers false gate_score = with_judge answers gate_score

  pub judge_ends :
      Answers w → (db' : Db F) × (execute_llm_judge_and_complete_run w run_id db ≡ ok db')
  unfolding execute_llm_judge_and_complete_run
  judge_ends answers =
      let best = max_chunk_score_of w.floats (scores_of (context_rows run_id db)) in
      let hybrid = uses_hybrid run.metadata_json in
      let (gate, g) = gated hybrid best in
      let (db', e) = either answers (hybrid && gate) (if hybrid then some best else none) in
      (db', ground (arith, g, e))
