-- ===== src/Evaluation/Laws.antt =====
-- What the heuristic evaluation says: the classification of its scores.
use context_lens.Prelude.{
  ℕ, ◌≡◌, refl, Bool, true, false, Option, List, arith, ok, Option-cases, Result-cases, Bool-cases,
  inl, inr, ◌⊎◌,
}
use context_lens.Prelude.Floats.{Floats}
use context_lens.Prelude.Text.{Str}
use context_lens.Domain.FailureTaxonomy.{FailureType, retrieval_miss}
use context_lens.Trace.Rows.{Db, QueryCase, RetrievalResult}
use context_lens.Trace.Store.{get_row}
use context_lens.Trace.Write.{run_at, is_nil}
use context_lens.Trace.Context.{context_rows}
use context_lens.Evaluation.{
  Scores, miss_scores, classify_heuristic_failure_from_scores, scores_from,
  compute_minimal_retrieval_evaluation, compute_hybrid_skipped_evaluation,
}

abbrev pub is_miss : FailureType → Bool
is_miss retrieval_miss = true
is_miss _ = false

module _ {F : Type 0} (fl : Floats F) where
  pub classify-miss :
      (r c k : Option F) → is_miss (classify_heuristic_failure_from_scores fl false r c k) ≡ false
  unfolding classify_heuristic_failure_from_scores
  classify-miss r c k = ground arith

  scores_from-miss :
      (qc : QueryCase) (rows : List (RetrievalResult F × Str))
      → is_miss (scores_from fl qc rows).failure_type ≡ false
  unfolding scores_from
  scores_from-miss qc rows = classify-miss _ _ _

  scores_from-failure :
      (qc : QueryCase) (rows : List (RetrievalResult F × Str))
      → classify_heuristic_failure_from_scores fl false
          (scores_from fl qc rows).retrieval_relevance
          (scores_from fl qc rows).context_coverage
          (scores_from fl qc rows).completeness
        ≡ (scores_from fl qc rows).failure_type
  unfolding scores_from
  scores_from-failure qc rows = refl

  -- the two ways in which the evaluation succeeds
  minimal-cases :
      (run_id : ℕ) (db : Db F) {ev : Scores F}
      → compute_minimal_retrieval_evaluation fl run_id db ≡ ok ev
      → ((is_nil (context_rows run_id db) ≡ true) × (ev ≡ miss_scores))
        ⊎ ((is_nil (context_rows run_id db) ≡ false)
            × ((qc : QueryCase) × (ev ≡ scores_from fl qc (context_rows run_id db))))
  unfolding compute_minimal_retrieval_evaluation
  minimal-cases run_id db {ev} h = elim (Option-cases (run_at run_id db)) [
    | inl e ↦ absurd (ground arith)
    | inr (run, e) ↦
        elim (Option-cases (get_row (λ (q : QueryCase). q.id) run.query_case_id db.query_cases)) [
          | inl q ↦ absurd (ground arith)
          | inr (qc, q) ↦ elim (Bool-cases (is_nil (context_rows run_id db))) [
            | inl n ↦ inl (n, ground arith)
            | inr n ↦ inr (n, (qc, ground arith))
          ]
        ]
  ]

  -- A heuristic evaluation that succeeds is classified as RETRIEVAL_MISS exactly when the run has no
  -- retrieved chunk to score.
  pub is_miss-exact :
      (run_id : ℕ) (db : Db F) {ev : Scores F}
      → compute_minimal_retrieval_evaluation fl run_id db ≡ ok ev
      → is_miss ev.failure_type ≡ is_nil (context_rows run_id db)
  unfolding miss_scores
  is_miss-exact run_id db h = elim (minimal-cases run_id db h) [
    | inl (n, e) ↦ rw (e, n) refl
    | inr (n, (qc, e)) ↦ rw (e, n) (scores_from-miss qc (context_rows run_id db))
  ]

  reclassified :
      (run_id : ℕ) (db : Db F) {base : Scores F}
      → compute_minimal_retrieval_evaluation fl run_id db ≡ ok base
      → is_nil (context_rows run_id db) ≡ false
      → classify_heuristic_failure_from_scores fl false base.retrieval_relevance
          base.context_coverage base.completeness
        ≡ base.failure_type
  reclassified run_id db h n = elim (minimal-cases run_id db h) [
    | inl (n', e) ↦ absurd (ground arith)
    | inr (n', (qc, e)) ↦ rw e (scores_from-failure qc (context_rows run_id db))
  ]

  -- When the judge of a hybrid run is skipped, its evaluation differs from the heuristic one only in
  -- its faithfulness and its metadata: the other scores and the failure type are the same.
  pub skipped_same :
      (run_id : ℕ) (answer : Str) (db : Db F) {ev : Scores F}
      → compute_hybrid_skipped_evaluation fl run_id answer db ≡ ok ev
      → (base : Scores F) × (compute_minimal_retrieval_evaluation fl run_id db ≡ ok base)
        × (ev.failure_type ≡ base.failure_type)
        × (ev.completeness ≡ base.completeness)
        × (ev.retrieval_relevance ≡ base.retrieval_relevance)
        × (ev.context_coverage ≡ base.context_coverage)
  unfolding compute_hybrid_skipped_evaluation
  skipped_same run_id answer db {ev} h =
      elim (Result-cases (compute_minimal_retrieval_evaluation fl run_id db)) [
        | inr (x, b) ↦ absurd (ground arith)
        | inl (base, b) ↦ elim (Option-cases (run_at run_id db)) [
          | inl e ↦ absurd (ground arith)
          | inr (run, e) ↦
              elim (Option-cases
                (get_row (λ (q : QueryCase). q.id) run.query_case_id db.query_cases)) [
                  | inl q ↦ absurd (ground arith)
                  | inr (qc, q) ↦ elim (Bool-cases (is_nil (context_rows run_id db))) [
                    | inl n ↦
                        let same : ev ≡ base = ground arith in
                        (base, b, rw same refl, rw same refl, rw same refl, rw same refl)
                    | inr n ↦ (
                      base,
                      b,
                      ground (arith, reclassified run_id db b n),
                      ground arith,
                      ground arith,
                      ground arith,
                    )
                  ]
                ]
        ]
      ]
