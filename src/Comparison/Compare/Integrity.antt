-- ===== src/Comparison/Compare/Integrity.antt =====
-- What a strict comparison promises: `compare_pipeline_configs` of
-- backend/app/services/config_comparison.py.
use context_lens.Prelude.{
  Option, none, ℕ, ◌≡◌, ◌≤◌, refl, sym, ◌∙◌, Bool, true, false, ◌&&◌, ◌||◌, not, some, List, [],
  ◌∷◌, map, ◌==◌, ==→eq, ltb, leb, length, arith, max, Result, ok, value_error, require, ◌>>◌,
  Bool-cases, Result-cases, inl, inr,
}
use context_lens.Prelude.Counting.{contains}
use context_lens.Prelude.Floats.{Floats}
use context_lens.Trace.Rows.{Db, EvaluatorType, heuristic}
use context_lens.Trace.Write.{is_nil, is_none}
use context_lens.Comparison.{
  Aggregate, Scope, ConfigComparisonMetrics, distinct, distinct_from, query_case_set, runs_of,
  build_metrics_list, metrics_of,
}
use context_lens.Comparison.Compare.{
  EvaluatorChoice, one, both, Request, max_config_ids, ConfigComparisonResponse, effective_min,
  scope_of, rows_in, checked_rows, compare_buckets, compare_pipeline_configs, enforce_integrity,
  enough_runs, traced_of, sets_agree, all_same, same_set, subset, or_two,
}

clash : {b : Bool} → b ≡ false → b ≡ true → ⊥
clash h k = absurd (ground arith)

-- `dict.fromkeys` keeps the members.
contains-distinct_from :
    (seen xs : List ℕ) (n : ℕ)
    → contains seen n ≡ false
    → contains (distinct_from seen xs) n ≡ contains xs n
unfolding distinct_from
contains-distinct_from seen [] n h = refl
contains-distinct_from seen (x ∷ xs) n h = elim (Bool-cases (contains seen x)) [
  | inl old ↦ elim (Bool-cases (x == n)) [
    | inl same ↦ let e : x ≡ n = ==→eq x n same in absurd (clash (rw (← e) at h) old)
    | inr other ↦ rw (old, other) (contains-distinct_from seen xs n h)
  ]
  | inr new ↦ elim (Bool-cases (x == n)) [
    | inl same ↦ rw (new, same)
    | inr other ↦ rw (new, other) (contains-distinct_from (x ∷ seen) xs n (rw other h))
  ]
]

pub contains-distinct : (xs : List ℕ) (n : ℕ) → contains (distinct xs) n ≡ contains xs n
unfolding distinct
contains-distinct xs n = contains-distinct_from [] xs n refl

subset-contains :
    (xs ys : List ℕ) (n : ℕ) → subset xs ys ≡ true → contains xs n ≡ true → contains ys n ≡ true
unfolding subset
subset-contains [] ys n h k = absurd (ground arith)
subset-contains (x ∷ xs) ys n h k = ground (arith, subset-contains xs ys n)

same_set-contains : (xs ys : List ℕ) (n : ℕ) → same_set xs ys ≡ true → contains xs n ≡ contains ys n
unfolding same_set
same_set-contains xs ys n h = ground (arith, subset-contains xs ys n, subset-contains ys xs n)

all_same-contains :
    (f : ℕ → List ℕ) (first : List ℕ) (pids : List ℕ) (p : ℕ)
    → all_same first (map f pids) ≡ true
    → contains pids p ≡ true
    → same_set first (f p) ≡ true
unfolding all_same
all_same-contains f first [] p h k = absurd (ground arith)
all_same-contains f first (q ∷ pids) p h k = elim (Bool-cases (q == p)) [
  | inl same ↦ let e : q ≡ p = ==→eq q p same in rw (← e) (ground arith)
  | inr other ↦ all_same-contains f first pids p (ground arith) (rw other at k)
]

subset-cons : (x : ℕ) (xs ys : List ℕ) → subset xs ys ≡ true → subset xs (x ∷ ys) ≡ true
unfolding subset
subset-cons x [] ys h = refl
subset-cons x (y ∷ xs) ys h = ground (arith, subset-cons x xs ys)

subset_self : (xs : List ℕ) → subset xs xs ≡ true
unfolding subset
subset_self [] = refl
subset_self (x ∷ xs) = ground (arith, subset-cons x xs xs, subset_self xs)

same_set_self : (xs : List ℕ) → same_set xs xs ≡ true
unfolding same_set
same_set_self xs = ground (arith, subset_self xs)

agree-contains :
    (f : ℕ → List ℕ) (pids : List ℕ) (p q n : ℕ)
    → sets_agree (map f pids) ≡ true
    → contains pids p ≡ true
    → contains pids q ≡ true
    → contains (f p) n ≡ contains (f q) n
unfolding sets_agree
agree-contains f [] p q n h hp hq = absurd (ground arith)
agree-contains f (r ∷ pids) p q n h hp hq =
    sym (same_set-contains (f r) (f p) n (first_same f r pids p h hp))
    ∙ same_set-contains (f r) (f q) n (first_same f r pids q h hq)
  where
    first_same :
        (f : ℕ → List ℕ) (r : ℕ) (pids : List ℕ) (p : ℕ)
        → all_same (f r) (map f pids) ≡ true
        → contains (r ∷ pids) p ≡ true
        → same_set (f r) (f p) ≡ true
    first_same f r pids p h hp = elim (Bool-cases (r == p)) [
      | inl same ↦ let e : r ≡ p = ==→eq r p same in rw (← e) (same_set_self (f r))
      | inr other ↦ all_same-contains f (f r) pids p h (rw other at hp)
    ]

enough-le :
    {F : Type 0} (n : ℕ) (rows : List (ConfigComparisonMetrics F)) (pids : List ℕ) (p : ℕ)
    → enough_runs n rows pids ≡ ok tt
    → contains pids p ≡ true
    → n ≤ traced_of p rows
unfolding enough_runs
enough-le n rows [] p h k = absurd (ground arith)
enough-le n rows (q ∷ pids) p h k = elim (Bool-cases (ltb (traced_of q rows) n)) [
  | inl short ↦ absurd (ground arith)
  | inr long ↦ elim (Bool-cases (q == p)) [
    | inl same ↦ let e : q ≡ p = ==→eq q p same in rw (← e) (ground arith)
    | inr other ↦ enough-le n rows pids p (ground arith) (rw other at k)
  ]
]

-- the rest of a sequence that went through
require-ok :
    {B : Type 0} (test : Bool) (next : Result B) {b : B}
    → (require test value_error >> next) ≡ ok b
    → (test ≡ true) × (next ≡ ok b)
require-ok true next h = (refl, h)
require-ok false next h = absurd (ground arith)

only_one :
    (pids : List ℕ) (p q : ℕ)
    → leb 2 (length pids) ≡ false
    → contains pids p ≡ true
    → contains pids q ≡ true
    → p ≡ q
only_one [] p q h hp hq = absurd (ground arith)
only_one (r ∷ []) p q h hp hq = ground arith
only_one (r ∷ s ∷ pids) p q h hp hq = absurd (ground arith)

-- A strict check that went through: the sets agree, unless there is one configuration alone, and
-- each configuration has its runs.
enforce-strict :
    {F : Type 0} (pids : List ℕ) (rows : List (ConfigComparisonMetrics F)) (query_sets : ℕ → List ℕ)
    (n : ℕ)
    → enforce_integrity pids rows query_sets (some n) true ≡ ok tt
    → ((not (leb 2 (length pids)) || sets_agree (map query_sets pids)) ≡ true)
      × (enough_runs n rows pids ≡ ok tt)
unfolding enforce_integrity
enforce-strict pids rows query_sets n h =
    require-ok (not (leb 2 (length pids)) || sets_agree (map query_sets pids))
      (enough_runs n rows pids) h

-- the minimum of the request, if it gives one
abbrev pub AtLeast : Option ℕ → ℕ → Type 0
AtLeast none runs = Unit
AtLeast (some least_runs) runs = least_runs ≤ runs

least-AtLeast : (asked : Option ℕ) (runs : ℕ) → max 2 (or_two asked) ≤ runs → AtLeast asked runs
unfolding or_two
least-AtLeast none runs h = tt
least-AtLeast (some n) runs h = elim (Bool-cases (n == 0)) [
  | inl zero_runs ↦ let e : n ≡ 0 = ==→eq n 0 zero_runs in omega (arith, e)
  | inr positive ↦ let le : max 2 n ≤ runs = rw positive at h in omega (arith, le)
]

effective_min-strict :
    (req : Request)
    → req.strict_comparison ≡ true
    → effective_min req ≡ some (max 2 (or_two req.min_traced_runs))
unfolding effective_min
effective_min-strict req strict = rw strict

module _ {F : Type 0} (fl : Floats F) (aggregate : Aggregate F) (db : Db F) (req : Request) where
  traced-runs :
      (scope : Scope) (bucket : EvaluatorType) (pids : List ℕ) (p : ℕ)
      → contains pids p ≡ true
      → traced_of p (build_metrics_list fl aggregate db scope bucket pids)
        ≡ length (runs_of db scope p)
  unfolding traced_of build_metrics_list metrics_of
  traced-runs scope bucket [] p h = absurd (ground arith)
  traced-runs scope bucket (q ∷ pids) p h = elim (Bool-cases (q == p)) [
    | inl same ↦ let e : q ≡ p = ==→eq q p same in rw (same, e)
    | inr other ↦ rw other (traced-runs scope bucket pids p (rw other at h))
  ]

  module _ (strict : req.strict_comparison ≡ true) (pids : List ℕ) where
    -- what a bucket that passed the check promises of two of its configurations
    abbrev Agree : ℕ → ℕ → Type 0
    Agree p q =
        (2 ≤ length (runs_of db (scope_of req pids) p))
        × AtLeast req.min_traced_runs (length (runs_of db (scope_of req pids) p))
        × ((n : ℕ)
            → contains (query_case_set db (scope_of req pids) p) n
              ≡ contains (query_case_set db (scope_of req pids) q) n)

    checked-Agree :
        (bucket : EvaluatorType) (p q : ℕ) {rows : List (ConfigComparisonMetrics F)}
        → checked_rows fl aggregate db req pids bucket ≡ ok rows
        → contains pids p ≡ true
        → contains pids q ≡ true
        → Agree p q
    unfolding checked_rows rows_in
    checked-Agree bucket p q h hp hq =
        let scope = scope_of req pids in
        let all_rows = build_metrics_list fl aggregate db scope bucket pids in
        let sets = query_case_set db scope in
        elim (Result-cases
          (enforce_integrity pids all_rows sets (effective_min req) req.strict_comparison)) [
            | inr (x, e) ↦ absurd (ground arith)
            | inl (done, e) ↦
                let n = max 2 (or_two req.min_traced_runs) in
                let (agree, enough) =
                  enforce-strict pids all_rows sets n
                    (rw (effective_min-strict req strict, strict) at e) in
                let many : n ≤ length (runs_of db scope p) = omega (
                  arith,
                  enough-le n all_rows pids p enough hp,
                  traced-runs scope bucket pids p hp,
                ) in
                (
                  omega (arith, many),
                  least-AtLeast req.min_traced_runs (length (runs_of db scope p)) many,
                  λ m. same_members pids p q m agree hp hq,
                )
          ]
      where
        same_members :
            (pids : List ℕ) (p q m : ℕ)
            → ((not (leb 2 (length pids))
                  || sets_agree (map (query_case_set db (scope_of req pids)) pids))
                ≡ true)
            → contains pids p ≡ true
            → contains pids q ≡ true
            → contains (query_case_set db (scope_of req pids) p) m
              ≡ contains (query_case_set db (scope_of req pids) q) m
        same_members pids p q m agree hp hq = elim (Bool-cases (leb 2 (length pids))) [
          | inl several ↦
              agree-contains (query_case_set db (scope_of req pids)) pids p q m
                (rw several at agree) hp hq
          | inr single ↦ rw (only_one pids p q single hp hq)
        ]

    buckets-Agree :
        (choice : EvaluatorChoice) (p q : ℕ) {r : ConfigComparisonResponse F}
        → compare_buckets fl aggregate db req choice pids ≡ ok r
        → contains pids p ≡ true
        → contains pids q ≡ true
        → Agree p q
    unfolding compare_buckets
    buckets-Agree (one bucket) p q h hp hq =
        elim (Result-cases (checked_rows fl aggregate db req pids bucket)) [
          | inr (x, e) ↦ absurd (ground arith)
          | inl (rows, e) ↦ checked-Agree bucket p q e hp hq
        ]
    buckets-Agree both p q h hp hq =
        elim (Result-cases (checked_rows fl aggregate db req pids heuristic)) [
          | inr (x, e) ↦ absurd (ground arith)
          | inl (rows, e) ↦ checked-Agree heuristic p q e hp hq
        ]

  -- A strict comparison that gives a response was asked for a dataset and for at most 64
  -- configurations; any two configurations that it was asked for have runs on the same query cases
  -- of that dataset, and each has at least two runs, and at least as many as the request's minimum if
  -- it gives one.
  pub compare_strict :
      (ids : List ℕ) (p q : ℕ) {r : ConfigComparisonResponse F}
      → req.strict_comparison ≡ true
      → compare_pipeline_configs fl aggregate db req ids ≡ ok r
      → contains ids p ≡ true
      → contains ids q ≡ true
      → (is_none req.dataset_id ≡ false)
        × (length (distinct ids) ≤ 64)
        × (2 ≤ length (runs_of db (scope_of req (distinct ids)) p))
        × AtLeast req.min_traced_runs (length (runs_of db (scope_of req (distinct ids)) p))
        × ((n : ℕ)
            → contains (query_case_set db (scope_of req (distinct ids)) p) n
              ≡ contains (query_case_set db (scope_of req (distinct ids)) q) n)
  unfolding compare_pipeline_configs
  compare_strict ids p q strict h hp hq =
      let pids = distinct ids in
      let compared = compare_buckets fl aggregate db req req.evaluator_type pids in
      let dated_test = not (req.strict_comparison && is_none req.dataset_id) in
      let few_test = not (ltb max_config_ids (length pids)) in
      let after_few = require dated_test value_error >> compared in
      let (_, h1) = require-ok (not (is_nil pids)) (require few_test value_error >> after_few) h in
      let (few, h2) = require-ok few_test after_few h1 in
      let (dated, h3) = require-ok dated_test compared h2 in
      let (runs, asked, members) =
        buckets-Agree strict pids req.evaluator_type p q h3 (contains-distinct ids p ∙ hp)
          (contains-distinct ids q ∙ hq) in
      (ground arith, ground arith, runs, asked, members)
