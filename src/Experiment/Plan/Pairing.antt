-- ===== src/Experiment/Plan/Pairing.antt =====
-- What the greedy pairing within a bucket keeps: `build_experiment_plan` of
-- backend/app/services/diagnosis_experiment_design.py.
use context_lens.Prelude.{
  ℕ, zero, suc, ◌+◌, ◌-◌, ◌*◌, ◌≤◌, ◌<◌, ◌≡◌, refl, min, Bool, true, false, some, List, [], ◌∷◌,
  arith, if◌then◌else◌, ◌==◌, leb, length, length-append, Bool-cases, inl, inr, ◌⊎◌,
}
use context_lens.Prelude.Counting.{contains, count_if, count_if-append}
use context_lens.Experiment.Scoring.{ScoredCandidate, sc_run_id}
use context_lens.Experiment.Plan.{
  Mode, manual, assisted, Picks, no_picks, choose, assign, pick_one, is_full, pick_all,
}

-- how often a run is in a list
abbrev pub times : {F : Type 0} → ℕ → List (ScoredCandidate F) → ℕ
times r xs = count_if (λ sc. sc_run_id sc == r) xs

-- how often a run has been picked
abbrev pub picked : {F : Type 0} → ℕ → Picks F → ℕ
picked r p = times r p.manual_picked + times r p.assisted_picked

abbrev pub picked_total : {F : Type 0} → Picks F → ℕ
picked_total p = length p.manual_picked + length p.assisted_picked

-- No group is beyond its target, and the runs that were picked, each once, are those marked.
pub record IsPaired {F : Type 0} (target : ℕ) (p : Picks F) : Type 0 where
  pub manual_le : length p.manual_picked ≤ target
  pub assisted_le : length p.assisted_picked ≤ target
  pub marked : (r : ℕ) → picked r p ≡ (if contains p.assigned_run_ids r then 1 else 0)

-- A group that is chosen has room.
choose_cases :
    (m a : ℕ) (in_manual in_assisted : Bool)
    → 0 < m + a
    → ((choose m a in_manual in_assisted ≡ some manual) × (0 < m))
      ⊎ ((choose m a in_manual in_assisted ≡ some assisted) × (0 < a))
unfolding choose
choose_cases m zero true x h = inl (ground arith, ground arith)
choose_cases m zero false x h = inl (ground arith, ground arith)
choose_cases zero (suc a) x true h = inr (ground arith, ground arith)
choose_cases zero (suc a) x false h = inr (ground arith, ground arith)
choose_cases (suc m) (suc a) true true h = inl (ground arith, ground arith)
choose_cases (suc m) (suc a) true false h = inr (ground arith, ground arith)
choose_cases (suc m) (suc a) false true h = inl (ground arith, ground arith)
choose_cases (suc m) (suc a) false false h = elim (Bool-cases (leb (suc a) (suc m))) [
  | inl e ↦ inl (ground arith, ground arith)
  | inr e ↦ inr (ground arith, ground arith)
]

module _ {F : Type 0} where
  -- What a pick does when a group has room: one of the two lists grows by the candidate.
  pub pick_one_cases :
      (target : ℕ) (sc : ScoredCandidate F) (p : Picks F)
      → is_full target p ≡ false
      → ((pick_one target sc p ≡ assign sc (some manual) p) × (length p.manual_picked < target))
        ⊎ ((pick_one target sc p ≡ assign sc (some assisted) p)
            × (length p.assisted_picked < target))
  unfolding pick_one
  pick_one_cases target sc p room =
      elim (choose_cases (target - length p.manual_picked) (target - length p.assisted_picked)
        (contains p.used_query_ids_manual sc.candidate.query_case_id)
        (contains p.used_query_ids_assisted sc.candidate.query_case_id) (ground arith)) [
          | inl (e, h) ↦ inl (rw e, omega arith)
          | inr (e, h) ↦ inr (rw e, omega arith)
        ]

  assign-picked :
      (sc : ScoredCandidate F) (mode : Mode) (p : Picks F) (r : ℕ)
      → picked r (assign sc (some mode) p) ≡ picked r p + (if sc_run_id sc == r then 1 else 0)
  unfolding assign
  assign-picked sc manual p r = omega (
    arith,
    count_if-append (λ (x : ScoredCandidate F). sc_run_id x == r) p.manual_picked (sc ∷ []),
  )
  assign-picked sc assisted p r = omega (
    arith,
    count_if-append (λ (x : ScoredCandidate F). sc_run_id x == r) p.assisted_picked (sc ∷ []),
  )

  assign-total :
      (sc : ScoredCandidate F) (mode : Mode) (p : Picks F)
      → picked_total (assign sc (some mode) p) ≡ picked_total p + 1
  unfolding assign
  assign-total sc manual p = omega (arith, length-append p.manual_picked (sc ∷ []))
  assign-total sc assisted p = omega (arith, length-append p.assisted_picked (sc ∷ []))

  assign-marks :
      (sc : ScoredCandidate F) (mode : Mode) (p : Picks F) (r : ℕ)
      → contains (assign sc (some mode) p).assigned_run_ids r
        ≡ (if sc_run_id sc == r then true else contains p.assigned_run_ids r)
  unfolding assign
  assign-marks sc manual p r = refl
  assign-marks sc assisted p r = refl

  -- a step of the pairing: a candidate that is not marked, when a group has room
  module _ (target : ℕ) (sc : ScoredCandidate F) (p : Picks F)
      (fresh : contains p.assigned_run_ids (sc_run_id sc) ≡ false)
      (room : is_full target p ≡ false) where
    -- the step is an assignment
    pick_one_mode : (mode : Mode) × (pick_one target sc p ≡ assign sc (some mode) p)
    pick_one_mode = elim (pick_one_cases target sc p room) [
      | inl (e, _) ↦ (manual, e)
      | inr (e, _) ↦ (assisted, e)
    ]

    pick_one-picked :
        (r : ℕ)
        → picked r (pick_one target sc p) ≡ picked r p + (if sc_run_id sc == r then 1 else 0)
    pick_one-picked r = let (mode, e) = pick_one_mode in rw e (assign-picked sc mode p r)

    pick_one-total : picked_total (pick_one target sc p) ≡ picked_total p + 1
    pick_one-total = let (mode, e) = pick_one_mode in rw e (assign-total sc mode p)

    pick_one-marked :
        ((r : ℕ) → picked r p ≡ (if contains p.assigned_run_ids r then 1 else 0))
        → (r : ℕ)
        → picked r (pick_one target sc p)
          ≡ (if contains (pick_one target sc p).assigned_run_ids r then 1 else 0)
    pick_one-marked old r =
        let (mode, e) = pick_one_mode in
        rw e (ground (arith, assign-picked sc mode p r, assign-marks sc mode p r, old r, fresh))

    pick_one-IsPaired : IsPaired target p → IsPaired target (pick_one target sc p)
    pick_one-IsPaired paired = elim (pick_one_cases target sc p room) [
      | inl (e, h) ↦ record {
        manual_le = rw e (
            unfold assign in
            omega (arith, length-append p.manual_picked (sc ∷ []), h, paired.manual_le));
        assisted_le = rw e (unfold assign in paired.assisted_le);
        marked = pick_one-marked paired.marked;
      }
      | inr (e, h) ↦ record {
        manual_le = rw e (unfold assign in paired.manual_le);
        assisted_le =
            rw e (unfold assign in omega (arith, length-append p.assisted_picked (sc ∷ []), h));
        marked = pick_one-marked paired.marked;
      }
    ]

  -- the three ways through the loop's body
  pub pick_all-cases :
      (target : ℕ) (sc : ScoredCandidate F) (pool : List (ScoredCandidate F)) (p : Picks F)
      → ((contains p.assigned_run_ids (sc_run_id sc) ≡ true)
          × (pick_all target (sc ∷ pool) p ≡ pick_all target pool p))
        ⊎ (((is_full target p ≡ true) × (pick_all target (sc ∷ pool) p ≡ p))
            ⊎ ((contains p.assigned_run_ids (sc_run_id sc) ≡ false)
                × (is_full target p ≡ false)
                × (pick_all target (sc ∷ pool) p ≡ pick_all target pool (pick_one target sc p))))
  unfolding pick_all
  pick_all-cases target sc pool p = elim (Bool-cases (contains p.assigned_run_ids (sc_run_id sc))) [
    | inl marked ↦ inl (marked, rw (pick_all, marked))
    | inr fresh ↦ elim (Bool-cases (is_full target p)) [
      | inl full ↦ inr (inl (full, rw (pick_all, fresh, full)))
      | inr room ↦ inr (inr (fresh, room, rw (pick_all, fresh, room)))
    ]
  ]

  pub pick_all-IsPaired :
      (target : ℕ) (pool : List (ScoredCandidate F)) (p : Picks F)
      → IsPaired target p
      → IsPaired target (pick_all target pool p)
  unfolding pick_all
  pick_all-IsPaired target [] p paired = paired
  pick_all-IsPaired target (sc ∷ pool) p paired = elim (pick_all-cases target sc pool p) [
    | inl (_, e) ↦ rw e (pick_all-IsPaired target pool p paired)
    | inr (inl (_, e)) ↦ rw e paired
    | inr (inr (fresh, room, e)) ↦ rw e (
        pick_all-IsPaired target pool (pick_one target sc p)
          (pick_one-IsPaired target sc p fresh room paired))
  ]

  -- Nothing is picked but from the pool.
  pub pick_all-picked :
      (target : ℕ) (pool : List (ScoredCandidate F)) (p : Picks F) (r : ℕ)
      → picked r (pick_all target pool p) ≤ picked r p + times r pool
  unfolding pick_all
  pick_all-picked target [] p r = omega arith
  pick_all-picked target (sc ∷ pool) p r = elim (pick_all-cases target sc pool p) [
    | inl (_, e) ↦ rw e (omega (arith, pick_all-picked target pool p r))
    | inr (inl (_, e)) ↦ rw e (omega arith)
    | inr (inr (fresh, room, e)) ↦ rw e (
        omega (
          arith,
          pick_all-picked target pool (pick_one target sc p) r,
          pick_one-picked target sc p fresh room r,
        ))
  ]

  -- With runs that differ the pairing goes on until both groups are full or the pool is empty.
  pub pick_all-total :
      (target : ℕ) (pool : List (ScoredCandidate F)) (p : Picks F)
      → IsPaired target p
      → ((r : ℕ) → picked r p + times r pool ≤ 1)
      → picked_total (pick_all target pool p) ≡ min (target * 2) (picked_total p + length pool)
  unfolding pick_all
  pick_all-total target [] p paired differ = omega (arith, paired.manual_le, paired.assisted_le)
  pick_all-total target (sc ∷ pool) p paired differ = elim (pick_all-cases target sc pool p) [
    | inl (marked, _) ↦
        absurd (ground (arith, differ (sc_run_id sc), paired.marked (sc_run_id sc), marked))
    | inr (inl (full, e)) ↦ rw e (ground (arith, paired.manual_le, paired.assisted_le, full))
    | inr (inr (fresh, room, e)) ↦ rw e (
        omega (
          arith,
          pick_all-total target pool (pick_one target sc p)
              (pick_one-IsPaired target sc p fresh room paired)
              (λ (r : ℕ). omega (arith, pick_one-picked target sc p fresh room r, differ r)),
          pick_one-total target sc p fresh room,
        ))
  ]

pub no_picks-IsPaired : {F : Type 0} (target : ℕ) → IsPaired {F = F} target no_picks
no_picks-IsPaired target = record {
  manual_le = omega arith;
  assisted_le = omega arith;
  marked = λ r. refl;
}
