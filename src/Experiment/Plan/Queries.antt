-- ===== src/Experiment/Plan/Queries.antt =====
-- Where two candidates of one query go, in `build_experiment_plan` of
-- backend/app/services/diagnosis_experiment_design.py.
use context_lens.Prelude.{
  ℕ, zero, suc, ◌-◌, ◌<◌, ◌≡◌, ◌≢◌, refl, ap, ◌∙◌, false, some, List, [], ◌∷◌, ◌++◌, arith, le→leb,
  lt→ltb, inl, inr,
}
use context_lens.Prelude.Counting.{contains}
use context_lens.Experiment.Scoring.{ScoredCandidate, sc_run_id}
use context_lens.Experiment.Plan.{
  manual, assisted, Picks, no_picks, choose, assign, pick_one, is_full, pick_all,
}
use context_lens.Experiment.Plan.Pairing.{pick_one_cases, pick_all-cases}

module _ {F : Type 0} where
  -- the first candidates of the two groups
  abbrev pub Begin : ScoredCandidate F → ScoredCandidate F → Picks F → Type 0
  Begin x y p =
      (ms : List (ScoredCandidate F)) × (others : List (ScoredCandidate F)) × (p.manual_picked
        ≡ x ∷ ms)
      × (p.assisted_picked ≡ y ∷ others)

  -- A pick is put behind those that are there.
  pick_one-keeps :
      (target : ℕ) (sc x y : ScoredCandidate F) (p : Picks F)
      → is_full target p ≡ false
      → Begin x y p
      → Begin x y (pick_one target sc p)
  pick_one-keeps target sc x y p room (ms, others, m, a) = elim (pick_one_cases target sc p room) [
    | inl (e, _) ↦ rw e (unfold assign in (ms ++ sc ∷ [], others, rw m, a))
    | inr (e, _) ↦ rw e (unfold assign in (ms, others ++ sc ∷ [], m, rw a))
  ]

  pick_all-keeps :
      (target : ℕ) (x y : ScoredCandidate F) (pool : List (ScoredCandidate F)) (p : Picks F)
      → Begin x y p
      → Begin x y (pick_all target pool p)
  unfolding pick_all
  pick_all-keeps target x y [] p begun = begun
  pick_all-keeps target x y (sc ∷ pool) p begun = elim (pick_all-cases target sc pool p) [
    | inl (_, e) ↦ rw e (pick_all-keeps target x y pool p begun)
    | inr (inl (_, e)) ↦ rw e begun
    | inr (inr (_, room, e)) ↦ rw e (
        pick_all-keeps target x y pool (pick_one target sc p)
          (pick_one-keeps target sc x y p room begun))
  ]

  pick_all-room :
      (target : ℕ) (sc : ScoredCandidate F) (pool : List (ScoredCandidate F)) (p : Picks F)
      → contains p.assigned_run_ids (sc_run_id sc) ≡ false
      → is_full target p ≡ false
      → pick_all target (sc ∷ pool) p ≡ pick_all target pool (pick_one target sc p)
  unfolding pick_all
  pick_all-room target sc pool p fresh room = rw (pick_all, fresh, room)

  first_pick :
      (n : ℕ) (x : ScoredCandidate F)
      → pick_one (suc n) x no_picks ≡ assign x (some manual) no_picks
  unfolding pick_one choose
  first_pick n x =
      rw (le→leb (suc n - 0) (suc n - 0) (omega arith), lt→ltb 0 (suc n - 0) (omega arith))

  second_pick :
      (n : ℕ) (x y : ScoredCandidate F)
      → y.candidate.query_case_id ≡ x.candidate.query_case_id
      → pick_one (suc n) y (assign x (some manual) no_picks)
        ≡ assign y (some assisted) (assign x (some manual) no_picks)
  unfolding pick_one choose assign
  second_pick n x y same = ground arith

  -- If the two best candidates of a bucket are runs of one query, and the bucket has a target, then
  -- the query gets into both groups: the first run is the first pick of the manual group, the second
  -- run the first pick of the assisted one.
  pub pick_all_split :
      (target : ℕ) (x y : ScoredCandidate F) (pool : List (ScoredCandidate F))
      → 0 < target
      → sc_run_id x ≢ sc_run_id y
      → y.candidate.query_case_id ≡ x.candidate.query_case_id
      → Begin x y (pick_all target (x ∷ y ∷ pool) no_picks)
  pick_all_split zero x y pool pos differ same = absurd (omega arith)
  pick_all_split (suc n) x y pool pos differ same =
      let one = assign x (some manual) no_picks in
      let two = assign y (some assisted) one in
      let e : pick_all (suc n) (x ∷ y ∷ pool) no_picks ≡ pick_all (suc n) pool two =
        pick_all-room (suc n) x (y ∷ pool) no_picks refl (ground arith)
        ∙ (rw (first_pick n x) (
            pick_all-room (suc n) y pool one (unfold assign in ground arith)
              (unfold assign in ground arith)))
        ∙ ap (pick_all (suc n) pool) (second_pick n x y same) in
      rw e (pick_all-keeps (suc n) x y pool two (unfold assign in ([], [], refl, refl)))
