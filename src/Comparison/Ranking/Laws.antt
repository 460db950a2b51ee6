-- ===== src/Comparison/Ranking/Laws.antt =====
-- Which configuration is the best and which the worst: `_rank_avg_dimension` of
-- backend/app/services/config_comparison.py.
use context_lens.Prelude.{
  ◌≡◌, ◌≢◌, ◌<◌, refl, sym, Bool, false, ◌&&◌, Option, none, some, List, [], ◌∷◌, ltb, leb, arith,
  Bool-cases, Option-cases, List-cases, inl, inr, ◌⊎◌,
}
use mathlib.Core.Path.{subst}
use context_lens.Prelude.Counting.{IsOrder}
use context_lens.Prelude.Floats.{Floats, IsRanking}
use context_lens.Comparison.{Averages, ConfigComparisonMetrics}
use context_lens.Comparison.Ranking.{
  Scored, score_of, eligible_of, best_by, ranks_above, ranks_below, rank_avg_dimension,
}

-- an item of a list
abbrev pub Among : {A : Type 0} → A → List A → Type 0
Among x [] = ⊥
Among x (y ∷ ys) = (y ≡ x) ⊎ Among x ys

Among-eq : {A : Type 0} {a b : A} (xs : List A) → a ≡ b → Among a xs → Among b xs
Among-eq xs e among = subst (λ x. Among x xs) e among

module _ {F : Type 0} (beats : Scored F → Scored F → Bool) (order : IsOrder beats) where
  open order use {asym, trans}

  -- a candidate that does not beat the best so far does not beat the best in the end
  best_by_stays :
      (y x : Scored F) (ts : List (Scored F))
      → beats y x ≡ false
      → beats y (best_by beats x ts) ≡ false
  unfolding best_by
  best_by_stays y x [] h = h
  best_by_stays y x (t ∷ ts) h = elim (Bool-cases (beats t x)) [
    | inl e ↦ rw e (best_by_stays y t ts (trans t x y (asym t x e) h))
    | inr e ↦ rw e (best_by_stays y x ts h)
  ]

  unbeaten_self : (x : Scored F) → beats x x ≡ false
  unbeaten_self x = elim (Bool-cases (beats x x)) [ inl e ↦ asym x x e | inr e ↦ e ]

  -- No item beats the one that is found.
  best_by_unbeaten :
      (y x : Scored F) (ts : List (Scored F))
      → Among y (x ∷ ts)
      → beats y (best_by beats x ts) ≡ false
  unfolding best_by
  best_by_unbeaten y x ts (inl e) = best_by_stays y x ts (rw e (unbeaten_self y))
  best_by_unbeaten y x [] (inr later) = absurd later
  best_by_unbeaten y x (t ∷ ts) (inr later) = elim (Bool-cases (beats t x)) [
    | inl e ↦ rw e (best_by_unbeaten y t ts later)
    | inr e ↦ rw e (elim later [
      | inl same ↦ best_by_stays y x ts (rw same at e)
      | inr further ↦ best_by_unbeaten y x ts (inr further)
    ])
  ]

module _ {F : Type 0} (fl : Floats F) (ranking : IsRanking fl) where
  open ranking use {lt_asym, lt_trans, eq_iff}

  above-IsOrder : IsOrder (ranks_above fl)
  unfolding ranks_above
  above-IsOrder = record {
    asym = λ a b h. ground (arith, eq_iff a.1 b.1, eq_iff b.1 a.1, lt_asym b.1 a.1, h);
    trans = λ a b c h k.
        let x = a.1 in
        let y = b.1 in
        let z = c.1 in
        ground (
          arith,
          eq_iff x y,
          eq_iff y x,
          eq_iff y z,
          eq_iff z y,
          eq_iff x z,
          eq_iff z x,
          lt_trans x y z,
          lt_trans y z x,
          lt_trans z x y,
          lt_trans z y x,
          lt_trans y x z,
          lt_trans x z y,
          h,
          k,
        );
  }

  below-IsOrder : IsOrder (ranks_below fl)
  unfolding ranks_below
  below-IsOrder = record {
    asym = λ a b h. ground (arith, eq_iff a.1 b.1, eq_iff b.1 a.1, lt_asym a.1 b.1, h);
    trans = λ a b c h k.
        let x = a.1 in
        let y = b.1 in
        let z = c.1 in
        ground (
          arith,
          eq_iff x y,
          eq_iff y x,
          eq_iff y z,
          eq_iff z y,
          eq_iff x z,
          eq_iff z x,
          lt_trans x y z,
          lt_trans y z x,
          lt_trans z x y,
          lt_trans z y x,
          lt_trans y x z,
          lt_trans x z y,
          h,
          k,
        );
  }

Among-skip :
    {F : Type 0} (x t : Scored F) (ts : List (Scored F)) {b : Scored F}
    → Among b (x ∷ ts)
    → Among b (x ∷ t ∷ ts)
Among-skip x t ts (inl e) = inl e
Among-skip x t ts (inr later) = inr (inr later)

best_by-Among :
    {F : Type 0} (beats : Scored F → Scored F → Bool) (x : Scored F) (ts : List (Scored F))
    → Among (best_by beats x ts) (x ∷ ts)
unfolding best_by
best_by-Among beats x [] = inl refl
best_by-Among beats x (t ∷ ts) = elim (Bool-cases (beats t x)) [
  | inl e ↦
      let step : best_by beats x (t ∷ ts) ≡ best_by beats t ts = rw e in
      Among-eq (x ∷ t ∷ ts) (sym step) (inr (best_by-Among beats t ts))
  | inr e ↦
      let step : best_by beats x (t ∷ ts) ≡ best_by beats x ts = rw e in
      Among-eq (x ∷ t ∷ ts) (sym step) (Among-skip x t ts (best_by-Among beats x ts))
]

module _ {F : Type 0} (get_val : Averages F → Option F) where
  -- A row with traced runs has this id and value.
  abbrev pub Holds : List (ConfigComparisonMetrics F) → Scored F → Type 0
  Holds metrics t =
      (m : ConfigComparisonMetrics F) × Among m metrics
      × (0 < m.traced_runs)
      × (m.pipeline_config_id ≡ t.0)
      × (score_of get_val m ≡ some t.1)

  eligible-Among :
      (metrics : List (ConfigComparisonMetrics F)) (m : ConfigComparisonMetrics F) (v : F)
      → Among m metrics
      → 0 < m.traced_runs
      → score_of get_val m ≡ some v
      → Among (m.pipeline_config_id, v) (eligible_of get_val metrics)
  unfolding eligible_of
  eligible-Among (n ∷ metrics) m v (inl e) pos h = elim (Bool-cases (leb n.traced_runs 0)) [
    | inl none_left ↦ absurd (ground arith)
    | inr some_left ↦ elim (Option-cases (score_of get_val n)) [
      | inl e' ↦ absurd (ground arith)
      | inr (w, e') ↦ rw (eligible_of, some_left, e') (inl (ground arith))
    ]
  ]
  eligible-Among (n ∷ metrics) m v (inr later) pos h =
      let further = eligible-Among metrics m v later pos h in
      elim (Bool-cases (leb n.traced_runs 0)) [
        | inl none_left ↦ rw (eligible_of, none_left) further
        | inr some_left ↦ elim (Option-cases (score_of get_val n)) [
          | inl e' ↦ rw (eligible_of, some_left, e') further
          | inr (w, e') ↦ rw (eligible_of, some_left, e') (inr further)
        ]
      ]
  eligible-Among [] m v among pos h = absurd among

  later-Holds :
      (n : ConfigComparisonMetrics F) (metrics : List (ConfigComparisonMetrics F)) (t : Scored F)
      → Holds metrics t
      → Holds (n ∷ metrics) t
  later-Holds n metrics t (m, among, pos, id, score) = (m, inr among, pos, id, score)

  eligible-Holds :
      (metrics : List (ConfigComparisonMetrics F)) (t : Scored F)
      → Among t (eligible_of get_val metrics)
      → Holds metrics t
  unfolding eligible_of
  eligible-Holds [] t among = absurd among
  eligible-Holds (n ∷ metrics) t among = elim (Bool-cases (leb n.traced_runs 0)) [
    | inl none_left ↦
        later-Holds n metrics t (eligible-Holds metrics t (rw (eligible_of, none_left) at among))
    | inr some_left ↦ elim (Option-cases (score_of get_val n)) [
      | inl e' ↦
          later-Holds n metrics t
            (eligible-Holds metrics t (rw (eligible_of, some_left, e') at among))
      | inr (w, e') ↦
          let split : Among t ((n.pipeline_config_id, w) ∷ eligible_of get_val metrics) =
            rw (eligible_of, some_left, e') at among in
          elim split [
            | inl same ↦ (n, inl refl, ground arith, ground arith, ground arith)
            | inr later ↦ later-Holds n metrics t (eligible-Holds metrics t later)
          ]
    ]
  ]

module _ {F : Type 0} (fl : Floats F) (ranking : IsRanking fl)
    (get_val : Averages F → Option F) where
  -- `best` and `worst` are ids and values of rows with traced runs; no value is above that of `best`
  -- or below that of `worst`.
  pub record IsRanked (metrics : List (ConfigComparisonMetrics F)) (best worst : Scored F)
      : Type 0 where
    pub best_holds : Holds get_val metrics best
    pub worst_holds : Holds get_val metrics worst
    pub unbeaten :
        (m : ConfigComparisonMetrics F) (v : F)
        → Among m metrics
        → 0 < m.traced_runs
        → score_of get_val m ≡ some v
        → (ranks_above fl (m.pipeline_config_id, v) best ≡ false)
          × (ranks_below fl (m.pipeline_config_id, v) worst ≡ false)

  rank-IsRanked :
      (metrics : List (ConfigComparisonMetrics F)) {best worst : Scored F}
      → rank_avg_dimension fl metrics get_val ≡ some (best, worst)
      → IsRanked metrics best worst
  unfolding rank_avg_dimension
  rank-IsRanked metrics {best} {worst} h = elim (List-cases (eligible_of get_val metrics)) [
    | inl e ↦ absurd (ground arith)
    | inr (t, ts, e) ↦
        let b : best_by (ranks_above fl) t ts ≡ best = ground arith in
        let w : best_by (ranks_below fl) t ts ≡ worst = ground arith in
        record {
          best_holds =
              eligible-Holds get_val metrics best
                (rw e (Among-eq (t ∷ ts) b (best_by-Among (ranks_above fl) t ts)));
          worst_holds =
              eligible-Holds get_val metrics worst
                (rw e (Among-eq (t ∷ ts) w (best_by-Among (ranks_below fl) t ts)));
          unbeaten = λ m v among pos score.
              let y : Scored F = (m.pipeline_config_id, v) in
              let here : Among y (t ∷ ts) =
                rw e at (eligible-Among get_val metrics m v among pos score) in
              (
                rw (← b) (best_by_unbeaten (ranks_above fl) (above-IsOrder fl ranking) y t ts here),
                rw (← w) (best_by_unbeaten (ranks_below fl) (below-IsOrder fl ranking) y t ts here),
              );
        }
  ]

  rank_some :
      (metrics : List (ConfigComparisonMetrics F)) (m : ConfigComparisonMetrics F) (v : F)
      → Among m metrics
      → 0 < m.traced_runs
      → score_of get_val m ≡ some v
      → rank_avg_dimension fl metrics get_val ≢ none
  unfolding rank_avg_dimension
  rank_some metrics m v among pos score h = elim (List-cases (eligible_of get_val metrics)) [
    | inl e ↦ rw e at (eligible-Among get_val metrics m v among pos score)
    | inr (t, ts, e) ↦ absurd (ground arith)
  ]

  -- As soon as a configuration has traced runs and a value, there are a best and a worst one. Both
  -- are configurations with traced runs; no value is above that of the best or below that of the
  -- worst, and no configuration with the same value as either has a lower id.
  pub rank_extremes :
      (metrics : List (ConfigComparisonMetrics F)) (m : ConfigComparisonMetrics F) (v : F)
      → Among m metrics
      → 0 < m.traced_runs
      → score_of get_val m ≡ some v
      → (best : Scored F) × (worst : Scored F) × (rank_avg_dimension fl metrics get_val
          ≡ some (best, worst))
        × Holds get_val metrics best
        × Holds get_val metrics worst
        × (fl.lt best.1 v ≡ false)
        × (fl.lt v worst.1 ≡ false)
        × ((fl.eq v best.1 && ltb m.pipeline_config_id best.0) ≡ false)
        × ((fl.eq v worst.1 && ltb m.pipeline_config_id worst.0) ≡ false)
  unfolding ranks_above ranks_below
  rank_extremes metrics m v among pos score =
      elim (Option-cases (rank_avg_dimension fl metrics get_val)) [
        | inl e ↦ absurd (rank_some metrics m v among pos score e)
        | inr ((best, worst), e) ↦
            let ranked = rank-IsRanked metrics e in
            let (above, below) = ranked.unbeaten m v among pos score in
            (
              best,
              worst,
              e,
              ranked.best_holds,
              ranked.worst_holds,
              ground (arith, ranking.eq_iff v best.1),
              ground (arith, ranking.eq_iff v worst.1),
              ground arith,
              ground arith,
            )
      ]
