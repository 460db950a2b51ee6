-- ===== src/Judge/Payload/Scores.antt =====
-- The range of the judge's scores, and when `parse_judge_payload` of
-- backend/app/services/llm_judge_parse.py raises.
use context_lens.Prelude.{
  ℕ, ◌≡◌, ◌≢◌, refl, ap, true, false, Option, none, some, List, [], ◌∷◌, if◌then◌else◌, arith, Exn,
  ok, err, other, All, Bool-cases, Option-cases, Result-cases, inl, inr, ◌⊎◌,
}
use context_lens.Prelude.Floats.{Floats, fmax}
use context_lens.Prelude.Text.{Str}
use context_lens.Judge.{
  ScoreKey, faithfulness, completeness, groundedness, retrieval_relevance, context_coverage, Json,
  null, boolean, number, huge_int, text, compound, Fields, ParseWarning, JsonLibrary,
}
use context_lens.Judge.Payload.{
  KeyReading, JudgeParseResult, field_at, key_text, score_keys, coerce_raw_number, clamp01,
  clamp01_val, missing_key, not_nan, read_key, read_keys, parse_judge_payload,
}

-- What the comparison of numbers is to do.
pub record IsCompared {F : Type 0} (fl : Floats F) : Type 0 where
  pub lt_asym : (a b : F) → fl.lt a b ≡ true → fl.lt b a ≡ false
  pub lt_irrefl : (a : F) → fl.lt a a ≡ false
  pub zero_lt_one : fl.lt (fl.lit 0 1) (fl.lit 10 1) ≡ true

module _ {F : Type 0} (fl : Floats F) where
  -- no score, or one from 0 to 1
  abbrev pub IsUnitScore : Option F → Type 0
  IsUnitScore none = Unit
  IsUnitScore (some x) = (fl.lt x (fl.lit 0 1) ≡ false) × (fl.lt (fl.lit 10 1) x ≡ false)

  module _ (compared : IsCompared fl) where
    open compared use {lt_asym, lt_irrefl, zero_lt_one}

    clamp01-IsUnitScore : (x : F) → IsUnitScore (some (clamp01 fl x))
    unfolding clamp01
    clamp01-IsUnitScore x =
        let zero = fl.lit 0 1 in
        let one = fl.lit 10 1 in
        elim (Bool-cases (fl.lt x one)) [
          | inl a ↦ rw a (within x (lt_asym x one a))
          | inr a ↦ rw a (within one (lt_irrefl one))
        ]
      where
        within :
            (y : F) → fl.lt (fl.lit 10 1) y ≡ false → IsUnitScore (some (fmax fl (fl.lit 0 1) y))
        within y h = elim (Bool-cases (fl.lt (fl.lit 0 1) y)) [
          | inl b ↦ rw b (lt_asym (fl.lit 0 1) y b, h)
          | inr b ↦ rw b (lt_irrefl (fl.lit 0 1), lt_asym (fl.lit 0 1) (fl.lit 10 1) zero_lt_one)
        ]

    module _ (json : JsonLibrary F) where
      clamped-IsUnitScore :
          (v : Json F) {score : Option F} → clamp01_val fl json v ≡ ok score → IsUnitScore score
      unfolding clamp01_val
      clamped-IsUnitScore v {score} h = elim (Result-cases (coerce_raw_number fl json v)) [
        | inl (none, e) ↦ let found : score ≡ none = ground arith in rw found tt
        | inl (some x, e) ↦
            let found : score ≡ some (clamp01 fl x) = ground arith in
            rw found (clamp01-IsUnitScore x)
        | inr (x, e) ↦ absurd (ground arith)
      ]

      read_key-IsUnitScore :
          (fields : Fields F) (k : ScoreKey) {r : KeyReading F}
          → read_key fl json fields k ≡ ok r
          → IsUnitScore r.score
      unfolding read_key missing_key
      read_key-IsUnitScore fields k {r} h = elim (Option-cases (field_at fields (key_text k))) [
        | inl e ↦ let found : r.score ≡ none = ground arith in rw found tt
        | inr (v, e) ↦ elim (Result-cases (coerce_raw_number fl json v)) [
          | inr (x, e') ↦ absurd (ground arith)
          | inl (raw_num, e') ↦ elim (Result-cases (clamp01_val fl json v)) [
            | inr (x, e'') ↦ absurd (ground arith)
            | inl (clamped, e'') ↦
                let found : r.score ≡ clamped = ground arith in rw found (clamped-IsUnitScore v e'')
          ]
        ]
      ]

      -- every score that is read
      pub read_keys-IsUnitScore :
          (fields : Fields F) (ks : List ScoreKey) {rs : List (KeyReading F)}
          → read_keys fl json fields ks ≡ ok rs
          → All (λ (r : KeyReading F). IsUnitScore r.score) rs
      unfolding read_keys
      read_keys-IsUnitScore fields [] {rs} h = let found : rs ≡ [] = ground arith in rw found tt
      read_keys-IsUnitScore fields (k ∷ ks) {rs} h =
          elim (Result-cases (read_key fl json fields k)) [
            | inr (x, e) ↦ absurd (ground arith)
            | inl (r, e) ↦ elim (Result-cases (read_keys fl json fields ks)) [
              | inr (x, e') ↦ absurd (ground arith)
              | inl (rest, e') ↦
                  let found : rs ≡ r ∷ rest = ground arith in
                  rw found (read_key-IsUnitScore fields k e, read_keys-IsUnitScore fields ks e')
            ]
          ]

  module _ (json : JsonLibrary F) where
    coerce_total :
        (v : Json F) → v ≢ huge_int → (x : Option F) × (coerce_raw_number fl json v ≡ ok x)
    unfolding coerce_raw_number
    coerce_total null h = (none, refl)
    coerce_total (boolean b) h = (not_nan fl json (if b then fl.of_nat 1 else fl.of_nat 0), refl)
    coerce_total (number x) h = (not_nan fl json x, refl)
    coerce_total huge_int h = absurd (h refl)
    coerce_total (text s) h = elim (Option-cases (json.float_of_text s)) [
      | inl e ↦ (none, ground arith)
      | inr (x, e) ↦ (not_nan fl json x, rw (coerce_raw_number, e))
    ]
    coerce_total (compound s) h = (none, refl)

    -- No score of the object is an integer that a float cannot hold.
    abbrev pub IsReadable : Fields F → Type 0
    IsReadable fields = (k : ScoreKey) → field_at fields (key_text k) ≢ some huge_int

    read_key_total :
        (fields : Fields F) (k : ScoreKey)
        → IsReadable fields
        → (r : KeyReading F) × (read_key fl json fields k ≡ ok r)
    unfolding read_key clamp01_val
    read_key_total fields k readable = elim (Option-cases (field_at fields (key_text k))) [
      | inl e ↦ (missing_key fl json k, ground arith)
      | inr (v, e) ↦
          let (x, e') = coerce_total v (λ huge. readable k (cc)) in
          elim (Result-cases (read_key fl json fields k)) [
            | inl (r, q) ↦ (r, q)
            | inr (x, q) ↦ absurd (ground arith)
          ]
    ]

    pub read_keys_total :
        (fields : Fields F) (ks : List ScoreKey)
        → IsReadable fields
        → (rs : List (KeyReading F)) × (read_keys fl json fields ks ≡ ok rs)
    unfolding read_keys
    read_keys_total fields [] readable = ([], refl)
    read_keys_total fields (k ∷ ks) readable =
        let (r, e) = read_key_total fields k readable in
        let (rs, e') = read_keys_total fields ks readable in (r ∷ rs, rw (e, e'))

    coerce_err : (v : Json F) {x : Exn} → coerce_raw_number fl json v ≡ err x → x ≡ other
    unfolding coerce_raw_number
    coerce_err null h = cc
    coerce_err (boolean b) h = cc
    coerce_err (number x) h = cc
    coerce_err huge_int h = cc
    coerce_err (text s) h = elim (Option-cases (json.float_of_text s)) [
      | inl e ↦ absurd (ground arith)
      | inr (y, e) ↦ absurd (ground arith)
    ]
    coerce_err (compound s) h = cc

    read_key_err :
        (fields : Fields F) (k : ScoreKey) {x : Exn} → read_key fl json fields k ≡ err x → x ≡ other
    unfolding read_key clamp01_val
    read_key_err fields k {x} h = elim (Option-cases (field_at fields (key_text k))) [
      | inl e ↦ absurd (ground arith)
      | inr (v, e) ↦ elim (Result-cases (coerce_raw_number fl json v)) [
        | inl (raw_num, e') ↦ absurd (ground arith)
        | inr (y, e') ↦ ground (arith, coerce_err v e')
      ]
    ]

    read_key_huge :
        (fields : Fields F) (k : ScoreKey)
        → field_at fields (key_text k) ≡ some huge_int
        → read_key fl json fields k ≡ err other
    unfolding read_key coerce_raw_number
    read_key_huge fields k huge = rw (read_key, huge)

    abbrev Has : ScoreKey → List ScoreKey → Type 0
    Has k [] = ⊥
    Has k (key ∷ keys) = (key ≡ k) ⊎ Has k keys

    read_keys_huge :
        (fields : Fields F) (k : ScoreKey) (ks : List ScoreKey)
        → field_at fields (key_text k) ≡ some huge_int
        → Has k ks
        → read_keys fl json fields ks ≡ err other
    unfolding read_keys
    read_keys_huge fields k [] huge has = absurd has
    read_keys_huge fields k (key ∷ ks) huge (inl e) = rw (read_key_huge fields key (rw e huge))
    read_keys_huge fields k (key ∷ ks) huge (inr has) =
        elim (Result-cases (read_key fl json fields key)) [
          | inr (x, e) ↦ rw e (ap err (read_key_err fields key e))
          | inl (r, e) ↦ rw (e, read_keys_huge fields k ks huge has)
        ]

    score_keys-Has : (k : ScoreKey) → Has k score_keys
    score_keys-Has faithfulness = inl refl
    score_keys-Has completeness = inr (inl refl)
    score_keys-Has groundedness = inr (inr (inl refl))
    score_keys-Has retrieval_relevance = inr (inr (inr (inl refl)))
    score_keys-Has context_coverage = inr (inr (inr (inr (inl refl))))

    -- With an integer among the scores that a float cannot hold, the reading of the scores raises.
    pub read_keys_raises :
        (fields : Fields F) (k : ScoreKey)
        → field_at fields (key_text k) ≡ some huge_int
        → read_keys fl json fields score_keys ≡ err other
    read_keys_raises fields k huge = read_keys_huge fields k score_keys huge (score_keys-Has k)

    module _ (upper_beyond_ascii : ℕ → Str) (fields : Fields F) (warnings : List ParseWarning) where
      pub parsed_readings :
          {pr : JudgeParseResult F}
          → parse_judge_payload fl json upper_beyond_ascii fields warnings ≡ ok pr
          → read_keys fl json fields score_keys ≡ ok pr.readings
      unfolding parse_judge_payload
      parsed_readings h = elim (Result-cases (read_keys fl json fields score_keys)) [
        | inr (x, e) ↦ absurd (ground arith)
        | inl (rs, e) ↦ ground arith
      ]

      pub parse_total :
          IsReadable fields
          → (pr : JudgeParseResult F) × (parse_judge_payload fl json upper_beyond_ascii fields
                warnings
              ≡ ok pr)
      unfolding parse_judge_payload
      parse_total readable =
          let (rs, e) = read_keys_total fields score_keys readable in
          elim (Result-cases (parse_judge_payload fl json upper_beyond_ascii fields warnings)) [
            | inl (pr, q) ↦ (pr, q)
            | inr (x, q) ↦ absurd (ground arith)
          ]

      pub parse_raises :
          (k : ScoreKey)
          → field_at fields (key_text k) ≡ some huge_int
          → parse_judge_payload fl json upper_beyond_ascii fields warnings ≡ err other
      unfolding parse_judge_payload
      parse_raises k huge = rw (parse_judge_payload, read_keys_raises fields k huge)
