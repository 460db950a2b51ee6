-- ===== src/Domain/FailureTaxonomy.antt =====
-- Failure labels: backend/app/domain/failure_taxonomy.py.
-- `str.upper` is written out on ASCII; for the other code points it is a parameter.
pub mod Laws
use context_lens.Prelude.{
  ℕ, ◌-◌, ◌≡◌, refl, Bool, true, false, ◌&&◌, Option, none, some, List, [], ◌∷◌, ◌++◌, map, leb,
  ltb, ◌==◌, if◌then◌else◌,
}
use context_lens.Prelude.Text.{Str, codes, strip, text_eq}

pub data FailureType : Type 0 where
  no_failure retrieval_miss retrieval_partial chunk_fragmentation context_insufficient : FailureType
  context_truncation answer_unsupported answer_incomplete mixed_failure unknown : FailureType

-- `m.value`
unfoldable pub value : FailureType → Str
value no_failure = codes "NO_FAILURE"
value retrieval_miss = codes "RETRIEVAL_MISS"
value retrieval_partial = codes "RETRIEVAL_PARTIAL"
value chunk_fragmentation = codes "CHUNK_FRAGMENTATION"
value context_insufficient = codes "CONTEXT_INSUFFICIENT"
value context_truncation = codes "CONTEXT_TRUNCATION"
value answer_unsupported = codes "ANSWER_UNSUPPORTED"
value answer_incomplete = codes "ANSWER_INCOMPLETE"
value mixed_failure = codes "MIXED_FAILURE"
value unknown = codes "UNKNOWN"

abbrev pub members : List FailureType
members =
    no_failure ∷ retrieval_miss ∷ retrieval_partial ∷ chunk_fragmentation ∷ context_insufficient
    ∷ context_truncation ∷ answer_unsupported ∷ answer_incomplete ∷ mixed_failure ∷ unknown ∷ []

find_member : Str → List FailureType → Option FailureType
find_member s [] = none
find_member s (m ∷ ms) =
    let later = find_member s ms in if text_eq s (value m) then some m else later

-- `s in ALLOWED_VALUES`, with the member whose value `s` is
allowed : Str → Option FailureType
unfolding find_member value
allowed s = find_member s members

aliases : Str → Option FailureType
aliases sup =
    if text_eq sup (codes "NONE")
    then some no_failure
    else if text_eq sup (codes "OK")
    then some no_failure
    else if text_eq sup (codes "NO_FAILURES")
    then some no_failure
    else none

-- `.replace(" ", "_")` of one character
underscore : ℕ → ℕ
underscore c = if c == b' ' then b'_' else c

module _ (upper_beyond_ascii : ℕ → Str) where
  upper_char : ℕ → Str
  upper_char c =
      if ltb c 128
      then (if leb b'a' c && leb c b'z' then c - 32 else c) ∷ []
      else upper_beyond_ascii c

  -- `s.upper()`
  pub upper : Str → Str
  unfolding upper_char
  upper [] = []
  upper (c ∷ s) = upper_char c ++ upper s

  -- `s.upper().replace(" ", "_")`
  unfoldable pub screaming : Str → Str
  unfolding upper underscore
  screaming s = map underscore (upper s)

  normalize_stripped : Str → FailureType
  normalize_stripped s = elim (allowed s) [
    | some m ↦ m
    | none ↦ elim (allowed (screaming s)) [
      | some m ↦ m
      | none ↦ elim (aliases (screaming s)) [ some m ↦ m | none ↦ unknown ]
    ]
  ]

  pub normalize_failure_type : Option Str → Option FailureType
  normalize_failure_type none = none
  normalize_failure_type (some raw) = elim (strip raw) [
    | [] ↦ none
    | c ∷ s ↦ some (normalize_stripped (c ∷ s))
  ]

  pub failure_type_for_storage : Option Str → FailureType
  failure_type_for_storage raw = elim (normalize_failure_type raw) [ none ↦ unknown | some ft ↦ ft ]
