-- ===== src/Domain/FailureTaxonomy/Laws.antt =====
-- What `normalize_failure_type` and `failure_type_for_storage` accept.
use context_lens.Prelude.{
  ℕ, ◌+◌, ◌≤◌, ◌≡◌, ◌≢◌, ◌⊎◌, ◌++◌, map, refl, sym, ap, ◌∙◌, some, List, [], ◌∷◌, arith, inl, inr,
  Option-cases, List-cases, Bool-cases,
}
use mathlib.Core.List.{map-append}
use context_lens.Prelude.Text.{Str, strip, text_eq}
use context_lens.Prelude.Text.Laws.{text_eq-eq}
use context_lens.Domain.FailureTaxonomy.{
  FailureType, value, members, find_member, allowed, screaming, normalize_stripped,
  normalize_failure_type, failure_type_for_storage, no_failure, retrieval_miss, retrieval_partial,
  chunk_fragmentation, context_insufficient, context_truncation, answer_unsupported,
  answer_incomplete, mixed_failure, unknown, underscore, upper_char, upper,
}

find_member-value :
    (s : Str) (ms : List FailureType) {m : FailureType} → find_member s ms ≡ some m → s ≡ value m
unfolding find_member
find_member-value s [] e = cc
find_member-value s (n ∷ ms) e = elim (Bool-cases (text_eq s (value n))) [
  | inl t ↦ text_eq-eq s (value n) t ∙ ap value (ground arith)
  | inr f ↦ find_member-value s ms (ground arith)
]

allowed-value : (s : Str) {m : FailureType} → allowed s ≡ some m → s ≡ value m
unfolding allowed
allowed-value s e = find_member-value s members e

value-allowed : (m : FailureType) → allowed (value m) ≡ some m
unfolding allowed value text_eq
value-allowed no_failure = refl
value-allowed _ = refl

module _ (ext : ℕ → Str) where
  screaming-value : (m : FailureType) → screaming ext (value m) ≡ value m
  unfolding screaming value
  screaming-value no_failure = refl
  screaming-value _ = refl

  value-injective : (m n : FailureType) → value m ≡ value n → m ≡ n
  value-injective m n e = cc (value-allowed m, value-allowed n)

  normalize_stripped-screaming :
      (s : Str) (m : FailureType) → screaming ext s ≡ value m → normalize_stripped ext s ≡ m
  unfolding normalize_stripped
  normalize_stripped-screaming s m e = elim (Option-cases (allowed s)) [
    | inl no_member ↦ rw (no_member, e, value-allowed m, normalize_stripped)
    | inr (n, found) ↦
        rw (found, normalize_stripped)
          (value-injective n m
            (sym (screaming-value n) ∙ ap (screaming ext) (sym (allowed-value s found)) ∙ e))
  ]

-- A label that is not blank, and whose stripped text in capitals, with underscores for spaces, is the
-- value of a failure type, is normalized to that type, and is stored as that type.
pub normalize-screaming :
    (ext : ℕ → Str) (raw : Str) (m : FailureType)
    → strip raw ≢ []
    → screaming ext (strip raw) ≡ value m
    → (normalize_failure_type ext (some raw) ≡ some m)
      × (failure_type_for_storage ext (some raw) ≡ m)
unfolding normalize_failure_type failure_type_for_storage
normalize-screaming ext raw m ink e = elim (List-cases (strip raw)) [
  | inl blank ↦ absurd (ink blank)
  | inr (c, s, shape) ↦
      let known = normalize_stripped-screaming ext (c ∷ s) m (ap (screaming ext) (sym shape) ∙ e) in
      rw (shape, normalize_failure_type, failure_type_for_storage, known) (refl, refl)
]

-- `c` is read as the character `v` of a value: as a capital letter by that letter in either case, as
-- an underscore by itself or by a space.
abbrev pub ReadsAs : ℕ → ℕ → Type 0
ReadsAs c v =
    ((65 ≤ v) × (v ≤ 90) × ((c ≡ v) ⊎ (c ≡ v + 32))) ⊎ ((v ≡ b'_') × ((c ≡ b'_') ⊎ (c ≡ b' ')))

-- a spelling of a value, character by character
abbrev pub Spells : Str → Str → Type 0
Spells [] [] = Unit
Spells [] (v ∷ vs) = ⊥
Spells (c ∷ s) [] = ⊥
Spells (c ∷ s) (v ∷ vs) = ReadsAs c v × Spells s vs

module _ (ext : ℕ → Str) where
  capital : (c v : ℕ) → ReadsAs c v → map underscore (upper_char ext c) ≡ v ∷ []
  unfolding underscore upper_char
  capital c v (inl (low, high, inl e)) = ground arith
  capital c v (inl (low, high, inr e)) = ground arith
  capital c v (inr (e, inl same)) = ground arith
  capital c v (inr (e, inr space)) = ground arith

  screaming-Spells : (s vs : Str) → Spells s vs → screaming ext s ≡ vs
  unfolding screaming upper
  screaming-Spells [] [] h = refl
  screaming-Spells [] (v ∷ vs) h = absurd h
  screaming-Spells (c ∷ s) [] h = absurd h
  screaming-Spells (c ∷ s) (v ∷ vs) (one, rest) =
      map-append underscore (upper_char ext c) (upper ext s)
      ∙ ap (λ (l : Str). l ++ screaming ext s) (capital c v one)
      ∙ ap (λ (l : Str). v ∷ l) (screaming-Spells s vs rest)

Spells-ink : (s : Str) (m : FailureType) → Spells s (value m) → s ≢ []
unfolding value
Spells-ink [] no_failure h e = absurd h
Spells-ink [] retrieval_miss h e = absurd h
Spells-ink [] retrieval_partial h e = absurd h
Spells-ink [] chunk_fragmentation h e = absurd h
Spells-ink [] context_insufficient h e = absurd h
Spells-ink [] context_truncation h e = absurd h
Spells-ink [] answer_unsupported h e = absurd h
Spells-ink [] answer_incomplete h e = absurd h
Spells-ink [] mixed_failure h e = absurd h
Spells-ink [] unknown h e = absurd h
Spells-ink (c ∷ s) m h e = absurd (ground arith)

-- A label whose stripped text spells the value of a failure type, with letters in either case and
-- spaces or underscores between the words, is normalized to that type and stored as that type,
-- whatever the capitals beyond ASCII are.
pub normalize-Spells :
    (ext : ℕ → Str) (raw : Str) (m : FailureType)
    → Spells (strip raw) (value m)
    → (normalize_failure_type ext (some raw) ≡ some m)
      × (failure_type_for_storage ext (some raw) ≡ m)
normalize-Spells ext raw m spelled =
    normalize-screaming ext raw m (Spells-ink (strip raw) m spelled)
      (screaming-Spells ext (strip raw) (value m) spelled)
