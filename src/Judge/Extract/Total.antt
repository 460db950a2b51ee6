-- ===== src/Judge/Extract/Total.antt =====
-- When `extract_judge_json_object` of backend/app/services/llm_judge_parse.py gives an object.
use context_lens.Prelude.{
  ◌≡◌, ◌≢◌, ◌⊎◌, refl, Option, none, some, Result, List, [], ◌∷◌, ◌++◌, ◌==◌, arith, drop, length,
  ok, Bool-cases, Option-cases, List-cases, inl, inr,
}
use context_lens.Prelude.Text.{Str, strip, lstrip, starts_with}
use context_lens.Judge.{
  Fields, Root, object, another, ParseWarning, fenced_json_invalid, balanced_brace_json_invalid,
  JsonLibrary,
}
use context_lens.Judge.Extract.{
  fence, close_fence, skip_json, brace_of, fenced_here, fenced_object, extract_stripped, Extracted,
  extract_judge_json_object, decode_braced, whole_text, braced,
}

-- a text that a brace begins
abbrev Braced : Str → Type 0
Braced s = (r : Str) × (s ≡ b'{' ∷ r)

brace_of-Braced : (s : Str) {group : Str} → brace_of s ≡ some group → Braced group
unfolding brace_of
brace_of-Braced [] h = absurd (ground arith)
brace_of-Braced (c ∷ s) {group} h = elim (Bool-cases (c == b'{')) [
  | inr e ↦ absurd (ground arith)
  | inl e ↦ elim (Option-cases (close_fence s)) [
    | inl e' ↦ absurd (ground arith)
    | inr (r, e') ↦ (r, ground arith)
  ]
]

here-Braced : (s : Str) {group : Str} → fenced_here s ≡ some group → Braced group
unfolding fenced_here
here-Braced s h = elim (Bool-cases (starts_with fence s)) [
  | inr e ↦ absurd (ground arith)
  | inl e ↦ brace_of-Braced (lstrip (skip_json (drop (length fence) s))) (ground arith)
]

fenced-Braced : (s : Str) {group : Str} → fenced_object s ≡ some group → Braced group
unfolding fenced_object
fenced-Braced [] h = absurd (ground arith)
fenced-Braced (c ∷ s) h = elim (Option-cases (fenced_here (c ∷ s))) [
  | inl e ↦ fenced-Braced s (ground arith)
  | inr (g, e) ↦ here-Braced (c ∷ s) (ground arith)
]

-- What `json.loads` does on a text that begins with a brace: it gives an object, or raises.
abbrev pub LoadsObjects : {F : Type 0} → JsonLibrary F → Type 0
LoadsObjects json = (r : Str) → json.loads (b'{' ∷ r) ≢ ok (some another)

-- The texts that are decoded of an answer: a fenced object, the text between matching braces, and the
-- whole of it.
abbrev pub IsDecoded : Str → Str → Type 0
IsDecoded s piece = (fenced_object s ≡ some piece) ⊎ (braced s ≡ some piece) ⊎ (piece ≡ s)

module _ {F : Type 0} (json : JsonLibrary F) (P : Fields F → Type 0) where
  -- `json.loads` decodes these texts of the stripped answer, or gives up with a `JSONDecodeError`, and
  -- an object that it gives satisfies `P`.
  abbrev pub Decodes : Str → Type 0
  Decodes s =
      (piece : Str)
      → IsDecoded s piece
      → (root : Option (Root F)) × (json.loads piece ≡ ok root)
        × ((fields : Fields F) → root ≡ some (object fields) → P fields)

  -- an extraction that succeeds, with fields that satisfy `P`
  abbrev pub Extracts : Result (Extracted json) → Type 0
  Extracts r = (found : Extracted json) × (r ≡ ok found) × P found.0

  module _ (none_given : P []) (objects : LoadsObjects json) (s : Str) (decodes : Decodes s) where
    whole-Extracts : (warnings : List ParseWarning) → Extracts (whole_text json s warnings)
    unfolding whole_text
    whole-Extracts warnings = by_root (decodes s (inr (inr refl)))
      where
        by_root :
            ((root : Option (Root F)) × (json.loads s ≡ ok root)
              × ((fields : Fields F) → root ≡ some (object fields) → P fields))
            → Extracts (whole_text json s warnings)
        by_root (none, e, good) = rw (whole_text, e) (_, refl, none_given)
        by_root (some another, e, good) = rw (whole_text, e) (_, refl, none_given)
        by_root (some (object fields), e, good) = rw (whole_text, e) (_, refl, good fields refl)

    braced-Extracts : (warnings : List ParseWarning) → Extracts (decode_braced json s warnings)
    unfolding decode_braced
    braced-Extracts warnings = elim (Option-cases (braced s)) [
      | inl e ↦ rw (decode_braced, e) (whole-Extracts warnings)
      | inr (chunk, e) ↦ by_root chunk e (decodes chunk (inr (inl e)))
    ]
      where
        by_root :
            (chunk : Str)
            → braced s ≡ some chunk
            → ((root : Option (Root F)) × (json.loads chunk ≡ ok root)
                × ((fields : Fields F) → root ≡ some (object fields) → P fields))
            → Extracts (decode_braced json s warnings)
        by_root chunk e (none, e', good) =
            rw (decode_braced, e, e')
              (whole-Extracts (warnings ++ balanced_brace_json_invalid ∷ []))
        by_root chunk e (some another, e', good) = rw (decode_braced, e, e') (_, refl, none_given)
        by_root chunk e (some (object fields), e', good) =
            rw (decode_braced, e, e') (_, refl, good fields refl)

    stripped-Extracts : Extracts (extract_stripped json s)
    unfolding extract_stripped
    stripped-Extracts = elim (Option-cases (fenced_object s)) [
      | inl e ↦ rw (extract_stripped, e) (braced-Extracts [])
      | inr (group, e) ↦ by_root group e (decodes group (inl e))
    ]
      where
        by_root :
            (group : Str)
            → fenced_object s ≡ some group
            → ((root : Option (Root F)) × (json.loads group ≡ ok root)
                × ((fields : Fields F) → root ≡ some (object fields) → P fields))
            → Extracts (extract_stripped json s)
        by_root group e (none, e', good) =
            rw (extract_stripped, e, e') (braced-Extracts (fenced_json_invalid ∷ []))
        by_root group e (some another, e', good) =
            let (r, shape) = fenced-Braced s e in absurd (objects r (rw shape at e'))
        by_root group e (some (object fields), e', good) =
            rw (extract_stripped, e, e') (_, refl, good fields refl)

  -- There is an object, empty at worst, for every text whose parts can be decoded.
  pub extract_total :
      P []
      → LoadsObjects json
      → (raw : Str) → Decodes (strip raw)
      → Extracts (extract_judge_json_object json raw)
  unfolding extract_judge_json_object
  extract_total none_given objects raw decodes = elim (List-cases (strip raw)) [
    | inl e ↦ rw (extract_judge_json_object, e) (_, refl, none_given)
    | inr (c, s, e) ↦
        rw (extract_judge_json_object, e)
          (stripped-Extracts none_given objects (c ∷ s) (rw e at decodes))
  ]
