-- ===== src/Judge/Extract/Braces.antt =====
-- The brace scan of `extract_judge_json_object` in backend/app/services/llm_judge_parse.py.
use context_lens.Prelude.{
  ℕ, zero, suc, ◌+◌, ◌<◌, ◌≡◌, refl, sym, ap, ◌∙◌, ◌&&◌, some, [], ◌∷◌, ◌++◌, ◌==◌, arith, take,
  drop, length, Option-cases, Bool-cases, inl, inr,
}
use context_lens.Prelude.Counting.{count_if}
use context_lens.Prelude.Text.{Str, codes, find}
use context_lens.Prelude.Text.Laws.{find-StandsAt}
use context_lens.Judge.Extract.{depth_after, balanced, braced}

abbrev pub opens : Str → ℕ
opens s = count_if (λ c. c == b'{') s

abbrev pub closes : Str → ℕ
closes s = count_if (λ c. c == b'}') s

-- The closing braces of the text match its opening ones and `depth` more, and not before its end.
record Closes (depth : ℕ) (chunk : Str) : Type 0 where
  matched : closes chunk ≡ opens chunk + depth
  first : (n : ℕ) → n < length chunk → closes (take n chunk) < opens (take n chunk) + depth

Closes-brace : (depth : ℕ) → depth_after depth b'}' ≡ 0 → 0 < depth → Closes depth (b'}' ∷ [])
Closes-brace depth h pos = record {
  matched = omega arith;
  first = λ n lt. Closes-first depth n lt pos;
}
  where
    Closes-first :
        (depth n : ℕ)
        → n < 1
        → 0 < depth
        → closes (take n (b'}' ∷ [])) < opens (take n (b'}' ∷ [])) + depth
    Closes-first depth zero lt pos = omega arith
    Closes-first depth (suc n) lt pos = absurd (omega arith)

Closes-cons :
    (depth c : ℕ) (chunk : Str)
    → 0 < depth
    → Closes (depth_after depth c) chunk
    → Closes depth (c ∷ chunk)
Closes-cons depth c chunk pos done = record {
  matched = ground (arith, done.matched);
  first = λ n lt. cons-first depth c chunk pos done n lt;
}
  where
    cons-first :
        (depth c : ℕ) (chunk : Str)
        → 0 < depth
        → Closes (depth_after depth c) chunk
        → (n : ℕ) → n < length (c ∷ chunk)
        → closes (take n (c ∷ chunk)) < opens (take n (c ∷ chunk)) + depth
    cons-first depth c chunk pos done zero lt = omega arith
    cons-first depth c chunk pos done (suc n) lt = ground (arith, done.first n (omega arith))

-- The scan gives the start of the text up to the closing brace, or there is none.
balanced-Closes :
    (text : Str) (depth : ℕ) (chunk : Str)
    → 0 < depth
    → balanced depth text ≡ some chunk
    → ((rest : Str) × (chunk ++ rest ≡ text)) × Closes depth chunk
unfolding balanced
balanced-Closes [] depth chunk pos h = absurd (ground arith)
balanced-Closes (c ∷ s) depth chunk pos h =
    elim (Bool-cases (c == b'}' && depth_after depth c == 0)) [
      | inl e ↦
          let here : chunk ≡ b'}' ∷ [] = ground arith in
          let brace : c ≡ b'}' = ground arith in
          rw (here, brace) ((s, refl), Closes-brace depth (ground arith) pos)
      | inr e ↦ elim (Option-cases (balanced (depth_after depth c) s)) [
        | inl e' ↦ absurd (ground arith)
        | inr (chunk', e') ↦
            let ((rest, whole), done) =
              balanced-Closes s (depth_after depth c) chunk' (ground arith) e' in
            let here : chunk ≡ c ∷ chunk' = ground arith in
            rw here ((rest, ap (λ (r : Str). c ∷ r) whole), Closes-cons depth c chunk' pos done)
      ]
    ]

-- A balanced text: as many closing braces as opening ones, and fewer after any part of it but the
-- whole.
pub record IsBalanced (chunk : Str) : Type 0 where
  pub matched : closes chunk ≡ opens chunk
  pub first : (n : ℕ) → 0 < n → n < length chunk → closes (take n chunk) < opens (take n chunk)

Closes-IsBalanced : (chunk : Str) → Closes 1 chunk → IsBalanced (b'{' ∷ chunk)
Closes-IsBalanced chunk done = record {
  matched = omega (arith, done.matched);
  first = λ n pos lt. after_brace chunk done n pos lt;
}
  where
    after_brace :
        (chunk : Str)
        → Closes 1 chunk
        → (n : ℕ) → 0 < n
        → n < length (b'{' ∷ chunk)
        → closes (take n (b'{' ∷ chunk)) < opens (take n (b'{' ∷ chunk))
    after_brace chunk done zero pos lt = absurd (omega arith)
    after_brace chunk done (suc n) pos lt = omega (arith, done.first n (omega arith))

take_one : (s : Str) → take 1 s ≡ b'{' ∷ [] → (r : Str) × (s ≡ b'{' ∷ r)
take_one [] h = absurd (ground arith)
take_one (c ∷ s) h = (s, ground arith)

-- what stands where `find` found a brace
brace_found :
    (text : Str) (start : ℕ)
    → find text (codes "{") 0 ≡ some start
    → (s : Str) × (drop start text ≡ b'{' ∷ s)
brace_found text start h =
    take_one (drop start text) (find-StandsAt text (codes "{") 0 start h (omega arith)).1.0

-- The chunk that the brace scan cuts out stands in the text from its first opening brace on, and is
-- balanced, no part from its start being so.
pub braced-IsBalanced :
    (text chunk : Str)
    → braced text ≡ some chunk
    → ((start : ℕ) × (rest : Str) × (find text (codes "{") 0 ≡ some start)
        × (chunk ++ rest ≡ drop start text))
      × IsBalanced chunk
unfolding braced balanced
braced-IsBalanced text chunk h = elim (Option-cases (find text (codes "{") 0)) [
  | inl e ↦ absurd (ground arith)
  | inr (start, e) ↦
      let (s, stood) = brace_found text start e in
      let scan : balanced 0 (drop start text) ≡ some chunk = rw (braced, e) at h in
      let scanned : balanced 0 (b'{' ∷ s) ≡ some chunk = rw stood at scan in
      elim (Option-cases (balanced 1 s)) [
        | inl e' ↦ absurd (ground arith)
        | inr (chunk', e') ↦
            let ((rest, whole), done) = balanced-Closes s 1 chunk' (omega arith) e' in
            let here : chunk ≡ b'{' ∷ chunk' = ground arith in
            rw here (
              (start, rest, e, ap (λ (r : Str). b'{' ∷ r) whole ∙ sym stood),
              Closes-IsBalanced chunk' done,
            )
      ]
]
