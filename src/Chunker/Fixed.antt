-- ===== src/Chunker/Fixed.antt =====
-- The windows of the fixed strategy, `_chunk_fixed` of backend/app/services/chunker.py.
use context_lens.Prelude.{
  ℕ, zero, suc, ◌+◌, ◌-◌, ◌≤◌, ◌<◌, ◌≡◌, ◌≢◌, refl, sym, ap, ◌∙◌, Bool, true, false, some, List, [],
  ◌∷◌, ok, arith, length, slice, get_elem?, get_elem?-slice, List-cases, if◌then◌else◌, inl, inr,
  Bool-cases, ◌⊎◌, leb, min, ◌≡◌,
}
use native.Mathlib.Decide.{dec_lt}
use context_lens.Prelude.Text.{Str, strip, is_space}
use context_lens.Prelude.Text.Laws.{strip-Blank, get_elem?-Blank}
use context_lens.Chunker.{
  ChunkData, fixed, chunk_fixed_from, chunk_fixed, fixed_chunk, chunk_text, pos,
}

module _ (text : Str) (chunk_size overlap : ℕ) where
  -- The chunk is what strips out of a window of at most `chunk_size` characters of the text.
  pub record IsWindow (d : ChunkData) : Type 0 where
    pub content_eq : d.content ≡ strip (slice text d.start_char d.end_char)
    pub content_ne_nil : d.content ≢ []
    pub before : d.start_char < d.end_char
    pub inside : d.end_char ≤ length text
    pub fits : d.end_char ≤ d.start_char + chunk_size

  -- The chunks are windows, numbered from `k`, whose starts grow by a step at least, from `from`.
  abbrev pub Windows : ℕ → ℕ → List ChunkData → Type 0
  Windows k from [] = Unit
  Windows k from (d ∷ ds) =
      IsWindow d
      × (d.chunk_index ≡ k)
      × (from ≤ d.start_char)
      × Windows (k + 1) (d.start_char + (chunk_size - overlap)) ds

  Windows-le : (k a b : ℕ) (ds : List ChunkData) → a ≤ b → Windows k b ds → Windows k a ds
  Windows-le k a b [] h w = tt
  Windows-le k a b (d ∷ ds) h (w, i, le, r) = (w, i, omega arith, r)

  abbrev pub Covers : ℕ → List ChunkData → Type 0
  Covers p [] = ⊥
  Covers p (d ∷ ds) = ((d.start_char ≤ p) × (p < d.end_char)) ⊎ Covers p ds

  fixed_chunk-IsWindow :
      (k start c : ℕ) (s : Str)
      → overlap < chunk_size
      → start < length text
      → strip (slice text start (min (start + chunk_size) (length text))) ≡ c ∷ s
      → IsWindow (
          fixed_chunk text chunk_size overlap k start
            (min (start + chunk_size) (length text))
            (c ∷ s))
  unfolding fixed_chunk
  fixed_chunk-IsWindow k start c s h inside e = record {
    content_eq = sym e;
    content_ne_nil = λ n. cc;
    before = omega arith;
    inside = omega arith;
    fits = omega arith;
  }

  Windows-if :
      (b : Bool) (k from : ℕ) (ds : List ChunkData)
      → Windows k from ds
      → Windows k from (if b then [] else ds)
  Windows-if true k from ds w = tt
  Windows-if false k from ds w = w

  chunk_fixed_from-Windows :
      (fuel start k : ℕ)
      → overlap < chunk_size
      → Windows k start (chunk_fixed_from text chunk_size overlap fuel start k)
  unfolding chunk_fixed_from fixed_chunk
  chunk_fixed_from-Windows zero start k h = tt
  chunk_fixed_from-Windows (suc fuel) start k h = elim (Bool-cases (leb (length text) start)) [
    | inl t ↦ rw (t, Windows) tt
    | inr f ↦
        let inside : start < length text = ground arith in
        let end = min (start + chunk_size) (length text) in
        let next = start + (chunk_size - overlap) in
        rw (f, Windows)
          (elim (List-cases (strip (slice text start end))) [
            | inl e ↦
                rw (e, Windows)
                  (Windows-le k start next _ (omega arith) (chunk_fixed_from-Windows fuel next k h))
            | inr (c, s, e) ↦
                rw (e, Windows)
                  (
                    fixed_chunk-IsWindow k start c s h inside e,
                    refl,
                    omega arith,
                    Windows-if (leb (length text) end) (k + 1) next _
                        (chunk_fixed_from-Windows fuel next (k + 1) h),
                  )
          ])
  ]

  Covers-if :
      (p : ℕ) (d : ChunkData) (b : Bool) (ds : List ChunkData)
      → (d.start_char ≤ p) × (p < d.end_char) ⊎ (b ≡ false) × Covers p ds
      → Covers p (d ∷ (if b then [] else ds))
  Covers-if p d true ds (inl h) = inl h
  Covers-if p d true ds (inr h) = absurd (cc (h.0))
  Covers-if p d false ds (inl h) = inl h
  Covers-if p d false ds (inr h) = inr h.1

  -- a window that strips to nothing holds white space only
  blank_window :
      (start end p : ℕ) {c : ℕ}
      → start ≤ p
      → p < end
      → strip (slice text start end) ≡ []
      → get_elem? text p ≡ some c
      → is_space c ≡ true
  blank_window start end p le lt e at =
      let here : start + (p - start) ≡ p = omega arith in
      get_elem?-Blank (slice text start end) (p - start) (strip-Blank (slice text start end) e)
        (get_elem?-slice text start end (p - start) (omega arith) ∙ ap (get_elem? text) here ∙ at)

  get_elem?-lt : (xs : Str) (i : ℕ) {c : ℕ} → get_elem? xs i ≡ some c → i < length xs
  get_elem?-lt [] i e = cc
  get_elem?-lt (x ∷ xs) zero e = omega arith
  get_elem?-lt (x ∷ xs) (suc i) e = omega (arith, get_elem?-lt xs i e)

  chunk_fixed_from-Covers :
      (fuel start k p : ℕ) {c : ℕ}
      → overlap < chunk_size
      → length text ≤ start + fuel
      → start ≤ p
      → get_elem? text p ≡ some c
      → is_space c ≡ false
      → Covers p (chunk_fixed_from text chunk_size overlap fuel start k)
  unfolding chunk_fixed_from fixed_chunk
  chunk_fixed_from-Covers zero start k p h enough le at ink =
      absurd (omega (arith, get_elem?-lt text p at))
  chunk_fixed_from-Covers (suc fuel) start k p h enough le at ink =
      let here : p < length text = get_elem?-lt text p at in
      let open_end : leb (length text) start ≡ false = ground arith in
      let end = min (start + chunk_size) (length text) in
      let next = start + (chunk_size - overlap) in
      let later = λ (j : ℕ) (far : next ≤ p).
        chunk_fixed_from-Covers fuel next j p h (omega arith) far at ink in
      rw (open_end, Covers)
        (elim (List-cases (strip (slice text start end))) [
          | inl e ↦
              rw (e, Covers)
                (later k (elim (dec_lt p end) [
                  | yes lt ↦ absurd (cc (blank_window start end p le lt e at))
                  | no far ↦ omega arith
                ]))
          | inr (c, s, e) ↦
              rw (e, Covers)
                (let d = fixed_chunk text chunk_size overlap k start end (c ∷ s) in
                  let rest = chunk_fixed_from text chunk_size overlap fuel next (k + 1) in
                  elim (dec_lt p end) [
                    | yes lt ↦ Covers-if p d (leb (length text) end) rest (inl (le, lt))
                    | no far ↦
                        Covers-if p d (leb (length text) end) rest
                          (inr (ground arith, later (k + 1) (omega arith)))
                  ])
        ])

chunk_text-fixed_eq :
    (text : Str) (chunk_size overlap : ℕ)
    → overlap < chunk_size
    → chunk_text text fixed (pos chunk_size) (pos overlap)
      ≡ ok (chunk_fixed (strip text) chunk_size overlap)
unfolding chunk_text
chunk_text-fixed_eq text chunk_size overlap h = elim (List-cases (strip text)) [
  | inl e ↦ rw (e, chunk_text)
  | inr (c, s, e) ↦ rw (e, chunk_text) (ground arith)
]

-- With an overlap below the chunk size the fixed strategy returns chunks. They are numbered from 0;
-- each is the stripped, non-empty content of a window of the stripped text that starts before it
-- ends, ends inside the text and is at most `chunk_size` long; and a chunk starts at least
-- `chunk_size - overlap` characters after the chunk before it.
pub chunk_text-Windows :
    (text : Str) (chunk_size overlap : ℕ)
    → overlap < chunk_size
    → (ds : List ChunkData) × (chunk_text text fixed (pos chunk_size) (pos overlap) ≡ ok ds)
      × Windows (strip text) chunk_size overlap 0 0 ds
unfolding chunk_fixed
chunk_text-Windows text chunk_size overlap h = (
  chunk_fixed (strip text) chunk_size overlap,
  chunk_text-fixed_eq text chunk_size overlap h,
  chunk_fixed_from-Windows (strip text) chunk_size overlap (length (strip text)) 0 0 h,
)

-- With an overlap below the chunk size the fixed strategy returns chunks, and every character of
-- the stripped text that is not white space lies in the window of one of them.
pub chunk_text-Covers :
    (text : Str) (chunk_size overlap p c : ℕ)
    → overlap < chunk_size
    → get_elem? (strip text) p ≡ some c
    → is_space c ≡ false
    → (ds : List ChunkData) × (chunk_text text fixed (pos chunk_size) (pos overlap) ≡ ok ds)
      × Covers (strip text) chunk_size overlap p ds
unfolding chunk_fixed
chunk_text-Covers text chunk_size overlap p c h at ink = (
  chunk_fixed (strip text) chunk_size overlap,
  chunk_text-fixed_eq text chunk_size overlap h,
  chunk_fixed_from-Covers (strip text) chunk_size overlap (length (strip text)) 0 0 p h
      (omega arith) (omega arith) at ink,
)
