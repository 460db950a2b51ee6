-- ===== src/Chunker/Build.antt =====
-- Offsets of the pieces, `_build_chunks_from_pieces` of backend/app/services/chunker.py.
use context_lens.Prelude.{
  ℕ, ◌+◌, ◌-◌, ◌≤◌, ◌<◌, ◌≡◌, ◌≢◌, refl, ap, ◌∙◌, some, List, [], ◌∷◌, ok, err, value_error, ◌>>=◌,
  arith, length, take, drop, slice, All, inl, inr, Option-cases, ◌⊎◌, map,
}
use context_lens.Prelude.Text.{Str, strip, find}
use context_lens.Prelude.Text.Laws.{find-StandsAt, StandsAt}
use context_lens.Chunker.{
  ChunkData, ChunkStrategy, placed, locate, build_from, build_chunks_from_pieces,
}

module _ (text : Str) (strategy : ChunkStrategy) (chunk_size overlap : ℕ) where
  -- The offsets are those of the content in the text.
  pub record IsPlaced (d : ChunkData) : Type 0 where
    pub content_eq : slice text d.start_char d.end_char ≡ d.content
    pub content_ne_nil : d.content ≢ []
    pub length_eq : d.end_char ≡ d.start_char + length d.content
    pub inside : d.end_char ≤ length text

  locate-StandsAt :
      (content : Str) (from i : ℕ)
      → locate text strategy chunk_size overlap content from ≡ ok i
      → 0 < length content
      → StandsAt content text i
  unfolding locate
  locate-StandsAt content from i h pos = elim (Option-cases (find text content from)) [
    | inl e ↦ elim (Option-cases (find text content 0)) [
      | inl e' ↦ absurd (ground arith)
      | inr (j, e') ↦ (find-StandsAt text content 0 i (ground arith) pos).1
    ]
    | inr (j, e) ↦ (find-StandsAt text content from i (ground arith) pos).1
  ]

  abbrev pub IsPiece : Str → Type 0
  IsPiece p = (strip p ≡ p) × (p ≢ [])

  -- The text holds the piece, and `find` sees it.
  abbrev pub IsFound : Str → Type 0
  IsFound p = IsPiece p × ((i : ℕ) × (find text p 0 ≡ some i))

  abbrev pub IsLost : Str → Type 0
  IsLost p = (i : ℕ) → ¬ StandsAt p text i

  abbrev pub Any : (Str → Type 0) → List Str → Type 0
  Any P [] = ⊥
  Any P (p ∷ ps) = P p ⊎ Any P ps

  locate_found :
      (p : Str) (from i : ℕ)
      → find text p 0 ≡ some i
      → (j : ℕ) × (locate text strategy chunk_size overlap p from ≡ ok j)
  unfolding locate
  locate_found p from i h = elim (Option-cases (find text p from)) [
    | inl e ↦ (i, ground arith)
    | inr (j, e) ↦ (j, ground arith)
  ]

  locate_lost :
      (p : Str) (from : ℕ)
      → 0 < length p
      → IsLost p
      → locate text strategy chunk_size overlap p from ≡ err value_error
  unfolding locate
  locate_lost p from pos lost = elim (Option-cases (find text p from)) [
    | inl e ↦ elim (Option-cases (find text p 0)) [
      | inl e' ↦ ground arith
      | inr (j, e') ↦ absurd (lost j (find-StandsAt text p 0 j e' pos).1)
    ]
    | inr (j, e) ↦ absurd (lost j (find-StandsAt text p from j e pos).1)
  ]

  locate_cases :
      (p : Str) (from : ℕ)
      → ((j : ℕ) × (locate text strategy chunk_size overlap p from ≡ ok j))
        ⊎ (locate text strategy chunk_size overlap p from ≡ err value_error)
  unfolding locate
  locate_cases p from = elim (Option-cases (find text p from)) [
    | inl e ↦ elim (Option-cases (find text p 0)) [
      | inl e' ↦ inr (ground arith)
      | inr (j, e') ↦ inl (j, ground arith)
    ]
    | inr (j, e) ↦ inl (j, ground arith)
  ]

  placed-IsPlaced :
      (k j c : ℕ) (s : Str)
      → StandsAt (c ∷ s) text j
      → IsPlaced (placed text strategy chunk_size overlap k j (c ∷ s))
  unfolding placed
  placed-IsPlaced k j c s (here, inside) =
      let width : j + length (c ∷ s) - j ≡ length (c ∷ s) = omega arith in
      record {
        content_eq = ap (λ (n : ℕ). take n (drop j text)) width ∙ here;
        content_ne_nil = λ n. cc;
        length_eq = refl;
        inside = inside;
      }

  -- what a non-empty stripped piece contributes
  build_from-cons :
      (c : ℕ) (s : Str) (pieces : List Str) (k from : ℕ)
      → strip (c ∷ s) ≡ c ∷ s
      → build_from text strategy chunk_size overlap ((c ∷ s) ∷ pieces) k from ≡ (do
        start ← locate text strategy chunk_size overlap (c ∷ s) from
        rest ← build_from text strategy chunk_size overlap pieces (k + 1) (start + length (c ∷ s))
        ok (placed text strategy chunk_size overlap k start (c ∷ s) ∷ rest))
  unfolding build_from
  build_from-cons c s pieces k from e = rw (e, build_from)

  build_from_found :
      (pieces : List Str) (k from : ℕ)
      → All IsFound pieces
      → (ds : List ChunkData) × (build_from text strategy chunk_size overlap pieces k from ≡ ok ds)
        × All IsPlaced ds
        × (map (λ (d : ChunkData). d.content) ds ≡ pieces)
  unfolding placed
  build_from_found [] k from h = ([], unfold build_from in refl, tt, refl)
  build_from_found ([] ∷ pieces) k from ((piece, _), _) = absurd (piece.1 refl)
  build_from_found ((c ∷ s) ∷ pieces) k from (((stripped, ne), (i, found)), later) =
      let (j, at) = locate_found (c ∷ s) from i found in
      let stands = locate-StandsAt (c ∷ s) from j at (omega arith) in
      let (ds, built, all_placed, same) =
        build_from_found pieces (k + 1) (j + length (c ∷ s)) later in
      (
        placed text strategy chunk_size overlap k j (c ∷ s) ∷ ds,
        build_from-cons c s pieces k from stripped ∙ rw (at, built),
        (placed-IsPlaced k j c s stands, all_placed),
        ap (λ (r : List Str). (c ∷ s) ∷ r) same,
      )

  build_from_lost :
      (pieces : List Str) (k from : ℕ)
      → All IsPiece pieces
      → Any IsLost pieces
      → build_from text strategy chunk_size overlap pieces k from ≡ err value_error
  build_from_lost [] k from h lost = absurd lost
  build_from_lost ([] ∷ pieces) k from ((_, ne), _) lost = absurd (ne refl)
  build_from_lost ((c ∷ s) ∷ pieces) k from ((stripped, ne), later) (inl lost) =
      build_from-cons c s pieces k from stripped ∙ rw (locate_lost (c ∷ s) from (omega arith) lost)
  build_from_lost ((c ∷ s) ∷ pieces) k from ((stripped, ne), later) (inr lost) =
      build_from-cons c s pieces k from stripped ∙ elim (locate_cases (c ∷ s) from) [
        | inl (j, at) ↦ rw (at, build_from_lost pieces (k + 1) (j + length (c ∷ s)) later lost)
        | inr e ↦ rw e
      ]

-- If every piece is stripped, not empty and found in the text, then the chunks are the pieces in
-- their order, and the offsets of each are those of its content in the text.
pub build_chunks-IsPlaced :
    (text : Str) (strategy : ChunkStrategy) (chunk_size overlap : ℕ) (pieces : List Str)
    → All (IsFound text strategy chunk_size overlap) pieces
    → (ds : List ChunkData) × (build_chunks_from_pieces text strategy chunk_size overlap pieces
        ≡ ok ds)
      × All (IsPlaced text strategy chunk_size overlap) ds
      × (map (λ (d : ChunkData). d.content) ds ≡ pieces)
unfolding build_chunks_from_pieces
build_chunks-IsPlaced text strategy chunk_size overlap pieces found =
    build_from_found text strategy chunk_size overlap pieces 0 0 found

-- If one of the pieces, stripped and not empty all of them, stands nowhere in the text, then the
-- document is refused with a `ValueError`.
pub build_chunks_lost :
    (text : Str) (strategy : ChunkStrategy) (chunk_size overlap : ℕ) (pieces : List Str)
    → All (IsPiece text strategy chunk_size overlap) pieces
    → Any text strategy chunk_size overlap (IsLost text strategy chunk_size overlap) pieces
    → build_chunks_from_pieces text strategy chunk_size overlap pieces ≡ err value_error
unfolding build_chunks_from_pieces
build_chunks_lost text strategy chunk_size overlap pieces shape lost =
    build_from_lost text strategy chunk_size overlap pieces 0 0 shape lost
