-- ===== src/Tests/Chunks.antt =====
-- Tests of the chunker.
use context_lens.Prelude.{
  ℕ, zero, suc, ◌≡◌, refl, ap, List, [], ◌∷◌, ok, err, value_error, arith, All, inl, true, false,
  map,
}
use context_lens.Prelude.Text.{Str, codes, strip, find, text_eq}
use context_lens.Prelude.Text.Laws.{StandsAt}
use context_lens.Chunker.{
  ChunkData, fixed, recursive, pos, chunk_text, split_recursive, build_chunks_from_pieces,
  paragraph, later_separators,
}
use context_lens.Chunker.Fixed.{Windows, Covers, chunk_text-Windows, chunk_text-Covers}
use context_lens.Chunker.Recursive.{IsShort, split_recursive-IsShort}
use context_lens.Chunker.Build.{IsPlaced, build_chunks-IsPlaced, build_chunks_lost}

abbrev letters : Str
letters = codes "abcdef gh"

chunk_text-Windows_example :
    (ds : List ChunkData) × (chunk_text letters fixed (pos 4) (pos 1) ≡ ok ds)
    × Windows (strip letters) 4 1 0 0 ds
chunk_text-Windows_example = chunk_text-Windows letters 4 1 (omega arith)

chunk_text-Covers_example :
    (ds : List ChunkData) × (chunk_text letters fixed (pos 4) (pos 1) ≡ ok ds)
    × Covers (strip letters) 4 1 5 ds
unfolding strip
chunk_text-Covers_example = chunk_text-Covers letters 4 1 5 102 (omega arith) refl refl

split_recursive-IsShort_example :
    All (IsShort 4) (split_recursive 4 paragraph later_separators letters)
split_recursive-IsShort_example = split_recursive-IsShort 4 letters

build_chunks-IsPlaced_example :
    (ds : List ChunkData) × (build_chunks_from_pieces letters recursive 6 0
        (codes "abcdef" ∷ codes "gh" ∷ [])
      ≡ ok ds)
    × All (IsPlaced letters recursive 6 0) ds
    × (map (λ (d : ChunkData). d.content) ds ≡ codes "abcdef" ∷ codes "gh" ∷ [])
unfolding strip find
build_chunks-IsPlaced_example =
    build_chunks-IsPlaced letters recursive 6 0 (codes "abcdef" ∷ codes "gh" ∷ [])
      (((refl, λ e. cc), (0, refl)), (((refl, λ e. cc), (7, refl)), tt))

abbrev two_words : Str
two_words = codes "a b"

differ : false ≡ true → ⊥
differ e = cc

not_there : (i : ℕ) → ¬ StandsAt (codes "ab") two_words i
unfolding text_eq
not_there zero h = differ (ap (λ s. text_eq s (codes "ab")) h.0)
not_there (suc zero) h = differ (ap (λ s. text_eq s (codes "ab")) h.0)
not_there (suc (suc i)) h = omega (arith, h.1)

build_chunks_lost_example :
    build_chunks_from_pieces two_words recursive 2 0 (codes "ab" ∷ []) ≡ err value_error
unfolding strip
build_chunks_lost_example =
    build_chunks_lost two_words recursive 2 0 (codes "ab" ∷ []) ((refl, λ e. cc), tt)
      (inl not_there)
