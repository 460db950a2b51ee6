-- ===== src/Chunker.antt =====
-- Text chunking: backend/app/services/chunker.py.
-- `text`, `chunk_size` and `overlap` keep their names; a chunk's `metadata_json` is a record of its
-- three keys. Python's ints are signed where the code tests their sign.
pub mod Fixed
pub mod Recursive
pub mod Build
use context_lens.Prelude.{
  ℕ, zero, suc, ◌+◌, ◌-◌, Bool, true, false, ◌||◌, not, Option, none, some, List, [], ◌∷◌, ◌++◌,
  Result, ok, err, value_error, ◌>>=◌, ◌>>◌, require, leb, ltb, ◌==◌, if◌then◌else◌, length, take,
  drop, slice, min,
}
use context_lens.Prelude.Text.{Str, codes, strip, find, split, text_eq}

-- `negsuc n` is -(n + 1).
pub data ℤ : Type 0 where
  pos : ℕ → ℤ
  negsuc : ℕ → ℤ

abbrev pub pos_part : ℤ → ℕ
pos_part (pos n) = n
pos_part (negsuc n) = 0

pub data ChunkStrategy : Type 0 where
  fixed recursive : ChunkStrategy

pub record ChunkMetadata : Type 0 where
  pub strategy : ChunkStrategy
  pub chunk_size : ℕ
  pub overlap : ℕ

pub record ChunkData : Type 0 where
  pub content : Str
  pub chunk_index : ℕ
  pub start_char : ℕ
  pub end_char : ℕ
  pub metadata_json : ChunkMetadata

-- a < b and a <= b
abbrev pub ltb_ℤ : ℤ → ℤ → Bool
ltb_ℤ (pos a) (pos b) = ltb a b
ltb_ℤ (pos a) (negsuc b) = false
ltb_ℤ (negsuc a) (pos b) = true
ltb_ℤ (negsuc a) (negsuc b) = ltb b a

abbrev leb_ℤ : ℤ → ℤ → Bool
leb_ℤ a b = not (ltb_ℤ b a)

validate_chunk_params : ℤ → ℤ → Result (Unit {0})
validate_chunk_params chunk_size overlap = do
  require (not (leb_ℤ chunk_size (pos 0))) value_error
  require (not (ltb_ℤ overlap (pos 0))) value_error
  require (not (leb_ℤ chunk_size overlap)) value_error

normalize_text : Str → Str
normalize_text text = strip text

module _ (text : Str) (chunk_size overlap : ℕ) where
  fixed_chunk : ℕ → ℕ → ℕ → Str → ChunkData
  fixed_chunk chunk_index start end content = record {
    content = content;
    chunk_index = chunk_index;
    start_char = start;
    end_char = end;
    metadata_json = record { strategy = fixed; chunk_size = chunk_size; overlap = overlap };
  }

  -- the rounds `for start in range(start, len(text), step)`; the fuel bounds their number
  chunk_fixed_from : ℕ → ℕ → ℕ → List ChunkData
  unfolding fixed_chunk
  chunk_fixed_from zero start chunk_index = []
  chunk_fixed_from (suc fuel) start chunk_index =
      let end : ℕ = min (start + chunk_size) (length text) in
      let next : ℕ = start + (chunk_size - overlap) in
      let skipped : List ChunkData = chunk_fixed_from fuel next chunk_index in
      let others : List ChunkData = chunk_fixed_from fuel next (chunk_index + 1) in
      elim (leb (length text) start) [
        | true ↦ []
        | false ↦ elim (strip (slice text start end)) [
          | [] ↦ skipped
          | c ∷ s ↦
              fixed_chunk chunk_index start end (c ∷ s)
              ∷ (if leb (length text) end then [] else others)
        ]
      ]

  -- A round moves on by at least one character, so `len(text)` rounds are enough.
  chunk_fixed : List ChunkData
  unfolding chunk_fixed_from
  chunk_fixed = chunk_fixed_from (length text) 0 0

-- `[p.strip()]` if that is not empty
kept : Str → List Str
kept piece = elim (strip piece) [ [] ↦ [] | c ∷ s ↦ (c ∷ s) ∷ [] ]

-- The windows of the separator "", of a `chunk_size` that is not 0: `_validate_chunk_params` refuses 0
-- before the text is split, and `range` would raise a `ValueError` there.
split_windows : ℕ → ℕ → Str → List Str
unfolding kept
split_windows chunk_size zero text = []
split_windows chunk_size (suc fuel) [] = []
split_windows chunk_size (suc fuel) (c ∷ s) =
    kept (take chunk_size (c ∷ s)) ++ split_windows chunk_size fuel (drop chunk_size (c ∷ s))

-- a part that is not the last keeps its separator, unless that is a space
suffix_of : Str → List Str → Str
suffix_of separator [] = []
suffix_of separator (_ ∷ _) =
    if text_eq separator (codes " ") || text_eq separator [] then [] else separator

module _ (chunk_size : ℕ) (separator : Str) (narrower : Option (Str → List Str)) where
  -- The loop over `parts`: `current` is the piece being built. `narrower` splits by the separators
  -- that are left, if there are any.
  merge_parts : List Str → Str → List Str
  unfolding suffix_of kept
  merge_parts [] current = kept current
  merge_parts (part ∷ parts) current =
      let suffix : Str = suffix_of separator parts in
      let candidate : Str = current ++ (part ++ suffix) in
      let grown : List Str = merge_parts parts candidate in
      let restarted : List Str = merge_parts parts [] in
      let moved_on : List Str = merge_parts parts (part ++ suffix) in
      elim (leb (length candidate) chunk_size) [
        | true ↦ grown
        | false ↦ kept current ++ elim (ltb chunk_size (length part)) [
          | true ↦ elim narrower [ some f ↦ f part ++ restarted | none ↦ moved_on ]
          | false ↦ moved_on
        ]
      ]

  split_step : Str → List Str
  unfolding merge_parts split_windows kept
  split_step text =
      if leb (length text) chunk_size
      then kept text
      else if text_eq separator []
      then split_windows chunk_size (length text) text
      else merge_parts (split text separator) []

-- `separator` is `separators[0]` and `rest` is `separators[1:]`.
unfoldable pub split_recursive : ℕ → Str → List Str → Str → List Str
unfolding split_step
split_recursive chunk_size separator [] text = split_step chunk_size separator none text
split_recursive chunk_size separator (next ∷ rest) text =
    split_step chunk_size separator (some (λ part. split_recursive chunk_size next rest part)) text

module _ (full_text : Str) (strategy : ChunkStrategy) (chunk_size overlap : ℕ) where
  -- forwards from the end of the last chunk, then from the beginning
  locate : Str → ℕ → Result ℕ
  locate content search_start = elim (find full_text content search_start) [
    | some start ↦ ok start
    | none ↦ elim (find full_text content 0) [ some start ↦ ok start | none ↦ err value_error ]
  ]

  placed : ℕ → ℕ → Str → ChunkData
  placed chunk_index start content = record {
    content = content;
    chunk_index = chunk_index;
    start_char = start;
    end_char = start + length content;
    metadata_json = record { strategy = strategy; chunk_size = chunk_size; overlap = overlap };
  }

  build_from : List Str → ℕ → ℕ → Result (List ChunkData)
  unfolding locate placed
  build_from [] chunk_index search_start = ok []
  build_from (piece ∷ pieces) chunk_index search_start =
      let skipped : Result (List ChunkData) = build_from pieces (chunk_index + 1) search_start in
      elim (strip piece) [
        | [] ↦ skipped
        | c ∷ s ↦ do
          start ← locate (c ∷ s) search_start
          rest ← build_from pieces (chunk_index + 1) (start + length (c ∷ s))
          ok (placed chunk_index start (c ∷ s) ∷ rest)
      ]

  pub build_chunks_from_pieces : List Str → Result (List ChunkData)
  unfolding build_from
  build_chunks_from_pieces pieces = build_from pieces 0 0

abbrev pub paragraph : Str
paragraph = codes "\n\n"

abbrev pub later_separators : List Str
later_separators = codes "\n" ∷ codes ". " ∷ codes " " ∷ [] ∷ []

chunk_recursive : Str → ℕ → ℕ → Result (List ChunkData)
unfolding split_recursive build_chunks_from_pieces
chunk_recursive text chunk_size overlap =
    build_chunks_from_pieces text recursive chunk_size overlap
      (split_recursive chunk_size paragraph later_separators text)

chunk_with : ChunkStrategy → Str → ℕ → ℕ → Result (List ChunkData)
unfolding chunk_fixed chunk_recursive
chunk_with fixed text chunk_size overlap = ok (chunk_fixed text chunk_size overlap)
chunk_with recursive text chunk_size overlap = chunk_recursive text chunk_size overlap

unfoldable pub chunk_text : Str → ChunkStrategy → ℤ → ℤ → Result (List ChunkData)
unfolding normalize_text validate_chunk_params chunk_with
chunk_text text strategy chunk_size overlap = elim (normalize_text text) [
  | [] ↦ ok []
  | c ∷ s ↦
      validate_chunk_params chunk_size overlap
      >> chunk_with strategy (c ∷ s) (pos_part chunk_size) (pos_part overlap)
]
