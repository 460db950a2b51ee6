-- ===== src/Chunker/Recursive.antt =====
-- The pieces of the recursive strategy, `_split_recursive` of backend/app/services/chunker.py.
use context_lens.Prelude.{
  ℕ, zero, suc, ◌+◌, ◌≤◌, ◌≡◌, ◌≢◌, refl, sym, ap, ◌∙◌, true, none, some, List, [], ◌∷◌, ◌++◌,
  append_assoc, append-nil, err, value_error, arith, length, take, drop, All, All-append,
  length-append, length-take, inl, inr, Bool-cases, List-cases, ltb, leb, ◌||◌,
}
use context_lens.Prelude.Text.{Str, codes, strip, is_space, text_eq, split, find}
use context_lens.Prelude.Text.Laws.{strip-strip, length-strip, strip-concat_space}
use context_lens.Chunker.{
  chunk_text, recursive, pos, kept, split_windows, suffix_of, merge_parts, split_step,
  split_recursive, paragraph, later_separators,
}

-- A separator adds at most one character to a piece, once the piece is stripped.
abbrev Light : Str → Type 0
Light sep = (a : Str) → length (strip (a ++ sep)) ≤ length a + 1

length-strip-suffix_of :
    (sep part : Str) (parts : List Str)
    → Light sep
    → length (strip (part ++ suffix_of sep parts)) ≤ length part + 1
unfolding suffix_of
length-strip-suffix_of sep part [] light =
    omega (arith, length-strip (part ++ []), ap (length {A = ℕ}) (append-nil part))
length-strip-suffix_of sep part (p ∷ ps) light =
    elim (Bool-cases (text_eq sep (codes " ") || text_eq sep [])) [
      | inl t ↦
          rw t (omega (arith, length-strip (part ++ []), ap (length {A = ℕ}) (append-nil part)))
      | inr e ↦ rw e (light part)
    ]

module _ (chunk_size : ℕ) where
  -- Stripped, not empty, and at most one character longer than `chunk_size`.
  pub record IsShort (piece : Str) : Type 0 where
    pub stripped : strip piece ≡ piece
    pub ne_nil : piece ≢ []
    pub bound : length piece ≤ chunk_size + 1

  kept-IsShort : (piece : Str) → length (strip piece) ≤ chunk_size + 1 → All IsShort (kept piece)
  unfolding kept
  kept-IsShort piece h = elim (List-cases (strip piece)) [
    | inl e ↦ rw (e, All) tt
    | inr (c, s, e) ↦
        rw (e, All)
          (
            record {
              stripped = ap strip (sym e) ∙ strip-strip piece ∙ e;
              ne_nil = λ n. cc;
              bound = omega (arith, ap (length {A = ℕ}) e);
            },
            tt,
          )
  ]

  split_windows-IsShort : (fuel : ℕ) (text : Str) → All IsShort (split_windows chunk_size fuel text)
  unfolding split_windows
  split_windows-IsShort zero text = tt
  split_windows-IsShort (suc fuel) [] = tt
  split_windows-IsShort (suc fuel) (c ∷ s) =
      All-append IsShort (kept (take chunk_size (c ∷ s))) _
        (kept-IsShort _
          (omega (arith, length-strip (take chunk_size (c ∷ s)), length-take chunk_size (c ∷ s))))
        (split_windows-IsShort fuel (drop chunk_size (c ∷ s)))

  module _ (sep : Str) (light : Light sep) (f : Str → List Str)
      (short : (part : Str) → All IsShort (f part)) where
    merge_parts-IsShort :
        (parts : List Str) (current : Str)
        → length (strip current) ≤ chunk_size + 1
        → All IsShort (merge_parts chunk_size sep (some f) parts current)
    unfolding merge_parts
    merge_parts-IsShort [] current h = kept-IsShort current h
    merge_parts-IsShort (part ∷ parts) current h =
        let suffix = suffix_of sep parts in
        let candidate = current ++ (part ++ suffix) in
        let ends = length-strip-suffix_of sep part parts light in
        elim (Bool-cases (leb (length candidate) chunk_size)) [
          | inl t ↦
              rw (t, All)
                (merge_parts-IsShort parts candidate (ground (arith, length-strip candidate)))
          | inr e ↦
              rw (e, All)
                (All-append IsShort (kept current) _ (kept-IsShort current h)
                  (elim (Bool-cases (ltb chunk_size (length part))) [
                    | inl t ↦
                        rw (t, All)
                          (All-append IsShort (f part) _ (short part)
                            (merge_parts-IsShort parts [] (ground (arith, length-strip []))))
                    | inr e ↦
                        rw (e, All) (merge_parts-IsShort parts (part ++ suffix) (ground arith))
                  ]))
        ]

  split_step-IsShort :
      (sep : Str) (text : Str) (f : Str → List Str)
      → Light sep
      → ((part : Str) → All IsShort (f part))
      → All IsShort (split_step chunk_size sep (some f) text)
  unfolding split_step
  split_step-IsShort sep text f light short = elim (Bool-cases (leb (length text) chunk_size)) [
    | inl t ↦ rw (t, All) (kept-IsShort text (ground (arith, length-strip text)))
    | inr e ↦
        rw (e, All)
          (elim (Bool-cases (text_eq sep [])) [
            | inl t ↦ rw (t, All) (split_windows-IsShort (length text) text)
            | inr e ↦
                rw (e, All)
                  (merge_parts-IsShort sep light f short (split text sep) []
                    (ground (arith, length-strip [])))
          ])
  ]

  -- The last separator is the empty one, whose windows need no narrower separator.
  split_step-IsShort_nil : (text : Str) → All IsShort (split_step chunk_size [] none text)
  unfolding split_step text_eq
  split_step-IsShort_nil text = elim (Bool-cases (leb (length text) chunk_size)) [
    | inl t ↦ rw (t, All) (kept-IsShort text (ground (arith, length-strip text)))
    | inr e ↦ rw (e, All) (split_windows-IsShort (length text) text)
  ]

-- one or two white spaces add nothing, a full stop and a space add one character
Light-space : (c : ℕ) → is_space c ≡ true → Light (c ∷ [])
Light-space c h a = rw (strip-concat_space a c h) (omega (arith, length-strip a))

Light-two : (c d : ℕ) → is_space d ≡ true → Light (c ∷ d ∷ [])
Light-two c d h a =
    rw (← append_assoc a (c ∷ []) (d ∷ []), strip-concat_space (a ++ c ∷ []) d h)
      (omega (arith, length-strip (a ++ c ∷ []), length-append a (c ∷ [])))

-- Every piece that the recursive strategy cuts, from any text and for any chunk size, is stripped,
-- is not empty, and is at most one character longer than the chunk size.
pub split_recursive-IsShort :
    (chunk_size : ℕ) (text : Str)
    → All (IsShort chunk_size) (split_recursive chunk_size paragraph later_separators text)
unfolding split_recursive is_space
split_recursive-IsShort n text = split_step-IsShort n paragraph text _ (Light-two 10 10 refl) λ a.
    split_step-IsShort n (codes "\n") a _ (Light-space 10 refl) λ b.
      split_step-IsShort n (codes ". ") b _ (Light-two 46 32 refl) λ c.
        split_step-IsShort n (codes " ") c _ (Light-space 32 refl) λ d. split_step-IsShort_nil n d

-- Two words are joined without the space between them, and the document is refused.
words_joined : chunk_text (codes "a b") recursive (pos 2) (pos 0) ≡ err value_error
unfolding chunk_text strip text_eq split find
words_joined = refl
