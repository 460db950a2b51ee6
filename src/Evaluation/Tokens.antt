-- ===== src/Evaluation/Tokens.antt =====
-- Tokens and their recall: `significant_tokens` and `token_recall` of
-- backend/app/services/minimal_retrieval_evaluation.py. A set of tokens is a list without repeats.
use context_lens.Prelude.{
  ℕ, suc, ◌+◌, Bool, true, false, ◌&&◌, ◌||◌, Option, none, some, List, [], ◌∷◌, ◌++◌, leb, ◌==◌,
  if◌then◌else◌, length,
}
use context_lens.Prelude.Floats.{Floats}
use context_lens.Prelude.Text.{Str, text_eq}

-- `[a-z0-9]` with `re.I`: besides the ASCII letters and digits, the four characters whose case
-- folding is an ASCII letter
is_word : ℕ → Bool
is_word c =
    (leb b'a' c && leb c b'z')
    || (leb b'A' c && leb c b'Z')
    || (leb b'0' c && leb c b'9')
    || (c == 304)
    || (c == 305)
    || (c == 383)
    || (c == 8490)

-- `str.lower` of a character that `is_word` accepts
lower_char : ℕ → Str
lower_char c =
    if leb b'A' c && leb c b'Z'
    then (c + 32) ∷ []
    else if c == 8490
    then b'k' ∷ []
    else if c == 304
    then b'i' ∷ 775 ∷ []
    else c ∷ []

lower : Str → Str
unfolding lower_char
lower [] = []
lower (c ∷ s) = lower_char c ++ lower s

unfoldable pub member : Str → List Str → Bool
unfolding text_eq
member t [] = false
member t (u ∷ us) = text_eq t u || member t us

-- a match `m.group(0)` of length two or more goes into the set
close_token : Str → List Str → List Str
unfolding lower member
close_token [] tokens = tokens
close_token (c ∷ []) tokens = tokens
close_token (c ∷ d ∷ w) tokens =
    let t = lower (c ∷ d ∷ w) in if member t tokens then tokens else t ∷ tokens

-- `word` is the match being read
tokens_from : Str → Str → List Str → List Str
unfolding is_word close_token
tokens_from [] word tokens = close_token word tokens
tokens_from (c ∷ s) word tokens = elim (is_word c) [
  | true ↦ tokens_from s (word ++ c ∷ []) tokens
  | false ↦ tokens_from s [] (close_token word tokens)
]

unfoldable pub significant_tokens : Str → List Str
unfolding tokens_from
significant_tokens text = tokens_from text [] []

-- `len(query_tokens & against)`
unfoldable pub hits : List Str → List Str → ℕ
unfolding member
hits [] against = 0
hits (t ∷ ts) against = let n = hits ts against in if member t against then suc n else n

unfoldable pub token_recall : {F : Type 0} → Floats F → List Str → Str → Option F
token_recall fl [] corpus_text = none
token_recall fl (t ∷ ts) corpus_text = elim (significant_tokens corpus_text) [
  | [] ↦ some (fl.of_nat 0)
  | u ∷ us ↦ some (fl.div (fl.of_nat (hits (t ∷ ts) (u ∷ us))) (fl.of_nat (length (t ∷ ts))))
]
