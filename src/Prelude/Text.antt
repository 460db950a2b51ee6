-- ===== src/Prelude/Text.antt =====
-- Python's `str` as a list of code points, with the methods that the program calls.
pub mod Laws
use Prim.Native.Char.{code}
use Prim.Native.String.{String}
use context_lens.Prelude.{
  ℕ, zero, suc, ◌+◌, ◌-◌, Bool, true, false, ◌&&◌, ◌||◌, Option, none, some, List, [], ◌∷◌, ◌++◌,
  leb, ◌==◌, if◌then◌else◌, length, drop,
}

abbrev pub Str : Type 0
Str = List ℕ

-- The code points of a literal.
abbrev pub codes : String → Str
codes String.[] = []
codes (String.◌∷◌ c s) = code c ∷ codes s

-- `str.isspace` of one code point, which is what `strip` removes.
unfoldable pub is_space : ℕ → Bool
is_space c =
    (leb 9 c && leb c 13)
    || (leb 28 c && leb c 32)
    || (c == 133)
    || (c == 160)
    || (c == 5760)
    || (leb 8192 c && leb c 8202)
    || (c == 8232)
    || (c == 8233)
    || (c == 8239)
    || (c == 8287)
    || (c == 12288)

unfoldable pub lstrip : Str → Str
lstrip [] = []
lstrip (c ∷ s) = elim (is_space c) [ true ↦ lstrip s | false ↦ c ∷ s ]

-- a white space that ends the text goes, any other character stays
keep_last : ℕ → Str → Str
keep_last c [] = if is_space c then [] else c ∷ []
keep_last c (d ∷ r) = c ∷ d ∷ r

rstrip : Str → Str
unfolding keep_last
rstrip [] = []
rstrip (c ∷ s) = keep_last c (rstrip s)

-- `s.strip()`
unfoldable pub strip : Str → Str
unfolding lstrip rstrip is_space
strip s = rstrip (lstrip s)

-- `a == b`
unfoldable pub text_eq : Str → Str → Bool
text_eq [] [] = true
text_eq [] (d ∷ b) = false
text_eq (c ∷ a) [] = false
text_eq (c ∷ a) (d ∷ b) = c == d && text_eq a b

-- `s.startswith(p)`
unfoldable pub starts_with : Str → Str → Bool
starts_with [] s = true
starts_with (c ∷ p) [] = false
starts_with (c ∷ p) (d ∷ s) = c == d && starts_with p s

-- The first occurrence of `sub` in `s`, whose first character has the index `at`.
find_at : Str → Str → ℕ → Option ℕ
unfolding starts_with
find_at sub [] at = if starts_with sub [] then some at else none
find_at sub (c ∷ s) at =
    let later = find_at sub s (at + 1) in if starts_with sub (c ∷ s) then some at else later

-- `s.find(sub, start)`, with `none` for -1. The program's `sub` is never empty.
unfoldable pub find : Str → Str → ℕ → Option ℕ
unfolding find_at
find s sub start = find_at sub (drop start s) start

-- `cur` is the part being read, and `skip` the characters of a separator still to be passed over.
split_from : Str → Str → ℕ → Str → List Str
unfolding starts_with
split_from sep [] skip cur = cur ∷ []
split_from sep (c ∷ s) (suc skip) cur = split_from sep s skip cur
split_from sep (c ∷ s) zero cur = elim (starts_with sep (c ∷ s)) [
  | true ↦ cur ∷ split_from sep s (length sep - 1) []
  | false ↦ split_from sep s zero (cur ++ c ∷ [])
]

-- `s.split(sep)`, for a separator that is not empty.
unfoldable pub split : Str → Str → List Str
unfolding split_from
split s sep = split_from sep s zero []
