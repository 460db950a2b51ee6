-- ===== src/Judge/Extract.antt =====
-- Finding the JSON object in the judge's text, `extract_judge_json_object` of
-- backend/app/services/llm_judge_parse.py, with its regular expression written out.
pub mod Braces
pub mod Total
use context_lens.Prelude.{
  ℕ, zero, suc, ◌+◌, ◌-◌, ◌≤◌, ◌<◌, ◌≡◌, refl, ap, Bool, true, false, ◌&&◌, ◌||◌, Option, none,
  some, List, [], ◌∷◌, ◌++◌, if◌then◌else◌, ◌==◌, arith, drop, take, length, Result, ok, err,
  type_error, Option-cases, Bool-cases, inl, inr,
}
use context_lens.Prelude.Text.{Str, codes, strip, lstrip, starts_with, find}
use context_lens.Judge.{
  Fields, Root, object, another, ParseWarning, empty_judge_response, fenced_json_invalid,
  balanced_brace_json_invalid, json_root_not_object, json_decode_failed, JsonLibrary,
}

abbrev fence : Str
fence = codes "```"

-- a character put before a text, if there is one
abbrev prepend : ℕ → Option Str → Option Str
prepend c none = none
prepend c (some s) = some (c ∷ s)

-- `[\s\S]*?\})\s*```: up to the first closing brace that a fence follows
close_fence : Str → Option Str
close_fence [] = none
close_fence (c ∷ s) =
    let later = close_fence s in
    if c == b'}' && starts_with fence (lstrip s) then some (c ∷ []) else prepend c later

-- `(?:json)?` without regard to case; `ſ` is an `s` to it.
skip_json : Str → Str
skip_json (j ∷ s ∷ o ∷ n ∷ rest) =
    if (j == b'j' || j == b'J')
      && (s == b's' || s == b'S' || s == 383)
      && (o == b'o' || o == b'O')
      && (n == b'n' || n == b'N')
    then rest
    else j ∷ s ∷ o ∷ n ∷ rest
skip_json s = s

brace_of : Str → Option Str
unfolding close_fence
brace_of [] = none
brace_of (c ∷ s) = if c == b'{' then prepend c (close_fence s) else none

-- the expression at the start of the text
fenced_here : Str → Option Str
unfolding skip_json brace_of
fenced_here s =
    if starts_with fence s then brace_of (lstrip (skip_json (drop (length fence) s))) else none

-- `re.search`: the group of the first match
unfoldable pub fenced_object : Str → Option Str
unfolding fenced_here
fenced_object [] = none
fenced_object (c ∷ s) =
    let later = fenced_object s in
    elim (fenced_here (c ∷ s)) [ some group ↦ some group | none ↦ later ]

-- the depth after a character
abbrev pub depth_after : ℕ → ℕ → ℕ
depth_after depth c = if c == b'{' then depth + 1 else if c == b'}' then depth - 1 else depth

-- The scan for the closing brace, from the first opening one on: `text[start : i + 1]`.
pub balanced : ℕ → Str → Option Str
balanced depth [] = none
balanced depth (c ∷ s) =
    let later = balanced (depth_after depth c) s in
    if c == b'}' && depth_after depth c == 0 then some (c ∷ []) else prepend c later

-- The balanced text from the first opening brace on.
unfoldable pub braced : Str → Option Str
unfolding balanced
braced text = elim (find text (codes "{") 0) [
  | none ↦ none
  | some start ↦ balanced 0 (drop start text)
]

module _ {F : Type 0} (json : JsonLibrary F) where
  abbrev pub Extracted : Type 0
  Extracted = Fields F × List ParseWarning

  -- `json.loads(text)` at the end
  whole_text : Str → List ParseWarning → Result Extracted
  whole_text s warnings = elim (json.loads s) [
    | ok (some (object fields)) ↦ ok (fields, warnings)
    | ok (some another) ↦ ok ([], warnings ++ json_root_not_object ∷ [])
    | ok none ↦ ok ([], warnings ++ json_decode_failed ∷ [])
    | err e ↦ err e
  ]

  decode_braced : Str → List ParseWarning → Result Extracted
  unfolding braced whole_text
  decode_braced s warnings = elim (braced s) [
    | none ↦ whole_text s warnings
    | some chunk ↦ elim (json.loads chunk) [
      | ok (some (object fields)) ↦ ok (fields, warnings)
      | ok (some another) ↦ ok ([], warnings ++ json_root_not_object ∷ [])
      | ok none ↦ whole_text s (warnings ++ balanced_brace_json_invalid ∷ [])
      | err e ↦ err e
    ]
  ]

  -- The fenced object is returned as it is decoded; were it no object, its reader would raise.
  extract_stripped : Str → Result Extracted
  unfolding fenced_object decode_braced
  extract_stripped s = elim (fenced_object s) [
    | none ↦ decode_braced s []
    | some group ↦ elim (json.loads group) [
      | ok (some (object fields)) ↦ ok (fields, [])
      | ok (some another) ↦ err type_error
      | ok none ↦ decode_braced s (fenced_json_invalid ∷ [])
      | err e ↦ err e
    ]
  ]

  unfoldable pub extract_judge_json_object : Str → Result Extracted
  unfolding extract_stripped
  extract_judge_json_object raw = elim (strip raw) [
    | [] ↦ ok ([], empty_judge_response ∷ [])
    | c ∷ s ↦ extract_stripped (c ∷ s)
  ]
