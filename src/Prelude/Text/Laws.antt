-- ===== src/Prelude/Text/Laws.antt =====
-- Laws of `strip` and `find`.
use context_lens.Prelude.{
  ℕ, zero, suc, ◌+◌, ◌-◌, ◌≤◌, ◌<◌, ◌≡◌, refl, sym, ap, ◌∙◌, true, false, some, [], ◌∷◌, ◌++◌,
  arith, length, take, drop, get_elem?, All, length-drop, drop-drop, inl, inr, Bool-cases,
}
use context_lens.Prelude.Text.{
  Str, text_eq, is_space, lstrip, keep_last, rstrip, strip, starts_with, find_at, find,
}

-- Every character is white space.
abbrev pub Blank : Str → Type 0
Blank = All (λ c. is_space c ≡ true)

rstrip-keep_last : (c : ℕ) (s : Str) → rstrip (keep_last c s) ≡ keep_last c (rstrip s)
unfolding rstrip keep_last
rstrip-keep_last c [] = ground arith
rstrip-keep_last c (d ∷ s) = refl

rstrip-rstrip : (s : Str) → rstrip (rstrip s) ≡ rstrip s
unfolding rstrip
rstrip-rstrip [] = refl
rstrip-rstrip (c ∷ s) = rstrip-keep_last c (rstrip s) ∙ ap (keep_last c) (rstrip-rstrip s)

lstrip-lstrip : (s : Str) → lstrip (lstrip s) ≡ lstrip s
unfolding lstrip
lstrip-lstrip [] = refl
lstrip-lstrip (c ∷ s) = ground (arith, lstrip-lstrip s)

lstrip-keep_last : (c : ℕ) (s : Str) → is_space c ≡ false → lstrip (keep_last c s) ≡ keep_last c s
unfolding lstrip keep_last
lstrip-keep_last c [] h = ground arith
lstrip-keep_last c (d ∷ s) h = ground arith

lstrip-keep_last_space : (c : ℕ) (s : Str) → is_space c ≡ true → lstrip (keep_last c s) ≡ lstrip s
unfolding lstrip keep_last
lstrip-keep_last_space c [] h = ground arith
lstrip-keep_last_space c (d ∷ s) h = ground arith

lstrip-rstrip : (s : Str) → lstrip (rstrip s) ≡ rstrip (lstrip s)
unfolding lstrip rstrip
lstrip-rstrip [] = refl
lstrip-rstrip (c ∷ s) =
    ground
      (arith, lstrip-keep_last c (rstrip s), lstrip-keep_last_space c (rstrip s), lstrip-rstrip s)

-- Stripping twice is stripping once.
pub strip-strip : (s : Str) → strip (strip s) ≡ strip s
unfolding strip
strip-strip s = rw (lstrip-rstrip (lstrip s), lstrip-lstrip s, rstrip-rstrip (lstrip s))

length-keep_last : (c : ℕ) (s : Str) → length (keep_last c s) ≤ suc (length s)
unfolding keep_last
length-keep_last c [] = ground arith
length-keep_last c (d ∷ s) = omega arith

length-rstrip : (s : Str) → length (rstrip s) ≤ length s
unfolding rstrip
length-rstrip [] = omega arith
length-rstrip (c ∷ s) = omega (arith, length-rstrip s, length-keep_last c (rstrip s))

length-lstrip : (s : Str) → length (lstrip s) ≤ length s
unfolding lstrip
length-lstrip [] = omega arith
length-lstrip (c ∷ s) = ground (arith, length-lstrip s)

pub length-strip : (s : Str) → length (strip s) ≤ length s
unfolding strip
length-strip s = omega (arith, length-lstrip s, length-rstrip (lstrip s))

rstrip-Blank : (s : Str) → rstrip s ≡ [] → Blank s
unfolding rstrip keep_last
rstrip-Blank [] h = tt
rstrip-Blank (c ∷ s) h = ground (arith, rstrip-Blank s)

lstrip-Blank : (s : Str) → Blank (lstrip s) → Blank s
unfolding lstrip
lstrip-Blank [] h = tt
lstrip-Blank (c ∷ s) h = ground (arith, lstrip-Blank s)

-- What strips to nothing is white space throughout.
pub strip-Blank : (s : Str) → strip s ≡ [] → Blank s
unfolding strip
strip-Blank s h = lstrip-Blank s (rstrip-Blank (lstrip s) h)

pub get_elem?-Blank :
    (s : Str) (i : ℕ) {c : ℕ} → Blank s → get_elem? s i ≡ some c → is_space c ≡ true
get_elem?-Blank [] i h e = cc
get_elem?-Blank (d ∷ s) zero h e = ground arith
get_elem?-Blank (d ∷ s) (suc i) h e = get_elem?-Blank s i h.1 e

starts_with-take : (p s : Str) → starts_with p s ≡ true → take (length p) s ≡ p
unfolding starts_with
starts_with-take [] s h = refl
starts_with-take (c ∷ p) [] h = cc
starts_with-take (c ∷ p) (d ∷ s) h = ground (arith, starts_with-take p s)

starts_with-length : (p s : Str) → starts_with p s ≡ true → length p ≤ length s
unfolding starts_with
starts_with-length [] s h = omega arith
starts_with-length (c ∷ p) [] h = cc
starts_with-length (c ∷ p) (d ∷ s) h = ground (arith, starts_with-length p s)

-- `sub` stands in `s` at the index `i`.
abbrev pub StandsAt : Str → Str → ℕ → Type 0
StandsAt sub s i = (take (length sub) (drop i s) ≡ sub) × (i + length sub ≤ length s)

starts_with-StandsAt : (sub s : Str) (k : ℕ) → starts_with sub s ≡ true → k ≡ 0 → StandsAt sub s k
starts_with-StandsAt sub s k h e =
    rw e (starts_with-take sub s h, omega (arith, starts_with-length sub s h))

StandsAt-cons : (sub s : Str) (c k j : ℕ) → k ≡ suc j → StandsAt sub s j → StandsAt sub (c ∷ s) k
StandsAt-cons sub s c k j e h = rw e (h.0, omega (arith, h.1))

find_at-StandsAt :
    (sub s : Str) (at i : ℕ) → find_at sub s at ≡ some i → (at ≤ i) × StandsAt sub s (i - at)
unfolding find_at
find_at-StandsAt sub [] at i h = elim (Bool-cases (starts_with sub [])) [
  | inl t ↦ (ground arith, starts_with-StandsAt sub [] (i - at) t (ground arith))
  | inr f ↦ absurd (ground arith)
]
find_at-StandsAt sub (c ∷ s) at i h = elim (Bool-cases (starts_with sub (c ∷ s))) [
  | inl t ↦ (ground arith, starts_with-StandsAt sub (c ∷ s) (i - at) t (ground arith))
  | inr f ↦
      let (le, stands) = find_at-StandsAt sub s (at + 1) i (ground arith) in
      (omega arith, StandsAt-cons sub s c (i - at) (i - (at + 1)) (omega arith) stands)
]

-- A text that is found stands where it is said to be, not before the start of the search.
pub find-StandsAt :
    (s sub : Str) (start i : ℕ)
    → find s sub start ≡ some i
    → 0 < length sub
    → (start ≤ i) × StandsAt sub s i
unfolding find
find-StandsAt s sub start i h pos =
    let (le, stands) = find_at-StandsAt sub (drop start s) start i h in
    let e : start + (i - start) ≡ i = omega arith in
    let taken : take (length sub) (drop i s) ≡ sub =
      ap (λ (k : ℕ). take (length sub) (drop k s)) (sym e)
      ∙ ap (take (length sub)) (sym (drop-drop start (i - start) s))
      ∙ stands.0 in
    (le, (taken, omega (arith, length-drop start s)))

rstrip-concat_space : (s : Str) (c : ℕ) → is_space c ≡ true → rstrip (s ++ c ∷ []) ≡ rstrip s
unfolding rstrip keep_last
rstrip-concat_space [] c h = ground arith
rstrip-concat_space (d ∷ s) c h = ap (keep_last d) (rstrip-concat_space s c h)

-- White space at the end makes no difference.
pub strip-concat_space : (s : Str) (c : ℕ) → is_space c ≡ true → strip (s ++ c ∷ []) ≡ strip s
unfolding strip
strip-concat_space s c h =
    sym (lstrip-rstrip (s ++ c ∷ [])) ∙ ap lstrip (rstrip-concat_space s c h) ∙ lstrip-rstrip s

pub text_eq-eq : (a b : Str) → text_eq a b ≡ true → a ≡ b
unfolding text_eq
text_eq-eq [] [] h = refl
text_eq-eq [] (d ∷ b) h = cc
text_eq-eq (c ∷ a) [] h = cc
text_eq-eq (c ∷ a) (d ∷ b) h = ground (arith, text_eq-eq a b)

pub text_eq_refl : (a : Str) → text_eq a a ≡ true
unfolding text_eq
text_eq_refl [] = refl
text_eq_refl (c ∷ a) = ground (arith, text_eq_refl a)
