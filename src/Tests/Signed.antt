-- ===== src/Tests/Signed.antt =====
-- Signed hundredths in place of floats, for tests in which a minus matters.
use context_lens.Prelude.{
  ℕ, zero, suc, ◌+◌, ◌-◌, ◌*◌, ◌/◌, ◌≡◌, refl, Bool, true, false, not, leb, if◌then◌else◌, arith,
}
use context_lens.Prelude.Floats.{Floats, IsRanking}
use context_lens.Chunker.{ℤ, pos, negsuc, ltb_ℤ}
use context_lens.Tests.Data.{hundredths}

abbrev magnitude : ℤ → ℕ
magnitude (pos n) = n
magnitude (negsuc n) = n + 1

abbrev is_negative : ℤ → Bool
is_negative (pos n) = false
is_negative (negsuc n) = true

abbrev signed : Bool → ℕ → ℤ
signed negative zero = pos 0
signed true (suc n) = negsuc n
signed false (suc n) = pos (suc n)

abbrev minus : ℤ → ℤ
minus a = signed (not (is_negative a)) (magnitude a)

abbrev difference : ℕ → ℕ → ℤ
difference a b = if leb b a then signed false (a - b) else signed true (b - a)

abbrev plus : ℤ → ℤ → ℤ
plus (pos a) (pos b) = pos (a + b)
plus (pos a) (negsuc b) = difference a (b + 1)
plus (negsuc a) (pos b) = difference b (a + 1)
plus (negsuc a) (negsuc b) = negsuc (a + b + 1)

abbrev opposite : ℤ → ℤ → Bool
opposite a b = if is_negative a then not (is_negative b) else is_negative b

abbrev pub signed_floats : Floats ℤ
signed_floats = record {
  lt = ltb_ℤ;
  ge = λ a b. not (ltb_ℤ a b);
  eq = λ a b. if ltb_ℤ a b then false else if ltb_ℤ b a then false else true;
  add = plus;
  sub = λ a b. plus a (minus b);
  mul = λ a b. signed (opposite a b) ((magnitude a * magnitude b) / 100);
  div = λ a b. signed (opposite a b) ((magnitude a * 100) / magnitude b);
  neg = minus;
  round = λ a k. a;
  of_nat = λ n. pos (n * 100);
  lit = λ n k. pos (hundredths n k);
}

asym : (a b : ℤ) → ltb_ℤ a b ≡ true → ltb_ℤ b a ≡ false
asym (pos a) (pos b) h = ground arith
asym (pos a) (negsuc b) h = absurd (ground arith)
asym (negsuc a) (pos b) h = refl
asym (negsuc a) (negsuc b) h = ground arith

trans : (a b c : ℤ) → ltb_ℤ b a ≡ false → ltb_ℤ c b ≡ false → ltb_ℤ c a ≡ false
trans a b c h k = ground arith

pub signed-IsRanking : IsRanking signed_floats
signed-IsRanking = record { lt_asym = asym; lt_trans = trans; eq_iff = λ a b. refl }

pub signed-Reverses : (a b : ℤ) → ltb_ℤ (minus a) (minus b) ≡ ltb_ℤ b a
signed-Reverses (pos zero) (pos zero) = ground arith
signed-Reverses (pos zero) (pos (suc b)) = ground arith
signed-Reverses (pos (suc a)) (pos zero) = ground arith
signed-Reverses (pos (suc a)) (pos (suc b)) = ground arith
signed-Reverses (pos zero) (negsuc b) = ground arith
signed-Reverses (pos (suc a)) (negsuc b) = ground arith
signed-Reverses (negsuc a) (pos zero) = ground arith
signed-Reverses (negsuc a) (pos (suc b)) = ground arith
signed-Reverses (negsuc a) (negsuc b) = ground arith
