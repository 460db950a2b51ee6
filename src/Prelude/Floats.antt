-- ===== src/Prelude/Floats.antt =====
-- What the program uses of Python's `float`. The type is a parameter of the model: the theorems
-- hold of every type with such operations, and name the laws that they need.
use context_lens.Prelude.{ℕ, ◌≡◌, Bool, true, false, if◌then◌else◌}

pub record Floats (F : Type 0) : Type 0 where
  -- `a < b`, false if one of them is NaN
  pub lt : F → F → Bool
  -- `a >= b`
  pub ge : F → F → Bool
  -- `a == b`
  pub eq : F → F → Bool
  pub add : F → F → F
  pub sub : F → F → F
  pub mul : F → F → F
  pub div : F → F → F
  -- `-a`
  pub neg : F → F
  -- `round(a, k)`
  pub round : F → ℕ → F
  pub of_nat : ℕ → F
  -- the literal whose digits are `n` with `k` of them behind the point
  pub lit : ℕ → ℕ → F

-- Python's `max(a, b)` and `min(a, b)`: the first argument, unless the second one is beyond it
module _ {F : Type 0} (fl : Floats F) where
  abbrev pub fmax : F → F → F
  fmax a b = if fl.lt a b then b else a

  abbrev pub fmin : F → F → F
  fmin a b = if fl.lt b a then b else a

-- What the comparison of two numbers is to do, which that of Python's numbers does except at NaN.
pub record IsRanking {F : Type 0} (fl : Floats F) : Type 0 where
  pub lt_asym : (a b : F) → fl.lt a b ≡ true → fl.lt b a ≡ false
  pub lt_trans : (a b c : F) → fl.lt b a ≡ false → fl.lt c b ≡ false → fl.lt c a ≡ false
  -- two numbers are equal if neither is below the other
  pub eq_iff :
      (a b : F) → fl.eq a b ≡ (if fl.lt a b then false else if fl.lt b a then false else true)
