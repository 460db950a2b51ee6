-- ===== src/Prelude/Counting.antt =====
-- Lists filtered, counted and sorted by Boolean tests: Python's `sort` with a key, and the sets that
-- the program keeps as a `set[int]`.
use context_lens.Prelude.{
  ℕ, ◌+◌, ◌≡◌, refl, Bool, true, false, List, [], ◌∷◌, ◌++◌, arith, if◌then◌else◌, ◌==◌, All,
  Bool-cases, inl, inr,
}

module _ {ℓ} {A : Type ℓ} where
  -- `[x for x in xs if p(x)]`
  abbrev pub filter_if : (A → Bool) → List A → List A
  filter_if p [] = []
  filter_if p (x ∷ xs) = if p x then x ∷ filter_if p xs else filter_if p xs

  abbrev pub count_if : (A → Bool) → List A → ℕ
  count_if p [] = 0
  count_if p (x ∷ xs) = (if p x then 1 else 0) + count_if p xs

  pub count_if-append :
      (p : A → Bool) (xs ys : List A) → count_if p (xs ++ ys) ≡ count_if p xs + count_if p ys
  count_if-append p [] ys = omega arith
  count_if-append p (x ∷ xs) ys = omega (arith, count_if-append p xs ys)

  -- `insert` puts `x` in front of what is not before it, so that equal items keep their order.
  pub insert_by : (A → A → Bool) → A → List A → List A
  insert_by before x [] = x ∷ []
  insert_by before x (y ∷ ys) = if before y x then y ∷ insert_by before x ys else x ∷ y ∷ ys

  -- `sorted(xs)`, where `before` compares the keys: the sort is stable.
  unfoldable pub sort_by : (A → A → Bool) → List A → List A
  unfolding insert_by
  sort_by before [] = []
  sort_by before (x ∷ xs) = insert_by before x (sort_by before xs)

  count_if-insert_by :
      (before : A → A → Bool) (p : A → Bool) (x : A) (xs : List A)
      → count_if p (insert_by before x xs) ≡ count_if p (x ∷ xs)
  unfolding insert_by
  count_if-insert_by before p x [] = refl
  count_if-insert_by before p x (y ∷ ys) = elim (Bool-cases (before y x)) [
    | inl e ↦ rw e (omega (arith, count_if-insert_by before p x ys))
    | inr e ↦ rw e
  ]

  -- The sort keeps every item, as often.
  pub count_if-sort_by :
      (before : A → A → Bool) (p : A → Bool) (xs : List A)
      → count_if p (sort_by before xs) ≡ count_if p xs
  unfolding sort_by
  count_if-sort_by before p [] = refl
  count_if-sort_by before p (x ∷ xs) =
      omega (arith, count_if-insert_by before p x (sort_by before xs), count_if-sort_by before p xs)

module _ {ℓ κ} {A : Type ℓ} (P : A → Type κ) (before : A → A → Bool) where
  All-inserted : (x : A) (xs : List A) → P x → All P xs → All P (insert_by before x xs)
  unfolding insert_by
  All-inserted x [] h hs = (h, tt)
  All-inserted x (y ∷ ys) h (hy, hs) = elim (Bool-cases (before y x)) [
    | inl e ↦ rw e (hy, All-inserted x ys h hs)
    | inr e ↦ rw e (h, (hy, hs))
  ]

  -- What every item has, every item of the sorted list has.
  pub All-sort_by : (xs : List A) → All P xs → All P (sort_by before xs)
  unfolding sort_by
  All-sort_by [] h = tt
  All-sort_by (x ∷ xs) (h, hs) = All-inserted x (sort_by before xs) h (All-sort_by xs hs)

module _ {ℓ} {A : Type ℓ} (before : A → A → Bool) where
  -- No item stands behind one that it should precede.
  abbrev pub IsSorted : List A → Type ℓ
  IsSorted [] = Unit
  IsSorted (x ∷ xs) = All (λ (y : A). before y x ≡ false) xs × IsSorted xs

  -- what a comparison of keys is to do
  pub record IsOrder : Type ℓ where
    pub asym : (a b : A) → before a b ≡ true → before b a ≡ false
    pub trans : (a b c : A) → before b a ≡ false → before c b ≡ false → before c a ≡ false

  module _ (order : IsOrder) where
    open order use {asym, trans}

    All-insert_by :
        (z x : A) (xs : List A)
        → before x z ≡ false
        → All (λ (y : A). before y z ≡ false) xs
        → All (λ (y : A). before y z ≡ false) (insert_by before x xs)
    unfolding insert_by
    All-insert_by z x [] h hs = (h, tt)
    All-insert_by z x (y ∷ ys) h (hy, hs) = elim (Bool-cases (before y x)) [
      | inl e ↦ rw e (hy, All-insert_by z x ys h hs)
      | inr e ↦ rw e (h, (hy, hs))
    ]

    All-trans :
        (x y : A) (ys : List A)
        → before y x ≡ false
        → All (λ (w : A). before w y ≡ false) ys
        → All (λ (w : A). before w x ≡ false) ys
    All-trans x y [] h hs = tt
    All-trans x y (w ∷ ws) h (hw, hs) = (trans x y w h hw, All-trans x y ws h hs)

    insert_by-IsSorted : (x : A) (xs : List A) → IsSorted xs → IsSorted (insert_by before x xs)
    unfolding insert_by
    insert_by-IsSorted x [] sorted = (tt, tt)
    insert_by-IsSorted x (y ∷ ys) (hy, hs) = elim (Bool-cases (before y x)) [
      | inl e ↦ rw e (All-insert_by y x ys (asym y x e) hy, insert_by-IsSorted x ys hs)
      | inr e ↦ rw e ((e, All-trans x y ys e hy), (hy, hs))
    ]

    pub sort_by-IsSorted : (xs : List A) → IsSorted (sort_by before xs)
    unfolding sort_by
    sort_by-IsSorted [] = tt
    sort_by-IsSorted (x ∷ xs) = insert_by-IsSorted x (sort_by before xs) (sort_by-IsSorted xs)

-- `x in seen`, for a set of numbers
abbrev pub contains : List ℕ → ℕ → Bool
contains [] n = false
contains (x ∷ xs) n = if x == n then true else contains xs n
