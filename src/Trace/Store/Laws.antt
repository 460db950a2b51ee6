-- ===== src/Trace/Store/Laws.antt =====
-- Laws of the reads after the writes.
use context_lens.Prelude.{
  ℕ, ◌≡◌, ◌≢◌, refl, Option, none, some, List, [], ◌∷◌, ◌++◌, arith, ◌==◌, if◌then◌else◌, All,
}
use context_lens.Trace.Store.{get_row, put_row, rows_of, delete_row}

-- a row is put in the place of a row that is there
abbrev pub replaced : {A : Type 0} → A → Option A → Option A
replaced row none = none
replaced row (some _) = some row

module _ {A : Type 0} (key : A → ℕ) where
  pub get-put :
      (row : A) (id : ℕ) (xs : List A)
      → get_row key id (put_row key row xs)
        ≡ (if key row == id then replaced row (get_row key id xs) else get_row key id xs)
  unfolding get_row put_row
  get-put row id [] = ground arith
  get-put row id (x ∷ xs) = ground (arith, get-put row id xs)

  pub get-append :
      (id : ℕ) (xs : List A) (y : A)
      → get_row key id xs ≡ none
      → get_row key id (xs ++ y ∷ []) ≡ (if key y == id then some y else none)
  unfolding get_row
  get-append id [] y h = refl
  get-append id (x ∷ xs) y h = ground (arith, get-append id xs y)

  pub get-append_some :
      (id : ℕ) (xs : List A) (y x : A)
      → get_row key id xs ≡ some x
      → get_row key id (xs ++ y ∷ []) ≡ some x
  unfolding get_row
  get-append_some id [] y z h = cc
  get-append_some id (x ∷ xs) y z h = ground (arith, get-append_some id xs y z)

  pub key-get : (id : ℕ) (xs : List A) (x : A) → get_row key id xs ≡ some x → key x ≡ id
  unfolding get_row
  key-get id [] z h = cc
  key-get id (x ∷ xs) z h = ground (arith, key-get id xs z)

  pub get-delete :
      (id j : ℕ) (xs : List A)
      → get_row key j (delete_row key id xs) ≡ (if id == j then none else get_row key j xs)
  unfolding get_row delete_row
  get-delete id j [] = ground arith
  get-delete id j (x ∷ xs) = ground (arith, get-delete id j xs)

  pub rows_of-append :
      (id : ℕ) (xs ys : List A) → rows_of key id (xs ++ ys) ≡ rows_of key id xs ++ rows_of key id ys
  unfolding rows_of
  rows_of-append id [] ys = refl
  rows_of-append id (x ∷ xs) ys = ground (arith, rows_of-append id xs ys)

  pub rows_of-All : (id : ℕ) (xs : List A) → All (λ x. key x ≡ id) xs → rows_of key id xs ≡ xs
  unfolding rows_of
  rows_of-All id [] h = refl
  rows_of-All id (x ∷ xs) h = ground (arith, rows_of-All id xs h.1)

  pub rows_of-none :
      (id j : ℕ) (xs : List A) → id ≢ j → All (λ x. key x ≡ id) xs → rows_of key j xs ≡ []
  unfolding rows_of
  rows_of-none id j [] ne h = refl
  rows_of-none id j (x ∷ xs) ne h = ground (arith, rows_of-none id j xs ne h.1)
