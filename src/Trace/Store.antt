-- ===== src/Trace/Store.antt =====
-- Tables as lists of rows: the session's reads and writes, over a key column.
pub mod Laws
use context_lens.Prelude.{
  ℕ, Bool, Option, none, some, List, [], ◌∷◌, ◌++◌, Result, ok, err, other, Exn, ◌==◌,
  if◌then◌else◌,
}

module _ {A : Type 0} (key : A → ℕ) where
  -- `session.get(Row, id)`
  unfoldable pub get_row : ℕ → List A → Option A
  get_row id [] = none
  get_row id (x ∷ xs) = let later = get_row id xs in if key x == id then some x else later

  -- the row of this key takes the new values
  unfoldable pub put_row : A → List A → List A
  put_row row [] = []
  put_row row (x ∷ xs) = let rest = put_row row xs in (if key x == key row then row else x) ∷ rest

  -- `select(Row).where(Row.key == id)`
  unfoldable pub rows_of : ℕ → List A → List A
  rows_of id [] = []
  rows_of id (x ∷ xs) = let rest = rows_of id xs in if key x == id then x ∷ rest else rest

  -- `session.delete`
  unfoldable pub delete_row : ℕ → List A → List A
  delete_row id [] = []
  delete_row id (x ∷ xs) = let rest = delete_row id xs in if key x == id then rest else x ∷ rest

-- `scalar_one_or_none()`, which raises on several rows
abbrev pub scalar_one_or_none {ℓ} : {A : Type ℓ} → List A → Result (Option A)
scalar_one_or_none [] = ok none
scalar_one_or_none (x ∷ []) = ok (some x)
scalar_one_or_none (x ∷ y ∷ xs) = err other

-- `if row is None: raise e`
abbrev pub or_raise {ℓ} : {A : Type ℓ} → Option A → Exn → Result A
or_raise none e = err e
or_raise (some a) e = ok a
