-- ===== src/Registry/References.antt =====
-- References between two tables, and the writes that keep them.
use context_lens.Prelude.{
  ℕ, ◌≡◌, refl, sym, ◌∙◌, true, false, some, List, [], ◌∷◌, ◌++◌, arith, ◌==◌, Option-cases,
  Bool-cases, inl, inr,
}
use context_lens.Trace.Store.{get_row, put_row, rows_of, delete_row}
use context_lens.Trace.Store.Laws.{get-put, get-append, get-append_some, get-delete}
use context_lens.Trace.Write.{is_none, is_nil}

module _ {A B : Type 0} (key : A → ℕ) (foreign : A → ℕ) (parent_key : B → ℕ) where
  -- every row that can be read refers to a row that can be read
  abbrev pub IsReferenced : List A → List B → Type 0
  IsReferenced xs ys =
      (id : ℕ) (x : A)
      → get_row key id xs ≡ some x
      → is_none (get_row parent_key (foreign x) ys) ≡ false

  pub append-IsReferenced :
      (xs : List A) (ys : List B) (new : A)
      → is_none (get_row parent_key (foreign new) ys) ≡ false
      → IsReferenced xs ys
      → IsReferenced (xs ++ new ∷ []) ys
  append-IsReferenced xs ys new there old id x h = elim (Option-cases (get_row key id xs)) [
    | inr (z, e) ↦ old id x (e ∙ sym (get-append_some key id xs new z e) ∙ h)
    | inl e ↦ ground (arith, get-append key id xs new e)
  ]

  pub append_parent-IsReferenced :
      (xs : List A) (ys : List B) (new : B) → IsReferenced xs ys → IsReferenced xs (ys ++ new ∷ [])
  append_parent-IsReferenced xs ys new old id x h =
      elim (Option-cases (get_row parent_key (foreign x) ys)) [
        | inr (z, e) ↦ rw (get-append_some parent_key (foreign x) ys new z e) refl
        | inl e ↦ absurd (let there = old id x h in ground arith)
      ]

  pub put-IsReferenced :
      (xs : List A) (ys : List B) (new : A)
      → is_none (get_row parent_key (foreign new) ys) ≡ false
      → IsReferenced xs ys
      → IsReferenced (put_row key new xs) ys
  put-IsReferenced xs ys new there old id x h = elim (Bool-cases (key new == id)) [
    | inr c ↦ old id x (ground (arith, get-put key new id xs))
    | inl c ↦ elim (Option-cases (get_row key id xs)) [
      | inl e ↦ absurd (ground (arith, get-put key new id xs))
      | inr (z, e) ↦ ground (arith, get-put key new id xs)
    ]
  ]

  pub put_parent-IsReferenced :
      (xs : List A) (ys : List B) (new : B)
      → IsReferenced xs ys
      → IsReferenced xs (put_row parent_key new ys)
  put_parent-IsReferenced xs ys new old id x h =
      let there = old id x h in
      elim (Option-cases (get_row parent_key (foreign x) ys)) [
        | inl e ↦ absurd (ground arith)
        | inr (z, e) ↦ ground (arith, get-put parent_key new (foreign x) ys)
      ]

  pub delete-IsReferenced :
      (xs : List A) (ys : List B) (gone : ℕ)
      → IsReferenced xs ys
      → IsReferenced (delete_row key gone xs) ys
  delete-IsReferenced xs ys gone old id x h = old id x (ground (arith, get-delete key gone id xs))

  foreign-used :
      (xs : List A) (id gone : ℕ) (x : A)
      → get_row key id xs ≡ some x
      → is_nil (rows_of foreign gone xs) ≡ true
      → gone == foreign x ≡ false
  unfolding get_row rows_of
  foreign-used [] id gone x h unused = cc
  foreign-used (y ∷ xs) id gone x h unused = ground (arith, foreign-used xs id gone x)

  pub delete_parent-IsReferenced :
      (xs : List A) (ys : List B) (gone : ℕ)
      → is_nil (rows_of foreign gone xs) ≡ true
      → IsReferenced xs ys
      → IsReferenced xs (delete_row parent_key gone ys)
  delete_parent-IsReferenced xs ys gone unused old id x h =
      let there = old id x h in
      ground (arith, get-delete parent_key gone (foreign x) ys, foreign-used xs id gone x h unused)
