-- ===== src/Lifecycle/Keys.antt =====
-- The primary key of `access_assignments` (backend/app/models/models.py): no two rows share one, and
-- so a row that a query found is the row with its key.
use access_piliot.Prelude.{
  ℕ, ◌≡◌, refl, Bool, true, not, ◌&&◌, some, List, [], ◌∷◌, ◌==◌, any, first, get_row, update_row,
  arith, inl, inr, Bool-cases,
}
use access_piliot.Store.{Assignment}

abbrev pub has_key : ℕ → List Assignment → Bool
has_key k = any (λ r. r.id == k)

abbrev pub are_distinct : List Assignment → Bool
are_distinct [] = true
are_distinct (r ∷ rs) = not (has_key r.id rs) && are_distinct rs

module _ (key : ℕ) (f : Assignment → Assignment) (keeps : (r : Assignment) → (f r).id ≡ r.id) where
  has_key-update_row :
      (k : ℕ) (rs : List Assignment) → has_key k (update_row (λ r. r.id) key f rs) ≡ has_key k rs
  unfolding update_row
  has_key-update_row k [] = refl
  has_key-update_row k (r ∷ rs) = ground (arith, keeps r, has_key-update_row k rs)

  pub are_distinct-update_row :
      (rs : List Assignment)
      → are_distinct rs ≡ true
      → are_distinct (update_row (λ r. r.id) key f rs) ≡ true
  unfolding update_row
  are_distinct-update_row [] h = refl
  are_distinct-update_row (r ∷ rs) h =
      ground (arith, keeps r, has_key-update_row r.id rs, are_distinct-update_row rs)

module _ (p : Assignment → Bool) where
  first-has_key :
      (rs : List Assignment) (a : Assignment) → first p rs ≡ some a → has_key a.id rs ≡ true
  first-has_key [] a h = ground arith
  first-has_key (r ∷ rs) a h = ground (arith, first-has_key rs a)

  pub first-holds : (rs : List Assignment) (a : Assignment) → first p rs ≡ some a → p a ≡ true
  first-holds [] a h = ground arith
  first-holds (r ∷ rs) a h = elim (Bool-cases (p r)) [
    | inl met ↦ ground (arith, met)
    | inr other ↦ first-holds rs a (ground (arith, other))
  ]

  pub first-get_row :
      (rs : List Assignment) (a : Assignment)
      → are_distinct rs ≡ true
      → first p rs ≡ some a
      → get_row (λ r. r.id) a.id rs ≡ some a
  unfolding get_row
  first-get_row [] a d h = ground arith
  first-get_row (r ∷ rs) a d h = elim (Bool-cases (p r)) [
    | inl met ↦ ground (arith, met)
    | inr other ↦ ground (arith, other, first-has_key rs a, first-get_row rs a)
  ]
