-- ===== src/Packages/Batches.antt =====
-- The rows of package assignments, grouped into batches (`_group_batch_rows` of
-- backend/app/services/packages.py).
use mathlib.Core.Option
use mathlib.Core.List.{append_assoc, append-nil}
use access_piliot.Prelude.{
  ℕ, ==_iff, ◌≢◌, ◌≡◌, refl, sym, ap, ◌∙◌, Bool, true, false, inl, inr, Bool-cases, Option, none,
  some, List, [], ◌∷◌, ◌++◌, ◌==◌, if◌then◌else◌, map, select, get_row, update_row,
  get_row-update_row, arith,
}
use access_piliot.Store.{Text}

-- One row of the query.
pub record BatchRow : Type 0 where
  pub package_assignment_id : ℕ
  pub package_id : ℕ
  pub user_id : ℕ
  pub assignment_id : ℕ
  pub package_name : Text

-- `PackageAssignmentBatch`.
pub record Batch : Type 0 where
  pub package_assignment_id : ℕ
  pub package_id : ℕ
  pub package_name : Text
  pub user_id : ℕ
  pub assignment_ids : List ℕ

abbrev new_batch : BatchRow → Batch
new_batch r = record {
  package_assignment_id = r.package_assignment_id;
  package_id = r.package_id;
  package_name = r.package_name;
  user_id = r.user_id;
  assignment_ids = r.assignment_id ∷ [];
}

abbrev with_assignment : ℕ → Batch → Batch
with_assignment a b = record b { assignment_ids = b.assignment_ids ++ a ∷ [] }

abbrev pub batch_by : ℕ → List Batch → Option Batch
batch_by key batches = get_row (λ b. b.package_assignment_id) key batches

-- `grouped` keeps its keys in the order in which they came.
unfoldable pub add_found : BatchRow → List Batch → Option Batch → List Batch
add_found r batches none = batches ++ new_batch r ∷ []
add_found r batches (some b) =
    update_row (λ b. b.package_assignment_id) r.package_assignment_id
      (with_assignment r.assignment_id) batches

unfoldable pub add_rows : List Batch → List BatchRow → List Batch
unfolding add_found
add_rows batches [] = batches
add_rows batches (r ∷ rs) =
    add_rows (add_found r batches (batch_by r.package_assignment_id batches)) rs

abbrev pub group_batch_rows : List BatchRow → List Batch
group_batch_rows rows = add_rows [] rows

-- The assignments of a batch; none, where there is no such batch.
abbrev ids_of : Option Batch → List ℕ
ids_of none = []
ids_of (some b) = b.assignment_ids

abbrev pub batch_ids : ℕ → List Batch → List ℕ
batch_ids key batches = ids_of (batch_by key batches)

-- The assignments that the rows name for a batch, in order.
abbrev pub row_ids : ℕ → List BatchRow → List ℕ
row_ids key rows = map (λ r. r.assignment_id) (select (λ r. r.package_assignment_id == key) rows)

batch_by-append :
    (key : ℕ) (batches : List Batch) (b : Batch)
    → batch_by key (batches ++ b ∷ []) ≡ elim (batch_by key batches) [
      | none ↦ if b.package_assignment_id == key then some b else none
      | some c ↦ some c
    ]
unfolding get_row
batch_by-append key [] b = refl
batch_by-append key (c ∷ cs) b = ground (arith, batch_by-append key cs b)

none_here :
    (r : BatchRow) (o : Option Batch) (b : Bool)
    → (b ≡ true → o ≡ none)
    → ids_of (elim o [ none ↦ if b then some (new_batch r) else none | some c ↦ some c ])
      ≡ ids_of o ++ (if b then r.assignment_id ∷ [] else [])
none_here r none true free = refl
none_here r none false free = refl
none_here r (some c) true free = ground (arith, free refl)
none_here r (some c) false free = sym (append-nil c.assignment_ids)

one_here :
    (r : BatchRow) (o : Option Batch) (b : Bool)
    → (b ≡ true → o ≢ none)
    → ids_of (if b then Option.map (with_assignment r.assignment_id) o else o)
      ≡ ids_of o ++ (if b then r.assignment_id ∷ [] else [])
one_here r none true there = absurd (there refl refl)
one_here r none false there = refl
one_here r (some c) true there = refl
one_here r (some c) false there = sym (append-nil c.assignment_ids)

batch_ids-add_found :
    (key : ℕ) (r : BatchRow) (batches : List Batch)
    → batch_ids key (add_found r batches (batch_by r.package_assignment_id batches))
      ≡ batch_ids key batches
        ++ (if r.package_assignment_id == key then r.assignment_id ∷ [] else [])
unfolding add_found
batch_ids-add_found key r batches = split (batch_by r.package_assignment_id batches) refl
  where
    here :
        (r.package_assignment_id == key) ≡ true
        → batch_by r.package_assignment_id batches ≡ batch_by key batches
    here same = ap (λ k. batch_by k batches) ((==_iff r.package_assignment_id key).0 same)

    found :
        (b : Batch)
        → batch_by r.package_assignment_id batches ≡ some b
        → (r.package_assignment_id == key) ≡ true
        → batch_by key batches ≢ none
    found b there same empty = ground (arith, here same, empty, there)

    split :
        (o : Option Batch)
        → batch_by r.package_assignment_id batches ≡ o
        → batch_ids key (add_found r batches o)
          ≡ batch_ids key batches
            ++ (if r.package_assignment_id == key then r.assignment_id ∷ [] else [])
    split none free =
        ap ids_of (batch_by-append key batches (new_batch r))
        ∙ none_here r (batch_by key batches) _ (λ same. sym (here same) ∙ free)
    split (some b) there =
        ap ids_of (
          get_row-update_row (λ (b : Batch). b.package_assignment_id) r.package_assignment_id key
            (with_assignment r.assignment_id) batches (λ b. refl))
        ∙ one_here r (batch_by key batches) _ (found b there)

row_ids-cons :
    (key : ℕ) (r : BatchRow) (rs : List BatchRow)
    → (if r.package_assignment_id == key then r.assignment_id ∷ [] else []) ++ row_ids key rs
      ≡ row_ids key (r ∷ rs)
row_ids-cons key r rs = elim (Bool-cases (r.package_assignment_id == key)) [
  | inl same ↦ ground (arith, same)
  | inr other ↦ ground (arith, other)
]

batch_ids-add_rows :
    (key : ℕ) (batches : List Batch) (rows : List BatchRow)
    → batch_ids key (add_rows batches rows) ≡ batch_ids key batches ++ row_ids key rows
unfolding add_rows
batch_ids-add_rows key batches [] = sym (append-nil (batch_ids key batches))
batch_ids-add_rows key batches (r ∷ rs) =
    let here = if r.package_assignment_id == key then r.assignment_id ∷ [] else [] in
    batch_ids-add_rows key (add_found r batches (batch_by r.package_assignment_id batches)) rs
    ∙ ap (λ ids. ids ++ row_ids key rs) (batch_ids-add_found key r batches)
    ∙ append_assoc (batch_ids key batches) here (row_ids key rs)
    ∙ ap (λ ids. batch_ids key batches ++ ids) (row_ids-cons key r rs)

-- Grouping loses nothing and keeps the order: the assignments of a batch are those that the rows name
-- for it, and a batch that no row names is empty.
pub group_batch_rows-batch_ids :
    (key : ℕ) (rows : List BatchRow) → batch_ids key (group_batch_rows rows) ≡ row_ids key rows
unfolding get_row
group_batch_rows-batch_ids key rows = batch_ids-add_rows key [] rows
