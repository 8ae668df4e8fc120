-- ===== src/Workflows/Overdue.antt =====
-- The stages that are overdue, in their table (backend/app/services/workflows.py): one of them is
-- marked, and the others are as they were.
use access_piliot.Prelude.{
  ==_iff, ℕ, ◌+◌, ◌≡◌, refl, ap, Bool, true, not, ◌&&◌, some, List, [], ◌∷◌, ◌++◌, ◌==◌, any,
  select, length, update_row, Bool-cases, inl, inr, arith,
}
use access_piliot.Store.{StageInstance}
use access_piliot.Workflows.Stages.{is_overdue}

abbrev pub has_stage : ℕ → List StageInstance → Bool
has_stage key = any (λ r. r.id == key)

-- The primary keys of the stages.
abbrev pub stage_keys_distinct : List StageInstance → Bool
stage_keys_distinct [] = true
stage_keys_distinct (r ∷ rs) = not (has_stage r.id rs) && stage_keys_distinct rs

abbrev pub marked : ℕ → StageInstance → StageInstance
marked now r = record r { escalated_at = some now }

abbrev pub mark : ℕ → StageInstance → List StageInstance → List StageInstance
mark now d rows = update_row (λ r. r.id) d.id (marked now) rows

has_stage-mark :
    (now k : ℕ) (d : StageInstance) (rows : List StageInstance)
    → has_stage k (mark now d rows) ≡ has_stage k rows
unfolding update_row
has_stage-mark now k d [] = refl
has_stage-mark now k d (r ∷ rs) = ground (arith, has_stage-mark now k d rs)

pub distinct-mark :
    (now : ℕ) (d : StageInstance) (rows : List StageInstance)
    → stage_keys_distinct (mark now d rows) ≡ stage_keys_distinct rows
unfolding update_row
distinct-mark now d [] = refl
distinct-mark now d (r ∷ rs) = ground (arith, has_stage-mark now r.id d rs, distinct-mark now d rs)

-- A stage that the query found is in the table.
selected :
    (p : StageInstance → Bool) (left : List StageInstance) (d : StageInstance)
    (ds rows : List StageInstance)
    → select p rows ≡ left ++ d ∷ ds
    → has_stage d.id rows ≡ true
selected p [] d ds [] h = ground arith
selected p (l ∷ ls) d ds [] h = ground arith
selected p [] d ds (r ∷ rs) h = ground (arith, selected p [] d ds rs)
selected p (l ∷ ls) d ds (r ∷ rs) h =
    ground (arith, selected p ls d ds rs, selected p (l ∷ ls) d ds rs)

-- A stage that is overdue is no longer so when it is marked; the others are as they were.
pub select-mark :
    (now : ℕ) (left : List StageInstance) (d : StageInstance) (ds rows : List StageInstance)
    → stage_keys_distinct rows ≡ true
    → select (is_overdue now) rows ≡ left ++ d ∷ ds
    → select (is_overdue now) (mark now d rows) ≡ left ++ ds
unfolding update_row
select-mark now [] d ds [] distinct h = ground arith
select-mark now (l ∷ ls) d ds [] distinct h = ground arith
select-mark now [] d ds (r ∷ rs) distinct h = elim (Bool-cases (is_overdue now r)) [
  | inl due ↦ ground (arith, due)
  | inr fine ↦ ground (
    arith,
    fine,
    select-mark now [] d ds rs,
    selected (is_overdue now) [] d ds rs,
    ==_iff r.id d.id,
  )
]
select-mark now (l ∷ ls) d ds (r ∷ rs) distinct h = elim (Bool-cases (is_overdue now r)) [
  | inl due ↦ ground (
    arith,
    due,
    select-mark now ls d ds rs,
    selected (is_overdue now) ls d ds rs,
    ==_iff r.id d.id,
  )
  | inr fine ↦ ground (
    arith,
    fine,
    select-mark now (l ∷ ls) d ds rs,
    selected (is_overdue now) (l ∷ ls) d ds rs,
    ==_iff r.id d.id,
  )
]

pub length-middle :
    (left : List StageInstance) (d : StageInstance) (ds : List StageInstance)
    → length (left ++ d ∷ ds) ≡ 1 + length (left ++ ds)
length-middle [] d ds = ground arith
length-middle (l ∷ ls) d ds = ground (arith, length-middle ls d ds)

pub none_yet : (n : ℕ) → 0 + n ≡ n
none_yet n = omega arith

pub ++-middle :
    (left : List StageInstance) (d : StageInstance) (ds : List StageInstance)
    → left ++ d ∷ ds ≡ (left ++ d ∷ []) ++ ds
++-middle [] d ds = refl
++-middle (l ∷ ls) d ds = ap (λ rest. l ∷ rest) (++-middle ls d ds)
