-- ===== src/Workers/Ending.antt =====
-- The write of the expiry worker (backend/app/workers/expiration.py), step by step: it is committed, or
-- refused and rolled back.
use access_piliot.Prelude.{
  ℕ, ◌≡◌, refl, ◌∙◌, Bool, true, false, if◌then◌else◌, none, some, ◌==◌, arith, get_row-update_row,
  ==_iff,
}
use access_piliot.Store.{
  Session, Db, Assignment, AssignmentType, permanent, temporary, eligible, expired, ok, crashed,
  commit_unless, rollback, M, ◌>>=◌, pure, modify, record_audit, assignment_expired, ◌>>◌,
}
use access_piliot.Target.{assignment_by, update_assignment}
use access_piliot.Workers.{ended}

==_refl : (n : ℕ) → (n == n) ≡ true
==_refl n = (==_iff n n).1 refl

ended-id : (r : Assignment) → (ended r).id ≡ r.id
ended-id r = ground arith

abbrev pub is_lasting : AssignmentType → Bool
is_lasting permanent = true
is_lasting temporary = false

-- The row at the end of its time.
abbrev pub after_expiry : Assignment → Assignment
after_expiry a =
    if is_lasting a.assignment_type
    then record a { status = eligible; activated_at = none; expiration_time = none }
    else record a { status = expired }

pub ended_lem : (a : Assignment) → ended a ≡ after_expiry a
ended_lem a = by_type a.assignment_type refl
  where
    by_type : (t : AssignmentType) → a.assignment_type ≡ t → ended a ≡ after_expiry a
    by_type permanent e = rw e refl
    by_type temporary e = rw e refl

-- The write, its audit entry and the commit.
abbrev pub write_row : (Db → Bool) → Assignment → M ℕ
write_row refuses a = do
  update_assignment a.id ended
  record_audit assignment_expired (some a.id) (some a.provider_id) none true
  commit_unless refuses
  pure 1

abbrev pub skip_row : M ℕ
skip_row = rollback >> pure 0

pub write_row-commits :
    (refuses : Db → Bool) (a : Assignment) (t : Session)
    → ((db : Db) → refuses db ≡ false)
    → assignment_by a.id t.db ≡ some a
    → ((write_row refuses a t).0 ≡ ok 1)
      × (assignment_by a.id (write_row refuses a t).1.saved ≡ some (ended a))
unfolding update_assignment record_audit modify commit_unless ◌>>=◌ pure
write_row-commits refuses a t accepts found = rw accepts (
  refl,
  get_row-update_row (λ r. r.id) a.id a.id ended t.db.assignments ended-id
      ∙ rw (==_refl a.id, found) refl,
)

pub write_row-refused :
    (refuses : Db → Bool) (a : Assignment) (t : Session)
    → ((db : Db) → refuses db ≡ true)
    → ((write_row refuses a t).0 ≡ crashed) × ((write_row refuses a t).1.saved ≡ t.saved)
unfolding update_assignment record_audit modify commit_unless ◌>>=◌ pure
write_row-refused refuses a t refused = rw refused (refl, refl)

pub skip_row_lem :
    (u : Session)
    → ((skip_row u).0 ≡ ok 0)
      × ((skip_row u).1.saved ≡ u.saved)
      × ((skip_row u).1.db ≡ (skip_row u).1.saved)
unfolding rollback ◌>>=◌ pure
skip_row_lem u = (refl, refl, refl)
