-- ===== src/Workers.antt =====
-- The background workers of assignments: scheduled activation and expiry
-- (backend/app/workers/activation.py, backend/app/workers/expiration.py), and when a directory is due
-- for its next synchronisation (backend/app/workers/scheduler.py). Each row is handled in a session of
-- its own, which is closed after it. An exception ends the whole sweep, but for one in the write and
-- commit of a row whose access was removed by the expiry worker: that row is skipped.
pub mod Schedule
pub mod Ending
use access_piliot.Prelude.{
  ℕ, zero, suc, ◌+◌, ◌*◌, Bool, true, false, not, ◌&&◌, Option, none, some, List, [], ◌∷◌, ◌==◌,
  if◌then◌else◌, leb, is_some, select,
}
use access_piliot.Store.{
  Db, Assignment, Provider, AssignmentType, permanent, temporary, Status, eligible, expired,
  scheduled, active, pending_approval, AuditAction, rejected, revoked, assignment_activated,
  assignment_expired, Session, Result, ok, raised, crashed, M, pure, gets, commit, commit_unless,
  rollback, try_any, close, ◌>>=◌, ◌>>◌, continue, record_audit,
}
use access_piliot.Target.{assignment_by, update_assignment}
use access_piliot.Grants.{revoke_provider_access, grant_provider_access_for_assignment, is_active}
use access_piliot.Sod.{check_sod_conflicts, non_empty}
use access_piliot.Assignments.Mappings.{is_eligible}

abbrev pub has_passed : Option ℕ → ℕ → Bool
has_passed none now = false
has_passed (some moment) now = leb moment now

abbrev pub is_scheduled : Status → Bool
is_scheduled scheduled = true
is_scheduled eligible = false
is_scheduled pending_approval = false
is_scheduled active = false
is_scheduled rejected = false
is_scheduled revoked = false
is_scheduled expired = false

abbrev starts_by : Option ℕ → ℕ → Bool
starts_by none now = true
starts_by (some moment) now = leb moment now

abbrev pub is_due : Assignment → ℕ → Bool
is_due a now = is_scheduled a.status && starts_by a.start_time now

abbrev pub is_expired : Assignment → ℕ → Bool
is_expired a now = is_active a.status && has_passed a.expiration_time now

abbrev pub is_eligibility_expired : Assignment → ℕ → Bool
is_eligibility_expired a now = is_eligible a.status && has_passed a.expiration_time now

-- One row of a sweep: read again in a new session, and skipped if it is no longer wanted.
abbrev pub handle : (Assignment → ℕ → Bool) → (Assignment → M ℕ) → Option Assignment → M ℕ
handle wanted body none = pure 0
handle wanted body (some a) = do now ← gets (λ s. s.now); if wanted a now then body a else pure 0

abbrev pub handle_key : (Assignment → ℕ → Bool) → (Assignment → M ℕ) → ℕ → M ℕ
handle_key wanted body key = do found ← gets (λ s. assignment_by key s.db); handle wanted body found

-- The session of the row is closed, whatever came of it.
abbrev pub in_own_session : M ℕ → M ℕ
in_own_session m s = let (r, s') = m s in (r, close s')

-- The loop over the candidates; the result counts the rows that were changed.
unfoldable pub sweep : (Assignment → ℕ → Bool) → (Assignment → M ℕ) → List Assignment → M ℕ
sweep wanted body [] = pure 0
sweep wanted body (c ∷ cs) = do
  now ← gets (λ s. s.now)
  n ← if wanted c now then in_own_session (handle_key wanted body c.id) else pure 0
  rest ← sweep wanted body cs
  pure (n + rest)

-- The outcome is recorded and committed; the result counts the row.
unfoldable pub record_outcome : AuditAction → Assignment → Bool → M ℕ
record_outcome action a success = do
  record_audit action (some a.id) (some a.provider_id) none success
  commit
  pure (if success then 1 else 0)

-- The row is written first.
unfoldable pub write_outcome : AuditAction → Assignment → (Assignment → Assignment) → M ℕ
unfolding record_outcome
write_outcome action a f = update_assignment a.id f >> record_outcome action a true

unfoldable pub activate_row : Assignment → M ℕ
unfolding write_outcome
activate_row a = do
  conflicts ← check_sod_conflicts a.user_id a.resource_type a.resource_id a.app_role
  if non_empty conflicts then record_outcome assignment_activated a false else (do
    granted ← grant_provider_access_for_assignment a
    now ← gets (λ s. s.now)
    if granted
        then write_outcome assignment_activated a
            (λ r. record r { status = active; activated_at = some now })
        else record_outcome assignment_activated a false)

unfoldable pub activate_due_assignments : M ℕ
unfolding sweep
activate_due_assignments = do
  candidates ← gets (λ s. select (λ a. is_scheduled a.status) s.db.assignments)
  sweep is_due activate_row candidates

-- The end of a session of a lasting assignment leads back to eligible.
abbrev pub ended : Assignment → Assignment
ended r = by_type r.assignment_type
  where
    by_type : AssignmentType → Assignment
    by_type permanent = record r { status = eligible; activated_at = none; expiration_time = none }
    by_type temporary = record r { status = expired }

module _ (refuses : Db → Bool) where
  -- The removal is confirmed: the row is written and the write committed, or, where that fails, rolled
  -- back and not counted.
  unfoldable pub end_row : Assignment → M ℕ
  end_row a =
      try_any
        (do
          update_assignment a.id ended
          record_audit assignment_expired (some a.id) (some a.provider_id) none true
          commit_unless refuses
          pure 1)
        (rollback >> pure 0)

  unfoldable pub expire_row : Assignment → M ℕ
  unfolding end_row
  expire_row a = do
    removed ← revoke_provider_access a
    if removed then end_row a else record_outcome assignment_expired a false

  unfoldable pub expire_due_assignments : M ℕ
  unfolding sweep
  expire_due_assignments = do
    candidates ←
        gets λ s. select (λ a. is_active a.status && is_some a.expiration_time) s.db.assignments
    sweep is_expired expire_row candidates

unfoldable pub expire_eligibility : Assignment → M ℕ
unfolding write_outcome
expire_eligibility a = write_outcome assignment_expired a (λ r. record r { status = expired })

unfoldable pub expire_due_eligibility : M ℕ
unfolding sweep
expire_due_eligibility = do
  candidates ←
      gets λ s. select (λ a. is_eligible a.status && is_some a.expiration_time) s.db.assignments
  sweep is_eligibility_expired expire_eligibility candidates

-- A directory with a positive interval, in minutes, that has passed since the last run.
abbrev is_elapsed : Option ℕ → ℕ → ℕ → Bool
is_elapsed none interval now = true
is_elapsed (some last) interval now = leb (last + 60 * interval) now

abbrev pub by_interval : Option ℕ → Option ℕ → ℕ → Bool
by_interval none last now = false
by_interval (some zero) last now = false
by_interval (some (suc n)) last now = is_elapsed last (suc n) now

unfoldable pub is_sync_due : Provider → ℕ → Bool
is_sync_due p now = by_interval p.sync_interval_minutes p.last_sync_at now
