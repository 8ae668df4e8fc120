-- ===== src/Assignments/Activate.antt =====
-- `activate_assignment` (backend/app/services/assignments.py): an eligible assignment becomes real
-- access for a chosen time, and a group delivers what its mappings give.
use access_piliot.Prelude.{
  ℕ, zero, suc, ◌+◌, Bool, true, false, not, ◌&&◌, Option, none, some, List, if◌then◌else◌, same_id,
  leb, ltb,
}
use access_piliot.Store.{
  ActorRole, is_admin, Assignment, User, Provider, group, same_type, active,
  request_already_processed, access_denied, not_yet_eligible, eligibility_expired,
  duration_exceeds_maximum, sod_conflict, user_not_found, assignment_activated,
  assignment_activated_note, cascade_activation_failed, M, pure, raise, crash, gets, or_raise,
  raise_if, commit, try_else, for_each, ◌>>=◌, ◌>>◌, record_audit, create_notification,
}
use access_piliot.Target.{
  resolve_target, user_by, internal_user_id, get_assignment, update_assignment, hydrate,
  is_in_the_future,
}
use access_piliot.Accounts.{provider_by}
use access_piliot.Grants.{
  grant_provider_access, record_local_group_membership, supersede_existing_assignment, if_group,
}
use access_piliot.Sod.{check_sod_conflicts, hours, non_empty}
use access_piliot.Workflows.Outcomes.{Handlers}
use access_piliot.Assignments.Approval.{is_actor}
use access_piliot.Assignments.Mappings.{is_eligible, get_or_create_eligible_assignments_for_group}

-- Only the person or an administrator; the actor's key, if they are a known user.
unfoldable pub authorize_activation : Assignment → ℕ → List ActorRole → M (Option ℕ)
authorize_activation a subject roles = do
  actor ← gets (λ s. internal_user_id subject s.db)
  if is_admin roles
      then pure actor
      else if is_actor actor (some a.user_id)
      then pure actor
      else raise access_denied

abbrev pub is_past : Option ℕ → ℕ → Bool
is_past none now = false
is_past (some moment) now = leb moment now

abbrev pub max_hours : Option Provider → ℕ
max_hours none = 8
max_hours (some p) = p.max_self_activation_hours

-- The tests before any access is touched: the start, the deadline and the length of the session.
unfoldable pub check_window : Assignment → (duration : ℕ) → M (Unit {0})
check_window a duration = do
  now ← gets (λ s. s.now)
  raise_if (is_in_the_future a.start_time now) not_yet_eligible
  raise_if (is_past a.expiration_time now) eligibility_expired
  limit ← gets (λ s. max_hours (provider_by a.provider_id s.db))
  raise_if (ltb (hours limit) duration) duration_exceeds_maximum

-- A conflict stops the activation, unless an administrator overrides it. The refusal is recorded.
unfoldable pub activation_gate : Assignment → Option ℕ → (overrides : Bool) → M (Unit {0})
activation_gate a actor overrides = do
  conflicts ← check_sod_conflicts a.user_id a.resource_type a.resource_id a.app_role
  if non_empty conflicts && not overrides
      then (do
        record_audit assignment_activated (some a.id) (some a.provider_id) actor false
        commit
        raise sod_conflict)
      else pure tt

-- The directory's grant; a failure is recorded and passed on.
unfoldable pub grant_or_record : Assignment → ℕ → User → Option ℕ → ℕ → M (Unit {0})
grant_or_record a target user actor subject =
    try_else (grant_provider_access a.provider_id a.resource_type target user a.app_role subject)
      pure
      λ e. do
        record_audit assignment_activated (some a.id) (some a.provider_id) actor false
        commit
        raise e

unfoldable pub make_active : Assignment → (duration : ℕ) → M (Unit {0})
make_active a duration = do
  now ← gets (λ s. s.now)
  update_assignment a.id λ r. record r {
    status = active;
    activated_at = some now;
    expiration_time = some (now + duration);
  }

-- All of `activate_assignment` but the cascade.
unfoldable pub activate_one : ℕ → ℕ → List ActorRole → (duration : ℕ) → Bool → M Assignment
activate_one key subject roles duration override_sod = do
  a ← get_assignment key
  raise_if (not (is_eligible a.status)) request_already_processed
  actor ← authorize_activation a subject roles
  check_window a duration
  activation_gate a actor (override_sod && is_admin roles)
  supersede_existing_assignment a.user_id a.resource_type a.resource_id a.app_role a.provider_id
      actor a.id
  target ← resolve_target a.resource_type a.resource_id
  found ← gets (λ s. user_by a.user_id s.db)
  user ← or_raise found user_not_found
  grant_or_record a target.external_id user actor subject
  if_group a.resource_type (record_local_group_membership a.user_id a.resource_id)
  make_active a duration
  record_audit assignment_activated (some a.id) (some a.provider_id) actor true
  if same_id actor (some a.user_id)
      then pure tt
      else create_notification a.user_id assignment_activated_note
  commit
  get_assignment key

module _ (handlers : Handlers) where
  -- The recursion of the cascade takes fuel: a group that a business role of a mapping delivered has
  -- a cascade of its own.
  unfoldable pub activate_assignment :
      (fuel : ℕ) → ℕ → ℕ → List ActorRole → (duration : ℕ) → Bool → M Assignment
  activate_assignment zero key subject roles duration override_sod = crash
  activate_assignment (suc fuel) key subject roles duration override_sod = do
    a ← activate_one key subject roles duration override_sod
    actor ← gets (λ s. internal_user_id subject s.db)
    if same_type a.resource_type group
        then (do
          linked ←
              get_or_create_eligible_assignments_for_group handlers a.user_id a.resource_id subject
          for_each
              (λ l.
                try_else (activate_assignment fuel l.id subject roles duration override_sod)
                  (λ _. pure tt)
                  (λ e.
                    record_audit cascade_activation_failed (some l.id) (some l.provider_id) actor
                      false))
              linked)
        else pure tt
    b ← get_assignment key
    hydrate b
    pure b
