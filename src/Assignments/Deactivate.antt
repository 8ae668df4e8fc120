-- ===== src/Assignments/Deactivate.antt =====
-- `deactivate_assignment` (backend/app/services/assignments.py): active access is given back early,
-- and the assignment can be activated again.
use access_piliot.Prelude.{
  ℕ, zero, suc, true, false, not, ◌&&◌, Option, none, some, List, if◌then◌else◌,
}
use access_piliot.Store.{
  ActorRole, is_admin, Assignment, group, same_type, eligible, request_already_processed,
  access_denied, provider_unavailable, assignment_deactivated, assignment_deactivated_note,
  cascade_deactivation_failed, M, pure, raise, crash, gets, raise_if, commit, try_else, for_each,
  ◌>>=◌, ◌>>◌, record_audit,
}
use access_piliot.Target.{internal_user_id, get_assignment, update_assignment, hydrate}
use access_piliot.Grants.{revoke_provider_access, is_active}
use access_piliot.Assignments.Approval.{tell_user}
use access_piliot.Assignments.Revoke.{linked_for_group}
use access_piliot.Assignments.Activate.{authorize_activation}

unfoldable pub give_back : Assignment → Option ℕ → M (Unit {0})
give_back a actor = do
  removed ← revoke_provider_access a
  if removed then pure tt else (do
    record_audit assignment_deactivated (some a.id) (some a.provider_id) actor false
    commit
    raise provider_unavailable)

-- All of `deactivate_assignment` but the cascade.
unfoldable pub deactivate_one : ℕ → ℕ → List ActorRole → M Assignment
deactivate_one key subject roles = do
  a ← get_assignment key
  raise_if (not (is_active a.status)) request_already_processed
  actor ← authorize_activation a subject roles
  raise_if (a.bypass_activation && not (is_admin roles)) access_denied
  give_back a actor
  update_assignment key λ r. record r {
    status = eligible;
    activated_at = none;
    expiration_time = none;
    bypass_activation = false;
  }
  record_audit assignment_deactivated (some a.id) (some a.provider_id) actor true
  tell_user a actor assignment_deactivated_note
  commit
  get_assignment key

-- The recursion of the cascade takes fuel, as in the activation.
unfoldable pub deactivate_assignment : (fuel : ℕ) → ℕ → ℕ → List ActorRole → M Assignment
deactivate_assignment zero key subject roles = crash
deactivate_assignment (suc fuel) key subject roles = do
  a ← deactivate_one key subject roles
  actor ← gets (λ s. internal_user_id subject s.db)
  if same_type a.resource_type group
      then (do
        linked ← gets (λ s. linked_for_group a.user_id a.resource_id is_active s.db)
        for_each
            (λ l.
              try_else (deactivate_assignment fuel l.id subject roles) (λ _. pure tt)
                (λ e.
                  record_audit cascade_deactivation_failed (some l.id) (some l.provider_id) actor
                    false))
            linked)
      else pure tt
  b ← get_assignment key
  hydrate b
  pure b
