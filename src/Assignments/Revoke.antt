-- ===== src/Assignments/Revoke.antt =====
-- `revoke_assignment` (backend/app/services/assignments.py): an assignment is ended for good, and what
-- a group delivered through its mappings is ended with it.
use access_piliot.Prelude.{
  ℕ, zero, suc, Bool, true, false, not, ◌&&◌, Option, some, List, ◌==◌, if◌then◌else◌, same_id,
  select, any,
}
use access_piliot.Store.{
  Db, Assignment, Mapping, group, same_type, Status, pending_approval, eligible, scheduled, active,
  rejected, revoked, expired, request_already_processed, provider_unavailable, assignment_revoked,
  assignment_revoked_note, cascade_revocation_failed, M, pure, raise, crash, gets, raise_if, commit,
  try_else, for_each, ◌>>=◌, ◌>>◌, record_audit,
}
use access_piliot.Target.{internal_user_id, get_assignment, update_assignment, hydrate}
use access_piliot.Grants.{revoke_provider_access, is_active}
use access_piliot.Assignments.Approval.{tell_user}

-- `NON_FINAL_ASSIGNMENT_STATUSES` holds, despite its name, the final ones.
abbrev pub is_final : Status → Bool
is_final rejected = true
is_final revoked = true
is_final expired = true
is_final pending_approval = false
is_final eligible = false
is_final scheduled = false
is_final active = false

-- The mapping of an assignment starts at this group.
abbrev pub is_from : ℕ → List Mapping → Assignment → Bool
is_from source mappings a =
    any (λ m. (m.source_group_id == source) && same_id a.group_role_mapping_id (some m.id)) mappings

-- What mappings of the group granted to the user, in the statuses asked for.
abbrev pub linked_for_group : ℕ → ℕ → (Status → Bool) → Db → List Assignment
linked_for_group user source wanted db =
    select (λ a. (a.user_id == user) && is_from source db.mappings a && wanted a.status)
      db.assignments

-- The removal of real access, where there is any. A failure is recorded.
unfoldable pub end_access : Assignment → Option ℕ → M (Unit {0})
end_access a actor =
    if is_active a.status
    then (do
      removed ← revoke_provider_access a
      if removed then pure tt else (do
        record_audit assignment_revoked (some a.id) (some a.provider_id) actor false
        commit
        raise provider_unavailable))
    else pure tt

-- All of `revoke_assignment` but the cascade.
unfoldable pub revoke_one : ℕ → ℕ → M Assignment
unfolding end_access
revoke_one key subject = do
  a ← get_assignment key
  raise_if (is_final a.status) request_already_processed
  actor ← gets (λ s. internal_user_id subject s.db)
  end_access a actor
  now ← gets (λ s. s.now)
  update_assignment key (λ r. record r { status = revoked; revoked_at = some now })
  record_audit assignment_revoked (some a.id) (some a.provider_id) actor true
  tell_user a actor assignment_revoked_note
  commit
  get_assignment key

abbrev pub is_live : Status → Bool
is_live status = not (is_final status)

-- The recursion of the cascade takes fuel: a group that a business role of a mapping delivered has a
-- cascade of its own.
unfoldable pub revoke_assignment : (fuel : ℕ) → ℕ → ℕ → M Assignment
revoke_assignment zero key subject = crash
revoke_assignment (suc fuel) key subject = do
  a ← revoke_one key subject
  actor ← gets (λ s. internal_user_id subject s.db)
  if same_type a.resource_type group
      then (do
        linked ← gets (λ s. linked_for_group a.user_id a.resource_id is_live s.db)
        for_each
            (λ l.
              try_else (revoke_assignment fuel l.id subject) (λ _. pure tt)
                (λ e.
                  record_audit cascade_revocation_failed (some l.id) (some l.provider_id) actor
                    false))
            linked)
      else pure tt
  b ← get_assignment key
  hydrate b
  pure b
