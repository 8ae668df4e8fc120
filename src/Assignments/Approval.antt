-- ===== src/Assignments/Approval.antt =====
-- The decision on a pending request: `approve_assignment`, `reject_assignment` and who may decide
-- (backend/app/services/assignments.py).
use access_piliot.Prelude.{
  ℕ, Bool, true, false, not, Option, none, some, List, if◌then◌else◌, same_id, ltb,
}
use access_piliot.Store.{
  ActorRole, is_admin, Assignment, Status, eligible, rejected, AuditAction, assignment_approved,
  assignment_rejected, NotificationType, assignment_approved_note, assignment_rejected_note,
  request_already_processed, fallback_not_yet_available, access_denied, M, pure, raise, gets,
  raise_if, commit, ◌>>=◌, ◌>>◌, record_audit, create_notification,
}
use access_piliot.Target.{
  resolve_target, internal_user_id, get_assignment, update_assignment, hydrate,
}
use access_piliot.Workflows.Outcomes.{is_pending}

-- The wait of the fallback approver is over.
abbrev pub is_unlocked : Option ℕ → ℕ → Bool
is_unlocked none now = true
is_unlocked (some moment) now = not (ltb now moment)

-- Is this known actor the named one?
abbrev pub is_actor : Option ℕ → Option ℕ → Bool
is_actor none named = false
is_actor (some a) named = same_id (some a) named

-- The actor's key, if they are a known user.
unfoldable pub authorize_decision : Assignment → ℕ → List ActorRole → M (Option ℕ)
authorize_decision a subject roles = do
  actor ← gets (λ s. internal_user_id subject s.db)
  now ← gets (λ s. s.now)
  if is_admin roles
      then pure actor
      else if is_actor actor a.approved_by
      then pure actor
      else if is_actor actor a.fallback_approver_id
      then (do
        raise_if (not (is_unlocked a.fallback_unlock_at now)) fallback_not_yet_available
        pure actor)
      else raise access_denied

abbrev pub or_else : Option ℕ → Option ℕ → Option ℕ
or_else none old = old
or_else (some a) old = some a

-- The person is told, unless they decided themselves; that reads the target's name.
unfoldable pub tell_user : Assignment → Option ℕ → NotificationType → M (Unit {0})
tell_user a actor kind =
    if same_id actor (some a.user_id)
    then pure tt
    else (do resolve_target a.resource_type a.resource_id; create_notification a.user_id kind)

-- The steps that an approval and a rejection share.
unfoldable pub decide :
    Status → AuditAction → NotificationType → ℕ → ℕ → List ActorRole → M Assignment
decide status action kind key subject roles = do
  a ← get_assignment key
  raise_if (not (is_pending a.status)) request_already_processed
  actor ← authorize_decision a subject roles
  update_assignment key
      (λ r. record r { status = status; approved_by = or_else actor r.approved_by })
  record_audit action (some a.id) (some a.provider_id) actor true
  tell_user a actor kind
  commit
  b ← get_assignment key
  hydrate b
  pure b

unfoldable pub approve_assignment : ℕ → ℕ → List ActorRole → M Assignment
unfolding decide
approve_assignment = decide eligible assignment_approved assignment_approved_note

unfoldable pub reject_assignment : ℕ → ℕ → List ActorRole → M Assignment
unfolding decide
reject_assignment = decide rejected assignment_rejected assignment_rejected_note
