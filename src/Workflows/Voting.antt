-- ===== src/Workflows/Voting.antt =====
-- Who may decide a stage of a workflow, and when a vote settles it
-- (backend/app/services/workflows.py).
use access_piliot.Prelude.{
  ℕ, Bool, true, false, not, ◌&&◌, Option, none, some, List, ◌==◌, if◌then◌else◌, any, all,
  contains, is_some,
}
use access_piliot.Store.{
  ActorRole, is_admin, Switch, enabled, disabled, draft, archived, Instance, StageInstance, Vote,
  Decision, approve, reject, ApprovalMode, any_of, all_of, Progress, approved, refused, SubjectType,
  assignment_subject, user_attributes, access_review_item, nhi_review_item, workflow_request,
  Assignment, AuditAction, access_denied, fallback_not_yet_available, workflow_stage_approved,
  workflow_stage_rejected, M, pure, raise, gets, or_raise, raise_if, ◌>>=◌, ◌>>◌,
}
use access_piliot.Target.{resolve_target, assignment_by, internal_user_id}

abbrev pub is_enabled : Switch → Bool
is_enabled enabled = true
is_enabled disabled = false
is_enabled draft = false
is_enabled archived = false

abbrev is_assignment : SubjectType → Bool
is_assignment assignment_subject = true
is_assignment _ = false

unfoldable pub label_of : Option Assignment → M (Unit {0})
label_of none = pure tt
label_of (some a) = resolve_target a.resource_type a.resource_id >> pure tt

unfoldable pub subject_of : Option ℕ → M (Unit {0})
unfolding label_of
subject_of none = pure tt
subject_of (some key) = do found ← gets (λ s. assignment_by key s.db); label_of found

-- The reads behind a title that can raise: those of the target of an assignment.
unfoldable pub subject_label : Instance → M (Unit {0})
unfolding subject_of
subject_label i = if is_assignment i.subject_type then subject_of i.subject_id else pure tt

-- The actor is a named fallback approver, who has to wait for the escalation.
unfoldable pub as_fallback : StageInstance → ℕ → M (ℕ × Bool)
as_fallback st actor =
    if contains actor st.fallback_approver_ids
    then (do
      raise_if (not (is_some st.escalated_at)) fallback_not_yet_available
      pure (actor, true))
    else raise access_denied

-- The actor, and whether their decision settles the stage outright.
unfoldable pub authorize_stage_decision : StageInstance → ℕ → List ActorRole → M (ℕ × Bool)
unfolding as_fallback
authorize_stage_decision st subject roles = do
  found ← gets (λ s. internal_user_id subject s.db)
  actor ← or_raise found access_denied
  if is_admin roles
      then pure (actor, true)
      else if contains actor st.required_approver_ids
      then pure (actor, false)
      else as_fallback st actor

abbrev pub is_approve : Decision → Bool
is_approve approve = true
is_approve reject = false

abbrev pub vote_of : ℕ → ℕ → Vote → Bool
vote_of stage user v = (v.stage_instance_id == stage) && (v.decided_by == user)

abbrev pub has_approved : ℕ → List Vote → ℕ → Bool
has_approved stage votes user = any (λ v. vote_of stage user v && is_approve v.decision) votes

abbrev by_mode : StageInstance → List Vote → ApprovalMode → Decision → Option Decision
by_mode st votes any_of d = some d
by_mode st votes all_of reject = some reject
by_mode st votes all_of approve =
    if all (has_approved st.id votes) st.required_approver_ids then some approve else none

-- How a vote settles its stage, if it does. `votes` holds the new vote too.
unfoldable pub finalize_as :
    (overrides : Bool) → StageInstance → Decision → (votes : List Vote) → Option Decision
finalize_as true st decision votes = some decision
finalize_as false st decision votes = by_mode st votes st.approval_mode decision

abbrev pub decided : Decision → Progress
decided approve = approved
decided reject = refused

abbrev pub stage_action : Decision → AuditAction
stage_action approve = workflow_stage_approved
stage_action reject = workflow_stage_rejected

abbrev is_free : SubjectType → Bool
is_free workflow_request = true
is_free assignment_subject = false
is_free user_attributes = false
is_free access_review_item = false
is_free nhi_review_item = false

-- Only the submitter of a free-standing request is told here, and not of a decision of their own.
abbrev pub tells_requester : Instance → ℕ → Bool
tells_requester i actor = is_free i.subject_type && not (i.requested_by == actor)
