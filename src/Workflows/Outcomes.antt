-- ===== src/Workflows/Outcomes.antt =====
-- What a finished instance does to its subject: the dispatcher `_apply_subject_outcome` and its branch
-- for access assignments (backend/app/services/workflows.py). The branches of the other subjects
-- belong to the services that own those; they come as `Handlers`.
use access_piliot.Prelude.{ℕ, Bool, true, false, Option, none, some, if◌then◌else◌}
use access_piliot.Store.{
  Assignment, Instance, Progress, waiting, approved, refused, cancelled, skipped, Status,
  pending_approval, eligible, scheduled, active, rejected, revoked, expired, SubjectType,
  assignment_subject, user_attributes, access_review_item, nhi_review_item, workflow_request,
  assignment_approved, assignment_rejected, assignment_approved_note, assignment_rejected_note, M,
  pure, gets, ◌>>=◌, ◌>>◌, record_audit, create_notification,
}
use access_piliot.Target.{resolve_target, assignment_by, update_assignment}

pub record Handlers : Type 0 where
  pub on_user_attributes : Instance → Option ℕ → M (Unit {0})
  pub on_access_review_item : Instance → Option ℕ → M (Unit {0})
  pub on_nhi_review_item : Instance → Option ℕ → M (Unit {0})

abbrev pub is_pending : Status → Bool
is_pending pending_approval = true
is_pending eligible = false
is_pending scheduled = false
is_pending active = false
is_pending rejected = false
is_pending revoked = false
is_pending expired = false

abbrev is_approved : Progress → Bool
is_approved approved = true
is_approved waiting = false
is_approved refused = false
is_approved cancelled = false
is_approved skipped = false

unfoldable pub settle : Assignment → Option ℕ → Bool → M (Unit {0})
settle a actor granted =
    if granted
    then (do
      update_assignment a.id (λ r. record r { status = eligible })
      record_audit assignment_approved (some a.id) (some a.provider_id) actor true
      create_notification a.user_id assignment_approved_note)
    else (do
      update_assignment a.id (λ r. record r { status = rejected })
      record_audit assignment_rejected (some a.id) (some a.provider_id) actor true
      create_notification a.user_id assignment_rejected_note)

unfoldable pub outcome_for : Instance → Option ℕ → Option Assignment → M (Unit {0})
unfolding settle
outcome_for i actor none = pure tt
outcome_for i actor (some a) =
    if is_pending a.status
    then resolve_target a.resource_type a.resource_id >> settle a actor (is_approved i.status)
    else pure tt

-- Nothing happens to an assignment that was decided otherwise in the meantime.
unfoldable pub apply_assignment_outcome : Instance → ℕ → Option ℕ → M (Unit {0})
unfolding outcome_for
apply_assignment_outcome i subject actor = do
  found ← gets (λ s. assignment_by subject s.db)
  outcome_for i actor found

module _ (handlers : Handlers) where
  unfoldable pub dispatch : SubjectType → Instance → ℕ → Option ℕ → M (Unit {0})
  dispatch assignment_subject i subject actor = apply_assignment_outcome i subject actor
  dispatch user_attributes i subject actor = handlers.on_user_attributes i actor
  dispatch access_review_item i subject actor = handlers.on_access_review_item i actor
  dispatch nhi_review_item i subject actor = handlers.on_nhi_review_item i actor
  dispatch workflow_request i subject actor = pure tt

  unfoldable pub with_subject : Option ℕ → Instance → Option ℕ → M (Unit {0})
  unfolding dispatch
  with_subject none i actor = pure tt
  with_subject (some subject) i actor = dispatch i.subject_type i subject actor

  unfoldable pub apply_subject_outcome : Instance → Option ℕ → M (Unit {0})
  unfolding with_subject
  apply_subject_outcome i actor = with_subject i.subject_id i actor
