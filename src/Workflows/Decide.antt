-- ===== src/Workflows/Decide.antt =====
-- Running a workflow (backend/app/services/workflows.py): an instance is started, its stages are
-- decided by approvers, and it may be cancelled by its requester, an administrator or the system.
use access_piliot.Prelude.{
  ℕ, ◌+◌, Bool, true, false, not, ◌&&◌, Option, none, some, List, [], ◌∷◌, ◌++◌, ◌==◌,
  if◌then◌else◌, same_id, first, any, get_row,
}
use access_piliot.Store.{
  ActorRole, is_admin, Definition, Instance, StageInstance, Payload, Decision, approve, reject,
  Progress, waiting, approved, refused, cancelled, skipped, SubjectType, workflow_request,
  access_denied, user_not_found, workflow_definition_not_found, workflow_definition_not_active,
  workflow_request_not_found, workflow_stage_not_found, workflow_stage_already_decided,
  workflow_request_already_decided, workflow_request_submitted, workflow_stage_vote_recorded,
  workflow_request_cancelled, workflow_request_rejected_note, workflow_request_approved_note, M,
  pure, gets, or_raise, raise_if, modify, commit, fresh_id, ◌>>=◌, ◌>>◌, record_audit,
  create_notification,
}
use access_piliot.Target.{internal_user_id}
use access_piliot.Workflows.Stages.{
  is_waiting, instance_by, stage_by, update_instance, update_stage, stages_of, advance,
}
use access_piliot.Workflows.Outcomes.{Handlers, apply_subject_outcome}
use access_piliot.Workflows.Voting.{
  is_enabled, subject_label, authorize_stage_decision, vote_of, finalize_as, decided, stage_action,
  tells_requester,
}

unfoldable pub get_instance : ℕ → M Instance
get_instance key = do
  found ← gets (λ s. instance_by key s.db)
  or_raise found workflow_request_not_found

unfoldable pub new_instance : Definition → ℕ → Payload → SubjectType → Option ℕ → M Instance
new_instance definition requester payload kind subject = do
  key ← fresh_id
  let i : Instance = record {
    id = key;
    workflow_definition_id = definition.id;
    subject_type = kind;
    subject_id = subject;
    requested_by = requester;
    payload = payload;
    status = waiting;
    current_stage_number = 0;
    completed_at = none;
  }
  modify (λ db. record db { instances = db.instances ++ i ∷ [] })
  pure i

abbrev is_approved : Progress → Bool
is_approved approved = true
is_approved waiting = false
is_approved refused = false
is_approved cancelled = false
is_approved skipped = false

abbrev pub is_settled : Progress → Bool
is_settled approved = true
is_settled refused = true
is_settled waiting = false
is_settled cancelled = false
is_settled skipped = false

-- A vote that settles nothing is recorded, and the rest of the named approvers are awaited.
unfoldable pub await_more : StageInstance → ℕ → M (Unit {0})
await_more st actor = do
  record_audit workflow_stage_vote_recorded (some st.id) none (some actor) true
  commit

unfoldable pub settle_stage : StageInstance → ℕ → Decision → M (Unit {0})
unfolding update_stage
settle_stage st actor decision = do
  now ← gets (λ s. s.now)
  update_stage st.id (λ r. record r { status = decided decision; completed_at = some now })
  record_audit (stage_action decision) (some st.id) none (some actor) true

-- The instance after its stage was settled: refused, or led on to its next stage.
unfoldable pub settle_instance : Instance → StageInstance → ℕ → Decision → M (Unit {0})
unfolding update_instance
settle_instance i st actor reject = do
  now ← gets (λ s. s.now)
  update_instance i.id (λ r. record r { status = refused; completed_at = some now })
  if tells_requester i actor
      then subject_label i >> create_notification i.requested_by workflow_request_rejected_note
      else pure tt
settle_instance i st actor approve = do
  defs ← gets (λ s. stages_of i.workflow_definition_id s.db)
  subject_label i
  advance i defs (st.stage_number + 1)
  j ← get_instance i.id
  if is_approved j.status && tells_requester i actor
      then create_notification i.requested_by workflow_request_approved_note
      else pure tt

module _ (handlers : Handlers) where
  -- With every stage skipped the instance is approved at once, and its subject is dealt with here.
  unfoldable pub start_workflow_instance :
      Definition → ℕ → Payload → SubjectType → Option ℕ → M Instance
  unfolding get_instance
  start_workflow_instance definition requester payload kind subject = do
    i ← new_instance definition requester payload kind subject
    defs ← gets (λ s. stages_of definition.id s.db)
    advance i defs 1
    j ← get_instance i.id
    if is_approved j.status then apply_subject_outcome handlers j (some requester) else pure tt
    pure j

  unfoldable pub submit_workflow_request : ℕ → Payload → ℕ → M Instance
  submit_workflow_request definition_id payload subject = do
    found ← gets (λ s. get_row (λ d. d.id) definition_id s.db.definitions)
    definition ← or_raise found workflow_definition_not_found
    raise_if (not (is_enabled definition.status)) workflow_definition_not_active
    known ← gets (λ s. internal_user_id subject s.db)
    requester ← or_raise known user_not_found
    i ← start_workflow_instance definition requester payload workflow_request none
    key ← fresh_id
    modify λ db. record db {
      requests =
          record { id = key; workflow_instance_id = i.id; requested_by = requester } ∷ db.requests;
    }
    update_instance i.id (λ r. record r { subject_id = some key })
    record_audit workflow_request_submitted (some key) none (some requester) true
    commit
    j ← get_instance i.id
    subject_label j
    pure j

  unfoldable pub apply_decision : Instance → StageInstance → ℕ → Option Decision → M Instance
  apply_decision i st actor none = do await_more st actor; subject_label i; pure i
  apply_decision i st actor (some decision) = do
    settle_stage st actor decision
    settle_instance i st actor decision
    j ← get_instance i.id
    if is_settled j.status then apply_subject_outcome handlers j (some actor) else pure tt
    commit
    subject_label j
    pure j

  unfoldable pub decide_stage : ℕ → ℕ → Decision → ℕ → List ActorRole → M Instance
  decide_stage instance_id stage_id decision subject roles = do
    i ← get_instance instance_id
    found ← gets (λ s. stage_by stage_id s.db)
    st ← or_raise found workflow_stage_not_found
    raise_if (not (st.workflow_instance_id == i.id)) workflow_stage_not_found
    raise_if (not (is_waiting st.status)) workflow_stage_already_decided
    (actor, overrides) ← authorize_stage_decision st subject roles
    voted ← gets (λ s. any (vote_of st.id actor) s.db.votes)
    raise_if voted workflow_stage_already_decided
    modify λ db. record db {
      votes =
          record { stage_instance_id = st.id; decided_by = actor; decision = decision } ∷ db.votes;
    }
    outcome ← gets (λ s. finalize_as overrides st decision s.db.votes)
    apply_decision i st actor outcome

  unfoldable pub cancel_stage : Option StageInstance → M (Unit {0})
  unfolding update_stage
  cancel_stage none = pure tt
  cancel_stage (some st) = do
    now ← gets (λ s. s.now)
    update_stage st.id (λ r. record r { status = cancelled; completed_at = some now })

  -- The shared part of both ways to cancel, with the actor if there is one.
  unfoldable pub cancel : Instance → Option ℕ → M (Unit {0})
  unfolding cancel_stage update_instance
  cancel i actor = do
    current ← gets λ s.
        first (λ st. (st.workflow_instance_id == i.id) && is_waiting st.status) s.db.stage_instances
    cancel_stage current
    now ← gets (λ s. s.now)
    update_instance i.id (λ r. record r { status = cancelled; completed_at = some now })
    record_audit workflow_request_cancelled (some i.id) none actor true
    j ← get_instance i.id
    apply_subject_outcome handlers j actor

  unfoldable pub cancel_workflow_instance : ℕ → ℕ → List ActorRole → M Instance
  cancel_workflow_instance instance_id subject roles = do
    i ← get_instance instance_id
    actor ← gets (λ s. internal_user_id subject s.db)
    raise_if (not (same_id actor (some i.requested_by)) && not (is_admin roles)) access_denied
    raise_if (not (is_waiting i.status)) workflow_request_already_decided
    cancel i actor
    commit
    j ← get_instance i.id
    subject_label j
    pure j

  unfoldable pub cancel_if_waiting : Option Instance → M (Unit {0})
  cancel_if_waiting none = pure tt
  cancel_if_waiting (some i) = if is_waiting i.status then cancel i none else pure tt

  unfoldable pub cancel_system_instance : ℕ → M (Unit {0})
  unfolding cancel_if_waiting
  cancel_system_instance instance_id = do
    found ← gets (λ s. instance_by instance_id s.db)
    cancel_if_waiting found
