-- ===== src/Assignments/Create.antt =====
-- `create_assignment` (backend/app/services/assignments.py) and its request body
-- (backend/app/schemas/assignments.py).
use access_piliot.Prelude.{
  ℕ, ◌+◌, Bool, true, false, not, ◌&&◌, ◌||◌, Option, none, some, [], ◌∷◌, ◌++◌, ◌==◌,
  if◌then◌else◌, same_id, is_some, get_row,
}
use access_piliot.Store.{
  User, Definition, Assignment, ResourceType, application, same_type, AssignmentType, AccountType,
  normal_account, privileged_account, test_account, Status, pending_approval, eligible, scheduled,
  active, assignment_subject, user_not_found, account_not_associated, application_role_not_found,
  workflow_definition_not_found, workflow_definition_not_active, sod_conflict,
  assignment_create_blocked, assignment_activated, assignment_created,
  assignment_pending_approval_note, assignment_created_note, application_not_found, M, pure, raise,
  gets, or_raise, raise_if, modify, commit, rollback, fresh_id, try_else, ◌>>=◌, ◌>>◌, record_audit,
  create_notification,
}
use access_piliot.Target.{
  resolve_target, has_app_role, user_by, internal_user_id, update_assignment, get_assignment,
  is_in_the_future, find_target,
}
use access_piliot.Grants.{
  grant_provider_access, record_local_group_membership, supersede_existing_assignment, is_active,
  if_group,
}
use access_piliot.Sod.{check_sod_conflicts, hours, non_empty}
use access_piliot.Workflows.Conditions.{build_user_condition_payload}
use access_piliot.Workflows.Outcomes.{Handlers}
use access_piliot.Workflows.Voting.{is_enabled}
use access_piliot.Workflows.Decide.{start_workflow_instance}

-- The request body. Its text of justification is not modelled.
pub record AssignmentCreate : Type 0 where
  pub user_id : ℕ
  pub resource_type : ResourceType
  pub resource_id : ℕ
  pub app_role : Option ℕ
  pub assignment_type : AssignmentType
  pub start_time : Option ℕ
  pub expiration_time : Option ℕ
  pub approver_id : Option ℕ
  pub fallback_approver_id : Option ℕ
  pub fallback_unlock_hours : Option ℕ
  pub workflow_definition_id : Option ℕ
  pub bypass_activation : Bool
  pub override_sod : Bool

-- Where a grant comes from, for the grants that a policy makes.
pub record Provenance : Type 0 where
  pub birthright_policy_id : Option ℕ
  pub group_role_mapping_id : Option ℕ
  pub business_role_id : Option ℕ
  pub role_assignment_id : Option ℕ
  pub dynamic_group_id : Option ℕ

abbrev pub by_hand : Provenance
by_hand = record {
  birthright_policy_id = none;
  group_role_mapping_id = none;
  business_role_id = none;
  role_assignment_id = none;
  dynamic_group_id = none;
}

abbrev pub is_normal : AccountType → Bool
is_normal normal_account = true
is_normal privileged_account = false
is_normal test_account = false

-- A shadow account has to be linked to its owner.
abbrev pub is_unassociated : User → Bool
is_unassociated u = not (is_normal u.account_type) && not (is_some u.linked_user_id)

-- A named approver has to be a known user.
unfoldable pub known_user : Option ℕ → M (Unit {0})
known_user none = pure tt
known_user (some key) = do
  found ← gets (λ s. user_by key s.db)
  or_raise found user_not_found
  pure tt

unfoldable pub check_app_role : AssignmentCreate → M (Unit {0})
check_app_role body =
    if same_type body.resource_type application
    then (do
      found ← gets (λ s. find_target application body.resource_id s.db)
      app ← or_raise found application_not_found
      raise_if (not (has_app_role app body.app_role)) application_role_not_found)
    else pure tt

unfoldable pub find_workflow : Option ℕ → M (Option Definition)
find_workflow none = pure none
find_workflow (some key) = do
  found ← gets (λ s. get_row (λ d. d.id) key s.db.definitions)
  definition ← or_raise found workflow_definition_not_found
  raise_if (not (is_enabled definition.status)) workflow_definition_not_active
  pure (some definition)

-- The status that a new assignment starts in. `future`: is its start still to come?
unfoldable pub initial_status : (bypass approval_required future : Bool) → Status
initial_status true approval_required future = if future then scheduled else active
initial_status false approval_required future =
    if approval_required then pending_approval else eligible

abbrev or_now : Option ℕ → ℕ → ℕ
or_now none now = now
or_now (some moment) now = moment

-- When the fallback approver may act, if there is one and a number of hours is given.
abbrev fallback_unlock : ℕ → Option ℕ → Option ℕ → Option ℕ
fallback_unlock now (some f) (some n) = if n == 0 then none else some (now + hours n)
fallback_unlock now (some f) none = none
fallback_unlock now none n = none

-- A conflict that is not overridden is recorded, and nothing is created.
unfoldable pub sod_gate :
    AssignmentCreate → (provider : ℕ) → (requested_by : Option ℕ) → (checks : Bool) → M (Unit {0})
sod_gate body provider requested_by checks =
    if checks
    then (do
      conflicts ← check_sod_conflicts body.user_id body.resource_type body.resource_id body.app_role
      if non_empty conflicts && not body.override_sod
          then (do
            record_audit assignment_create_blocked none (some provider) requested_by false
            commit
            raise sod_conflict)
          else pure tt)
    else pure tt

unfoldable pub insert_assignment :
    AssignmentCreate → Provenance → ℕ → Option ℕ → Bool → Status → M Assignment
insert_assignment body tags provider requested_by approval_required status = do
  now ← gets (λ s. s.now)
  key ← fresh_id
  let fallback : Option ℕ = if approval_required then body.fallback_approver_id else none
  let a : Assignment = record {
    id = key;
    provider_id = provider;
    user_id = body.user_id;
    resource_type = body.resource_type;
    resource_id = body.resource_id;
    app_role = body.app_role;
    assignment_type = body.assignment_type;
    status = status;
    start_time = some (or_now body.start_time now);
    expiration_time = body.expiration_time;
    requested_by = requested_by;
    approved_by = body.approver_id;
    fallback_approver_id = fallback;
    fallback_unlock_at = fallback_unlock now fallback body.fallback_unlock_hours;
    bypass_activation = body.bypass_activation;
    created_at = now;
    birthright_policy_id = tags.birthright_policy_id;
    group_role_mapping_id = tags.group_role_mapping_id;
    business_role_id = tags.business_role_id;
    role_assignment_id = tags.role_assignment_id;
    dynamic_group_id = tags.dynamic_group_id;
    workflow_instance_id = none;
    activated_at = if is_active status then some now else none;
    revoked_at = none;
  }
  modify (λ db. record db { assignments = db.assignments ++ a ∷ [] })
  pure a

-- Bypassing straight to real access: what stood before is replaced, and the directory is changed.
unfoldable pub grant_now : Assignment → User → Option ℕ → (subject : ℕ) → M (Unit {0})
grant_now a user requested_by subject = do
  supersede_existing_assignment a.user_id a.resource_type a.resource_id a.app_role a.provider_id
      requested_by a.id
  target ← resolve_target a.resource_type a.resource_id
  try_else
      (grant_provider_access a.provider_id a.resource_type target.external_id user a.app_role
        subject)
      pure (λ e. rollback >> raise e)
  if_group a.resource_type (record_local_group_membership a.user_id a.resource_id)
  record_audit assignment_activated (some a.id) (some a.provider_id) requested_by true

abbrev pub notify_approver : Option ℕ → M (Unit {0})
notify_approver none = pure tt
notify_approver (some u) = create_notification u assignment_pending_approval_note

-- The approvers are told once each; without any, the user is, unless they asked themselves.
unfoldable pub announce : AssignmentCreate → Option ℕ → Bool → M (Unit {0})
announce body requested_by approval_required =
    if approval_required
    then (do
      notify_approver body.approver_id
      if same_id body.approver_id body.fallback_approver_id
          then pure tt
          else notify_approver body.fallback_approver_id)
    else if same_id requested_by (some body.user_id)
    then pure tt
    else create_notification body.user_id assignment_created_note

-- The requester of the workflow: the user, where the actor is not known.
abbrev or_user : Option ℕ → User → ℕ
or_user none u = u.id
or_user (some r) u = r

module _ (handlers : Handlers) where
  unfoldable pub route : Option Definition → Assignment → User → Option ℕ → M (Unit {0})
  route none a user requested_by = pure tt
  route (some definition) a user requested_by = do
    i ←
        start_workflow_instance handlers definition (or_user requested_by user)
          (build_user_condition_payload user) assignment_subject (some a.id)
    update_assignment a.id (λ r. record r { workflow_instance_id = some i.id })

  unfoldable pub create_assignment :
      AssignmentCreate → (subject : ℕ) → (check_sod : Bool) → Provenance → M Assignment
  unfolding known_user check_app_role find_workflow announce route
  create_assignment body subject check_sod tags = do
    found ← gets (λ s. user_by body.user_id s.db)
    user ← or_raise found user_not_found
    raise_if (is_unassociated user) account_not_associated
    target ← resolve_target body.resource_type body.resource_id
    check_app_role body
    known_user body.approver_id
    known_user body.fallback_approver_id
    workflow ← find_workflow body.workflow_definition_id
    requested_by ← gets (λ s. internal_user_id subject s.db)
    now ← gets (λ s. s.now)
    let approval_required = is_some body.approver_id || is_some workflow
    let status =
        initial_status body.bypass_activation approval_required
          (is_in_the_future body.start_time now)
    sod_gate body target.provider_id requested_by (is_active status || check_sod)
    a ← insert_assignment body tags target.provider_id requested_by approval_required status
    route workflow a user requested_by
    if is_active status then grant_now a user requested_by subject else pure tt
    record_audit assignment_created (some a.id) (some target.provider_id) requested_by true
    announce body requested_by approval_required
    commit
    get_assignment a.id
