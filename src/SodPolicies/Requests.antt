-- ===== src/SodPolicies/Requests.antt =====
-- Requests for exceptions of Separation of Duties (`create_sod_exception_request`,
-- `grant_sod_exception_request`, `deny_sod_exception_request` of backend/app/services/sod.py).
use access_piliot.Prelude.{
  ℕ, Bool, true, false, not, ◌&&◌, ◌||◌, Option, none, some, List, [], ◌∷◌, ◌++◌, if◌then◌else◌,
  same_id, is_some, get_row, update_row,
}
use access_piliot.Store.{
  Db, User, SodExceptionRequest, SodNotification, SodNotificationType, exception_requested,
  ResourceType, AssignmentType, permanent, temporary, application, same_type, RequestStatus,
  undecided, request_granted, request_denied, user_not_found, sod_exception_request_not_found,
  request_already_processed, sod_exception_granted, sod_exception_requested,
  sod_exception_request_denied, exception_request_granted_note, exception_request_denied_note,
  NotificationType, M, pure, crash, gets, or_raise, raise_if, modify, commit, fresh_id, try_else,
  ◌>>=◌, ◌>>◌, record_audit, create_notification,
}
use access_piliot.Sod.{get_sod_notification_settings}
use access_piliot.Target.{user_by}
use access_piliot.Workflows.Outcomes.{Handlers}
use access_piliot.Assignments.Create.{AssignmentCreate, by_hand, create_assignment}
use access_piliot.SodPolicies.Editing.{get_sod_policy}
use access_piliot.SodPolicies.Exceptions.{insert_exception}

pub record SodExceptionRequestCreate : Type 0 where
  pub sod_policy_id : ℕ
  pub user_id : ℕ
  pub resource_type : ResourceType
  pub resource_id : ℕ
  pub app_role : Option ℕ
  pub approver_id : Option ℕ
  pub fallback_approver_id : Option ℕ
  pub fallback_unlock_hours : Option ℕ
  pub assignment_type : AssignmentType
  pub expiration_time : Option ℕ

unfoldable pub add_sod_notification :
    SodNotificationType → (policy user : ℕ) → (exception request : Option ℕ) → M (Unit {0})
add_sod_notification kind policy user exception request = do
  key ← fresh_id
  let row : SodNotification = record {
    id = key;
    kind = kind;
    sod_policy_id = policy;
    user_id = user;
    sod_exception_id = exception;
    sod_exception_request_id = request;
    read_at = none;
    resolved_at = none;
  }
  modify (λ db. record db { sod_notifications = db.sod_notifications ++ row ∷ [] })

unfoldable pub create_sod_exception_request : SodExceptionRequestCreate → (actor : Option ℕ) → M ℕ
unfolding get_sod_policy add_sod_notification get_sod_notification_settings
create_sod_exception_request data' actor = do
  get_sod_policy data'.sod_policy_id
  found ← gets (λ s. user_by data'.user_id s.db)
  or_raise found user_not_found
  now ← gets (λ s. s.now)
  key ← fresh_id
  let row : SodExceptionRequest = record {
    id = key;
    sod_policy_id = data'.sod_policy_id;
    user_id = data'.user_id;
    requested_by = actor;
    resource_type = data'.resource_type;
    resource_id = data'.resource_id;
    app_role = data'.app_role;
    approver_id = data'.approver_id;
    fallback_approver_id = data'.fallback_approver_id;
    fallback_unlock_hours = data'.fallback_unlock_hours;
    assignment_type = data'.assignment_type;
    expiration_time = data'.expiration_time;
    status = undecided;
    decided_by = none;
    decided_at = none;
    sod_exception_id = none;
    granted_assignment_id = none;
    created_at = now;
  }
  modify (λ db. record db { sod_exception_requests = db.sod_exception_requests ++ row ∷ [] })
  settings ← get_sod_notification_settings
  if settings.notify_on_exception_requested
      then add_sod_notification exception_requested data'.sod_policy_id data'.user_id none
          (some key)
      else pure tt
  record_audit sod_exception_requested (some key) none actor true
  commit
  pure key

abbrev pub request_by : ℕ → Db → Option SodExceptionRequest
request_by key db = get_row (λ r. r.id) key db.sod_exception_requests

unfoldable pub update_request : ℕ → (SodExceptionRequest → SodExceptionRequest) → M (Unit {0})
update_request key f = modify λ db. record db {
  sod_exception_requests = update_row (λ r. r.id) key f db.sod_exception_requests;
}

abbrev pub is_undecided : RequestStatus → Bool
is_undecided undecided = true
is_undecided request_granted = false
is_undecided request_denied = false

abbrev pub is_open_notice : ℕ → SodNotification → Bool
is_open_notice request n =
    same_id n.sod_exception_request_id (some request) && not (is_some n.resolved_at)

abbrev pub resolve_first :
    (SodNotification → Bool) → ℕ → List SodNotification → List SodNotification
resolve_first p now [] = []
resolve_first p now (n ∷ ns) =
    if p n then record n { resolved_at = some now } ∷ ns else n ∷ resolve_first p now ns

-- The first open notification about the request is resolved.
unfoldable pub resolve_notice : ℕ → M (Unit {0})
resolve_notice request = do
  now ← gets (λ s. s.now)
  modify λ db. record db {
    sod_notifications = resolve_first (is_open_notice request) now db.sod_notifications;
  }

unfoldable pub take_up : ℕ → M SodExceptionRequest
take_up key = do
  found ← gets (λ s. request_by key s.db)
  r ← or_raise found sod_exception_request_not_found
  raise_if (not (is_undecided r.status)) request_already_processed
  pure r

-- `AssignmentCreate`, behind its validators: only an application has an app role, and a lasting
-- grant has no end.
abbrev kept_role : ResourceType → Option ℕ → Option ℕ
kept_role kind app_role = if same_type kind application then app_role else none

abbrev kept_end : AssignmentType → Option ℕ → Option ℕ
kept_end permanent end = none
kept_end temporary end = end

abbrev pub blocked_attempt : SodExceptionRequest → AssignmentCreate
blocked_attempt r = record {
  user_id = r.user_id;
  resource_type = r.resource_type;
  resource_id = r.resource_id;
  app_role = kept_role r.resource_type r.app_role;
  assignment_type = r.assignment_type;
  start_time = none;
  expiration_time = kept_end r.assignment_type r.expiration_time;
  approver_id = r.approver_id;
  fallback_approver_id = r.fallback_approver_id;
  fallback_unlock_hours = r.fallback_unlock_hours;
  workflow_definition_id = none;
  bypass_activation = false;
  override_sod = false;
}

abbrev ends : AssignmentType → Option ℕ → Bool
ends permanent end = true
ends temporary end = is_some end

-- What the validators of `AssignmentCreate` ask of a request that was stored without them.
abbrev pub is_repeatable : SodExceptionRequest → Bool
is_repeatable r =
    (if same_type r.resource_type application then is_some r.app_role else true)
    && ends r.assignment_type r.expiration_time
    && (is_some r.fallback_approver_id || not (is_some r.fallback_unlock_hours))

abbrev requester_of : Option ℕ → Db → Option User
requester_of none db = none
requester_of (some key) db = user_by key db

unfoldable pub tell_requester : Option ℕ → NotificationType → M (Unit {0})
tell_requester none note = pure tt
tell_requester (some u) note = create_notification u note

module _ (handlers : Handlers) where
  -- The attempt is made again as its requester made it. A body that the validators refuse is no
  -- `AccessPilotError`.
  unfoldable pub repeat_attempt : SodExceptionRequest → Option User → M (Unit {0})
  unfolding update_request
  repeat_attempt r none = pure tt
  repeat_attempt r (some requester) =
      if is_repeatable r
      then try_else
          (create_assignment handlers (blocked_attempt r) requester.external_id true by_hand)
          (λ a. update_request r.id (λ x. record x { granted_assignment_id = some a.id }))
          (λ e. pure tt)
      else crash

  unfoldable pub grant_sod_exception_request : ℕ → (expires : ℕ) → (actor : Option ℕ) → M (Unit {0})
  unfolding take_up insert_exception update_request resolve_notice repeat_attempt tell_requester
  grant_sod_exception_request key expires actor = do
    r ← take_up key
    exception ← insert_exception r.sod_policy_id r.user_id expires
    now ← gets (λ s. s.now)
    update_request key λ x. record x {
      status = request_granted;
      decided_by = actor;
      decided_at = some now;
      sod_exception_id = some exception;
    }
    resolve_notice key
    requester ← gets (λ s. requester_of r.requested_by s.db)
    repeat_attempt r requester
    record_audit sod_exception_granted (some exception) none actor true
    tell_requester r.requested_by exception_request_granted_note
    commit

unfoldable pub deny_sod_exception_request : ℕ → (actor : Option ℕ) → M (Unit {0})
unfolding take_up update_request resolve_notice tell_requester
deny_sod_exception_request key actor = do
  r ← take_up key
  now ← gets (λ s. s.now)
  update_request key
      λ x. record x { status = request_denied; decided_by = actor; decided_at = some now }
  resolve_notice key
  record_audit sod_exception_request_denied (some key) none actor true
  tell_requester r.requested_by exception_request_denied_note
  commit
