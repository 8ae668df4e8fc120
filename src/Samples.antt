-- ===== src/Samples.antt =====
-- A small organisation: one directory, an administrator, an employee with two assignments and a
-- workflow. The theorems about the code are applied to it.
mod Witnesses
mod Ballots
mod Policies
mod Bundles
mod Roles
mod Escalations
mod Conflicts
mod Reviews
mod Flows
mod Creations
use access_piliot.Workflows.Outcomes.{Handlers}
use access_piliot.Prelude.{ℕ, Bool, true, false, Option, none, some, List, [], ◌∷◌}
use access_piliot.Store.{
  Payload, Provider, entra, User, normal_account, Assignment, Status, group, permanent, Resource,
  Instance, workflow_request, waiting, StageInstance, all_of, any_of, StageDefinition, Db, World,
  Reply, conflict, Session, ActorRole, admin, pure,
}

abbrev pub blank_payload : Payload
blank_payload = record {
  department = none;
  job_title = none;
  employment_type = none;
  account_type = none;
}

abbrev pub directory : Provider
directory = record {
  id = 1;
  type = entra;
  max_self_activation_hours = 8;
  provision_joiners = true;
  sync_interval_minutes = some 60;
  last_sync_at = some 0;
}

abbrev pub person : ℕ → ℕ → Option ℕ → User
person key external manager = record {
  id = key;
  provider_id = 1;
  external_id = external;
  email = b'p' ∷ [];
  employee_id = none;
  department = some (b'i' ∷ b't' ∷ []);
  job_title = none;
  employment_type = none;
  account_type = normal_account;
  linked_user_id = none;
  employee_category = none;
  manager_id = manager;
  is_disabled = false;
}

abbrev pub grant : ℕ → Status → Option ℕ → Assignment
grant key status expires = record {
  id = key;
  provider_id = 1;
  user_id = 2;
  resource_type = group;
  resource_id = 5;
  app_role = none;
  assignment_type = permanent;
  status = status;
  start_time = some 0;
  expiration_time = expires;
  requested_by = some 2;
  approved_by = some 1;
  fallback_approver_id = none;
  fallback_unlock_at = none;
  bypass_activation = false;
  created_at = 0;
  birthright_policy_id = none;
  group_role_mapping_id = none;
  business_role_id = none;
  role_assignment_id = none;
  dynamic_group_id = none;
  workflow_instance_id = none;
  activated_at = none;
  revoked_at = none;
}

abbrev pub team : Resource
team = record { id = 5; provider_id = 1; external_id = 500; app_roles = [] }

abbrev pub request_instance : Instance
request_instance = record {
  id = 30;
  workflow_definition_id = 20;
  subject_type = workflow_request;
  subject_id = some 40;
  requested_by = 2;
  payload = blank_payload;
  status = waiting;
  current_stage_number = 1;
  completed_at = none;
}

-- Both people have to approve.
abbrev pub open_stage : StageInstance
open_stage = record {
  id = 31;
  workflow_instance_id = 30;
  stage_number = 1;
  approval_mode = all_of;
  required_approver_ids = 1 ∷ 2 ∷ [];
  fallback_approver_ids = [];
  status = waiting;
  escalates_at = none;
  escalated_at = none;
  completed_at = none;
}

abbrev pub stage_definition : ℕ → StageDefinition
stage_definition number = record {
  workflow_definition_id = 20;
  stage_number = number;
  approval_mode = any_of;
  approver_user_ids = 1 ∷ [];
  fallback_approver_ids = [];
  escalate_after_hours = none;
  condition = none;
}

abbrev pub rows_db : List Assignment → Db
rows_db rows = record {
  next_id = 100;
  providers = directory ∷ [];
  users = person 1 101 none ∷ person 2 102 (some 1) ∷ [];
  accounts = [];
  groups = team ∷ [];
  roles = [];
  applications = [];
  user_groups = [];
  assignments = rows;
  mappings = [];
  business_roles = [];
  business_role_items = [];
  business_role_owners = [];
  packages = [];
  package_items = [];
  package_owners = [];
  package_eligibility = [];
  package_links = [];
  catalog = [];
  birthright_policies = [];
  sod_settings = some (record {
    cooldown_enabled = false;
    cooldown_hours = 24;
    notify_on_new_violation = true;
    notify_on_exception_expiring = true;
    exception_expiring_warning_days = 7;
    notify_on_exception_requested = true;
  });
  sod_policies = [];
  sod_entities = [];
  sod_exceptions = [];
  sod_exception_requests = [];
  sod_notifications = [];
  campaigns = [];
  review_items = [];
  definitions = [];
  stage_definitions = stage_definition 1 ∷ [];
  instances = request_instance ∷ [];
  stage_instances = open_stage ∷ [];
  votes = [];
  requests = [];
  audit = [];
  notifications = [];
}

-- The directory answers every call in the same way.
abbrev pub answering : Reply → World
answering reply = record {
  reply = λ calls c. reply;
  create_reply = λ calls c. conflict;
  directory_role_ids = λ calls u. none;
  app_role_assignments = λ calls u. none;
  last_sign_in = λ calls u. none;
}

abbrev pub session_with : Reply → List Assignment → Session
session_with reply rows = record {
  db = rows_db rows;
  saved = rows_db rows;
  now = 1000;
  world = answering reply;
  calls = [];
}

abbrev pub administrator : List ActorRole
administrator = admin ∷ []

abbrev pub no_handlers : Handlers
no_handlers = record {
  on_user_attributes = λ i actor. pure tt;
  on_access_review_item = λ i actor. pure tt;
  on_nhi_review_item = λ i actor. pure tt;
}
