-- ===== src/Samples/Creations.antt =====
-- The theorem about the creation of an assignment (backend/app/services/assignments.py) at the sample
-- data: a person asks for a group.
use access_piliot.Prelude.{
  ℕ, ◌≡◌, ◌==◌, refl, true, false, none, some, [], ◌∷◌, if◌then◌else◌, get_row,
}
use access_piliot.Store.{
  Session, SodPolicyEntity, Assignment, eligible, group, permanent, enabled, side_a, side_b,
  confirmed, ok, ◌>>=◌, modify, raise_if, fresh_id, commit, record_audit, create_notification,
}
use access_piliot.Target.{resolve_target, get_assignment}
use access_piliot.Sod.{
  check_sod_conflicts, check_policies, check_policy, check_side, side_of_new, expand,
  side_entitlements, holds_or_held, resolve_user_holdings, get_sod_notification_settings,
  settings_or_default,
}
use access_piliot.Assignments.Create.{
  AssignmentCreate, by_hand, create_assignment, check_app_role, known_user, find_workflow, sod_gate,
  insert_assignment, initial_status, route, announce,
}
use access_piliot.Assignments.Conflicts.{create_assignment-checked}
use access_piliot.Samples.{session_with, grant, team, no_handlers}

-- Two groups exclude each other; the person is in neither.
abbrev rule : ℕ → SodPolicyEntity
rule n = record {
  sod_policy_id = 50;
  conflict_side = if n == 5 then side_a else side_b;
  entity_type = group;
  entity_id = n;
  app_role = none;
}

abbrev ruled_session : Session
ruled_session = record (session_with confirmed []) {
  db = record (session_with confirmed []).db {
    sod_policies = record { id = 50; name = b'p' ∷ []; status = enabled } ∷ [];
    sod_entities = rule 5 ∷ rule 6 ∷ [];
    groups = team ∷ record team { id = 6 } ∷ [];
  };
}

abbrev wish : AssignmentCreate
wish = record {
  user_id = 2;
  resource_type = group;
  resource_id = 5;
  app_role = none;
  assignment_type = permanent;
  start_time = none;
  expiration_time = none;
  approver_id = none;
  fallback_approver_id = none;
  fallback_unlock_hours = none;
  workflow_definition_id = none;
  bypass_activation = false;
  override_sod = false;
}

abbrev wished : Assignment
wished = record (grant 100 eligible none) {
  start_time = some 1000;
  requested_by = some 1;
  approved_by = none;
  created_at = 1000;
}

created : (create_assignment no_handlers wish 101 true by_hand ruled_session).0 ≡ ok wished
unfolding create_assignment check_app_role known_user find_workflow sod_gate insert_assignment
    initial_status route announce resolve_target get_assignment check_sod_conflicts check_policies
    check_policy check_side side_of_new expand side_entitlements holds_or_held resolve_user_holdings
    get_sod_notification_settings settings_or_default ◌>>=◌ get_row modify raise_if fresh_id commit
    record_audit create_notification
created = refl

create_assignment-checked_example : (check_sod_conflicts 2 group 5 none ruled_session).0 ≡ ok []
create_assignment-checked_example =
    create_assignment-checked no_handlers wish 101 by_hand ruled_session wished refl created
