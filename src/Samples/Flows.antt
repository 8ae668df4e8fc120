-- ===== src/Samples/Flows.antt =====
-- The theorem about the editing of workflows (backend/app/services/workflows.py) at the sample data: a
-- workflow that a package names.
use access_piliot.Prelude.{none, some, List, [], ◌∷◌}
use access_piliot.Store.{Session, Definition, Package, enabled, any_of, all_of, confirmed}
use access_piliot.Workflows.Editing.{StageCreate, DefinitionUpdate}
use access_piliot.Samples.{session_with}

abbrev flow : Definition
flow = record { id = 20; name = b'w' ∷ []; status = enabled }

abbrev bundle : Package
bundle = record {
  id = 70;
  name = b'b' ∷ [];
  status = enabled;
  default_approver_id = none;
  default_fallback_approver_id = none;
  fallback_unlock_hours = none;
  workflow_definition_id = some 20;
}

abbrev flow_session : Session
flow_session =
    let s = session_with confirmed [] in
    let db = record s.db { definitions = flow ∷ []; packages = bundle ∷ []; instances = [] } in
    record s { db = db; saved = db }

-- The manager decides first, and then both people.
abbrev new_stages : List StageCreate
new_stages =
    record {
      approval_mode = any_of;
      approver_user_ids = 1 ∷ [];
      fallback_approver_ids = [];
      escalate_after_hours = none;
      condition = none;
    }
    ∷ record {
      approval_mode = all_of;
      approver_user_ids = 1 ∷ 2 ∷ [];
      fallback_approver_ids = [];
      escalate_after_hours = none;
      condition = none;
    }
    ∷ []

abbrev two_stages : DefinitionUpdate
two_stages = record { name = none; status = some enabled; stages = some new_stages }
