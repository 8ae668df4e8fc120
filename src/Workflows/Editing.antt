-- ===== src/Workflows/Editing.antt =====
-- The editing of workflow definitions (`create_workflow_definition`, `update_workflow_definition`,
-- `delete_workflow_definition` of backend/app/services/workflows.py) and their request bodies
-- (backend/app/schemas/workflows.py).
use access_piliot.Prelude.{
  ℕ, ◌+◌, Bool, true, not, ◌&&◌, ◌||◌, Option, none, some, List, [], ◌∷◌, ◌++◌, ◌==◌, if◌then◌else◌,
  same_id, any, select, get_row, update_row,
}
use access_piliot.Store.{
  Db, Text, Definition, StageDefinition, ApprovalMode, Condition, Switch, draft, user_not_found,
  workflow_definition_not_found, workflow_definition_already_exists,
  workflow_definition_has_history, workflow_definition_created, workflow_definition_updated,
  workflow_definition_deleted, M, pure, crash, gets, or_raise, raise_if, modify, commit, fresh_id,
  for_each, ◌>>=◌, ◌>>◌, record_audit,
}
use access_piliot.Target.{user_by, internal_user_id}
use access_piliot.Workflows.Conditions.{text_eq}

-- Behind its validator: nobody stands twice in a list, and a condition has all its parts.
pub record StageCreate : Type 0 where
  pub approval_mode : ApprovalMode
  pub approver_user_ids : List ℕ
  pub fallback_approver_ids : List ℕ
  pub escalate_after_hours : Option ℕ
  pub condition : Option Condition

pub record DefinitionCreate : Type 0 where
  pub name : Text
  pub stages : List StageCreate

pub record DefinitionUpdate : Type 0 where
  pub name : Option Text
  pub status : Option Switch
  pub stages : Option (List StageCreate)

unfoldable pub validate_users_exist : List ℕ → M (Unit {0})
validate_users_exist keys =
    for_each
      (λ key. do found ← gets (λ s. user_by key s.db); or_raise found user_not_found; pure tt) keys

unfoldable pub validate_stages : List StageCreate → M (Unit {0})
unfolding validate_users_exist
validate_stages stages =
    for_each
      (λ d.
        validate_users_exist d.approver_user_ids >> validate_users_exist d.fallback_approver_ids)
      stages

abbrev pub stage_row : ℕ → ℕ → StageCreate → StageDefinition
stage_row definition number d = record {
  workflow_definition_id = definition;
  stage_number = number;
  approval_mode = d.approval_mode;
  approver_user_ids = d.approver_user_ids;
  fallback_approver_ids = d.fallback_approver_ids;
  escalate_after_hours = d.escalate_after_hours;
  condition = d.condition;
}

unfoldable pub stage_rows : ℕ → ℕ → List StageCreate → List StageDefinition
stage_rows definition number [] = []
stage_rows definition number (d ∷ ds) =
    stage_row definition number d ∷ stage_rows definition (number + 1) ds

unfoldable pub add_stage_rows : ℕ → List StageCreate → M (Unit {0})
unfolding stage_rows
add_stage_rows definition stages =
    modify
      λ db. record db { stage_definitions = db.stage_definitions ++ stage_rows definition 1 stages }

unfoldable pub remove_stage_rows : ℕ → M (Unit {0})
remove_stage_rows definition = modify λ db. record db {
  stage_definitions =
      select (λ d. not (d.workflow_definition_id == definition)) db.stage_definitions;
}

abbrev pub definition_by : ℕ → Db → Option Definition
definition_by key db = get_row (λ d. d.id) key db.definitions

unfoldable pub get_definition : ℕ → M Definition
get_definition key = do
  found ← gets (λ s. definition_by key s.db)
  or_raise found workflow_definition_not_found

abbrev has_name : Text → Db → Bool
has_name name db = any (λ d. text_eq d.name name) db.definitions

unfoldable pub create_workflow_definition : DefinitionCreate → (subject : ℕ) → M ℕ
unfolding text_eq validate_stages add_stage_rows
create_workflow_definition data' subject = do
  taken ← gets (λ s. has_name data'.name s.db)
  raise_if taken workflow_definition_already_exists
  validate_stages data'.stages
  actor ← gets (λ s. internal_user_id subject s.db)
  key ← fresh_id
  let row : Definition = record { id = key; name = data'.name; status = draft }
  modify (λ db. record db { definitions = db.definitions ++ row ∷ [] })
  add_stage_rows key data'.stages
  record_audit workflow_definition_created (some key) none actor true
  commit
  pure key

abbrev is_name_taken : ℕ → Text → Db → Bool
is_name_taken key name db = any (λ d. text_eq d.name name && not (d.id == key)) db.definitions

unfoldable pub update_definition : ℕ → (Definition → Definition) → M (Unit {0})
update_definition key f =
    modify (λ db. record db { definitions = update_row (λ d. d.id) key f db.definitions })

unfoldable pub rename_definition : Definition → Option Text → M (Unit {0})
unfolding text_eq update_definition
rename_definition d none = pure tt
rename_definition d (some name) = if text_eq name d.name then pure tt else (do
  clash ← gets (λ s. is_name_taken d.id name s.db)
  raise_if clash workflow_definition_already_exists
  update_definition d.id (λ r. record r { name = name }))

unfoldable pub set_status : ℕ → Option Switch → M (Unit {0})
unfolding update_definition
set_status key none = pure tt
set_status key (some status) = update_definition key (λ r. record r { status = status })

unfoldable pub replace_stages : ℕ → Option (List StageCreate) → M (Unit {0})
unfolding validate_stages remove_stage_rows add_stage_rows
replace_stages key none = pure tt
replace_stages key (some stages) = do
  validate_stages stages
  remove_stage_rows key
  add_stage_rows key stages

unfoldable pub update_workflow_definition : ℕ → DefinitionUpdate → (subject : ℕ) → M (Unit {0})
unfolding get_definition rename_definition set_status replace_stages
update_workflow_definition key data' subject = do
  d ← get_definition key
  rename_definition d data'.name
  set_status key data'.status
  replace_stages key data'.stages
  actor ← gets (λ s. internal_user_id subject s.db)
  record_audit workflow_definition_updated (some key) none actor true
  commit

-- The columns of other tables that name a workflow have no ON DELETE.
abbrev pub is_named_elsewhere : ℕ → Db → Bool
is_named_elsewhere key db =
    any (λ p. same_id p.workflow_definition_id (some key)) db.packages
    || any (λ c. same_id c.workflow_definition_id (some key)) db.campaigns

unfoldable pub delete_workflow_definition : ℕ → (subject : ℕ) → M (Unit {0})
unfolding get_definition remove_stage_rows
delete_workflow_definition key subject = do
  get_definition key
  used ← gets (λ s. any (λ i. i.workflow_definition_id == key) s.db.instances)
  raise_if used workflow_definition_has_history
  remove_stage_rows key
  actor ← gets (λ s. internal_user_id subject s.db)
  record_audit workflow_definition_deleted (some key) none actor true
  named ← gets (λ s. is_named_elsewhere key s.db)
  if named then crash else (do
    modify (λ db. record db { definitions = select (λ d. not (d.id == key)) db.definitions })
    commit)
