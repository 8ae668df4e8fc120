-- ===== src/Workflows/Stages.antt =====
-- The walk of an instance through its stages: `_advance` and the escalation sweep of
-- backend/app/services/workflows.py.
use access_piliot.Prelude.{
  ℕ, zero, suc, ◌+◌, Bool, true, false, not, ◌&&◌, Option, none, some, List, [], ◌∷◌, ◌++◌, ◌==◌,
  if◌then◌else◌, leb, ltb, select, is_some, get_row, update_row,
}
use access_piliot.Store.{
  Db, StageDefinition, Condition, Instance, StageInstance, Payload, Progress, waiting, approved,
  refused, cancelled, skipped, M, pure, gets, modify, commit_unless, rollback, try_any, fresh_id,
  for_each, ◌>>=◌, ◌>>◌, record_audit, create_notification, workflow_stage_pending_note,
  workflow_stage_escalated_note, workflow_stage_escalated,
}
use access_piliot.Sod.{hours}
use access_piliot.Workflows.Conditions.{condition_matches}

abbrev pub is_waiting : Progress → Bool
is_waiting waiting = true
is_waiting approved = false
is_waiting refused = false
is_waiting cancelled = false
is_waiting skipped = false

abbrev pub instance_by : ℕ → Db → Option Instance
instance_by key db = get_row (λ i. i.id) key db.instances

abbrev pub stage_by : ℕ → Db → Option StageInstance
stage_by key db = get_row (λ i. i.id) key db.stage_instances

unfoldable pub update_instance : ℕ → (Instance → Instance) → M (Unit {0})
update_instance key f =
    modify (λ db. record db { instances = update_row (λ i. i.id) key f db.instances })

unfoldable pub update_stage : ℕ → (StageInstance → StageInstance) → M (Unit {0})
update_stage key f =
    modify (λ db. record db { stage_instances = update_row (λ i. i.id) key f db.stage_instances })

unfoldable pub insert_stage : StageDefinition → List StageDefinition → List StageDefinition
insert_stage d [] = d ∷ []
insert_stage d (e ∷ es) =
    if leb d.stage_number e.stage_number then d ∷ e ∷ es else e ∷ insert_stage d es

unfoldable pub sort_stages : List StageDefinition → List StageDefinition
unfolding insert_stage
sort_stages [] = []
sort_stages (d ∷ ds) = insert_stage d (sort_stages ds)

-- `.order_by(stage_number)`.
unfoldable pub stages_of : ℕ → Db → List StageDefinition
unfolding sort_stages
stages_of definition db =
    sort_stages (select (λ d. d.workflow_definition_id == definition) db.stage_definitions)

-- A stage with no condition is always needed.
abbrev condition_holds : Payload → Option Condition → Bool
condition_holds payload none = true
condition_holds payload (some c) = condition_matches payload c.field c.operator c.value

abbrev pub is_needed : Payload → StageDefinition → Bool
is_needed payload d = condition_holds payload d.condition

-- No hours, or none set, means that the stage never escalates.
abbrev deadline : ℕ → Option ℕ → Option ℕ
deadline now none = none
deadline now (some zero) = none
deadline now (some (suc n)) = some (now + hours (suc n))

unfoldable pub add_stage :
    Instance → StageDefinition → Progress → Option ℕ → Option ℕ → M (Unit {0})
add_stage i d status escalates completed = do
  key ← fresh_id
  modify λ db. record db {
    stage_instances =
        db.stage_instances
        ++ record {
          id = key;
          workflow_instance_id = i.id;
          stage_number = d.stage_number;
          approval_mode = d.approval_mode;
          required_approver_ids = d.approver_user_ids;
          fallback_approver_ids = d.fallback_approver_ids;
          status = status;
          escalates_at = escalates;
          escalated_at = none;
          completed_at = completed;
        }
          ∷ [];
  }

-- The stage is recorded as skipped.
unfoldable pub skip_stage : Instance → StageDefinition → M (Unit {0})
unfolding add_stage
skip_stage i d = do now ← gets (λ s. s.now); add_stage i d skipped none (some now)

-- The stage waits for its approvers, who are told.
unfoldable pub enter_stage : Instance → StageDefinition → M (Unit {0})
unfolding add_stage update_instance
enter_stage i d = do
  now ← gets (λ s. s.now)
  add_stage i d waiting (deadline now d.escalate_after_hours) none
  update_instance i.id (λ r. record r { current_stage_number = d.stage_number })
  for_each (λ u. create_notification u workflow_stage_pending_note) d.approver_user_ids

-- The number after the last stage's, or 1.
abbrev pub after_last : List StageDefinition → ℕ
after_last [] = 1
after_last (d ∷ []) = d.stage_number + 1
after_last (d ∷ e ∷ es) = after_last (e ∷ es)

unfoldable pub complete : Instance → List StageDefinition → M (Unit {0})
unfolding update_instance
complete i defs = do
  now ← gets (λ s. s.now)
  update_instance i.id λ r. record r {
    status = approved;
    completed_at = some now;
    current_stage_number = after_last defs;
  }

-- The `for` loop over the stages that are left; `all` are the definition's stages.
unfoldable pub advance_from :
    Instance → (all : List StageDefinition) → ℕ → List StageDefinition → M (Unit {0})
advance_from i defs from [] = complete i defs
advance_from i defs from (d ∷ ds) =
    let rest = advance_from i defs from ds in
    if ltb d.stage_number from
    then rest
    else if is_needed i.payload d
    then enter_stage i d
    else (skip_stage i d >> rest)

unfoldable pub advance : Instance → List StageDefinition → ℕ → M (Unit {0})
advance i defs from = advance_from i defs from defs

abbrev is_reached : Option ℕ → ℕ → Bool
is_reached none now = false
is_reached (some moment) now = leb moment now

-- What the sweep's query asks for.
abbrev pub is_overdue : ℕ → StageInstance → Bool
is_overdue now st =
    is_waiting st.status && is_reached st.escalates_at now && not (is_some st.escalated_at)

module _ (refuses : Db → Bool) where
  -- The body of the `try`.
  unfoldable pub mark_escalated : ℕ → StageInstance → M ℕ
  unfolding update_stage
  mark_escalated now st = do
    update_stage st.id (λ r. record r { escalated_at = some now })
    for_each (λ u. create_notification u workflow_stage_escalated_note) st.fallback_approver_ids
    record_audit workflow_stage_escalated (some st.id) none none true
    commit_unless refuses
    pure 1

  -- A stage whose write fails is rolled back and not counted; the others go on.
  unfoldable pub escalate : ℕ → StageInstance → M ℕ
  unfolding mark_escalated
  escalate now st = try_any (mark_escalated now st) (rollback >> pure 0)

  -- The loop, which counts the stages that were escalated.
  unfoldable pub escalate_all : ℕ → List StageInstance → M ℕ
  unfolding escalate
  escalate_all now [] = pure 0
  escalate_all now (st ∷ sts) = do n ← escalate now st; rest ← escalate_all now sts; pure (n + rest)

  unfoldable pub sweep_workflow_escalations : M ℕ
  unfolding escalate_all
  sweep_workflow_escalations = do
    now ← gets (λ s. s.now)
    due ← gets (λ s. select (is_overdue now) s.db.stage_instances)
    escalate_all now due
