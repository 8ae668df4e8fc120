-- ===== src/Samples/Escalations.antt =====
-- The escalation sweep (backend/app/services/workflows.py) at the sample data: one of two stages is
-- overdue.
use access_piliot.Prelude.{
  ℕ, ◌+◌, ◌⊎◌, Bool, true, false, length, update_row, ◌≡◌, refl, some, [], ◌∷◌, select,
}
use access_piliot.Store.{
  Db, try_any, rollback, commit_unless, ◌>>=◌, modify, for_each, create_notification, record_audit,
  Session, StageInstance, confirmed, ok,
}
use access_piliot.Workflows.Stages.{
  is_overdue, escalate_all, escalate, mark_escalated, sweep_workflow_escalations,
}
use access_piliot.Workflows.Escalation.{sweep_workflow_escalations-counted}
use access_piliot.Samples.{session_with, open_stage}

abbrev late_stage : StageInstance
late_stage = record open_stage { id = 32; fallback_approver_ids = 2 ∷ []; escalates_at = some 900 }

abbrev late_session : Session
late_session =
    let s = session_with confirmed [] in
    let db = record s.db { stage_instances = open_stage ∷ late_stage ∷ [] } in
    record s { db = db; saved = db }

-- A database that accepts every write, or, when broken, none.
abbrev out_of_order : Bool → Db → Bool
out_of_order broken db = broken

sweep_workflow_escalations-counted_example :
    let (r, t) = sweep_workflow_escalations (out_of_order false) late_session in
    (n : ℕ) × (r ≡ ok n)
    × (n + length (select (is_overdue t.now) t.db.stage_instances) ≡ 1)
    × (t.saved ≡ t.db)
    × ((n ≡ 1) ⊎ ((db : Db) × (out_of_order false db ≡ true)))
sweep_workflow_escalations-counted_example =
    sweep_workflow_escalations-counted (out_of_order false) late_session refl refl

-- What is refused is neither counted nor written.
refused_sweep : (sweep_workflow_escalations (out_of_order true) late_session).0 ≡ ok 0
unfolding sweep_workflow_escalations escalate_all escalate mark_escalated try_any rollback
    commit_unless ◌>>=◌ modify for_each create_notification record_audit update_row
refused_sweep = refl
