-- ===== src/Assignments/Reads.antt =====
-- The parts of a creation that only read (backend/app/services/assignments.py).
use access_piliot.Prelude.{ℕ, Option, none, some}
use access_piliot.Store.{Session, ResourceType, Preserves, preserving_rules}
use access_piliot.Target.{resolve_target}
use access_piliot.Assignments.Create.{AssignmentCreate, known_user, find_workflow, check_app_role}

-- What `P` says of a state holds of any that is reached without a write.
module _ (P : Session → Type 0) where
  pub find_workflow-reads : (key : Option ℕ) → Preserves P (find_workflow key)
  unfolding find_workflow
  find_workflow-reads none = search preserving_rules
  find_workflow-reads (some key) = search preserving_rules depth 12

  pub known_user-reads : (key : Option ℕ) → Preserves P (known_user key)
  unfolding known_user
  known_user-reads none = search preserving_rules
  known_user-reads (some key) = search preserving_rules depth 12

  pub resolve_target-reads : (kind : ResourceType) (key : ℕ) → Preserves P (resolve_target kind key)
  unfolding resolve_target
  resolve_target-reads kind key = search preserving_rules depth 12

  pub check_app_role-reads : (body : AssignmentCreate) → Preserves P (check_app_role body)
  unfolding check_app_role
  check_app_role-reads body = search preserving_rules depth 16
