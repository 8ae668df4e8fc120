-- ===== src/Lifecycle/History.antt =====
-- Sequences of operations on `access_assignments`: `approve_assignment`, `reject_assignment`,
-- `revoke_assignment` and `deactivate_assignment` of backend/app/services/assignments.py, the
-- activation of a single row there, runs of the workers of backend/app/workers, outcomes of workflows
-- for assignments, and the end of a request, in any order. Creation is no step.
use access_piliot.Prelude.{ℕ, ◌≡◌, Bool, true, Option, some, List, arith}
use access_piliot.Store.{Db, Session, Assignment, ActorRole, Instance, Status, close, World}
use access_piliot.Target.{assignment_by}
use access_piliot.Workflows.Outcomes.{apply_assignment_outcome}
use access_piliot.Assignments.Approval.{approve_assignment, reject_assignment}
use access_piliot.Assignments.Revoke.{is_final, revoke_assignment}
use access_piliot.Assignments.Deactivate.{deactivate_assignment}
use access_piliot.Workers.{activate_due_assignments, expire_due_assignments, expire_due_eligibility}
use access_piliot.Lifecycle.Order.{may_become, Follows, Follows-refl}
use access_piliot.Lifecycle.Steps.{Later, Safe}
use access_piliot.Lifecycle.Decisions.{
  approve_assignment-Safe, reject_assignment-Safe, revoke-Safe, deactivate-Safe,
}
use access_piliot.Assignments.Activate.{activate_one}
use access_piliot.Lifecycle.Activation.{activate_one-Safe}
use access_piliot.Lifecycle.Keys.{are_distinct}
use access_piliot.Lifecycle.Sweeps.{
  outcome-Safe, activate_due_assignments-Safe, expire_due_assignments-Safe,
  expire_due_eligibility-Safe,
}

-- One of these operations, with any arguments and however it ends. Between two operations time passes, a
-- directory may come to answer differently, and a session is closed.
pub data Step : Session → Session → Type 0 where
  approval :
      (key subject : ℕ) (roles : List ActorRole) (s : Session)
      → Step s (approve_assignment key subject roles s).1
  rejection :
      (key subject : ℕ) (roles : List ActorRole) (s : Session)
      → Step s (reject_assignment key subject roles s).1
  -- The activation of the one row that is named. What it creates and activates in cascade for a
  -- group is no step.
  activation :
      (key subject : ℕ) (roles : List ActorRole) (duration : ℕ) (override_sod : Bool) (s : Session)
      → Step s (activate_one key subject roles duration override_sod s).1
  revocation :
      (fuel key subject : ℕ) (s : Session) → Step s (revoke_assignment fuel key subject s).1
  deactivation :
      (fuel key subject : ℕ) (roles : List ActorRole) (s : Session)
      → Step s (deactivate_assignment fuel key subject roles s).1
  outcome :
      (i : Instance) (subject : ℕ) (actor : Option ℕ) (s : Session)
      → Step s (apply_assignment_outcome i subject actor s).1
  activation_run : (s : Session) → Step s (activate_due_assignments s).1
  -- The database may refuse to commit the end of some rows.
  expiry_run : (refuses : Db → Bool) (s : Session) → Step s (expire_due_assignments refuses s).1
  eligibility_run : (s : Session) → Step s (expire_due_eligibility s).1
  closing : (s : Session) → Step s (close s)
  passing :
      (moment : ℕ) (world : World) (s : Session) → Step s (record s { now = moment; world = world })

pub data Reaches : Session → Session → Type 0 where
  nothing : (s : Session) → Reaches s s
  also : {s t u : Session} → Reaches s t → Step t u → Reaches s u

module _ (before : List Assignment) where
  Step-Safe : {s t : Session} → Step s t → Safe before s → Safe before t
  unfolding close
  Step-Safe (approval key subject roles s) h =
      (approve_assignment-Safe before key subject roles).at s h
  Step-Safe (rejection key subject roles s) h =
      (reject_assignment-Safe before key subject roles).at s h
  Step-Safe (activation key subject roles duration override_sod s) h =
      (activate_one-Safe before key subject roles duration override_sod).at s h
  Step-Safe (revocation fuel key subject s) h = (revoke-Safe before fuel key subject).at s h
  Step-Safe (deactivation fuel key subject roles s) h =
      (deactivate-Safe before fuel key subject roles).at s h
  Step-Safe (outcome i subject actor s) h = (outcome-Safe before i subject actor).at s h
  Step-Safe (activation_run s) h = (activate_due_assignments-Safe before).at s h
  Step-Safe (expiry_run refuses s) h = (expire_due_assignments-Safe before refuses).at s h
  Step-Safe (eligibility_run s) h = (expire_due_eligibility-Safe before).at s h
  Step-Safe (closing s) h = (h.1, h.1)
  Step-Safe (passing moment world s) h = h

  Reaches-Safe : {s t : Session} → Reaches s t → Safe before s → Safe before t
  Reaches-Safe (nothing s) h = h
  Reaches-Safe (also earlier step) h = Step-Safe step (Reaches-Safe earlier h)

-- Let a session start with nothing uncommitted and no two assignments under one key. After any
-- sequence of approvals, rejections, activations of one named row each (what an activation creates
-- and activates in cascade for a group is not spoken of, nor is any other creation), revocations and
-- deactivations with their cascades, outcomes of workflows for assignments, runs of the three
-- workers, ends of requests and changes of the time and of the directories' behaviour, whatever each
-- of them returned or raised: every row of `access_assignments` is still there, in the session and in
-- what is committed, grants the same target to the same person, and has a status that may follow the
-- one it had.
pub Reaches-Follows :
    (s t : Session)
    → s.saved ≡ s.db
    → are_distinct s.db.assignments ≡ true
    → Reaches s t
    → Follows s.db.assignments t.db.assignments × Follows s.db.assignments t.saved.assignments
Reaches-Follows s t fresh distinct history =
    let start : Later s.db.assignments s.db.assignments =
      (Follows-refl s.db.assignments, distinct) in
    let safe = Reaches-Safe s.db.assignments history (start, rw fresh start) in (safe.0.0, safe.1.0)

final-stays : (from to : Status) → is_final from ≡ true → may_become from to ≡ true → to ≡ from
final-stays from to h k = ground arith

-- Let a session start with nothing uncommitted and no two assignments under one key. After any sequence
-- of the operations of `Step` an assignment that was rejected, revoked or expired is still committed
-- with the same status.
pub Reaches-final :
    (s t : Session) (key : ℕ) (a : Assignment)
    → s.saved ≡ s.db
    → are_distinct s.db.assignments ≡ true
    → Reaches s t
    → assignment_by key s.db ≡ some a
    → is_final a.status ≡ true
    → (b : Assignment) × (assignment_by key t.saved ≡ some b) × (b.status ≡ a.status)
Reaches-final s t key a fresh distinct history found final =
    let (b, there, after) = (Reaches-Follows s t fresh distinct history).1.at key a found in
    (b, there, final-stays a.status b.status final after.status)
