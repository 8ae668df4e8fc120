-- ===== src/Lifecycle/Sweeps.antt =====
-- What the background workers (backend/app/workers/activation.py, backend/app/workers/expiration.py)
-- and the outcome of a workflow (backend/app/services/workflows.py) do to the rows of
-- `access_assignments`.
use access_piliot.Prelude.{
  ℕ, ◌+◌, ◌≡◌, refl, Bool, true, false, Option, List, [], ◌∷◌, inl, inr, Bool-cases, arith,
}
use access_piliot.Store.{
  Assignment, AssignmentType, AuditAction, permanent, temporary, Instance, Status, M, Preserves,
  Preserves-bind, Preserves-pure, Preserves-if, Preserves-gets, From, From-if, From-Preserves,
  From-write, From-try_any, Db, commit_unless, rollback, close, pending_approval, eligible,
  rejected, active,
}
use access_piliot.Grants.{is_active}
use access_piliot.Sod.{non_empty}
use access_piliot.Workflows.Outcomes.{is_pending, apply_assignment_outcome, outcome_for, settle}
use access_piliot.Workers.{
  sweep, is_due, is_expired, is_eligibility_expired, activate_row, activate_due_assignments, ended,
  end_row, expire_row, expire_due_assignments, expire_eligibility, expire_due_eligibility,
  handle_key, in_own_session, record_outcome, write_outcome,
}
use access_piliot.Lifecycle.Order.{may_become, Succeeds}
use access_piliot.Lifecycle.Quiet.{quiet_rules}
use access_piliot.Lifecycle.Effects.{
  revoke_provider_access-quiet, grant_for_assignment-quiet, check_sod_conflicts-quiet,
}
use access_piliot.Lifecycle.Steps.{
  Safe, Found, Safe-quiet, From-quiet, From-assignment_by, From-update_assignment,
}
use access_piliot.Lifecycle.Decisions.{Succeeds-new}

-- What the query and the second look at the row tell of it.
pending-may :
    (from to : Status)
    → is_pending from ≡ true
    → may_become pending_approval to ≡ true
    → may_become from to ≡ true
pending-may from to h k = ground arith

is_expired-active : (a : Assignment) (now : ℕ) → is_expired a now ≡ true → is_active a.status ≡ true
is_expired-active a now due = ground arith

is_due-active : (a : Assignment) (now : ℕ) → is_due a now ≡ true → may_become a.status active ≡ true
is_due-active a now due = ground arith

ended-id : (r : Assignment) → (ended r).id ≡ r.id
ended-id r = ground arith

module _ (before : List Assignment) where
  settle-Safe :
      (a : Assignment) (actor : Option ℕ) (granted : Bool)
      → is_pending a.status ≡ true
      → From (Found a.id a) (Safe before) (settle a actor granted)
  unfolding settle
  settle-Safe a actor true pending =
      From-write _ _
        (From-update_assignment before a.id a _ (λ r. refl)
          (Succeeds-new a _ refl refl refl refl refl (pending-may a.status eligible pending refl)))
        (Safe-quiet before _ (λ x y. search quiet_rules))
  settle-Safe a actor false pending =
      From-write _ _
        (From-update_assignment before a.id a _ (λ r. refl)
          (Succeeds-new a _ refl refl refl refl refl (pending-may a.status rejected pending refl)))
        (Safe-quiet before _ (λ x y. search quiet_rules))

  pub outcome-Safe :
      (i : Instance) (subject : ℕ) (actor : Option ℕ)
      → Preserves (Safe before) (apply_assignment_outcome i subject actor)
  unfolding apply_assignment_outcome outcome_for
  outcome-Safe i subject actor = From-assignment_by before subject _ (Preserves-pure tt) λ a.
      From-if _ _ _
        (λ pending.
          From-quiet before a.id a _ _ (λ x y. search quiet_rules)
            λ target. settle-Safe a actor _ pending)
        (λ other. From-Preserves (Preserves-pure tt))

  in_own_session-Safe :
      (m : M ℕ) → Preserves (Safe before) m → Preserves (Safe before) (in_own_session m)
  unfolding close
  in_own_session-Safe m kept = record { at = λ s h. let k = kept.at s h in (k.1, k.1) }

  module _ (wanted : Assignment → ℕ → Bool) (body : Assignment → M ℕ)
      (row : (a : Assignment) (now : ℕ)
        → wanted a now ≡ true
        → From (Found a.id a) (Safe before) (body a)) where
    handle_key-Safe : (key : ℕ) → Preserves (Safe before) (handle_key wanted body key)
    handle_key-Safe key = From-assignment_by before key _ (Preserves-pure 0) λ a.
        From-quiet before a.id a _ _ (λ x y. search quiet_rules)
          λ now. From-if _ _ _ (row a now) (λ other. From-Preserves (Preserves-pure 0))

    sweep-Safe : (cs : List Assignment) → Preserves (Safe before) (sweep wanted body cs)
    unfolding sweep
    sweep-Safe [] = Preserves-pure 0
    sweep-Safe (c ∷ cs) = Preserves-bind _ _ (Preserves-gets _) λ now.
        Preserves-bind _ _
          (Preserves-if (wanted c now) _ _ (in_own_session-Safe _ (handle_key-Safe c.id))
            (Preserves-pure 0))
          (λ n. Preserves-bind _ _ (sweep-Safe cs) (λ rest. Preserves-pure (n + rest)))

  ended-Succeeds : (a : Assignment) → is_active a.status ≡ true → Succeeds a (ended a)
  ended-Succeeds a is_on = by_type a.assignment_type refl
    where
      by_type : (t : AssignmentType) → a.assignment_type ≡ t → Succeeds a (ended a)
      by_type permanent e =
          Succeeds-new a (ended a) (ground arith) (ground arith) (ground arith) (ground arith)
            (ground arith) (ground arith)
      by_type temporary e =
          Succeeds-new a (ended a) (ground arith) (ground arith) (ground arith) (ground arith)
            (ground arith) (ground arith)

  record_outcome-Safe :
      (action : AuditAction) (a : Assignment) (success : Bool)
      → Preserves (Safe before) (record_outcome action a success)
  unfolding record_outcome
  record_outcome-Safe action a success = Safe-quiet before _ (λ x y. search quiet_rules)

  write_outcome-Safe :
      (action : AuditAction) (a : Assignment) (f : Assignment → Assignment)
      → ((r : Assignment) → (f r).id ≡ r.id)
      → Succeeds a (f a)
      → From (Found a.id a) (Safe before) (write_outcome action a f)
  unfolding write_outcome
  write_outcome-Safe action a f keeps step =
      From-write _ _ (From-update_assignment before a.id a f keeps step)
        (record_outcome-Safe action a true)

  commit_unless-Safe : (refuses : Db → Bool) → Preserves (Safe before) (commit_unless refuses)
  unfolding commit_unless
  commit_unless-Safe refuses = record {
    at = λ s h. elim (Bool-cases (refuses s.db)) [
      | inl refused ↦ rw refused h
      | inr accepted ↦ rw accepted (h.0, h.0)
    ];
  }

  rollback-Safe : Preserves (Safe before) rollback
  unfolding rollback
  rollback-Safe = record { at = λ s h. (h.1, h.1) }

  end_row-Safe :
      (refuses : Db → Bool) (a : Assignment)
      → Succeeds a (ended a)
      → From (Found a.id a) (Safe before) (end_row refuses a)
  unfolding end_row
  end_row-Safe refuses a step =
      From-try_any _ _
        (From-write _ _ (From-update_assignment before a.id a ended (λ r. ended-id r) step) (
          Preserves-bind _ _ (Safe-quiet before _ (λ x y. search quiet_rules))
            λ noted. Preserves-bind _ _ (commit_unless-Safe refuses) λ done. Preserves-pure 1))
        (Preserves-bind _ _ rollback-Safe (λ done. Preserves-pure 0))

  expire_row-Safe :
      (refuses : Db → Bool) (a : Assignment) (now : ℕ)
      → is_expired a now ≡ true
      → From (Found a.id a) (Safe before) (expire_row refuses a)
  unfolding expire_row
  expire_row-Safe refuses a now due =
      From-quiet before a.id a _ _ (λ x y. revoke_provider_access-quiet x y a)
        λ removed.
          From-if removed _ _
            (λ done. end_row-Safe refuses a (ended-Succeeds a (is_expired-active a now due)))
            (λ failed. From-Preserves (record_outcome-Safe _ a false))

  expire_eligibility-Safe :
      (a : Assignment) (now : ℕ)
      → is_eligibility_expired a now ≡ true
      → From (Found a.id a) (Safe before) (expire_eligibility a)
  unfolding expire_eligibility
  expire_eligibility-Safe a now due =
      write_outcome-Safe _ a _ (λ r. refl)
        (Succeeds-new a _ refl refl refl refl refl (ground arith))

  activate_row-Safe :
      (a : Assignment) (now : ℕ)
      → is_due a now ≡ true
      → From (Found a.id a) (Safe before) (activate_row a)
  unfolding activate_row
  activate_row-Safe a now due =
      From-quiet before a.id a _ _
        (λ x y. check_sod_conflicts-quiet x y a.user_id a.resource_type a.resource_id a.app_role)
        λ conflicts.
          From-if (non_empty conflicts) _ _ (λ met. From-Preserves (record_outcome-Safe _ a false))
            λ free.
              From-quiet before a.id a _ _ (λ x y. grant_for_assignment-quiet x y a)
                λ granted.
                  From-quiet before a.id a _ _ (λ x y. Preserves-gets (λ s. s.now))
                    λ moment.
                      From-if granted _ _
                        (λ done.
                          write_outcome-Safe _ a _ (λ r. refl)
                            (Succeeds-new a _ refl refl refl refl refl (is_due-active a now due)))
                        (λ failed. From-Preserves (record_outcome-Safe _ a false))

  pub expire_due_assignments-Safe :
      (refuses : Db → Bool) → Preserves (Safe before) (expire_due_assignments refuses)
  unfolding expire_due_assignments
  expire_due_assignments-Safe refuses =
      Preserves-bind _ _ (Preserves-gets _)
        (sweep-Safe is_expired (expire_row refuses) (expire_row-Safe refuses))

  pub expire_due_eligibility-Safe : Preserves (Safe before) expire_due_eligibility
  unfolding expire_due_eligibility
  expire_due_eligibility-Safe =
      Preserves-bind _ _ (Preserves-gets _)
        (sweep-Safe is_eligibility_expired expire_eligibility expire_eligibility-Safe)

  pub activate_due_assignments-Safe : Preserves (Safe before) activate_due_assignments
  unfolding activate_due_assignments
  activate_due_assignments-Safe =
      Preserves-bind _ _ (Preserves-gets _) (sweep-Safe is_due activate_row activate_row-Safe)
