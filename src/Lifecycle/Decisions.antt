-- ===== src/Lifecycle/Decisions.antt =====
-- What `approve_assignment`, `reject_assignment`, `revoke_assignment` and `deactivate_assignment` do
-- to the rows of `access_assignments` (backend/app/services/assignments.py).
use access_piliot.Prelude.{ℕ, zero, suc, ◌≡◌, refl, Bool, true, false, not, Option, List, arith}
use access_piliot.Store.{
  Assignment, ActorRole, Status, pending_approval, eligible, rejected, revoked, AuditAction,
  NotificationType, Preserves, From-raise_if, From-write, preserving_rules, record_audit,
}
use access_piliot.Target.{get_assignment, hydrate}
use access_piliot.Grants.{is_active}
use access_piliot.Workflows.Outcomes.{is_pending}
use access_piliot.Assignments.Approval.{
  authorize_decision, tell_user, decide, approve_assignment, reject_assignment,
}
use access_piliot.Assignments.Revoke.{is_final, end_access, revoke_one, revoke_assignment}
use access_piliot.Assignments.Activate.{authorize_activation}
use access_piliot.Assignments.Deactivate.{give_back, deactivate_one, deactivate_assignment}
use access_piliot.Lifecycle.Order.{may_become, Succeeds}
use access_piliot.Lifecycle.Quiet.{
  Same, quiet_rules, record_audit-quiet, get_assignment-quiet, hydrate-quiet,
}
use access_piliot.Lifecycle.Effects.{revoke_provider_access-quiet}
use access_piliot.Lifecycle.Steps.{
  Safe, Safe-quiet, From-quiet, From-get_assignment, From-update_assignment,
}

module _ (x y : List Assignment) where
  pub authorize_decision-quiet :
      (a : Assignment) (subject : ℕ) (roles : List ActorRole)
      → Preserves (Same x y) (authorize_decision a subject roles)
  unfolding authorize_decision
  authorize_decision-quiet a subject roles = search quiet_rules depth 12

  pub authorize_activation-quiet :
      (a : Assignment) (subject : ℕ) (roles : List ActorRole)
      → Preserves (Same x y) (authorize_activation a subject roles)
  unfolding authorize_activation
  authorize_activation-quiet a subject roles = search quiet_rules depth 12

  pub tell_user-quiet :
      (a : Assignment) (actor : Option ℕ) (kind : NotificationType)
      → Preserves (Same x y) (tell_user a actor kind)
  unfolding tell_user
  tell_user-quiet a actor kind = search quiet_rules

  pub end_access-quiet :
      (a : Assignment) (actor : Option ℕ) → Preserves (Same x y) (end_access a actor)
  unfolding end_access
  end_access-quiet a actor = search (quiet_rules, revoke_provider_access-quiet) depth 12

  give_back-quiet : (a : Assignment) (actor : Option ℕ) → Preserves (Same x y) (give_back a actor)
  unfolding give_back
  give_back-quiet a actor = search (quiet_rules, revoke_provider_access-quiet) depth 12

-- A new status that may follow the one that was read, with the other columns of the grant kept.
pub Succeeds-new :
    (a b : Assignment)
    → b.user_id ≡ a.user_id
    → b.provider_id ≡ a.provider_id
    → b.resource_type ≡ a.resource_type
    → b.resource_id ≡ a.resource_id
    → b.app_role ≡ a.app_role
    → may_become a.status b.status ≡ true
    → Succeeds a b
Succeeds-new a b u p k r q st = record {
  user = u;
  provider = p;
  kind = k;
  resource = r;
  app_role = q;
  status = st;
}

pending-may :
    (from to : Status)
    → not (is_pending from) ≡ false
    → may_become pending_approval to ≡ true
    → may_become from to ≡ true
pending-may from to h k = ground arith

live-may : (from : Status) → is_final from ≡ false → may_become from revoked ≡ true
live-may from h = ground arith

active-may : (from : Status) → not (is_active from) ≡ false → may_become from eligible ≡ true
active-may from h = ground arith

module _ (before : List Assignment) where
  decide-Safe :
      (status : Status) (action : AuditAction) (kind : NotificationType) (key subject : ℕ)
      (roles : List ActorRole)
      → may_become pending_approval status ≡ true
      → Preserves (Safe before) (decide status action kind key subject roles)
  unfolding decide
  decide-Safe status action kind key subject roles may = From-get_assignment before key _ λ a.
      From-raise_if _ _ _ λ pending.
        From-quiet before key a _ _ (λ x y. authorize_decision-quiet x y a subject roles)
          λ actor.
            From-write _ _
              (From-update_assignment before key a _ (λ r. refl)
                (Succeeds-new a _ refl refl refl refl refl
                  (pending-may a.status status pending may)))
              (Safe-quiet before _ (λ x y. search (quiet_rules, tell_user-quiet) depth 12))

  revoke_one-Safe : (key subject : ℕ) → Preserves (Safe before) (revoke_one key subject)
  unfolding revoke_one
  revoke_one-Safe key subject = From-get_assignment before key _ λ a. From-raise_if _ _ _ λ live.
      From-quiet before key a _ _ (λ x y. search quiet_rules)
        λ actor.
          From-quiet before key a _ _ (λ x y. end_access-quiet x y a actor)
            λ done.
              From-quiet before key a _ _ (λ x y. search quiet_rules)
                λ now.
                  From-write _ _
                    (From-update_assignment before key a _ (λ r. refl)
                      (Succeeds-new a _ refl refl refl refl refl (live-may a.status live)))
                    (Safe-quiet before _ (λ x y. search (quiet_rules, tell_user-quiet) depth 12))

  deactivate_one-Safe :
      (key subject : ℕ) (roles : List ActorRole)
      → Preserves (Safe before) (deactivate_one key subject roles)
  unfolding deactivate_one
  deactivate_one-Safe key subject roles = From-get_assignment before key _ λ a.
      From-raise_if _ _ _ λ live.
        From-quiet before key a _ _ (λ x y. authorize_activation-quiet x y a subject roles)
          λ actor. From-raise_if _ _ _ λ allowed.
            From-quiet before key a _ _ (λ x y. give_back-quiet x y a actor)
              λ done.
                From-write _ _
                  (From-update_assignment before key a _ (λ r. refl)
                    (Succeeds-new a _ refl refl refl refl refl (active-may a.status live)))
                  (Safe-quiet before _ (λ x y. search (quiet_rules, tell_user-quiet) depth 12))

module _ (before : List Assignment) where
  audit-Safe :
      (action : AuditAction) (t p r : Option ℕ) (ok : Bool)
      → Preserves (Safe before) (record_audit action t p r ok)
  audit-Safe action t p r ok = Safe-quiet before _ (λ x y. record_audit-quiet x y action t p r ok)

  get_assignment-Safe : (key : ℕ) → Preserves (Safe before) (get_assignment key)
  get_assignment-Safe key = Safe-quiet before _ (λ x y. get_assignment-quiet x y key)

  hydrate-Safe : (a : Assignment) → Preserves (Safe before) (hydrate a)
  hydrate-Safe a = Safe-quiet before _ (λ x y. hydrate-quiet x y a)

  pub revoke-Safe :
      (fuel key subject : ℕ) → Preserves (Safe before) (revoke_assignment fuel key subject)
  unfolding revoke_assignment
  revoke-Safe zero key subject = search preserving_rules
  revoke-Safe (suc fuel) key subject =
      search
        (
          preserving_rules,
          revoke_one-Safe,
          revoke-Safe fuel,
          audit-Safe,
          get_assignment-Safe,
          hydrate-Safe,
        )
        depth 14

  pub deactivate-Safe :
      (fuel key subject : ℕ) (roles : List ActorRole)
      → Preserves (Safe before) (deactivate_assignment fuel key subject roles)
  unfolding deactivate_assignment
  deactivate-Safe zero key subject roles = search preserving_rules
  deactivate-Safe (suc fuel) key subject roles =
      search
        (
          preserving_rules,
          deactivate_one-Safe,
          deactivate-Safe fuel,
          audit-Safe,
          get_assignment-Safe,
          hydrate-Safe,
        )
        depth 14

  pub approve_assignment-Safe :
      (key subject : ℕ) (roles : List ActorRole)
      → Preserves (Safe before) (approve_assignment key subject roles)
  unfolding approve_assignment
  approve_assignment-Safe key subject roles = decide-Safe before eligible _ _ key subject roles refl

  pub reject_assignment-Safe :
      (key subject : ℕ) (roles : List ActorRole)
      → Preserves (Safe before) (reject_assignment key subject roles)
  unfolding reject_assignment
  reject_assignment-Safe key subject roles = decide-Safe before rejected _ _ key subject roles refl
