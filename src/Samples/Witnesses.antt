-- ===== src/Samples/Witnesses.antt =====
-- The theorems about backend/app/services and backend/app/workers at the sample data.
use mathlib.Core.Logic.{◌↔◌}
use access_piliot.Prelude.{
  ℕ, zero, suc, ◌≡◌, ◌⊎◌, inl, inr, refl, Bool, true, false, none, some, List, [], ◌∷◌, arith,
  get_row, update_row,
}
use access_piliot.Store.{
  Session, Db, Assignment, User, pending_approval, eligible, active, expired, Reply, is_admin,
  confirmed, declined, ok, raised, provider_unavailable, commit, modify, raise_if, call,
  record_audit, create_notification, ◌>>=◌, fresh_id, try_else, revoked,
}
use access_piliot.Target.{assignment_by, get_assignment, update_assignment, resolve_target, hydrate}
use access_piliot.Hierarchy.{manager_of, would_create_cycle, update_user_hierarchy}
use access_piliot.Hierarchy.Chains.{climb, climb-none, IsAcyclic}
use access_piliot.Hierarchy.Walk.{would_create_cycle-total, would_create_cycle_iff}
use access_piliot.Hierarchy.Acyclic.{ChartIsAcyclic, update_user_hierarchy-IsAcyclic}
use access_piliot.Assignments.Approval.{approve_assignment, authorize_decision, tell_user}
use access_piliot.Grants.{
  is_active, external_of, granted, supersede, revoke_provider_access, grant_provider_access,
  supersede_existing_assignment, record_local_group_membership, remove_local_group_membership,
}
use access_piliot.Accounts.{
  add_account, linked_or_new, mirror, mirror_in, new_account, provision_in,
  ensure_account_in_provider, ensure_primary_account,
}
use access_piliot.Sod.{check_sod_conflicts, check_policies, get_sod_notification_settings}
use access_piliot.Workflows.Outcomes.{is_pending}
use access_piliot.Assignments.Mappings.{is_eligible}
use access_piliot.Assignments.Guards.{
  MayDecide, MayActivate, InWindow, approve_assignment-ok, activate_one-ok, deactivate_one-ok,
}
use access_piliot.Assignments.Activate.{
  activate_one, authorize_activation, check_window, activation_gate, grant_or_record, make_active,
}
use access_piliot.Assignments.Deactivate.{deactivate_one, give_back}
use access_piliot.Assignments.Revoke.{revoke_one, is_final, end_access}
use access_piliot.Lifecycle.Removal.{
  expire_row-confirmed, expire_row-refused, expire_row-declined, revoke_one-declined,
}
use access_piliot.Lifecycle.Order.{Follows}
use access_piliot.Lifecycle.History.{
  nothing, also, approval, activation, expiry_run, Reaches-Follows, Reaches-final,
}
use access_piliot.Workers.{expire_row, expire_due_assignments}
use access_piliot.Lifecycle.Results.{revoke_one-ok}
use access_piliot.Samples.{session_with, grant, person, administrator}

-- Databases that accept and refuse every write.
abbrev willing : Db → Bool
willing db = false

abbrev unwilling : Db → Bool
unwilling db = true

abbrev pending_session : Session
pending_session = session_with confirmed (grant 10 pending_approval none ∷ [])

abbrev approved_session : Session
approved_session = (approve_assignment 10 101 administrator pending_session).1

abbrev activated_session : Session
activated_session = (activate_one 10 102 [] 3600 false approved_session).1

Reaches-Follows_example :
    Follows pending_session.db.assignments activated_session.db.assignments
    × Follows pending_session.db.assignments activated_session.saved.assignments
Reaches-Follows_example = Reaches-Follows pending_session activated_session refl refl (
    also (also (nothing pending_session) (approval 10 101 administrator pending_session))
      (activation 10 102 [] 3600 false approved_session))

abbrev final_session : Session
final_session = session_with confirmed (grant 11 expired (some 5) ∷ grant 12 active (some 5) ∷ [])

Reaches-final_example :
    (b : Assignment) × (assignment_by 11 (expire_due_assignments willing final_session).1.saved
      ≡ some b)
    × (b.status ≡ expired)
unfolding get_row
Reaches-final_example =
    Reaches-final final_session (expire_due_assignments willing final_session).1 11
      (grant 11 expired (some 5)) refl refl
      (also (nothing final_session) (expiry_run willing final_session)) refl refl

abbrev staff : List User
staff = person 1 101 none ∷ person 2 102 (some 1) ∷ []

staff-manager_of : (i : ℕ) → (manager_of staff i ≡ none) ⊎ ((i ≡ 2) × (manager_of staff i ≡ some 1))
unfolding manager_of get_row
staff-manager_of i = ground arith

staff-IsAcyclic : IsAcyclic staff
unfolding manager_of get_row
staff-IsAcyclic n i same = elim (staff-manager_of i) [
  | inl top ↦ cc (climb-none staff n, top, same)
  | inr (second, below) ↦ by_steps n second (cc (below, same))
]
  where
    by_steps : (n : ℕ) → i ≡ 2 → climb staff n (some 1) ≡ some i → ⊥
    by_steps zero e h = ground arith
    by_steps (suc n) e h = cc (climb-none staff n, h)

update_user_hierarchy-IsAcyclic_example :
    ChartIsAcyclic
      (update_user_hierarchy 1
        (record {
          clear_employee_category = false;
          employee_category = none;
          clear_manager = false;
          manager_id = some 2;
        })
        (some 1)
        pending_session).1
update_user_hierarchy-IsAcyclic_example =
    update_user_hierarchy-IsAcyclic 1 _ (some 1) pending_session (staff-IsAcyclic, staff-IsAcyclic)

would_create_cycle-total_example : (b : Bool) × (would_create_cycle staff 1 2 ≡ some b)
would_create_cycle-total_example = would_create_cycle-total staff 1 2

would_create_cycle_iff_example :
    (would_create_cycle staff 1 2 ≡ some true) ↔ ((n : ℕ) × (climb staff n (some 2) ≡ some 1))
would_create_cycle_iff_example = would_create_cycle_iff staff 1 2

approved :
    (approve_assignment 10 101 administrator pending_session).0
    ≡ ok (record (grant 10 eligible none) { approved_by = some 1 })
unfolding approve_assignment get_assignment authorize_decision update_assignment modify record_audit
    tell_user resolve_target create_notification commit hydrate raise_if ◌>>=◌ get_row update_row
approved = refl

approve_assignment-ok_example :
    (a : Assignment) × (assignment_by 10 pending_session.db ≡ some a)
    × (is_pending a.status ≡ true)
    × MayDecide a 101 administrator pending_session
approve_assignment-ok_example =
    approve_assignment-ok 10 101 administrator pending_session
      (record (grant 10 eligible none) { approved_by = some 1 }) approved

abbrev eligible_session : Session
eligible_session = session_with confirmed (grant 10 eligible none ∷ [])

activated :
    (activate_one 10 102 [] 3600 false eligible_session).0
    ≡ ok (record (grant 10 active (some 4600)) { activated_at = some 1000 })
unfolding activate_one ◌>>=◌ get_assignment get_row raise_if authorize_activation check_window
    activation_gate check_sod_conflicts check_policies supersede_existing_assignment resolve_target
    grant_or_record try_else grant_provider_access ensure_account_in_provider ensure_primary_account
    add_account linked_or_new mirror mirror_in new_account provision_in make_active external_of
    granted call record_local_group_membership modify update_assignment update_row record_audit
    commit fresh_id get_sod_notification_settings supersede create_notification
activated = refl

activate_one-ok_example :
    (a : Assignment) × (assignment_by 10 eligible_session.db ≡ some a)
    × (is_eligible a.status ≡ true)
    × MayActivate a 102 [] eligible_session
    × InWindow a 3600 eligible_session
activate_one-ok_example =
    activate_one-ok 10 102 [] 3600 false eligible_session
      (record (grant 10 active (some 4600)) { activated_at = some 1000 }) activated

abbrev active_session : Reply → Session
active_session reply = session_with reply (grant 10 active (some 500) ∷ [])

deactivated : (deactivate_one 10 102 [] (active_session confirmed)).0 ≡ ok (grant 10 eligible none)
unfolding deactivate_one ◌>>=◌ get_assignment get_row raise_if authorize_activation give_back
    revoke_provider_access resolve_target call remove_local_group_membership modify
    update_assignment record_audit tell_user commit update_row
deactivated = refl

deactivate_one-ok_example :
    (a : Assignment) × (assignment_by 10 (active_session confirmed).db ≡ some a)
    × (is_active a.status ≡ true)
    × MayActivate a 102 [] (active_session confirmed)
    × (a.bypass_activation ≡ true → is_admin [] ≡ true)
deactivate_one-ok_example =
    deactivate_one-ok 10 102 [] (active_session confirmed) (grant 10 eligible none) deactivated

removed :
    (revoke_provider_access (grant 10 active (some 500)) (active_session confirmed)).0 ≡ ok true
unfolding revoke_provider_access ◌>>=◌ get_row resolve_target call remove_local_group_membership
    modify
removed = refl

not-removed :
    (revoke_provider_access (grant 10 active (some 500)) (active_session declined)).0 ≡ ok false
unfolding revoke_provider_access ◌>>=◌ get_row resolve_target call
not-removed = refl

expire_row-confirmed_example :
    ((expire_row willing (grant 10 active (some 500)) (active_session confirmed)).0 ≡ ok 1)
    × (assignment_by 10
          (expire_row willing (grant 10 active (some 500)) (active_session confirmed)).1.saved
        ≡ some (grant 10 eligible none))
unfolding get_row
expire_row-confirmed_example =
    expire_row-confirmed willing (grant 10 active (some 500)) (active_session confirmed) removed
      refl (λ db. refl)

expire_row-refused_example :
    let (r, t) = expire_row unwilling (grant 10 active (some 500)) (active_session confirmed) in
    (r ≡ ok 0)
    × (t.saved.assignments ≡ (active_session confirmed).saved.assignments)
    × (t.db ≡ t.saved)
expire_row-refused_example =
    expire_row-refused unwilling (grant 10 active (some 500)) (active_session confirmed) removed
      refl (λ db. refl)

expire_row-declined_example :
    ((expire_row unwilling (grant 10 active (some 500)) (active_session declined)).0 ≡ ok 0)
    × ((expire_row unwilling
          (grant 10 active (some 500))
          (active_session declined)).1.db.assignments
        ≡ (active_session declined).db.assignments)
expire_row-declined_example =
    expire_row-declined unwilling (grant 10 active (some 500)) (active_session declined) not-removed

revoke_one-declined_example :
    ((revoke_one 10 101 (active_session declined)).0 ≡ raised provider_unavailable)
    × ((revoke_one 10 101 (active_session declined)).1.db.assignments
        ≡ (active_session declined).db.assignments)
unfolding get_row
revoke_one-declined_example =
    revoke_one-declined 10 101 (grant 10 active (some 500)) (active_session declined) refl refl
      not-removed

-- Nothing is removed from the directory, as the assignment was not active.
revoked_now :
    (revoke_one 10 101 pending_session).0
    ≡ ok (record (grant 10 revoked none) { revoked_at = some 1000 })
unfolding revoke_one end_access ◌>>=◌ get_assignment get_row raise_if modify update_assignment
    record_audit tell_user resolve_target create_notification commit update_row
revoked_now = refl

revoke_one-ok_example :
    (a : Assignment) × (moment : ℕ) × (assignment_by 10 pending_session.db ≡ some a)
    × (is_final a.status ≡ false)
    × (record (grant 10 revoked none) { revoked_at = some 1000 }
        ≡ record a { status = revoked; revoked_at = some moment })
revoke_one-ok_example =
    revoke_one-ok 10 101 pending_session (record (grant 10 revoked none) { revoked_at = some 1000 })
      revoked_now
