-- ===== src/Samples/Conflicts.antt =====
-- The theorems about Separation of Duties (backend/app/services/sod.py) at the sample data: a policy of
-- two groups, of which the person is in one.
use access_piliot.Prelude.{ℕ, ◌≡◌, refl, true, false, none, some, [], ◌∷◌, all, select, get_row}
use access_piliot.Store.{
  Session, SodPolicy, SodPolicyEntity, SodSettings, SodException, enabled, Side, side_a, side_b,
  group, confirmed, active, ok,
}
use access_piliot.Sod.{check_sod_conflicts}
use access_piliot.Sod.Specification.{in_conflict}
use access_piliot.Sod.Promise.{check_sod_conflicts-in_conflict}
use access_piliot.SodPolicies.Violations.{Violation}
use access_piliot.SodPolicies.Notices.{reconcile_violations}
use access_piliot.SodPolicies.Mirror.{is_announced, is_grounded, reconcile_violations-mirrored}
use access_piliot.SodPolicies.Referenced.{is_whole}
use access_piliot.SodPolicies.History.{delete_edit, run_edit, run_edit-is_whole}
use access_piliot.Samples.{session_with, grant, team}

abbrev policy : SodPolicy
policy = record { id = 50; name = b'p' ∷ []; status = enabled }

abbrev rule : Side → ℕ → SodPolicyEntity
rule side key = record {
  sod_policy_id = 50;
  conflict_side = side;
  entity_type = group;
  entity_id = key;
  app_role = none;
}

abbrev settings : SodSettings
settings = record {
  cooldown_enabled = false;
  cooldown_hours = 24;
  notify_on_new_violation = true;
  notify_on_exception_expiring = true;
  exception_expiring_warning_days = 7;
  notify_on_exception_requested = true;
}

abbrev exception : SodException
exception = record {
  id = 51;
  sod_policy_id = 50;
  user_id = 1;
  expires_at = 5000;
  revoked_at = none;
}

abbrev conflict_session : Session
conflict_session =
    let s = session_with confirmed (grant 10 active none ∷ []) in
    record s {
      db = record s.db {
        groups = team ∷ record team { id = 6 } ∷ [];
        sod_policies = policy ∷ [];
        sod_entities = rule side_a 5 ∷ rule side_b 6 ∷ [];
        sod_exceptions = exception ∷ [];
      };
    }

-- The person is in the group of one side, and asks for that of the other side.
check_sod_conflicts-in_conflict_example : check_sod_conflicts 2 group 6 none conflict_session ≡ (
  ok (
      select
        (in_conflict settings 2
          (record { kind = group; resource = 6; app_role = none })
          conflict_session)
        (policy ∷ [])),
  conflict_session,
)
unfolding get_row
check_sod_conflicts-in_conflict_example =
    check_sod_conflicts-in_conflict 2 group 6 none settings conflict_session refl refl

abbrev found : Violation
found = record {
  policy_id = 50;
  user_id = 2;
  side_a_holdings = [];
  side_b_holdings = [];
  exception_active = false;
}

reconcile_violations-mirrored_example :
    let (r, t) = reconcile_violations (found ∷ []) conflict_session in
    (r ≡ ok tt)
    × (all (is_announced t.db.sod_notifications) (found ∷ []) ≡ true)
    × (all (is_grounded (found ∷ [])) t.db.sod_notifications ≡ true)
    × (t.saved ≡ t.db)
reconcile_violations-mirrored_example = reconcile_violations-mirrored (found ∷ []) conflict_session

-- The policy has an exception, so that it is only switched off.
run_edit-is_whole_example :
    is_whole (run_edit (delete_edit 50) (some 1) conflict_session).1.db ≡ true
run_edit-is_whole_example = run_edit-is_whole (delete_edit 50) (some 1) conflict_session refl
