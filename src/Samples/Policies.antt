-- ===== src/Samples/Policies.antt =====
-- The theorems about birthright policies (backend/app/services/birthright.py) at the sample data: the
-- people of `it` are given the team.
use mathlib.Core.Logic.{◌↔◌}
use mathlib.Core.List.{Memᴰ}
use access_piliot.Prelude.{
  ℕ, ◌≡◌, ◌≢◌, ◌==◌, refl, true, false, none, some, List, [], ◌∷◌, get_row, map,
}
use access_piliot.Store.{
  Session, Text, User, Assignment, BirthrightPolicy, RuleCondition, eligible, confirmed, enabled,
  disabled, permanent, group, compares_to, is_in, equals, all_conditions, any_condition,
  department_field, status_field, Switch, or_raise, ◌>>=◌, record_audit, modify, commit,
}
use access_piliot.Target.{assignment_by}
use access_piliot.Birthright.Rules.{matches_conditions, rule_condition_matches, policy_matches_user}
use access_piliot.Birthright.Reconcile.{policy_by, reconcile_birthright_policies_for_user}
use access_piliot.Birthright.Policies.{delete_birthright_policy, is_granted_by}
use access_piliot.Birthright.Preview.{
  RuleJson, with_one, one_value, valid_conditions, json_of, stored_conditions, matching_users,
  policy_rule_json, validate_rule,
}
use access_piliot.Birthright.Matching.{matching_users-stored, matches_conditions_iff}
use access_piliot.Birthright.Saving.{valid_conditions-stored, policy_rule_json-matches}
use access_piliot.Birthright.Editing.{delete_birthright_policy-ok}
use access_piliot.Birthright.Untouched.{reconcile_birthright_policies-untouched}
use access_piliot.Samples.{session_with, grant, person, no_handlers}

-- ` IT `, with white space around it.
abbrev it_text : Text
it_text = 32 ∷ b'I' ∷ b'T' ∷ 32 ∷ []

abbrev policy : ℕ → Switch → BirthrightPolicy
policy key status = record {
  id = key;
  name = b'p' ∷ [];
  match_field = some department_field;
  match_value = some it_text;
  target = some (record { resource_type = group; resource_id = 5; app_role = none });
  assignment_type = permanent;
  status = status;
  external_policy_id = none;
  scope_identity_type = none;
  conditions = [];
  conditions_operator = all_conditions;
  actions = [];
  reconciliation_enabled = true;
}

abbrev by_policy : ℕ → ℕ → Assignment
by_policy key policy = record (grant key eligible none) { birthright_policy_id = some policy }

abbrev with_policies : List BirthrightPolicy → List Assignment → Session
with_policies policies rows =
    let s = session_with confirmed rows in
    record s {
      db = record s.db { birthright_policies = policies };
      saved = record s.saved { birthright_policies = policies };
    }

-- The first row was granted by hand, the second by a policy that was switched off since.
abbrev mover_session : Session
mover_session =
    with_policies (policy 50 enabled ∷ policy 51 disabled ∷ [])
      (grant 10 eligible none ∷ by_policy 11 51 ∷ [])

reconcile_birthright_policies-untouched_example :
    let t = (reconcile_birthright_policies_for_user no_handlers 2 2 101 mover_session).1 in
    (assignment_by 10 t.db ≡ some (grant 10 eligible none))
    × (assignment_by 10 t.saved ≡ some (grant 10 eligible none))
unfolding get_row
reconcile_birthright_policies-untouched_example =
    reconcile_birthright_policies-untouched no_handlers 2 2 101 10 (grant 10 eligible none)
      (person 2 102 (some 1)) mover_session refl refl refl refl refl

abbrev in_it : RuleCondition
in_it = record { field = department_field; test = compares_to equals it_text }

abbrev is_active_or_it : List RuleCondition
is_active_or_it =
    in_it ∷ record { field = status_field; test = is_in (it_text ∷ it_text ∷ []) } ∷ []

matching_users-stored_example :
    matching_users (stored_conditions is_active_or_it) any_condition mover_session.db
    ≡ matching_users is_active_or_it any_condition mover_session.db
matching_users-stored_example = matching_users-stored is_active_or_it any_condition mover_session.db

abbrev employee : User
employee = person 2 102 (some 1)

matches_conditions_iff_example :
    ((matches_conditions employee is_active_or_it all_conditions ≡ true) ↔ (
      (is_active_or_it ≢ [])
      × ((c : RuleCondition) → Memᴰ c is_active_or_it → rule_condition_matches employee c ≡ true)))
    × ((matches_conditions employee is_active_or_it any_condition ≡ true) ↔ (
        (c : RuleCondition) × Memᴰ c is_active_or_it × (rule_condition_matches employee c ≡ true)))
matches_conditions_iff_example = matches_conditions_iff employee is_active_or_it

abbrev it_rule : RuleJson
it_rule = record {
  operator = some all_conditions;
  conditions =
      record {
        field = some department_field;
        operator = with_one equals;
        value = one_value it_text;
      }
      ∷ [];
}

valid_conditions-stored_example :
    valid_conditions (map json_of (stored_conditions (in_it ∷ [])))
    ≡ some (stored_conditions (in_it ∷ []))
unfolding valid_conditions
valid_conditions-stored_example = valid_conditions-stored it_rule.conditions (in_it ∷ []) refl

policy_rule_json-matches_example :
    matches_conditions employee (stored_conditions (in_it ∷ [])) all_conditions
    ≡ policy_matches_user employee (policy 50 enabled)
unfolding policy_rule_json validate_rule or_raise
policy_rule_json-matches_example =
    policy_rule_json-matches (policy 50 enabled) it_rule mover_session
      (record { operator = all_conditions; conditions = in_it ∷ [] }) employee refl refl

delete_birthright_policy-ok_example :
    let t = (delete_birthright_policy 50 mover_session).1 in
    (policy_by 50 t.db ≡ none)
    × (is_granted_by 50 t.db ≡ false)
    × ((k : ℕ) → (k == 50) ≡ false → policy_by k t.db ≡ policy_by k mover_session.db)
unfolding delete_birthright_policy ◌>>=◌ get_row record_audit modify commit
delete_birthright_policy-ok_example = delete_birthright_policy-ok 50 mover_session refl
