-- ===== src/Birthright/Policies.antt =====
-- The editing of birthright policies, and the validation and preview of a rule
-- (backend/app/services/birthright.py, backend/app/schemas/policies.py).
use access_piliot.Prelude.{
  ℕ, Bool, true, not, ◌&&◌, Option, none, some, List, [], ◌∷◌, ◌++◌, ◌==◌, if◌then◌else◌, same_id,
  select, any, get_row, update_row,
}
use access_piliot.Store.{
  Db, Text, UserField, Switch, enabled, ResourceType, group, role, application, access_package,
  business_role, AssignmentType, BirthrightPolicy, all_conditions, policy_not_found,
  policy_name_taken, package_not_found, business_role_not_found, birthright_policy_created,
  birthright_policy_updated, birthright_policy_deleted, M, pure, crash, gets, or_raise, raise_if,
  modify, commit, fresh_id, ◌>>=◌, ◌>>◌, record_audit,
}
use access_piliot.Target.{resolve_target}
use access_piliot.Workflows.Conditions.{text_eq, strip}
use access_piliot.Birthright.Reconcile.{policy_by}

pub record BirthrightPolicyCreate : Type 0 where
  pub name : Text
  pub match_field : UserField
  pub match_value : Text
  pub resource_type : ResourceType
  pub resource_id : ℕ
  pub app_role : Option ℕ
  pub assignment_type : AssignmentType

pub record BirthrightPolicyUpdate : Type 0 where
  pub name : Option Text
  pub match_value : Option Text
  pub status : Option Switch

-- The target has to exist.
unfoldable pub check_target : ResourceType → ℕ → M (Unit {0})
check_target access_package key = do
  found ← gets (λ s. get_row (λ p. p.id) key s.db.packages)
  or_raise found package_not_found
  pure tt
check_target business_role key = do
  found ← gets (λ s. get_row (λ r. r.id) key s.db.business_roles)
  or_raise found business_role_not_found
  pure tt
check_target group key = resolve_target group key >> pure tt
check_target role key = resolve_target role key >> pure tt
check_target application key = resolve_target application key >> pure tt

abbrev new_policy : ℕ → BirthrightPolicyCreate → BirthrightPolicy
new_policy key data' = record {
  id = key;
  name = data'.name;
  match_field = some data'.match_field;
  match_value = some (strip data'.match_value);
  target = some (record {
    resource_type = data'.resource_type;
    resource_id = data'.resource_id;
    app_role = data'.app_role;
  });
  assignment_type = data'.assignment_type;
  status = enabled;
  external_policy_id = none;
  scope_identity_type = none;
  conditions = [];
  conditions_operator = all_conditions;
  actions = [];
  reconciliation_enabled = true;
}

unfoldable pub create_birthright_policy : BirthrightPolicyCreate → M BirthrightPolicy
unfolding check_target strip text_eq
create_birthright_policy data' = do
  policies ← gets (λ s. s.db.birthright_policies)
  raise_if (any (λ p. text_eq p.name data'.name) policies) policy_name_taken
  check_target data'.resource_type data'.resource_id
  key ← fresh_id
  let row = new_policy key data'
  modify (λ db. record db { birthright_policies = db.birthright_policies ++ row ∷ [] })
  record_audit birthright_policy_created (some key) none none true
  commit
  pure row

unfoldable pub get_policy : ℕ → M BirthrightPolicy
get_policy key = do found ← gets (λ s. policy_by key s.db); or_raise found policy_not_found

abbrev or_old {ℓ} : {A : Type ℓ} → Option A → A → A
or_old none old = old
or_old (some new) old = new

abbrev or_kept : Option Text → Option Text → Option Text
or_kept none old = old
or_kept (some new) old = some new

abbrev edited : BirthrightPolicyUpdate → BirthrightPolicy → BirthrightPolicy
edited data' p = record p {
  name = or_old data'.name p.name;
  match_value = or_kept data'.match_value p.match_value;
  status = or_old data'.status p.status;
}

abbrev is_taken : ℕ → Text → List BirthrightPolicy → Bool
is_taken key name policies = any (λ p. not (p.id == key) && text_eq p.name name) policies

-- The name is unique in the table: the database refuses a second one when the row is written.
unfoldable pub update_birthright_policy : ℕ → BirthrightPolicyUpdate → M BirthrightPolicy
unfolding get_policy text_eq
update_birthright_policy key data' = do
  row ← get_policy key
  let new = edited data' row
  policies ← gets (λ s. s.db.birthright_policies)
  if is_taken key new.name policies then crash else (do
    modify λ db. record db {
      birthright_policies = update_row (λ p. p.id) key (edited data') db.birthright_policies;
    }
    record_audit birthright_policy_updated (some key) none none true
    commit
    pure new)

abbrev pub is_granted_by : ℕ → Db → Bool
is_granted_by key db = any (λ a. same_id a.birthright_policy_id (some key)) db.assignments

-- `access_assignments.birthright_policy_id` refers to the row: the database refuses to delete a
-- policy that any assignment still names, also one that has ended.
unfoldable pub delete_birthright_policy : ℕ → M (Unit {0})
unfolding get_policy
delete_birthright_policy key = do
  row ← get_policy key
  record_audit birthright_policy_deleted (some key) none none true
  referenced ← gets (λ s. is_granted_by key s.db)
  if referenced then crash else (do
    modify λ db. record db {
      birthright_policies = select (λ p. not (p.id == key)) db.birthright_policies;
    }
    commit)
