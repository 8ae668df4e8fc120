-- ===== src/Assignments/MappingEdits.antt =====
-- The editing of the mappings of groups (`create_group_role_mapping`, `update_group_role_mapping`,
-- `delete_group_role_mapping` of backend/app/services/group_role_mapping.py). The members of the group
-- are reconciled at once.
use access_piliot.Prelude.{
  ℕ, Bool, true, not, Option, none, some, [], ◌∷◌, ◌++◌, ◌==◌, if◌then◌else◌, same_id, any, select,
  get_row, update_row,
}
use access_piliot.Store.{
  Db, Mapping, ResourceType, group, role, application, access_package, business_role,
  AssignmentType, Switch, enabled, group_not_found, business_role_not_found,
  group_role_mapping_not_found, group_role_mapping_created, group_role_mapping_updated,
  group_role_mapping_deleted, M, pure, crash, gets, or_raise, modify, commit, fresh_id, ◌>>=◌, ◌>>◌,
  record_audit,
}
use access_piliot.Target.{resolve_target}
use access_piliot.Workflows.Outcomes.{Handlers}
use access_piliot.Assignments.Mappings.{reconcile_all_members_of_group}

pub record GroupRoleMappingCreate : Type 0 where
  pub source_group_id : ℕ
  pub resource_type : ResourceType
  pub resource_id : ℕ
  pub app_role : Option ℕ
  pub assignment_type : AssignmentType

abbrev pub mapping_by : ℕ → Db → Option Mapping
mapping_by key db = get_row (λ m. m.id) key db.mappings

unfoldable pub get_mapping : ℕ → M Mapping
get_mapping key = do
  found ← gets (λ s. mapping_by key s.db)
  or_raise found group_role_mapping_not_found

unfoldable pub check_mapping_target : ResourceType → ℕ → M (Unit {0})
check_mapping_target business_role key = do
  found ← gets (λ s. get_row (λ r. r.id) key s.db.business_roles)
  or_raise found business_role_not_found
  pure tt
check_mapping_target group key = resolve_target group key >> pure tt
check_mapping_target role key = resolve_target role key >> pure tt
check_mapping_target application key = resolve_target application key >> pure tt
check_mapping_target access_package key = resolve_target access_package key >> pure tt

-- The answer looks the target up, but not a business role.
unfoldable pub hydrate_mapping : Mapping → ResourceType → M (Unit {0})
hydrate_mapping m business_role = pure tt
hydrate_mapping m group = resolve_target group m.resource_id >> pure tt
hydrate_mapping m role = resolve_target role m.resource_id >> pure tt
hydrate_mapping m application = resolve_target application m.resource_id >> pure tt
hydrate_mapping m access_package = resolve_target access_package m.resource_id >> pure tt

abbrev set_mapping_status : Option Switch → Mapping → Mapping
set_mapping_status none m = m
set_mapping_status (some status) m = record m { status = status }

abbrev pub is_granted_by_mapping : ℕ → Db → Bool
is_granted_by_mapping key db = any (λ a. same_id a.group_role_mapping_id (some key)) db.assignments

module _ (handlers : Handlers) (fuel : ℕ) where
  unfoldable pub create_group_role_mapping : GroupRoleMappingCreate → (subject : ℕ) → M ℕ
  unfolding check_mapping_target hydrate_mapping
  create_group_role_mapping data' subject = do
    found ← gets (λ s. get_row (λ g. g.id) data'.source_group_id s.db.groups)
    or_raise found group_not_found
    check_mapping_target data'.resource_type data'.resource_id
    key ← fresh_id
    let row : Mapping = record {
      id = key;
      source_group_id = data'.source_group_id;
      resource_type = data'.resource_type;
      resource_id = data'.resource_id;
      app_role = data'.app_role;
      assignment_type = data'.assignment_type;
      status = enabled;
    }
    modify (λ db. record db { mappings = db.mappings ++ row ∷ [] })
    record_audit group_role_mapping_created (some key) none none true
    commit
    reconcile_all_members_of_group handlers fuel data'.source_group_id subject
    hydrate_mapping row row.resource_type
    pure key

  unfoldable pub update_group_role_mapping :
      ℕ → (status : Option Switch) → (subject : ℕ) → M (Unit {0})
  unfolding get_mapping hydrate_mapping
  update_group_role_mapping key status subject = do
    m ← get_mapping key
    modify λ db. record db {
      mappings = update_row (λ r. r.id) key (set_mapping_status status) db.mappings;
    }
    record_audit group_role_mapping_updated (some key) none none true
    commit
    reconcile_all_members_of_group handlers fuel m.source_group_id subject
    hydrate_mapping m m.resource_type

  -- `access_assignments.group_role_mapping_id` has no ON DELETE.
  unfoldable pub delete_group_role_mapping : ℕ → (subject : ℕ) → M (Unit {0})
  unfolding get_mapping
  delete_group_role_mapping key subject = do
    m ← get_mapping key
    record_audit group_role_mapping_deleted (some key) none none true
    granted ← gets (λ s. is_granted_by_mapping key s.db)
    if granted then crash else (do
      modify (λ db. record db { mappings = select (λ r. not (r.id == key)) db.mappings })
      commit
      reconcile_all_members_of_group handlers fuel m.source_group_id subject)
