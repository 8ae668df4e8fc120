-- ===== src/BusinessRoles/Assigning.antt =====
-- The owners of business roles, their deletion and their assignment
-- (backend/app/services/business_roles.py).
use access_piliot.Prelude.{
  ℕ, Bool, true, false, not, ◌&&◌, Option, none, some, List, [], ◌∷◌, ◌++◌, ◌==◌, any, leb,
  if◌then◌else◌, same_id, select, first, length,
}
use access_piliot.Store.{
  Db, Text, BusinessRole, Item, archived, Status, pending_approval, eligible, active, scheduled,
  rejected, revoked, expired, user_not_found, access_denied, business_role_not_active,
  business_role_empty, business_role_item_not_found, business_role_must_have_item,
  business_role_archived, business_role_deleted, business_role_assigned,
  business_role_renamed_by_owner, business_role_item_removed_by_owner, M, pure, crash, gets,
  or_raise, raise_if, modify, commit, fresh_id, try_else, ◌>>=◌, ◌>>◌, record_audit,
}
use access_piliot.Sod.{non_empty}
use access_piliot.Target.{internal_user_id, user_by}
use access_piliot.Workflows.Outcomes.{Handlers}
use access_piliot.Workflows.Voting.{is_enabled}
use access_piliot.Assignments.Create.{AssignmentCreate, Provenance, create_assignment}
use access_piliot.Assignments.Mappings.{granted_app_role}
use access_piliot.Packages.Assigning.{
  PackageAssign, ItemResult, created_item, failed_item, require_workflow_for_high_risk_items,
}
use access_piliot.BusinessRoles.Editing.{
  get_business_role, role_items_of, role_response, rename_role, update_role, remove_role_items,
}

abbrev is_role_owner : ℕ → Option ℕ → Db → Bool
is_role_owner key none db = false
is_role_owner key (some u) db =
    any (λ o. (o.role_id == key) && (o.user_id == u)) db.business_role_owners

unfoldable pub require_role_owner : ℕ → (subject : ℕ) → M (BusinessRole × Option ℕ)
require_role_owner key subject = do
  r ← get_business_role key
  actor ← gets (λ s. internal_user_id subject s.db)
  owned ← gets (λ s. is_role_owner key actor s.db)
  raise_if (not owned) access_denied
  pure (r, actor)

unfoldable pub owner_rename_business_role : ℕ → Text → (subject : ℕ) → M (Unit {0})
unfolding require_role_owner rename_role
owner_rename_business_role key name subject = do
  (r, actor) ← require_role_owner key subject
  changed ← rename_role key r (some name)
  if changed
      then record_audit business_role_renamed_by_owner (some key) none actor true
      else pure tt
  commit
  role_response key

unfoldable pub owner_remove_role_item : ℕ → (item : ℕ) → (subject : ℕ) → M (Unit {0})
unfolding require_role_owner
owner_remove_role_item key item subject = do
  (r, actor) ← require_role_owner key subject
  items ← gets (λ s. role_items_of key s.db)
  target ← or_raise (first (λ i. i.id == item) items) business_role_item_not_found
  raise_if (leb (length items) 1) business_role_must_have_item
  modify λ db. record db {
    business_role_items = select (λ i. not (i.id == target.id)) db.business_role_items;
  }
  record_audit business_role_item_removed_by_owner (some key) none actor true
  commit
  role_response key

-- `_HELD_STATUSES`
abbrev pub is_held : Status → Bool
is_held eligible = true
is_held pending_approval = true
is_held active = true
is_held scheduled = false
is_held rejected = false
is_held revoked = false
is_held expired = false

abbrev pub has_holders : ℕ → Db → Bool
has_holders key db =
    any (λ a. same_id a.business_role_id (some key) && is_held a.status) db.assignments

-- `access_assignments.business_role_id` refers to the role, whatever the status of the assignment.
abbrev pub is_named : ℕ → Db → Bool
is_named key db = any (λ a. same_id a.business_role_id (some key)) db.assignments

-- A role that someone holds is archived; another one is deleted, which the database refuses while an
-- assignment still names it.
unfoldable pub delete_business_role : ℕ → (subject : ℕ) → M (Unit {0})
unfolding update_role
delete_business_role key subject = do
  get_business_role key
  actor ← gets (λ s. internal_user_id subject s.db)
  held ← gets (λ s. has_holders key s.db)
  if held
      then (do
        update_role key (λ r. record r { status = archived })
        record_audit business_role_archived (some key) none actor true
        commit
        role_response key)
      else (do
        remove_role_items key
        modify λ db. record db {
          business_role_owners = select (λ o. not (o.role_id == key)) db.business_role_owners;
        }
        record_audit business_role_deleted (some key) none actor true
        named ← gets (λ s. is_named key s.db)
        if named then crash else (do
          modify
              λ db. record db { business_roles = select (λ r. not (r.id == key)) db.business_roles }
          commit))

abbrev role_item_body : ℕ → PackageAssign → Item → AssignmentCreate
role_item_body user data' i = record {
  user_id = user;
  resource_type = i.resource_type;
  resource_id = i.resource_id;
  app_role = granted_app_role i.resource_type i.app_role;
  assignment_type = data'.assignment_type;
  start_time = data'.start_time;
  expiration_time = data'.expiration_time;
  approver_id = data'.approver_id;
  fallback_approver_id = none;
  fallback_unlock_hours = none;
  workflow_definition_id = data'.workflow_definition_id;
  bypass_activation = false;
  override_sod = false;
}

abbrev role_tags : ℕ → ℕ → Provenance
role_tags key batch = record {
  birthright_policy_id = none;
  group_role_mapping_id = none;
  business_role_id = some key;
  role_assignment_id = some batch;
  dynamic_group_id = none;
}

module _ (handlers : Handlers) (subject : ℕ) where
  -- An item that cannot be assigned is told of, and does not stop the others.
  unfoldable pub assign_role_items :
      (key batch user : ℕ) → PackageAssign → List ItemResult → List Item → M (List ItemResult)
  assign_role_items key batch user data' done [] = pure done
  assign_role_items key batch user data' done (i ∷ is) = do
    outcome ←
        try_else
          (create_assignment handlers (role_item_body user data' i) subject true
            (role_tags key batch))
          (λ a. pure (created_item a.id)) (λ e. pure (failed_item e))
    let result : ItemResult = record { package_item_id = i.id; outcome = outcome }
    assign_role_items key batch user data' (done ++ result ∷ []) is

  unfoldable pub assign_business_role : ℕ → (user : ℕ) → PackageAssign → M (List ItemResult)
  unfolding assign_role_items require_workflow_for_high_risk_items
  assign_business_role key user data' = do
    r ← get_business_role key
    raise_if (not (is_enabled r.status)) business_role_not_active
    items ← gets (λ s. role_items_of key s.db)
    raise_if (not (non_empty items)) business_role_empty
    require_workflow_for_high_risk_items items data'.workflow_definition_id
    found ← gets (λ s. user_by user s.db)
    or_raise found user_not_found
    batch ← fresh_id
    results ← assign_role_items key batch user data' [] items
    actor ← gets (λ s. internal_user_id subject s.db)
    record_audit business_role_assigned (some key) none actor true
    commit
    pure results
