-- ===== src/Assignments/Mappings.antt =====
-- Grants that follow from the membership of a group
-- (backend/app/services/group_role_mapping.py): a mapping gives the members of its group a role, an
-- application, or the items of a business role.
use access_piliot.Prelude.{
  ℕ, Bool, true, false, not, ◌&&◌, ◌||◌, Option, none, some, List, [], ◌∷◌, ◌==◌, if◌then◌else◌,
  same_id, is_some, map, select, any, get_row,
}
use access_piliot.Store.{
  Db, Assignment, Mapping, BusinessRole, Item, ResourceType, application, business_role, same_type,
  AssignmentType, temporary, permanent, Status, eligible, pending_approval, scheduled, active,
  rejected, revoked, expired, user_not_found, M, pure, crash, gets, or_raise, fresh_id, try_else,
  for_each, ◌>>=◌, ◌>>◌,
}
use access_piliot.Target.{user_by}
use access_piliot.Workflows.Outcomes.{Handlers}
use access_piliot.Workflows.Voting.{is_enabled}
use access_piliot.Assignments.Create.{AssignmentCreate, Provenance, create_assignment, is_normal}
use access_piliot.Assignments.Revoke.{is_live, revoke_assignment}

abbrev pub is_member : ℕ → ℕ → Db → Bool
is_member user source db = any (λ m. (m.user_id == user) && (m.group_id == source)) db.user_groups

abbrev pub already_held : ℕ → ResourceType → ℕ → Option ℕ → Db → Bool
already_held user kind resource app_role db =
    any
      (λ a.
        (a.user_id == user)
        && same_type a.resource_type kind
        && (a.resource_id == resource)
        && same_id a.app_role app_role
        && is_live a.status)
      db.assignments

-- The validators of the request body: a lasting grant has no end, only an application a role.
abbrev pub granted_app_role : ResourceType → Option ℕ → Option ℕ
granted_app_role kind app_role = if same_type kind application then app_role else none

abbrev pub body_for : ℕ → ResourceType → ℕ → Option ℕ → AssignmentType → Bool → AssignmentCreate
body_for user kind resource app_role lasting bypass = record {
  user_id = user;
  resource_type = kind;
  resource_id = resource;
  app_role = granted_app_role kind app_role;
  assignment_type = lasting;
  start_time = none;
  expiration_time = none;
  approver_id = none;
  fallback_approver_id = none;
  fallback_unlock_hours = none;
  workflow_definition_id = none;
  bypass_activation = bypass;
  override_sod = false;
}

abbrev tags_for : ℕ → Option ℕ → Option ℕ → Provenance
tags_for mapping business batch = record {
  birthright_policy_id = none;
  group_role_mapping_id = some mapping;
  business_role_id = business;
  role_assignment_id = batch;
  dynamic_group_id = none;
}

-- The validators refuse a temporary grant with no end, and an application with no role.
abbrev pub is_buildable : ResourceType → Option ℕ → AssignmentType → Bool
is_buildable kind app_role temporary = false
is_buildable kind app_role permanent = not (same_type kind application) || is_some app_role

-- What one mapping or one item of a business role names.
pub record Target : Type 0 where
  pub kind : ResourceType
  pub resource : ℕ
  pub app_role : Option ℕ

abbrev pub item_target : Item → Target
item_target i = record { kind = i.resource_type; resource = i.resource_id; app_role = i.app_role }

abbrev mapping_target : Mapping → Target
mapping_target m = record {
  kind = m.resource_type;
  resource = m.resource_id;
  app_role = m.app_role;
}

-- What was created, newest first.
abbrev pub Created : Type 0
Created = List ℕ

module _ (handlers : Handlers) (user : ℕ) (subject : ℕ) (bypass : Bool) where
  -- A target that is held, or that cannot be granted, is passed over. A body that its validators
  -- refuse is no `AccessPilotError`, and stops everything.
  unfoldable pub grant_target : AssignmentType → Provenance → Created → Target → M Created
  grant_target lasting tags done t = do
    held ← gets (λ s. already_held user t.kind t.resource t.app_role s.db)
    if held
        then pure done
        else if is_buildable t.kind t.app_role lasting
        then try_else
            (create_assignment handlers (body_for user t.kind t.resource t.app_role lasting bypass)
              subject false tags)
            (λ a. pure (a.id ∷ done)) (λ _. pure done)
        else crash

  unfoldable pub grant_targets : AssignmentType → Provenance → Created → List Target → M Created
  unfolding grant_target
  grant_targets lasting tags done [] = pure done
  grant_targets lasting tags done (t ∷ ts) = do
    done' ← grant_target lasting tags done t
    grant_targets lasting tags done' ts

  -- The items of a role that is not active are not granted.
  unfoldable pub grant_role : Mapping → Created → Option BusinessRole → M Created
  unfolding grant_targets
  grant_role m done none = pure done
  grant_role m done (some r) =
      if is_enabled r.status
      then (do
        items ← gets (λ s. select (λ i. i.owner_id == m.resource_id) s.db.business_role_items)
        batch ← fresh_id
        grant_targets m.assignment_type (tags_for m.id (some m.resource_id) (some batch)) done
            (map item_target items))
      else pure done

  unfoldable pub grant_mapping : Created → Mapping → M Created
  unfolding grant_role
  grant_mapping done m =
      if same_type m.resource_type business_role
      then (do
        found ← gets (λ s. get_row (λ r. r.id) m.resource_id s.db.business_roles)
        grant_role m done found)
      else grant_target m.assignment_type (tags_for m.id none none) done (mapping_target m)

  unfoldable pub grant_mappings : Created → List Mapping → M Created
  unfolding grant_mapping
  grant_mappings done [] = pure done
  grant_mappings done (m ∷ ms) = do done' ← grant_mapping done m; grant_mappings done' ms

  unfoldable pub evaluate_group_role_mappings_for_user : M Created
  unfolding grant_mappings
  evaluate_group_role_mappings_for_user = do
    found ← gets (λ s. user_by user s.db)
    person ← or_raise found user_not_found
    if is_normal person.account_type
        then (do
          mappings ← gets λ s.
              select (λ m. is_enabled m.status && is_member user m.source_group_id s.db)
                s.db.mappings
          grant_mappings [] mappings)
        else pure []

-- The mapping that granted this still holds for the user.
abbrev still_applies : ℕ → Db → Assignment → Bool
still_applies user db a =
    any
      (λ m.
        is_enabled m.status
        && is_member user m.source_group_id db
        && same_id a.group_role_mapping_id (some m.id))
      db.mappings

abbrev pub is_lapsed : ℕ → Db → Assignment → Bool
is_lapsed user db a =
    (a.user_id == user)
    && is_some a.group_role_mapping_id
    && is_live a.status
    && not (still_applies user db a)

unfoldable pub revoke_lapsed : ℕ → ℕ → List Assignment → M (Unit {0})
revoke_lapsed fuel subject rows =
    for_each (λ a. try_else (revoke_assignment fuel a.id subject) (λ _. pure tt) (λ _. pure tt))
      rows

module _ (handlers : Handlers) (fuel : ℕ) where
  unfoldable pub reconcile_group_role_mappings_for_user : ℕ → ℕ → M Created
  unfolding revoke_lapsed
  reconcile_group_role_mappings_for_user user subject = do
    found ← gets (λ s. user_by user s.db)
    or_raise found user_not_found
    rows ← gets (λ s. select (is_lapsed user s.db) s.db.assignments)
    revoke_lapsed fuel subject rows
    evaluate_group_role_mappings_for_user handlers user subject false

  -- Every current member of the group is reconciled; one that fails does not stop the others.
  unfoldable pub reconcile_all_members_of_group : ℕ → ℕ → M (Unit {0})
  reconcile_all_members_of_group source subject = do
    members ← gets (λ s. select (λ m. m.group_id == source) s.db.user_groups)
    for_each
        (λ m.
          try_else (reconcile_group_role_mappings_for_user m.user_id subject) (λ _. pure tt)
            (λ _. pure tt))
        members

abbrev pub is_eligible : Status → Bool
is_eligible eligible = true
is_eligible pending_approval = false
is_eligible scheduled = false
is_eligible active = false
is_eligible rejected = false
is_eligible revoked = false
is_eligible expired = false

abbrev is_from_enabled : ℕ → List Mapping → Assignment → Bool
is_from_enabled source mappings a =
    any
      (λ m.
        (m.source_group_id == source)
        && is_enabled m.status
        && same_id a.group_role_mapping_id (some m.id))
      mappings

-- The eligible rows that enabled mappings of the group gave the user, made up to date first.
unfoldable pub get_or_create_eligible_assignments_for_group :
    Handlers → ℕ → ℕ → ℕ → M (List Assignment)
get_or_create_eligible_assignments_for_group handlers user source subject = do
  evaluate_group_role_mappings_for_user handlers user subject false
  gets λ s.
      select
        (λ a. (a.user_id == user) && is_from_enabled source s.db.mappings a && is_eligible a.status)
        s.db.assignments
