-- ===== src/Birthright/Evaluate.antt =====
-- `_grant_birthright_target`, `evaluate_birthright_policies` and `required_providers_for_profile` of
-- backend/app/services/birthright.py.
use access_piliot.Prelude.{
  ℕ, Bool, false, Option, none, some, List, [], ◌∷◌, ◌++◌, ◌==◌, if◌then◌else◌, select, get_row,
}
use access_piliot.Store.{
  User, BirthrightPolicy, BusinessRole, ActionSpec, Item, PackageLink, AssignmentType, ResourceType,
  group, role, application, access_package, business_role, user_not_found, M, pure, crash, gets,
  or_raise, modify, commit, fresh_id, try_else, ◌>>=◌, ◌>>◌,
}
use access_piliot.Target.{user_by}
use access_piliot.Workflows.Outcomes.{Handlers}
use access_piliot.Workflows.Voting.{is_enabled}
use access_piliot.Assignments.Create.{Provenance, create_assignment, is_normal}
use access_piliot.Assignments.Mappings.{already_held, body_for, is_buildable, Target, item_target}
use access_piliot.Birthright.Rules.{policy_matches_user, policy_action_specs}

abbrev pub policy_tags : ℕ → Option ℕ → Option ℕ → Provenance
policy_tags policy business batch = record {
  birthright_policy_id = some policy;
  group_role_mapping_id = none;
  business_role_id = business;
  role_assignment_id = batch;
  dynamic_group_id = none;
}

-- `AccessPackageAssignment(...)`, where something was granted.
unfoldable pub link_package : ℕ → ℕ → ℕ → Option ℕ → M (Unit {0})
link_package user bundle batch none = pure tt
link_package user bundle batch (some key) = do
  let row : PackageLink = record {
    package_id = bundle;
    package_assignment_id = batch;
    assignment_id = key;
    user_id = user;
  }
  modify (λ db. record db { package_links = db.package_links ++ row ∷ [] })
  commit

abbrev pub with_created : Option ℕ → List ℕ → List ℕ
with_created none created = created
with_created (some key) created = created ++ key ∷ []

abbrev spec_target : ActionSpec → Target
spec_target a = record { kind = a.resource_type; resource = a.resource_id; app_role = a.app_role }

module _ (handlers : Handlers) (user subject : ℕ) (bypass : Bool) where
  -- A body that its validators refuse is no `AccessPilotError`, and stops everything.
  unfoldable pub grant_birthright_target : AssignmentType → Provenance → Target → M (Option ℕ)
  grant_birthright_target lasting tags t = do
    held ← gets (λ s. already_held user t.kind t.resource t.app_role s.db)
    if held
        then pure none
        else if is_buildable t.kind t.app_role lasting
        then try_else
            (create_assignment handlers (body_for user t.kind t.resource t.app_role lasting bypass)
              subject false tags)
            (λ a. pure (some a.id)) (λ _. pure none)
        else crash

  -- The loop over the items of a package.
  unfoldable pub grant_package_items :
      ℕ → AssignmentType → (bundle batch : ℕ) → List ℕ → List Item → M (List ℕ)
  unfolding grant_birthright_target link_package
  grant_package_items policy lasting bundle batch created [] = pure created
  grant_package_items policy lasting bundle batch created (i ∷ is) = do
    granted ← grant_birthright_target lasting (policy_tags policy none none) (item_target i)
    link_package user bundle batch granted
    grant_package_items policy lasting bundle batch (with_created granted created) is

  -- The loop over the items of a business role.
  unfoldable pub grant_role_items :
      ℕ → AssignmentType → (role batch : ℕ) → List ℕ → List Item → M (List ℕ)
  unfolding grant_birthright_target
  grant_role_items policy lasting business batch created [] = pure created
  grant_role_items policy lasting business batch created (i ∷ is) = do
    granted ←
        grant_birthright_target lasting (policy_tags policy (some business) (some batch))
          (item_target i)
    grant_role_items policy lasting business batch (with_created granted created) is

  -- A role that is missing or not active grants nothing.
  unfoldable pub grant_business_role : ℕ → ActionSpec → List ℕ → Option BusinessRole → M (List ℕ)
  unfolding grant_role_items
  grant_business_role policy a created none = pure created
  grant_business_role policy a created (some r) =
      if is_enabled r.status
      then (do
        items ← gets (λ s. select (λ i. i.owner_id == a.resource_id) s.db.business_role_items)
        batch ← fresh_id
        grant_role_items policy a.assignment_type a.resource_id batch created items)
      else pure created

  unfoldable pub grant_single : ℕ → ActionSpec → List ℕ → M (List ℕ)
  unfolding grant_birthright_target
  grant_single policy a created = do
    granted ←
        grant_birthright_target a.assignment_type (policy_tags policy none none) (spec_target a)
    pure (with_created granted created)

  unfoldable pub grant_action_as : ResourceType → ℕ → ActionSpec → List ℕ → M (List ℕ)
  unfolding grant_package_items grant_business_role grant_single
  grant_action_as access_package policy a created = do
    items ← gets (λ s. select (λ i. i.owner_id == a.resource_id) s.db.package_items)
    batch ← fresh_id
    grant_package_items policy a.assignment_type a.resource_id batch created items
  grant_action_as business_role policy a created = do
    found ← gets (λ s. get_row (λ r. r.id) a.resource_id s.db.business_roles)
    grant_business_role policy a created found
  grant_action_as group policy a created = grant_single policy a created
  grant_action_as role policy a created = grant_single policy a created
  grant_action_as application policy a created = grant_single policy a created

  unfoldable pub grant_actions : ℕ → List ℕ → List ActionSpec → M (List ℕ)
  unfolding grant_action_as
  grant_actions policy created [] = pure created
  grant_actions policy created (a ∷ rest) = do
    created' ← grant_action_as a.resource_type policy a created
    grant_actions policy created' rest

  unfoldable pub grant_specs : ℕ → List ℕ → Option (List ActionSpec) → M (List ℕ)
  unfolding grant_actions
  grant_specs policy created none = crash
  grant_specs policy created (some specs) = grant_actions policy created specs

  -- The loop over the active policies.
  unfoldable pub grant_policies : User → List ℕ → List BirthrightPolicy → M (List ℕ)
  unfolding grant_specs policy_matches_user
  grant_policies person created [] = pure created
  grant_policies person created (p ∷ ps) =
      if policy_matches_user person p
      then (do
        created' ← grant_specs p.id created (policy_action_specs p)
        grant_policies person created' ps)
      else grant_policies person created ps

  -- Privileged and test accounts inherit nothing.
  unfoldable pub evaluate_birthright_policies : M (List ℕ)
  unfolding grant_policies
  evaluate_birthright_policies = do
    found ← gets (λ s. user_by user s.db)
    person ← or_raise found user_not_found
    if is_normal person.account_type
        then (do
          policies ← gets (λ s. select (λ p. is_enabled p.status) s.db.birthright_policies)
          grant_policies person [] policies)
        else pure []
