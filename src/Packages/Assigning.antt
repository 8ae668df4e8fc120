-- ===== src/Packages/Assigning.antt =====
-- The assignment of a package to people, and the request of one by a person who is eligible
-- (backend/app/services/packages.py; `require_workflow_for_high_risk_items` of
-- backend/app/services/entitlement_catalog.py).
use access_piliot.Prelude.{
  ℕ, Bool, true, false, not, ◌&&◌, Option, none, some, List, [], ◌∷◌, ◌++◌, ◌==◌, if◌then◌else◌,
  same_id, map, select, first, any, is_some, get_row,
}
use access_piliot.Store.{
  Db, Package, PackageLink, Principal, user_principal, group_principal, Item, CatalogEntry,
  RiskTier, low_risk, medium_risk, high_risk, critical_risk, AssignmentType, same_type, Error,
  user_not_found, group_not_found, package_archived, package_empty, group_empty, not_eligible,
  workflow_required_for_high_risk_item, package_assigned, package_requested, M, pure, gets,
  or_raise, raise_if, modify, commit, fresh_id, try_else, for_each, ◌>>=◌, ◌>>◌, record_audit,
}
use access_piliot.Target.{internal_user_id}
use access_piliot.Sod.{non_empty}
use access_piliot.Workflows.Outcomes.{Handlers}
use access_piliot.Workflows.Voting.{is_enabled}
use access_piliot.Assignments.Create.{AssignmentCreate, by_hand, create_assignment}
use access_piliot.Assignments.Mappings.{granted_app_role, is_member}
use access_piliot.Packages.Items.{package_by, get_package, package_items_of, package_response}

-- `PackageAssignCreate` and `PackageRequestCreate`, behind their validators; the person or group is
-- given apart.
pub record PackageAssign : Type 0 where
  pub assignment_type : AssignmentType
  pub start_time : Option ℕ
  pub expiration_time : Option ℕ
  pub approver_id : Option ℕ
  pub workflow_definition_id : Option ℕ

pub data ItemOutcome : Type 0 where
  created_item : ℕ → ItemOutcome
  failed_item : Error → ItemOutcome

pub record ItemResult : Type 0 where
  pub package_item_id : ℕ
  pub outcome : ItemOutcome

pub record MemberResult : Type 0 where
  pub user_id : ℕ
  pub package_assignment_id : ℕ
  pub results : List ItemResult

abbrev is_entry : Item → CatalogEntry → Bool
is_entry i e =
    same_type e.resource_type i.resource_type
    && (e.resource_id == i.resource_id)
    && same_id e.app_role i.app_role

abbrev tier_of : Option CatalogEntry → RiskTier
tier_of none = low_risk
tier_of (some e) = e.risk_tier

unfoldable pub get_risk_tier : Db → Item → RiskTier
get_risk_tier db i = tier_of (first (is_entry i) db.catalog)

abbrev pub is_high : RiskTier → Bool
is_high low_risk = false
is_high medium_risk = false
is_high high_risk = true
is_high critical_risk = true

-- An item of high risk is only given through a workflow.
unfoldable pub require_workflow_for_high_risk_items : List Item → Option ℕ → M (Unit {0})
unfolding get_risk_tier
require_workflow_for_high_risk_items items (some w) = pure tt
require_workflow_for_high_risk_items items none = do
  risky ← gets (λ s. any (λ i. is_high (get_risk_tier s.db i)) items)
  raise_if risky workflow_required_for_high_risk_item

-- The fallback approver of the package, where an approver is named.
abbrev fallback_of : Option Package → Option ℕ → Option ℕ
fallback_of none approver = none
fallback_of (some p) none = none
fallback_of (some p) (some a) = p.default_fallback_approver_id

abbrev unlock_of : Option Package → Option ℕ → Option ℕ
unlock_of none fallback = none
unlock_of (some p) none = none
unlock_of (some p) (some f) = p.fallback_unlock_hours

abbrev item_body : ℕ → PackageAssign → Option Package → Item → AssignmentCreate
item_body user data' p i =
    let fallback = fallback_of p data'.approver_id in
    record {
      user_id = user;
      resource_type = i.resource_type;
      resource_id = i.resource_id;
      app_role = granted_app_role i.resource_type i.app_role;
      assignment_type = data'.assignment_type;
      start_time = data'.start_time;
      expiration_time = data'.expiration_time;
      approver_id = data'.approver_id;
      fallback_approver_id = fallback;
      fallback_unlock_hours = unlock_of p fallback;
      workflow_definition_id = data'.workflow_definition_id;
      bypass_activation = false;
      override_sod = false;
    }

module _ (handlers : Handlers) (subject : ℕ) where
  -- An item that cannot be assigned is told of, and does not stop the others.
  unfoldable pub assign_items :
      (bundle batch user : ℕ)
      → PackageAssign
      → Option Package
      → (check_sod : Bool) → List ItemResult
      → List Item
      → M (List ItemResult)
  assign_items bundle batch user data' p check_sod done [] = pure done
  assign_items bundle batch user data' p check_sod done (i ∷ is) = do
    outcome ←
        try_else (create_assignment handlers (item_body user data' p i) subject check_sod by_hand)
          (λ a. do
            let row : PackageLink = record {
              package_id = bundle;
              package_assignment_id = batch;
              assignment_id = a.id;
              user_id = user;
            }
            modify (λ db. record db { package_links = db.package_links ++ row ∷ [] })
            commit
            pure (created_item a.id))
          (λ e. pure (failed_item e))
    let result : ItemResult = record { package_item_id = i.id; outcome = outcome }
    assign_items bundle batch user data' p check_sod (done ++ result ∷ []) is

  unfoldable pub assign_package_to_user :
      ℕ → List Item → (user : ℕ) → PackageAssign → (check_sod : Bool) → M MemberResult
  unfolding assign_items
  assign_package_to_user bundle items user data' check_sod = do
    batch ← fresh_id
    p ← gets (λ s. package_by bundle s.db)
    results ← assign_items bundle batch user data' p check_sod [] items
    pure (record { user_id = user; package_assignment_id = batch; results = results })

  unfoldable pub assign_to_members :
      ℕ → List Item → PackageAssign → List MemberResult → List ℕ → M (List MemberResult)
  unfolding assign_package_to_user
  assign_to_members bundle items data' done [] = pure done
  assign_to_members bundle items data' done (u ∷ us) = do
    result ← assign_package_to_user bundle items u data' true
    assign_to_members bundle items data' (done ++ result ∷ []) us

-- One person, or the members of a group. The source sorts them by their display names.
unfoldable pub member_ids : Principal → M (List ℕ)
member_ids (user_principal key) = pure (key ∷ [])
member_ids (group_principal key) = do
  found ← gets (λ s. get_row (λ g. g.id) key s.db.groups)
  or_raise found group_not_found
  members ← gets (λ s. map (λ u. u.id) (select (λ u. is_member u.id key s.db) s.db.users))
  raise_if (not (non_empty members)) group_empty
  pure members

unfoldable pub assign_package :
    Handlers → ℕ → Principal → PackageAssign → (subject : ℕ) → M (List MemberResult)
unfolding assign_to_members member_ids require_workflow_for_high_risk_items
assign_package handlers key target data' subject = do
  p ← get_package key
  raise_if (not (is_enabled p.status)) package_archived
  items ← gets (λ s. package_items_of key s.db)
  raise_if (not (non_empty items)) package_empty
  require_workflow_for_high_risk_items items data'.workflow_definition_id
  members ← member_ids target
  results ← assign_to_members handlers subject key items data' [] members
  actor ← gets (λ s. internal_user_id subject s.db)
  record_audit package_assigned (some key) none actor true
  commit
  pure results

-- The user is named, or is a member of a group that is.
abbrev pub includes : ℕ → Db → Principal → Bool
includes user db (user_principal key) = key == user
includes user db (group_principal key) = is_member user key db

abbrev pub is_eligible_for : ℕ → ℕ → Db → Bool
is_eligible_for user bundle db =
    any (λ r. (r.package_id == bundle) && includes user db r.principal) db.package_eligibility

abbrev pub requestable_packages : ℕ → Db → List Package
requestable_packages user db =
    select (λ p. is_eligible_for user p.id db && is_enabled p.status) db.packages

unfoldable pub list_requestable_packages : Option ℕ → M (List Package)
list_requestable_packages none = pure []
list_requestable_packages (some user) = do
  packages ← gets (λ s. requestable_packages user s.db)
  for_each (λ p. package_response p.id) packages
  pure packages

abbrev request_body : PackageAssign → Package → PackageAssign
request_body data' p = record data' {
  approver_id = if is_some p.workflow_definition_id then none else p.default_approver_id;
  workflow_definition_id = p.workflow_definition_id;
}

unfoldable pub request_package : Handlers → ℕ → PackageAssign → (subject : ℕ) → M MemberResult
unfolding list_requestable_packages assign_package_to_user require_workflow_for_high_risk_items
request_package handlers key data' subject = do
  requester ← gets (λ s. internal_user_id subject s.db)
  user ← or_raise requester user_not_found
  requestable ← list_requestable_packages requester
  raise_if (not (any (λ p. p.id == key) requestable)) not_eligible
  p ← get_package key
  items ← gets (λ s. package_items_of key s.db)
  raise_if (not (non_empty items)) package_empty
  require_workflow_for_high_risk_items items p.workflow_definition_id
  result ← assign_package_to_user handlers subject key items user (request_body data' p) false
  actor ← gets (λ s. internal_user_id subject s.db)
  record_audit package_requested (some key) none actor true
  commit
  pure result
