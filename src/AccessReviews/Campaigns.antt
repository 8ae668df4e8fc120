-- ===== src/AccessReviews/Campaigns.antt =====
-- The start of a campaign (`create_campaign` of backend/app/services/access_reviews.py). A fixed calendar is not modelled.
use access_piliot.Prelude.{
  ℕ, Bool, true, false, not, ◌&&◌, Option, none, some, List, [], ◌∷◌, ◌++◌, ◌==◌, is_some, select,
  get_row, update_row,
}
use access_piliot.Store.{
  Db, User, Assignment, Definition, Payload, Campaign, ReviewItem, Scope, all_access,
  resource_type_scope, specific_resource, multiple_resources, user_scope, account_type_scope,
  inactive_users, mover, CampaignStatus, campaign_active, campaign_completed, NoResponse,
  unreviewed, ResourceType, group, role, application, access_package, business_role,
  access_review_item, user_not_found, package_not_found, business_role_not_found,
  access_review_campaign_not_found, access_review_campaign_created, access_review_assigned_note, M,
  pure, gets, or_raise, raise_if, modify, commit, fresh_id, for_each, ◌>>=◌, ◌>>◌, record_audit,
  create_notification,
}
use access_piliot.Target.{resolve_target, internal_user_id, user_by}
use access_piliot.Workflows.Conditions.{build_user_condition_payload}
use access_piliot.Workflows.Outcomes.{Handlers}
use access_piliot.Workflows.Decide.{start_workflow_instance}
use access_piliot.Assignments.Create.{known_user, find_workflow}
use access_piliot.AccessReviews.Scopes.{matching_assignments}

-- Exactly one of `reviewer_id` and `workflow_definition_id` is set, by the validator.
pub record CampaignCreate : Type 0 where
  pub scope : Scope
  pub reviewer_id : Option ℕ
  pub fallback_reviewer_id : Option ℕ
  pub fallback_unlock_hours : Option ℕ
  pub workflow_definition_id : Option ℕ
  pub due_at : ℕ
  pub on_no_response : NoResponse
  pub frequency_days : Option ℕ

abbrev pub campaign_by : ℕ → Db → Option Campaign
campaign_by key db = get_row (λ c. c.id) key db.campaigns

abbrev pub item_by : ℕ → Db → Option ReviewItem
item_by key db = get_row (λ i. i.id) key db.review_items

unfoldable pub validate_target_exists : ResourceType → ℕ → M (Unit {0})
validate_target_exists access_package key = do
  found ← gets (λ s. get_row (λ p. p.id) key s.db.packages)
  or_raise found package_not_found
  pure tt
validate_target_exists business_role key = do
  found ← gets (λ s. get_row (λ r. r.id) key s.db.business_roles)
  or_raise found business_role_not_found
  pure tt
validate_target_exists group key = resolve_target group key >> pure tt
validate_target_exists role key = resolve_target role key >> pure tt
validate_target_exists application key = resolve_target application key >> pure tt

unfoldable pub check_user : ℕ → M (Unit {0})
check_user key = do found ← gets (λ s. user_by key s.db); or_raise found user_not_found; pure tt

unfoldable pub check_scope : Scope → M (Unit {0})
unfolding check_user validate_target_exists
check_scope all_access = pure tt
check_scope (resource_type_scope kind) = pure tt
check_scope (specific_resource kind key) = validate_target_exists kind key
check_scope (multiple_resources ts) = for_each (λ t. validate_target_exists t.0 t.1) ts
check_scope (user_scope user) = check_user user
check_scope (account_type_scope kind) = pure tt
check_scope (inactive_users threshold) = pure tt
check_scope (mover user) = check_user user

abbrev reviewer_of : Option ℕ → Db → Option User
reviewer_of none db = none
reviewer_of (some key) db = user_by key db

unfoldable pub check_reviewers : Option Definition → CampaignCreate → M (Unit {0})
check_reviewers (some d) data' = pure tt
check_reviewers none data' = do
  found ← gets (λ s. reviewer_of data'.reviewer_id s.db)
  or_raise found user_not_found
  known_user data'.fallback_reviewer_id

unfoldable pub new_campaign : CampaignCreate → Option ℕ → M ℕ
new_campaign data' creator = do
  now ← gets (λ s. s.now)
  key ← fresh_id
  let row : Campaign = record {
    id = key;
    scope = data'.scope;
    reviewer_id = data'.reviewer_id;
    fallback_reviewer_id = data'.fallback_reviewer_id;
    fallback_unlock_hours = data'.fallback_unlock_hours;
    workflow_definition_id = data'.workflow_definition_id;
    status = campaign_active;
    due_at = data'.due_at;
    frequency_days = data'.frequency_days;
    on_no_response = data'.on_no_response;
    parent_campaign_id = none;
    created_by = creator;
    created_at = now;
    completed_at = none;
  }
  modify (λ db. record db { campaigns = db.campaigns ++ row ∷ [] })
  pure key

unfoldable pub add_item : ℕ → Assignment → M (Unit {0})
add_item campaign a = do
  key ← fresh_id
  let row : ReviewItem = record {
    id = key;
    campaign_id = campaign;
    assignment_id = a.id;
    user_id = a.user_id;
    resource_type = a.resource_type;
    resource_id = a.resource_id;
    app_role = a.app_role;
    decision = unreviewed;
    decided_by = none;
    decided_at = none;
    workflow_instance_id = none;
  }
  modify (λ db. record db { review_items = db.review_items ++ row ∷ [] })

abbrev pub items_of_campaign : ℕ → Db → List ReviewItem
items_of_campaign campaign db = select (λ i. i.campaign_id == campaign) db.review_items

unfoldable pub update_item : ℕ → (ReviewItem → ReviewItem) → M (Unit {0})
update_item key f =
    modify (λ db. record db { review_items = update_row (λ i. i.id) key f db.review_items })

unfoldable pub update_row_of_campaign : ℕ → (Campaign → Campaign) → M (Unit {0})
update_row_of_campaign key f =
    modify (λ db. record db { campaigns = update_row (λ c. c.id) key f db.campaigns })

abbrev payload_of : Option User → Payload
payload_of none = record {
  department = none;
  job_title = none;
  employment_type = none;
  account_type = none;
}
payload_of (some u) = build_user_condition_payload u

unfoldable pub tell_assigned : Option ℕ → M (Unit {0})
tell_assigned none = pure tt
tell_assigned (some u) = create_notification u access_review_assigned_note

unfoldable pub announce_campaign : Option Definition → CampaignCreate → M (Unit {0})
unfolding tell_assigned
announce_campaign (some d) data' = pure tt
announce_campaign none data' =
    tell_assigned data'.reviewer_id >> tell_assigned data'.fallback_reviewer_id

module _ (handlers : Handlers) where
  unfoldable pub start_item : Definition → ℕ → ReviewItem → M (Unit {0})
  unfolding update_item build_user_condition_payload
  start_item definition creator i = do
    person ← gets (λ s. user_by i.user_id s.db)
    started ←
        start_workflow_instance handlers definition creator (payload_of person) access_review_item
          (some i.id)
    update_item i.id (λ x. record x { workflow_instance_id = some started.id })

  -- Each item has a workflow of its own.
  unfoldable pub start_items : Option Definition → Option ℕ → ℕ → M (Unit {0})
  unfolding start_item
  start_items none creator campaign = pure tt
  start_items (some definition) none campaign = pure tt
  start_items (some definition) (some creator) campaign = do
    items ← gets (λ s. items_of_campaign campaign s.db)
    for_each (start_item definition creator) items

  unfoldable pub create_campaign : CampaignCreate → (subject : ℕ) → M ℕ
  unfolding check_reviewers check_scope new_campaign add_item start_items announce_campaign
  create_campaign data' subject = do
    workflow ← find_workflow data'.workflow_definition_id
    check_reviewers workflow data'
    check_scope data'.scope
    creator ← gets (λ s. internal_user_id subject s.db)
    raise_if (is_some workflow && not (is_some creator)) user_not_found
    key ← new_campaign data' creator
    rows ← matching_assignments data'.scope
    for_each (add_item key) rows
    start_items workflow creator key
    record_audit access_review_campaign_created (some key) none creator true
    announce_campaign workflow data'
    commit
    pure key

unfoldable pub get_campaign : ℕ → M Campaign
get_campaign key = do
  found ← gets (λ s. campaign_by key s.db)
  or_raise found access_review_campaign_not_found

abbrev pub is_active_campaign : CampaignStatus → Bool
is_active_campaign campaign_active = true
is_active_campaign campaign_completed = false
