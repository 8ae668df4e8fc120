-- ===== src/AccessReviews/Deciding.antt =====
-- The decisions on the items of a campaign and its end (`decide_item`, `complete_campaign`,
-- `_maybe_spawn_recurrence` and `sweep_overdue_campaigns` of
-- backend/app/services/access_reviews.py). `system` is the subject the application acts under by itself.
use access_piliot.Prelude.{
  ℕ, zero, suc, ◌+◌, ◌*◌, Bool, true, false, not, ◌&&◌, Option, none, some, List, [], ◌∷◌, ◌==◌,
  if◌then◌else◌, same_id, is_some, any, select, leb, map,
}
use access_piliot.Store.{
  Db, ActorRole, admin, access_review_admin, other_role, Campaign, ReviewItem, campaign_completed,
  NoResponse, keep_access, revoke_access, ReviewDecision, unreviewed, certified, withdrawn,
  auto_withdrawn, Error, access_denied, fallback_not_yet_available, request_already_processed,
  access_review_item_not_found, access_review_item_routed_through_workflow,
  access_review_item_decided, access_review_campaign_completed, NotificationType,
  access_review_item_decided_note, access_review_recurrence_failed_note,
  access_review_recurrence_created_note, M, pure, raise, gets, or_raise, raise_if, commit, try_else,
  for_each, ◌>>=◌, ◌>>◌, record_audit, create_notification,
}
use access_piliot.Target.{internal_user_id}
use access_piliot.Workflows.Outcomes.{Handlers}
use access_piliot.Workflows.Decide.{cancel_system_instance}
use access_piliot.Assignments.Approval.{is_actor, is_unlocked}
use access_piliot.Assignments.Revoke.{revoke_assignment}
use access_piliot.AccessReviews.Campaigns.{
  CampaignCreate, item_by, items_of_campaign, update_item, update_row_of_campaign, get_campaign,
  create_campaign, is_active_campaign,
}

abbrev pub is_undecided : ReviewDecision → Bool
is_undecided unreviewed = true
is_undecided certified = false
is_undecided withdrawn = false
is_undecided auto_withdrawn = false

-- The pending items of a campaign.
abbrev pub open_items : ℕ → Db → List ReviewItem
open_items campaign db = select (λ i. is_undecided i.decision) (items_of_campaign campaign db)

-- `campaign_progress`, as far as its callers read it: are as many items decided as there are?
unfoldable pub all_decided : ℕ → Db → Bool
all_decided campaign db = not (any (λ i. is_undecided i.decision) (items_of_campaign campaign db))

abbrev pub is_review_admin : List ActorRole → Bool
is_review_admin [] = false
is_review_admin (admin ∷ rs) = true
is_review_admin (access_review_admin ∷ rs) = true
is_review_admin (other_role n ∷ rs) = is_review_admin rs

abbrev pub fallback_opens_at : Campaign → Option ℕ → Option ℕ
fallback_opens_at c none = none
fallback_opens_at c (some hours) = some (c.created_at + hours * 3600)

unfoldable pub authorize_review_decision : Campaign → ℕ → List ActorRole → M (Option ℕ)
authorize_review_decision c subject roles = do
  actor ← gets (λ s. internal_user_id subject s.db)
  now ← gets (λ s. s.now)
  if is_review_admin roles
      then pure actor
      else if is_actor actor c.reviewer_id
      then pure actor
      else if is_actor actor c.fallback_reviewer_id
      then (do
        raise_if (not (is_unlocked (fallback_opens_at c c.fallback_unlock_hours) now))
            fallback_not_yet_available
        pure actor)
      else raise access_denied

abbrev or_creator : Option ℕ → Option ℕ → Option ℕ
or_creator none creator = creator
or_creator (some r) creator = some r

unfoldable pub tell : NotificationType → Option ℕ → M (Unit {0})
tell note none = pure tt
tell note (some u) = create_notification u note

abbrev next_of : Campaign → ℕ → ℕ → CampaignCreate
next_of c now frequency = record {
  scope = c.scope;
  reviewer_id = c.reviewer_id;
  fallback_reviewer_id = c.fallback_reviewer_id;
  fallback_unlock_hours = c.fallback_unlock_hours;
  workflow_definition_id = c.workflow_definition_id;
  due_at = now + frequency * 86400;
  on_no_response = c.on_no_response;
  frequency_days = some frequency;
}

-- The campaign is still open, as the database stands.
abbrev pub is_open : ℕ → Db → Bool
is_open key db = any (λ c. (c.id == key) && is_active_campaign c.status) db.campaigns

abbrev tells_creator : Option ℕ → Option ℕ → Bool
tells_creator creator actor = is_some creator && not (same_id creator actor)

unfoldable pub close_campaign : ℕ → M (Unit {0})
unfolding update_row_of_campaign
close_campaign key = do
  now ← gets (λ s. s.now)
  update_row_of_campaign key
      (λ r. record r { status = campaign_completed; completed_at = some now })

abbrev pub is_processed : Error → Bool
is_processed request_already_processed = true
is_processed e = false

-- A revocation of what was revoked or has run out already is passed over.
unfoldable pub revoke_reviewed : (fuel : ℕ) → ReviewItem → ℕ → M (Unit {0})
revoke_reviewed fuel i subject =
    try_else (revoke_assignment fuel i.assignment_id subject) (λ _. pure tt)
      (λ e. if is_processed e then pure tt else raise e)

unfoldable pub write_decision : ReviewItem → ReviewDecision → Option ℕ → M (Unit {0})
unfolding update_item
write_decision i decision actor = do
  now ← gets (λ s. s.now)
  update_item i.id
      (λ r. record r { decision = decision; decided_by = actor; decided_at = some now })
  record_audit access_review_item_decided (some i.id) none actor true

unfoldable pub tell_creator : Campaign → Option ℕ → M (Unit {0})
unfolding tell
tell_creator c actor =
    if tells_creator c.created_by actor
    then tell access_review_item_decided_note c.created_by
    else pure tt

module _ (handlers : Handlers) (system : ℕ) where
  unfoldable pub recur : Campaign → ℕ → M (Unit {0})
  unfolding tell update_row_of_campaign
  recur c frequency = do
    now ← gets (λ s. s.now)
    try_else (create_campaign handlers (next_of c now frequency) system)
        (λ next. do
          update_row_of_campaign next (λ r. record r { parent_campaign_id = some c.id })
          tell access_review_recurrence_created_note c.reviewer_id
          if same_id c.created_by c.reviewer_id
              then pure tt
              else tell access_review_recurrence_created_note c.created_by
          commit)
        (λ e. do
          tell access_review_recurrence_failed_note (or_creator c.reviewer_id c.created_by)
          commit)

  unfoldable pub maybe_spawn_recurrence : Campaign → Option ℕ → M (Unit {0})
  unfolding recur
  maybe_spawn_recurrence c none = pure tt
  maybe_spawn_recurrence c (some zero) = pure tt
  maybe_spawn_recurrence c (some (suc n)) = recur c (suc n)

  -- The end of a campaign whose last item was decided.
  unfoldable pub close_if_decided : Campaign → M (Unit {0})
  unfolding all_decided close_campaign maybe_spawn_recurrence
  close_if_decided c = do
    ends ← gets (λ s. all_decided c.id s.db && is_open c.id s.db)
    if ends
        then close_campaign c.id >> commit >> maybe_spawn_recurrence c c.frequency_days
        else pure tt

  -- `withdraws`: the decision REVOKED.
  unfoldable pub decide_item :
      (fuel : ℕ) → ℕ → (withdraws : Bool) → ℕ → List ActorRole → M (Unit {0})
  unfolding get_campaign authorize_review_decision revoke_reviewed write_decision tell_creator
      close_if_decided
  decide_item fuel key withdraws subject roles = do
    found ← gets (λ s. item_by key s.db)
    i ← or_raise found access_review_item_not_found
    raise_if (not (is_undecided i.decision)) request_already_processed
    raise_if (is_some i.workflow_instance_id) access_review_item_routed_through_workflow
    c ← get_campaign i.campaign_id
    actor ← authorize_review_decision c subject roles
    if withdraws then revoke_reviewed fuel i subject else pure tt
    write_decision i (if withdraws then withdrawn else certified) actor
    tell_creator c actor
    commit
    close_if_decided c

  -- What an item that nobody decided comes to: kept, or withdrawn whatever the removal says.
  unfoldable pub settle_item : (fuel : ℕ) → NoResponse → ℕ → ReviewItem → M (Unit {0})
  unfolding update_item
  settle_item fuel keep_access subject i = do
    now ← gets (λ s. s.now)
    update_item i.id (λ r. record r { decision = certified; decided_at = some now })
  settle_item fuel revoke_access subject i = do
    try_else (revoke_assignment fuel i.assignment_id subject) (λ _. pure tt) (λ e. pure tt)
    now ← gets (λ s. s.now)
    update_item i.id (λ r. record r { decision = auto_withdrawn; decided_at = some now })

  unfoldable pub close_item : (fuel : ℕ) → NoResponse → ℕ → ReviewItem → Option ℕ → M (Unit {0})
  unfolding settle_item
  close_item fuel on_no_response subject i (some instance_id) =
      cancel_system_instance handlers instance_id
  close_item fuel on_no_response subject i none = settle_item fuel on_no_response subject i

  unfoldable pub finish_campaign : Campaign → ℕ → M (Unit {0})
  unfolding close_campaign maybe_spawn_recurrence
  finish_campaign c subject = do
    close_campaign c.id
    actor ← gets (λ s. internal_user_id subject s.db)
    record_audit access_review_campaign_completed (some c.id) none actor true
    commit
    maybe_spawn_recurrence c c.frequency_days

  unfoldable pub complete_campaign : (fuel : ℕ) → ℕ → ℕ → M (Unit {0})
  unfolding get_campaign close_item finish_campaign
  complete_campaign fuel key subject = do
    c ← get_campaign key
    raise_if (not (is_active_campaign c.status)) request_already_processed
    pending ← gets (λ s. open_items key s.db)
    for_each (λ i. close_item fuel c.on_no_response subject i i.workflow_instance_id) pending
    still ← gets (λ s. is_open c.id s.db)
    if still then finish_campaign c subject else pure tt

  -- The number of campaigns that were closed.
  unfoldable pub sweep_all : (fuel : ℕ) → List ℕ → M ℕ
  unfolding complete_campaign
  sweep_all fuel [] = pure 0
  sweep_all fuel (key ∷ keys) =
      try_else (complete_campaign fuel key system) (λ _. do n ← sweep_all fuel keys; pure (n + 1))
        (λ e. sweep_all fuel keys)

  unfoldable pub sweep_overdue_campaigns : (fuel : ℕ) → M ℕ
  unfolding sweep_all
  sweep_overdue_campaigns fuel = do
    overdue ← gets λ s.
        map (λ c. c.id)
          (select (λ c. is_active_campaign c.status && leb c.due_at s.now) s.db.campaigns)
    sweep_all fuel overdue
