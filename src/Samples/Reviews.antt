-- ===== src/Samples/Reviews.antt =====
-- The theorems about access reviews (backend/app/services/access_reviews.py) at the sample data: a
-- campaign of one item.
use access_piliot.Prelude.{◌≡◌, refl, true, false, none, some, [], ◌∷◌, all, get_row, update_row}
use access_piliot.Store.{
  Session, Campaign, ReviewItem, all_access, campaign_active, keep_access, unreviewed, group,
  confirmed, active, ok, ◌>>=◌, modify, commit, raise_if, record_audit,
}
use access_piliot.AccessReviews.Campaigns.{
  campaign_by, item_by, get_campaign, update_item, update_row_of_campaign,
}
use access_piliot.AccessReviews.Deciding.{
  is_undecided, open_items, authorize_review_decision, write_decision, tell_creator,
  close_if_decided, all_decided, close_campaign, maybe_spawn_recurrence, decide_item,
  complete_campaign,
}
use access_piliot.AccessReviews.Guards.{MayReview, decide_item-ok}
use access_piliot.AccessReviews.Keeping.{is_kept_at}
use access_piliot.AccessReviews.Closing.{IsClosed, complete_campaign-kept}
use access_piliot.AccessReviews.Recurrence.{SameReviews, maybe_spawn_recurrence-routed}
use access_piliot.Samples.{session_with, grant, no_handlers}

abbrev campaign : Campaign
campaign = record {
  id = 60;
  scope = all_access;
  reviewer_id = some 1;
  fallback_reviewer_id = none;
  fallback_unlock_hours = none;
  workflow_definition_id = none;
  status = campaign_active;
  due_at = 900;
  frequency_days = none;
  on_no_response = keep_access;
  parent_campaign_id = none;
  created_by = some 1;
  created_at = 0;
  completed_at = none;
}

abbrev item : ReviewItem
item = record {
  id = 61;
  campaign_id = 60;
  assignment_id = 10;
  user_id = 2;
  resource_type = group;
  resource_id = 5;
  app_role = none;
  decision = unreviewed;
  decided_by = none;
  decided_at = none;
  workflow_instance_id = none;
}

abbrev review_session : Session
review_session =
    let s = session_with confirmed (grant 10 active none ∷ []) in
    record s { db = record s.db { campaigns = campaign ∷ []; review_items = item ∷ [] } }

-- The reviewer approves the item.
approved : (decide_item no_handlers 999 3 61 false 101 [] review_session).0 ≡ ok tt
unfolding decide_item get_campaign authorize_review_decision write_decision update_item tell_creator
    close_if_decided all_decided close_campaign update_row_of_campaign maybe_spawn_recurrence ◌>>=◌
    get_row update_row modify commit raise_if record_audit
approved = refl

decide_item-ok_example :
    (i : ReviewItem) × (c : Campaign) × (item_by 61 review_session.db ≡ some i)
    × (campaign_by i.campaign_id review_session.db ≡ some c)
    × (is_undecided i.decision ≡ true)
    × (i.workflow_instance_id ≡ none)
    × MayReview c 101 [] review_session
decide_item-ok_example = decide_item-ok no_handlers 999 3 61 false 101 [] review_session tt approved

complete_campaign-kept_example :
    IsClosed 60 campaign review_session (complete_campaign no_handlers 999 3 60 101 review_session)
    × (all
          (λ i.
            is_kept_at i.id
              (complete_campaign no_handlers 999 3 60 101 review_session).1.db.review_items)
          (open_items 60 review_session.db)
        ≡ true)
unfolding get_row
complete_campaign-kept_example =
    complete_campaign-kept no_handlers 999 3 101 60 campaign review_session refl refl refl refl refl

-- A campaign through a workflow that recurs every month.
abbrev monthly : Campaign
monthly = record campaign {
  reviewer_id = none;
  workflow_definition_id = some 20;
  frequency_days = some 30;
}

maybe_spawn_recurrence-routed_example :
    SameReviews review_session
      (maybe_spawn_recurrence no_handlers 999 monthly (some 30) review_session).1
maybe_spawn_recurrence-routed_example =
    maybe_spawn_recurrence-routed no_handlers 999 monthly 20 review_session refl refl
