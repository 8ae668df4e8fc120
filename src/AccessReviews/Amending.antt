-- ===== src/AccessReviews/Amending.antt =====
-- The editing of a campaign (`update_campaign` of backend/app/services/access_reviews.py). A fixed
-- calendar is not modelled.
use access_piliot.Prelude.{
  ℕ, Bool, true, not, ◌&&◌, ◌||◌, Option, none, some, if◌then◌else◌, same_id, is_some,
}
use access_piliot.Store.{
  Campaign, request_already_processed, validation_error, access_review_campaign_updated, M, pure,
  gets, raise_if, commit, ◌>>=◌, ◌>>◌, record_audit,
}
use access_piliot.Target.{internal_user_id}
use access_piliot.AccessReviews.Campaigns.{
  check_user, get_campaign, is_active_campaign, update_row_of_campaign, tell_assigned,
}

pub record CampaignUpdate : Type 0 where
  pub is_renamed : Bool
  pub reviewer_id : Option ℕ
  pub fallback_reviewer_id : Option ℕ
  pub clear_fallback_reviewer : Bool
  pub fallback_unlock_hours : Option ℕ
  pub due_at : Option ℕ
  pub frequency_days : Option ℕ
  pub clear_frequency : Bool

abbrev touches_reviewers : CampaignUpdate → Bool
touches_reviewers data' =
    is_some data'.reviewer_id
    || is_some data'.fallback_reviewer_id
    || data'.clear_fallback_reviewer
    || is_some data'.fallback_unlock_hours

-- A person who is named and is not the one that stands there; they have to be known.
unfoldable pub named_anew : Option ℕ → Option ℕ → M (Option ℕ)
unfolding check_user
named_anew none old = pure none
named_anew (some u) old =
    if same_id (some u) old then pure none else (check_user u >> pure (some u))

abbrev or_old {ℓ} : {A : Type ℓ} → Option A → Option A → Option A
or_old none old = old
or_old (some x) old = some x

abbrev or_due : Option ℕ → ℕ → ℕ
or_due none old = old
or_due (some d) old = d

abbrev edited : CampaignUpdate → Option ℕ → Option ℕ → Campaign → Campaign
edited data' reviewer fallback c = record c {
  reviewer_id = or_old reviewer c.reviewer_id;
  fallback_reviewer_id =
      if data'.clear_fallback_reviewer then none else or_old fallback c.fallback_reviewer_id;
  fallback_unlock_hours =
      or_old data'.fallback_unlock_hours
        (if data'.clear_fallback_reviewer then none else c.fallback_unlock_hours);
  due_at = or_due data'.due_at c.due_at;
  frequency_days =
      if data'.clear_frequency then none else or_old data'.frequency_days c.frequency_days;
}

-- Does the audit log tell of the edit?
abbrev has_changes : CampaignUpdate → Option ℕ → Option ℕ → Bool
has_changes data' reviewer fallback =
    data'.is_renamed
    || is_some reviewer
    || data'.clear_fallback_reviewer
    || is_some fallback
    || is_some data'.fallback_unlock_hours
    || is_some data'.due_at
    || data'.clear_frequency
    || is_some data'.frequency_days

unfoldable pub update_campaign : ℕ → CampaignUpdate → (subject : ℕ) → M (Unit {0})
unfolding get_campaign named_anew update_row_of_campaign tell_assigned
update_campaign key data' subject = do
  c ← get_campaign key
  raise_if (not (is_active_campaign c.status)) request_already_processed
  raise_if (is_some c.workflow_definition_id && touches_reviewers data') validation_error
  reviewer ← named_anew data'.reviewer_id c.reviewer_id
  fallback ←
      if data'.clear_fallback_reviewer
      then pure none
      else named_anew data'.fallback_reviewer_id c.fallback_reviewer_id
  update_row_of_campaign key (edited data' reviewer fallback)
  actor ← gets (λ s. internal_user_id subject s.db)
  if has_changes data' reviewer fallback
      then record_audit access_review_campaign_updated (some key) none actor true
      else pure tt
  tell_assigned reviewer
  tell_assigned fallback
  commit
