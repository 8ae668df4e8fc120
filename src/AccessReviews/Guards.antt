-- ===== src/AccessReviews/Guards.antt =====
-- What is known of a decision on a review that succeeded: who made it, and in what state the item was
-- (backend/app/services/access_reviews.py).
use access_piliot.Prelude.{
  ℕ, ◌≡◌, refl, ◌⊎◌, Bool, true, false, Option, none, some, List, is_some, arith,
}
use access_piliot.Store.{
  Session, ActorRole, Campaign, ReviewItem, ok, bind-ok, gets-ok, or_raise-ok, raise_if-ok,
  raise_if, ◌>>=◌, gets, raise, pure, M,
}
use access_piliot.Target.{internal_user_id}
use access_piliot.Workflows.Outcomes.{Handlers}
use access_piliot.Assignments.Approval.{is_actor, is_unlocked}
use access_piliot.AccessReviews.Campaigns.{campaign_by, item_by, get_campaign}
use access_piliot.AccessReviews.Deciding.{
  is_review_admin, fallback_opens_at, is_undecided, authorize_review_decision, decide_item,
}

-- An administrator of reviews, the reviewer, or the fallback reviewer once their wait is over.
abbrev pub MayReview : Campaign → ℕ → List ActorRole → Session → Type 0
MayReview c subject roles s =
    (is_review_admin roles ≡ true)
    ⊎ (is_actor (internal_user_id subject s.db) c.reviewer_id ≡ true)
    ⊎ ((is_actor (internal_user_id subject s.db) c.fallback_reviewer_id ≡ true)
        × (is_unlocked (fallback_opens_at c c.fallback_unlock_hours) s.now ≡ true))

authorize_review_decision-ok :
    (c : Campaign) (subject : ℕ) (roles : List ActorRole) (s : Session) (actor : Option ℕ)
    → (authorize_review_decision c subject roles s).0 ≡ ok actor
    → MayReview c subject roles s
unfolding authorize_review_decision ◌>>=◌ gets raise pure raise_if
authorize_review_decision-ok c subject roles s actor h = ground arith

module _ {B : Type 0} where
  pub get_campaign-ok :
      (key : ℕ) (f : Campaign → M B) (s : Session) (b : B)
      → ((get_campaign key >>= f) s).0 ≡ ok b
      → (c : Campaign) × (campaign_by key s.db ≡ some c) × ((f c s).0 ≡ ok b)
  unfolding get_campaign ◌>>=◌ gets
  get_campaign-ok key f s b h = or_raise-ok (campaign_by key s.db) _ f s b h

no_instance : (o : Option ℕ) → is_some o ≡ false → o ≡ none
no_instance none h = refl
no_instance (some k) h = ground arith

-- A decision on a review item that returns found the item undecided and not routed through a
-- workflow, found its campaign, and was made by an administrator of reviews, by the campaign's
-- reviewer, or by its fallback reviewer after the wait.
pub decide_item-ok :
    (handlers : Handlers) (system fuel key : ℕ) (withdraws : Bool) (subject : ℕ)
    (roles : List ActorRole) (s : Session) (u : Unit {0})
    → (decide_item handlers system fuel key withdraws subject roles s).0 ≡ ok u
    → (i : ReviewItem) × (c : Campaign) × (item_by key s.db ≡ some i)
      × (campaign_by i.campaign_id s.db ≡ some c)
      × (is_undecided i.decision ≡ true)
      × (i.workflow_instance_id ≡ none)
      × MayReview c subject roles s
unfolding decide_item
decide_item-ok handlers system fuel key withdraws subject roles s u h =
    let (i, found, h1) = or_raise-ok (item_by key s.db) _ _ s u (gets-ok _ _ s u h) in
    let (undecided, h2) = raise_if-ok _ _ _ s u h1 in
    let (by_hand, h3) = raise_if-ok _ _ _ s u h2 in
    let (c, of, h4) = get_campaign-ok i.campaign_id _ s u h3 in
    let (actor, allowed, h5) = bind-ok _ _ s u h4 in
    (
      i,
      c,
      found,
      of,
      ground arith,
      no_instance i.workflow_instance_id by_hand,
      authorize_review_decision-ok c subject roles s actor allowed,
    )
