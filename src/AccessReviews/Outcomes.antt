-- ===== src/AccessReviews/Outcomes.antt =====
-- What the end of an item's workflow does to the item (`_apply_access_review_item_outcome` of
-- backend/app/services/workflows.py).
use access_piliot.Prelude.{ℕ, zero, suc, Bool, true, false, Option, none, some, if◌then◌else◌}
use access_piliot.Store.{
  Db, User, Instance, Progress, waiting, approved, refused, cancelled, skipped, Campaign,
  ReviewItem, NoResponse, keep_access, revoke_access, ReviewDecision, unreviewed, certified,
  withdrawn, auto_withdrawn, M, pure, crash, gets, ◌>>=◌, ◌>>◌,
}
use access_piliot.Target.{user_by}
use access_piliot.Workflows.Outcomes.{Handlers}
use access_piliot.AccessReviews.Campaigns.{campaign_by, item_by, update_item}
use access_piliot.AccessReviews.Deciding.{
  is_undecided, revoke_reviewed, write_decision, tell_creator, close_if_decided,
}

module _ (handlers : Handlers) (system : ℕ) where
  abbrev undecided_end : Option Campaign → ReviewDecision
  undecided_end none = auto_withdrawn
  undecided_end (some c) = kept c.on_no_response
    where
      kept : NoResponse → ReviewDecision
      kept keep_access = certified
      kept revoke_access = auto_withdrawn

  -- What the state of a finished instance decides.
  abbrev decision_of : Progress → Option Campaign → ReviewDecision
  decision_of approved c = certified
  decision_of refused c = withdrawn
  decision_of cancelled c = undecided_end c
  decision_of waiting c = undecided_end c
  decision_of skipped c = undecided_end c

  abbrev is_withdrawal : ReviewDecision → Bool
  is_withdrawal withdrawn = true
  is_withdrawal auto_withdrawn = true
  is_withdrawal certified = false
  is_withdrawal unreviewed = false

  -- The subject an actor's key stands for; the application's own, if there is none.
  abbrev subject_of : Option ℕ → Db → ℕ
  subject_of none db = system
  subject_of (some key) db = named (user_by key db)
    where
      named : Option User → ℕ
      named none = system
      named (some u) = u.external_id

  unfoldable pub after_item : Option Campaign → Option ℕ → M (Unit {0})
  unfolding tell_creator close_if_decided
  after_item none actor = pure tt
  after_item (some c) actor = tell_creator c actor >> close_if_decided handlers system c

  -- The decision stands in the item before the access is withdrawn.
  unfoldable pub conclude_item : (fuel : ℕ) → Progress → ReviewItem → Option ℕ → M (Unit {0})
  unfolding update_item revoke_reviewed write_decision after_item
  conclude_item fuel status i actor = do
    c ← gets (λ s. campaign_by i.campaign_id s.db)
    subject ← gets (λ s. subject_of actor s.db)
    let decision : ReviewDecision = decision_of status c
    update_item i.id (λ r. record r { decision = decision })
    if is_withdrawal decision then revoke_reviewed fuel i subject else pure tt
    write_decision i decision actor
    after_item c actor

  unfoldable pub conclude_if_open :
      (fuel : ℕ) → Progress → Option ReviewItem → Option ℕ → M (Unit {0})
  unfolding conclude_item
  conclude_if_open fuel status none actor = pure tt
  conclude_if_open fuel status (some i) actor =
      if is_undecided i.decision then conclude_item fuel status i actor else pure tt

  abbrev item_of : Option ℕ → Db → Option ReviewItem
  item_of none db = none
  item_of (some key) db = item_by key db

  unfoldable pub apply_access_review_item_outcome : (fuel : ℕ) → Instance → Option ℕ → M (Unit {0})
  unfolding conclude_if_open
  apply_access_review_item_outcome fuel instance actor = do
    found ← gets (λ s. item_of instance.subject_id s.db)
    conclude_if_open fuel instance.status found actor

-- The handlers of the running application: an outcome may start a campaign whose workflows end at
-- once and have outcomes of their own, so the depth takes fuel.
unfoldable pub with_reviews : (fuel : ℕ) → (system : ℕ) → Handlers → Handlers
with_reviews zero system others = record others { on_access_review_item = λ i actor. crash }
with_reviews (suc fuel) system others = record others {
  on_access_review_item =
      apply_access_review_item_outcome (with_reviews fuel system others) system (suc fuel);
}
