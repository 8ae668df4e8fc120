-- ===== src/AccessReviews/Closing.antt =====
-- The end of a campaign that keeps what nobody objected to (`complete_campaign` of
-- backend/app/services/access_reviews.py).
use mathlib.Core.Path.{subst}
use access_piliot.Prelude.{
  ℕ, ◌≡◌, refl, sym, ap, Bool, true, false, not, ◌&&◌, Option, none, some, List, [], ◌∷◌, ◌==◌,
  is_some, any, all, get_row, update_row, get_row-update_row, id-get_row, arith,
}
use access_piliot.Store.{
  Db, Session, Campaign, campaign_completed, ReviewItem, keep_access,
  access_review_campaign_not_found, Error, Result, ok, pure, gets, modify, commit, for_each,
  or_raise, raise_if, ◌>>=◌, record_audit, then_,
}
use access_piliot.Workflows.Outcomes.{Handlers}
use access_piliot.AccessReviews.Campaigns.{
  campaign_by, get_campaign, update_item, update_row_of_campaign, is_active_campaign,
}
use access_piliot.AccessReviews.Keeping.{mark, keep_all, is_kept_at, all_kept, open_there}
use access_piliot.AccessReviews.Deciding.{
  open_items, is_open, close_campaign, settle_item, close_item, finish_campaign,
  maybe_spawn_recurrence, complete_campaign,
}

abbrev pub routed : ReviewItem → Bool
routed i = is_some i.workflow_instance_id

with_items : List ReviewItem → Session → Session
with_items rows s = record s { db = record s.db { review_items = rows } }

abbrev pub completed : ℕ → Campaign → Campaign
completed now c = record c { status = campaign_completed; completed_at = some now }

-- The code returned: the campaign is closed, no assignment was changed, no directory was called, and
-- everything is committed.
abbrev pub IsClosed : ℕ → Campaign → Session → Result (Unit {0}) × Session → Type 0
IsClosed key c s (r, t) =
    (r ≡ ok tt)
    × (campaign_by key t.db ≡ some (completed s.now c))
    × (t.db.assignments ≡ s.db.assignments)
    × (t.calls ≡ s.calls)
    × (t.saved ≡ t.db)

module _ (handlers : Handlers) (system fuel subject : ℕ) where
  close_item-kept :
      (i : ReviewItem) (o : Option ℕ) (s : Session)
      → is_some o ≡ false
      → close_item handlers system fuel keep_access subject i o s
        ≡ (ok tt, with_items (update_row (λ i. i.id) i.id (mark s.now) s.db.review_items) s)
  unfolding close_item settle_item update_item modify ◌>>=◌ gets with_items
  close_item-kept i none s h = refl
  close_item-kept i (some k) s h = ground arith

  closing :
      (is : List ReviewItem) (s : Session)
      → all (λ i. not (routed i)) is ≡ true
      → for_each
          (λ i. close_item handlers system fuel keep_access subject i i.workflow_instance_id)
          is
          s
        ≡ (ok tt, with_items (keep_all s.now is s.db.review_items) s)
  unfolding for_each keep_all with_items pure
  closing [] s h = refl
  closing (i ∷ is) s h =
      then_ _ _ s tt _ (close_item-kept i i.workflow_instance_id s (ground arith))
        (closing is _ (ground arith))

  is_open-found :
      (key : ℕ) (c : Campaign) (rows : List Campaign)
      → get_row (λ c. c.id) key rows ≡ some c
      → is_active_campaign c.status ≡ true
      → any (λ r. (r.id == key) && is_active_campaign r.status) rows ≡ true
  unfolding get_row
  is_open-found key c [] found active = ground arith
  is_open-found key c (r ∷ rs) found active = ground (arith, is_open-found key c rs)

  still_open :
      (key : ℕ) (c : Campaign) (db : Db)
      → campaign_by key db ≡ some c
      → is_active_campaign c.status ≡ true
      → is_open c.id db ≡ true
  still_open key c db found active =
      let same = id-get_row (λ (c : Campaign). c.id) key db.campaigns c found in
      subst (λ k. is_open k db ≡ true) (sym same) (is_open-found key c db.campaigns found active)

  after_spawn :
      (P : Result (Unit {0}) × Session → Type 0) (c : Campaign) (o : Option ℕ) (t : Session)
      → o ≡ none
      → P (ok tt, t)
      → P (maybe_spawn_recurrence handlers system c o t)
  unfolding maybe_spawn_recurrence pure
  after_spawn P c none t once h = h
  after_spawn P c (some n) t once h = ground arith

  closed_row :
      (now key : ℕ) (c : Campaign) (rows : List Campaign)
      → get_row (λ c. c.id) key rows ≡ some c
      → get_row (λ c. c.id) key (update_row (λ c. c.id) c.id (completed now) rows)
        ≡ some (completed now c)
  closed_row now key c rows found =
      let same = id-get_row (λ (c : Campaign). c.id) key rows c found in
      let moved =
        get_row-update_row (λ (c : Campaign). c.id) c.id key (completed now) rows (λ r. refl) in
      ground (arith, moved, same, found)

  finish_campaign-once :
      (key : ℕ) (c : Campaign) (s : Session)
      → campaign_by key s.db ≡ some c
      → c.frequency_days ≡ none
      → IsClosed key c s (finish_campaign handlers system c subject s)
        × ((finish_campaign handlers system c subject s).1.db.review_items ≡ s.db.review_items)
  unfolding finish_campaign close_campaign update_row_of_campaign modify record_audit commit ◌>>=◌
      gets
  finish_campaign-once key c s found once =
      after_spawn (λ x. IsClosed key c s x × (x.1.db.review_items ≡ s.db.review_items)) c
        c.frequency_days _ once
        ((refl, closed_row s.now key c s.db.campaigns found, refl, refl, refl), refl)

  known_campaign :
      (key : ℕ) (c : Campaign) (s : Session)
      → campaign_by key s.db ≡ some c
      → get_campaign key s ≡ (ok c, s)
  unfolding get_campaign ◌>>=◌ gets or_raise
  known_campaign key c s found = ap (λ o. or_raise o access_review_campaign_not_found s) found

  passes : (b : Bool) (e : Error) (s : Session) → b ≡ false → raise_if b e s ≡ (ok tt, s)
  unfolding raise_if
  passes b e s h = rw h refl

  reads : {A : Type 0} (g : Session → A) (s : Session) → gets g s ≡ (ok (g s), s)
  unfolding gets
  reads g s = refl

  still_there_after :
      (key : ℕ) (c : Campaign) (s : Session)
      → campaign_by key s.db ≡ some c
      → is_active_campaign c.status ≡ true
      → let t = with_items (keep_all s.now (open_items key s.db) s.db.review_items) s in
        gets (λ s. is_open c.id s.db) t ≡ (ok true, t)
  unfolding gets with_items
  still_there_after key c s found active =
      let t = with_items (keep_all s.now (open_items key s.db) s.db.review_items) s in
      ap (λ b. (ok b, t)) (still_open key c s.db found active)

  reaches :
      (key : ℕ) (c : Campaign) (s : Session)
      → campaign_by key s.db ≡ some c
      → is_active_campaign c.status ≡ true
      → c.on_no_response ≡ keep_access
      → all (λ i. not (routed i)) (open_items key s.db) ≡ true
      → complete_campaign handlers system fuel key subject s
        ≡ finish_campaign handlers system c subject
            (with_items (keep_all s.now (open_items key s.db) s.db.review_items) s)
  unfolding complete_campaign
  reaches key c s found active keeps by_hand = then_ _ _ s c _ (known_campaign key c s found) (
      then_ _ _ s tt _ (passes _ _ s (ap not active)) (
        then_ _ _ s (open_items key s.db) _ (reads _ s) (
          then_ _ _ s tt _ (rw keeps (closing (open_items key s.db) s by_hand))
            (then_ _ _ _ true _ (still_there_after key c s found active) refl))))

  -- Let the campaign be there and active, keep what nobody objected to and not recur, with no pending
  -- item in a workflow. Then its closing returns, and it is completed: its pending items are approved, no assignment is changed, no directory is
  -- called, and everything is committed.
  pub complete_campaign-kept :
      (key : ℕ) (c : Campaign) (s : Session)
      → campaign_by key s.db ≡ some c
      → is_active_campaign c.status ≡ true
      → c.on_no_response ≡ keep_access
      → c.frequency_days ≡ none
      → all (λ i. not (routed i)) (open_items key s.db) ≡ true
      → IsClosed key c s (complete_campaign handlers system fuel key subject s)
        × (all
              (λ i.
                is_kept_at i.id
                  (complete_campaign handlers system fuel key subject s).1.db.review_items)
              (open_items key s.db)
            ≡ true)
  unfolding with_items
  complete_campaign-kept key c s found active keeps once by_hand =
      let t = with_items (keep_all s.now (open_items key s.db) s.db.review_items) s in
      let (ended, items) = finish_campaign-once key c t found once in
      subst
        (λ x.
          IsClosed key c s x
          × (all (λ i. is_kept_at i.id x.1.db.review_items) (open_items key s.db) ≡ true))
        (sym (reaches key c s found active keeps by_hand))
        (
          ended,
          subst (λ rows. all (λ i. is_kept_at i.id rows) (open_items key s.db) ≡ true) (sym items)
              (all_kept s.now (open_items key s.db) s.db.review_items (open_there key s.db)),
        )
