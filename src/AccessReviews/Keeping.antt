-- ===== src/AccessReviews/Keeping.antt =====
-- Review items that are approved one after another, as the end of a campaign does it
-- (`complete_campaign` of backend/app/services/access_reviews.py).
use mathlib.Core.Option
use access_piliot.Prelude.{
  ℕ, ◌≡◌, refl, Bool, true, false, Option, none, some, List, [], ◌∷◌, ◌==◌, is_some, all,
  select-all, get_row, update_row, get_row-update_row, if◌then◌else◌, arith,
}
use access_piliot.Store.{
  Db, ReviewItem, ReviewDecision, unreviewed, certified, withdrawn, auto_withdrawn,
}
use access_piliot.AccessReviews.Deciding.{open_items}

abbrev is_kept : ReviewDecision → Bool
is_kept certified = true
is_kept unreviewed = false
is_kept withdrawn = false
is_kept auto_withdrawn = false

abbrev is_kept_row : Option ReviewItem → Bool
is_kept_row none = false
is_kept_row (some r) = is_kept r.decision

-- The item with this key is approved.
abbrev pub is_kept_at : ℕ → List ReviewItem → Bool
is_kept_at key rows = is_kept_row (get_row (λ i. i.id) key rows)

abbrev pub mark : ℕ → ReviewItem → ReviewItem
mark now r = record r { decision = certified; decided_at = some now }

unfoldable pub keep_all : ℕ → List ReviewItem → List ReviewItem → List ReviewItem
keep_all now [] rows = rows
keep_all now (i ∷ is) rows = keep_all now is (update_row (λ i. i.id) i.id (mark now) rows)

is_kept-mark :
    (now : ℕ) (o : Option ReviewItem)
    → is_some o ≡ true
    → is_kept_row (Option.map (mark now) o) ≡ true
is_kept-mark now none h = ground arith
is_kept-mark now (some r) h = refl

is_some-kept : (o : Option ReviewItem) → is_kept_row o ≡ true → is_some o ≡ true
is_some-kept none h = ground arith
is_some-kept (some r) h = refl

is_some-map : (now : ℕ) (o : Option ReviewItem) → is_some (Option.map (mark now) o) ≡ is_some o
is_some-map now none = refl
is_some-map now (some r) = refl

module _ (now key k : ℕ) (rows : List ReviewItem) where
  updated : get_row (λ i. i.id) k (update_row (λ i. i.id) key (mark now) rows) ≡ (
      if key == k
      then Option.map (mark now) (get_row (λ i. i.id) k rows)
      else get_row (λ i. i.id) k rows)
  updated = get_row-update_row (λ i. i.id) key k (mark now) rows (λ r. refl)

  still_kept :
      is_kept_at k rows ≡ true → is_kept_at k (update_row (λ i. i.id) key (mark now) rows) ≡ true
  still_kept h = ground (
    arith,
    updated,
    is_kept-mark now (get_row (λ i. i.id) k rows),
    is_some-kept (get_row (λ i. i.id) k rows),
  )

  still_there :
      is_some (get_row (λ i. i.id) k rows) ≡ true
      → is_some (get_row (λ i. i.id) k (update_row (λ i. i.id) key (mark now) rows)) ≡ true
  still_there h = ground (arith, updated, is_some-map now (get_row (λ i. i.id) k rows))

  now_kept :
      key ≡ k
      → is_some (get_row (λ i. i.id) k rows) ≡ true
      → is_kept_at k (update_row (λ i. i.id) key (mark now) rows) ≡ true
  now_kept e h = ground (arith, updated, is_kept-mark now (get_row (λ i. i.id) k rows))

keeps_kept :
    (now k : ℕ) (is rows : List ReviewItem)
    → is_kept_at k rows ≡ true
    → is_kept_at k (keep_all now is rows) ≡ true
unfolding keep_all
keeps_kept now k [] rows h = h
keeps_kept now k (i ∷ is) rows h = keeps_kept now k is _ (still_kept now i.id k rows h)

unfoldable pub is_there : List ReviewItem → ReviewItem → Bool
is_there rows i = is_some (get_row (λ i. i.id) i.id rows)

module _ (now key : ℕ) where
  all_still_there :
      (is rows : List ReviewItem)
      → all (is_there rows) is ≡ true
      → all (is_there (update_row (λ i. i.id) key (mark now) rows)) is ≡ true
  unfolding is_there
  all_still_there [] rows h = refl
  all_still_there (i ∷ is) rows h =
      ground (arith, still_there now key i.id rows, all_still_there is rows)

pub all_kept :
    (now : ℕ) (is rows : List ReviewItem)
    → all (is_there rows) is ≡ true
    → all (λ i. is_kept_at i.id (keep_all now is rows)) is ≡ true
unfolding keep_all is_there
all_kept now [] rows h = refl
all_kept now (i ∷ is) rows h = ground (
  arith,
  all_kept now is (update_row (λ i. i.id) i.id (mark now) rows),
  all_still_there now i.id is rows,
  keeps_kept now i.id is (update_row (λ i. i.id) i.id (mark now) rows),
  now_kept now i.id i.id rows refl,
)

module _ (k : ℕ) (x : ReviewItem) (rows : List ReviewItem) where
  there_behind :
      is_some (get_row (λ i. i.id) k rows) ≡ true
      → is_some (get_row (λ i. i.id) k (x ∷ rows)) ≡ true
  unfolding get_row
  there_behind h = ground arith

all_behind :
    (x : ReviewItem) (is rows : List ReviewItem)
    → all (is_there rows) is ≡ true
    → all (is_there (x ∷ rows)) is ≡ true
unfolding is_there
all_behind x [] rows h = refl
all_behind x (i ∷ is) rows h = ground (arith, there_behind i.id x rows, all_behind x is rows)

is_first : (x : ReviewItem) (rows : List ReviewItem) → is_there (x ∷ rows) x ≡ true
unfolding is_there get_row
is_first x rows = ground arith

all_there : (rows : List ReviewItem) → all (is_there rows) rows ≡ true
all_there [] = refl
all_there (x ∷ rows) = ground (arith, is_first x rows, all_behind x rows rows (all_there rows))

pub open_there : (key : ℕ) (db : Db) → all (is_there db.review_items) (open_items key db) ≡ true
open_there key db =
    let there = is_there db.review_items in
    select-all _ there there _ (λ i p h. h)
      (select-all _ there there _ (λ i p h. h) (all_there db.review_items))
