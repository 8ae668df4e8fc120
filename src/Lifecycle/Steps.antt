-- ===== src/Lifecycle/Steps.antt =====
-- Rules for the writes to rows of `access_assignments`: a row that was read and is written after
-- other code ran still has the columns that were read
-- (backend/app/services/assignments.py, backend/app/workers).
use mathlib.Core.Path.{subst}
use access_piliot.Prelude.{
  ℕ, ◌≡◌, true, sym, ap, ◌∙◌, refl, inl, inr, Option, none, some, List, get_row, id-get_row,
}
use access_piliot.Store.{
  Session, Assignment, M, Preserves, From, From-bind, modify, gets, or_raise, ◌>>=◌,
  assignment_not_found,
}
use access_piliot.Target.{assignment_by, get_assignment, update_assignment}
use access_piliot.Lifecycle.Order.{Follows, Follows-trans, Follows-update_row, Succeeds}
use access_piliot.Lifecycle.Keys.{are_distinct, are_distinct-update_row}
use access_piliot.Lifecycle.Quiet.{Same, Same-refl, Same-cases}

-- Every row of `before` is there, in a later state of its life, in the session and in what is
-- committed; and no two rows share a key.
abbrev pub Later : List Assignment → List Assignment → Type 0
Later before rows = Follows before rows × (are_distinct rows ≡ true)

abbrev pub Safe : List Assignment → Session → Type 0
Safe before s = Later before s.db.assignments × Later before s.saved.assignments

-- The row with this key has these columns.
abbrev pub Found : ℕ → Assignment → Session → Type 0
Found key a s = assignment_by key s.db ≡ some a

module _ {A : Type 0} (before : List Assignment) (m : M A) where
  pub Safe-quiet : ((x y : List Assignment) → Preserves (Same x y) m) → Preserves (Safe before) m
  Safe-quiet quiet = record {
    at = λ s h.
        let x = s.db.assignments in
        let y = s.saved.assignments in
        let (same, committed) = Same-cases x y (m s).1 ((quiet x y).at s (Same-refl s)) in
        (
          subst (Later before) (sym same) h.0,
          elim committed [
            | inl old ↦ subst (Later before) (sym old) h.1
            | inr new ↦ subst (Later before) (sym new) h.0
          ],
        );
  }

  pub Found-quiet :
      (key : ℕ) (a : Assignment)
      → ((x y : List Assignment) → Preserves (Same x y) m)
      → Preserves (λ s. Found key a s × Safe before s) m
  Found-quiet key a quiet = record {
    at = λ s (found, h).
        let x = s.db.assignments in
        let y = s.saved.assignments in
        let (same, committed) = Same-cases x y (m s).1 ((quiet x y).at s (Same-refl s)) in
        (ap (get_row (λ r. r.id) key) same ∙ found, (Safe-quiet quiet).at s h);
  }

module _ {A : Type 0} (before : List Assignment) where
  -- A row is read, and its columns are known from there on.
  pub From-get_assignment :
      (key : ℕ) (f : Assignment → M A)
      → ((a : Assignment) → From (Found key a) (Safe before) (f a))
      → Preserves (Safe before) (get_assignment key >>= f)
  unfolding get_assignment ◌>>=◌ gets or_raise
  From-get_assignment key f kf = record { at = λ s h. found s h (assignment_by key s.db) refl }
    where
      found :
          (s : Session)
          → Safe before s
          → (o : Option Assignment) → assignment_by key s.db ≡ o
          → Safe before ((or_raise o assignment_not_found >>= f) s).1
      found s h none e = h
      found s h (some a) e = (kf a).at s e h

module _ {A B : Type 0} (before : List Assignment) (key : ℕ) (a : Assignment) where
  -- Code that writes to no row of the table runs in between.
  pub From-quiet :
      (m : M A) (f : A → M B)
      → ((x y : List Assignment) → Preserves (Same x y) m)
      → ((b : A) → From (Found key a) (Safe before) (f b))
      → From (Found key a) (Safe before) (m >>= f)
  From-quiet m f quiet kf = From-bind m f (Found-quiet before m key a quiet) kf

-- A write leads the row to a later state.
pub From-update_assignment :
    (before : List Assignment) (key : ℕ) (a : Assignment) (f : Assignment → Assignment)
    → ((r : Assignment) → (f r).id ≡ r.id)
    → Succeeds a (f a)
    → From (Found key a) (Safe before) (update_assignment key f)
unfolding update_assignment modify
From-update_assignment before key a f keeps step = record {
  at = λ s found h. (
    (
      Follows-trans h.0.0 (Follows-update_row s.db.assignments key f a found keeps step),
      are_distinct-update_row key f keeps s.db.assignments h.0.1,
    ),
    h.1,
  );
}

module _ {A : Type 0} (before : List Assignment) where
  -- A row is looked up that may be missing.
  pub From-assignment_by :
      (key : ℕ) (f : Option Assignment → M A)
      → Preserves (Safe before) (f none)
      → ((a : Assignment) → From (Found a.id a) (Safe before) (f (some a)))
      → Preserves (Safe before) (gets (λ s. assignment_by key s.db) >>= f)
  unfolding ◌>>=◌ gets
  From-assignment_by key f absent kf = record {
    at = λ s h. split s h (assignment_by key s.db) refl;
  }
    where
      split :
          (s : Session)
          → Safe before s
          → (o : Option Assignment) → assignment_by key s.db ≡ o
          → Safe before (f o s).1
      split s h none e = absent.at s h
      split s h (some a) e =
          (kf a).at s
            (subst (λ k. Found k a s) (sym (id-get_row (λ r. r.id) key s.db.assignments a e)) e) h
