-- ===== src/Lifecycle/Retained.antt =====
-- Rows of `access_assignments` that the code leaves alone: rules for code that writes to other rows
-- only (backend/app/services/assignments.py).
use mathlib.Core.Path.{subst}
use mathlib.Core.Option.{some_inj}
use access_piliot.Prelude.{
  ℕ, ◌≡◌, refl, sym, ap, ◌∙◌, Bool, true, false, not, ◌||◌, inl, inr, some, List, [], ◌∷◌, ◌==◌,
  all, get_row, update_row, get_row-update_row, Bool-cases, ==_iff, if◌then◌else◌, arith,
}
use access_piliot.Store.{
  Session, Assignment, M, Preserves, Preserves-bind, Preserves-pure, Result, ok, raised, crashed,
  modify, gets, for_each, ◌>>=◌,
}
use access_piliot.Target.{update_assignment}
use access_piliot.Lifecycle.Keys.{are_distinct, has_key}
use access_piliot.Lifecycle.Quiet.{Same, Same-refl, Same-cases}

-- Of the rows of the session, and of those that are committed.
abbrev pub InRows : (List Assignment → Type 0) → Session → Type 0
InRows Q s = Q s.db.assignments × Q s.saved.assignments

module _ {A : Type 0} (Q : List Assignment → Type 0) (m : M A) where
  pub InRows-quiet : ((x y : List Assignment) → Preserves (Same x y) m) → Preserves (InRows Q) m
  InRows-quiet quiet = record {
    at = λ s h.
        let x = s.db.assignments in
        let y = s.saved.assignments in
        let (same, committed) = Same-cases x y (m s).1 ((quiet x y).at s (Same-refl s)) in
        (
          subst Q (sym same) h.0,
          elim committed [ inl old ↦ subst Q (sym old) h.1 | inr new ↦ subst Q (sym new) h.0 ],
        );
  }

-- A row that is there with this key, where all rows with the key meet the test.
abbrev pub Held : (Assignment → Bool) → ℕ → Assignment → List Assignment → Type 0
Held test key a rows =
    (get_row (λ r. r.id) key rows ≡ some a) × (all (λ r. not (r.id == key) || test r) rows ≡ true)

abbrev pub Kept : ℕ → Assignment → List Assignment → Type 0
Kept key a rows = get_row (λ r. r.id) key rows ≡ some a

module _ (test : Assignment → Bool) (key : ℕ) where
  other-update_row :
      (k : ℕ) (f : Assignment → Assignment) (rows : List Assignment)
      → (k == key) ≡ false
      → ((r : Assignment) → (f r).id ≡ r.id)
      → all (λ r. not (r.id == key) || test r) rows ≡ true
      → all (λ r. not (r.id == key) || test r) (update_row (λ r. r.id) k f rows) ≡ true
  unfolding update_row
  other-update_row k f [] other keeps h = refl
  other-update_row k f (r ∷ rs) other keeps h =
      ground (arith, keeps r, other-update_row k f rs other keeps)

  pub Held-update_row :
      (a : Assignment) (k : ℕ) (f : Assignment → Assignment) (rows : List Assignment)
      → (k == key) ≡ false
      → ((r : Assignment) → (f r).id ≡ r.id)
      → Held test key a rows
      → Held test key a (update_row (λ r. r.id) k f rows)
  Held-update_row a k f rows other keeps h = (
    ground (arith, get_row-update_row (λ (r : Assignment). r.id) k key f rows keeps, h.0),
    other-update_row k f rows other keeps h.1,
  )

  pub update_assignment-Held :
      (a : Assignment) (k : ℕ) (f : Assignment → Assignment)
      → (k == key) ≡ false
      → ((r : Assignment) → (f r).id ≡ r.id)
      → Preserves (InRows (Held test key a)) (update_assignment k f)
  unfolding update_assignment modify
  update_assignment-Held a k f other keeps = record {
    at = λ s h. (Held-update_row a k f s.db.assignments other keeps h.0, h.1);
  }

  no_key :
      (rows : List Assignment)
      → has_key key rows ≡ false
      → all (λ r. not (r.id == key) || test r) rows ≡ true
  no_key [] h = refl
  no_key (r ∷ rs) h = ground (arith, no_key rs)

  all-head :
      (r : Assignment) (rs : List Assignment)
      → test r ≡ true
      → all (λ r. not (r.id == key) || test r) rs ≡ true
      → all (λ r. not (r.id == key) || test r) (r ∷ rs) ≡ true
  all-head r rs h k = ground arith

  all-other :
      (r : Assignment) (rs : List Assignment)
      → (r.id == key) ≡ false
      → all (λ r. not (r.id == key) || test r) rs ≡ true
      → all (λ r. not (r.id == key) || test r) (r ∷ rs) ≡ true
  all-other r rs h k = ground arith

  -- Keys that are distinct leave only the row that was found.
  pub distinct-Held :
      (a : Assignment) (rows : List Assignment)
      → are_distinct rows ≡ true
      → get_row (λ r. r.id) key rows ≡ some a
      → test a ≡ true
      → Held test key a rows
  unfolding get_row
  distinct-Held a [] d h t = ground arith
  distinct-Held a (r ∷ rs) d h t = elim (Bool-cases (r.id == key)) [
    | inl same ↦
        let hit : some r ≡ some a =
          ap (λ b. if b then some r else get_row (λ (x : Assignment). x.id) key rs) (sym same)
          ∙ h in
        let free =
          subst (λ k. has_key k rs ≡ false) ((==_iff r.id key).0 same) (ground (arith, d)) in
        (h, all-head r rs (ap test (some_inj.0 hit) ∙ t) (no_key rs free))
    | inr other ↦
        let found =
          ap (λ b. if b then some r else get_row (λ (x : Assignment). x.id) key rs) (sym other)
          ∙ h in
        let (kept, rest) = distinct-Held a rs (ground (arith, d)) found t in
        (h, all-other r rs other rest)
  ]

module _ {P : Session → Type 0} {A B : Type 0} where
  -- What is read has a property, in each state in which the invariant holds.
  pub Preserves-reads :
      (R : A → Type 0) (g : Session → A) (f : A → M B)
      → ((s : Session) → P s → R (g s))
      → ((a : A) → R a → Preserves P (f a))
      → Preserves P (gets g >>= f)
  unfolding ◌>>=◌ gets
  Preserves-reads R g f known kf = record { at = λ s h. (kf (g s) (known s h)).at s h }

module _ {P : Session → Type 0} {A : Type 0} where
  pub for_each-all :
      (q : A → Bool) (f : A → M (Unit {0})) (xs : List A)
      → all q xs ≡ true
      → ((a : A) → q a ≡ true → Preserves P (f a))
      → Preserves P (for_each f xs)
  unfolding for_each
  for_each-all q f [] h kf = Preserves-pure tt
  for_each-all q f (x ∷ xs) h kf =
      Preserves-bind (f x) _ (kf x (ground arith)) (λ _. for_each-all q f xs (ground arith) kf)

module _ {P Q : Session → Type 0} {A B : Type 0} where
  -- From an invariant to a weaker one, which is all that the rest of the code keeps.
  pub weaker_behind :
      (m : M A) (f : A → M B)
      → Preserves P m
      → ((s : Session) → P s → Q s)
      → ((a : A) → Preserves Q (f a))
      → (s : Session) → P s
      → Q ((m >>= f) s).1
  unfolding ◌>>=◌
  weaker_behind m f km weaker kf s h = let (r, t) = m s in after r t (weaker t (km.at s h))
    where
      after : (r : Result A) (t : Session) → Q t → Q (◌>>=◌ (λ s'. (r, t)) f s).1
      after (ok a) t h = (kf a).at t h
      after (raised e) t h = h
      after crashed t h = h
