-- ===== src/Birthright/Untouched.antt =====
-- What the reconciliation of birthright policies leaves alone
-- (backend/app/services/birthright.py, `revoke_assignment` of backend/app/services/assignments.py).
use mathlib.Core.Path.{subst}
use mathlib.Core.Option.{some_inj}
use access_piliot.Prelude.{
  ℕ, ◌≡◌, refl, sym, Bool, true, false, not, ◌&&◌, ◌||◌, Option, none, some, List, [], ◌∷◌, ◌==◌,
  all, select, select-all, is_some, if◌then◌else◌, arith,
}
use access_piliot.Store.{
  Session, Assignment, Preserves, Preserves-bind, Preserves-if, Preserves-gets, Preserves-pure,
  Preserves-try_else, M, pure, gets, or_raise, user_not_found, User, ◌>>=◌,
}
use access_piliot.Target.{user_by, assignment_by}
use access_piliot.Birthright.Reconcile.{
  is_birthright, is_covered, withdraw, withdraw_all, Outcome,
  reconcile_birthright_policies_for_user, matching_policy_ids,
}
use access_piliot.Birthright.Evaluate.{evaluate_birthright_policies}
use access_piliot.Birthright.Additions
use access_piliot.Workflows.Outcomes.{Handlers}
use access_piliot.Lifecycle.Retained.{InRows, Held, Kept, weaker_behind, distinct-Held}
use access_piliot.Lifecycle.Keys.{are_distinct}
use access_piliot.Lifecycle.Cascades.{revoke_assignment-Held}

-- The row is neither delivered by a mapping, nor live birthright access of this user whose policy is
-- none of the matching ones.
abbrev pub is_protected : ℕ → List ℕ → Assignment → Bool
is_protected user matching r =
    not (is_some r.group_role_mapping_id)
    && not (is_birthright user r && not (is_covered matching r.birthright_policy_id))

unlinked_lem :
    (user : ℕ) (matching : List ℕ) (r : Assignment)
    → is_some r.group_role_mapping_id ≡ true
    → is_protected user matching r ≡ false
unlinked_lem user matching r h = rw h refl

unless :
    {P : Session → Type 0} {A : Type 0} (b : Bool) (x : A) (m : M A)
    → (b ≡ false → Preserves P m)
    → Preserves P (if b then pure x else m)
unless true x m k = Preserves-pure x
unless false x m k = k refl

module _ (user key : ℕ) (matching : List ℕ) (a : Assignment) (fuel subject : ℕ) where
  abbrev is_spared : Assignment → Bool
  is_spared r = is_covered matching r.birthright_policy_id || not (r.id == key)

  withdraw-Held :
      (r : Assignment)
      → is_spared r ≡ true
      → Preserves
          (InRows (Held (is_protected user matching) key a))
          (withdraw fuel subject matching r)
  unfolding withdraw
  withdraw-Held r spared = unless (is_covered matching r.birthright_policy_id) false _ λ uncovered.
      Preserves-bind _ _ (Preserves-gets _) λ owner. Preserves-if _ _ _ (Preserves-pure false) (
        Preserves-try_else _ _ _
          (revoke_assignment-Held (is_protected user matching) key a (unlinked_lem user matching)
            fuel r.id subject (ground (arith, spared, uncovered)))
          (λ b. Preserves-pure true) (λ e. Preserves-pure false))

  withdraw_all-Held :
      (done : List ℕ) (rows : List Assignment)
      → all is_spared rows ≡ true
      → Preserves
          (InRows (Held (is_protected user matching) key a))
          (withdraw_all fuel subject matching done rows)
  unfolding withdraw_all
  withdraw_all-Held done [] h = Preserves-pure done
  withdraw_all-Held done (r ∷ rs) h =
      Preserves-bind _ _ (withdraw-Held r (ground (arith, h)))
        λ gone. withdraw_all-Held _ rs (ground (arith, h))

  spared-rows :
      (s : Session)
      → InRows (Held (is_protected user matching) key a) s
      → all is_spared (select (is_birthright user) s.db.assignments) ≡ true
  spared-rows s h =
      select-all (is_birthright user) (λ r. not (r.id == key) || is_protected user matching r)
        is_spared s.db.assignments (λ r live held. ground (arith, live, held)) h.0.1

module _ (handlers : Handlers) (fuel user subject key : ℕ) (a : Assignment) where
  evaluate-Kept :
      Preserves (InRows (Kept key a)) (evaluate_birthright_policies handlers user subject false)
  evaluate-Kept = Additions.evaluate-Kept key a handlers user subject

  -- The reconciliation behind the lookup of the person.
  abbrev reconcile_found : Option User → M Outcome
  reconcile_found o = do
    found ← or_raise o user_not_found
    matching ← gets (λ s. matching_policy_ids found s.db)
    rows ← gets (λ s. select (is_birthright user) s.db.assignments)
    gone ← withdraw_all fuel subject matching [] rows
    if found.is_disabled then pure (record { revoked_ids = gone; granted_ids = [] }) else (do
      granted ← evaluate_birthright_policies handlers user subject false
      pure (record { revoked_ids = gone; granted_ids = granted }))

  reconcile-Kept :
      (person : User) (s : Session)
      → (o : Option User) → o ≡ some person
      → InRows (Held (is_protected user (matching_policy_ids person s.db)) key a) s
      → InRows (Kept key a) (reconcile_found o s).1
  unfolding ◌>>=◌ gets or_raise
  reconcile-Kept person s none e h = ground (arith, e)
  reconcile-Kept person s (some found) e h =
      let matching = matching_policy_ids found s.db in
      let held =
        subst (λ p. InRows (Held (is_protected user (matching_policy_ids p s.db)) key a) s)
          (sym (some_inj.0 e)) h in
      weaker_behind _ _
        (withdraw_all-Held user key matching a fuel subject [] _
          (spared-rows user key matching a fuel subject s held))
        (λ t k. (k.0.0, k.1.0))
        (λ gone.
          Preserves-if _ _ _ (Preserves-pure _)
            (Preserves-bind _ _ evaluate-Kept (λ granted. Preserves-pure _)))
        s held

  -- Let no two assignments share a key, and nothing be uncommitted. A reconciliation leaves an
  -- assignment as it is, in the session and in what is committed, whatever it returns or raises, if
  -- no group mapping delivered it, and it is not live birthright access of this person whose policy
  -- is none of the active ones that match them.
  pub reconcile_birthright_policies-untouched :
      (person : User) (s : Session)
      → user_by user s.db ≡ some person
      → assignment_by key s.db ≡ some a
      → are_distinct s.db.assignments ≡ true
      → s.saved.assignments ≡ s.db.assignments
      → is_protected user (matching_policy_ids person s.db) a ≡ true
      → let t = (reconcile_birthright_policies_for_user handlers fuel user subject s).1 in
        (assignment_by key t.db ≡ some a) × (assignment_by key t.saved ≡ some a)
  unfolding reconcile_birthright_policies_for_user ◌>>=◌ gets
  reconcile_birthright_policies-untouched person s known found distinct same protected =
      let held =
        distinct-Held (is_protected user (matching_policy_ids person s.db)) key a s.db.assignments
          distinct found protected in
      reconcile-Kept person s (user_by user s.db) known (
        held,
        subst (Held (is_protected user (matching_policy_ids person s.db)) key a) (sym same) held,
      )
