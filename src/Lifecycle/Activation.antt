-- ===== src/Lifecycle/Activation.antt =====
-- What `activate_assignment` does to the rows of `access_assignments`: another standing grant of the same
-- target is superseded, and the row becomes active (backend/app/services/assignments.py).
use access_piliot.Prelude.{
  ℕ, ◌≡◌, refl, sym, ◌∙◌, Bool, true, false, not, ◌&&◌, Option, none, some, List, ◌==◌, arith,
  first, get_row-update_row, id-get_row,
}
use mathlib.Core.Path.{subst}
use access_piliot.Store.{
  Session, Assignment, ActorRole, ResourceType, User, Status, active, revoked, M, Preserves, From,
  From-bind, From-raise_if, From-write, ◌>>=◌, gets, pure, modify,
}
use access_piliot.Target.{update_assignment}
use access_piliot.Grants.{
  is_standing, excluded, same_target, revoke_if_active, supersede, supersede_existing_assignment,
}
use access_piliot.Assignments.Mappings.{is_eligible}
use access_piliot.Assignments.Activate.{
  activate_one, check_window, activation_gate, grant_or_record, make_active,
}
use access_piliot.Lifecycle.Order.{may_become, Succeeds}
use access_piliot.Lifecycle.Keys.{first-get_row, first-holds}
use access_piliot.Lifecycle.Quiet.{Same, quiet_rules, grant_provider_access-quiet}
use access_piliot.Lifecycle.Effects.{
  revoke_provider_access-quiet, check_sod_conflicts-quiet, record_membership-quiet,
}
use access_piliot.Lifecycle.Steps.{
  Safe, Found, Safe-quiet, Found-quiet, From-quiet, From-get_assignment, From-update_assignment,
}
use access_piliot.Lifecycle.Decisions.{Succeeds-new, authorize_activation-quiet}

module _ (x y : List Assignment) where
  check_window-quiet :
      (a : Assignment) (duration : ℕ) → Preserves (Same x y) (check_window a duration)
  unfolding check_window
  check_window-quiet a duration = search quiet_rules depth 12

  activation_gate-quiet :
      (a : Assignment) (actor : Option ℕ) (overrides : Bool)
      → Preserves (Same x y) (activation_gate a actor overrides)
  unfolding activation_gate
  activation_gate-quiet a actor overrides = search (quiet_rules, check_sod_conflicts-quiet) depth 12

  grant_or_record-quiet :
      (a : Assignment) (target : ℕ) (user : User) (actor : Option ℕ) (subject : ℕ)
      → Preserves (Same x y) (grant_or_record a target user actor subject)
  unfolding grant_or_record
  grant_or_record-quiet a target user actor subject =
      search (quiet_rules, grant_provider_access-quiet) depth 12

  revoke_if_active-quiet : (a : Assignment) → Preserves (Same x y) (revoke_if_active a)
  unfolding revoke_if_active
  revoke_if_active-quiet a = search (quiet_rules, revoke_provider_access-quiet) depth 12

standing-may : (from : Status) → is_standing from ≡ true → may_become from revoked ≡ true
standing-may from h = ground arith

eligible-may : (from : Status) → not (is_eligible from) ≡ false → may_become from active ≡ true
eligible-may from h = ground arith

-- What is known while another row is superseded: the row that is about to become active.
module _ (before : List Assignment) (key : ℕ) (a : Assignment) where
  abbrev Kept : Session → Type 0
  Kept s = Found key a s × Safe before s

  update_other :
      (b : Assignment) (f : Assignment → Assignment)
      → ((r : Assignment) → (f r).id ≡ r.id)
      → Succeeds b (f b)
      → (b.id == key) ≡ false
      → From (Found b.id b) Kept (update_assignment b.id f)
  unfolding update_assignment modify
  update_other b f keeps step other = record {
    at = λ s there (found, h). (
      get_row-update_row (λ r. r.id) b.id key f s.db.assignments keeps ∙ rw other found,
      (From-update_assignment before b.id b f keeps step).at s there h,
    );
  }

module _ (before : List Assignment) (a : Assignment) where
  both-quiet :
      {A : Type 0} (b : Assignment) (m : M A)
      → ((x y : List Assignment) → Preserves (Same x y) m)
      → Preserves (λ s. Found b.id b s × Kept before a.id a s) m
  both-quiet b m quiet = record {
    at = λ s (there, h). (
      ((Found-quiet before m b.id b quiet).at s (there, h.1)).0,
      (Found-quiet before m a.id a quiet).at s h,
    );
  }

  supersede-Kept :
      (provider : ℕ) (actor : Option ℕ) (b : Assignment)
      → is_standing b.status ≡ true
      → (b.id == a.id) ≡ false
      → From (Found b.id b) (Kept before a.id a) (supersede provider actor (some b))
  unfolding supersede
  supersede-Kept provider actor b standing other =
      From-bind _ _ (both-quiet b _ (λ x y. revoke_if_active-quiet x y b)) λ done.
        From-bind _ _ (both-quiet b _ (λ x y. search quiet_rules)) λ now.
          From-write _ _
            (update_other before a.id a b _ (λ r. refl)
              (Succeeds-new b _ refl refl refl refl refl (standing-may b.status standing)) other)
            (Found-quiet before _ a.id a (λ x y. search quiet_rules))

  supersede-first-Kept :
      (p : Assignment → Bool) (provider : ℕ) (actor : Option ℕ)
      → ((b : Assignment) → p b ≡ true → (is_standing b.status ≡ true) × ((b.id == a.id) ≡ false))
      → Preserves
          (Kept before a.id a)
          (gets (λ s. first p s.db.assignments) >>= supersede provider actor)
  unfolding ◌>>=◌ gets
  supersede-first-Kept p provider actor tells = record {
    at = λ s h. split s h (first p s.db.assignments) refl;
  }
    where
      split :
          (s : Session)
          → Kept before a.id a s
          → (o : Option Assignment) → first p s.db.assignments ≡ o
          → Kept before a.id a (supersede provider actor o s).1
      split s h none e = nothing_to_do s h
        where
          nothing_to_do :
              (s : Session)
              → Kept before a.id a s
              → Kept before a.id a (supersede provider actor none s).1
          nothing_to_do s h = unfold supersede pure in h
      split s h (some b) e =
          let (standing, other) = tells b (first-holds p s.db.assignments b e) in
          (supersede-Kept provider actor b standing other).at s
            (first-get_row p s.db.assignments b h.1.0.1 e) h

  supersede_existing-Kept :
      (user : ℕ) (kind : ResourceType) (resource : ℕ) (role : Option ℕ) (provider : ℕ)
      (actor : Option ℕ)
      → Preserves
          (Kept before a.id a)
          (supersede_existing_assignment user kind resource role provider actor a.id)
  unfolding supersede_existing_assignment
  supersede_existing-Kept user kind resource role provider actor =
      supersede-first-Kept _ provider actor (λ b h. tells b h)
    where
      tells :
          (b : Assignment)
          → (same_target user kind resource role b && is_standing b.status && excluded a.id b)
            ≡ true
          → (is_standing b.status ≡ true) × ((b.id == a.id) ≡ false)
      tells b h = ground arith

module _ (before : List Assignment) where
  make_active-Safe :
      (a : Assignment) (duration : ℕ)
      → may_become a.status active ≡ true
      → From (Found a.id a) (Safe before) (make_active a duration)
  unfolding make_active
  make_active-Safe a duration may =
      From-quiet before a.id a _ _ (λ x y. search quiet_rules)
        λ now.
          From-update_assignment before a.id a _ (λ r. refl)
            (Succeeds-new a _ refl refl refl refl refl may)

  own_key :
      {A : Type 0} (key : ℕ) (a : Assignment) (m : M A)
      → From (Found a.id a) (Safe before) m
      → From (Found key a) (Safe before) m
  own_key key a m from = record {
    at = λ s found h.
        from.at s
          (subst (λ k. Found k a s) (sym (id-get_row (λ r. r.id) key s.db.assignments a found))
            found)
          h;
  }

  pub activate_one-Safe :
      (key subject : ℕ) (roles : List ActorRole) (duration : ℕ) (override_sod : Bool)
      → Preserves (Safe before) (activate_one key subject roles duration override_sod)
  unfolding activate_one
  activate_one-Safe key subject roles duration override_sod = From-get_assignment before key _ λ a.
      own_key key a _ (
        From-raise_if _ _ _ λ was.
          From-quiet before a.id a _ _ (λ x y. authorize_activation-quiet x y a subject roles)
            λ actor.
              From-quiet before a.id a _ _ (λ x y. check_window-quiet x y a duration)
                λ fits.
                  From-quiet before a.id a _ _ (λ x y. activation_gate-quiet x y a actor _)
                    λ free.
                      From-bind _ _ (supersede_existing-Kept before a _ _ _ _ _ actor) λ alone.
                        From-quiet before a.id a _ _ (λ x y. search quiet_rules)
                          λ target.
                            From-quiet before a.id a _ _ (λ x y. search quiet_rules)
                              λ found.
                                From-quiet before a.id a _ _ (λ x y. search quiet_rules)
                                  λ user.
                                    From-quiet before a.id a _ _
                                      (λ x y.
                                        grant_or_record-quiet x y a target.external_id user actor
                                          subject)
                                      λ granted.
                                        From-quiet before a.id a _ _
                                          (λ x y. search (quiet_rules, record_membership-quiet))
                                          λ recorded.
                                            From-write _ _
                                              (make_active-Safe a duration
                                                (eligible-may a.status was))
                                              (Safe-quiet before _
                                                (λ x y. search quiet_rules depth 12)))
