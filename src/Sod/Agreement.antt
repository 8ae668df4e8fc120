-- ===== src/Sod/Agreement.antt =====
-- The tests of the preventive check (backend/app/services/sod.py) say the same as their specification,
-- which asks the tables in another order.
use mathlib.Core.Option
use access_piliot.Prelude.{
  ℕ, ◌+◌, ◌*◌, ◌≡◌, refl, sym, ap, ◌∙◌, Bool, true, false, not, ◌&&◌, ◌||◌, Option, none, some,
  List, [], ◌∷◌, ◌==◌, any, first, select, same_id, leb, ltb, arith,
}
use access_piliot.Store.{
  Status, Db, Session, Side, side_a, side_b, SodPolicy, SodPolicyEntity, SodSettings, AuditAction,
  assignment_deactivated, assignment_revoked, Switch, Assignment, AuditLog,
}
use access_piliot.Target.{user_by}
use access_piliot.Sod.Holdings.{is_live, Entitlement, holds, expand, entitlement_of}
use access_piliot.Sod.Checks.{
  is_removal, hours, opposite, same_side, entities_of, side_of_new, side_entitlements,
  recently_removed, excepted, is_enabled,
}
use access_piliot.Sod.Refinement.{any-false}
use access_piliot.Sod.Specification.{
  is_in_force, is_to, has_any, is_joined, has_live, is_held, first_side, are_opposed, expand_all,
  other_side, ends_access, was_removed, is_tolerated, meets, is_switched_on, in_conflict,
}

-- The code's tests, put together.
abbrev pub is_opposed : SodSettings → ℕ → List Entitlement → Session → Bool
is_opposed c user tuples s =
    is_held user tuples s || (c.cooldown_enabled && recently_removed user tuples c.cooldown_hours s)

abbrev pub conflicts_on : SodSettings → ℕ → SodPolicy → Session → Option Side → Bool
conflicts_on c user p s none = false
conflicts_on c user p s (some side) =
    is_opposed c user (side_entitlements s.db (opposite side) (entities_of p.id s.db)) s
    && not (excepted p.id user s)

module _ {A : Type 0} where
  any-same : (p q : A → Bool) (xs : List A) → ((x : A) → p x ≡ q x) → any p xs ≡ any q xs
  any-same p q [] h = refl
  any-same p q (x ∷ xs) h = ground (arith, h x, any-same p q xs h)

  any-&& : (b : Bool) (p : A → Bool) (xs : List A) → any (λ x. b && p x) xs ≡ (b && any p xs)
  any-&& true p [] = refl
  any-&& false p [] = refl
  any-&& b p (x ∷ xs) = ground (arith, any-&& b p xs)

  any-|| : (p q : A → Bool) (xs : List A) → any (λ x. p x || q x) xs ≡ (any p xs || any q xs)
  any-|| p q [] = refl
  any-|| p q (x ∷ xs) = ground (arith, any-|| p q xs)

-- Two tables may be searched in either order.
any-swap :
    {A B : Type 0} (r : A → B → Bool) (xs : List A) (ys : List B)
    → any (λ x. any (r x) ys) xs ≡ any (λ y. any (λ x. r x y) xs) ys
any-swap r [] ys = sym (any-false _ ys (λ y. refl))
any-swap r (x ∷ xs) ys =
    ap (λ b. any (r x) ys || b) (any-swap r xs ys)
    ∙ sym (any-|| (r x) (λ y. any (λ x. r x y) xs) ys)

&&-assoc : (a b c : Bool) → (a && (b && c)) ≡ ((a && b) && c)
&&-assoc a b c = ground arith

removal-agrees : (action : AuditAction) → is_removal action ≡ ends_access action
removal-agrees assignment_deactivated = refl
removal-agrees assignment_revoked = refl
removal-agrees _ = refl

to-agrees :
    (a : Assignment) (ts : List Entitlement) → holds (entitlement_of a) ts ≡ any (is_to a) ts
to-agrees a ts = any-same _ _ ts (λ t. ground arith)

force-agrees : (status : Status) → is_live status ≡ is_in_force status
force-agrees status = ground arith

held-agrees :
    (user : ℕ) (ts : List Entitlement) (s : Session) → is_held user ts s ≡ has_any user ts s
held-agrees user ts s =
    ap (λ b. b || is_joined user ts s.db || has_live ts s (user_by user s.db))
      (any-same _ _ s.db.assignments (λ a. ground (arith, to-agrees a ts, force-agrees a.status)))

module _ (user cooldown : ℕ) (tuples : List Entitlement) (s : Session) where
  abbrev late : AuditLog → Bool
  late e = is_removal e.action && leb s.now (e.timestamp + hours cooldown)

  abbrev theirs : Assignment → Bool
  theirs a = (a.user_id == user) && holds (entitlement_of a) tuples

  abbrev about : AuditLog → Assignment → Bool
  about e a = late e && (same_id e.target_id (some a.id) && theirs a)

  abbrev of_them : Assignment → Bool
  of_them a = (a.user_id == user) && any (is_to a) tuples

  abbrev ended_by : Assignment → AuditLog → Bool
  ended_by a e =
      ends_access e.action
      && same_id e.target_id (some a.id)
      && not (ltb (e.timestamp + 3600 * cooldown) s.now)

  entry-agrees : (a : Assignment) (e : AuditLog) → about e a ≡ (of_them a && ended_by a e)
  entry-agrees a e = ground (arith, removal-agrees e.action, to-agrees a tuples)

  removed-agrees : recently_removed user tuples cooldown s ≡ was_removed user tuples cooldown s
  removed-agrees =
      any-same _ (λ e. any (about e) s.db.assignments) s.db.audit
        (λ e.
          ap (λ b. late e && b)
            (any-same _ _ s.db.assignments (λ a. sym (
              &&-assoc (same_id e.target_id (some a.id)) (a.user_id == user)
                (holds (entitlement_of a) tuples))))
          ∙ sym (any-&& (late e) _ s.db.assignments))
      ∙ any-swap about s.db.audit s.db.assignments
      ∙ any-same _ _ s.db.assignments (λ a.
        any-same _ _ s.db.audit (entry-agrees a) ∙ any-&& (of_them a) (ended_by a) s.db.audit)

excepted-agrees :
    (policy user : ℕ) (s : Session) → excepted policy user s ≡ is_tolerated policy user s
excepted-agrees policy user s = any-same _ _ s.db.sod_exceptions (λ e. ground arith)

side_of_new-agrees :
    (db : Db) (target : Entitlement) (policy : ℕ) (es : List SodPolicyEntity)
    → side_of_new db target (select (λ e. e.sod_policy_id == policy) es)
      ≡ Option.map
          (λ (e : SodPolicyEntity). e.conflict_side)
          (first (λ e. (e.sod_policy_id == policy) && holds target (expand db e)) es)
unfolding side_of_new
side_of_new-agrees db target policy [] = refl
side_of_new-agrees db target policy (e ∷ es) =
    ground (arith, side_of_new-agrees db target policy es)

sides-agree : (side other : Side) → same_side other (opposite side) ≡ are_opposed side other
sides-agree side_a side_a = refl
sides-agree side_a side_b = refl
sides-agree side_b side_a = refl
sides-agree side_b side_b = refl

other_side-agrees :
    (db : Db) (policy : ℕ) (side : Side) (es : List SodPolicyEntity)
    → side_entitlements db (opposite side) (select (λ e. e.sod_policy_id == policy) es)
      ≡ expand_all db
          (select (λ e. (e.sod_policy_id == policy) && are_opposed side e.conflict_side) es)
unfolding side_entitlements
other_side-agrees db policy side [] = refl
other_side-agrees db policy side (e ∷ es) =
    ground (arith, sides-agree side e.conflict_side, other_side-agrees db policy side es)

switched-agrees : (status : Switch) → is_enabled status ≡ is_switched_on status
switched-agrees status = ground arith

meets-agrees :
    (c : SodSettings) (user : ℕ) (p : SodPolicy) (s : Session) (side : Option Side)
    → conflicts_on c user p s side ≡ meets c user p s side
meets-agrees c user p s none = refl
meets-agrees c user p s (some side) =
    rw
      (
        other_side-agrees s.db p.id side s.db.sod_entities,
        excepted-agrees p.id user s,
        held-agrees user (other_side s.db p.id side) s,
        removed-agrees user c.cooldown_hours (other_side s.db p.id side) s,
      )
      refl

pub in_conflict-agrees :
    (c : SodSettings) (user : ℕ) (target : Entitlement) (s : Session) (p : SodPolicy)
    → (is_enabled p.status
        && conflicts_on c user p s (side_of_new s.db target (entities_of p.id s.db)))
      ≡ in_conflict c user target s p
in_conflict-agrees c user target s p =
    rw
      (
        switched-agrees p.status,
        side_of_new-agrees s.db target p.id s.db.sod_entities,
        meets-agrees c user p s (first_side s.db target p.id),
      )
      refl
