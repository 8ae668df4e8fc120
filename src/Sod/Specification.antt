-- ===== src/Sod/Specification.antt =====
-- What the preventive check promises, by the tables alone: an independent account of
-- `check_sod_conflicts` of backend/app/services/sod.py, with no order and no removal of doubles.
use mathlib.Core.Option
use access_piliot.Prelude.{
  ℕ, ◌+◌, ◌*◌, Bool, true, false, not, ◌&&◌, ◌||◌, Option, none, some, List, [], ◌∷◌, ◌++◌, ◌==◌,
  any, all, contains, is_some, first, select, same_id, leb, ltb,
}
use access_piliot.Store.{
  Db, User, Provider, Session, Side, side_a, side_b, SodPolicy, SodPolicyEntity, SodSettings,
  Assignment, Status, active, eligible, same_type, AuditAction, assignment_deactivated,
  assignment_revoked, Switch, enabled, group, role,
}
use access_piliot.Target.{user_by, find_target}
use access_piliot.Accounts.{provider_by}
use access_piliot.Sod.Holdings.{
  Entitlement, holds, expand, entitlement_of, is_live, names, or_empty, is_entra, app_entitlements,
}

abbrev pub is_assigned : ℕ → List Entitlement → Db → Bool
is_assigned user tuples db =
    any (λ a. (a.user_id == user) && is_live a.status && holds (entitlement_of a) tuples)
      db.assignments

abbrev pub is_joined : ℕ → List Entitlement → Db → Bool
is_joined user tuples db =
    any (λ m. (m.user_id == user) && names group m.group_id tuples) db.user_groups

abbrev pub has_live_role : User → List Entitlement → Session → Bool
has_live_role u tuples s =
    any
      (λ r.
        names role r.id tuples
        && contains r.external_id (or_empty (s.world.directory_role_ids s.calls u.external_id)))
      s.db.roles

abbrev pub has_live_app : User → List Entitlement → Session → Bool
has_live_app u tuples s =
    any (λ e. holds e tuples)
      (app_entitlements s.db.applications
        (or_empty (s.world.app_role_assignments s.calls u.external_id)))

abbrev pub in_directory : User → List Entitlement → Session → Option Provider → Bool
in_directory u tuples s none = false
in_directory u tuples s (some p) =
    is_entra p.type && (has_live_role u tuples s || has_live_app u tuples s)

abbrev pub has_live : List Entitlement → Session → Option User → Bool
has_live tuples s none = false
has_live tuples s (some u) = in_directory u tuples s (provider_by u.provider_id s.db)

-- What the tests of the code say of it (`has_any` says it of the tables).
abbrev pub is_held : ℕ → List Entitlement → Session → Bool
is_held user tuples s =
    is_assigned user tuples s.db
    || is_joined user tuples s.db
    || has_live tuples s (user_by user s.db)

abbrev pub is_in_force : Status → Bool
is_in_force active = true
is_in_force eligible = true
is_in_force _ = false

-- Is this the entitlement that the assignment is about?
abbrev pub is_to : Assignment → Entitlement → Bool
is_to a t =
    same_type a.resource_type t.kind
    && (a.resource_id == t.resource)
    && same_id a.app_role t.app_role

abbrev pub is_granted : ℕ → List Entitlement → Db → Bool
is_granted user tuples db =
    any (λ a. is_in_force a.status && (a.user_id == user) && any (is_to a) tuples) db.assignments

-- Has the person one of the entitlements, from whatever source?
abbrev pub has_any : ℕ → List Entitlement → Session → Bool
has_any user tuples s =
    is_granted user tuples s.db
    || is_joined user tuples s.db
    || has_live tuples s (user_by user s.db)

-- The side of the first entity of the policy that stands for the target.
abbrev pub first_side : Db → Entitlement → ℕ → Option Side
first_side db target policy =
    Option.map (λ (e : SodPolicyEntity). e.conflict_side)
      (first (λ e. (e.sod_policy_id == policy) && holds target (expand db e)) db.sod_entities)

abbrev pub are_opposed : Side → Side → Bool
are_opposed side_a side_a = false
are_opposed side_a side_b = true
are_opposed side_b side_a = true
are_opposed side_b side_b = false

abbrev pub expand_all : Db → List SodPolicyEntity → List Entitlement
expand_all db [] = []
expand_all db (e ∷ es) = expand db e ++ expand_all db es

-- All that the entities of the policy's other side stand for.
abbrev pub other_side : Db → ℕ → Side → List Entitlement
other_side db policy side =
    expand_all db (
      select (λ e. (e.sod_policy_id == policy) && are_opposed side e.conflict_side) db.sod_entities)

abbrev pub ends_access : AuditAction → Bool
ends_access assignment_deactivated = true
ends_access assignment_revoked = true
ends_access _ = false

-- Has the audit log an end of this assignment within so many hours?
abbrev pub was_ended : ℕ → ℕ → Session → Bool
was_ended key cooldown s =
    any
      (λ e.
        ends_access e.action
        && same_id e.target_id (some key)
        && not (ltb (e.timestamp + 3600 * cooldown) s.now))
      s.db.audit

-- Is there an assignment of the person to one of these that was ended lately?
abbrev pub was_removed : ℕ → List Entitlement → ℕ → Session → Bool
was_removed user tuples cooldown s =
    any (λ a. (a.user_id == user) && any (is_to a) tuples && was_ended a.id cooldown s)
      s.db.assignments

-- Has the person an exception from the policy that is neither revoked nor over?
abbrev pub is_tolerated : ℕ → ℕ → Session → Bool
is_tolerated policy user s =
    any
      (λ e.
        not (is_some e.revoked_at)
        && not (leb e.expires_at s.now)
        && (e.user_id == user)
        && (e.sod_policy_id == policy))
      s.db.sod_exceptions

abbrev pub meets : SodSettings → ℕ → SodPolicy → Session → Option Side → Bool
meets c user p s none = false
meets c user p s (some side) =
    (has_any user (other_side s.db p.id side) s
      || (c.cooldown_enabled && was_removed user (other_side s.db p.id side) c.cooldown_hours s))
    && not (is_tolerated p.id user s)

abbrev pub is_switched_on : Switch → Bool
is_switched_on enabled = true
is_switched_on _ = false

-- Is this a policy that the grant of the target to the person would violate?
abbrev pub in_conflict : SodSettings → ℕ → Entitlement → Session → SodPolicy → Bool
in_conflict c user target s p =
    is_switched_on p.status && meets c user p s (first_side s.db target p.id)

-- The targets of the assignments and of the memberships are there.
abbrev pub targets_exist : Db → Bool
targets_exist db =
    all (λ a. is_some (find_target a.resource_type a.resource_id db)) db.assignments
    && all (λ m. is_some (find_target group m.group_id db)) db.user_groups
