-- ===== src/Sod/Checks.antt =====
-- The policies that a grant would violate: `check_sod_conflicts` of backend/app/services/sod.py, with its
-- cooldown and its exceptions.
use access_piliot.Prelude.{
  ℕ, ◌+◌, ◌*◌, Bool, true, false, not, ◌&&◌, ◌||◌, Option, none, some, List, [], ◌∷◌, ◌++◌, ◌==◌,
  if◌then◌else◌, same_id, leb, ltb, select, any, is_some,
}
use access_piliot.Store.{
  Db, ResourceType, Switch, enabled, disabled, draft, archived, Side, side_a, side_b, SodSettings,
  SodPolicy, SodPolicyEntity, AuditAction, assignment_deactivated, assignment_revoked, Session, M,
  pure, gets, modify, commit, ◌>>=◌, ◌>>◌,
}
use access_piliot.Sod.Holdings.{Entitlement, holds, expand, entitlement_of, resolve_user_holdings}

abbrev pub is_removal : AuditAction → Bool
is_removal assignment_deactivated = true
is_removal assignment_revoked = true
is_removal _ = false

-- Seconds.
abbrev pub hours : ℕ → ℕ
hours n = n * 3600

-- An audit entry of a removal within the cooldown, about an assignment of the person to one of the
-- entitlements.
abbrev pub recently_removed : ℕ → List Entitlement → ℕ → Session → Bool
recently_removed user tuples cooldown s =
    any
      (λ e.
        is_removal e.action
        && leb s.now (e.timestamp + hours cooldown)
        && any
            (λ a.
              same_id e.target_id (some a.id)
              && (a.user_id == user)
              && holds (entitlement_of a) tuples)
            s.db.assignments)
      s.db.audit

abbrev pub excepted : ℕ → ℕ → Session → Bool
excepted policy user s =
    any
      (λ e.
        (e.sod_policy_id == policy)
        && (e.user_id == user)
        && not (is_some e.revoked_at)
        && ltb s.now e.expires_at)
      s.db.sod_exceptions

abbrev pub default_settings : SodSettings
default_settings = record {
  cooldown_enabled = false;
  cooldown_hours = 24;
  notify_on_new_violation = true;
  notify_on_exception_expiring = true;
  exception_expiring_warning_days = 7;
  notify_on_exception_requested = true;
}

unfoldable pub settings_or_default : Option SodSettings → M SodSettings
settings_or_default (some c) = pure c
settings_or_default none = do
  modify (λ db. record db { sod_settings = some default_settings })
  commit
  pure default_settings

unfoldable pub get_sod_notification_settings : M SodSettings
unfolding settings_or_default
get_sod_notification_settings = do found ← gets (λ s. s.db.sod_settings); settings_or_default found

abbrev pub is_enabled : Switch → Bool
is_enabled enabled = true
is_enabled disabled = false
is_enabled draft = false
is_enabled archived = false

abbrev pub entities_of : ℕ → Db → List SodPolicyEntity
entities_of policy db = select (λ e. e.sod_policy_id == policy) db.sod_entities

-- The side of the first entity that the new entitlement belongs to.
unfoldable pub side_of_new : Db → Entitlement → List SodPolicyEntity → Option Side
side_of_new db target [] = none
side_of_new db target (e ∷ es) =
    if holds target (expand db e) then some e.conflict_side else side_of_new db target es

abbrev pub same_side : Side → Side → Bool
same_side side_a side_a = true
same_side side_a side_b = false
same_side side_b side_a = false
same_side side_b side_b = true

abbrev pub opposite : Side → Side
opposite side_a = side_b
opposite side_b = side_a

unfoldable pub side_entitlements : Db → Side → List SodPolicyEntity → List Entitlement
side_entitlements db side [] = []
side_entitlements db side (e ∷ es) =
    if same_side e.conflict_side side
    then expand db e ++ side_entitlements db side es
    else side_entitlements db side es

abbrev pub non_empty {ℓ} : {A : Type ℓ} → List A → Bool
non_empty [] = false
non_empty (x ∷ xs) = true

-- Does the person hold something of these, or did they until lately?
unfoldable pub holds_or_held : SodSettings → ℕ → List Entitlement → M Bool
holds_or_held c user tuples = do
  holdings ← resolve_user_holdings user tuples
  recent ← gets (λ s. recently_removed user tuples c.cooldown_hours s)
  pure (non_empty holdings || (c.cooldown_enabled && recent))

unfoldable pub check_side :
    SodSettings → ℕ → SodPolicy → List SodPolicyEntity → Option Side → M Bool
unfolding holds_or_held
check_side c user p entities none = pure false
check_side c user p entities (some side) = do
  tuples ← gets (λ s. side_entitlements s.db (opposite side) entities)
  met ← if non_empty tuples then holds_or_held c user tuples else pure false
  cleared ← gets (excepted p.id user)
  pure (met && not cleared)

unfoldable pub check_policy : SodSettings → ℕ → Entitlement → SodPolicy → M Bool
unfolding check_side
check_policy c user target p = do
  entities ← gets (λ s. entities_of p.id s.db)
  side ← gets (λ s. side_of_new s.db target entities)
  check_side c user p entities side

unfoldable pub check_policies : SodSettings → ℕ → Entitlement → List SodPolicy → M (List SodPolicy)
check_policies c user target [] = pure []
check_policies c user target (p ∷ ps) = do
  met ← check_policy c user target p
  rest ← check_policies c user target ps
  pure (if met then p ∷ rest else rest)

unfoldable pub check_sod_conflicts : ℕ → ResourceType → ℕ → Option ℕ → M (List SodPolicy)
unfolding get_sod_notification_settings
check_sod_conflicts user kind resource app_role = do
  c ← get_sod_notification_settings
  policies ← gets (λ s. select (λ p. is_enabled p.status) s.db.sod_policies)
  check_policies c user (record { kind = kind; resource = resource; app_role = app_role }) policies
