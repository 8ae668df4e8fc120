-- ===== src/SodPolicies/Editing.antt =====
-- The editing of policies and of the settings (`create_sod_policy`, `update_sod_policy`,
-- `delete_sod_policy`, `update_sod_notification_settings` of backend/app/services/sod.py).
use access_piliot.Prelude.{
  ℕ, Bool, true, false, not, ◌&&◌, ◌||◌, Option, none, some, List, [], ◌∷◌, ◌++◌, ◌==◌, any, map,
  if◌then◌else◌, same_id, select, get_row, update_row,
}
use access_piliot.Store.{
  Db, Text, SodPolicy, SodPolicyEntity, SodSettings, Side, side_a, side_b, ResourceType, same_type,
  Switch, enabled, disabled, sod_policy_not_found, sod_policy_name_taken, sod_policy_created,
  sod_policy_updated, sod_policy_disabled, sod_policy_deleted, M, pure, gets, or_raise, raise_if,
  modify, commit, fresh_id, ◌>>=◌, ◌>>◌, record_audit,
}
use access_piliot.Sod.{same_side, get_sod_notification_settings}
use access_piliot.Workflows.Conditions.{text_eq}
use access_piliot.Packages.Items.{dedupe}

-- Behind its validator: only an application has an app role.
pub record SodPolicyEntityCreate : Type 0 where
  pub conflict_side : Side
  pub entity_type : ResourceType
  pub entity_id : ℕ
  pub app_role : Option ℕ

pub record SodPolicyCreate : Type 0 where
  pub name : Text
  pub entities : List SodPolicyEntityCreate

abbrev on_side : Side → SodPolicyEntityCreate → Bool
on_side side e = same_side e.conflict_side side

-- `_validate_both_sides_present`.
abbrev pub both_sides_present : List SodPolicyEntityCreate → Bool
both_sides_present es = any (on_side side_a) es && any (on_side side_b) es

abbrev pub same_target : SodPolicyEntityCreate → SodPolicyEntityCreate → Bool
same_target d e =
    same_type d.entity_type e.entity_type
    && (d.entity_id == e.entity_id)
    && same_id d.app_role e.app_role

abbrev faces : SodPolicyEntityCreate → SodPolicyEntityCreate → Bool
faces d e = same_target d e && not (same_side d.conflict_side e.conflict_side)

-- `_validate_no_entity_on_both_sides`.
abbrev pub no_entity_on_both_sides : List SodPolicyEntityCreate → Bool
no_entity_on_both_sides es = not (any (λ d. any (faces d) es) es)

abbrev pub same_policy_entity : SodPolicyEntityCreate → SodPolicyEntityCreate → Bool
same_policy_entity d e = same_side d.conflict_side e.conflict_side && same_target d e

unfoldable pub dedupe_entities : List SodPolicyEntityCreate → List SodPolicyEntityCreate
unfolding dedupe
dedupe_entities es = dedupe same_policy_entity [] es

abbrev pub sod_policy_by : ℕ → Db → Option SodPolicy
sod_policy_by key db = get_row (λ p. p.id) key db.sod_policies

unfoldable pub get_sod_policy : ℕ → M SodPolicy
get_sod_policy key = do
  found ← gets (λ s. sod_policy_by key s.db)
  or_raise found sod_policy_not_found

abbrev pub policy_entity : ℕ → SodPolicyEntityCreate → SodPolicyEntity
policy_entity key e = record {
  sod_policy_id = key;
  conflict_side = e.conflict_side;
  entity_type = e.entity_type;
  entity_id = e.entity_id;
  app_role = e.app_role;
}

unfoldable pub add_entities : ℕ → List SodPolicyEntityCreate → M (Unit {0})
unfolding dedupe_entities
add_entities key es = modify λ db. record db {
  sod_entities = db.sod_entities ++ map (policy_entity key) (dedupe_entities es);
}

unfoldable pub remove_entities : ℕ → M (Unit {0})
remove_entities key =
    modify
      λ db. record db { sod_entities = select (λ e. not (e.sod_policy_id == key)) db.sod_entities }

abbrev is_named : Text → Db → Bool
is_named name db = any (λ p. text_eq p.name name) db.sod_policies

unfoldable pub create_sod_policy : SodPolicyCreate → (actor : Option ℕ) → M ℕ
unfolding text_eq add_entities
create_sod_policy data' actor = do
  taken ← gets (λ s. is_named data'.name s.db)
  raise_if taken sod_policy_name_taken
  key ← fresh_id
  let row : SodPolicy = record { id = key; name = data'.name; status = enabled }
  modify (λ db. record db { sod_policies = db.sod_policies ++ row ∷ [] })
  add_entities key data'.entities
  record_audit sod_policy_created (some key) none actor true
  commit
  pure key

unfoldable pub update_policy : ℕ → (SodPolicy → SodPolicy) → M (Unit {0})
update_policy key f =
    modify (λ db. record db { sod_policies = update_row (λ p. p.id) key f db.sod_policies })

abbrev is_named_otherwise : ℕ → Text → Db → Bool
is_named_otherwise key name db = any (λ p. text_eq p.name name && not (p.id == key)) db.sod_policies

unfoldable pub update_sod_policy :
    ℕ → SodPolicyCreate → (status : Switch) → (actor : Option ℕ) → M (Unit {0})
unfolding text_eq get_sod_policy update_policy add_entities remove_entities
update_sod_policy key data' status actor = do
  get_sod_policy key
  duplicate ← gets (λ s. is_named_otherwise key data'.name s.db)
  raise_if duplicate sod_policy_name_taken
  update_policy key (λ p. record p { name = data'.name; status = status })
  remove_entities key
  add_entities key data'.entities
  record_audit sod_policy_updated (some key) none actor true
  commit

-- Exceptions, notifications and requests are never deleted, and name their policy.
abbrev pub has_history : ℕ → Db → Bool
has_history key db =
    any (λ e. e.sod_policy_id == key) db.sod_exceptions
    || any (λ n. n.sod_policy_id == key) db.sod_notifications
    || any (λ r. r.sod_policy_id == key) db.sod_exception_requests

-- Is the policy still there? One with a history is only switched off.
unfoldable pub delete_sod_policy : ℕ → (actor : Option ℕ) → M Bool
unfolding get_sod_policy update_policy remove_entities
delete_sod_policy key actor = do
  get_sod_policy key
  used ← gets (λ s. has_history key s.db)
  if used
      then (do
        update_policy key (λ p. record p { status = disabled })
        record_audit sod_policy_disabled (some key) none actor true
        commit
        pure true)
      else (do
        remove_entities key
        modify λ db. record db { sod_policies = select (λ p. not (p.id == key)) db.sod_policies }
        record_audit sod_policy_deleted (some key) none actor true
        commit
        pure false)

unfoldable pub update_sod_notification_settings : SodSettings → M (Unit {0})
unfolding get_sod_notification_settings
update_sod_notification_settings data' = do
  get_sod_notification_settings
  modify (λ db. record db { sod_settings = some data' })
  commit
