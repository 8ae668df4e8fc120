-- ===== src/Grants.antt =====
-- Real access: the calls of a directory's connector that grant and remove it, and the local record of
-- group memberships (backend/app/services/assignments.py). The connectors are the parameter `World`.
pub mod Memberships
use access_piliot.Prelude.{
  ℕ, Bool, true, false, not, ◌&&◌, ◌||◌, Option, none, some, List, ◌∷◌, ◌==◌, if◌then◌else◌,
  same_id, first, select, any, is_some, get_row,
}
use access_piliot.Store.{
  Db, User, Account, Provider, Resource, UserGroup, Assignment, ResourceType, group, application,
  same_type, Status, active, scheduled, eligible, rejected, revoked, expired, pending_approval,
  Call, activate_call, revoke_call, ProviderRequest, Reply, confirmed, declined, failed,
  provider_not_found, provider_unavailable, provider_error, assignment_revoked, Session, M, pure,
  raise, crash, gets, or_raise, modify, commit, call, try_else, ◌>>=◌, ◌>>◌, record_audit,
}
use access_piliot.Target.{resolve_target, user_by, update_assignment}
use access_piliot.Accounts.{provider_by, ensure_account_in_provider}

-- `account.external_id` of the account in the provider; there is none to read where it is `None`.
unfoldable pub external_of : Option Account → M ℕ
external_of none = crash
external_of (some a) = pure a.external_id

unfoldable pub granted : Reply → M (Unit {0})
granted confirmed = pure tt
granted declined = raise provider_unavailable
granted (failed code) = raise (provider_error code)

unfoldable pub grant_provider_access :
    ℕ → ResourceType → ℕ → User → Option ℕ → (subject : ℕ) → M (Unit {0})
unfolding external_of granted
grant_provider_access provider_id kind target user app_role subject = do
  found ← gets (λ s. provider_by provider_id s.db)
  or_raise found provider_not_found
  account ← ensure_account_in_provider user provider_id subject
  external ← external_of account
  let request : ProviderRequest = record {
    resource_type = kind;
    target_external_id = target;
    user_external_id = external;
    app_role = app_role;
  }
  reply ← call (activate_call provider_id request)
  granted reply

abbrev pub is_membership : ℕ → ℕ → UserGroup → Bool
is_membership user target m = (m.user_id == user) && (m.group_id == target)

unfoldable pub record_local_group_membership : ℕ → ℕ → M (Unit {0})
record_local_group_membership user target = modify λ db.
    if any (is_membership user target) db.user_groups
    then db
    else record db { user_groups = record { user_id = user; group_id = target } ∷ db.user_groups }

-- (user, group) is unique in the table, so the row found is the only one.
unfoldable pub remove_local_group_membership : ℕ → ℕ → M (Unit {0})
remove_local_group_membership user target =
    modify λ db. record db {
      user_groups = select (λ m. not (is_membership user target m)) db.user_groups;
    }

abbrev pub if_group : ResourceType → M (Unit {0}) → M (Unit {0})
if_group kind m = if same_type kind group then m else pure tt

abbrev external_id_of : Option Account → Option ℕ
external_id_of none = none
external_id_of (some x) = some x.external_id

-- Whom to remove in the assignment's own directory: the primary account, or a linked one.
abbrev account_external : Assignment → User → Db → Option ℕ
account_external a user db =
    if user.provider_id == a.provider_id
    then some user.external_id
    else external_id_of
        (first (λ x. (x.user_id == user.id) && (x.provider_id == a.provider_id)) db.accounts)

unfoldable pub revoked_reply : Assignment → Reply → M Bool
revoked_reply a confirmed = do
  if_group a.resource_type (remove_local_group_membership a.user_id a.resource_id)
  pure true
revoked_reply a declined = pure false
revoked_reply a (failed code) = pure false

unfoldable pub revoke_account : Assignment → ℕ → Option ℕ → M Bool
unfolding revoked_reply
revoke_account a target none = do
  if_group a.resource_type (remove_local_group_membership a.user_id a.resource_id)
  pure true
revoke_account a target (some external) = do
  let request : ProviderRequest = record {
    resource_type = a.resource_type;
    target_external_id = target;
    user_external_id = external;
    app_role = a.app_role;
  }
  reply ← call (revoke_call a.provider_id request)
  revoked_reply a reply

unfoldable pub revoke_user : Assignment → ℕ → Option User → M Bool
unfolding revoke_account
revoke_user a target none = pure false
revoke_user a target (some user) = do
  external ← gets (λ s. account_external a user s.db)
  revoke_account a target external

unfoldable pub revoke_in : Assignment → Option Provider → M Bool
unfolding revoke_user
revoke_in a none = pure false
revoke_in a (some p) = do
  target ← resolve_target a.resource_type a.resource_id
  user ← gets (λ s. user_by a.user_id s.db)
  revoke_user a target.external_id user

unfoldable pub revoke_provider_access : Assignment → M Bool
unfolding revoke_in
revoke_provider_access a = do found ← gets (λ s. provider_by a.provider_id s.db); revoke_in a found

-- The workers act in their own name, which no person's directory identifier equals.
abbrev pub system_subject : ℕ
system_subject = 0

unfoldable pub grant_user : Assignment → ℕ → Option User → M Bool
grant_user a target none = pure false
grant_user a target (some user) =
    try_else
      (grant_provider_access a.provider_id a.resource_type target user a.app_role system_subject)
      (λ _.
        if_group a.resource_type (record_local_group_membership a.user_id a.resource_id)
        >> pure true)
      (λ _. pure false)

unfoldable pub grant_provider_access_for_assignment : Assignment → M Bool
unfolding grant_user
grant_provider_access_for_assignment a = do
  target ← resolve_target a.resource_type a.resource_id
  user ← gets (λ s. user_by a.user_id s.db)
  grant_user a target.external_id user

-- The statuses that a new grant of the same target replaces.
abbrev pub is_standing : Status → Bool
is_standing active = true
is_standing scheduled = true
is_standing eligible = true
is_standing pending_approval = false
is_standing rejected = false
is_standing revoked = false
is_standing expired = false

abbrev pub is_active : Status → Bool
is_active active = true
is_active scheduled = false
is_active eligible = false
is_active pending_approval = false
is_active rejected = false
is_active revoked = false
is_active expired = false

-- The same target for the same person; a different role of an application is another target.
abbrev pub same_target : ℕ → ResourceType → ℕ → Option ℕ → Assignment → Bool
same_target user kind resource app_role a =
    (a.user_id == user)
    && same_type a.resource_type kind
    && (a.resource_id == resource)
    && (if same_type kind application then same_id a.app_role app_role else true)

abbrev pub excluded : ℕ → Assignment → Bool
excluded key a = not (a.id == key)

unfoldable pub revoke_if_active : Assignment → M (Unit {0})
revoke_if_active a =
    if is_active a.status
    then (do
      removed ← revoke_provider_access a
      if removed then pure tt else raise provider_unavailable)
    else pure tt

unfoldable pub supersede : ℕ → Option ℕ → Option Assignment → M (Unit {0})
unfolding revoke_if_active
supersede provider_id actor none = pure tt
supersede provider_id actor (some a) = do
  revoke_if_active a
  now ← gets (λ s. s.now)
  update_assignment a.id (λ r. record r { status = revoked; revoked_at = some now })
  record_audit assignment_revoked (some a.id) (some provider_id) actor true
  commit

-- `exclude` is the row that is about to become real.
unfoldable pub supersede_existing_assignment :
    ℕ → ResourceType → ℕ → Option ℕ → (provider : ℕ) → Option ℕ → (exclude : ℕ) → M (Unit {0})
unfolding supersede
supersede_existing_assignment user kind resource app_role provider_id actor exclude = do
  existing ← gets λ s.
      first
        (λ a.
          same_target user kind resource app_role a && is_standing a.status && excluded exclude a)
        s.db.assignments
  supersede provider_id actor existing
