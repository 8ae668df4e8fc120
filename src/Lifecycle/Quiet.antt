-- ===== src/Lifecycle/Quiet.antt =====
-- The code that never writes to a row of `access_assignments`: lookups, accounts, calls of a
-- directory (backend/app/services/accounts.py, backend/app/services/assignments.py) and the check of
-- Separation of Duties (backend/app/services/sod.py). It may commit what the session holds.
use access_piliot.Prelude.{ℕ, ◌≡◌, refl, ◌⊎◌, inl, inr, Bool, Option, none, some, List, arith}
use access_piliot.Store.{
  Db, Session, Assignment, User, Provider, Account, ResourceType, AuditAction, NotificationType,
  Reply, CreateReply, confirmed, declined, failed, created, conflict, create_failed, SodSettings,
  SodPolicy, SodPolicyEntity, Side, Call, ActorRole, M, Preserves, preserving_rules, modify, commit,
  call, create_call, fresh_id, record_audit, create_notification,
}
use access_piliot.Target.{resolve_target, get_assignment, hydrate, resolve_internal_user_id}
use access_piliot.Accounts.{
  add_account, mirror, mirror_in, new_account, provision_in, linked_or_new, ensure_primary_account,
  ensure_account_in_provider,
}
use access_piliot.Grants.{external_of, granted, grant_provider_access}

-- The session has the rows `x`; committed are the rows `y`, or these.
pub Same : List Assignment → List Assignment → Session → Type 0
Same x y s = (s.db.assignments ≡ x) × ((s.saved.assignments ≡ y) ⊎ (s.saved.assignments ≡ x))

pub Same-refl : (s : Session) → Same s.db.assignments s.saved.assignments s
unfolding Same
Same-refl s = (refl, inl refl)

pub Same-cases :
    (x y : List Assignment) (s : Session)
    → Same x y s
    → (s.db.assignments ≡ x) × ((s.saved.assignments ≡ y) ⊎ (s.saved.assignments ≡ x))
unfolding Same
Same-cases x y s h = h

module _ (x y : List Assignment) where
  pub commit-quiet : Preserves (Same x y) commit
  unfolding commit Same
  commit-quiet = record { at = λ s h. (h.0, inr h.0) }

  pub record_audit-quiet :
      (a : AuditAction) (t p r : Option ℕ) (ok : Bool)
      → Preserves (Same x y) (record_audit a t p r ok)
  unfolding record_audit modify Same
  record_audit-quiet a t p r ok = record { at = λ s h. h }

  pub create_notification-quiet :
      (u : ℕ) (k : NotificationType) → Preserves (Same x y) (create_notification u k)
  unfolding create_notification modify Same
  create_notification-quiet u k = record { at = λ s h. h }

  pub call-quiet : (c : Call) → Preserves (Same x y) (call c)
  unfolding call Same
  call-quiet c = record { at = λ s h. h }

  pub create_call-quiet : (c : Call) → Preserves (Same x y) (create_call c)
  unfolding create_call Same
  create_call-quiet c = record { at = λ s h. h }

  pub fresh_id-quiet : Preserves (Same x y) fresh_id
  unfolding fresh_id Same
  fresh_id-quiet = record { at = λ s h. h }

  pub modify-quiet :
      (f : Db → Db)
      → ((db : Db) → (f db).assignments ≡ db.assignments)
      → Preserves (Same x y) (modify f)
  unfolding modify Same
  modify-quiet f same = record { at = λ s h. ground (arith, same s.db) }

  pub resolve_target-quiet :
      (kind : ResourceType) (key : ℕ) → Preserves (Same x y) (resolve_target kind key)
  unfolding resolve_target
  resolve_target-quiet kind key = search preserving_rules

  pub get_assignment-quiet : (key : ℕ) → Preserves (Same x y) (get_assignment key)
  unfolding get_assignment
  get_assignment-quiet key = search preserving_rules

  pub hydrate-quiet : (a : Assignment) → Preserves (Same x y) (hydrate a)
  unfolding hydrate
  hydrate-quiet a = search (preserving_rules, resolve_target-quiet)

  pub resolve_internal_user_id-quiet :
      (subject : ℕ) → Preserves (Same x y) (resolve_internal_user_id subject)
  unfolding resolve_internal_user_id
  resolve_internal_user_id-quiet subject = search preserving_rules

pub ruleset quiet_rules = (
  preserving_rules, commit-quiet, record_audit-quiet, create_notification-quiet, call-quiet,
  create_call-quiet, fresh_id-quiet, modify-quiet, resolve_target-quiet, get_assignment-quiet,
  hydrate-quiet, resolve_internal_user_id-quiet,
)

module _ (x y : List Assignment) where
  add_account-quiet :
      (user provider external : ℕ) (disabled : Bool)
      → Preserves (Same x y) (add_account user provider external disabled)
  unfolding add_account
  add_account-quiet user provider external disabled = search (quiet_rules)

  mirror-quiet : (user : User) (o : Option Account) → Preserves (Same x y) (mirror user o)
  unfolding mirror
  mirror-quiet user none = search (quiet_rules, add_account-quiet)
  mirror-quiet user (some a) = search (quiet_rules)

  mirror_in-quiet :
      (user : User) (p : Option Provider) (o : Option Account)
      → Preserves (Same x y) (mirror_in user p o)
  unfolding mirror_in
  mirror_in-quiet user none o = search quiet_rules
  mirror_in-quiet user (some p) o = search (quiet_rules, mirror-quiet)

  ensure_primary_account-quiet : (user : User) → Preserves (Same x y) (ensure_primary_account user)
  unfolding ensure_primary_account
  ensure_primary_account-quiet user = search (quiet_rules, mirror_in-quiet)

  new_account-quiet :
      (user : User) (p subject : ℕ) (r : CreateReply)
      → Preserves (Same x y) (new_account user p subject r)
  unfolding new_account
  new_account-quiet user p subject conflict = search quiet_rules
  new_account-quiet user p subject (create_failed code) = search quiet_rules
  new_account-quiet user p subject (created e) = search (quiet_rules, add_account-quiet) depth 12

  provision_in-quiet :
      (user : User) (key subject : ℕ) (p : Option Provider)
      → Preserves (Same x y) (provision_in user key subject p)
  unfolding provision_in
  provision_in-quiet user key subject none = search quiet_rules
  provision_in-quiet user key subject (some p) = search (quiet_rules, new_account-quiet) depth 12

  linked_or_new-quiet :
      (user : User) (key subject : ℕ) (o : Option Account)
      → Preserves (Same x y) (linked_or_new user key subject o)
  unfolding linked_or_new
  linked_or_new-quiet user key subject none = search (quiet_rules, provision_in-quiet)
  linked_or_new-quiet user key subject (some a) = search quiet_rules

  ensure_account_in_provider-quiet :
      (user : User) (key subject : ℕ)
      → Preserves (Same x y) (ensure_account_in_provider user key subject)
  unfolding ensure_account_in_provider
  ensure_account_in_provider-quiet user key subject =
      search (quiet_rules, linked_or_new-quiet, ensure_primary_account-quiet)

  external_of-quiet : (o : Option Account) → Preserves (Same x y) (external_of o)
  unfolding external_of
  external_of-quiet none = search quiet_rules
  external_of-quiet (some a) = search quiet_rules

  granted-quiet : (r : Reply) → Preserves (Same x y) (granted r)
  unfolding granted
  granted-quiet confirmed = search quiet_rules
  granted-quiet declined = search quiet_rules
  granted-quiet (failed code) = search quiet_rules

  pub grant_provider_access-quiet :
      (p : ℕ) (kind : ResourceType) (target : ℕ) (user : User) (role : Option ℕ) (subject : ℕ)
      → Preserves (Same x y) (grant_provider_access p kind target user role subject)
  unfolding grant_provider_access
  grant_provider_access-quiet p kind target user role subject =
      search (quiet_rules, ensure_account_in_provider-quiet, external_of-quiet, granted-quiet) depth
        16
