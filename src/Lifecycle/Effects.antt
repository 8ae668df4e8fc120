-- ===== src/Lifecycle/Effects.antt =====
-- More code that never writes to a row of `access_assignments`: the removal of access in a directory
-- (backend/app/services/assignments.py) and the check of Separation of Duties
-- (backend/app/services/sod.py).
use access_piliot.Prelude.{ℕ, refl, Option, none, some, List, [], ◌∷◌, arith}
use access_piliot.Store.{
  Assignment, User, Provider, ResourceType, Reply, confirmed, declined, failed, SodSettings,
  SodPolicy, SodPolicyEntity, Side, Preserves, Preserves-bind, Preserves-pure,
}
use access_piliot.Grants.{
  revoked_reply, revoke_account, revoke_user, revoke_in, grant_user, record_local_group_membership,
  remove_local_group_membership, revoke_provider_access, grant_provider_access_for_assignment,
}
use access_piliot.Sod.{
  Entitlement, add_holding, add_holdings, direct, resolve_user_holdings, settings_or_default,
  get_sod_notification_settings, holds_or_held, check_side, check_policy, check_policies,
  check_sod_conflicts,
}
use access_piliot.Lifecycle.Quiet.{Same, quiet_rules, modify-quiet, grant_provider_access-quiet}

module _ (x y : List Assignment) where
  pub record_membership-quiet :
      (user target : ℕ) → Preserves (Same x y) (record_local_group_membership user target)
  unfolding record_local_group_membership
  record_membership-quiet user target = modify-quiet x y _ (λ db. ground arith)

  pub remove_membership-quiet :
      (user target : ℕ) → Preserves (Same x y) (remove_local_group_membership user target)
  unfolding remove_local_group_membership
  remove_membership-quiet user target = modify-quiet x y _ (λ db. refl)

  revoked_reply-quiet : (a : Assignment) (r : Reply) → Preserves (Same x y) (revoked_reply a r)
  unfolding revoked_reply
  revoked_reply-quiet a confirmed = search (quiet_rules, remove_membership-quiet)
  revoked_reply-quiet a declined = search quiet_rules
  revoked_reply-quiet a (failed code) = search quiet_rules

  revoke_account-quiet :
      (a : Assignment) (target : ℕ) (o : Option ℕ)
      → Preserves (Same x y) (revoke_account a target o)
  unfolding revoke_account
  revoke_account-quiet a target none = search (quiet_rules, remove_membership-quiet)
  revoke_account-quiet a target (some e) = search (quiet_rules, revoked_reply-quiet)

  revoke_user-quiet :
      (a : Assignment) (target : ℕ) (o : Option User)
      → Preserves (Same x y) (revoke_user a target o)
  unfolding revoke_user
  revoke_user-quiet a target none = search quiet_rules
  revoke_user-quiet a target (some u) = search (quiet_rules, revoke_account-quiet)

  revoke_in-quiet : (a : Assignment) (o : Option Provider) → Preserves (Same x y) (revoke_in a o)
  unfolding revoke_in
  revoke_in-quiet a none = search quiet_rules
  revoke_in-quiet a (some p) = search (quiet_rules, revoke_user-quiet)

  pub revoke_provider_access-quiet :
      (a : Assignment) → Preserves (Same x y) (revoke_provider_access a)
  unfolding revoke_provider_access
  revoke_provider_access-quiet a = search (quiet_rules, revoke_in-quiet)

  grant_user-quiet :
      (a : Assignment) (target : ℕ) (o : Option User) → Preserves (Same x y) (grant_user a target o)
  unfolding grant_user
  grant_user-quiet a target none = search quiet_rules
  grant_user-quiet a target (some u) =
      search (quiet_rules, grant_provider_access-quiet, record_membership-quiet)

  pub grant_for_assignment-quiet :
      (a : Assignment) → Preserves (Same x y) (grant_provider_access_for_assignment a)
  unfolding grant_provider_access_for_assignment
  grant_for_assignment-quiet a = search (quiet_rules, grant_user-quiet)

  add_holding-quiet :
      (e : Entitlement) (seen : List Entitlement) → Preserves (Same x y) (add_holding e seen)
  unfolding add_holding
  add_holding-quiet e seen = search quiet_rules

  add_holdings-quiet : (es seen : List Entitlement) → Preserves (Same x y) (add_holdings es seen)
  unfolding add_holdings
  add_holdings-quiet [] seen = search quiet_rules
  add_holdings-quiet (e ∷ es) seen = search (quiet_rules, add_holding-quiet, add_holdings-quiet es)

  direct-quiet :
      (tuples seen : List Entitlement) (o : Option User)
      → Preserves (Same x y) (direct tuples seen o)
  unfolding direct
  direct-quiet tuples seen none = search quiet_rules
  direct-quiet tuples seen (some u) = search quiet_rules

  holdings-quiet :
      (user : ℕ) (tuples : List Entitlement)
      → Preserves (Same x y) (resolve_user_holdings user tuples)
  unfolding resolve_user_holdings
  holdings-quiet user [] = search quiet_rules
  holdings-quiet user (t ∷ ts) = search (quiet_rules, add_holdings-quiet, direct-quiet) depth 12

  settings-quiet : (o : Option SodSettings) → Preserves (Same x y) (settings_or_default o)
  unfolding settings_or_default
  settings-quiet none = search quiet_rules
  settings-quiet (some c) = search quiet_rules

  get_settings-quiet : Preserves (Same x y) get_sod_notification_settings
  unfolding get_sod_notification_settings
  get_settings-quiet = search (quiet_rules, settings-quiet)

  holds_or_held-quiet :
      (c : SodSettings) (user : ℕ) (tuples : List Entitlement)
      → Preserves (Same x y) (holds_or_held c user tuples)
  unfolding holds_or_held
  holds_or_held-quiet c user tuples = search (quiet_rules, holdings-quiet)

  check_side-quiet :
      (c : SodSettings) (user : ℕ) (p : SodPolicy) (es : List SodPolicyEntity) (o : Option Side)
      → Preserves (Same x y) (check_side c user p es o)
  unfolding check_side
  check_side-quiet c user p es none = search quiet_rules
  check_side-quiet c user p es (some side) = search (quiet_rules, holds_or_held-quiet) depth 10

  check_policy-quiet :
      (c : SodSettings) (user : ℕ) (e : Entitlement) (p : SodPolicy)
      → Preserves (Same x y) (check_policy c user e p)
  unfolding check_policy
  check_policy-quiet c user e p = search (quiet_rules, check_side-quiet)

  check_policies-quiet :
      (c : SodSettings) (user : ℕ) (e : Entitlement) (ps : List SodPolicy)
      → Preserves (Same x y) (check_policies c user e ps)
  unfolding check_policies
  check_policies-quiet c user e [] = search quiet_rules
  check_policies-quiet c user e (p ∷ ps) =
      Preserves-bind _ _ (check_policy-quiet c user e p)
        (λ met. Preserves-bind _ _ (check_policies-quiet c user e ps) (λ rest. Preserves-pure _))

  pub check_sod_conflicts-quiet :
      (user : ℕ) (kind : ResourceType) (resource : ℕ) (role : Option ℕ)
      → Preserves (Same x y) (check_sod_conflicts user kind resource role)
  unfolding check_sod_conflicts
  check_sod_conflicts-quiet user kind resource role =
      search (quiet_rules, get_settings-quiet, check_policies-quiet)
