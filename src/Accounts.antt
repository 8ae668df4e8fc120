-- ===== src/Accounts.antt =====
-- The accounts of a person in the connected directories, as a grant needs them
-- (backend/app/services/accounts.py).
use access_piliot.Prelude.{
  ℕ, Bool, true, false, ◌&&◌, Option, none, some, ◌∷◌, ◌==◌, if◌then◌else◌, first, get_row,
  update_row, not,
}
use access_piliot.Store.{
  Db, User, Account, Provider, ProviderType, csv, entra, okta, active_directory, mock,
  create_user_call, CreateReply, created, conflict, create_failed, provider_not_found,
  provider_provisioning_disabled, account_username_taken, provider_error, account_auto_provisioned,
  M, pure, raise, gets, raise_if, modify, create_call, fresh_id, ◌>>=◌, ◌>>◌, record_audit,
}
use access_piliot.Target.{resolve_internal_user_id}

abbrev pub provider_by : ℕ → Db → Option Provider
provider_by key db = get_row (λ p. p.id) key db.providers

abbrev pub is_csv : ProviderType → Bool
is_csv csv = true
is_csv entra = false
is_csv okta = false
is_csv active_directory = false
is_csv mock = false

unfoldable pub add_account : ℕ → ℕ → ℕ → Bool → M Account
add_account user provider external disabled = do
  key ← fresh_id
  let account : Account = record {
    id = key;
    user_id = user;
    provider_id = provider;
    external_id = external;
    is_disabled = disabled;
    is_deleted = false;
  }
  modify (λ db. record db { accounts = account ∷ db.accounts })
  pure account

abbrev mirrored : User → Account → Account
mirrored user a = record a { user_id = user.id; is_disabled = user.is_disabled }

unfoldable pub mirror : User → Option Account → M (Option Account)
unfolding add_account
mirror user none = do
  account ← add_account user.id user.provider_id user.external_id user.is_disabled
  pure (some account)
mirror user (some account) = if account.is_deleted then pure (some account) else do
  modify
      (λ db. record db { accounts = update_row (λ a. a.id) account.id (mirrored user) db.accounts })
  pure (some (mirrored user account))

unfoldable pub mirror_in : User → Option Provider → Option Account → M (Option Account)
unfolding mirror
mirror_in user none existing = pure none
mirror_in user (some p) existing = if is_csv p.type then pure none else mirror user existing

-- A directory of type CSV has no accounts.
unfoldable pub ensure_primary_account : User → M (Option Account)
unfolding mirror_in
ensure_primary_account user = do
  found ← gets (λ s. provider_by user.provider_id s.db)
  existing ← gets λ s.
      first (λ a. (a.provider_id == user.provider_id) && (a.external_id == user.external_id))
        s.db.accounts
  mirror_in user found existing

unfoldable pub new_account : User → ℕ → ℕ → CreateReply → M (Option Account)
unfolding add_account
new_account user provider_id subject conflict = raise account_username_taken
new_account user provider_id subject (create_failed code) = raise (provider_error code)
new_account user provider_id subject (created external) = do
  account ← add_account user.id provider_id external false
  actor ← resolve_internal_user_id subject
  record_audit account_auto_provisioned (some user.id) (some provider_id) actor true
  pure (some account)

unfoldable pub provision_in : User → ℕ → ℕ → Option Provider → M (Option Account)
unfolding new_account
provision_in user provider_id subject none = raise provider_not_found
provision_in user provider_id subject (some p) = do
  raise_if (is_csv p.type) provider_not_found
  raise_if (not p.provision_joiners) provider_provisioning_disabled
  reply ← create_call (create_user_call provider_id user.id)
  new_account user provider_id subject reply

unfoldable pub linked_or_new : User → ℕ → ℕ → Option Account → M (Option Account)
unfolding provision_in
linked_or_new user provider_id subject (some account) = pure (some account)
linked_or_new user provider_id subject none = do
  found ← gets (λ s. provider_by provider_id s.db)
  provision_in user provider_id subject found

-- None is returned for the primary account of a person whose own directory is of type CSV.
unfoldable pub ensure_account_in_provider : User → ℕ → ℕ → M (Option Account)
unfolding linked_or_new
ensure_account_in_provider user provider_id subject =
    if user.provider_id == provider_id then ensure_primary_account user else do
      existing ←
          gets
            λ s. first (λ a. (a.user_id == user.id) && (a.provider_id == provider_id)) s.db.accounts
      linked_or_new user provider_id subject existing
