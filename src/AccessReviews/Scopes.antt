-- ===== src/AccessReviews/Scopes.antt =====
-- The assignments that a campaign reviews (`_matching_assignments` of
-- backend/app/services/access_reviews.py).
use access_piliot.Prelude.{
  ℕ, ◌+◌, ◌*◌, Bool, true, false, not, ◌&&◌, ◌||◌, Option, none, some, List, [], ◌∷◌, ◌++◌, ◌==◌,
  if◌then◌else◌, same_id, is_some, any, contains, first, map, select, leb,
}
use access_piliot.Store.{
  Db, Session, Provider, User, Assignment, PackageLink, Scope, all_access, resource_type_scope,
  specific_resource, multiple_resources, user_scope, account_type_scope, inactive_users, mover,
  ResourceType, group, role, application, access_package, business_role, same_type, AccountType,
  normal_account, privileged_account, test_account, ProviderType, csv, entra, okta,
  active_directory, mock, inactive_user_check_unavailable, M, pure, raise, gets, ◌>>=◌,
}
use access_piliot.Sod.{is_live, is_entra, non_empty}

-- `NON_FINAL_ASSIGNMENT_STATUSES`: eligible or active.
abbrev pub live_assignments : (Assignment → Bool) → Db → List Assignment
live_assignments p db = select (λ a. is_live a.status && p a) db.assignments

abbrev times : Assignment → List PackageLink → List Assignment
times a ls = map (λ l. a) ls

-- The join with the links of packages gives a row for each link.
unfoldable pub joined : (PackageLink → Bool) → List PackageLink → List Assignment → List Assignment
joined p links [] = []
joined p links (a ∷ rows) =
    times a (select (λ l. (l.assignment_id == a.id) && p l) links) ++ joined p links rows

abbrev of_packages : (PackageLink → Bool) → Db → List Assignment
of_packages p db = joined p db.package_links (live_assignments (λ a. true) db)

unfoldable pub matching_for_target : Db → ResourceType → ℕ → List Assignment
unfolding joined
matching_for_target db access_package key = of_packages (λ l. l.package_id == key) db
matching_for_target db business_role key =
    live_assignments (λ a. same_id a.business_role_id (some key)) db
matching_for_target db group key =
    live_assignments (λ a. same_type a.resource_type group && (a.resource_id == key)) db
matching_for_target db role key =
    live_assignments (λ a. same_type a.resource_type role && (a.resource_id == key)) db
matching_for_target db application key =
    live_assignments (λ a. same_type a.resource_type application && (a.resource_id == key)) db

-- `combined`, with the keys that were seen.
unfoldable pub unseen : List Assignment → List ℕ → List Assignment
unseen [] seen = []
unseen (a ∷ rows) seen =
    let known = contains a.id seen in
    let rest = unseen rows (if known then seen else a.id ∷ seen) in if known then rest else a ∷ rest

unfoldable pub for_targets : Db → List (ResourceType × ℕ) → List Assignment
unfolding matching_for_target
for_targets db [] = []
for_targets db ((kind, key) ∷ ts) = matching_for_target db kind key ++ for_targets db ts

abbrev is_shadow : AccountType → Bool
is_shadow normal_account = false
is_shadow privileged_account = true
is_shadow test_account = true

-- The person and their linked shadow accounts.
abbrev moves_with : ℕ → Db → ℕ → Bool
moves_with user db key =
    (key == user)
    || any (λ u. (u.id == key) && same_id u.linked_user_id (some user) && is_shadow u.account_type)
        db.users

abbrev by_no_automation : Assignment → Bool
by_no_automation a = not (is_some a.birthright_policy_id) && not (is_some a.group_role_mapping_id)

abbrev of_type : ResourceType → Db → List Assignment
of_type access_package db = of_packages (λ l. true) db
of_type business_role db = live_assignments (λ a. is_some a.business_role_id) db
of_type group db = live_assignments (λ a. same_type a.resource_type group) db
of_type role db = live_assignments (λ a. same_type a.resource_type role) db
of_type application db = live_assignments (λ a. same_type a.resource_type application) db

abbrev account_tag : AccountType → ℕ
account_tag normal_account = 0
account_tag privileged_account = 1
account_tag test_account = 2

abbrev has_account_type : AccountType → Db → ℕ → Bool
has_account_type kind db user =
    any (λ u. (u.id == user) && (account_tag u.account_type == account_tag kind)) db.users

abbrev is_csv : ProviderType → Bool
is_csv csv = true
is_csv entra = false
is_csv okta = false
is_csv active_directory = false
is_csv mock = false

abbrev is_type_entra : ProviderType → Bool
is_type_entra entra = true
is_type_entra csv = false
is_type_entra okta = false
is_type_entra active_directory = false
is_type_entra mock = false

abbrev or_other : Option Provider → Option Provider → Option Provider
or_other none other = other
or_other (some p) other = some p

-- An Entra directory before another one, and never the CSV provider.
abbrev pub primary_identity_provider : Db → Option Provider
primary_identity_provider db =
    or_other (first (λ p. is_type_entra p.type) db.providers)
      (first (λ p. not (is_csv p.type)) db.providers)

abbrev days : ℕ → ℕ
days n = n * 86400

abbrev is_inactive : ℕ → ℕ → Option ℕ → Bool
is_inactive threshold now none = true
is_inactive threshold now (some last) = leb (last + days threshold) now

-- What the first reply fails for, fails for everybody; a later one that fails passes a person over.
unfoldable pub inactive_of : ℕ → Session → (first : Bool) → List User → Option (List ℕ)
inactive_of threshold s is_first [] = some []
inactive_of threshold s is_first (u ∷ us) =
    let rest = inactive_of threshold s false us in
    elim (s.world.last_sign_in s.calls u.external_id) [
      | none ↦ if is_first then none else rest
      | some last ↦ elim rest [
        | none ↦ none
        | some ids ↦ some (if is_inactive threshold s.now last then u.id ∷ ids else ids)
      ]
    ]

abbrev or_unavailable : Option (List ℕ) → M (List ℕ)
or_unavailable none = raise inactive_user_check_unavailable
or_unavailable (some ids) = pure ids

abbrev asks_entra : Option Provider → Bool
asks_entra none = false
asks_entra (some p) = is_entra p.type

unfoldable pub resolve_inactive_user_ids : List Assignment → ℕ → M (List ℕ)
unfolding inactive_of
resolve_inactive_user_ids rows threshold = do
  primary ← gets (λ s. primary_identity_provider s.db)
  found ←
      gets λ s.
        inactive_of threshold s true (select (λ u. any (λ a. a.user_id == u.id) rows) s.db.users)
  if not (non_empty rows)
      then pure []
      else if asks_entra primary
      then or_unavailable found
      else raise inactive_user_check_unavailable

unfoldable pub matching_assignments : Scope → M (List Assignment)
unfolding matching_for_target for_targets unseen joined resolve_inactive_user_ids
matching_assignments all_access = gets (λ s. live_assignments (λ a. true) s.db)
matching_assignments (resource_type_scope kind) = gets (λ s. of_type kind s.db)
matching_assignments (specific_resource kind key) = gets (λ s. matching_for_target s.db kind key)
matching_assignments (multiple_resources ts) = gets (λ s. unseen (for_targets s.db ts) [])
matching_assignments (user_scope user) = gets (λ s. live_assignments (λ a. a.user_id == user) s.db)
matching_assignments (account_type_scope kind) =
    gets (λ s. live_assignments (λ a. has_account_type kind s.db a.user_id) s.db)
matching_assignments (inactive_users threshold) = do
  rows ← gets (λ s. live_assignments (λ a. true) s.db)
  inactive ← resolve_inactive_user_ids rows threshold
  pure (select (λ a. contains a.user_id inactive) rows)
matching_assignments (mover user) =
    gets λ s. live_assignments (λ a. moves_with user s.db a.user_id && by_no_automation a) s.db
