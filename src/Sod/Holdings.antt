-- ===== src/Sod/Holdings.antt =====
-- What a person holds of some entitlements, by the assignments table, by the local memberships and by
-- live reads of the directory: `_resolve_user_holdings` of backend/app/services/sod.py.
use access_piliot.Prelude.{
  ℕ, Bool, true, false, ◌&&◌, ◌||◌, Option, none, some, List, [], ◌∷◌, ◌==◌, if◌then◌else◌, same_id,
  first, select, any, contains, map,
}
use access_piliot.Store.{
  Db, User, ProviderType, csv, entra, okta, active_directory, mock, Assignment, Resource, Item,
  ResourceType, group, role, application, access_package, business_role, same_type, Status, active,
  eligible, scheduled, rejected, revoked, expired, pending_approval, SodPolicyEntity, UserGroup,
  Session, M, pure, gets, ◌>>=◌, ◌>>◌,
}
use access_piliot.Target.{resolve_target, user_by}
use access_piliot.Accounts.{provider_by}

-- `ResourceTuple`: a kind of resource, its key, and the role of an application.
pub record Entitlement : Type 0 where
  pub kind : ResourceType
  pub resource : ℕ
  pub app_role : Option ℕ

abbrev pub same_entitlement : Entitlement → Entitlement → Bool
same_entitlement a b =
    same_type a.kind b.kind && (a.resource == b.resource) && same_id a.app_role b.app_role

-- `entitlement in tuples`.
abbrev pub holds : Entitlement → List Entitlement → Bool
holds e = any (same_entitlement e)

abbrev pub item_entitlement : Item → Entitlement
item_entitlement i = record {
  kind = i.resource_type;
  resource = i.resource_id;
  app_role = i.app_role;
}

abbrev pub items_of : ℕ → List Item → List Entitlement
items_of owner items = map item_entitlement (select (λ i. i.owner_id == owner) items)

unfoldable pub expand : Db → SodPolicyEntity → List Entitlement
expand db entity = by_kind entity.entity_type
  where
    itself : List Entitlement
    itself =
        record {
          kind = entity.entity_type;
          resource = entity.entity_id;
          app_role = entity.app_role;
        }
        ∷ []

    by_kind : ResourceType → List Entitlement
    by_kind access_package = items_of entity.entity_id db.package_items
    by_kind business_role = items_of entity.entity_id db.business_role_items
    by_kind group = itself
    by_kind role = itself
    by_kind application = itself

abbrev pub entitlement_of : Assignment → Entitlement
entitlement_of a = record {
  kind = a.resource_type;
  resource = a.resource_id;
  app_role = a.app_role;
}

abbrev pub is_live : Status → Bool
is_live active = true
is_live eligible = true
is_live scheduled = false
is_live pending_approval = false
is_live rejected = false
is_live revoked = false
is_live expired = false

-- A key is listed once; `to_holding` looks its target up, and raises if that is gone.
unfoldable pub add_holding : Entitlement → List Entitlement → M (List Entitlement)
add_holding e seen =
    if holds e seen then pure seen else resolve_target e.kind e.resource >> pure (e ∷ seen)

unfoldable pub add_holdings : List Entitlement → List Entitlement → M (List Entitlement)
unfolding add_holding
add_holdings [] seen = pure seen
add_holdings (e ∷ es) seen = do seen' ← add_holding e seen; add_holdings es seen'

-- The rows of the assignments table that give the person one of the entitlements.
abbrev pub tracked : ℕ → List Entitlement → Db → List Entitlement
tracked user tuples db = map entitlement_of (
    select (λ a. (a.user_id == user) && is_live a.status && holds (entitlement_of a) tuples)
      db.assignments)

abbrev pub group_entitlement : UserGroup → Entitlement
group_entitlement m = record { kind = group; resource = m.group_id; app_role = none }

-- `group_ids` drops the role of an application, which a group does not have.
abbrev pub names : ResourceType → ℕ → List Entitlement → Bool
names kind key = any (λ t. same_type t.kind kind && (t.resource == key))

abbrev pub memberships : ℕ → List Entitlement → Db → List Entitlement
memberships user tuples db =
    map group_entitlement
      (select (λ m. (m.user_id == user) && names group m.group_id tuples) db.user_groups)

abbrev pub of_kind : ResourceType → List Entitlement → Bool
of_kind kind = any (λ t. same_type t.kind kind)

-- `_connector` gives an Entra connector to every type that has none of its own.
abbrev pub is_entra : ProviderType → Bool
is_entra entra = true
is_entra csv = true
is_entra okta = false
is_entra active_directory = false
is_entra mock = false

-- Without a reply the live check counts as "nothing found".
abbrev pub or_empty {ℓ} : {A : Type ℓ} → Option (List A) → List A
or_empty none = []
or_empty (some xs) = xs

abbrev pub add_live : List Entitlement → List Entitlement → List Entitlement
add_live [] seen = seen
add_live (e ∷ es) seen = add_live es (if holds e seen then seen else e ∷ seen)

abbrev pub live_roles : Session → User → List Entitlement → List Entitlement
live_roles s user tuples =
    let ids = or_empty (s.world.directory_role_ids s.calls user.external_id) in
    map (λ r. record { kind = role; resource = r.id; app_role = none })
      (select (λ r. names role r.id tuples && contains r.external_id ids) s.db.roles)

abbrev pub app_entitlements : List Resource → List (ℕ × Option ℕ) → List Entitlement
app_entitlements apps [] = []
app_entitlements apps ((external, app_role) ∷ entries) =
    elim (first (λ a. a.external_id == external) apps) [
      | none ↦ app_entitlements apps entries
      | some a ↦
          record { kind = application; resource = a.id; app_role = app_role }
          ∷ app_entitlements apps entries
    ]

abbrev pub live_apps : Session → User → List Entitlement → List Entitlement
live_apps s user tuples =
    select (λ e. holds e tuples)
      (app_entitlements s.db.applications
        (or_empty (s.world.app_role_assignments s.calls user.external_id)))

unfoldable pub direct : List Entitlement → List Entitlement → Option User → M (List Entitlement)
direct tuples seen none = pure seen
direct tuples seen (some user) = do
  found ← gets (λ s. provider_by user.provider_id s.db)
  gets λ s. elim found [
    | none ↦ seen
    | some p ↦
        if is_entra p.type
        then add_live (if of_kind application tuples then live_apps s user tuples else [])
            (add_live (if of_kind role tuples then live_roles s user tuples else []) seen)
        else seen
  ]

unfoldable pub resolve_user_holdings : ℕ → List Entitlement → M (List Entitlement)
unfolding add_holdings direct
resolve_user_holdings user [] = pure []
resolve_user_holdings user (t ∷ ts) = do
  let tuples : List Entitlement = t ∷ ts
  rows ← gets (λ s. tracked user tuples s.db)
  held ← add_holdings rows []
  joined ← gets (λ s. memberships user tuples s.db)
  seen ← add_holdings joined held
  person ← gets (λ s. user_by user s.db)
  if of_kind role tuples || of_kind application tuples then direct tuples seen person else pure seen
