-- ===== src/BusinessRoles/Editing.antt =====
-- The editing of business roles by administrators and by their owners
-- (backend/app/services/business_roles.py).
use access_piliot.Prelude.{
  ℕ, Bool, true, false, not, ◌&&◌, Option, none, some, List, [], ◌∷◌, ◌++◌, ◌==◌, any,
  if◌then◌else◌, same_id, map, select, first, get_row, update_row,
}
use access_piliot.Store.{
  Db, Text, BusinessRole, Item, Switch, enabled, disabled, draft, archived, same_type,
  user_not_found, business_role_not_found, validation_error, business_role_already_exists,
  duplicate_business_role_item, entitlement_already_mapped, business_role_created,
  business_role_updated, M, pure, gets, or_raise, raise_if, modify, commit, fresh_id, for_each,
  ◌>>=◌, ◌>>◌, record_audit,
}
use access_piliot.Target.{internal_user_id, resolve_target, user_by}
use access_piliot.Workflows.Conditions.{text_eq}
use access_piliot.Packages.Items.{ItemCreate, same_item, same_key, check_item_role, dedupe}

abbrev pub role_by : ℕ → Db → Option BusinessRole
role_by key db = get_row (λ r. r.id) key db.business_roles

unfoldable pub get_business_role : ℕ → M BusinessRole
get_business_role key = do
  found ← gets (λ s. role_by key s.db)
  or_raise found business_role_not_found

abbrev pub role_items_of : ℕ → Db → List Item
role_items_of key db = select (λ i. i.owner_id == key) db.business_role_items

-- The reads of `_to_response` that can raise.
unfoldable pub role_response : ℕ → M (Unit {0})
role_response key = do
  items ← gets (λ s. role_items_of key s.db)
  for_each (λ i. resolve_target i.resource_type i.resource_id >> pure tt) items

-- The first row that maps the entitlement is one of another role.
abbrev pub is_mapped_elsewhere : Option ℕ → Option Item → Bool
is_mapped_elsewhere key none = false
is_mapped_elsewhere key (some i) = not (same_id (some i.owner_id) key)

abbrev pub is_entitlement : ItemCreate → Item → Bool
is_entitlement i r =
    same_type r.resource_type i.resource_type
    && (r.resource_id == i.resource_id)
    && same_id r.app_role i.app_role

-- `key`: the role that is edited, none for a new one.
unfoldable pub validate_role_items :
    (key : Option ℕ) (seen : List ItemCreate) → List ItemCreate → M (Unit {0})
unfolding check_item_role
validate_role_items key seen [] = pure tt
validate_role_items key seen (i ∷ is) = do
  raise_if (any (same_item i) seen) duplicate_business_role_item
  resolve_target i.resource_type i.resource_id
  check_item_role i
  existing ← gets (λ s. first (is_entitlement i) s.db.business_role_items)
  raise_if (is_mapped_elsewhere key existing) entitlement_already_mapped
  validate_role_items key (i ∷ seen) is

unfoldable pub add_role_items : ℕ → List ItemCreate → M (Unit {0})
add_role_items key items =
    for_each
      (λ i. do
        id ← fresh_id
        let row : Item = record {
          id = id;
          owner_id = key;
          resource_type = i.resource_type;
          resource_id = i.resource_id;
          app_role = i.app_role;
        }
        modify (λ db. record db { business_role_items = db.business_role_items ++ row ∷ [] }))
      items

unfoldable pub remove_role_items : ℕ → M (Unit {0})
remove_role_items key = modify λ db. record db {
  business_role_items = select (λ i. not (i.owner_id == key)) db.business_role_items;
}

unfoldable pub apply_role_owners : ℕ → List ℕ → M (Unit {0})
unfolding dedupe
apply_role_owners key owner_ids = do
  let unique = dedupe same_key [] owner_ids
  for_each (λ u. do found ← gets (λ s. user_by u s.db); or_raise found user_not_found; pure tt)
      unique
  modify λ db. record db {
    business_role_owners =
        select (λ o. not (o.role_id == key)) db.business_role_owners
        ++ map (λ u. record { role_id = key; user_id = u }) unique;
  }

-- The columns that nothing here reads are left out: description, kind, risk and approvers.
pub record BusinessRoleCreate : Type 0 where
  pub name : Text
  pub owner_ids : List ℕ
  pub items : List ItemCreate

pub record BusinessRoleUpdate : Type 0 where
  pub name : Option Text
  pub status : Option Switch
  pub owner_ids : Option (List ℕ)
  pub items : Option (List ItemCreate)

abbrev has_role_name : Text → Db → Bool
has_role_name name db = any (λ r. text_eq r.name name) db.business_roles

-- A new role is a draft.
unfoldable pub create_business_role : BusinessRoleCreate → (subject : ℕ) → M ℕ
unfolding text_eq
create_business_role data' subject = do
  taken ← gets (λ s. has_role_name data'.name s.db)
  raise_if taken business_role_already_exists
  validate_role_items none [] data'.items
  key ← fresh_id
  let row : BusinessRole = record { id = key; name = data'.name; status = draft }
  modify (λ db. record db { business_roles = db.business_roles ++ row ∷ [] })
  add_role_items key data'.items
  actor ← gets (λ s. internal_user_id subject s.db)
  apply_role_owners key data'.owner_ids
  record_audit business_role_created (some key) none actor true
  commit
  role_response key
  pure key

abbrev is_role_taken : ℕ → Text → Db → Bool
is_role_taken key name db = any (λ r. text_eq r.name name && not (r.id == key)) db.business_roles

unfoldable pub update_role : ℕ → (BusinessRole → BusinessRole) → M (Unit {0})
update_role key f =
    modify (λ db. record db { business_roles = update_row (λ r. r.id) key f db.business_roles })

-- Does the name change?
unfoldable pub rename_role : ℕ → BusinessRole → Option Text → M Bool
unfolding text_eq update_role
rename_role key r none = pure false
rename_role key r (some name) = if text_eq name r.name then pure false else (do
  taken ← gets (λ s. is_role_taken key name s.db)
  raise_if taken business_role_already_exists
  update_role key (λ q. record q { name = name })
  pure true)

abbrev pub is_archived : Switch → Bool
is_archived archived = true
is_archived enabled = false
is_archived disabled = false
is_archived draft = false

-- An archived role cannot be reactivated.
unfoldable pub change_status : ℕ → BusinessRole → Option Switch → M (Unit {0})
unfolding update_role
change_status key r none = pure tt
change_status key r (some status) = do
  raise_if (is_archived r.status && not (is_archived status)) validation_error
  update_role key (λ q. record q { status = status })

unfoldable pub replace_role_items : ℕ → Option (List ItemCreate) → M (Unit {0})
replace_role_items key none = pure tt
replace_role_items key (some items) = do
  validate_role_items (some key) [] items
  remove_role_items key
  add_role_items key items

unfoldable pub replace_role_owners : ℕ → Option (List ℕ) → M (Unit {0})
replace_role_owners key none = pure tt
replace_role_owners key (some owners) = apply_role_owners key owners

unfoldable pub update_business_role : ℕ → BusinessRoleUpdate → (subject : ℕ) → M (Unit {0})
unfolding rename_role change_status replace_role_items replace_role_owners
update_business_role key data' subject = do
  r ← get_business_role key
  rename_role key r data'.name
  change_status key r data'.status
  replace_role_items key data'.items
  actor ← gets (λ s. internal_user_id subject s.db)
  replace_role_owners key data'.owner_ids
  record_audit business_role_updated (some key) none actor true
  commit
  role_response key
