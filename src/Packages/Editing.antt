-- ===== src/Packages/Editing.antt =====
-- The editing of packages by administrators and by their owners
-- (backend/app/services/packages.py).
use access_piliot.Prelude.{
  ℕ, Bool, true, false, not, ◌&&◌, ◌||◌, Option, none, some, List, [], ◌∷◌, ◌++◌, ◌==◌, any, leb,
  if◌then◌else◌, select, first, length, update_row,
}
use access_piliot.Store.{
  Db, Text, Package, enabled, archived, package_already_exists, package_item_not_found,
  package_must_have_item, access_denied, package_created, package_updated, package_archived_entry,
  package_deleted, package_renamed_by_owner, package_item_removed_by_owner,
  package_eligibility_updated, M, pure, crash, gets, or_raise, raise_if, modify, commit, fresh_id,
  ◌>>=◌, ◌>>◌, record_audit,
}
use access_piliot.Target.{internal_user_id}
use access_piliot.Workflows.Conditions.{text_eq}
use access_piliot.Packages.Items.{
  ItemCreate, EligibilityUpdate, validate_items, add_items, remove_items, apply_owners,
  apply_package_eligibility, get_package, package_items_of, package_response,
}

pub record PackageCreate : Type 0 where
  pub name : Text
  pub owner_ids : List ℕ
  pub items : List ItemCreate
  pub eligibility : EligibilityUpdate

pub record PackageUpdate : Type 0 where
  pub name : Option Text
  pub owner_ids : Option (List ℕ)
  pub items : Option (List ItemCreate)

abbrev new_package : ℕ → Text → Package
new_package key name = record {
  id = key;
  name = name;
  status = enabled;
  default_approver_id = none;
  default_fallback_approver_id = none;
  fallback_unlock_hours = none;
  workflow_definition_id = none;
}

abbrev has_name : Text → Db → Bool
has_name name db = any (λ p. text_eq p.name name) db.packages

-- Another package has the name.
abbrev pub is_taken : ℕ → Text → Db → Bool
is_taken key name db = any (λ p. text_eq p.name name && not (p.id == key)) db.packages

unfoldable pub create_package : PackageCreate → (subject : ℕ) → M ℕ
unfolding text_eq
create_package data' subject = do
  taken ← gets (λ s. has_name data'.name s.db)
  raise_if taken package_already_exists
  validate_items [] data'.items
  key ← fresh_id
  modify (λ db. record db { packages = db.packages ++ new_package key data'.name ∷ [] })
  apply_package_eligibility key data'.eligibility
  add_items key data'.items
  actor ← gets (λ s. internal_user_id subject s.db)
  apply_owners key data'.owner_ids
  record_audit package_created (some key) none actor true
  commit
  package_response key
  pure key

-- The name is looked up only where it changes.
unfoldable pub rename : ℕ → Package → Text → M Bool
unfolding text_eq
rename key p name = if text_eq name p.name then pure false else (do
  taken ← gets (λ s. is_taken key name s.db)
  raise_if taken package_already_exists
  modify λ db. record db {
    packages = update_row (λ q. q.id) key (λ q. record q { name = name }) db.packages;
  }
  pure true)

unfoldable pub rename_if_set : ℕ → Package → Option Text → M Bool
unfolding rename
rename_if_set key p none = pure false
rename_if_set key p (some name) = rename key p name

unfoldable pub replace_items : ℕ → Option (List ItemCreate) → M (Unit {0})
replace_items key none = pure tt
replace_items key (some items) = validate_items [] items >> remove_items key >> add_items key items

unfoldable pub replace_owners : ℕ → Option (List ℕ) → M (Unit {0})
replace_owners key none = pure tt
replace_owners key (some owners) = apply_owners key owners

unfoldable pub update_package : ℕ → PackageUpdate → (subject : ℕ) → M (Unit {0})
unfolding rename_if_set replace_items replace_owners
update_package key data' subject = do
  p ← get_package key
  rename_if_set key p data'.name
  replace_items key data'.items
  actor ← gets (λ s. internal_user_id subject s.db)
  replace_owners key data'.owner_ids
  record_audit package_updated (some key) none actor true
  commit
  package_response key

unfoldable pub set_package_eligibility : ℕ → EligibilityUpdate → (subject : ℕ) → M (Unit {0})
set_package_eligibility key data' subject = do
  get_package key
  apply_package_eligibility key data'
  actor ← gets (λ s. internal_user_id subject s.db)
  record_audit package_eligibility_updated (some key) none actor true
  commit
  package_response key

abbrev pub is_assigned : ℕ → Db → Bool
is_assigned key db = any (λ l. l.package_id == key) db.package_links

-- Rows of the owners and of the eligible refer to the package, and nothing deletes them with it.
abbrev pub is_referenced : ℕ → Db → Bool
is_referenced key db =
    any (λ o. o.package_id == key) db.package_owners
    || any (λ r. r.package_id == key) db.package_eligibility

-- A package that was assigned is archived; another one is deleted, which the database refuses while
-- an owner or an eligible principal is left.
unfoldable pub delete_package : ℕ → (subject : ℕ) → M (Unit {0})
delete_package key subject = do
  get_package key
  actor ← gets (λ s. internal_user_id subject s.db)
  assigned ← gets (λ s. is_assigned key s.db)
  if assigned
      then (do
        modify λ db. record db {
          packages = update_row (λ p. p.id) key (λ p. record p { status = archived }) db.packages;
        }
        record_audit package_archived_entry (some key) none actor true
        commit
        package_response key)
      else (do
        remove_items key
        referenced ← gets (λ s. is_referenced key s.db)
        if referenced then crash else (do
          modify (λ db. record db { packages = select (λ p. not (p.id == key)) db.packages })
          record_audit package_deleted (some key) none actor true
          commit))

abbrev pub is_owner : ℕ → Option ℕ → Db → Bool
is_owner key none db = false
is_owner key (some u) db = any (λ o. (o.package_id == key) && (o.user_id == u)) db.package_owners

-- The package, and who acts.
unfoldable pub require_owner : ℕ → (subject : ℕ) → M (Package × Option ℕ)
require_owner key subject = do
  p ← get_package key
  actor ← gets (λ s. internal_user_id subject s.db)
  owned ← gets (λ s. is_owner key actor s.db)
  raise_if (not owned) access_denied
  pure (p, actor)

unfoldable pub owner_rename_package : ℕ → Text → (subject : ℕ) → M (Unit {0})
unfolding require_owner rename
owner_rename_package key name subject = do
  (p, actor) ← require_owner key subject
  changed ← rename key p name
  if changed then record_audit package_renamed_by_owner (some key) none actor true else pure tt
  commit
  package_response key

-- An owner takes one item out, but never the last one.
unfoldable pub owner_remove_item : ℕ → (item : ℕ) → (subject : ℕ) → M (Unit {0})
unfolding require_owner
owner_remove_item key item subject = do
  (p, actor) ← require_owner key subject
  items ← gets (λ s. package_items_of key s.db)
  target ← or_raise (first (λ i. i.id == item) items) package_item_not_found
  raise_if (leb (length items) 1) package_must_have_item
  modify λ db. record db { package_items = select (λ i. not (i.id == target.id)) db.package_items }
  record_audit package_item_removed_by_owner (some key) none actor true
  commit
  package_response key
