-- ===== src/Packages/Items.antt =====
-- The parts of a package: its items, its owners, and who may ask for it (`_validate_items`,
-- `_apply_owners`, `_apply_package_eligibility` of backend/app/services/packages.py).
use access_piliot.Prelude.{
  ℕ, Bool, false, not, ◌&&◌, Option, List, [], ◌∷◌, ◌++◌, ◌==◌, if◌then◌else◌, same_id, map, select,
  any, get_row, update_row,
}
use access_piliot.Store.{
  Db, Package, Principal, user_principal, group_principal, Item, ResourceType, application,
  same_type, user_not_found, group_not_found, package_not_found, application_role_not_found,
  duplicate_package_item, M, pure, gets, or_raise, raise_if, modify, fresh_id, for_each, ◌>>=◌,
  ◌>>◌,
}
use access_piliot.Target.{resolve_target, find_target, has_app_role, user_by}
use access_piliot.Assignments.Create.{known_user, find_workflow}

-- `PackageItemCreate`, behind its validators: only an application has an app role.
pub record ItemCreate : Type 0 where
  pub resource_type : ResourceType
  pub resource_id : ℕ
  pub app_role : Option ℕ

abbrev pub same_item : ItemCreate → ItemCreate → Bool
same_item i j =
    same_type i.resource_type j.resource_type
    && (i.resource_id == j.resource_id)
    && same_id i.app_role j.app_role

unfoldable pub check_item_role : ItemCreate → M (Unit {0})
check_item_role i =
    if same_type i.resource_type application
    then (do
      found ← gets (λ s. find_target application i.resource_id s.db)
      app ← or_raise found application_role_not_found
      raise_if (not (has_app_role app i.app_role)) application_role_not_found)
    else pure tt

-- No target stands in a package twice, and each has to exist.
unfoldable pub validate_items : (seen : List ItemCreate) → List ItemCreate → M (Unit {0})
unfolding check_item_role
validate_items seen [] = pure tt
validate_items seen (i ∷ is) = do
  raise_if (any (same_item i) seen) duplicate_package_item
  resolve_target i.resource_type i.resource_id
  check_item_role i
  validate_items (i ∷ seen) is

abbrev pub package_by : ℕ → Db → Option Package
package_by key db = get_row (λ p. p.id) key db.packages

unfoldable pub get_package : ℕ → M Package
get_package key = do found ← gets (λ s. package_by key s.db); or_raise found package_not_found

abbrev pub package_items_of : ℕ → Db → List Item
package_items_of key db = select (λ i. i.owner_id == key) db.package_items

-- The reads of `_to_package_response` that can raise.
unfoldable pub package_response : ℕ → M (Unit {0})
package_response key = do
  items ← gets (λ s. package_items_of key s.db)
  for_each (λ i. resolve_target i.resource_type i.resource_id >> pure tt) items

unfoldable pub add_items : ℕ → List ItemCreate → M (Unit {0})
add_items key items =
    for_each
      (λ i. do
        id ← fresh_id
        let row : Item = record {
          id = id;
          owner_id = key;
          resource_type = i.resource_type;
          resource_id = i.resource_id;
          app_role = i.app_role;
        }
        modify (λ db. record db { package_items = db.package_items ++ row ∷ [] }))
      items

unfoldable pub remove_items : ℕ → M (Unit {0})
remove_items key =
    modify
      λ db. record db { package_items = select (λ i. not (i.owner_id == key)) db.package_items }

-- The first of several equal entries is kept, in order.
unfoldable pub dedupe {ℓ} : {A : Type ℓ} → (A → A → Bool) → (seen : List A) → List A → List A
dedupe same seen [] = []
dedupe same seen (x ∷ xs) =
    let known = any (same x) seen in
    let rest = dedupe same (if known then seen else x ∷ seen) xs in if known then rest else x ∷ rest

abbrev pub same_key : ℕ → ℕ → Bool
same_key a b = a == b

unfoldable pub apply_owners : ℕ → List ℕ → M (Unit {0})
unfolding dedupe
apply_owners key owner_ids = do
  let unique = dedupe same_key [] owner_ids
  for_each (λ u. do found ← gets (λ s. user_by u s.db); or_raise found user_not_found; pure tt)
      unique
  modify λ db. record db {
    package_owners =
        select (λ o. not (o.package_id == key)) db.package_owners
        ++ map (λ u. record { package_id = key; user_id = u }) unique;
  }

abbrev pub same_principal : Principal → Principal → Bool
same_principal (user_principal a) (user_principal b) = a == b
same_principal (user_principal a) (group_principal b) = false
same_principal (group_principal a) (user_principal b) = false
same_principal (group_principal a) (group_principal b) = a == b

unfoldable pub check_principal : Principal → M (Unit {0})
check_principal (user_principal key) = do
  found ← gets (λ s. user_by key s.db)
  or_raise found user_not_found
  pure tt
check_principal (group_principal key) = do
  found ← gets (λ s. get_row (λ g. g.id) key s.db.groups)
  or_raise found group_not_found
  pure tt

-- `PackageEligibilityUpdate`.
pub record EligibilityUpdate : Type 0 where
  pub principals : List Principal
  pub default_approver_id : Option ℕ
  pub default_fallback_approver_id : Option ℕ
  pub fallback_unlock_hours : Option ℕ
  pub workflow_definition_id : Option ℕ

abbrev with_approval : EligibilityUpdate → Package → Package
with_approval e p = record p {
  default_approver_id = e.default_approver_id;
  default_fallback_approver_id = e.default_fallback_approver_id;
  fallback_unlock_hours = e.fallback_unlock_hours;
  workflow_definition_id = e.workflow_definition_id;
}

unfoldable pub apply_package_eligibility : ℕ → EligibilityUpdate → M (Unit {0})
unfolding dedupe check_principal known_user find_workflow
apply_package_eligibility key e = do
  let principals = dedupe same_principal [] e.principals
  for_each check_principal principals
  known_user e.default_approver_id
  known_user e.default_fallback_approver_id
  find_workflow e.workflow_definition_id
  modify λ db. record db {
    package_eligibility =
        select (λ r. not (r.package_id == key)) db.package_eligibility
        ++ map (λ p. record { package_id = key; principal = p }) principals;
    packages = update_row (λ p. p.id) key (with_approval e) db.packages;
  }
