-- ===== src/Hierarchy.antt =====
-- backend/app/services/user_hierarchy.py: the manager of a person, and the check that no person
-- comes to stand above themselves.
pub mod Chains
pub mod Walk
pub mod Acyclic
use access_piliot.Prelude.{
  ℕ, zero, suc, ◌+◌, Bool, true, false, not, ◌||◌, Option, none, some, List, [], ◌∷◌, ◌==◌,
  if◌then◌else◌, same_id, is_some, contains, length, get_row, update_row,
}
use access_piliot.Store.{
  Db, User, Text, M, Error, user_not_found, manager_cycle_detected, user_hierarchy_updated,
  manager_changed_note, pure, gets, or_raise, raise_if, crash, modify, commit, for_each, ◌>>=◌,
  ◌>>◌, record_audit, create_notification,
}

-- `manager_id` of the row with this key; none also where there is no such row.
unfoldable pub manager_of : List User → ℕ → Option ℕ
manager_of users i = elim (get_row (λ u. u.id) i users) [ none ↦ none | some u ↦ u.manager_id ]

-- The `while` loop, on fuel; `none` means that the fuel ran out.
unfoldable pub walk : List User → ℕ → ℕ → List ℕ → Option ℕ → Option Bool
walk users user_id fuel seen none = some false
walk users user_id zero seen (some current) = none
walk users user_id (suc fuel) seen (some current) =
    let rest = walk users user_id fuel (current ∷ seen) (manager_of users current) in
    if current == user_id then some true else if contains current seen then some false else rest

-- One round more than there are users is enough.
unfoldable pub would_create_cycle : List User → ℕ → ℕ → Option Bool
unfolding walk
would_create_cycle users user_id proposed = walk users user_id (length users + 1) [] (some proposed)

-- The request body.
pub record HierarchyUpdate : Type 0 where
  pub clear_employee_category : Bool
  pub employee_category : Option Text
  pub clear_manager : Bool
  pub manager_id : Option ℕ

abbrev pub set_manager : ℕ → Option ℕ → List User → List User
set_manager user_id m = update_row (λ u. u.id) user_id (λ u. record u { manager_id = m })

abbrev set_category : ℕ → Option Text → List User → List User
set_category user_id c = update_row (λ u. u.id) user_id (λ u. record u { employee_category = c })

abbrev assign_category : ℕ → Option Text → M Bool
assign_category user_id none = pure false
assign_category user_id (some c) =
    modify (λ db. record db { users = set_category user_id (some c) db.users }) >> pure true

-- The first `if`: was the category changed?
unfoldable pub change_category : ℕ → HierarchyUpdate → M Bool
change_category user_id body =
    if body.clear_employee_category
    then modify (λ db. record db { users = set_category user_id none db.users }) >> pure true
    else assign_category user_id body.employee_category

-- The walk has an answer: `would_create_cycle-total`.
abbrev answered : Option Bool → M Bool
answered none = crash
answered (some b) = pure b

-- The manager is there, and the walk from it does not meet the user.
unfoldable pub assign_manager : ℕ → ℕ → M Bool
assign_manager user_id m = do
  raise_if (m == user_id) manager_cycle_detected
  found ← gets (λ s. get_row (λ u. u.id) m s.db.users)
  or_raise found user_not_found
  answer ← gets (λ s. would_create_cycle s.db.users user_id m)
  cycle ← answered answer
  raise_if cycle manager_cycle_detected
  modify (λ db. record db { users = set_manager user_id (some m) db.users })
  pure true

abbrev assign_optional : ℕ → Option ℕ → M Bool
assign_optional user_id none = pure false
assign_optional user_id (some m) = assign_manager user_id m

unfoldable pub change_manager : ℕ → HierarchyUpdate → M Bool
unfolding assign_manager
change_manager user_id body =
    if body.clear_manager
    then modify (λ db. record db { users = set_manager user_id none db.users }) >> pure true
    else assign_optional user_id body.manager_id

-- A key of the dictionary of recipients is listed once.
abbrev add_key : Option ℕ → List ℕ → List ℕ
add_key none keys = keys
add_key (some k) keys = if contains k keys then keys else k ∷ keys

unfoldable pub notify_change : ℕ → Option ℕ → Option ℕ → M (Unit {0})
notify_change user_id new old = if same_id new old then pure tt else do
  for_each (λ k. create_notification k manager_changed_note)
      (add_key old (add_key new (user_id ∷ [])))
  commit

unfoldable pub update_user_hierarchy : ℕ → HierarchyUpdate → Option ℕ → M User
unfolding change_category change_manager notify_change
update_user_hierarchy user_id body actor = do
  found ← gets (λ s. get_row (λ u. u.id) user_id s.db.users)
  user ← or_raise found user_not_found
  category_changed ← change_category user_id body
  manager_changed ← change_manager user_id body
  if category_changed || manager_changed
      then record_audit user_hierarchy_updated (some user_id) none actor true
      else pure tt
  commit
  after ← gets (λ s. get_row (λ u. u.id) user_id s.db.users)
  now ← or_raise after user_not_found
  notify_change user_id now.manager_id user.manager_id
  pure now
