-- ===== src/Target.antt =====
-- The lookups that backend/app/services/assignments.py starts with: the target of a grant, the actor,
-- and whether a moment is still to come.
use access_piliot.Prelude.{
  ℕ, Bool, false, Option, none, some, List, ◌==◌, ltb, first, contains, get_row, update_row,
}
use access_piliot.Store.{
  Db, User, Resource, Assignment, ResourceType, group, role, application, access_package,
  business_role, Error, group_not_found, role_not_found, application_not_found,
  assignment_not_found, M, pure, gets, or_raise, modify, ◌>>=◌, ◌>>◌,
}

-- The table that a kind of target is looked up in, and the code of the error if it is not there.
abbrev pub table_of : ResourceType → Db → List Resource
table_of group db = db.groups
table_of application db = db.applications
table_of role db = db.roles
table_of access_package db = db.roles
table_of business_role db = db.roles

abbrev pub missing : ResourceType → Error
missing group = group_not_found
missing application = application_not_found
missing role = role_not_found
missing access_package = role_not_found
missing business_role = role_not_found

abbrev pub find_target : ResourceType → ℕ → Db → Option Resource
find_target kind key db = get_row (λ r. r.id) key (table_of kind db)

unfoldable pub resolve_target : ResourceType → ℕ → M Resource
resolve_target kind key = do
  found ← gets (λ s. find_target kind key s.db)
  or_raise found (missing kind)

-- A role of an application is known by its identifier.
abbrev pub has_app_role : Resource → Option ℕ → Bool
has_app_role app none = false
has_app_role app (some r) = contains r app.app_roles

abbrev pub user_by : ℕ → Db → Option User
user_by key db = get_row (λ u. u.id) key db.users

abbrev pub id_of : Option User → Option ℕ
id_of none = none
id_of (some u) = some u.id

abbrev pub internal_user_id : ℕ → Db → Option ℕ
internal_user_id subject db = id_of (first (λ u. u.external_id == subject) db.users)

unfoldable pub resolve_internal_user_id : ℕ → M (Option ℕ)
resolve_internal_user_id subject = gets (λ s. internal_user_id subject s.db)

abbrev pub assignment_by : ℕ → Db → Option Assignment
assignment_by key db = get_row (λ a. a.id) key db.assignments

unfoldable pub get_assignment : ℕ → M Assignment
get_assignment key = do
  found ← gets (λ s. assignment_by key s.db)
  or_raise found assignment_not_found

unfoldable pub update_assignment : ℕ → (Assignment → Assignment) → M (Unit {0})
update_assignment key f =
    modify (λ db. record db { assignments = update_row (λ a. a.id) key f db.assignments })

-- The reads of `hydrate_display_fields` that can raise; what it returns is shown to a person only.
unfoldable pub hydrate : Assignment → M (Unit {0})
hydrate a = resolve_target a.resource_type a.resource_id >> pure tt

abbrev pub is_in_the_future : Option ℕ → ℕ → Bool
is_in_the_future none now = false
is_in_the_future (some moment) now = ltb now moment
