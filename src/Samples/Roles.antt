-- ===== src/Samples/Roles.antt =====
-- The theorems about business roles (backend/app/services/business_roles.py) at the sample data: a
-- role of one item and one of no item.
use access_piliot.Prelude.{ℕ, ◌≡◌, true, none, some, List, [], ◌∷◌, arith}
use access_piliot.Store.{
  Session, Item, BusinessRole, Assignment, group, revoked, enabled, confirmed, close,
}
use access_piliot.Packages.Items.{ItemCreate}
use access_piliot.BusinessRoles.Editing.{BusinessRoleUpdate, update_business_role}
use access_piliot.BusinessRoles.Mapped.{owned_by}
use access_piliot.BusinessRoles.Unique.{RolesAreDisjoint}
use access_piliot.BusinessRoles.Edits.{untouched, edited, change, end, Edits-Disjoint}
use access_piliot.Samples.{session_with, grant}

abbrev role : ℕ → BusinessRole
role key = record { id = key; name = b'r' ∷ []; status = enabled }

abbrev mapped_items : List Item
mapped_items =
    record { id = 92; owner_id = 90; resource_type = group; resource_id = 5; app_role = none } ∷ []

-- The assignment of the role was revoked.
abbrev past_grant : Assignment
past_grant = record (grant 10 revoked none) { business_role_id = some 90 }

abbrev role_session : Session
role_session =
    let s = session_with confirmed (past_grant ∷ []) in
    let db = record s.db {
      business_roles = role 90 ∷ role 91 ∷ [];
      business_role_items = mapped_items;
    } in
    record s { db = db; saved = db }

-- The second role asks for the group of the first one, and is told that it is mapped already.
abbrev same_group : BusinessRoleUpdate
same_group = record {
  name = none;
  status = none;
  owner_ids = none;
  items = some (record { resource_type = group; resource_id = 5; app_role = none } ∷ []);
}

one_row : (e : ItemCreate) → owned_by e 90 mapped_items ≡ true
one_row e = ground arith

Edits-Disjoint_example :
    RolesAreDisjoint (close (update_business_role 91 same_group 101 role_session).1)
Edits-Disjoint_example =
    Edits-Disjoint
      (edited (edited (untouched role_session) (change 91 same_group 101 role_session))
        (end (update_business_role 91 same_group 101 role_session).1))
      (λ e. (90, one_row e), λ e. (90, one_row e))
