-- ===== src/BusinessRoles/Edits.antt =====
-- The history of business roles: any sequence of their edits
-- (backend/app/services/business_roles.py).
use access_piliot.Prelude.{ℕ, ◌≡◌, refl, ap, ◌∙◌, not, none, List, [], ◌∷◌, ◌++◌, ◌==◌, all, select}
use access_piliot.Store.{
  Session, BusinessRole, Text, M, ok, Preserves, From, From-write, From-bind, Preserves-bind,
  modify, close, fresh_id,
}
use access_piliot.Packages.Items.{ItemCreate}
use access_piliot.BusinessRoles.Editing.{
  BusinessRoleUpdate, BusinessRoleCreate, validate_role_items, create_business_role,
  update_business_role,
}
use access_piliot.BusinessRoles.Assigning.{
  owner_rename_business_role, owner_remove_role_item, delete_business_role, require_role_owner,
}
use access_piliot.BusinessRoles.Mapped.{owned_by, all-is_free-none}
use access_piliot.BusinessRoles.Unique.{
  RolesAreDisjoint, Allowed, HasItems, checked, validate_role_items-ok, validate_role_items-reads,
  add-Disjoint,
}
use access_piliot.BusinessRoles.Disjoint.{
  disjoint_rules, write-Disjoint, select-Disjoint, update_business_role-Disjoint,
}

owner-Disjoint : (key subject : ℕ) → Preserves RolesAreDisjoint (require_role_owner key subject)
unfolding require_role_owner
owner-Disjoint key subject = search disjoint_rules depth 12

owner_rename-Disjoint :
    (key : ℕ) (name : Text) (subject : ℕ)
    → Preserves RolesAreDisjoint (owner_rename_business_role key name subject)
unfolding owner_rename_business_role
owner_rename-Disjoint key name subject = search (disjoint_rules, owner-Disjoint) depth 14

owner_remove-Disjoint :
    (key item subject : ℕ) → Preserves RolesAreDisjoint (owner_remove_role_item key item subject)
unfolding owner_remove_role_item
owner_remove-Disjoint key item subject =
    search (disjoint_rules, owner-Disjoint, select-Disjoint) depth 14

no_owners-Disjoint :
    (key : ℕ)
    → Preserves RolesAreDisjoint (
        modify λ db. record db {
          business_role_owners = select (λ o. not (o.role_id == key)) db.business_role_owners;
        })
no_owners-Disjoint key = write-Disjoint _ (λ db. refl)

no_role-Disjoint :
    (key : ℕ)
    → Preserves RolesAreDisjoint (
        modify
          λ db. record db { business_roles = select (λ r. not (r.id == key)) db.business_roles })
no_role-Disjoint key = write-Disjoint _ (λ db. refl)

delete-Disjoint : (key subject : ℕ) → Preserves RolesAreDisjoint (delete_business_role key subject)
unfolding delete_business_role
delete-Disjoint key subject = search (disjoint_rules, no_owners-Disjoint, no_role-Disjoint) depth 20

-- The entitlements may be mapped to any role, so also to the new one.
abbrev Unmapped : List ItemCreate → Session → Type 0
Unmapped items s = (k : ℕ) → Allowed k items s

at_key :
    {m : M (Unit {0})} (key : ℕ) (items : List ItemCreate)
    → From (Allowed key items) RolesAreDisjoint m
    → From (Unmapped items) RolesAreDisjoint m
at_key key items k = record { at = λ s free h. k.at s (free key) h }

validated-Unmapped :
    (items : List ItemCreate) (s : Session)
    → RolesAreDisjoint s
    → (validate_role_items none [] items s).0 ≡ ok tt
    → Unmapped items (validate_role_items none [] items s).1
validated-Unmapped items s (one, _) h k =
    let rows = s.db.business_role_items in
    let same = (validate_role_items-reads {P = HasItems rows} none [] items).at s refl in
    ap (λ q. all (λ e. owned_by e k q) items) same
    ∙ all-is_free-none k rows items (validate_role_items-ok rows none [] items s refl h)

fresh-Unmapped :
    (items : List ItemCreate) → Preserves (λ s. Unmapped items s × RolesAreDisjoint s) fresh_id
unfolding fresh_id
fresh-Unmapped items = record { at = λ s h. h }

insert-Unmapped :
    (items : List ItemCreate) (row : BusinessRole)
    → Preserves
        (λ s. Unmapped items s × RolesAreDisjoint s)
        (modify λ db. record db { business_roles = db.business_roles ++ row ∷ [] })
unfolding modify
insert-Unmapped items row = record { at = λ s h. h }

create-Disjoint :
    (body : BusinessRoleCreate) (subject : ℕ)
    → Preserves RolesAreDisjoint (create_business_role body subject)
unfolding create_business_role
create-Disjoint body subject = Preserves-bind _ _ (search disjoint_rules) λ taken.
    Preserves-bind _ _ (search disjoint_rules) λ _.
      checked (Unmapped body.items) _ _ (validate_role_items-reads none [] body.items)
        (validated-Unmapped body.items)
        (From-bind _ _ (fresh-Unmapped body.items) λ key.
          From-bind _ _ (insert-Unmapped body.items _) λ _.
            From-write _ _ (at_key key body.items (add-Disjoint key body.items))
              (search disjoint_rules depth 14))

-- One edit, whatever it returns or raises, or the end of a request.
pub data Edit : Session → Session → Type 0 where
  creation :
      (body : BusinessRoleCreate) (subject : ℕ) (s : Session)
      → Edit s (create_business_role body subject s).1
  change :
      (key : ℕ) (body : BusinessRoleUpdate) (subject : ℕ) (s : Session)
      → Edit s (update_business_role key body subject s).1
  owner_renaming :
      (key : ℕ) (name : Text) (subject : ℕ) (s : Session)
      → Edit s (owner_rename_business_role key name subject s).1
  owner_removal :
      (key item subject : ℕ) (s : Session) → Edit s (owner_remove_role_item key item subject s).1
  deletion : (key subject : ℕ) (s : Session) → Edit s (delete_business_role key subject s).1
  end : (s : Session) → Edit s (close s)

pub data Edits : Session → Session → Type 0 where
  untouched : (s : Session) → Edits s s
  edited : {s t u : Session} → Edits s t → Edit t u → Edits s u

Edit-Disjoint : {s t : Session} → Edit s t → RolesAreDisjoint s → RolesAreDisjoint t
unfolding close
Edit-Disjoint (creation body subject s) h = (create-Disjoint body subject).at s h
Edit-Disjoint (change key body subject s) h =
    (update_business_role-Disjoint key body subject).at s h
Edit-Disjoint (owner_renaming key name subject s) h =
    (owner_rename-Disjoint key name subject).at s h
Edit-Disjoint (owner_removal key item subject s) h = (owner_remove-Disjoint key item subject).at s h
Edit-Disjoint (deletion key subject s) h = (delete-Disjoint key subject).at s h
Edit-Disjoint (end s) (_, saved) = (saved, saved)

-- Let each entitlement be mapped to one business role at most, in the session and in what is
-- committed. So it is after any sequence of creations, changes and deletions of roles, of renamings
-- and removals of items by owners, and of ends of requests, whatever each of them returned or raised.
pub Edits-Disjoint : {s t : Session} → Edits s t → RolesAreDisjoint s → RolesAreDisjoint t
Edits-Disjoint (untouched s) h = h
Edits-Disjoint (edited before e) h = Edit-Disjoint e (Edits-Disjoint before h)
