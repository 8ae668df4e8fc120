-- ===== src/BusinessRoles/Disjoint.antt =====
-- The parts of the operations that edit business roles, and the change of a role
-- (backend/app/services/business_roles.py).
use access_piliot.Prelude.{
  ℕ, ◌≡◌, refl, sym, ap, ◌∙◌, Bool, Option, none, some, List, [], all, select,
}
use mathlib.Core.Path.{subst}
use access_piliot.Store.{
  Db, Session, Item, BusinessRole, Switch, AuditAction, M, Preserves, From, From-bind, ok,
  From-write, From-Preserves, Preserves-pure, Preserves-bind, preserving_rules, modify, commit,
  close, fresh_id, for_each, ◌>>=◌, ◌>>◌, record_audit, Text,
}
use access_piliot.Target.{resolve_target}
use access_piliot.Packages.Items.{ItemCreate}
use access_piliot.BusinessRoles.Editing.{
  BusinessRoleUpdate, get_business_role, validate_role_items, remove_role_items, apply_role_owners,
  role_response, rename_role, change_status, update_role, replace_role_items, replace_role_owners,
  update_business_role,
}
use access_piliot.BusinessRoles.Mapped.{owned_by, InOneRole, all-is_free-some, owned_by-select}
use access_piliot.BusinessRoles.Unique.{
  RolesAreDisjoint, Allowed, HasItems, checked, validate_role_items-ok, validate_role_items-reads,
  remove-Disjoint, add-Disjoint,
}

pub resolve-Disjoint : (t : _) (r : ℕ) → Preserves RolesAreDisjoint (resolve_target t r)
unfolding resolve_target
resolve-Disjoint t r = search preserving_rules

pub response-Disjoint : (key : ℕ) → Preserves RolesAreDisjoint (role_response key)
unfolding role_response
response-Disjoint key = search (preserving_rules, resolve-Disjoint) depth 12

pub get-Disjoint : (key : ℕ) → Preserves RolesAreDisjoint (get_business_role key)
unfolding get_business_role
get-Disjoint key = search preserving_rules

pub audit-Disjoint :
    (a : AuditAction) (t p r : Option ℕ) (b : Bool)
    → Preserves RolesAreDisjoint (record_audit a t p r b)
unfolding record_audit modify
audit-Disjoint a t p r b = record { at = λ s h. h }

pub commit-Disjoint : Preserves RolesAreDisjoint commit
unfolding commit
commit-Disjoint = record { at = λ s (one, _). (one, one) }

-- A write of other tables.
pub write-Disjoint :
    (f : Db → Db)
    → ((db : Db) → (f db).business_role_items ≡ db.business_role_items)
    → Preserves RolesAreDisjoint (modify f)
unfolding modify
write-Disjoint f other = record {
  at = λ s (one, saved). (subst InOneRole (sym (other s.db)) one, saved);
}

-- A removal of items.
pub select-Disjoint :
    (p : Item → Bool)
    → Preserves RolesAreDisjoint
        (modify λ db. record db { business_role_items = select p db.business_role_items })
unfolding modify
select-Disjoint p = record {
  at = λ s (one, saved). (
    λ e. let (k, held) = one e in (k, owned_by-select e k p s.db.business_role_items held),
    saved,
  );
}

pub update_role-Disjoint :
    (key : ℕ) (f : BusinessRole → BusinessRole) → Preserves RolesAreDisjoint (update_role key f)
unfolding update_role
update_role-Disjoint key f = write-Disjoint _ (λ db. refl)

pub remove_role_items-Disjoint : (key : ℕ) → Preserves RolesAreDisjoint (remove_role_items key)
unfolding remove_role_items
remove_role_items-Disjoint key = select-Disjoint _

pub fresh-Disjoint : Preserves RolesAreDisjoint fresh_id
unfolding fresh_id
fresh-Disjoint = record { at = λ s h. h }

pub owners-Disjoint :
    (key : ℕ) (owners : List ℕ) → Preserves RolesAreDisjoint (apply_role_owners key owners)
unfolding apply_role_owners
owners-Disjoint key owners =
    Preserves-bind _ _ (search preserving_rules depth 12) λ _. write-Disjoint _ (λ db. refl)

pub rename-Disjoint :
    (key : ℕ) (r : BusinessRole) (name : Option Text)
    → Preserves RolesAreDisjoint (rename_role key r name)
unfolding rename_role
rename-Disjoint key r none = search preserving_rules
rename-Disjoint key r (some name) = search (preserving_rules, update_role-Disjoint) depth 12

pub status-Disjoint :
    (key : ℕ) (r : BusinessRole) (status : Option Switch)
    → Preserves RolesAreDisjoint (change_status key r status)
unfolding change_status
status-Disjoint key r none = search preserving_rules
status-Disjoint key r (some status) = search (preserving_rules, update_role-Disjoint) depth 12

pub ruleset disjoint_rules = (
  preserving_rules, resolve-Disjoint, response-Disjoint, get-Disjoint, audit-Disjoint,
  commit-Disjoint, update_role-Disjoint, remove_role_items-Disjoint, fresh-Disjoint,
  owners-Disjoint, rename-Disjoint, status-Disjoint,
)

-- Behind the validation the items may be added to this role.
items-Disjoint :
    (key : ℕ) (items : Option (List ItemCreate))
    → Preserves RolesAreDisjoint (replace_role_items key items)
unfolding replace_role_items
items-Disjoint key none = search preserving_rules
items-Disjoint key (some items) =
    checked (Allowed key items) _ _ reads allowed
      (From-bind _ _ (remove-Disjoint key items) λ _. add-Disjoint key items)
  where
    reads : Preserves RolesAreDisjoint (validate_role_items (some key) [] items)
    reads = validate_role_items-reads (some key) [] items

    allowed :
        (s : Session)
        → RolesAreDisjoint s
        → (validate_role_items (some key) [] items s).0 ≡ ok tt
        → Allowed key items (validate_role_items (some key) [] items s).1
    allowed s (one, _) h =
        let rows = s.db.business_role_items in
        let same = (validate_role_items-reads {P = HasItems rows} (some key) [] items).at s refl in
        let free = validate_role_items-ok rows (some key) [] items s refl h in
        ap (λ q. all (λ e. owned_by e key q) items) same ∙ all-is_free-some key rows items one free

replace-Disjoint :
    (key : ℕ) (owners : Option (List ℕ))
    → Preserves RolesAreDisjoint (replace_role_owners key owners)
unfolding replace_role_owners
replace-Disjoint key none = search preserving_rules
replace-Disjoint key (some owners) = owners-Disjoint key owners

pub update_business_role-Disjoint :
    (key : ℕ) (body : BusinessRoleUpdate) (subject : ℕ)
    → Preserves RolesAreDisjoint (update_business_role key body subject)
unfolding update_business_role
update_business_role-Disjoint key body subject =
    search (disjoint_rules, items-Disjoint, replace-Disjoint) depth 20
