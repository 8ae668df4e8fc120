-- ===== src/BusinessRoles/Mapped.antt =====
-- To which business role an entitlement is mapped (`_validate_items` of
-- backend/app/services/business_roles.py).
use access_piliot.Prelude.{
  ℕ, ◌≡◌, refl, Bool, true, not, ◌||◌, Option, none, some, List, [], ◌∷◌, ◌++◌, ◌==◌, all, select,
  first, same_id, Bool-cases, inl, inr, arith,
}
use mathlib.Core.Path.{subst}
use access_piliot.Store.{Item, same_type}
use access_piliot.Packages.Items.{ItemCreate}
use access_piliot.BusinessRoles.Editing.{is_mapped_elsewhere, is_entitlement}

-- Every row that maps the entitlement is one of this role.
abbrev pub owned_by : ItemCreate → ℕ → List Item → Bool
owned_by e k = all (λ r. not (is_entitlement e r) || (r.owner_id == k))

-- Each entitlement is mapped to one role at most.
abbrev pub InOneRole : List Item → Type 0
InOneRole rows = (e : ItemCreate) → (k : ℕ) × (owned_by e k rows ≡ true)

abbrev pub is_free : Option ℕ → List Item → ItemCreate → Bool
is_free key rows e = not (is_mapped_elsewhere key (first (is_entitlement e) rows))

is_free-none :
    (e : ItemCreate) (k : ℕ) (rows : List Item)
    → is_free none rows e ≡ true
    → owned_by e k rows ≡ true
is_free-none e k [] h = refl
is_free-none e k (r ∷ rs) h = ground (arith, is_free-none e k rs)

is_free-some :
    (e : ItemCreate) (key k : ℕ) (rows : List Item)
    → owned_by e k rows ≡ true
    → is_free (some key) rows e ≡ true
    → owned_by e key rows ≡ true
is_free-some e key k [] o h = refl
is_free-some e key k (r ∷ rs) o h = elim (Bool-cases (is_entitlement e r)) [
  | inl hit ↦
      let same : k ≡ key = ground (arith, hit, o, h) in
      subst (λ j. owned_by e j (r ∷ rs) ≡ true) same o
  | inr miss ↦ ground (arith, miss, is_free-some e key k rs)
]

-- What was free belongs to the role that is edited.
pub all-is_free-some :
    (k : ℕ) (rows : List Item) (items : List ItemCreate)
    → InOneRole rows
    → all (is_free (some k) rows) items ≡ true
    → all (λ e. owned_by e k rows) items ≡ true
all-is_free-some k rows [] one h = refl
all-is_free-some k rows (e ∷ es) one h =
    let (o, held) = one e in
    ground (arith, h, all-is_free-some k rows es one, is_free-some e k o rows held)

-- What was free for a new role belongs to no other one.
pub all-is_free-none :
    (k : ℕ) (rows : List Item) (items : List ItemCreate)
    → all (is_free none rows) items ≡ true
    → all (λ e. owned_by e k rows) items ≡ true
all-is_free-none k rows [] h = refl
all-is_free-none k rows (e ∷ es) h =
    ground (arith, h, is_free-none e k rows, all-is_free-none k rows es)

pub owned_by-select :
    (e : ItemCreate) (k : ℕ) (p : Item → Bool) (rows : List Item)
    → owned_by e k rows ≡ true
    → owned_by e k (select p rows) ≡ true
owned_by-select e k p [] h = refl
owned_by-select e k p (r ∷ rs) h = ground (arith, owned_by-select e k p rs)

pub owned_by-append :
    (e : ItemCreate) (k : ℕ) (rows : List Item) (r : Item)
    → owned_by e k rows ≡ true
    → (not (is_entitlement e r) || (r.owner_id == k)) ≡ true
    → owned_by e k (rows ++ r ∷ []) ≡ true
owned_by-append e k [] r h new = ground arith
owned_by-append e k (q ∷ qs) r h new = ground (arith, owned_by-append e k qs r)

same_id-join : (a b c : Option ℕ) → same_id a c ≡ true → same_id b c ≡ true → same_id a b ≡ true
same_id-join none none c h k = refl
same_id-join none (some b) none h k = ground arith
same_id-join none (some b) (some c) h k = ground arith
same_id-join (some a) none none h k = ground arith
same_id-join (some a) none (some c) h k = ground arith
same_id-join (some a) (some b) none h k = ground arith
same_id-join (some a) (some b) (some c) h k = ground arith

-- Another description of the entitlement of a row.
pub owned_by-same :
    (e x : ItemCreate) (k : ℕ) (rows : List Item)
    → same_type x.resource_type e.resource_type ≡ true
    → (x.resource_id == e.resource_id) ≡ true
    → same_id x.app_role e.app_role ≡ true
    → owned_by x k rows ≡ true
    → owned_by e k rows ≡ true
owned_by-same e x k [] t i a h = refl
owned_by-same e x k (r ∷ rs) t i a h =
    ground
      (arith, t, i, a, same_id-join r.app_role x.app_role e.app_role, owned_by-same e x k rs t i a)
