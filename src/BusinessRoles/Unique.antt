-- ===== src/BusinessRoles/Unique.antt =====
-- The validation of the items of a business role, and what their removal and addition do
-- (`_validate_items` and its callers in backend/app/services/business_roles.py).
use access_piliot.Prelude.{
  ℕ, ◌≡◌, refl, sym, ap, ◌∙◌, Bool, true, not, Option, List, [], ◌∷◌, ◌++◌, ◌==◌, all, select,
  Bool-cases, inl, inr, arith,
}
use access_piliot.Store.{
  Session, Item, ResourceType, Result, ok, raised, crashed, M, Preserves, From, From-bind,
  From-Preserves, Preserves-pure, Preserves-bind, preserving_rules, bind-ok, gets-ok, raise_if-ok,
  modify, fresh_id, for_each, ◌>>=◌,
}
use access_piliot.Target.{resolve_target}
use access_piliot.Packages.Items.{ItemCreate, check_item_role}
use access_piliot.BusinessRoles.Editing.{
  is_entitlement, validate_role_items, add_role_items, remove_role_items,
}
use access_piliot.BusinessRoles.Mapped.{
  owned_by, InOneRole, is_free, owned_by-select, owned_by-append, owned_by-same,
}

-- In the session and in what is committed.
abbrev pub RolesAreDisjoint : Session → Type 0
RolesAreDisjoint s = InOneRole s.db.business_role_items × InOneRole s.saved.business_role_items

abbrev pub HasItems : List Item → Session → Type 0
HasItems rows s = s.db.business_role_items ≡ rows

-- The validation only reads.
module _ {P : Session → Type 0} where
  resolve-reads : (t : ResourceType) (r : ℕ) → Preserves P (resolve_target t r)
  unfolding resolve_target
  resolve-reads t r = search preserving_rules

  check-reads : (i : ItemCreate) → Preserves P (check_item_role i)
  unfolding check_item_role
  check-reads i = search preserving_rules depth 12

  pub validate_role_items-reads :
      (key : Option ℕ) (seen items : List ItemCreate)
      → Preserves P (validate_role_items key seen items)
  unfolding validate_role_items
  validate_role_items-reads key seen [] = Preserves-pure tt
  validate_role_items-reads key seen (i ∷ is) = Preserves-bind _ _ (search preserving_rules) λ _.
      Preserves-bind _ _ (resolve-reads i.resource_type i.resource_id) λ _.
        Preserves-bind _ _ (check-reads i) λ _.
          Preserves-bind _ _ (search preserving_rules) λ existing.
            Preserves-bind _ _ (search preserving_rules)
              λ _. validate_role_items-reads key (i ∷ seen) is

-- It tells that what it was asked for was free.
module _ (rows : List Item) where
  pub validate_role_items-ok :
      (key : Option ℕ) (seen items : List ItemCreate) (s : Session)
      → HasItems rows s
      → (validate_role_items key seen items s).0 ≡ ok tt
      → all (is_free key rows) items ≡ true
  unfolding validate_role_items
  validate_role_items-ok key seen [] s same h = refl
  validate_role_items-ok key seen (i ∷ is) s same h =
      let (_, h1) = raise_if-ok _ _ _ s tt h in
      let (_, _, h2) = bind-ok (resolve_target i.resource_type i.resource_id) _ s tt h1 in
      let t = (resolve_target i.resource_type i.resource_id s).1 in
      let same_t = (resolve-reads {P = HasItems rows} i.resource_type i.resource_id).at s same in
      let (_, _, h3) = bind-ok (check_item_role i) _ t tt h2 in
      let u = (check_item_role i t).1 in
      let same_u = (check-reads {P = HasItems rows} i).at t same_t in
      let (free, h4) = raise_if-ok _ _ _ u tt (gets-ok _ _ u tt h3) in
      let rest = validate_role_items-ok key (i ∷ seen) is u same_u h4 in
      let here = ap (λ q. is_free key q i) (sym same_u) ∙ ap not free in ground (arith, here, rest)

module _ {P : Session → Type 0} {A : Type 0} where
  -- What a check that returned has made sure of is known behind it.
  pub checked :
      (post : Session → Type 0) (m : M (Unit {0})) (f : Unit {0} → M A)
      → Preserves P m
      → ((s : Session) → P s → (m s).0 ≡ ok tt → post (m s).1)
      → From post P (f tt)
      → Preserves P (m >>= f)
  unfolding ◌>>=◌
  checked post m f km sure kf = record { at = λ s h. after (m s).0 (m s).1 (sure s h) (km.at s h) }
    where
      after :
          (r : Result (Unit {0})) (t : Session)
          → (r ≡ ok tt → post t)
          → P t
          → P (◌>>=◌ (λ s'. (r, t)) f t).1
      after (ok tt) t known h = kf.at t (known refl) h
      after (raised e) t known h = h
      after crashed t known h = h

-- The entitlements may be mapped to this role.
abbrev pub Allowed : ℕ → List ItemCreate → Session → Type 0
Allowed key items s = all (λ e. owned_by e key s.db.business_role_items) items ≡ true

abbrev row_of : ℕ → ℕ → ItemCreate → Item
row_of id key x = record {
  id = id;
  owner_id = key;
  resource_type = x.resource_type;
  resource_id = x.resource_id;
  app_role = x.app_role;
}

module _ (key : ℕ) where
  append-InOneRole :
      (id : ℕ) (x : ItemCreate) (rows : List Item)
      → owned_by x key rows ≡ true
      → InOneRole rows
      → InOneRole (rows ++ row_of id key x ∷ [])
  append-InOneRole id x rows free one e = elim (Bool-cases (is_entitlement e (row_of id key x))) [
    | inl hit ↦
        let held = owned_by-same e x key rows (ground arith) (ground arith) (ground arith) free in
        (key, owned_by-append e key rows (row_of id key x) held (ground arith))
    | inr miss ↦
        let (k, held) = one e in (k, owned_by-append e k rows (row_of id key x) held (ground arith))
  ]

  append-Allowed :
      (id : ℕ) (x : ItemCreate) (rows : List Item) (items : List ItemCreate)
      → all (λ e. owned_by e key rows) items ≡ true
      → all (λ e. owned_by e key (rows ++ row_of id key x ∷ [])) items ≡ true
  append-Allowed id x rows [] h = refl
  append-Allowed id x rows (e ∷ es) h =
      ground (arith, append-Allowed id x rows es, owned_by-append e key rows (row_of id key x))

  select-Allowed :
      (p : Item → Bool) (rows : List Item) (items : List ItemCreate)
      → all (λ e. owned_by e key rows) items ≡ true
      → all (λ e. owned_by e key (select p rows)) items ≡ true
  select-Allowed p rows [] h = refl
  select-Allowed p rows (e ∷ es) h =
      ground (arith, select-Allowed p rows es, owned_by-select e key p rows)

  pub remove-Disjoint :
      (items : List ItemCreate)
      → Preserves (λ s. Allowed key items s × RolesAreDisjoint s) (remove_role_items key)
  unfolding remove_role_items modify
  remove-Disjoint items = record {
    at = λ s (allowed, (one, saved)).
        let others = λ (i : Item). not (i.owner_id == key) in
        let rows = s.db.business_role_items in
        (
          select-Allowed others rows items allowed,
          (λ e. let (k, held) = one e in (k, owned_by-select e k others rows held), saved),
        );
  }

  weaken :
      {m : M (Unit {0})} (x : ItemCreate) (xs : List ItemCreate)
      → From (Allowed key xs) RolesAreDisjoint m
      → From (Allowed key (x ∷ xs)) RolesAreDisjoint m
  weaken x xs k = record { at = λ s allowed h. k.at s (ground arith) h }

  pub add-Disjoint :
      (items : List ItemCreate)
      → From (Allowed key items) RolesAreDisjoint (add_role_items key items)
  unfolding add_role_items for_each fresh_id modify ◌>>=◌
  add-Disjoint [] = From-Preserves (Preserves-pure tt)
  add-Disjoint (x ∷ xs) = From-bind _ _ step λ _. weaken x xs (add-Disjoint xs)
    where
      step :
          Preserves
            (λ s. Allowed key (x ∷ xs) s × RolesAreDisjoint s)
            (fresh_id >>= λ id. modify λ db. record db {
              business_role_items = db.business_role_items ++ row_of id key x ∷ [];
            })
      step = record {
        at = λ s (allowed, (one, saved)).
            let id = s.db.next_id in
            let rows = s.db.business_role_items in
            let free : owned_by x key rows ≡ true = ground arith in
            (
              append-Allowed id x rows (x ∷ xs) allowed,
              (append-InOneRole id x rows free one, saved),
            );
      }
