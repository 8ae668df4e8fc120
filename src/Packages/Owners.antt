-- ===== src/Packages/Owners.antt =====
-- What an owner can do to the items of a package (`owner_remove_item` of
-- backend/app/services/packages.py).
use access_piliot.Prelude.{
  ==_iff, ℕ, suc, ◌≡◌, ◌≤◌, refl, sym, ap, ◌∙◌, Bool, true, false, not, ◌&&◌, Option, List, [], ◌∷◌,
  ◌==◌, leb, any, select, length, arith,
}
use access_piliot.Store.{
  Session, Item, AuditAction, Preserves, From, From-bind, From-gets, From-or_raise, From-raise_if,
  From-write, preserving_rules, modify, commit, record_audit,
}
use access_piliot.Target.{resolve_target}
use access_piliot.Packages.Items.{get_package, package_items_of, package_response}
use access_piliot.Packages.Editing.{require_owner, owner_remove_item}

abbrev pub has_item : ℕ → List Item → Bool
has_item key = any (λ i. i.id == key)

-- The primary keys of the items.
abbrev pub item_keys_distinct : List Item → Bool
item_keys_distinct [] = true
item_keys_distinct (i ∷ is) = not (has_item i.id is) && item_keys_distinct is

has_item-select :
    (key : ℕ) (p : Item → Bool) (items : List Item)
    → has_item key items ≡ false
    → has_item key (select p items) ≡ false
has_item-select key p [] h = refl
has_item-select key p (i ∷ is) h = ground (arith, has_item-select key p is)

distinct-select :
    (p : Item → Bool) (items : List Item)
    → item_keys_distinct items ≡ true
    → item_keys_distinct (select p items) ≡ true
distinct-select p [] h = refl
distinct-select p (i ∷ is) h = ground (arith, has_item-select i.id p is, distinct-select p is)

-- Without the key nothing is taken out.
length-absent :
    (key : ℕ) (items : List Item)
    → has_item key items ≡ false
    → length (select (λ i. not (i.id == key)) items) ≡ length items
length-absent key [] h = refl
length-absent key (i ∷ is) h = ground (arith, length-absent key is)

-- At most one item has the key.
length-removed :
    (key : ℕ) (items : List Item)
    → item_keys_distinct items ≡ true
    → length items ≤ suc (length (select (λ i. not (i.id == key)) items))
length-removed key [] h = omega arith
length-removed key (i ∷ is) h = ground (arith, length-removed key is, ==_iff i.id key, absent)
  where
    absent :
        (i.id == key) ≡ true
        → has_item i.id is ≡ false
        → length (select (λ i. not (i.id == key)) is) ≡ length is
    absent same free =
        length-absent key is (ap (λ k. has_item k is) (sym ((==_iff i.id key).0 same)) ∙ free)

select-select :
    (p q : Item → Bool) (items : List Item) → select p (select q items) ≡ select q (select p items)
select-select p q [] = refl
select-select p q (i ∷ is) = ground (arith, select-select p q is)

abbrev HasItem : ℕ → Session → Type 0
HasItem key s = 1 ≤ length (package_items_of key s.db)

abbrev ItemsAreDistinct : Session → Type 0
ItemsAreDistinct s = item_keys_distinct s.db.package_items ≡ true

two_or_more : (items : List Item) → leb (length items) 1 ≡ false → 2 ≤ length items
two_or_more items h = ground arith

module _ (key : ℕ) where
  audit-HasItem :
      (a : AuditAction) (t p r : Option ℕ) (b : Bool)
      → Preserves (HasItem key) (record_audit a t p r b)
  unfolding record_audit modify
  audit-HasItem a t p r b = record { at = λ s h. h }

  commit-HasItem : Preserves (HasItem key) commit
  unfolding commit
  commit-HasItem = record { at = λ s h. h }

  removal-HasItem :
      (items : List Item) (item : ℕ)
      → leb (length items) 1 ≡ false
      → From
          (λ s. ItemsAreDistinct s × (package_items_of key s.db ≡ items))
          (HasItem key)
          (modify
            λ db. record db { package_items = select (λ i. not (i.id == item)) db.package_items })
  unfolding modify
  removal-HasItem items item several = record {
    at = λ s (distinct, same) h.
        let left = length-removed item items (
          ap item_keys_distinct (sym same)
          ∙ distinct-select (λ i. i.owner_id == key) s.db.package_items distinct) in
        let moved = ap length (
          select-select (λ i. i.owner_id == key) (λ i. not (i.id == item)) s.db.package_items
          ∙ ap (select (λ i. not (i.id == item))) same) in
        omega (arith, left, moved, two_or_more items several);
  }

  -- Let no two items share a key. Whatever a removal by an owner returns or raises, a package that
  -- has items keeps at least one of them.
  pub owner_remove_item-HasItem :
      (item subject : ℕ) (s : Session)
      → item_keys_distinct s.db.package_items ≡ true
      → 1 ≤ length (package_items_of key s.db)
      → 1 ≤ length (package_items_of key (owner_remove_item key item subject s).1.db)
  unfolding owner_remove_item require_owner get_package package_response resolve_target
  owner_remove_item-HasItem item subject s distinct some_item = kept.at s distinct some_item
    where
      kept : From ItemsAreDistinct (HasItem key) (owner_remove_item key item subject)
      kept = From-bind _ _ (search preserving_rules depth 12) λ (p, actor). From-gets _ _ λ items.
          From-or_raise _ _ _ λ target found. From-raise_if _ _ _ λ several.
            From-write _ _ (removal-HasItem items target.id several)
              (search (preserving_rules, audit-HasItem, commit-HasItem) depth 12)
