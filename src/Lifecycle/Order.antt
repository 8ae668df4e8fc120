-- ===== src/Lifecycle/Order.antt =====
-- Which statuses an assignment can come to, and what never changes of it: an independent description
-- of the life that backend/app/services/assignments.py gives an assignment.
use mathlib.Core.Path.{subst}
use access_piliot.Prelude.{
  inl, inr, ℕ, ◌≡◌, refl, ◌∙◌, Bool, true, false, some, List, ◌++◌, ◌==◌, get_row, update_row,
  get_row-update_row, get_row-append, arith, ==_iff, Bool-cases,
}
use access_piliot.Store.{
  Assignment, Status, pending_approval, eligible, scheduled, active, rejected, revoked, expired,
}

-- A final status is kept. A pending request may come to any status but scheduled; a scheduled grant
-- never waits for approval again and is never rejected; an eligible or active one never leaves these
-- two but for the end.
abbrev pub may_become : Status → Status → Bool
may_become pending_approval scheduled = false
may_become pending_approval _ = true
may_become scheduled pending_approval = false
may_become scheduled rejected = false
may_become scheduled _ = true
may_become eligible eligible = true
may_become eligible active = true
may_become eligible revoked = true
may_become eligible expired = true
may_become eligible _ = false
may_become active eligible = true
may_become active active = true
may_become active revoked = true
may_become active expired = true
may_become active _ = false
may_become rejected rejected = true
may_become rejected _ = false
may_become revoked revoked = true
may_become revoked _ = false
may_become expired expired = true
may_become expired _ = false

may_become_refl : (a : Status) → may_become a a ≡ true
may_become_refl pending_approval = refl
may_become_refl _ = refl

may_become_trans :
    (a b c : Status) → may_become a b ≡ true → may_become b c ≡ true → may_become a c ≡ true
may_become_trans pending_approval b c h k = ground arith
may_become_trans _ b c h k = ground arith

-- `b` is a later state of the same grant: same person, same target, a status that may follow.
pub record Succeeds (a b : Assignment) : Type 0 where
  pub user : b.user_id ≡ a.user_id
  pub provider : b.provider_id ≡ a.provider_id
  pub kind : b.resource_type ≡ a.resource_type
  pub resource : b.resource_id ≡ a.resource_id
  pub app_role : b.app_role ≡ a.app_role
  pub status : may_become a.status b.status ≡ true

pub Succeeds-refl : (a : Assignment) → Succeeds a a
Succeeds-refl a = record {
  user = refl;
  provider = refl;
  kind = refl;
  resource = refl;
  app_role = refl;
  status = may_become_refl a.status;
}

pub Succeeds-trans : {a b c : Assignment} → Succeeds a b → Succeeds b c → Succeeds a c
Succeeds-trans {a} {b} {c} h k = record {
  user = k.user ∙ h.user;
  provider = k.provider ∙ h.provider;
  kind = k.kind ∙ h.kind;
  resource = k.resource ∙ h.resource;
  app_role = k.app_role ∙ h.app_role;
  status = may_become_trans a.status b.status c.status h.status k.status;
}

-- Every row of the first database is found in the second, in a later state of its life.
pub record Follows (before after : List Assignment) : Type 0 where
  pub at :
      (key : ℕ) (a : Assignment)
      → get_row (λ r. r.id) key before ≡ some a
      → (b : Assignment) × (get_row (λ r. r.id) key after ≡ some b) × Succeeds a b

pub Follows-refl : (rows : List Assignment) → Follows rows rows
Follows-refl rows = record { at = λ key a found. (a, found, Succeeds-refl a) }

pub Follows-trans : {x y z : List Assignment} → Follows x y → Follows y z → Follows x z
Follows-trans h k = record {
  at = λ key a found.
      let (b, found_b, ab) = h.at key a found in
      let (c, found_c, bc) = k.at key b found_b in (c, found_c, Succeeds-trans ab bc);
}

pub Follows-append : (rows more : List Assignment) → Follows rows (rows ++ more)
Follows-append rows more = record {
  at = λ key a found. (a, get_row-append (λ r. r.id) key rows more a found, Succeeds-refl a);
}

-- A write to the row with this key that leads it to a later state.
pub Follows-update_row :
    (rows : List Assignment) (key : ℕ) (f : Assignment → Assignment) (a : Assignment)
    → get_row (λ r. r.id) key rows ≡ some a
    → ((r : Assignment) → (f r).id ≡ r.id)
    → Succeeds a (f a)
    → Follows rows (update_row (λ r. r.id) key f rows)
Follows-update_row rows key f a found keeps step = record {
  at = λ k b found_b.
      let written = get_row-update_row (λ (r : Assignment). r.id) key k f rows keeps in
      elim (Bool-cases (key == k)) [
        | inl same ↦
            let here : key ≡ k = (==_iff key k).0 same in
            let is_a : a ≡ b = cc (here, found, found_b) in
            (f b, written ∙ rw (same, found_b), subst (λ r. Succeeds r (f r)) is_a step)
        | inr other ↦ (b, written ∙ rw (other, found_b), Succeeds-refl b)
      ];
}
