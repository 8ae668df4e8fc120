-- ===== src/Hierarchy/Acyclic.antt =====
-- A change of manager (backend/app/services/user_hierarchy.py) leaves the chart without a cycle.
use mathlib.Core.Path.{subst}
use native.Mathlib.Nat.{add_comm}
use access_piliot.Prelude.{
  ℕ, zero, suc, ◌≡◌, ◌≢◌, refl, ◌⊎◌, inl, inr, Bool, false, Option, none, some, List, ◌==◌,
  get_row-update_row, arith, Bool-cases, Option-cases, ==_iff, ◌∙◌, sym, ap,
}
use access_piliot.Store.{
  Text, User, Session, Preserves, commit, modify, record_audit, create_notification, AuditAction,
  NotificationType, ◌>>=◌, raise_if, preserving_rules,
}
use access_piliot.Hierarchy.{
  manager_of, would_create_cycle, set_manager, set_category, assign_manager, change_category,
  change_manager, notify_change, update_user_hierarchy, HierarchyUpdate,
}
use access_piliot.Hierarchy.Chains.{climb, climb-none, climb-add, IsAcyclic}
use access_piliot.Hierarchy.Walk.{not-above_of_false}

manager_of-set_manager :
    (users : List User) (u x : ℕ) (m : Option ℕ)
    → (u == x) ≡ false
    → manager_of (set_manager u m users) x ≡ manager_of users x
unfolding manager_of
manager_of-set_manager users u x m other = ground (
  arith,
  get_row-update_row (λ (r : User). r.id) u x (λ r. record r { manager_id = m }) users (λ r. refl),
)

manager_of-set_manager_self :
    (users : List User) (u : ℕ) (m : Option ℕ)
    → (manager_of (set_manager u m users) u ≡ none) ⊎ (manager_of (set_manager u m users) u ≡ m)
unfolding manager_of
manager_of-set_manager_self users u m = ground (
  arith,
  get_row-update_row (λ (r : User). r.id) u u (λ r. record r { manager_id = m }) users (λ r. refl),
)

module _ (users : List User) (u : ℕ) (m : Option ℕ) where
  -- A chain that does not meet the user is as it was.
  climb-set_manager :
      (n : ℕ) (o : Option ℕ)
      → ((k : ℕ) → climb users k o ≢ some u)
      → climb (set_manager u m users) n o ≡ climb users n o
  climb-set_manager zero o avoids = refl
  climb-set_manager (suc n) none avoids = climb-set_manager n none avoids
  climb-set_manager (suc n) (some x) avoids =
      rw (manager_of-set_manager users u x m (ground (arith, avoids 0)))
        (climb-set_manager n (manager_of users x) (λ k. avoids (suc k)))

  -- A chain is as it was, or has met the user on its way.
  same_or_met :
      (n : ℕ) (o : Option ℕ)
      → (climb (set_manager u m users) n o ≡ climb users n o)
        ⊎ ((i : ℕ) × (climb (set_manager u m users) i o ≡ some u))
  same_or_met zero o = inl refl
  same_or_met (suc n) none = inl (climb-none _ n ∙ sym (climb-none users n))
  same_or_met (suc n) (some x) = elim (Bool-cases (u == x)) [
    | inl same ↦ inr (0, ap some (sym ((==_iff u x).0 same)))
    | inr other ↦ elim (same_or_met n (manager_of users x)) [
      | inl as_was ↦ inl (rw (manager_of-set_manager users u x m other) as_was)
      | inr (i, met) ↦ inr (suc i, rw (manager_of-set_manager users u x m other) met)
    ]
  ]

  -- Nobody comes to stand above themselves if the user is not above the new manager.
  set_manager-IsAcyclic :
      ((k : ℕ) → climb users k m ≢ some u) → IsAcyclic users → IsAcyclic (set_manager u m users)
  set_manager-IsAcyclic avoids acyclic n x loop = elim (same_or_met (suc n) (some x)) [
    | inl as_was ↦ acyclic n x (sym as_was ∙ loop)
    | inr (i, met) ↦ from_user (around i met)
  ]
    where
      after : List User
      after = set_manager u m users

      from_user : climb after (suc n) (some u) ≡ some u → ⊥
      from_user e = elim (manager_of-set_manager_self users u m) [
        | inl top ↦ cc (climb-none after n, rw top at e)
        | inr up ↦ avoids n (sym (climb-set_manager n m avoids) ∙ (rw up at e))
      ]

      around : (i : ℕ) → climb after i (some x) ≡ some u → climb after (suc n) (some u) ≡ some u
      around i met =
          ap (climb after (suc n)) (sym met)
          ∙ sym (climb-add after i (suc n) (some x))
          ∙ ap (λ t. climb after t (some x)) (add_comm i (suc n))
          ∙ climb-add after (suc n) i (some x)
          ∙ ap (climb after i) loop
          ∙ met

manager_of-set_category :
    (users : List User) (u x : ℕ) (c : Option Text)
    → manager_of (set_category u c users) x ≡ manager_of users x
unfolding manager_of
manager_of-set_category users u x c = ground (
  arith,
  get_row-update_row (λ (r : User). r.id) u x (λ r. record r { employee_category = c }) users
      (λ r. refl),
)

climb-set_category :
    (users : List User) (u : ℕ) (c : Option Text) (n : ℕ) (o : Option ℕ)
    → climb (set_category u c users) n o ≡ climb users n o
climb-set_category users u c zero o = refl
climb-set_category users u c (suc n) none = climb-set_category users u c n none
climb-set_category users u c (suc n) (some x) =
    rw (manager_of-set_category users u x c) (climb-set_category users u c n (manager_of users x))

-- Both what the session sees and what it has committed are without a cycle.
abbrev pub ChartIsAcyclic : Session → Type 0
ChartIsAcyclic s = IsAcyclic s.db.users × IsAcyclic s.saved.users

commit-Preserves : Preserves ChartIsAcyclic commit
unfolding commit
commit-Preserves = record { at = λ s h. (h.0, h.0) }

record_audit-Preserves :
    (a : AuditAction) (t p r : Option ℕ) (ok : Bool)
    → Preserves ChartIsAcyclic (record_audit a t p r ok)
unfolding record_audit modify
record_audit-Preserves a t p r ok = record { at = λ s h. h }

notification-Preserves :
    (u : ℕ) (k : NotificationType) → Preserves ChartIsAcyclic (create_notification u k)
unfolding create_notification modify
notification-Preserves u k = record { at = λ s h. h }

category-Preserves :
    (u : ℕ) (c : Option Text)
    → Preserves ChartIsAcyclic (modify (λ db. record db { users = set_category u c db.users }))
unfolding modify
category-Preserves u c = record {
  at = λ s h.
      (λ n i loop. h.0 n i (sym (climb-set_category s.db.users u c (suc n) (some i)) ∙ loop), h.1);
}

clear-Preserves :
    (u : ℕ)
    → Preserves ChartIsAcyclic (modify (λ db. record db { users = set_manager u none db.users }))
unfolding modify
clear-Preserves u = record {
  at = λ s h.
      (set_manager-IsAcyclic s.db.users u none (λ k e. cc (climb-none s.db.users k)) h.0, h.1);
}

-- The manager is set only after the walk answered false.
assign_manager-cases :
    (u m : ℕ) (s : Session)
    → ((assign_manager u m s).1 ≡ s)
      ⊎ ((would_create_cycle s.db.users u m ≡ some false)
          × ((assign_manager u m s).1
              ≡ record s { db = record s.db { users = set_manager u (some m) s.db.users } }))
unfolding assign_manager modify ◌>>=◌ raise_if
assign_manager-cases u m s = ground arith

assign-Preserves : (u m : ℕ) → Preserves ChartIsAcyclic (assign_manager u m)
assign-Preserves u m = record {
  at = λ s h. elim (assign_manager-cases u m s) [
    | inl same ↦ subst ChartIsAcyclic (sym same) h
    | inr (false_answer, set) ↦ subst ChartIsAcyclic (sym set) (
      set_manager-IsAcyclic s.db.users u (some m) (not-above_of_false s.db.users u m false_answer)
          h.0,
      h.1,
    )
  ];
}

change_category-Preserves :
    (u : ℕ) (body : HierarchyUpdate) → Preserves ChartIsAcyclic (change_category u body)
unfolding change_category
change_category-Preserves u body = elim (Option-cases body.employee_category) [
  | inl same ↦ rw same (search (preserving_rules, category-Preserves))
  | inr (c, given) ↦ rw given (search (preserving_rules, category-Preserves))
]

change_manager-Preserves :
    (u : ℕ) (body : HierarchyUpdate) → Preserves ChartIsAcyclic (change_manager u body)
unfolding change_manager
change_manager-Preserves u body = elim (Option-cases body.manager_id) [
  | inl same ↦ rw same (search (preserving_rules, clear-Preserves))
  | inr (c, given) ↦ rw given (search (preserving_rules, clear-Preserves, assign-Preserves))
]

notify_change-Preserves :
    (u : ℕ) (new old : Option ℕ) → Preserves ChartIsAcyclic (notify_change u new old)
unfolding notify_change
notify_change-Preserves u new old =
    search (preserving_rules, commit-Preserves, notification-Preserves)

-- From a chart in which nobody stands above themselves, every update of a person's place in it, also
-- one that is refused, leads to such a chart, in the session and in what is committed.
pub update_user_hierarchy-IsAcyclic :
    (user_id : ℕ) (body : HierarchyUpdate) (actor : Option ℕ) (s : Session)
    → ChartIsAcyclic s
    → ChartIsAcyclic (update_user_hierarchy user_id body actor s).1
update_user_hierarchy-IsAcyclic user_id body actor s h = whole.at s h
  where
    whole : Preserves ChartIsAcyclic (update_user_hierarchy user_id body actor)
    whole =
        unfold update_user_hierarchy in
        search
          (
            preserving_rules, change_category-Preserves, change_manager-Preserves,
            notify_change-Preserves, record_audit-Preserves, commit-Preserves,
          )
          depth 20
