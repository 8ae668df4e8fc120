-- ===== src/Grants/Memberships.antt =====
-- The local copy of group memberships as a set of pairs of a person and a group
-- (backend/app/services/assignments.py).
use access_piliot.Prelude.{
  ℕ, ◌≡◌, inl, inr, Bool, Bool-cases, true, false, not, ◌&&◌, List, [], ◌∷◌, ◌==◌, any, select,
  arith, if◌then◌else◌,
}
use access_piliot.Store.{Session, UserGroup, modify}
use access_piliot.Grants.{
  is_membership, record_local_group_membership, remove_local_group_membership,
}

abbrev pub is_member : ℕ → ℕ → Session → Bool
is_member user target s = any (is_membership user target) s.db.user_groups

any-removed :
    (user target v g : ℕ) (ms : List UserGroup)
    → any (is_membership v g) (select (λ m. not (is_membership user target m)) ms)
      ≡ (if (v == user) && (g == target) then false else any (is_membership v g) ms)
any-removed user target v g [] = ground arith
any-removed user target v g (m ∷ ms) = ground (arith, any-removed user target v g ms)

-- Removing a membership takes this pair out of the set, and no other.
pub remove-is_member :
    (user target v g : ℕ) (s : Session)
    → is_member v g (remove_local_group_membership user target s).1
      ≡ (if (v == user) && (g == target) then false else is_member v g s)
unfolding remove_local_group_membership modify
remove-is_member user target v g s = any-removed user target v g s.db.user_groups

any-same :
    (user target v g : ℕ) (ms : List UserGroup)
    → any (is_membership user target) ms ≡ true
    → ((v == user) && (g == target)) ≡ true
    → any (is_membership v g) ms ≡ true
any-same user target v g [] h k = ground arith
any-same user target v g (m ∷ ms) h k = ground (arith, any-same user target v g ms)

-- Recording a membership puts this pair into the set, and no other.
pub record-is_member :
    (user target v g : ℕ) (s : Session)
    → is_member v g (record_local_group_membership user target s).1
      ≡ (if (v == user) && (g == target) then true else is_member v g s)
unfolding record_local_group_membership modify
record-is_member user target v g s = elim (Bool-cases (is_member user target s)) [
  | inl there ↦ rw there (ground (arith, any-same user target v g s.db.user_groups there))
  | inr absent ↦ rw absent (ground arith)
]
