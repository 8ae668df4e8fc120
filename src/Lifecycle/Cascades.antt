-- ===== src/Lifecycle/Cascades.antt =====
-- A revocation with its cascade (backend/app/services/assignments.py): it leaves alone what no mapping of a
-- group delivered.
use access_piliot.Prelude.{
  ℕ, zero, suc, ◌≡◌, refl, Bool, true, false, not, ◌||◌, List, [], ◌∷◌, ◌==◌, all, select-all,
  is_some, arith,
}
use access_piliot.Store.{
  Session, Assignment, Mapping, Preserves, Preserves-bind, Preserves-raise_if, Preserves-if,
  Preserves-gets, Preserves-pure, Preserves-try_else, preserving_rules,
}
use access_piliot.Assignments.Revoke.{
  is_from, is_live, linked_for_group, revoke_one, revoke_assignment,
}
use access_piliot.Lifecycle.Quiet.{
  quiet_rules, record_audit-quiet, get_assignment-quiet, hydrate-quiet,
}
use access_piliot.Lifecycle.Decisions.{tell_user-quiet, end_access-quiet}
use access_piliot.Lifecycle.Retained.{
  InRows, InRows-quiet, Held, update_assignment-Held, Preserves-reads, for_each-all,
}

is_from-is_some :
    (source : ℕ) (ms : List Mapping) (r : Assignment)
    → is_from source ms r ≡ true
    → is_some r.group_role_mapping_id ≡ true
is_from-is_some source [] r h = ground arith
is_from-is_some source (m ∷ ms) r h = ground (arith, is_from-is_some source ms r)

apart : (t other : Bool) → t ≡ false → other || t ≡ true → other ≡ true
apart t other h k = ground arith

-- A revocation of another row, with its cascade, leaves a row that meets the test alone, where no row
-- that a mapping delivered meets the test.
module _ (test : Assignment → Bool) (key : ℕ) (a : Assignment)
    (unlinked : (r : Assignment) → is_some r.group_role_mapping_id ≡ true → test r ≡ false) where
  revoke_one-Held :
      (k subject : ℕ)
      → (k == key) ≡ false
      → Preserves (InRows (Held test key a)) (revoke_one k subject)
  unfolding revoke_one
  revoke_one-Held k subject other =
      Preserves-bind _ _ (InRows-quiet _ _ (λ x y. get_assignment-quiet x y k)) λ r.
        Preserves-bind _ _ (Preserves-raise_if _ _) λ live.
          Preserves-bind _ _ (Preserves-gets _) λ actor.
            Preserves-bind _ _ (InRows-quiet _ _ (λ x y. end_access-quiet x y r actor)) λ done.
              Preserves-bind _ _ (Preserves-gets _) λ now.
                Preserves-bind _ _ (update_assignment-Held test key a k _ other (λ r. refl))
                  λ written.
                    InRows-quiet _ _ (λ x y. search (quiet_rules, tell_user-quiet) depth 12)

  linked-others :
      (user source k : ℕ) (s : Session)
      → InRows (Held test key a) s
      → all (λ r. not (r.id == key)) (linked_for_group user source is_live s.db) ≡ true
  linked-others user source k s h =
      select-all _ (λ r. not (r.id == key) || test r) _ s.db.assignments
        (λ r met held.
          apart (test r) _
            (unlinked r (is_from-is_some source s.db.mappings r (ground (arith, met)))) held)
        h.0.1

  pub revoke_assignment-Held :
      (fuel k subject : ℕ)
      → (k == key) ≡ false
      → Preserves (InRows (Held test key a)) (revoke_assignment fuel k subject)
  unfolding revoke_assignment
  revoke_assignment-Held zero k subject other = search preserving_rules
  revoke_assignment-Held (suc fuel) k subject other =
      Preserves-bind _ _ (revoke_one-Held k subject other) λ r.
        Preserves-bind _ _ (Preserves-gets _) λ actor.
          Preserves-bind _ _
            (Preserves-if _ _ _
              (Preserves-reads (λ rows. all (λ r. not (r.id == key)) rows ≡ true) _ _
                (linked-others r.user_id r.resource_id k)
                λ rows others.
                  for_each-all (λ r. not (r.id == key)) _ rows others
                    λ l apart.
                      Preserves-try_else _ _ _
                        (revoke_assignment-Held fuel l.id subject (ground (arith, apart)))
                        (λ b. Preserves-pure tt)
                        (λ e. InRows-quiet _ _ (λ x y. record_audit-quiet x y _ _ _ _ _)))
              (Preserves-pure tt))
            λ done. Preserves-bind _ _ (InRows-quiet _ _ (λ x y. get_assignment-quiet x y k)) λ b.
              Preserves-bind _ _ (InRows-quiet _ _ (λ x y. hydrate-quiet x y b))
                λ shown. Preserves-pure b
