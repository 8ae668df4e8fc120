-- ===== src/Sod/Promise.antt =====
-- The preventive check as a whole against its specification (`check_sod_conflicts` of
-- backend/app/services/sod.py).
use access_piliot.Prelude.{
  ℕ, ◌≡◌, refl, sym, ap, ◌∙◌, Bool, true, false, ◌&&◌, ◌||◌, Option, none, some, List, [], ◌∷◌,
  ◌==◌, any, select, is_some, same_id, leb, ◌+◌, inl, inr, Bool-cases, if◌then◌else◌, arith,
}
use access_piliot.Store.{
  Session, AuditAction, User, group, Side, SodPolicy, SodSettings, ResourceType, role, application,
  ok, then_, pure, gets,
}
use access_piliot.Target.{user_by, find_target}
use access_piliot.Accounts.{provider_by}
use access_piliot.Sod.Holdings.{
  Entitlement, is_live, names, holds, of_kind, direct, entitlement_of, group_entitlement, tracked,
  memberships, add_live, resolve_user_holdings,
}
use access_piliot.Sod.Checks.{
  non_empty, is_removal, hours, opposite, entities_of, side_of_new, side_entitlements, is_enabled,
  holds_or_held, check_side, check_policy, check_policies, check_sod_conflicts, settings_or_default,
  get_sod_notification_settings,
}
use access_piliot.Sod.Specification.{has_live, is_held, in_conflict, targets_exist}
use access_piliot.Sod.Agreement.{is_opposed, conflicts_on, in_conflict-agrees}
use access_piliot.Sod.Refinement.{
  directly, directly_held, direct-yields, add_holdings-yields, all-select, non_empty-add_live,
  non_empty-map-select, any-false, no_direct,
}

-- What a read of a person's holdings answers.
abbrev Answers : ℕ → List Entitlement → Session → Type 0
Answers user ts s =
    (es : List Entitlement) × (resolve_user_holdings user ts s ≡ (ok es, s))
    × (non_empty es ≡ is_held user ts s)

and_false : (a b : Bool) → (a && b && false) ≡ false
and_false a b = ground arith

nothing_held : (user : ℕ) (s : Session) → is_held user [] s ≡ false
nothing_held user s = ground (
  arith,
  any-false _ s.db.assignments (λ a. and_false (a.user_id == user) (is_live a.status)),
  any-false _ s.db.user_groups (λ m. and_false true (m.user_id == user)),
  no_direct [] s (user_by user s.db) refl refl,
)

abbrev asks_directory : List Entitlement → Bool
asks_directory ts = of_kind role ts || of_kind application ts

-- The read of the directory, if one is made.
last-yields :
    (ts seen : List Entitlement) (s : Session) (o : Option User)
    → (es : List Entitlement) × ((if asks_directory ts then direct ts seen o else pure seen) s
        ≡ (ok es, s))
      × (non_empty es ≡ (non_empty seen || has_live ts s o))
last-yields ts seen s o = elim (Bool-cases (asks_directory ts)) [
  | inl asks ↦ rw asks (asked o)
  | inr none_asked ↦ rw none_asked (
    seen,
    unfold pure in refl,
    ground (arith, no_direct ts s o (ground (arith, none_asked)) (ground (arith, none_asked))),
  )
]
  where
    asked :
        (p : Option User)
        → (es : List Entitlement) × (direct ts seen p s ≡ (ok es, s))
          × (non_empty es ≡ (non_empty seen || has_live ts s p))
    asked none = (seen, unfold direct pure in refl, ground arith)
    asked (some u) =
        let o' = provider_by u.provider_id s.db in
        (directly ts seen s u o', direct-yields ts seen s u, directly_held ts seen s u o')

holdings-yields :
    (user : ℕ) (ts : List Entitlement) (s : Session) → targets_exist s.db ≡ true → Answers user ts s
unfolding resolve_user_holdings gets
holdings-yields user [] s h = ([], unfold pure in refl, sym (nothing_held user s))
holdings-yields user (t ∷ ts) s h =
    let rows = tracked user (t ∷ ts) s.db in
    let joined = memberships user (t ∷ ts) s.db in
    let held = add_live rows [] in
    let seen = add_live joined held in
    let (es, ends, any_held) = last-yields (t ∷ ts) seen s (user_by user s.db) in
    let rows_there =
      all-select (λ a. (a.user_id == user) && is_live a.status && holds (entitlement_of a) (t ∷ ts))
        (λ a. is_some (find_target a.resource_type a.resource_id s.db)) entitlement_of s.db
        s.db.assignments (λ a there. there) (ground arith) in
    let joined_there =
      all-select (λ m. (m.user_id == user) && names group m.group_id (t ∷ ts))
        (λ m. is_some (find_target group m.group_id s.db)) group_entitlement s.db s.db.user_groups
        (λ m there. there) (ground arith) in
    (
      es,
      then_ _ _ s _ _ refl (
          then_ _ _ s _ _ (add_holdings-yields rows [] s rows_there) (
            then_ _ _ s _ _ refl (
              then_ _ _ s _ _ (add_holdings-yields joined held s joined_there)
                (then_ _ _ s _ _ refl ends)))),
      any_held
          ∙ ground (
            arith,
            non_empty-add_live joined held,
            non_empty-add_live rows [],
            non_empty-map-select entitlement_of
                (λ a. (a.user_id == user) && is_live a.status && holds (entitlement_of a) (t ∷ ts))
                s.db.assignments,
            non_empty-map-select group_entitlement
                (λ m. (m.user_id == user) && names group m.group_id (t ∷ ts)) s.db.user_groups,
          ),
    )

module _ (c : SodSettings) (user : ℕ) (s : Session) (there : targets_exist s.db ≡ true) where
  holds_or_held-yields :
      (ts : List Entitlement) → holds_or_held c user ts s ≡ (ok (is_opposed c user ts s), s)
  unfolding holds_or_held gets
  holds_or_held-yields ts =
      let (es, read, held) = holdings-yields user ts s there in
      then_ _ _ s _ _ read (then_ _ _ s _ _ refl (rw held (unfold pure in refl)))

  -- With nothing on the other side there is no conflict.
  not_opposed : is_opposed c user [] s ≡ false
  not_opposed = ground (
    arith,
    nothing_held user s,
    any-false _ s.db.audit
        (λ e. no_entry e.action (leb s.now (e.timestamp + hours c.cooldown_hours)) e.target_id),
  )
    where
      no_entry :
          (action : AuditAction) (late : Bool) (target : Option ℕ)
          → (is_removal action
              && late
              && any
                  (λ a.
                    same_id target (some a.id)
                    && (a.user_id == user)
                    && holds (entitlement_of a) [])
                  s.db.assignments)
            ≡ false
      no_entry action late target = ground (
        arith,
        any-false _ s.db.assignments
            (λ a. and_false (same_id target (some a.id)) (a.user_id == user)),
      )

  met-yields :
      (ts : List Entitlement)
      → (if non_empty ts then holds_or_held c user ts else pure false) s
        ≡ (ok (is_opposed c user ts s), s)
  met-yields [] = rw not_opposed (unfold pure in refl)
  met-yields (t ∷ ts) = holds_or_held-yields (t ∷ ts)

  check_side-yields :
      (p : SodPolicy) (side : Option Side)
      → check_side c user p (entities_of p.id s.db) side s ≡ (ok (conflicts_on c user p s side), s)
  unfolding check_side gets pure
  check_side-yields p none = refl
  check_side-yields p (some side) =
      let ts = side_entitlements s.db (opposite side) (entities_of p.id s.db) in
      then_ _ _ s _ _ refl (then_ _ _ s _ _ (met-yields ts) (then_ _ _ s _ _ refl refl))

  module _ (target : Entitlement) where
    check_policy-yields :
        (p : SodPolicy)
        → check_policy c user target p s
          ≡ (ok (conflicts_on c user p s (side_of_new s.db target (entities_of p.id s.db))), s)
    unfolding check_policy gets
    check_policy-yields p = then_ _ _ s _ _ refl (then_ _ _ s _ _ refl (check_side-yields p _))

    check_policies-yields :
        (ps : List SodPolicy)
        → check_policies c user target ps s ≡ (
          ok (
              select
                (λ p. conflicts_on c user p s (side_of_new s.db target (entities_of p.id s.db)))
                ps),
          s,
        )
    unfolding check_policies pure
    check_policies-yields [] = refl
    check_policies-yields (p ∷ ps) =
        then_ _ _ s _ _ (check_policy-yields p) (then_ _ _ s _ _ (check_policies-yields ps) refl)

module _ (c : SodSettings) (user : ℕ) (target : Entitlement) (s : Session) where
  abbrev stops : SodPolicy → Bool
  stops p = conflicts_on c user p s (side_of_new s.db target (entities_of p.id s.db))

  enabled-in_conflict :
      (ps : List SodPolicy)
      → select stops (select (λ p. is_enabled p.status) ps)
        ≡ select (in_conflict c user target s) ps
  enabled-in_conflict [] = refl
  enabled-in_conflict (p ∷ ps) =
      ground (arith, in_conflict-agrees c user target s p, enabled-in_conflict ps)

-- Let the settings be stored, and the target of every assignment and membership be there. The check
-- then returns, and changes nothing: its answer is the policies, in the order of the table, that are
-- enabled, of whose one side the target is, and of whose other side the person holds something by an
-- assignment, a membership or the directory, or, where a cooldown is set, has an assignment to
-- something of which the audit log has a deactivation or revocation within the cooldown, whether or not
-- it was ever active; and where the person has no exception that is in force.
pub check_sod_conflicts-in_conflict :
    (user : ℕ) (kind : ResourceType) (resource : ℕ) (app_role : Option ℕ) (c : SodSettings)
    (s : Session)
    → s.db.sod_settings ≡ some c
    → targets_exist s.db ≡ true
    → check_sod_conflicts user kind resource app_role s ≡ (
      ok (
          select
            (in_conflict c user
              (record { kind = kind; resource = resource; app_role = app_role })
              s)
            s.db.sod_policies),
      s,
    )
unfolding check_sod_conflicts get_sod_notification_settings gets
check_sod_conflicts-in_conflict user kind resource app_role c s stored there =
    let target : Entitlement = record { kind = kind; resource = resource; app_role = app_role } in
    then_ _ _ s c _ (then_ _ _ s _ _ refl (rw stored (unfold settings_or_default pure in refl))) (
      then_ _ _ s _ _ refl (
        check_policies-yields c user s there target _
        ∙ ap (λ ps. (ok ps, s)) (enabled-in_conflict c user target s s.db.sod_policies)))
