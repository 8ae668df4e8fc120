-- ===== src/Birthright/Additions.antt =====
-- The evaluation of birthright policies only adds rows, where it does not activate them at once
-- (backend/app/services/birthright.py, `create_assignment` of backend/app/services/assignments.py).
use access_piliot.Prelude.{
  ℕ, refl, Bool, true, false, Option, none, some, List, [], ◌∷◌, get_row-append,
}
use access_piliot.Store.{
  Session, Assignment, User, ResourceType, group, role, application, access_package, business_role,
  AssignmentType, Status, BirthrightPolicy, BusinessRole, ActionSpec, Item, Preserves, M, ◌>>=◌,
  pure, eligible, Resource, gets, record_audit, assignment_created, commit, ◌>>◌, Preserves-bind,
  Preserves-raise_if, Preserves-or_raise, Preserves-if, Preserves-gets, Preserves-pure,
  preserving_rules, modify,
}
use access_piliot.Target.{internal_user_id, get_assignment}
use access_piliot.Workflows.Outcomes.{Handlers}
use access_piliot.Assignments.Create.{
  AssignmentCreate, Provenance, known_user, check_app_role, find_workflow, initial_status, sod_gate,
  insert_assignment, route, announce, notify_approver, create_assignment,
}
use access_piliot.Assignments.Mappings.{body_for, Target}
use access_piliot.Lifecycle.Quiet.{
  Same, quiet_rules, resolve_target-quiet, fresh_id-quiet, commit-quiet, modify-quiet,
}
use access_piliot.Lifecycle.Effects.{check_sod_conflicts-quiet}
use access_piliot.Lifecycle.Retained.{InRows, InRows-quiet, Kept}
use access_piliot.Birthright.Evaluate.{
  link_package, grant_birthright_target, grant_package_items, grant_role_items, grant_business_role,
  grant_single, grant_action_as, grant_actions, grant_specs, grant_policies,
  evaluate_birthright_policies,
}

module _ (x y : List Assignment) where
  known_user-quiet : (o : Option ℕ) → Preserves (Same x y) (known_user o)
  unfolding known_user
  known_user-quiet none = search quiet_rules
  known_user-quiet (some key) = search quiet_rules

  check_app_role-quiet : (body : AssignmentCreate) → Preserves (Same x y) (check_app_role body)
  unfolding check_app_role
  check_app_role-quiet body = search quiet_rules

  sod_gate-quiet :
      (body : AssignmentCreate) (provider : ℕ) (by : Option ℕ) (checks : Bool)
      → Preserves (Same x y) (sod_gate body provider by checks)
  unfolding sod_gate
  sod_gate-quiet body provider by checks = search (quiet_rules, check_sod_conflicts-quiet) depth 12

  notify_approver-quiet : (o : Option ℕ) → Preserves (Same x y) (notify_approver o)
  notify_approver-quiet none = search quiet_rules
  notify_approver-quiet (some u) = search quiet_rules

  announce-quiet :
      (body : AssignmentCreate) (by : Option ℕ) (asks : Bool)
      → Preserves (Same x y) (announce body by asks)
  unfolding announce
  announce-quiet body by asks = search (quiet_rules, notify_approver-quiet)

pure-bind :
    {P : Session → Type 0} {A B : Type 0} (a : A) (f : A → M B)
    → Preserves P (f a)
    → Preserves P (pure a >>= f)
unfolding ◌>>=◌ pure
pure-bind a f k = k

module _ (key : ℕ) (a : Assignment) where
  abbrev P : Session → Type 0
  P = InRows (Kept key a)

  insert_assignment-Kept :
      (body : AssignmentCreate) (tags : Provenance) (provider : ℕ) (by : Option ℕ) (asks : Bool)
      (status : Status)
      → Preserves P (insert_assignment body tags provider by asks status)
  unfolding insert_assignment modify
  insert_assignment-Kept body tags provider by asks status =
      Preserves-bind _ _ (Preserves-gets _) λ now.
        Preserves-bind _ _ (InRows-quiet _ _ fresh_id-quiet) λ k.
          Preserves-bind _ _
            (record {
              at = λ s h.
                  (get_row-append (λ (r : Assignment). r.id) key s.db.assignments _ a h.0, h.1);
            })
            λ written. Preserves-pure _

  created-Kept :
      (handlers : Handlers) (user : ℕ) (kind : ResourceType) (resource : ℕ) (app_role : Option ℕ)
      (lasting : AssignmentType) (subject : ℕ) (tags : Provenance) (person : User)
      (target : Resource)
      → Preserves P (do
        requested_by ← gets (λ s. internal_user_id subject s.db)
        now ← gets (λ s. s.now)
        let body = body_for user kind resource app_role lasting false
        sod_gate body target.provider_id requested_by false
        b ← insert_assignment body tags target.provider_id requested_by false eligible
        pure tt
        pure tt
        record_audit assignment_created (some b.id) (some target.provider_id) requested_by true
        announce body requested_by false
        commit
        get_assignment b.id)
  created-Kept handlers user kind resource app_role lasting subject tags person target =
      let body = body_for user kind resource app_role lasting false in
      Preserves-bind _ _ (Preserves-gets _) λ by. Preserves-bind _ _ (Preserves-gets _) λ now.
        Preserves-bind _ _
          (InRows-quiet _ _ (λ x y. sod_gate-quiet x y body target.provider_id by false))
          λ passed.
            Preserves-bind _ _
              (insert_assignment-Kept body tags target.provider_id by false eligible)
              λ b. InRows-quiet _ _ (λ x y. search (quiet_rules, announce-quiet) depth 14)

  create_assignment-Kept :
      (handlers : Handlers) (user : ℕ) (kind : ResourceType) (resource : ℕ) (app_role : Option ℕ)
      (lasting : AssignmentType) (subject : ℕ) (tags : Provenance)
      → Preserves P (
          create_assignment handlers
            (body_for user kind resource app_role lasting false)
            subject
            false
            tags)
  unfolding create_assignment find_workflow initial_status route
  create_assignment-Kept handlers user kind resource app_role lasting subject tags =
      let body = body_for user kind resource app_role lasting false in
      Preserves-bind _ _ (Preserves-gets _) λ found.
        Preserves-bind _ _ (Preserves-or_raise _ _) λ person.
          Preserves-bind _ _ (Preserves-raise_if _ _) λ linked.
            Preserves-bind _ _ (InRows-quiet _ _ (λ x y. resolve_target-quiet x y kind resource))
              λ target.
                Preserves-bind _ _ (InRows-quiet _ _ (λ x y. check_app_role-quiet x y body))
                  λ checked.
                    Preserves-bind _ _ (InRows-quiet _ _ (λ x y. known_user-quiet x y none))
                      λ known.
                        Preserves-bind _ _ (InRows-quiet _ _ (λ x y. known_user-quiet x y none))
                          λ fallback. pure-bind _ _ (
                            created-Kept handlers user kind resource app_role lasting subject tags
                              person target)

  -- The evaluation, begun without a bypass, leaves every row as it is.
  module _ (handlers : Handlers) (user subject : ℕ) where
    target-Kept :
        (lasting : AssignmentType) (tags : Provenance) (t : Target)
        → Preserves P (grant_birthright_target handlers user subject false lasting tags t)
    unfolding grant_birthright_target
    target-Kept lasting tags t = search (preserving_rules, create_assignment-Kept) depth 12

    link_package-Kept :
        (bundle batch : ℕ) (o : Option ℕ) → Preserves P (link_package user bundle batch o)
    unfolding link_package
    link_package-Kept bundle batch none = Preserves-pure tt
    link_package-Kept bundle batch (some k) =
        InRows-quiet _ _
          (λ x y. Preserves-bind _ _ (modify-quiet x y _ (λ db. refl)) (λ linked. commit-quiet x y))

    package_items-Kept :
        (policy : ℕ) (lasting : AssignmentType) (bundle batch : ℕ) (done : List ℕ) (is : List Item)
        → Preserves P
            (grant_package_items handlers user subject false policy lasting bundle batch done is)
    unfolding grant_package_items
    package_items-Kept policy lasting bundle batch done [] = Preserves-pure done
    package_items-Kept policy lasting bundle batch done (i ∷ is) =
        Preserves-bind _ _ (target-Kept lasting _ _) λ granted.
          Preserves-bind _ _ (link_package-Kept bundle batch granted)
            λ linked. package_items-Kept policy lasting bundle batch _ is

    role_items-Kept :
        (policy : ℕ) (lasting : AssignmentType) (business batch : ℕ) (done : List ℕ)
        (is : List Item)
        → Preserves P
            (grant_role_items handlers user subject false policy lasting business batch done is)
    unfolding grant_role_items
    role_items-Kept policy lasting business batch done [] = Preserves-pure done
    role_items-Kept policy lasting business batch done (i ∷ is) =
        Preserves-bind _ _ (target-Kept lasting _ _)
          λ granted. role_items-Kept policy lasting business batch _ is

    business_role-Kept :
        (policy : ℕ) (spec : ActionSpec) (done : List ℕ) (o : Option BusinessRole)
        → Preserves P (grant_business_role handlers user subject false policy spec done o)
    unfolding grant_business_role
    business_role-Kept policy spec done none = Preserves-pure done
    business_role-Kept policy spec done (some r) =
        Preserves-if _ _ _
          (Preserves-bind _ _ (Preserves-gets _) λ items.
            Preserves-bind _ _ (InRows-quiet _ _ fresh_id-quiet)
              λ batch. role_items-Kept policy _ _ batch done items)
          (Preserves-pure done)

    single-Kept :
        (policy : ℕ) (spec : ActionSpec) (done : List ℕ)
        → Preserves P (grant_single handlers user subject false policy spec done)
    unfolding grant_single
    single-Kept policy spec done =
        Preserves-bind _ _ (target-Kept _ _ _) (λ granted. Preserves-pure _)

    action-Kept :
        (kind : ResourceType) (policy : ℕ) (spec : ActionSpec) (done : List ℕ)
        → Preserves P (grant_action_as handlers user subject false kind policy spec done)
    unfolding grant_action_as
    action-Kept access_package policy spec done = Preserves-bind _ _ (Preserves-gets _) λ items.
        Preserves-bind _ _ (InRows-quiet _ _ fresh_id-quiet)
          λ batch. package_items-Kept policy _ _ batch done items
    action-Kept business_role policy spec done =
        Preserves-bind _ _ (Preserves-gets _) (λ o. business_role-Kept policy spec done o)
    action-Kept group policy spec done = single-Kept policy spec done
    action-Kept role policy spec done = single-Kept policy spec done
    action-Kept application policy spec done = single-Kept policy spec done

    actions-Kept :
        (policy : ℕ) (done : List ℕ) (specs : List ActionSpec)
        → Preserves P (grant_actions handlers user subject false policy done specs)
    unfolding grant_actions
    actions-Kept policy done [] = Preserves-pure done
    actions-Kept policy done (spec ∷ specs) =
        Preserves-bind _ _ (action-Kept spec.resource_type policy spec done)
          λ more. actions-Kept policy more specs

    specs-Kept :
        (policy : ℕ) (done : List ℕ) (o : Option (List ActionSpec))
        → Preserves P (grant_specs handlers user subject false policy done o)
    unfolding grant_specs
    specs-Kept policy done none = search preserving_rules
    specs-Kept policy done (some specs) = actions-Kept policy done specs

    policies-Kept :
        (person : User) (done : List ℕ) (ps : List BirthrightPolicy)
        → Preserves P (grant_policies handlers user subject false person done ps)
    unfolding grant_policies
    policies-Kept person done [] = Preserves-pure done
    policies-Kept person done (p ∷ ps) =
        Preserves-if _ _ _
          (Preserves-bind _ _ (specs-Kept p.id done _) (λ more. policies-Kept person more ps))
          (policies-Kept person done ps)

    pub evaluate-Kept : Preserves P (evaluate_birthright_policies handlers user subject false)
    unfolding evaluate_birthright_policies
    evaluate-Kept = search (preserving_rules, policies-Kept) depth 12
