-- ===== src/Assignments/Conflicts.antt =====
-- Separation of Duties at the creation of an assignment (backend/app/services/assignments.py).
use mathlib.Core.Path.{subst}
use access_piliot.Prelude.{
  ℕ, ◌≡◌, refl, ap, ◌∙◌, Bool, true, false, not, ◌&&◌, Option, none, some, List, [], ◌∷◌, ◌||◌,
  arith, if◌then◌else◌,
}
use access_piliot.Store.{
  Session, Assignment, gets-ok, or_raise-ok, raise_if-ok, SodPolicy, ok, sod_conflict, M, ◌>>=◌,
  ◌>>◌, pure, raise, modify, commit, record_audit, assignment_create_blocked, bind-ok,
}
use access_piliot.Sod.{check_sod_conflicts, non_empty}
use access_piliot.Target.{internal_user_id}
use access_piliot.Workflows.Outcomes.{Handlers}
use access_piliot.Assignments.Create.{AssignmentCreate, Provenance, sod_gate, create_assignment}
use access_piliot.Assignments.Reads.{
  find_workflow-reads, known_user-reads, resolve_target-reads, check_app_role-reads,
}

abbrev check_for : AssignmentCreate → M (List SodPolicy)
check_for body = check_sod_conflicts body.user_id body.resource_type body.resource_id body.app_role

abbrev block : ℕ → Option ℕ → M (Unit {0})
block provider requested_by = do
  record_audit assignment_create_blocked none (some provider) requested_by false
  commit
  raise sod_conflict

passed-is-free :
    (provider : ℕ) (requested_by : Option ℕ) (b : Bool) (t : Session) (u : Unit {0})
    → ((if b then block provider requested_by else pure tt) t).0 ≡ ok u
    → b ≡ false
unfolding record_audit commit modify raise ◌>>=◌
passed-is-free provider requested_by true t u h = ground arith
passed-is-free provider requested_by false t u h = refl

module _ (body : AssignmentCreate) (provider : ℕ) (requested_by : Option ℕ) (s : Session) where
  -- A creation passes the gate only if the check found no conflict or the request overrides it.
  sod_gate-ok :
      (u : Unit {0})
      → (sod_gate body provider requested_by true s).0 ≡ ok u
      → (conflicts : List SodPolicy) × ((check_sod_conflicts body.user_id body.resource_type
            body.resource_id body.app_role s).0
          ≡ ok conflicts)
        × ((non_empty conflicts && not body.override_sod) ≡ false)
  unfolding sod_gate
  sod_gate-ok u passed =
      let (conflicts, found, rest) = bind-ok _ _ s u passed in
      (conflicts, found, passed-is-free provider requested_by _ _ u rest)

-- Code that only reads has run, and what follows it has returned.
after-reads :
    {A B : Type 0} (m : M A) (f : A → M B) (s : Session) (b : B)
    → (m s).1 ≡ s
    → ((m >>= f) s).0 ≡ ok b
    → (a : A) × ((f a s).0 ≡ ok b)
after-reads m f s b same h =
    let (a, done, rest) = bind-ok m f s b h in (a, subst (λ t. (f a t).0 ≡ ok b) same rest)

always : (b : Bool) → (b || true) ≡ true
always b = ground arith

no_conflict :
    (conflicts : List SodPolicy) (b : Bool)
    → b ≡ false
    → (non_empty conflicts && not b) ≡ false
    → conflicts ≡ []
no_conflict [] b plain free = refl
no_conflict (c ∷ cs) b plain free = ground arith

-- A creation with the check that returns an assignment, and whose request does not override a
-- conflict, found no conflict: the check, made in the state that the creation began in, answers with
-- no policy.
pub create_assignment-checked :
    (handlers : Handlers) (body : AssignmentCreate) (subject : ℕ) (tags : Provenance) (s : Session)
    (a : Assignment)
    → body.override_sod ≡ false
    → (create_assignment handlers body subject true tags s).0 ≡ ok a
    → (check_sod_conflicts body.user_id body.resource_type body.resource_id body.app_role s).0
      ≡ ok []
unfolding create_assignment
create_assignment-checked handlers body subject tags s a plain h =
    let P : Session → Type 0 = λ t. t ≡ s in
    let h1 = gets-ok _ _ s a h in
    let (user, found, h2) = or_raise-ok _ _ _ s a h1 in
    let (known, h3) = raise_if-ok _ _ _ s a h2 in
    let (target, h4) = after-reads _ _ s a ((resolve_target-reads P _ _).at s refl) h3 in
    let (u5, h5) = after-reads _ _ s a ((check_app_role-reads P body).at s refl) h4 in
    let (u6, h6) = after-reads _ _ s a ((known_user-reads P _).at s refl) h5 in
    let (u7, h7) = after-reads _ _ s a ((known_user-reads P _).at s refl) h6 in
    let (workflow, h8) = after-reads _ _ s a ((find_workflow-reads P _).at s refl) h7 in
    let h9 = gets-ok _ _ s a (gets-ok _ _ s a h8) in
    let (u10, passed, rest) = bind-ok _ _ s a h9 in
    let (conflicts, answer, free) =
      sod_gate-ok body target.provider_id (internal_user_id subject s.db) s u10 (
        subst
          (λ b. (sod_gate body target.provider_id (internal_user_id subject s.db) b s).0 ≡ ok u10)
          (always _) passed) in
    answer ∙ ap (λ ps. ok ps) (no_conflict conflicts body.override_sod plain free)
