-- ===== src/Assignments/Guards.antt =====
-- What is known of a request that succeeded: who made it, and in what state the assignment was
-- (backend/app/services/assignments.py).
use mathlib.Core.Path.{subst}
use access_piliot.Prelude.{ℕ, ◌≤◌, ◌≡◌, ◌⊎◌, Bool, true, false, Option, some, arith, List}
use access_piliot.Store.{
  Session, Assignment, ActorRole, is_admin, Status, AuditAction, NotificationType, ok, bind-ok,
  or_raise-ok, raise_if-ok, raise_if, ◌>>=◌, gets, raise, pure, M,
}
use access_piliot.Target.{internal_user_id, assignment_by, get_assignment, is_in_the_future}
use access_piliot.Accounts.{provider_by}
use access_piliot.Grants.{is_active}
use access_piliot.Sod.{hours}
use access_piliot.Workflows.Outcomes.{is_pending}
use access_piliot.Assignments.Approval.{
  authorize_decision, decide, approve_assignment, reject_assignment, is_actor, is_unlocked,
}
use access_piliot.Assignments.Mappings.{is_eligible}
use access_piliot.Assignments.Activate.{
  authorize_activation, check_window, activate_one, is_past, max_hours,
}
use access_piliot.Assignments.Deactivate.{deactivate_one}

-- An administrator, the named approver, or the fallback approver once their wait is over.
abbrev pub MayDecide : Assignment → ℕ → List ActorRole → Session → Type 0
MayDecide a subject roles s =
    (is_admin roles ≡ true)
    ⊎ (is_actor (internal_user_id subject s.db) a.approved_by ≡ true)
    ⊎ ((is_actor (internal_user_id subject s.db) a.fallback_approver_id ≡ true)
        × (is_unlocked a.fallback_unlock_at s.now ≡ true))

authorize_decision-ok :
    (a : Assignment) (subject : ℕ) (roles : List ActorRole) (s : Session) (actor : Option ℕ)
    → (authorize_decision a subject roles s).0 ≡ ok actor
    → MayDecide a subject roles s
unfolding authorize_decision ◌>>=◌ gets raise pure raise_if
authorize_decision-ok a subject roles s actor h = ground arith

-- An administrator or the person whom the assignment is for.
abbrev pub MayActivate : Assignment → ℕ → List ActorRole → Session → Type 0
MayActivate a subject roles s =
    (is_admin roles ≡ true) ⊎ (is_actor (internal_user_id subject s.db) (some a.user_id) ≡ true)

authorize_activation-ok :
    (a : Assignment) (subject : ℕ) (roles : List ActorRole) (s : Session) (actor : Option ℕ)
    → (authorize_activation a subject roles s).0 ≡ ok actor
    → MayActivate a subject roles s
unfolding authorize_activation ◌>>=◌ gets raise pure
authorize_activation-ok a subject roles s actor h = ground arith

module _ {B : Type 0} where
  pub get_assignment-ok :
      (key : ℕ) (f : Assignment → M B) (s : Session) (b : B)
      → ((get_assignment key >>= f) s).0 ≡ ok b
      → (a : Assignment) × (assignment_by key s.db ≡ some a) × ((f a s).0 ≡ ok b)
  unfolding get_assignment ◌>>=◌ gets
  get_assignment-ok key f s b h = or_raise-ok (assignment_by key s.db) _ f s b h

decide-ok :
    (status : Status) (action : AuditAction) (kind : NotificationType) (key subject : ℕ)
    (roles : List ActorRole) (s : Session) (b : Assignment)
    → (decide status action kind key subject roles s).0 ≡ ok b
    → (a : Assignment) × (assignment_by key s.db ≡ some a)
      × (is_pending a.status ≡ true)
      × MayDecide a subject roles s
unfolding decide
decide-ok status action kind key subject roles s b h =
    let (a, found, h1) = get_assignment-ok key _ s b h in
    let (pending, h2) = raise_if-ok _ _ _ s b h1 in
    let (actor, allowed, h3) = bind-ok _ _ s b h2 in
    (a, found, ground arith, authorize_decision-ok a subject roles s actor allowed)

-- An approval that returns an assignment found the request pending, and was made by an
-- administrator, by its named approver, or by its fallback approver after the wait.
pub approve_assignment-ok :
    (key subject : ℕ) (roles : List ActorRole) (s : Session) (b : Assignment)
    → (approve_assignment key subject roles s).0 ≡ ok b
    → (a : Assignment) × (assignment_by key s.db ≡ some a)
      × (is_pending a.status ≡ true)
      × MayDecide a subject roles s
unfolding approve_assignment
approve_assignment-ok key subject roles s b h = decide-ok _ _ _ key subject roles s b h

-- A rejection that returns an assignment found the request pending, and was made by an
-- administrator, by its named approver, or by its fallback approver after the wait.
pub reject_assignment-ok :
    (key subject : ℕ) (roles : List ActorRole) (s : Session) (b : Assignment)
    → (reject_assignment key subject roles s).0 ≡ ok b
    → (a : Assignment) × (assignment_by key s.db ≡ some a)
      × (is_pending a.status ≡ true)
      × MayDecide a subject roles s
unfolding reject_assignment
reject_assignment-ok key subject roles s b h = decide-ok _ _ _ key subject roles s b h

-- The window of a session: begun, not past its deadline, and no longer than the directory allows.
abbrev pub InWindow : Assignment → ℕ → Session → Type 0
InWindow a duration s =
    (is_in_the_future a.start_time s.now ≡ false)
    × (is_past a.expiration_time s.now ≡ false)
    × (duration ≤ hours (max_hours (provider_by a.provider_id s.db)))

check_window-ok :
    (a : Assignment) (duration : ℕ) (s : Session) (u : Unit {0})
    → (check_window a duration s).0 ≡ ok u
    → ((check_window a duration s).1 ≡ s) × InWindow a duration s
unfolding check_window ◌>>=◌ gets raise_if
check_window-ok a duration s u h = ground arith

authorize_activation-same :
    (a : Assignment) (subject : ℕ) (roles : List ActorRole) (s : Session)
    → (authorize_activation a subject roles s).1 ≡ s
unfolding authorize_activation ◌>>=◌ gets raise pure
authorize_activation-same a subject roles s = ground arith

-- An activation that returns an assignment found it eligible, was asked for by an administrator or by
-- the person it is for, lies in the assignment's period, and is no longer than the most hours of
-- its directory.
pub activate_one-ok :
    (key subject : ℕ) (roles : List ActorRole) (duration : ℕ) (override_sod : Bool) (s : Session)
    (b : Assignment)
    → (activate_one key subject roles duration override_sod s).0 ≡ ok b
    → (a : Assignment) × (assignment_by key s.db ≡ some a)
      × (is_eligible a.status ≡ true)
      × MayActivate a subject roles s
      × InWindow a duration s
unfolding activate_one
activate_one-ok key subject roles duration override_sod s b h =
    let (a, found, h1) = get_assignment-ok key _ s b h in
    let (was, h2) = raise_if-ok _ _ _ s b h1 in
    let (actor, allowed, h3) = bind-ok _ _ s b h2 in
    let (u, fits, h4) = bind-ok _ _ _ b h3 in
    let same = authorize_activation-same a subject roles s in
    let (kept, window) =
      check_window-ok a duration (authorize_activation a subject roles s).1 u fits in
    (
      a,
      found,
      ground arith,
      authorize_activation-ok a subject roles s actor allowed,
      subst (λ t. InWindow a duration t) same window,
    )

-- A deactivation that returns an assignment found it active and was asked for by an administrator
-- or by the person it is for, and by an administrator if the access had bypassed the activation.
pub deactivate_one-ok :
    (key subject : ℕ) (roles : List ActorRole) (s : Session) (b : Assignment)
    → (deactivate_one key subject roles s).0 ≡ ok b
    → (a : Assignment) × (assignment_by key s.db ≡ some a)
      × (is_active a.status ≡ true)
      × MayActivate a subject roles s
      × (a.bypass_activation ≡ true → is_admin roles ≡ true)
unfolding deactivate_one
deactivate_one-ok key subject roles s b h =
    let (a, found, h1) = get_assignment-ok key _ s b h in
    let (was, h2) = raise_if-ok _ _ _ s b h1 in
    let (actor, allowed, h3) = bind-ok _ _ s b h2 in
    let (guarded, h4) = raise_if-ok _ _ _ _ b h3 in
    (
      a,
      found,
      ground arith,
      authorize_activation-ok a subject roles s actor allowed,
      λ bypassed. ground arith,
    )
