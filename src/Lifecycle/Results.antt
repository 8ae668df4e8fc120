-- ===== src/Lifecycle/Results.antt =====
-- What the requests of backend/app/services/assignments.py return when they succeed.
use access_piliot.Prelude.{
  ℕ, ◌≡◌, refl, sym, ap, ◌∙◌, false, Option, some, List, ==_iff, arith, get_row, update_row,
  get_row-update_row,
}
use access_piliot.Store.{
  Session, Assignment, ActorRole, Status, rejected, revoked, AuditAction, NotificationType, ok, M,
  Preserves, ◌>>=◌, bind-ok, raise_if-ok, raise_if, raise, gets, or_raise, pure, modify,
}
use access_piliot.Target.{internal_user_id, assignment_by, get_assignment, update_assignment}
use access_piliot.Assignments.Approval.{authorize_decision, decide, reject_assignment, or_else}
use access_piliot.Assignments.Revoke.{is_final, revoke_one}
use access_piliot.Assignments.Guards.{get_assignment-ok}
use access_piliot.Lifecycle.Quiet.{Same, Same-refl, Same-cases, quiet_rules}
use access_piliot.Lifecycle.Decisions.{authorize_decision-quiet, tell_user-quiet, end_access-quiet}

module _ {A : Type 0} (m : M A) (quiet : (x y : List Assignment) → Preserves (Same x y) m) where
  quiet-rows : (s : Session) → (m s).1.db.assignments ≡ s.db.assignments
  quiet-rows s =
      (Same-cases s.db.assignments s.saved.assignments _
        ((quiet s.db.assignments s.saved.assignments).at s (Same-refl s))).0

  -- Code that writes to no row has run, and what follows it has returned.
  after-quiet :
      {B : Type 0} (f : A → M B) (s : Session) (b : B)
      → ((m >>= f) s).0 ≡ ok b
      → (a : A) × (t : Session) × (t.db.assignments ≡ s.db.assignments) × ((f a t).0 ≡ ok b)
  after-quiet f s b h = let (a, done, rest) = bind-ok m f s b h in (a, (m s).1, quiet-rows s, rest)

get-found :
    (key : ℕ) (s : Session) (b : Assignment)
    → (get_assignment key s).0 ≡ ok b
    → assignment_by key s.db ≡ some b
unfolding get_assignment ◌>>=◌ gets or_raise
get-found key s b h = ground (arith, h)

after-update :
    {B : Type 0} (key : ℕ) (g : Assignment → Assignment) (f : Unit {0} → M B) (s : Session) (b : B)
    → ((update_assignment key g >>= f) s).0 ≡ ok b
    → (t : Session) × (t.db.assignments ≡ update_row (λ r. r.id) key g s.db.assignments)
      × ((f tt t).0 ≡ ok b)
unfolding update_assignment modify ◌>>=◌
after-update key g f s b h = (_, refl, h)

written-row :
    (key : ℕ) (g : Assignment → Assignment) (rows : List Assignment) (a : Assignment)
    → ((r : Assignment) → (g r).id ≡ r.id)
    → get_row (λ r. r.id) key rows ≡ some a
    → get_row (λ r. r.id) key (update_row (λ r. r.id) key g rows) ≡ some (g a)
written-row key g rows a keeps found =
    get_row-update_row (λ r. r.id) key key g rows keeps ∙ rw ((==_iff key key).1 refl, found) refl

same-row : {a b : Assignment} → some a ≡ some b → a ≡ b
same-row h = cc

-- The row that is read back at the end is the one that was written.
read-back :
    (key : ℕ) (g : Assignment → Assignment) (rows : List Assignment) (a b : Assignment)
    (t : Session)
    → ((r : Assignment) → (g r).id ≡ r.id)
    → get_row (λ r. r.id) key rows ≡ some a
    → t.db.assignments ≡ update_row (λ r. r.id) key g rows
    → assignment_by key t.db ≡ some b
    → b ≡ g a
read-back key g rows a b t keeps found written read = sym (
    same-row (
      sym (written-row key g rows a keeps found)
      ∙ sym (ap (get_row (λ r. r.id) key) written)
      ∙ read))

-- A revocation that returns an assignment found it in no final status, and returns it revoked, with
-- some moment of the revocation, and otherwise as it was.
pub revoke_one-ok :
    (key subject : ℕ) (s : Session) (b : Assignment)
    → (revoke_one key subject s).0 ≡ ok b
    → (a : Assignment) × (moment : ℕ) × (assignment_by key s.db ≡ some a)
      × (is_final a.status ≡ false)
      × (b ≡ record a { status = revoked; revoked_at = some moment })
unfolding revoke_one
revoke_one-ok key subject s b h =
    let (a, found, h1) = get_assignment-ok key _ s b h in
    let (live, h2) = raise_if-ok _ _ _ s b h1 in
    let (actor, s1, e1, h3) = after-quiet _ (λ x y. search quiet_rules) _ s b h2 in
    let (done, s2, e2, h4) = after-quiet _ (λ x y. end_access-quiet x y a actor) _ s1 b h3 in
    let (now, s3, e3, h5) = after-quiet _ (λ x y. search quiet_rules) _ s2 b h4 in
    let (s4, e4, h6) = after-update key _ _ s3 b h5 in
    let (u5, s5, e5, h7) = after-quiet _ (λ x y. search quiet_rules) _ s4 b h6 in
    let (u6, s6, e6, h8) = after-quiet _ (λ x y. tell_user-quiet x y a actor _) _ s5 b h7 in
    let (u7, s7, e7, h9) = after-quiet _ (λ x y. search quiet_rules) _ s6 b h8 in
    (
      a,
      now,
      found,
      live,
      read-back key _ s3.db.assignments a b s7 (λ r. refl)
          (ap (get_row (λ r. r.id) key) (e3 ∙ e2 ∙ e1) ∙ found) (e7 ∙ e6 ∙ e5 ∙ e4)
          (get-found key s7 b h9),
    )

-- Whoever may decide, the key that comes back is the one of the person who asks.
authorize_decision-actor :
    (a : Assignment) (subject : ℕ) (roles : List ActorRole) (s : Session) (actor : Option ℕ)
    → (authorize_decision a subject roles s).0 ≡ ok actor
    → actor ≡ internal_user_id subject s.db
unfolding authorize_decision ◌>>=◌ gets raise_if raise pure
authorize_decision-actor a subject roles s actor h = ground arith

pure-ok : (c b : Assignment) (t : Session) → (pure c t).0 ≡ ok b → c ≡ b
unfolding pure
pure-ok c b t h = cc

decide-result :
    (status : Status) (action : AuditAction) (kind : NotificationType) (key subject : ℕ)
    (roles : List ActorRole) (s : Session) (b : Assignment)
    → (decide status action kind key subject roles s).0 ≡ ok b
    → (a : Assignment) × (assignment_by key s.db ≡ some a)
      × (b ≡ record a {
        status = status;
        approved_by = or_else (internal_user_id subject s.db) a.approved_by;
      })
unfolding decide
decide-result status action kind key subject roles s b h =
    let (a, found, h1) = get_assignment-ok key _ s b h in
    let (pending, h2) = raise_if-ok _ _ _ s b h1 in
    let (actor, may, h3) = bind-ok _ _ s b h2 in
    let s1 = (authorize_decision a subject roles s).1 in
    let e1 = quiet-rows _ (λ x y. authorize_decision-quiet x y a subject roles) s in
    let who = authorize_decision-actor a subject roles s actor may in
    let (s2, e2, h4) = after-update key _ _ s1 b h3 in
    let (u3, s3, e3, h5) = after-quiet _ (λ x y. search quiet_rules) _ s2 b h4 in
    let (u4, s4, e4, h6) = after-quiet _ (λ x y. tell_user-quiet x y a actor _) _ s3 b h5 in
    let (u5, s5, e5, h7) = after-quiet _ (λ x y. search quiet_rules) _ s4 b h6 in
    let (c, there, h8) = get_assignment-ok key _ s5 b h7 in
    let (u6, shown, h9) = bind-ok _ _ s5 b h8 in
    (
      a,
      found,
      sym (pure-ok c b _ h9)
          ∙ read-back key _ s1.db.assignments a c s5 (λ r. refl)
              (ap (get_row (λ r. r.id) key) e1 ∙ found) (e5 ∙ e4 ∙ e3 ∙ e2) there
          ∙ ap (λ o. record a { status = status; approved_by = or_else o a.approved_by }) who,
    )

-- A rejection that returns an assignment returns it rejected and otherwise as it was, but for the
-- approver: that is the person whose subject the request carries, or the one it had, if no user has
-- this subject.
pub reject_assignment-result :
    (key subject : ℕ) (roles : List ActorRole) (s : Session) (b : Assignment)
    → (reject_assignment key subject roles s).0 ≡ ok b
    → (a : Assignment) × (assignment_by key s.db ≡ some a)
      × (b ≡ record a {
        status = rejected;
        approved_by = or_else (internal_user_id subject s.db) a.approved_by;
      })
unfolding reject_assignment
reject_assignment-result key subject roles s b h =
    decide-result rejected _ _ key subject roles s b h
