-- ===== src/Lifecycle/Removal.antt =====
-- What follows from the directory's answer when access is to be removed: in the expiry worker
-- (backend/app/workers/expiration.py) and in `revoke_assignment`
-- (backend/app/services/assignments.py).
use access_piliot.Prelude.{
  ℕ, ◌≡◌, refl, sym, ap, ◌∙◌, Bool, true, false, if◌then◌else◌, Option, none, some, arith, inl, inr,
  ◌⊎◌, get_row,
}
use access_piliot.Store.{
  Session, Db, Assignment, Status, eligible, expired, ok, raised, try_any-ok, try_any-crashed,
  try_any, M, ◌>>=◌, gets, or_raise, raise, pure, commit, modify, record_audit, assignment_expired,
  assignment_revoked, ◌>>◌, provider_unavailable, bind-known, bind-raised, raise_if-known,
}
use access_piliot.Target.{assignment_by, get_assignment, internal_user_id}
use access_piliot.Grants.{revoke_provider_access, is_active}
use access_piliot.Assignments.Revoke.{is_final, end_access, revoke_one}
use access_piliot.Workers.{end_row, expire_row, record_outcome}
use access_piliot.Workers.Ending.{
  is_lasting, ended_lem, write_row, skip_row, write_row-commits, write_row-refused, skip_row_lem,
}
use access_piliot.Lifecycle.Quiet.{Same-refl, Same-cases}
use access_piliot.Lifecycle.Effects.{revoke_provider_access-quiet}

removal-rows :
    (a : Assignment) (s : Session)
    → (revoke_provider_access a s).1.db.assignments ≡ s.db.assignments
removal-rows a s =
    (Same-cases s.db.assignments s.saved.assignments _
      ((revoke_provider_access-quiet s.db.assignments s.saved.assignments a).at s (Same-refl s))).0

removal-saved :
    (a : Assignment) (s : Session)
    → s.saved ≡ s.db
    → (revoke_provider_access a s).1.saved.assignments ≡ s.saved.assignments
removal-saved a s clean = elim committed [
  | inl kept ↦ kept
  | inr written ↦ written ∙ sym (ap (λ db. db.assignments) clean)
]
  where
    committed :
        ((revoke_provider_access a s).1.saved.assignments ≡ s.saved.assignments)
        ⊎ ((revoke_provider_access a s).1.saved.assignments ≡ s.db.assignments)
    committed =
        (Same-cases s.db.assignments s.saved.assignments _ (
          (revoke_provider_access-quiet s.db.assignments s.saved.assignments a).at s
            (Same-refl s))).1

module _ (refuses : Db → Bool) (a : Assignment) (s : Session)
    (confirmed : (revoke_provider_access a s).0 ≡ ok true) where
  confirmed-run : expire_row refuses a s ≡ end_row refuses a (revoke_provider_access a s).1
  confirmed-run = unfold expire_row in bind-known _ _ s true confirmed

  row-run :
      expire_row refuses a s ≡ try_any (write_row refuses a) skip_row (revoke_provider_access a s).1
  unfolding end_row
  row-run = confirmed-run

  -- When the directory confirms the removal and the database accepts the write, the worker counts the
  -- row and commits its new state: a lasting assignment is eligible again, with no moment of an
  -- activation and no end, and a temporary one is expired; all else is as it was.
  pub expire_row-confirmed :
      assignment_by a.id s.db ≡ some a
      → ((db : Db) → refuses db ≡ false)
      → ((expire_row refuses a s).0 ≡ ok 1)
        × (assignment_by a.id (expire_row refuses a s).1.saved
            ≡ some (
                if is_lasting a.assignment_type
                then record a { status = eligible; activated_at = none; expiration_time = none }
                else record a { status = expired }))
  expire_row-confirmed found accepts =
      let t = (revoke_provider_access a s).1 in
      let (counted, written) =
        write_row-commits refuses a t accepts
          (ap (get_row (λ r. r.id) a.id) (removal-rows a s) ∙ found) in
      let run = row-run ∙ try_any-ok (write_row refuses a) skip_row t 1 counted in
      (
        ap (λ r. r.0) run ∙ counted,
        ap (λ r. assignment_by a.id r.1.saved) run ∙ written ∙ ap (λ r. some r) (ended_lem a),
      )

  -- Let nothing be uncommitted. When the directory confirms the removal and the database refuses the write, the worker counts no
  -- row and raises nothing; the rows that are committed stay as they were, and nothing is pending.
  pub expire_row-refused :
      s.saved ≡ s.db
      → ((db : Db) → refuses db ≡ true)
      → ((expire_row refuses a s).0 ≡ ok 0)
        × ((expire_row refuses a s).1.saved.assignments ≡ s.saved.assignments)
        × ((expire_row refuses a s).1.db ≡ (expire_row refuses a s).1.saved)
  expire_row-refused clean refused =
      let t = (revoke_provider_access a s).1 in
      let (stopped, kept) = write_row-refused refuses a t refused in
      let u = (write_row refuses a t).1 in
      let run = row-run ∙ try_any-crashed (write_row refuses a) skip_row t stopped in
      let (none_counted, same, settled) = skip_row_lem u in
      (
        ap (λ r. r.0) run ∙ none_counted,
        ap (λ r. r.1.saved.assignments) run
            ∙ ap (λ db. db.assignments) (same ∙ kept)
            ∙ removal-saved a s clean,
        ap (λ r. r.1.db) run ∙ settled ∙ sym (ap (λ r. r.1.saved) run),
      )

-- When the removal is not confirmed and no error is raised, the worker counts no row, and the session
-- has the same rows as before.
pub expire_row-declined :
    (refuses : Db → Bool) (a : Assignment) (s : Session)
    → (revoke_provider_access a s).0 ≡ ok false
    → ((expire_row refuses a s).0 ≡ ok 0)
      × ((expire_row refuses a s).1.db.assignments ≡ s.db.assignments)
expire_row-declined refuses a s declined = (
  ap (λ r. r.0) declined-run ∙ written,
  ap (λ r. r.1.db.assignments) declined-run ∙ kept ∙ removal-rows a s,
)
  where
    declined-run :
        expire_row refuses a s
        ≡ record_outcome assignment_expired a false (revoke_provider_access a s).1
    declined-run = unfold expire_row in bind-known _ _ s false declined

    written : (record_outcome assignment_expired a false (revoke_provider_access a s).1).0 ≡ ok 0
    written = unfold record_outcome record_audit modify commit ◌>>=◌ pure in refl

    kept :
        (record_outcome assignment_expired a false (revoke_provider_access a s).1).1.db.assignments
        ≡ (revoke_provider_access a s).1.db.assignments
    kept = unfold record_outcome record_audit modify commit ◌>>=◌ pure in refl

abbrev report_failure : Assignment → Option ℕ → M (Unit {0})
report_failure a actor = do
  record_audit assignment_revoked (some a.id) (some a.provider_id) actor false
  commit
  raise provider_unavailable

end_access-run :
    (a : Assignment) (actor : Option ℕ) (s : Session)
    → is_active a.status ≡ true
    → (revoke_provider_access a s).0 ≡ ok false
    → end_access a actor s ≡ report_failure a actor (revoke_provider_access a s).1
unfolding end_access
end_access-run a actor s is_on declined = rw is_on (bind-known _ _ s false declined)

report_failure_lem :
    (a : Assignment) (actor : Option ℕ) (t : Session)
    → ((report_failure a actor t).0 ≡ raised provider_unavailable)
      × ((report_failure a actor t).1.db.assignments ≡ t.db.assignments)
unfolding record_audit commit modify raise ◌>>=◌
report_failure_lem a actor t = (refl, refl)

end_access-declined :
    (a : Assignment) (actor : Option ℕ) (s : Session)
    → is_active a.status ≡ true
    → (revoke_provider_access a s).0 ≡ ok false
    → ((end_access a actor s).0 ≡ raised provider_unavailable)
      × ((end_access a actor s).1.db.assignments ≡ s.db.assignments)
end_access-declined a actor s is_on declined =
    let run = end_access-run a actor s is_on declined in
    let (stopped, same) = report_failure_lem a actor (revoke_provider_access a s).1 in
    (ap (λ r. r.0) run ∙ stopped, ap (λ r. r.1.db.assignments) run ∙ same ∙ removal-rows a s)

module _ {B : Type 0} where
  get_assignment-known :
      (key : ℕ) (f : Assignment → M B) (s : Session) (a : Assignment)
      → assignment_by key s.db ≡ some a
      → (get_assignment key >>= f) s ≡ f a s
  unfolding get_assignment ◌>>=◌ gets or_raise
  get_assignment-known key f s a found = rw found refl

active-is-live : (status : Status) → is_active status ≡ true → is_final status ≡ false
active-is-live status h = ground arith

revoke_one-run :
    (key subject : ℕ) (a : Assignment) (s : Session)
    → assignment_by key s.db ≡ some a
    → is_active a.status ≡ true
    → (end_access a (internal_user_id subject s.db) s).0 ≡ raised provider_unavailable
    → revoke_one key subject s
      ≡ (raised provider_unavailable, (end_access a (internal_user_id subject s.db) s).1)
unfolding revoke_one
revoke_one-run key subject a s found is_on stopped =
    get_assignment-known key _ s a found
    ∙ raise_if-known _ _ _ s (active-is-live a.status is_on)
    ∙ bind-known (gets (λ t. internal_user_id subject t.db)) _ s (internal_user_id subject s.db)
        (gets_lem s)
    ∙ bind-raised _ _ _ _
        (ap (λ t. (end_access a (internal_user_id subject s.db) t).0) (gets_same s) ∙ stopped)
    ∙ ap (λ t. (raised provider_unavailable, (end_access a (internal_user_id subject s.db) t).1))
        (gets_same s)
  where
    gets_lem :
        (s : Session)
        → (gets (λ t. internal_user_id subject t.db) s).0 ≡ ok (internal_user_id subject s.db)
    gets_lem s = unfold gets in refl

    gets_same : (s : Session) → (gets (λ t. internal_user_id subject t.db) s).1 ≡ s
    gets_same s = unfold gets in refl

-- A revocation of active access whose removal the directory declines raises `provider_unavailable`
-- and changes no row.
pub revoke_one-declined :
    (key subject : ℕ) (a : Assignment) (s : Session)
    → assignment_by key s.db ≡ some a
    → is_active a.status ≡ true
    → (revoke_provider_access a s).0 ≡ ok false
    → ((revoke_one key subject s).0 ≡ raised provider_unavailable)
      × ((revoke_one key subject s).1.db.assignments ≡ s.db.assignments)
revoke_one-declined key subject a s found is_on declined =
    let actor = internal_user_id subject s.db in
    let (stopped, same) = end_access-declined a actor s is_on declined in
    let run = revoke_one-run key subject a s found is_on stopped in
    (ap (λ r. r.0) run, ap (λ r. r.1.db.assignments) run ∙ same)
