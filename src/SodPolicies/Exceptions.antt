-- ===== src/SodPolicies/Exceptions.antt =====
-- Exceptions of Separation of Duties, and what their end takes away (`create_sod_exception`,
-- `revoke_sod_exception`, `revoke_lapsed_sod_exceptions` of backend/app/services/sod.py).
use access_piliot.Prelude.{
  ℕ, ◌+◌, Bool, true, false, not, ◌&&◌, Option, none, some, List, [], ◌∷◌, ◌++◌, ◌==◌,
  if◌then◌else◌, same_id, select, first, is_some, leb, ltb, get_row, update_row,
}
use access_piliot.Store.{
  Db, Session, Assignment, SodException, SodExceptionRequest, same_type, revoked, user_not_found,
  sod_exception_not_found, request_already_processed, sod_exception_granted, sod_exception_revoked,
  assignment_revoked, sod_exception_lapsed_note, M, pure, gets, or_raise, raise_if, modify, commit,
  fresh_id, ◌>>=◌, ◌>>◌, record_audit, create_notification,
}
use access_piliot.Sod.{is_live}
use access_piliot.Target.{user_by, update_assignment}
use access_piliot.Grants.{revoke_provider_access, is_active}
use access_piliot.SodPolicies.Editing.{get_sod_policy}
use access_piliot.SodPolicies.Violations.{Holding, Violation, get_sod_violations}

pub record SodExceptionCreate : Type 0 where
  pub sod_policy_id : ℕ
  pub user_id : ℕ
  pub expires_at : ℕ

unfoldable pub insert_exception : (policy user expires : ℕ) → M ℕ
insert_exception policy user expires = do
  key ← fresh_id
  let row : SodException = record {
    id = key;
    sod_policy_id = policy;
    user_id = user;
    expires_at = expires;
    revoked_at = none;
  }
  modify (λ db. record db { sod_exceptions = db.sod_exceptions ++ row ∷ [] })
  pure key

unfoldable pub create_sod_exception : SodExceptionCreate → (actor : Option ℕ) → M ℕ
unfolding insert_exception get_sod_policy
create_sod_exception data' actor = do
  get_sod_policy data'.sod_policy_id
  found ← gets (λ s. user_by data'.user_id s.db)
  or_raise found user_not_found
  key ← insert_exception data'.sod_policy_id data'.user_id data'.expires_at
  record_audit sod_exception_granted (some key) none actor true
  commit
  pure key

abbrev pub exception_by : ℕ → Db → Option SodException
exception_by key db = get_row (λ e. e.id) key db.sod_exceptions

-- Neither revoked nor past its end.
abbrev pub is_in_force : ℕ → SodException → Bool
is_in_force now e = not (is_some e.revoked_at) && ltb now e.expires_at

unfoldable pub get_active_sod_exception : (policy user : ℕ) → Session → Option SodException
get_active_sod_exception policy user s =
    first (λ e. (e.sod_policy_id == policy) && (e.user_id == user) && is_in_force s.now e)
      s.db.sod_exceptions

abbrev live_row : ℕ → Db → Option Assignment
live_row key db = first (λ a. (a.id == key) && is_live a.status) db.assignments

abbrev is_of_request : SodExceptionRequest → Holding → Bool
is_of_request r h =
    same_type h.entitlement.kind r.resource_type
    && (h.entitlement.resource == r.resource_id)
    && same_id h.entitlement.app_role r.app_role

abbrev row_of : Option ℕ → Db → Option Assignment
row_of none db = none
row_of (some key) db = live_row key db

abbrev or_next : Option Assignment → Option Assignment → Option Assignment
or_next none next = next
or_next (some a) next = some a

-- The first holding of the request's target that is a live assignment.
unfoldable pub granted_holding : SodExceptionRequest → Db → List Holding → Option Assignment
granted_holding r db [] = none
granted_holding r db (h ∷ hs) =
    let rest = granted_holding r db hs in
    if is_of_request r h then or_next (row_of h.assignment_id db) rest else rest

abbrev violating : SodExceptionRequest → Db → Option Violation → Option Assignment
violating r db none = none
violating r db (some v) = granted_holding r db (v.side_a_holdings ++ v.side_b_holdings)

-- Does another exception cover the same person and policy?
abbrev is_covered_otherwise : SodException → Option SodException → Bool
is_covered_otherwise e none = false
is_covered_otherwise e (some other) = not (other.id == e.id)

unfoldable pub current_violating_holding_assignment :
    SodException → SodExceptionRequest → M (Option Assignment)
unfolding get_active_sod_exception granted_holding
current_violating_holding_assignment e r = do
  covering ← gets (get_active_sod_exception e.sod_policy_id e.user_id)
  if is_covered_otherwise e covering then pure none else (do
    violations ← get_sod_violations (some e.sod_policy_id)
    gets (λ s. violating r s.db (first (λ v. v.user_id == e.user_id) violations)))

-- Seconds that the two time stamps of a grant may lie apart.
abbrev grace : ℕ
grace = 5

abbrev pub is_since : SodExceptionRequest → Assignment → Bool
is_since r a =
    (a.user_id == r.user_id)
    && same_type a.resource_type r.resource_type
    && (a.resource_id == r.resource_id)
    && is_live a.status
    && leb r.created_at (a.created_at + grace)
    && same_id a.app_role r.app_role

abbrev older : Assignment → Option Assignment → Assignment
older a none = a
older a (some b) = if leb a.created_at b.created_at then a else b

-- `.order_by(created_at.asc())`, the first one.
unfoldable pub oldest : List Assignment → Option Assignment
oldest [] = none
oldest (a ∷ rows) = some (older a (oldest rows))

unfoldable pub assignment_since : SodExceptionRequest → Db → Option Assignment
unfolding oldest
assignment_since r db = oldest (select (is_since r) db.assignments)

unfoldable pub covered_assignment :
    SodException → SodExceptionRequest → Option ℕ → M (Option Assignment)
unfolding current_violating_holding_assignment assignment_since
covered_assignment e r none = gets (λ s. assignment_since r s.db)
covered_assignment e r (some key) = do
  linked ← gets (λ s. live_row key s.db)
  elim linked [ some a ↦ pure (some a) | none ↦ current_violating_holding_assignment e r ]

unfoldable pub covered_by : SodException → Option SodExceptionRequest → M (Option Assignment)
unfolding covered_assignment
covered_by e none = pure none
covered_by e (some r) = covered_assignment e r r.granted_assignment_id

unfoldable pub find_exception_granted_assignment : SodException → M (Option Assignment)
unfolding covered_by
find_exception_granted_assignment e = do
  found ←
      gets (λ s. first (λ r. same_id r.sod_exception_id (some e.id)) s.db.sod_exception_requests)
  covered_by e found

unfoldable pub end_covered : Assignment → (actor : Option ℕ) → M Bool
end_covered a actor = do
  now ← gets (λ s. s.now)
  update_assignment a.id (λ r. record r { status = revoked; revoked_at = some now })
  record_audit assignment_revoked (some a.id) (some a.provider_id) actor true
  create_notification a.user_id sod_exception_lapsed_note
  commit
  pure true

-- Was the access taken away? A real grant that the directory keeps stays as it is.
unfoldable pub revoke_assignment_for_lapsed_exception : Assignment → (actor : Option ℕ) → M Bool
unfolding end_covered
revoke_assignment_for_lapsed_exception a actor = do
  removed ← if is_active a.status then revoke_provider_access a else pure true
  if removed then end_covered a actor else (do
    record_audit assignment_revoked (some a.id) (some a.provider_id) actor false
    commit
    pure false)

unfoldable pub end_if_covered : Option Assignment → (actor : Option ℕ) → M Bool
unfolding revoke_assignment_for_lapsed_exception
end_if_covered none actor = pure false
end_if_covered (some a) actor = revoke_assignment_for_lapsed_exception a actor

abbrev pub is_lapsed : ℕ → SodException → Bool
is_lapsed now e = not (is_some e.revoked_at) && leb e.expires_at now

unfoldable pub end_lapsed : List SodException → M ℕ
unfolding find_exception_granted_assignment end_if_covered
end_lapsed [] = pure 0
end_lapsed (e ∷ es) = do
  covered ← find_exception_granted_assignment e
  ended ← end_if_covered covered none
  rest ← end_lapsed es
  pure (if ended then rest + 1 else rest)

-- How many assignments were revoked.
unfoldable pub revoke_lapsed_sod_exceptions : M ℕ
unfolding end_lapsed
revoke_lapsed_sod_exceptions = do
  lapsed ← gets (λ s. select (is_lapsed s.now) s.db.sod_exceptions)
  end_lapsed lapsed

unfoldable pub update_exception : ℕ → (SodException → SodException) → M (Unit {0})
update_exception key f =
    modify (λ db. record db { sod_exceptions = update_row (λ e. e.id) key f db.sod_exceptions })

unfoldable pub revoke_sod_exception : ℕ → (actor : Option ℕ) → M (Unit {0})
unfolding update_exception find_exception_granted_assignment end_if_covered
revoke_sod_exception key actor = do
  found ← gets (λ s. exception_by key s.db)
  e ← or_raise found sod_exception_not_found
  raise_if (is_some e.revoked_at) request_already_processed
  now ← gets (λ s. s.now)
  update_exception key (λ x. record x { revoked_at = some now })
  record_audit sod_exception_revoked (some key) none actor true
  commit
  covered ← find_exception_granted_assignment e
  end_if_covered covered actor
  pure tt
