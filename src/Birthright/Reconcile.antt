-- ===== src/Birthright/Reconcile.antt =====
-- `reconcile_birthright_policies_for_user` and `recheck_users_for_policy` of
-- backend/app/services/birthright.py: what a policy granted is taken back when it no longer applies.
use access_piliot.Prelude.{
  ℕ, ◌+◌, Bool, true, false, not, ◌&&◌, ◌||◌, Option, none, some, List, [], ◌∷◌, ◌++◌, ◌==◌,
  if◌then◌else◌, same_id, is_some, map, select, any, contains, length, get_row,
}
use access_piliot.Store.{
  Db, User, Assignment, BirthrightPolicy, user_not_found, birthright_policy_rechecked, M, pure,
  gets, or_raise, commit, try_else, ◌>>=◌, ◌>>◌, record_audit,
}
use access_piliot.Target.{user_by}
use access_piliot.Workflows.Outcomes.{Handlers}
use access_piliot.Workflows.Voting.{is_enabled}
use access_piliot.Assignments.Create.{is_normal}
use access_piliot.Assignments.Revoke.{is_live, revoke_assignment}
use access_piliot.Birthright.Rules.{policy_matches_user}
use access_piliot.Birthright.Evaluate.{evaluate_birthright_policies}

abbrev pub policy_by : ℕ → Db → Option BirthrightPolicy
policy_by key db = get_row (λ p. p.id) key db.birthright_policies

-- The live rows of the user that some policy granted.
abbrev pub is_birthright : ℕ → Assignment → Bool
is_birthright user a = (a.user_id == user) && is_some a.birthright_policy_id && is_live a.status

abbrev pub is_covered : List ℕ → Option ℕ → Bool
is_covered matching none = false
is_covered matching (some policy) = contains policy matching

abbrev owner_of : Option ℕ → Db → Option BirthrightPolicy
owner_of none db = none
owner_of (some key) db = policy_by key db

-- With `reconciliation_enabled` off, what was granted stays.
abbrev pub is_sticky : Option BirthrightPolicy → Bool
is_sticky none = false
is_sticky (some p) = not p.reconciliation_enabled

abbrev pub matching_policy_ids : User → Db → List ℕ
matching_policy_ids person db =
    map (λ p. p.id)
      (select (λ p. is_enabled p.status && policy_matches_user person p) db.birthright_policies)

module _ (fuel subject : ℕ) (matching : List ℕ) where
  -- Is the row revoked? One that cannot be is passed over.
  unfoldable pub withdraw : Assignment → M Bool
  withdraw a = if is_covered matching a.birthright_policy_id then pure false else (do
    owner ← gets (λ s. owner_of a.birthright_policy_id s.db)
    if is_sticky owner
        then pure false
        else try_else (revoke_assignment fuel a.id subject) (λ _. pure true) (λ _. pure false))

  unfoldable pub withdraw_all : List ℕ → List Assignment → M (List ℕ)
  unfolding withdraw
  withdraw_all done [] = pure done
  withdraw_all done (a ∷ rest) = do
    revoked ← withdraw a
    withdraw_all (if revoked then done ++ a.id ∷ [] else done) rest

-- `{"revoked": ..., "granted": ...}`
pub record Outcome : Type 0 where
  pub revoked_ids : List ℕ
  pub granted_ids : List ℕ

module _ (handlers : Handlers) (fuel : ℕ) where
  -- A disabled person is given nothing new.
  unfoldable pub reconcile_birthright_policies_for_user : ℕ → ℕ → M Outcome
  unfolding withdraw_all evaluate_birthright_policies policy_matches_user
  reconcile_birthright_policies_for_user user subject = do
    found ← gets (λ s. user_by user s.db)
    person ← or_raise found user_not_found
    matching ← gets (λ s. matching_policy_ids person s.db)
    rows ← gets (λ s. select (is_birthright user) s.db.assignments)
    revoked ← withdraw_all fuel subject matching [] rows
    if person.is_disabled then pure (record { revoked_ids = revoked; granted_ids = [] }) else (do
      granted ← evaluate_birthright_policies handlers user subject false
      pure (record { revoked_ids = revoked; granted_ids = granted }))

-- Who still holds a grant of the policy.
abbrev holds_grant : ℕ → Db → ℕ → Bool
holds_grant policy db user =
    any
      (λ a. same_id a.birthright_policy_id (some policy) && is_live a.status && (a.user_id == user))
      db.assignments

abbrev applies_now : Option BirthrightPolicy → User → Bool
applies_now none u = false
applies_now (some p) u = is_enabled p.status && not u.is_disabled && policy_matches_user u p

-- Everyone whom the policy matches, and everyone who still holds a grant of it.
unfoldable pub recheck_candidates : ℕ → Db → List User
unfolding policy_matches_user
recheck_candidates policy db =
    select
      (λ u.
        is_normal u.account_type
        && (holds_grant policy db u.id || applies_now (policy_by policy db) u))
      db.users

-- `users_checked`, `granted`, `revoked`.
pub record Recheck : Type 0 where
  pub users_checked : ℕ
  pub granted : ℕ
  pub revoked : ℕ

abbrev counted : Recheck → Outcome → Recheck
counted total o = record total {
  granted = total.granted + length o.granted_ids;
  revoked = total.revoked + length o.revoked_ids;
}

module _ (handlers : Handlers) (fuel : ℕ) where
  -- One person's failure does not stop the others.
  unfoldable pub recheck_all : ℕ → Recheck → List User → M Recheck
  unfolding reconcile_birthright_policies_for_user
  recheck_all subject total [] = pure total
  recheck_all subject total (u ∷ us) = do
    total' ←
        try_else (reconcile_birthright_policies_for_user handlers fuel u.id subject)
          (λ o. pure (counted total o)) (λ _. pure total)
    recheck_all subject total' us

  unfoldable pub recheck_users_for_policy : ℕ → ℕ → M Recheck
  unfolding recheck_candidates recheck_all
  recheck_users_for_policy policy subject = do
    candidates ← gets (λ s. recheck_candidates policy s.db)
    total ←
        recheck_all subject (record { users_checked = length candidates; granted = 0; revoked = 0 })
          candidates
    record_audit birthright_policy_rechecked (some policy) none none true
    commit
    pure total
