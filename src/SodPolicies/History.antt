-- ===== src/SodPolicies/History.antt =====
-- The history of Separation of Duties: six of its edits (backend/app/services/sod.py). The grant of a
-- request (`grant_sod_exception_request`) and the revocation of an exception (`revoke_sod_exception`)
-- also create and revoke assignments, and are not among them.
use access_piliot.Prelude.{ℕ, ◌≡◌, refl, ◌∙◌, true, Option}
use access_piliot.Store.{
  Session, Switch, M, Preserves, From-Preserves, From-gets, From-if, Preserves-bind, Preserves-gets,
  Preserves-or_raise, Preserves-raise_if, preserving_rules, pure, ◌>>◌,
}
use access_piliot.SodPolicies.Editing.{
  SodPolicyCreate, create_sod_policy, update_sod_policy, delete_sod_policy,
}
use access_piliot.SodPolicies.Exceptions.{SodExceptionCreate, create_sod_exception}
use access_piliot.SodPolicies.Requests.{
  SodExceptionRequestCreate, create_sod_exception_request, deny_sod_exception_request,
}
use access_piliot.SodPolicies.Referenced.{is_whole}
use access_piliot.SodPolicies.Known.{
  IsWhole, From-get_sod_policy, known-From, fresh_id-Both, add_request-Both, both_rules, creating,
  deleting, whole_rules, update_policy-IsWhole, update_request-IsWhole,
}

create_sod_policy-IsWhole :
    (data' : SodPolicyCreate) (actor : Option ℕ) → Preserves IsWhole (create_sod_policy data' actor)
unfolding create_sod_policy
create_sod_policy-IsWhole data' actor = Preserves-bind _ _ (Preserves-gets _) λ taken.
    Preserves-bind _ _ (Preserves-raise_if _ _)
      λ free. creating _ _ _ (λ k. refl) (λ k. search whole_rules)

update_sod_policy-IsWhole :
    (key : ℕ) (data' : SodPolicyCreate) (status : Switch) (actor : Option ℕ)
    → Preserves IsWhole (update_sod_policy key data' status actor)
unfolding update_sod_policy
update_sod_policy-IsWhole key data' status actor =
    From-get_sod_policy key _ λ p. known-From key (search both_rules depth 16)

delete_sod_policy-IsWhole :
    (key : ℕ) (actor : Option ℕ) → Preserves IsWhole (delete_sod_policy key actor)
unfolding delete_sod_policy
delete_sod_policy-IsWhole key actor = From-get_sod_policy key _ λ p. From-gets _ _ λ used.
    From-if used _ _
      (λ is.
        From-Preserves
          (Preserves-bind _ _ (update_policy-IsWhole key _ (λ p. refl)) λ done. search whole_rules))
      (λ is. record {
        at = λ s known h. (deleting key _ (search whole_rules)).at s (known.0, known.1 ∙ is) h;
      })

create_sod_exception-IsWhole :
    (data' : SodExceptionCreate) (actor : Option ℕ)
    → Preserves IsWhole (create_sod_exception data' actor)
unfolding create_sod_exception
create_sod_exception-IsWhole data' actor =
    From-get_sod_policy data'.sod_policy_id _
      λ p. known-From data'.sod_policy_id (search both_rules depth 16)

create_sod_exception_request-IsWhole :
    (data' : SodExceptionRequestCreate) (actor : Option ℕ)
    → Preserves IsWhole (create_sod_exception_request data' actor)
unfolding create_sod_exception_request
create_sod_exception_request-IsWhole data' actor = From-get_sod_policy data'.sod_policy_id _ λ p.
    known-From data'.sod_policy_id (
      Preserves-bind _ _ (Preserves-gets _) λ found.
        Preserves-bind _ _ (Preserves-or_raise _ _) λ u.
          Preserves-bind _ _ (Preserves-gets _) λ now. Preserves-bind _ _ (fresh_id-Both _) λ key.
            Preserves-bind _ _ (add_request-Both _ _ refl) λ done. search both_rules depth 16)

deny_sod_exception_request-IsWhole :
    (key : ℕ) (actor : Option ℕ) → Preserves IsWhole (deny_sod_exception_request key actor)
unfolding deny_sod_exception_request
deny_sod_exception_request-IsWhole key actor = Preserves-bind _ _ (search whole_rules) λ r.
    Preserves-bind _ _ (Preserves-gets _) λ now.
      Preserves-bind _ _ (update_request-IsWhole key _ (λ r. refl))
        λ done. search whole_rules depth 12

-- `create_sod_policy`, `update_sod_policy`, `delete_sod_policy`, `create_sod_exception`,
-- `create_sod_exception_request` and `deny_sod_exception_request`.
pub data SodEdit : Type 0 where
  create_edit : SodPolicyCreate → SodEdit
  update_edit : (key : ℕ) → SodPolicyCreate → Switch → SodEdit
  delete_edit : (key : ℕ) → SodEdit
  exception_edit : SodExceptionCreate → SodEdit
  request_edit : SodExceptionRequestCreate → SodEdit
  denial_edit : (key : ℕ) → SodEdit

unfoldable pub run_edit : SodEdit → (actor : Option ℕ) → M (Unit {0})
run_edit (create_edit data') actor = create_sod_policy data' actor >> pure tt
run_edit (update_edit key data' status) actor = update_sod_policy key data' status actor
run_edit (delete_edit key) actor = delete_sod_policy key actor >> pure tt
run_edit (exception_edit data') actor = create_sod_exception data' actor >> pure tt
run_edit (request_edit data') actor = create_sod_exception_request data' actor >> pure tt
run_edit (denial_edit key) actor = deny_sod_exception_request key actor

run_edit-IsWhole : (e : SodEdit) (actor : Option ℕ) → Preserves IsWhole (run_edit e actor)
unfolding run_edit
run_edit-IsWhole (create_edit data') actor = search (preserving_rules, create_sod_policy-IsWhole)
run_edit-IsWhole (update_edit key data' status) actor =
    update_sod_policy-IsWhole key data' status actor
run_edit-IsWhole (delete_edit key) actor = search (preserving_rules, delete_sod_policy-IsWhole)
run_edit-IsWhole (exception_edit data') actor =
    search (preserving_rules, create_sod_exception-IsWhole)
run_edit-IsWhole (request_edit data') actor =
    search (preserving_rules, create_sod_exception_request-IsWhole)
run_edit-IsWhole (denial_edit key) actor = deny_sod_exception_request-IsWhole key actor

-- Let every rule, exception, notification and request name a policy that is stored. So it is in the
-- session after create_sod_policy, update_sod_policy, delete_sod_policy, create_sod_exception,
-- create_sod_exception_request or deny_sod_exception_request, whether the edit succeeds or fails. The
-- grant of a request and the revocation of an exception are not spoken of.
pub run_edit-is_whole :
    (e : SodEdit) (actor : Option ℕ) (s : Session)
    → is_whole s.db ≡ true
    → is_whole (run_edit e actor s).1.db ≡ true
run_edit-is_whole e actor s h = (run_edit-IsWhole e actor).at s h
