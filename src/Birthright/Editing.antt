-- ===== src/Birthright/Editing.antt =====
-- What the deletion of a birthright policy and the preview of a rule do
-- (backend/app/services/birthright.py).
use access_piliot.Prelude.{
  ℕ, ◌≡◌, ◌≤◌, refl, ap, ◌∙◌, Bool, false, not, Option, none, some, List, [], ◌∷◌, ◌==◌, same_id,
  select, length, any, get_row, if◌then◌else◌, arith,
}
use access_piliot.Store.{
  Session, BirthrightPolicy, ok, gets, or_raise, modify, commit, crash, validation_error, ◌>>=◌,
  record_audit,
}
use access_piliot.Assignments.Create.{is_normal}
use access_piliot.Birthright.Rules.{matches_conditions}
use access_piliot.Birthright.Reconcile.{policy_by}
use access_piliot.Birthright.Policies.{delete_birthright_policy, get_policy, is_granted_by}
use access_piliot.Birthright.Preview.{
  RuleJson, ValidRule, valid_rule, valid_conditions, validate_rule, matching_users,
  count_users_matching_rule,
}

module _ {A : Type 0} where
  length-select : (p : A → Bool) (xs : List A) → length (select p xs) ≤ length xs
  length-select p [] = omega arith
  length-select p (x ∷ xs) = ground (arith, length-select p xs)

bounded :
    (o : Option ValidRule) (s : Session) (n : ℕ)
    → ((or_raise o validation_error >>= λ v.
          gets (λ t. length (matching_users v.conditions v.operator t.db)))
        s).0
      ≡ ok n
    → (n ≤ length s.db.users)
      × (((or_raise o validation_error >>= λ v.
              gets (λ t. length (matching_users v.conditions v.operator t.db)))
            s).1
          ≡ s)
unfolding matching_users ◌>>=◌ gets or_raise
bounded none s n h = ground arith
bounded (some v) s n h =
    let people = select (λ u. is_normal u.account_type) s.db.users in
    (
      ground (
        arith,
        h,
        length-select (λ u. matches_conditions u v.conditions v.operator) people,
        length-select (λ u. is_normal u.account_type) s.db.users,
      ),
      refl,
    )

-- A preview counts no more people than there are, and changes nothing.
pub count_users_matching_rule-bound :
    (rule : RuleJson) (s : Session) (n : ℕ)
    → (count_users_matching_rule rule s).0 ≡ ok n
    → (n ≤ length s.db.users) × ((count_users_matching_rule rule s).1 ≡ s)
unfolding count_users_matching_rule validate_rule matching_users ◌>>=◌ gets or_raise
count_users_matching_rule-bound rule s n h =
    bounded (valid_rule rule.operator (valid_conditions rule.conditions)) s n h

module _ (id : BirthrightPolicy → ℕ) where
  get_row-select :
      (key k : ℕ) (rows : List BirthrightPolicy)
      → get_row id k (select (λ p. not (id p == key)) rows)
        ≡ (if k == key then none else get_row id k rows)
  unfolding get_row
  get_row-select key k [] = ground arith
  get_row-select key k (r ∷ rs) = ground (arith, get_row-select key k rs)

deleted :
    (key : ℕ) (s : Session)
    → (delete_birthright_policy key s).0 ≡ ok tt
    → let t = (delete_birthright_policy key s).1 in
      (t.db.birthright_policies ≡ select (λ p. not (p.id == key)) s.db.birthright_policies)
      × (t.db.assignments ≡ s.db.assignments)
      × (is_granted_by key s.db ≡ false)
unfolding delete_birthright_policy get_policy record_audit modify commit crash gets or_raise ◌>>=◌
deleted key s h = ground (arith, h)

same_key : (key : ℕ) (o : Option BirthrightPolicy) → (if key == key then none else o) ≡ none
same_key key o = ground arith

other_key :
    (key k : ℕ) (o : Option BirthrightPolicy)
    → (k == key) ≡ false
    → (if k == key then none else o) ≡ o
other_key key k o h = ground arith

-- A deletion that returns leaves no policy with this key and no assignment that names it, and every
-- other policy as it was.
pub delete_birthright_policy-ok :
    (key : ℕ) (s : Session)
    → (delete_birthright_policy key s).0 ≡ ok tt
    → let t = (delete_birthright_policy key s).1 in
      (policy_by key t.db ≡ none)
      × (is_granted_by key t.db ≡ false)
      × ((k : ℕ) → (k == key) ≡ false → policy_by k t.db ≡ policy_by k s.db)
delete_birthright_policy-ok key s h =
    let (policies, rows, free) = deleted key s h in
    let gone = get_row-select (λ p. p.id) key in
    let found = λ (k : ℕ). ap (get_row (λ p. p.id) k) policies in
    (
      found key ∙ gone key s.db.birthright_policies ∙ same_key key _,
      ap (any (λ a. same_id a.birthright_policy_id (some key))) rows ∙ free,
      λ k other. found k ∙ gone k s.db.birthright_policies ∙ other_key key k _ other,
    )
