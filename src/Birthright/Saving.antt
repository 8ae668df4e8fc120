-- ===== src/Birthright/Saving.antt =====
-- A policy that is read as JSON, and saved again (`to_birthright_policy_json`, `_validate_rule` and
-- `_build_fields_from_json` of backend/app/services/birthright.py).
use mathlib.Core.Option.{some_inj}
use access_piliot.Prelude.{
  ◌≡◌, refl, ap, ◌∙◌, Bool, true, false, not, ◌&&◌, all, if◌then◌else◌, Option, none, some, List,
  [], ◌∷◌, map, arith,
}
use access_piliot.Store.{
  Session, Text, User, UserField, Combination, all_conditions, RuleTest, compares_to, is_in,
  is_not_in, RuleCondition, BirthrightPolicy, equals, Error, ok, or_raise,
}
use access_piliot.Workflows.Conditions.{compare_texts, strip}
use access_piliot.Workflows.Stripping.{strip-strip}
use access_piliot.Birthright.Rules.{
  test_present, field_value, test_value, user_value, rule_condition_matches, matches_conditions,
  single_match, match_by, policy_matches_user,
}
use access_piliot.Birthright.Preview.{
  ConditionJson, RuleJson, ValidRule, JsonOperator, JsonValue, with_one, in_list, not_in_list,
  one_value, many_values, is_known, is_blank, is_empty, has_values, valid_test, valid_condition,
  single_rule, rule_or, valid_conditions, valid_rule, validate_rule, stripped, stored_conditions,
  json_of, policy_rule_json, joined, with_field,
}
use access_piliot.Birthright.Matching.{matches-stored, all-map, any-map}

is_complete_test : RuleTest → Bool
is_complete_test (compares_to o t) = is_known o && not (is_blank t)
is_complete_test (is_in ts) = has_values ts
is_complete_test (is_not_in ts) = has_values ts

-- The condition has a known operator, and no value of it is blank.
is_complete : RuleCondition → Bool
is_complete c = is_complete_test c.test

valid_condition-json_of :
    (c : RuleCondition) → valid_condition (json_of c) ≡ (if is_complete c then some c else none)
unfolding is_complete is_complete_test valid_test
valid_condition-json_of c = by_test c.field c.test
  where
    by_test :
        (f : UserField) (r : RuleTest)
        → valid_condition (json_of (record { field = f; test = r }))
          ≡ (if is_complete_test r then some (record { field = f; test = r }) else none)
    by_test f (compares_to o t) = ground arith
    by_test f (is_in ts) = ground arith
    by_test f (is_not_in ts) = ground arith

valid_conditions-json_of :
    (cs : List RuleCondition)
    → valid_conditions (map json_of cs) ≡ (if all is_complete cs then some cs else none)
unfolding valid_conditions
valid_conditions-json_of [] = refl
valid_conditions-json_of (c ∷ cs) =
    ground (arith, valid_condition-json_of c, valid_conditions-json_of cs)

-- What passed the validation is complete.
valid_test-is_complete :
    (o : JsonOperator) (v : JsonValue) (r : RuleTest)
    → valid_test o v ≡ some r
    → is_complete_test r ≡ true
unfolding valid_test is_complete_test
valid_test-is_complete (with_one o) (one_value t) r h = ground arith
valid_test-is_complete (with_one o) (many_values ts) r h = ground arith
valid_test-is_complete in_list (one_value t) r h = ground arith
valid_test-is_complete in_list (many_values ts) r h = ground arith
valid_test-is_complete not_in_list (one_value t) r h = ground arith
valid_test-is_complete not_in_list (many_values ts) r h = ground arith

with_field-is_complete :
    (f : Option UserField) (o : Option RuleTest) (c : RuleCondition)
    → ((r : RuleTest) → o ≡ some r → is_complete_test r ≡ true)
    → with_field f o ≡ some c
    → is_complete c ≡ true
unfolding is_complete
with_field-is_complete none o c complete h = ground arith
with_field-is_complete (some f) none c complete h = ground arith
with_field-is_complete (some f) (some r) c complete h = ground (arith, complete r refl)

joined-is_complete :
    (o : Option RuleCondition) (os : Option (List RuleCondition)) (cs : List RuleCondition)
    → ((c : RuleCondition) → o ≡ some c → is_complete c ≡ true)
    → ((ds : List RuleCondition) → os ≡ some ds → all is_complete ds ≡ true)
    → joined o os ≡ some cs
    → all is_complete cs ≡ true
joined-is_complete none os cs h k e = ground arith
joined-is_complete (some c) none cs h k e = ground arith
joined-is_complete (some c) (some ds) cs h k e = ground (arith, h c refl, k ds refl)

valid_conditions-is_complete :
    (js : List ConditionJson) (cs : List RuleCondition)
    → valid_conditions js ≡ some cs
    → all is_complete cs ≡ true
unfolding valid_conditions
valid_conditions-is_complete [] cs h = ground arith
valid_conditions-is_complete (j ∷ js) cs h =
    joined-is_complete (valid_condition j) (valid_conditions js) cs
      (λ c.
        with_field-is_complete j.field (valid_test j.operator j.value) c
          (valid_test-is_complete j.operator j.value))
      (valid_conditions-is_complete js) h

is_blank-strip : (t : Text) → is_blank (strip t) ≡ is_blank t
is_blank-strip t = ap is_empty (strip-strip t)

has_values-strip : (ts : List Text) → has_values (map strip ts) ≡ has_values ts
has_values-strip [] = refl
has_values-strip (t ∷ ts) = ap not (any-map strip is_blank is_blank is_blank-strip (t ∷ ts))

is_complete-stripped : (c : RuleCondition) → is_complete (stripped c) ≡ is_complete c
unfolding is_complete is_complete_test
is_complete-stripped c = by_test c.field c.test
  where
    by_test :
        (f : UserField) (r : RuleTest)
        → is_complete (stripped (record { field = f; test = r })) ≡ is_complete_test r
    by_test f (compares_to o t) = ap (λ b. is_known o && not b) (is_blank-strip t)
    by_test f (is_in ts) = has_values-strip ts
    by_test f (is_not_in ts) = has_values-strip ts

-- The conditions that were saved from a valid rule are valid when they are read back, and are then
-- the conditions that were saved.
pub valid_conditions-stored :
    (js : List ConditionJson) (cs : List RuleCondition)
    → valid_conditions js ≡ some cs
    → valid_conditions (map json_of (stored_conditions cs)) ≡ some (stored_conditions cs)
unfolding stored_conditions
valid_conditions-stored js cs h =
    valid_conditions-json_of (map stripped cs)
    ∙ ap (λ b. if b then some (map stripped cs) else none)
        (all-map stripped is_complete is_complete is_complete-stripped cs
          ∙ valid_conditions-is_complete js cs h)

read_rule :
    (o : Combination) (cs : List RuleCondition) (v : ValidRule)
    → valid_rule (some o) (valid_conditions (map json_of cs)) ≡ some v
    → (v.operator ≡ o) × (v.conditions ≡ cs)
read_rule o cs v h = ground (arith, valid_conditions-json_of cs)

-- The single test of a policy, as a rule.
matches-single :
    (u : User) (f : UserField) (t : Text)
    → is_blank t ≡ false
    → matches_conditions u (record { field = f; test = compares_to equals t } ∷ []) all_conditions
      ≡ single_match (user_value f u) (some t)
unfolding matches_conditions rule_condition_matches test_value single_match compare_texts
matches-single u f [] solid = ground arith
matches-single u f (d ∷ ds) solid = by_value (user_value f u)
  where
    by_value :
        (o : Option Text)
        → test_present (compares_to equals (d ∷ ds)) o && true ≡ single_match o (some (d ∷ ds))
    by_value none = refl
    by_value (some []) = refl
    by_value (some (c ∷ cs)) = ground arith

or_raise-some :
    {A : Type 0} (o : Option A) (e : Error) (s : Session) (a : A)
    → (or_raise o e s).0 ≡ ok a
    → o ≡ some a
unfolding or_raise
or_raise-some none e s a h = ground arith
or_raise-some (some b) e s a h = ground arith

reread_conditions :
    (u : User) (o : Combination) (c : RuleCondition) (cs : List RuleCondition) (v : ValidRule)
    → valid_rule (some o) (valid_conditions (map json_of (c ∷ cs))) ≡ some v
    → matches_conditions u (stored_conditions v.conditions) v.operator
      ≡ matches_conditions u (c ∷ cs) o
reread_conditions u o c cs v h =
    let (same_operator, same_conditions) = read_rule o (c ∷ cs) v h in
    matches-stored u v.conditions v.operator
    ∙ ap (λ k. matches_conditions u k v.operator) same_conditions
    ∙ ap (matches_conditions u (c ∷ cs)) same_operator

single-known :
    (f : UserField) (t : Text) (v : ValidRule)
    → valid_rule
        (some all_conditions)
        (valid_conditions (json_of (record { field = f; test = compares_to equals t }) ∷ []))
      ≡ some v
    → is_blank t ≡ false
unfolding valid_conditions valid_test
single-known f t v h = ground arith

reread :
    (p : BirthrightPolicy) (cs : List RuleCondition) (j : RuleJson) (v : ValidRule) (u : User)
    → rule_or p cs ≡ some j
    → valid_rule j.operator (valid_conditions j.conditions) ≡ some v
    → matches_conditions u (stored_conditions v.conditions) v.operator ≡ match_by u p cs
unfolding match_by
reread p (c ∷ cs) j v u h k =
    reread_conditions u p.conditions_operator c cs v
      (ap (λ r. valid_rule r.operator (valid_conditions r.conditions)) (some_inj.0 h) ∙ k)
reread p [] j v u h k = single p.match_field p.match_value h
  where
    single :
        (f : Option UserField) (t : Option Text)
        → single_rule f t ≡ some j
        → matches_conditions u (stored_conditions v.conditions) v.operator
          ≡ single_match (field_value f u) t
    single none t e = ground arith
    single (some f) none e = ground arith
    single (some f) (some t) e =
        let known =
          ap (λ r. valid_rule r.operator (valid_conditions r.conditions)) (some_inj.0 e) ∙ k in
        reread_conditions u all_conditions (record { field = f; test = compares_to equals t }) [] v
          known
        ∙ matches-single u f t (single-known f t v known)

-- A policy that is read as JSON and saved again as it was read matches the same people as before,
-- also where it was a policy with a single test and becomes one with conditions.
pub policy_rule_json-matches :
    (p : BirthrightPolicy) (j : RuleJson) (s : Session) (v : ValidRule) (u : User)
    → policy_rule_json p ≡ some j
    → (validate_rule j s).0 ≡ ok v
    → matches_conditions u (stored_conditions v.conditions) v.operator ≡ policy_matches_user u p
unfolding policy_rule_json validate_rule or_raise policy_matches_user match_by
policy_rule_json-matches p j s v u h k = reread p p.conditions j v u h (or_raise-some _ _ s v k)
