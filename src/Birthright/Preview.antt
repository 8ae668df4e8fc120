-- ===== src/Birthright/Preview.antt =====
-- A rule before it is saved: `_validate_rule`, the conditions that `_build_fields_from_json` stores,
-- and `count_users_matching_rule` (backend/app/services/birthright.py,
-- backend/app/schemas/policies.py).
use access_piliot.Prelude.{
  ℕ, Bool, true, false, not, ◌&&◌, Option, none, some, List, [], ◌∷◌, if◌then◌else◌, map, select,
  any, length,
}
use access_piliot.Store.{
  BirthrightPolicy, all_conditions, Db, Text, User, UserField, Operator, equals, not_equals,
  contains, not_contains, starts_with, not_starts_with, ends_with, not_ends_with, other_operator,
  Combination, RuleTest, RuleCondition, compares_to, is_in, is_not_in, validation_error, M,
  or_raise, gets, ◌>>=◌,
}
use access_piliot.Workflows.Conditions.{strip}
use access_piliot.Assignments.Create.{is_normal}
use access_piliot.Birthright.Rules.{matches_conditions}

-- `IN`, `NOT_IN`, and the operators with one value.
pub data JsonOperator : Type 0 where
  with_one : Operator → JsonOperator
  in_list not_in_list : JsonOperator

pub data JsonValue : Type 0 where
  one_value : Text → JsonValue
  many_values : List Text → JsonValue

-- `field` is none where `CONDITION_FIELD_MAP` does not have the name.
pub record ConditionJson : Type 0 where
  pub field : Option UserField
  pub operator : JsonOperator
  pub value : JsonValue

-- `operator` is none where it is neither `AND` nor `OR`.
pub record RuleJson : Type 0 where
  pub operator : Option Combination
  pub conditions : List ConditionJson

abbrev pub is_empty : Text → Bool
is_empty [] = true
is_empty (c ∷ cs) = false

abbrev pub is_blank : Text → Bool
is_blank t = is_empty (strip t)

abbrev pub is_known : Operator → Bool
is_known other_operator = false
is_known equals = true
is_known not_equals = true
is_known contains = true
is_known not_contains = true
is_known starts_with = true
is_known not_starts_with = true
is_known ends_with = true
is_known not_ends_with = true

abbrev pub has_values : List Text → Bool
has_values [] = false
has_values (t ∷ ts) = not (any is_blank (t ∷ ts))

-- What a valid operator and value ask for.
unfoldable pub valid_test : JsonOperator → JsonValue → Option RuleTest
unfolding strip
valid_test (with_one o) (one_value t) =
    if is_known o && not (is_blank t) then some (compares_to o t) else none
valid_test (with_one o) (many_values ts) = none
valid_test in_list (many_values ts) = if has_values ts then some (is_in ts) else none
valid_test in_list (one_value t) = none
valid_test not_in_list (many_values ts) = if has_values ts then some (is_not_in ts) else none
valid_test not_in_list (one_value t) = none

abbrev pub with_field : Option UserField → Option RuleTest → Option RuleCondition
with_field (some f) (some t) = some (record { field = f; test = t })
with_field none t = none
with_field (some f) none = none

abbrev pub valid_condition : ConditionJson → Option RuleCondition
valid_condition c = with_field c.field (valid_test c.operator c.value)

abbrev pub joined : Option RuleCondition → Option (List RuleCondition) → Option (List RuleCondition)
joined (some c) (some cs) = some (c ∷ cs)
joined none cs = none
joined (some c) none = none

unfoldable pub valid_conditions : List ConditionJson → Option (List RuleCondition)
unfolding valid_test
valid_conditions [] = some []
valid_conditions (c ∷ cs) = joined (valid_condition c) (valid_conditions cs)

-- A rule that passes `_validate_rule`.
pub record ValidRule : Type 0 where
  pub operator : Combination
  pub conditions : List RuleCondition

abbrev pub valid_rule : Option Combination → Option (List RuleCondition) → Option ValidRule
valid_rule (some o) (some cs) = some (record { operator = o; conditions = cs })
valid_rule none cs = none
valid_rule (some o) none = none

unfoldable pub validate_rule : RuleJson → M ValidRule
unfolding valid_conditions
validate_rule rule =
    or_raise (valid_rule rule.operator (valid_conditions rule.conditions)) validation_error

abbrev pub stripped_test : RuleTest → RuleTest
stripped_test (compares_to o t) = compares_to o (strip t)
stripped_test (is_in ts) = is_in (map strip ts)
stripped_test (is_not_in ts) = is_not_in (map strip ts)

abbrev pub stripped : RuleCondition → RuleCondition
stripped c = record { field = c.field; test = stripped_test c.test }

-- The conditions as they are saved.
unfoldable pub stored_conditions : List RuleCondition → List RuleCondition
unfolding strip
stored_conditions cs = map stripped cs

abbrev json_of_test : RuleTest → JsonOperator × JsonValue
json_of_test (compares_to o t) = (with_one o, one_value t)
json_of_test (is_in ts) = (in_list, many_values ts)
json_of_test (is_not_in ts) = (not_in_list, many_values ts)

abbrev pub json_of : RuleCondition → ConditionJson
json_of c =
    let (o, v) = json_of_test c.test in record { field = some c.field; operator = o; value = v }

abbrev single_json : UserField → Text → ConditionJson
single_json f t = record { field = some f; operator = with_one equals; value = one_value t }

abbrev pub single_rule : Option UserField → Option Text → Option RuleJson
single_rule (some f) (some t) =
    some (record { operator = some all_conditions; conditions = single_json f t ∷ [] })
single_rule none t = none
single_rule (some f) none = none

abbrev pub rule_or : BirthrightPolicy → List RuleCondition → Option RuleJson
rule_or p [] = single_rule p.match_field p.match_value
rule_or p (c ∷ cs) =
    some (record { operator = some p.conditions_operator; conditions = map json_of (c ∷ cs) })

-- The rule of `to_birthright_policy_json`. Without a field or a value the condition is refused by the
-- validator of the response, which is no `AccessPilotError`.
unfoldable pub policy_rule_json : BirthrightPolicy → Option RuleJson
policy_rule_json p = rule_or p p.conditions

-- The people whom a rule matches.
unfoldable pub matching_users : List RuleCondition → Combination → Db → List User
unfolding matches_conditions
matching_users cs operator db =
    select (λ u. matches_conditions u cs operator) (select (λ u. is_normal u.account_type) db.users)

-- The preview: nothing is saved.
unfoldable pub count_users_matching_rule : RuleJson → M ℕ
unfolding validate_rule matching_users
count_users_matching_rule rule = do
  valid ← validate_rule rule
  gets (λ s. length (matching_users valid.conditions valid.operator s.db))
