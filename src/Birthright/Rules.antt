-- ===== src/Birthright/Rules.antt =====
-- The rules of birthright policies: `_condition_matches`, `matches_conditions`,
-- `_policy_matches_user` and `_policy_action_specs` of backend/app/services/birthright.py. Letters
-- and white space are those of ASCII.
use Prim.Native.Nat.{◌/◌, ◌%◌}
use access_piliot.Prelude.{
  ℕ, zero, suc, ◌+◌, Bool, true, false, not, Option, none, some, List, [], ◌∷◌, ◌++◌, map,
  if◌then◌else◌, ltb, any, all,
}
use access_piliot.Store.{
  Text, User, UserField, department_field, job_title_field, status_field, email_field,
  employee_id_field, employment_type_field, employee_category_field, manager_field, Combination,
  all_conditions, any_condition, RuleTest, compares_to, is_in, is_not_in, RuleCondition, ActionSpec,
  SingleTarget, BirthrightPolicy,
}
use access_piliot.Workflows.Conditions.{normalise, text_eq, compare_texts}

abbrev hex_digit : ℕ → ℕ
hex_digit d = if ltb d 10 then b'0' + d else b'W' + d

-- The last digits of a number, in base 16.
abbrev hex_digits : (count : ℕ) → ℕ → Text
hex_digits zero n = []
hex_digits (suc k) n = hex_digits k (n / 16) ++ hex_digit (n % 16) ∷ []

-- `str` of a `UUID` is its number in five groups of digits.
unfoldable pub uuid_text : ℕ → Text
uuid_text n =
    hex_digits 8 (n / 79228162514264337593543950336)
    ++ b'-' ∷ hex_digits 4 (n / 1208925819614629174706176)
    ++ b'-' ∷ hex_digits 4 (n / 18446744073709551616)
    ++ b'-' ∷ hex_digits 4 (n / 281474976710656)
    ++ b'-' ∷ hex_digits 12 n

abbrev uuid_value : Option ℕ → Option Text
uuid_value none = none
uuid_value (some key) = some (uuid_text key)

-- `ACTIVE` and `DISABLED`.
abbrev pub status_text : Bool → Text
status_text false = b'A' ∷ b'C' ∷ b'T' ∷ b'I' ∷ b'V' ∷ b'E' ∷ []
status_text true = b'D' ∷ b'I' ∷ b'S' ∷ b'A' ∷ b'B' ∷ b'L' ∷ b'E' ∷ b'D' ∷ []

-- `getattr(user, attr_name, None)`.
unfoldable pub user_value : UserField → User → Option Text
unfolding uuid_text
user_value department_field u = u.department
user_value job_title_field u = u.job_title
user_value status_field u = some (status_text u.is_disabled)
user_value email_field u = some u.email
user_value employee_id_field u = u.employee_id
user_value employment_type_field u = u.employment_type
user_value employee_category_field u = u.employee_category
user_value manager_field u = uuid_value u.manager_id

-- `user_value in wanted`, both normalised.
abbrev pub is_among : Text → List Text → Bool
is_among value wanted = any (text_eq value) (map normalise wanted)

unfoldable pub test_value : RuleTest → Text → Bool
unfolding normalise text_eq compare_texts
test_value (compares_to operator target) value = compare_texts operator value (normalise target)
test_value (is_in wanted) value = is_among value wanted
test_value (is_not_in wanted) value = not (is_among value wanted)

-- A missing or blank attribute never matches, whatever is asked of it.
abbrev pub test_present : RuleTest → Option Text → Bool
test_present test none = false
test_present test (some []) = false
test_present test (some (c ∷ cs)) = test_value test (normalise (c ∷ cs))

unfoldable pub rule_condition_matches : User → RuleCondition → Bool
unfolding user_value test_value normalise
rule_condition_matches u c = test_present c.test (user_value c.field u)

-- `all(results)` or `any(results)`.
abbrev pub combine : Combination → (RuleCondition → Bool) → List RuleCondition → Bool
combine all_conditions test cs = all test cs
combine any_condition test cs = any test cs

-- No conditions match nobody.
unfoldable pub matches_conditions : User → List RuleCondition → Combination → Bool
unfolding rule_condition_matches
matches_conditions u [] operator = false
matches_conditions u (c ∷ cs) operator = combine operator (rule_condition_matches u) (c ∷ cs)

abbrev pub field_value : Option UserField → User → Option Text
field_value none u = none
field_value (some field) u = user_value field u

-- The single test of a policy with no conditions.
unfoldable pub single_match : Option Text → Option Text → Bool
unfolding normalise text_eq
single_match (some (c ∷ cs)) (some (d ∷ ds)) = text_eq (normalise (c ∷ cs)) (normalise (d ∷ ds))
single_match _ _ = false

-- A policy with conditions does not look at the single test.
unfoldable pub match_by : User → BirthrightPolicy → List RuleCondition → Bool
unfolding single_match user_value
match_by u p [] = single_match (field_value p.match_field u) p.match_value
match_by u p (c ∷ cs) = matches_conditions u (c ∷ cs) p.conditions_operator

unfoldable pub policy_matches_user : User → BirthrightPolicy → Bool
unfolding match_by
policy_matches_user u p = match_by u p p.conditions

abbrev single_spec : BirthrightPolicy → SingleTarget → ActionSpec
single_spec p t = record {
  resource_type = t.resource_type;
  resource_id = t.resource_id;
  app_role = t.app_role;
  assignment_type = p.assignment_type;
}

abbrev single_specs : BirthrightPolicy → Option SingleTarget → Option (List ActionSpec)
single_specs p none = none
single_specs p (some t) = some (single_spec p t ∷ [])

abbrev specs_or : Option (List ActionSpec) → List ActionSpec → Option (List ActionSpec)
specs_or single [] = single
specs_or single (a ∷ rest) = some (a ∷ rest)

-- What a policy grants; `none` where it has neither actions nor a target, and `UUID("None")` fails.
abbrev pub policy_action_specs : BirthrightPolicy → Option (List ActionSpec)
policy_action_specs p = specs_or (single_specs p p.target) p.actions
