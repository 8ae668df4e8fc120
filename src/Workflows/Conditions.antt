-- ===== src/Workflows/Conditions.antt =====
-- The conditions of workflow stages: `_condition_matches` and `build_user_condition_payload` of
-- backend/app/services/workflows.py. Letters and white space are those of ASCII.
use access_piliot.Prelude.{
  ℕ, ◌+◌, Bool, true, false, not, ◌&&◌, ◌||◌, Option, none, some, [], ◌∷◌, ◌==◌, if◌then◌else◌, leb,
  map,
}
use mathlib.Core.List.{reverse}
use access_piliot.Store.{
  Text, User, Payload, Field, department, job_title, employment_type, account_type, Operator,
  equals, not_equals, contains, not_contains, starts_with, not_starts_with, ends_with,
  not_ends_with, other_operator, AccountType, normal_account, privileged_account, test_account,
}

-- `str.lower` of one character.
abbrev lower : ℕ → ℕ
lower c = if leb b'A' c && leb c b'Z' then c + 32 else c

abbrev pub is_space : ℕ → Bool
is_space c = (leb 9 c && leb c 13) || (leb 28 c && leb c 32)

abbrev pub drop_spaces : Text → Text
drop_spaces [] = []
drop_spaces (c ∷ cs) = if is_space c then drop_spaces cs else c ∷ cs

-- `text.strip()`.
unfoldable pub strip : Text → Text
strip t = reverse (drop_spaces (reverse (drop_spaces t)))

-- `str(value).strip().lower()`.
unfoldable pub normalise : Text → Text
unfolding strip
normalise t = map lower (strip t)

unfoldable pub text_eq : Text → Text → Bool
text_eq [] [] = true
text_eq [] (d ∷ ds) = false
text_eq (c ∷ cs) [] = false
text_eq (c ∷ cs) (d ∷ ds) = (c == d) && text_eq cs ds

-- `text.startswith(prefix)`.
unfoldable pub has_prefix : Text → Text → Bool
has_prefix [] text = true
has_prefix (c ∷ cs) [] = false
has_prefix (c ∷ cs) (d ∷ ds) = (c == d) && has_prefix cs ds

unfoldable pub has_suffix : Text → Text → Bool
unfolding has_prefix
has_suffix suffix text = has_prefix (reverse suffix) (reverse text)

-- `part in text`.
unfoldable pub has_part : Text → Text → Bool
unfolding has_prefix
has_part part [] = has_prefix part []
has_part part (c ∷ cs) = has_prefix part (c ∷ cs) || has_part part cs

unfoldable pub compare_texts : Operator → Text → Text → Bool
unfolding text_eq has_part has_prefix has_suffix
compare_texts equals actual target = text_eq actual target
compare_texts not_equals actual target = not (text_eq actual target)
compare_texts contains actual target = has_part target actual
compare_texts not_contains actual target = not (has_part target actual)
compare_texts starts_with actual target = has_prefix target actual
compare_texts not_starts_with actual target = not (has_prefix target actual)
compare_texts ends_with actual target = has_suffix target actual
compare_texts not_ends_with actual target = not (has_suffix target actual)
compare_texts other_operator actual target = false

-- `payload.get(field)`.
abbrev pub lookup_field : Field → Payload → Option Text
lookup_field department p = p.department
lookup_field job_title p = p.job_title
lookup_field employment_type p = p.employment_type
lookup_field account_type p = p.account_type

-- A missing or empty value matches no operator, also no negated one.
abbrev matches_value : Option Text → Operator → Text → Bool
matches_value none operator value = false
matches_value (some []) operator value = false
matches_value (some (c ∷ cs)) operator value =
    compare_texts operator (normalise (c ∷ cs)) (normalise value)

unfoldable pub condition_matches : Payload → Field → Operator → Text → Bool
unfolding compare_texts normalise
condition_matches payload field operator value =
    matches_value (lookup_field field payload) operator value

abbrev or_blank : Option Text → Option Text
or_blank none = some []
or_blank (some t) = some t

-- `NORMAL`, `PU` and `TU`.
abbrev account_type_text : AccountType → Text
account_type_text normal_account = b'N' ∷ b'O' ∷ b'R' ∷ b'M' ∷ b'A' ∷ b'L' ∷ []
account_type_text privileged_account = b'P' ∷ b'U' ∷ []
account_type_text test_account = b'T' ∷ b'U' ∷ []

unfoldable pub build_user_condition_payload : User → Payload
build_user_condition_payload user = record {
  department = or_blank user.department;
  job_title = or_blank user.job_title;
  employment_type = or_blank user.employment_type;
  account_type = some (account_type_text user.account_type);
}
