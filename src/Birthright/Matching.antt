-- ===== src/Birthright/Matching.antt =====
-- Whom a rule matches (`matches_conditions`, `_policy_matches_user` and `count_users_matching_rule`
-- of backend/app/services/birthright.py).
use mathlib.Core.Path.{fun_ext}
use mathlib.Core.Logic.{◌↔◌}
use mathlib.Core.List.{Memᴰ}
use mathlib.Core.List.Memᴰ
use access_piliot.Prelude.{
  ◌≡◌, ◌≢◌, refl, sym, ap, ◌∙◌, Bool, true, false, not, ◌⊎◌, inl, inr, ◌||◌, ◌&&◌, Option, none,
  some, List, [], ◌∷◌, map, any, all, select, arith,
}
use access_piliot.Store.{
  Db, Text, User, Combination, all_conditions, any_condition, RuleTest, compares_to, is_in,
  is_not_in, RuleCondition,
}
use access_piliot.Workflows.Conditions.{normalise, text_eq, compare_texts, strip}
use access_piliot.Workflows.Stripping.{normalise-strip}
use access_piliot.Assignments.Create.{is_normal}
use access_piliot.Birthright.Rules.{
  is_among, test_value, test_present, user_value, rule_condition_matches, matches_conditions,
}
use access_piliot.Birthright.Preview.{stripped, stripped_test, stored_conditions, matching_users}

is_among-strip :
    (value : Text) (wanted : List Text) → is_among value (map strip wanted) ≡ is_among value wanted
is_among-strip value [] = refl
is_among-strip value (w ∷ ws) =
    ap (λ t. text_eq value t || is_among value (map strip ws)) (normalise-strip w)
    ∙ ap (λ b. text_eq value (normalise w) || b) (is_among-strip value ws)

test_value-stripped :
    (test : RuleTest) (value : Text) → test_value (stripped_test test) value ≡ test_value test value
unfolding test_value
test_value-stripped (compares_to o t) value = ap (compare_texts o value) (normalise-strip t)
test_value-stripped (is_in ts) value = is_among-strip value ts
test_value-stripped (is_not_in ts) value = ap not (is_among-strip value ts)

test_present-stripped :
    (test : RuleTest) (o : Option Text) → test_present (stripped_test test) o ≡ test_present test o
test_present-stripped test none = refl
test_present-stripped test (some []) = refl
test_present-stripped test (some (c ∷ cs)) = test_value-stripped test (normalise (c ∷ cs))

matches-stripped :
    (u : User) (c : RuleCondition)
    → rule_condition_matches u (stripped c) ≡ rule_condition_matches u c
unfolding rule_condition_matches
matches-stripped u c = test_present-stripped c.test (user_value c.field u)

module _ {A B : Type 0} (f : A → B) (p : B → Bool) (q : A → Bool)
    (same : (a : A) → p (f a) ≡ q a) where
  pub all-map : (xs : List A) → all p (map f xs) ≡ all q xs
  all-map [] = refl
  all-map (x ∷ xs) = ground (arith, same x, all-map xs)

  pub any-map : (xs : List A) → any p (map f xs) ≡ any q xs
  any-map [] = refl
  any-map (x ∷ xs) = ground (arith, same x, any-map xs)

pub matches-stored :
    (u : User) (cs : List RuleCondition) (o : Combination)
    → matches_conditions u (stored_conditions cs) o ≡ matches_conditions u cs o
unfolding matches_conditions stored_conditions
matches-stored u [] o = refl
matches-stored u (c ∷ cs) all_conditions =
    all-map stripped (rule_condition_matches u) (rule_condition_matches u) (matches-stripped u)
      (c ∷ cs)
matches-stored u (c ∷ cs) any_condition =
    any-map stripped (rule_condition_matches u) (rule_condition_matches u) (matches-stripped u)
      (c ∷ cs)

-- A rule that is saved, its values stripped, matches the same people as the rule that was previewed.
pub matching_users-stored :
    (cs : List RuleCondition) (o : Combination) (db : Db)
    → matching_users (stored_conditions cs) o db ≡ matching_users cs o db
unfolding matching_users
matching_users-stored cs o db =
    ap (λ p. select p (select (λ u. is_normal u.account_type) db.users))
      (fun_ext (λ u. matches-stored u cs o))

&&-true : (a b : Bool) → a && b ≡ true → (a ≡ true) × (b ≡ true)
&&-true a b h = ground arith

true-&& : (a b : Bool) → a ≡ true → b ≡ true → a && b ≡ true
true-&& a b h k = ground arith

||-true : (a b : Bool) → a || b ≡ true → (a ≡ true) ⊎ (b ≡ true)
||-true true b h = inl refl
||-true false b h = inr h

true-|| : (a b : Bool) → (a ≡ true) ⊎ (b ≡ true) → a || b ≡ true
true-|| a b h = ground arith

module _ {A : Type 0} (p : A → Bool) where
  all_iff : (xs : List A) → (all p xs ≡ true) ↔ ((a : A) → Memᴰ a xs → p a ≡ true)
  all_iff [] = (λ h a m. absurd (Memᴰ.not-nil m), λ h. refl)
  all_iff (x ∷ xs) = (
    λ h a m.
        let (here, there) = &&-true (p x) (all p xs) h in
        elim (Memᴰ.cases_cons m) [
          | inl e ↦ ap p e ∙ here
          | inr later ↦ (all_iff xs).0 there a later
        ],
    λ h.
        true-&& (p x) (all p xs) (h x (Memᴰ.head refl)) ((all_iff xs).1 (λ a m. h a (Memᴰ.tail m))),
  )

  any_iff : (xs : List A) → (any p xs ≡ true) ↔ ((a : A) × Memᴰ a xs × (p a ≡ true))
  any_iff [] = (λ h. ground arith, λ h. absurd (Memᴰ.not-nil h.1))
  any_iff (x ∷ xs) = (
    λ h. elim (||-true (p x) (any p xs) h) [
      | inl here ↦ (x, Memᴰ.head refl, here)
      | inr there ↦ let (a, m, e) = (any_iff xs).0 there in (a, Memᴰ.tail m, e)
    ],
    λ (a, m, e). elim (Memᴰ.cases_cons m) [
      | inl same ↦ true-|| (p x) (any p xs) (inl (sym (ap p same) ∙ e))
      | inr later ↦ true-|| (p x) (any p xs) (inr ((any_iff xs).1 (a, later, e)))
    ],
  )

-- A rule of `AND` matches a person exactly if it has a condition and they meet every condition of it;
-- a rule of `OR`, exactly if they meet one of them.
pub matches_conditions_iff :
    (u : User) (cs : List RuleCondition)
    → ((matches_conditions u cs all_conditions ≡ true)
        ↔ ((cs ≢ []) × ((c : RuleCondition) → Memᴰ c cs → rule_condition_matches u c ≡ true)))
      × ((matches_conditions u cs any_condition ≡ true)
          ↔ ((c : RuleCondition) × Memᴰ c cs × (rule_condition_matches u c ≡ true)))
unfolding matches_conditions
matches_conditions_iff u [] =
    ((λ h. ground arith, λ h. absurd (h.0 refl)), any_iff (rule_condition_matches u) [])
matches_conditions_iff u (c ∷ cs) = (
  (
    λ h. (λ e. ground arith, (all_iff (rule_condition_matches u) (c ∷ cs)).0 h),
    λ h. (all_iff (rule_condition_matches u) (c ∷ cs)).1 h.1,
  ),
  any_iff (rule_condition_matches u) (c ∷ cs),
)
