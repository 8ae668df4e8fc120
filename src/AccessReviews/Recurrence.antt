-- ===== src/AccessReviews/Recurrence.antt =====
-- The next campaign of a recurring one whose items run through a workflow
-- (`_maybe_spawn_recurrence` and `create_campaign` of backend/app/services/access_reviews.py).
use mathlib.Core.Path.{subst}
use access_piliot.Prelude.{
  ℕ, zero, suc, ◌≡◌, refl, sym, ap, Bool, true, false, not, ◌&&◌, Option, none, some, is_some,
  get_row, arith,
}
use access_piliot.Store.{
  Session, Campaign, Definition, Scope, all_access, resource_type_scope, specific_resource,
  multiple_resources, user_scope, account_type_scope, inactive_users, mover, ResourceType, group,
  role, application, access_package, business_role, Error, NotificationType, Result, ok, raised,
  crashed, M, Preserves, Preserves-gets, Preserves-for_each, Preserves-raise_if, preserving_rules,
  or_raise-ok, gets-ok, raise_if-ok, gets, pure, raise_if, modify, commit, try_else, ◌>>=◌, ◌>>◌,
  create_notification,
}
use access_piliot.Target.{internal_user_id}
use access_piliot.Workflows.Outcomes.{Handlers}
use access_piliot.Assignments.Create.{find_workflow}
use access_piliot.Assignments.Reads.{find_workflow-reads, known_user-reads, resolve_target-reads}
use access_piliot.AccessReviews.Campaigns.{
  CampaignCreate, create_campaign, check_user, check_reviewers, check_scope, validate_target_exists,
}
use access_piliot.AccessReviews.Deciding.{maybe_spawn_recurrence, recur, tell}

-- What `P` says of a state holds of any that is reached without a write.
module _ (P : Session → Type 0) where
  check_user-reads : (key : ℕ) → Preserves P (check_user key)
  unfolding check_user
  check_user-reads key = search preserving_rules depth 12

  validate_target_exists-reads :
      (kind : ResourceType) (key : ℕ) → Preserves P (validate_target_exists kind key)
  unfolding validate_target_exists
  validate_target_exists-reads access_package key = search preserving_rules depth 12
  validate_target_exists-reads business_role key = search preserving_rules depth 12
  validate_target_exists-reads group key =
      search (preserving_rules, resolve_target-reads P) depth 12
  validate_target_exists-reads role key = search (preserving_rules, resolve_target-reads P) depth 12
  validate_target_exists-reads application key =
      search (preserving_rules, resolve_target-reads P) depth 12

  check_scope-reads : (scope : Scope) → Preserves P (check_scope scope)
  unfolding check_scope
  check_scope-reads all_access = search preserving_rules
  check_scope-reads (resource_type_scope kind) = search preserving_rules
  check_scope-reads (specific_resource kind key) = validate_target_exists-reads kind key
  check_scope-reads (multiple_resources ts) =
      Preserves-for_each _ ts (λ t. validate_target_exists-reads t.0 t.1)
  check_scope-reads (user_scope user) = check_user-reads user
  check_scope-reads (account_type_scope kind) = search preserving_rules
  check_scope-reads (inactive_users threshold) = search preserving_rules
  check_scope-reads (mover user) = check_user-reads user

  check_reviewers-reads :
      (workflow : Option Definition) (data' : CampaignCreate)
      → Preserves P (check_reviewers workflow data')
  unfolding check_reviewers
  check_reviewers-reads (some d) data' = search preserving_rules
  check_reviewers-reads none data' = search (preserving_rules, known_user-reads P) depth 12

-- The code writes nothing and returns nothing.
Refuses : {A : Type 0} → M A → Session → Type 0
Refuses m s = ((m s).1 ≡ s) × ((a : _) → ¬ ((m s).0 ≡ ok a))

module _ {A B : Type 0} where
  Refuses-bind :
      (m : M A) (f : A → M B) (s : Session)
      → ((m s).1 ≡ s)
      → ((a : A) → (m s).0 ≡ ok a → Refuses (f a) s)
      → Refuses (m >>= f) s
  unfolding ◌>>=◌ Refuses
  Refuses-bind m f s reads kf = split (m s).0 (m s).1 reads refl
    where
      split :
          (r : Result A) (t : Session) → t ≡ s → (m s).0 ≡ r → Refuses (◌>>=◌ (λ s'. (r, t)) f) s
      split (ok a) t same e = subst (λ t. Refuses (λ s'. f a t) s) (sym same) (kf a e)
      split (raised x) t same e = (same, λ b k. ground arith)
      split crashed t same e = (same, λ b k. ground arith)

returned :
    (d : Definition) (s : Session) (w : Option Definition)
    → (pure (some d) s).0 ≡ ok w
    → is_some w ≡ true
unfolding pure
returned d s w h = ground arith

find_workflow-is_some :
    (key : ℕ) (s : Session) (w : Option Definition)
    → (find_workflow (some key) s).0 ≡ ok w
    → is_some w ≡ true
unfolding find_workflow
find_workflow-is_some key s w h =
    let found = get_row (λ (d : Definition). d.id) key s.db.definitions in
    let (d, is, h1) = or_raise-ok found _ _ s w (gets-ok _ _ s w h) in
    let (active, h2) = raise_if-ok _ _ _ s w h1 in returned d s w h2

gets-none :
    (g : Session → Option ℕ) (s : Session) (o : Option ℕ)
    → (gets g s).0 ≡ ok o
    → g s ≡ none
    → is_some o ≡ false
unfolding gets
gets-none g s o h k = ground arith

stopped :
    (a b : Bool) (e : Error) (s : Session) (u : Unit {0})
    → a ≡ true
    → b ≡ false
    → ¬ ((raise_if (a && not b) e s).0 ≡ ok u)
unfolding raise_if
stopped a b e s u h k passed = ground arith

create_campaign-Refuses :
    (handlers : Handlers) (data' : CampaignCreate) (key system : ℕ) (s : Session)
    → data'.workflow_definition_id ≡ some key
    → internal_user_id system s.db ≡ none
    → Refuses (create_campaign handlers data' system) s
unfolding create_campaign
create_campaign-Refuses handlers data' key system s routed unknown =
    Refuses-bind _ _ s ((find_workflow-reads (λ t. t ≡ s) _).at s refl) λ w e.
      Refuses-bind _ _ s ((check_reviewers-reads (λ t. t ≡ s) w data').at s refl) λ _ _.
        Refuses-bind _ _ s ((check_scope-reads (λ t. t ≡ s) _).at s refl) λ _ _.
          Refuses-bind _ _ s ((Preserves-gets {P = λ t. t ≡ s} _).at s refl) λ creator same.
            Refuses-bind _ _ s ((Preserves-raise_if {P = λ t. t ≡ s} _ _).at s refl) λ u passed.
              absurd (
                stopped _ _ _ s u
                  (find_workflow-is_some key s w
                    (subst (λ o. (find_workflow o s).0 ≡ ok w) routed e))
                  (gets-none _ s creator same unknown) passed)

-- The tables of the reviews.
abbrev pub SameReviews : Session → Session → Type 0
SameReviews s t = (t.db.campaigns ≡ s.db.campaigns) × (t.db.review_items ≡ s.db.review_items)

tell-SameReviews :
    (s : Session) (note : NotificationType) (o : Option ℕ)
    → SameReviews s ((tell note o >> commit) s).1
unfolding tell create_notification modify commit ◌>>=◌
tell-SameReviews s note none = (refl, refl)
tell-SameReviews s note (some u) = (refl, refl)

module _ {A : Type 0} (m : M A) (f : A → M (Unit {0})) (g : Error → M (Unit {0})) where
  try_else-Refuses :
      (s : Session)
      → Refuses m s
      → ((e : Error) → SameReviews s (g e s).1)
      → SameReviews s (try_else m f g s).1
  unfolding try_else Refuses
  try_else-Refuses s (same, never) kg = split (m s).0 (m s).1 refl same
    where
      split :
          (r : Result A) (t : Session)
          → (m s).0 ≡ r
          → t ≡ s
          → SameReviews s (try_else (λ s'. (r, t)) f g s).1
      split (ok a) t e same = absurd (never a e)
      split (raised x) t e same = subst (λ t. SameReviews s (g x t).1) (sym same) (kg x)
      split crashed t e same = (ap (λ t. t.db.campaigns) same, ap (λ t. t.db.review_items) same)

-- A recurring campaign whose items run through a workflow begins no next campaign: where the
-- application's own subject stands for no user, the campaigns and the review items stay as they are.
pub maybe_spawn_recurrence-routed :
    (handlers : Handlers) (system : ℕ) (c : Campaign) (key : ℕ) (s : Session)
    → c.workflow_definition_id ≡ some key
    → internal_user_id system s.db ≡ none
    → SameReviews s (maybe_spawn_recurrence handlers system c c.frequency_days s).1
unfolding maybe_spawn_recurrence recur ◌>>=◌ gets pure
maybe_spawn_recurrence-routed handlers system c key s routed unknown =
    with_frequency c.frequency_days
  where
    with_frequency :
        (frequency : Option ℕ)
        → SameReviews s (maybe_spawn_recurrence handlers system c frequency s).1
    with_frequency none = (refl, refl)
    with_frequency (some zero) = (refl, refl)
    with_frequency (some (suc n)) =
        try_else-Refuses _ _ _ s (create_campaign-Refuses handlers _ key system s routed unknown)
          (λ e. tell-SameReviews s _ _)
