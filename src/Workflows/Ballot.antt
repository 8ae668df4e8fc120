-- ===== src/Workflows/Ballot.antt =====
-- Who may vote on a stage, and when (backend/app/services/workflows.py); and what a stage's condition
-- says of a missing value.
use mathlib.Core.Path.{subst}
use access_piliot.Prelude.{
  ℕ, ◌≡◌, refl, ◌⊎◌, inl, inr, Bool, true, false, not, none, some, List, [], ◌∷◌, ==_iff, arith,
  any, contains, is_some,
}
use access_piliot.Store.{
  Session, ActorRole, is_admin, Instance, StageInstance, Decision, Vote, Payload, Text, Field,
  Operator, equals, not_equals, starts_with, not_starts_with, ends_with, not_ends_with,
  not_contains, other_operator, ok, M, ◌>>=◌, gets, or_raise, raise_if, raise, pure, bind-ok,
  gets-ok, or_raise-ok, raise_if-ok, workflow_stage_not_found,
}
use access_piliot.Store
use access_piliot.Target.{internal_user_id}
use access_piliot.Workflows.Conditions.{condition_matches, compare_texts, lookup_field, normalise}
use access_piliot.Workflows.Stages.{is_waiting, instance_by, stage_by}
use access_piliot.Workflows.Outcomes.{Handlers}
use access_piliot.Workflows.Voting.{authorize_stage_decision, as_fallback, vote_of}
use access_piliot.Workflows.Decide.{get_instance, decide_stage}

-- An administrator, a named approver, or a fallback approver once the stage has escalated.
abbrev pub MayVote : StageInstance → ℕ → List ActorRole → Type 0
MayVote st actor roles =
    (is_admin roles ≡ true)
    ⊎ (contains actor st.required_approver_ids ≡ true)
    ⊎ ((contains actor st.fallback_approver_ids ≡ true) × (is_some st.escalated_at ≡ true))

authorize-ok :
    (st : StageInstance) (subject : ℕ) (roles : List ActorRole) (s : Session) (actor : ℕ)
    (overrides : Bool)
    → (authorize_stage_decision st subject roles s).0 ≡ ok (actor, overrides)
    → (internal_user_id subject s.db ≡ some actor) × MayVote st actor roles
unfolding authorize_stage_decision as_fallback ◌>>=◌ gets raise pure raise_if or_raise
authorize-ok st subject roles s actor overrides h = ground arith

authorize-same :
    (st : StageInstance) (subject : ℕ) (roles : List ActorRole) (s : Session)
    → (authorize_stage_decision st subject roles s).1 ≡ s
unfolding authorize_stage_decision as_fallback ◌>>=◌ gets raise pure raise_if or_raise
authorize-same st subject roles s = ground arith

module _ {B : Type 0} where
  get_instance-ok :
      (key : ℕ) (f : Instance → M B) (s : Session) (b : B)
      → ((get_instance key >>= f) s).0 ≡ ok b
      → (i : Instance) × (instance_by key s.db ≡ some i) × ((f i s).0 ≡ ok b)
  unfolding get_instance ◌>>=◌ gets
  get_instance-ok key f s b h = or_raise-ok (instance_by key s.db) _ f s b h

-- A vote that returns an instance was cast on a stage of that instance that was still waiting, by a
-- known person who may vote on it and who had not voted on it before.
pub decide_stage-ok :
    (handlers : Handlers) (instance_id stage_id : ℕ) (decision : Decision) (subject : ℕ)
    (roles : List ActorRole) (s : Session) (j : Instance)
    → (decide_stage handlers instance_id stage_id decision subject roles s).0 ≡ ok j
    → (i : Instance) × (st : StageInstance) × (actor : ℕ) × (instance_by instance_id s.db ≡ some i)
      × (stage_by stage_id s.db ≡ some st)
      × (st.workflow_instance_id ≡ i.id)
      × (is_waiting st.status ≡ true)
      × (internal_user_id subject s.db ≡ some actor)
      × MayVote st actor roles
      × (any (vote_of st.id actor) s.db.votes ≡ false)
unfolding decide_stage
decide_stage-ok handlers instance_id stage_id decision subject roles s j h =
    let (i, found, h1) = get_instance-ok instance_id _ s j h in
    let (st, there, h2) = or_raise-ok _ _ _ s j (gets-ok _ _ s j h1) in
    let (same, h3) = raise_if-ok _ _ _ s j h2 in
    let (open_stage, h4) = raise_if-ok _ _ _ s j h3 in
    let ((actor, overrides), allowed, h5) = bind-ok _ _ s j h4 in
    let kept = authorize-same st subject roles s in
    let (known, may) = authorize-ok st subject roles s actor overrides allowed in
    let (first_vote, h6) = raise_if-ok _ _ _ _ j (gets-ok _ _ _ j h5) in
    (
      i,
      st,
      actor,
      found,
      there,
      (==_iff st.workflow_instance_id i.id).0 (ground arith),
      ground arith,
      known,
      may,
      subst (λ t. any (vote_of st.id actor) t.db.votes ≡ false) kept first_vote,
    )

-- The operator with the opposite sense.
abbrev pub negated : Operator → Operator
negated equals = not_equals
negated not_equals = equals
negated Store.contains = not_contains
negated not_contains = Store.contains
negated starts_with = not_starts_with
negated not_starts_with = starts_with
negated ends_with = not_ends_with
negated not_ends_with = ends_with
negated other_operator = other_operator

abbrev pub is_known : Operator → Bool
is_known other_operator = false
is_known _ = true

compare-negated :
    (o : Operator) (a b : Text)
    → is_known o ≡ true
    → compare_texts (negated o) a b ≡ not (compare_texts o a b)
unfolding compare_texts
compare-negated o a b known = ground arith

-- On a value that is present and not empty, each operator is the opposite of its negation.
pub condition_matches-negated :
    (payload : Payload) (field : Field) (o : Operator) (value : Text) (c : ℕ) (cs : Text)
    → is_known o ≡ true
    → lookup_field field payload ≡ some (c ∷ cs)
    → condition_matches payload field (negated o) value
      ≡ not (condition_matches payload field o value)
unfolding condition_matches
condition_matches-negated payload field o value c cs known present =
    rw present (compare-negated o (normalise (c ∷ cs)) (normalise value) known)

-- A value that is missing or empty meets no condition, whether its operator is negated or not.
pub condition_matches-missing :
    (payload : Payload) (field : Field) (o : Operator) (value : Text)
    → (lookup_field field payload ≡ none) ⊎ (lookup_field field payload ≡ some [])
    → (condition_matches payload field o value ≡ false)
      × (condition_matches payload field (negated o) value ≡ false)
unfolding condition_matches
condition_matches-missing payload field o value (inl absent) = rw absent (refl, refl)
condition_matches-missing payload field o value (inr empty) = rw empty (refl, refl)
