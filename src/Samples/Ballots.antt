-- ===== src/Samples/Ballots.antt =====
-- The theorems about workflows, Separation of Duties, memberships and schedules
-- (backend/app/services, backend/app/workers) at the sample data.
use mathlib.Core.Logic.{◌↔◌}
use access_piliot.Prelude.{
  ℕ, ◌≡◌, refl, true, false, none, some, List, [], ◌∷◌, any, contains, get_row, update_row,
}
use access_piliot.Store.{
  Session, Instance, StageInstance, confirmed, ok, approve, Vote, commit, modify, raise_if,
  record_audit, ◌>>=◌, all_of,
}
use access_piliot.Target.{internal_user_id}
use access_piliot.Workflows.Stages.{is_waiting, instance_by, stage_by, advance}
use access_piliot.Workflows.Voting.{
  finalize_as, has_approved, vote_of, authorize_stage_decision, subject_label,
}
use access_piliot.Workflows.Decide.{get_instance, decide_stage, apply_decision, await_more}
use access_piliot.Workflows.Settling.{finalize_as-none_iff, next_needed, moved, advance-instances}
use access_piliot.Workflows.Ballot.{MayVote, decide_stage-ok}
use access_piliot.Samples.{
  no_handlers, session_with, request_instance, open_stage, stage_definition, blank_payload,
}

abbrev quiet_session : Session
quiet_session = session_with confirmed []

voted : (decide_stage no_handlers 30 31 approve 101 [] quiet_session).0 ≡ ok request_instance
unfolding decide_stage get_instance ◌>>=◌ get_row raise_if authorize_stage_decision modify
    finalize_as apply_decision await_more record_audit commit subject_label
voted = refl

decide_stage-ok_example :
    (i : Instance) × (st : StageInstance) × (actor : ℕ) × (instance_by 30 quiet_session.db ≡ some i)
    × (stage_by 31 quiet_session.db ≡ some st)
    × (st.workflow_instance_id ≡ i.id)
    × (is_waiting st.status ≡ true)
    × (internal_user_id 101 quiet_session.db ≡ some actor)
    × MayVote st actor []
    × (any (vote_of st.id actor) quiet_session.db.votes ≡ false)
decide_stage-ok_example =
    decide_stage-ok no_handlers 30 31 approve 101 [] quiet_session request_instance voted

abbrev one_vote : List Vote
one_vote = record { stage_instance_id = 31; decided_by = 1; decision = approve } ∷ []

finalize_as-none_iff_example : (finalize_as false open_stage approve one_vote ≡ none) ↔ (
    (false ≡ false)
    × (all_of ≡ all_of)
    × (approve ≡ approve)
    × ((u : ℕ) × (contains u (1 ∷ 2 ∷ []) ≡ true) × (has_approved 31 one_vote u ≡ false)))
finalize_as-none_iff_example = finalize_as-none_iff false open_stage approve one_vote

advance-instances_example :
    (advance request_instance
      (stage_definition 1 ∷ stage_definition 2 ∷ [])
      2
      quiet_session).1.db.instances
    ≡ update_row
        (λ r. r.id)
        30
        (moved
          (stage_definition 1 ∷ stage_definition 2 ∷ [])
          1000
          (next_needed blank_payload 2 (stage_definition 1 ∷ stage_definition 2 ∷ [])))
        (request_instance ∷ [])
advance-instances_example =
    advance-instances request_instance (stage_definition 1 ∷ stage_definition 2 ∷ []) 2
      quiet_session
