-- ===== src/Workflows/Settling.antt =====
-- How the votes on a stage settle it, and where an instance goes from a settled stage
-- (backend/app/services/workflows.py).
use access_piliot.Prelude.{
  ℕ, ◌≡◌, refl, inl, inr, Bool-cases, Bool, true, false, not, ◌&&◌, Option, none, some, List, [],
  ◌∷◌, arith, all, contains, first, ltb, update_row,
}
use mathlib.Core.Logic.{◌↔◌}
use access_piliot.Store.{
  Session, StageDefinition, Instance, StageInstance, Payload, Vote, Decision, approve, all_of,
  approved, NotificationType, for_each, create_notification, M, ◌>>=◌, ◌>>◌, modify, gets, fresh_id,
}
use access_piliot.Workflows.Stages.{
  is_needed, after_last, add_stage, skip_stage, enter_stage, complete, update_instance,
  advance_from, advance,
}
use access_piliot.Workflows.Voting.{finalize_as, has_approved}

module _ (p : ℕ → Bool) where
  all-contains : (xs : List ℕ) (u : ℕ) → all p xs ≡ true → contains u xs ≡ true → p u ≡ true
  all-contains [] u h k = ground arith
  all-contains (x ∷ xs) u h k = ground (arith, all-contains xs u)

  all_of_contains : (xs : List ℕ) (u : ℕ) → contains u xs ≡ true → p u ≡ false → all p xs ≡ false
  all_of_contains xs u k missing = ground (arith, all-contains xs u)

  not-all : (xs : List ℕ) → all p xs ≡ false → (u : ℕ) × (contains u xs ≡ true) × (p u ≡ false)
  not-all [] h = ground arith
  not-all (x ∷ xs) h = elim (Bool-cases (p x)) [
    | inl e ↦ let (u, there, missing) = not-all xs (ground arith) in (u, ground arith, missing)
    | inr e ↦ (x, ground arith, e)
  ]

finalize_as-open :
    (o : Bool) (st : StageInstance) (d : Decision) (votes : List Vote)
    → finalize_as o st d votes ≡ none
    → (o ≡ false)
      × (st.approval_mode ≡ all_of)
      × (d ≡ approve)
      × (all (has_approved st.id votes) st.required_approver_ids ≡ false)
unfolding finalize_as
finalize_as-open true st d votes h = ground arith
finalize_as-open false st d votes h = ground arith

finalize_as-awaited :
    (o : Bool) (st : StageInstance) (d : Decision) (votes : List Vote)
    → o ≡ false
    → st.approval_mode ≡ all_of
    → d ≡ approve
    → all (has_approved st.id votes) st.required_approver_ids ≡ false
    → finalize_as o st d votes ≡ none
unfolding finalize_as
finalize_as-awaited true st d votes plain mode approves missing = ground arith
finalize_as-awaited false st d votes plain mode approves missing = ground arith

-- A decision settles its stage as it says, whatever the mode and the other votes.
pub finalize_as-decision :
    (overrides : Bool) (st : StageInstance) (d e : Decision) (votes : List Vote)
    → finalize_as overrides st d votes ≡ some e
    → e ≡ d
unfolding finalize_as
finalize_as-decision true st d e votes h = ground arith
finalize_as-decision false st d e votes h = ground arith

-- A vote leaves its stage open exactly when it is an approval by a person who does not override, the
-- stage needs all of its approvers, and one of those has not approved yet.
pub finalize_as-none_iff :
    (overrides : Bool) (st : StageInstance) (d : Decision) (votes : List Vote)
    → (finalize_as overrides st d votes ≡ none) ↔ (
        (overrides ≡ false)
        × (st.approval_mode ≡ all_of)
        × (d ≡ approve)
        × ((u : ℕ) × (contains u st.required_approver_ids ≡ true)
            × (has_approved st.id votes u ≡ false)))
finalize_as-none_iff overrides st d votes = (
  λ h.
      let (plain, mode, approves, missing) = finalize_as-open overrides st d votes h in
      (plain, mode, approves, not-all (has_approved st.id votes) st.required_approver_ids missing),
  λ (plain, mode, approves, (u, named, missing)).
      finalize_as-awaited overrides st d votes plain mode approves
        (all_of_contains (has_approved st.id votes) st.required_approver_ids u named missing),
)

-- The stage that an instance goes to: the first one not before `from` whose condition holds.
abbrev pub next_needed : Payload → ℕ → List StageDefinition → Option StageDefinition
next_needed payload from = first (λ d. not (ltb d.stage_number from) && is_needed payload d)

-- Without one the instance is approved; else it waits at that stage.
abbrev pub moved : List StageDefinition → ℕ → Option StageDefinition → Instance → Instance
moved defs now none i = record i {
  status = approved;
  completed_at = some now;
  current_stage_number = after_last defs;
}
moved defs now (some d) i = record i { current_stage_number = d.stage_number }

notifying-instances :
    (kind : NotificationType) (us : List ℕ) (s : Session)
    → (for_each (λ u. create_notification u kind) us s).1.db.instances ≡ s.db.instances
unfolding for_each create_notification modify ◌>>=◌
notifying-instances kind [] s = refl
notifying-instances kind (u ∷ us) s = notifying-instances kind us (create_notification u kind s).1

enter_stage-instances :
    (i : Instance) (d : StageDefinition) (s : Session)
    → (enter_stage i d s).1.db.instances
      ≡ update_row
          (λ r. r.id)
          i.id
          (λ r. record r { current_stage_number = d.stage_number })
          s.db.instances
unfolding enter_stage add_stage update_instance modify ◌>>=◌ gets fresh_id
enter_stage-instances i d s = notifying-instances _ d.approver_user_ids _

-- Recording a skipped stage changes no instance.
skip_stage-instances :
    (i : Instance) (d : StageDefinition) (s : Session) (rest : M (Unit {0}))
    (f : ℕ → Instance → Instance)
    → ((rest (skip_stage i d s).1).1.db.instances
        ≡ update_row
            (λ r. r.id)
            i.id
            (f (skip_stage i d s).1.now)
            (skip_stage i d s).1.db.instances)
    → ((skip_stage i d >> rest) s).1.db.instances
      ≡ update_row (λ r. r.id) i.id (f s.now) s.db.instances
unfolding skip_stage add_stage ◌>>=◌ gets fresh_id modify
skip_stage-instances i d s rest f h = h

advance_from-instances :
    (i : Instance) (defs : List StageDefinition) (from : ℕ) (ds : List StageDefinition)
    (s : Session)
    → (advance_from i defs from ds s).1.db.instances
      ≡ update_row
          (λ r. r.id)
          i.id
          (moved defs s.now (next_needed i.payload from ds))
          s.db.instances
unfolding advance_from
advance_from-instances i defs from [] s = unfold complete update_instance modify ◌>>=◌ gets in refl
advance_from-instances i defs from (d ∷ ds) s = elim (Bool-cases (ltb d.stage_number from)) [
  | inl before ↦ rw before (advance_from-instances i defs from ds s)
  | inr reached ↦ elim (Bool-cases (is_needed i.payload d)) [
    | inl needed ↦ rw (reached, needed) (enter_stage-instances i d s)
    | inr passed ↦
        rw (reached, passed)
          (skip_stage-instances i d s (advance_from i defs from ds)
            (λ now. moved defs now (next_needed i.payload from ds))
            (advance_from-instances i defs from ds (skip_stage i d s).1))
  ]
]

-- The loop over the stages leads the instance to the first stage from the given number on whose
-- condition holds, or approves it if there is none; no other instance is written.
pub advance-instances :
    (i : Instance) (defs : List StageDefinition) (from : ℕ) (s : Session)
    → (advance i defs from s).1.db.instances
      ≡ update_row
          (λ r. r.id)
          i.id
          (moved defs s.now (next_needed i.payload from defs))
          s.db.instances
unfolding advance
advance-instances i defs from s = advance_from-instances i defs from defs s
