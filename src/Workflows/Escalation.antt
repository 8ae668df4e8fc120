-- ===== src/Workflows/Escalation.antt =====
-- What the escalation sweep leaves (`sweep_workflow_escalations` of backend/app/services/workflows.py).
use access_piliot.Prelude.{
  ℕ, ◌+◌, ◌≡◌, ◌⊎◌, refl, sym, ap, ◌∙◌, Bool, true, none, some, List, [], ◌∷◌, ◌++◌, select, length,
  Bool-cases, inl, inr, arith,
}
use mathlib.Core.Path.{subst}
use access_piliot.Store.{
  Session, Db, StageInstance, M, Result, ok, pure, bind-known, gets, modify, commit_unless,
  rollback, try_any, or_handle, for_each, ◌>>=◌, ◌>>◌, record_audit, create_notification,
  workflow_stage_escalated_note, workflow_stage_escalated,
}
use access_piliot.Workflows.Overdue.{
  stage_keys_distinct, marked, mark, distinct-mark, select-mark, length-middle, none_yet, ++-middle,
}
use access_piliot.Workflows.Stages.{
  is_overdue, mark_escalated, escalate, escalate_all, update_stage, sweep_workflow_escalations,
}

abbrev note_all : List ℕ → M (Unit {0})
note_all us = for_each (λ u. create_notification u workflow_stage_escalated_note) us

note_all-result :
    (us : List ℕ) (s : Session)
    → let (r, t) = note_all us s in
      (r ≡ ok tt)
      × (t.db.stage_instances ≡ s.db.stage_instances)
      × (t.now ≡ s.now)
      × (t.saved ≡ s.saved)
unfolding for_each create_notification modify ◌>>=◌
note_all-result [] s = (refl, refl, refl, refl)
note_all-result (u ∷ us) s =
    note_all-result us (create_notification u workflow_stage_escalated_note s).1

module _ (refuses : Db → Bool) where
  -- The stage is marked and counted, or some write was refused and the stage is as it was.
  abbrev Went : ℕ → StageInstance → Session → Result ℕ × Session → Type 0
  Went now d s (r, t) =
      (((r ≡ ok 1) × (t.db.stage_instances ≡ mark now d s.db.stage_instances))
        ⊎ ((r ≡ ok 0)
            × (t.db.stage_instances ≡ s.db.stage_instances)
            × ((db : Db) × (refuses db ≡ true))))
      × (t.now ≡ s.now)
      × (t.saved ≡ t.db)

  abbrev ending : StageInstance → M ℕ
  ending d = do
    record_audit workflow_stage_escalated (some d.id) none none true
    commit_unless refuses
    pure 1

  abbrev skipping : M ℕ
  skipping = rollback >> pure 0

  abbrev noted : StageInstance → Session → Session
  noted d t = (record_audit workflow_stage_escalated (some d.id) none none true t).1

  ending-Went :
      (now : ℕ) (d : StageInstance) (s u : Session)
      → s.saved ≡ s.db
      → u.db.stage_instances ≡ mark now d s.db.stage_instances
      → u.now ≡ s.now
      → u.saved ≡ s.saved
      → Went now d s (try_any (ending d) skipping u)
  unfolding try_any record_audit modify commit_unless rollback pure ◌>>=◌
  ending-Went now d s u clean rows time kept = elim (Bool-cases (refuses (noted d u).db)) [
    | inl refused ↦ rw refused (
      inr (refl, ap (λ db. db.stage_instances) (kept ∙ clean), ((noted d u).db, refused)),
      time,
      refl,
    )
    | inr accepted ↦ rw accepted (inl (refl, rows), time, refl)
  ]

  abbrev begun : ℕ → StageInstance → Session → Session
  begun now d s = (update_stage d.id (marked now) s).1

  told : ℕ → StageInstance → Session → Session
  told now d s = (note_all d.fallback_approver_ids (begun now d s)).1

  mark_escalated-run :
      (now : ℕ) (d : StageInstance) (s : Session)
      → mark_escalated refuses now d s ≡ ending d (told now d s)
  unfolding mark_escalated update_stage modify ◌>>=◌ told
  mark_escalated-run now d s =
      bind-known (note_all d.fallback_approver_ids) (λ _. ending d) (begun now d s) tt
        (note_all-result d.fallback_approver_ids (begun now d s)).0

  escalate-run :
      (now : ℕ) (d : StageInstance) (s : Session)
      → escalate refuses now d s ≡ try_any (ending d) skipping (told now d s)
  unfolding escalate try_any
  escalate-run now d s = ap (λ x. or_handle x.0 skipping x.1) (mark_escalated-run now d s)

  escalate-Went :
      (now : ℕ) (d : StageInstance) (s : Session)
      → s.saved ≡ s.db
      → Went now d s (escalate refuses now d s)
  unfolding told update_stage modify
  escalate-Went now d s clean =
      let (done, rows, time, kept) = note_all-result d.fallback_approver_ids (begun now d s) in
      subst (Went now d s) (sym (escalate-run now d s))
        (ending-Went now d s (told now d s) clean rows time kept)

  -- What the loop over the stages of the query has done: `k` are still to come, and `total` of those
  -- in the table are overdue.
  abbrev Counted : (now k total : ℕ) → Result ℕ × Session → Type 0
  Counted now k total (r, t) =
      (n : ℕ) × (r ≡ ok n)
      × (n + length (select (is_overdue now) t.db.stage_instances) ≡ total)
      × (t.saved ≡ t.db)
      × (t.now ≡ now)
      × ((n ≡ k) ⊎ ((db : Db) × (refuses db ≡ true)))

  goes-Counted :
      (now m k k' total total' : ℕ) (d : StageInstance) (ds : List StageInstance) (s : Session)
      → (escalate refuses now d s).0 ≡ ok m
      → Counted now k total (escalate_all refuses now ds (escalate refuses now d s).1)
      → m + total ≡ total'
      → (m + k ≡ k') ⊎ ((db : Db) × (refuses db ≡ true))
      → Counted now k' total' (escalate_all refuses now (d ∷ ds) s)
  unfolding escalate_all pure
  goes-Counted now m k k' total total' d ds s done (n, went, counted, settled, time, all) sum more =
      let run =
        bind-known (escalate refuses now d)
          (λ n. escalate_all refuses now ds >>= λ rest. pure (n + rest)) s m done
        ∙ bind-known (escalate_all refuses now ds) (λ rest. pure (m + rest))
            (escalate refuses now d s).1 n went in
      subst (Counted now k' total') (sym run)
        (m + n, refl, ground (arith, counted, sum), settled, time, together all more)
    where
      together :
          ((n ≡ k) ⊎ ((db : Db) × (refuses db ≡ true)))
          → ((m + k ≡ k') ⊎ ((db : Db) × (refuses db ≡ true)))
          → (m + n ≡ k') ⊎ ((db : Db) × (refuses db ≡ true))
      together (inl e) (inl h) = inl (ap (λ j. m + j) e ∙ h)
      together (inl e) (inr h) = inr h
      together (inr e) h = inr e

  escalate_all-Counted :
      (now : ℕ) (left ds : List StageInstance) (s : Session)
      → stage_keys_distinct s.db.stage_instances ≡ true
      → s.saved ≡ s.db
      → s.now ≡ now
      → select (is_overdue now) s.db.stage_instances ≡ left ++ ds
      → Counted now (length ds) (length (left ++ ds)) (escalate_all refuses now ds s)
  unfolding escalate_all
  escalate_all-Counted now left [] s distinct clean time due =
      unfold pure in (0, refl, none_yet _ ∙ ap length due, clean, time, inl refl)
  escalate_all-Counted now left (d ∷ ds) s distinct clean time due =
      let t = (escalate refuses now d s).1 in
      let (went, later, settled) = escalate-Went now d s clean in
      elim went [
        | inl (done, rows) ↦
            goes-Counted now 1 _ _ _ _ d ds s done
              (escalate_all-Counted now left ds t
                (ap stage_keys_distinct rows ∙ distinct-mark now d s.db.stage_instances ∙ distinct)
                settled (later ∙ time)
                (ap (select (is_overdue now)) rows
                  ∙ select-mark now left d ds s.db.stage_instances distinct due))
              (sym (length-middle left d ds)) (inl (ground arith))
        | inr (done, rows, refused) ↦
            goes-Counted now 0 _ _ _ _ d ds s done
              (escalate_all-Counted now (left ++ d ∷ []) ds t
                (ap stage_keys_distinct rows ∙ distinct) settled (later ∙ time)
                (ap (select (is_overdue now)) rows ∙ due ∙ ++-middle left d ds))
              (none_yet _ ∙ sym (ap length (++-middle left d ds))) (inr refused)
      ]

  -- Let no two stages share a key, and nothing be uncommitted; the database may refuse any write. The
  -- sweep always returns a number, with nothing uncommitted; the number of the overdue stages has gone
  -- down by it, and it is the number of all that were overdue, unless the database refuses some state.
  pub sweep_workflow_escalations-counted :
      (s : Session)
      → stage_keys_distinct s.db.stage_instances ≡ true
      → s.saved ≡ s.db
      → let (r, t) = sweep_workflow_escalations refuses s in
        (n : ℕ) × (r ≡ ok n)
        × (n + length (select (is_overdue t.now) t.db.stage_instances)
            ≡ length (select (is_overdue s.now) s.db.stage_instances))
        × (t.saved ≡ t.db)
        × ((n ≡ length (select (is_overdue s.now) s.db.stage_instances))
            ⊎ ((db : Db) × (refuses db ≡ true)))
  unfolding sweep_workflow_escalations ◌>>=◌ gets
  sweep_workflow_escalations-counted s distinct clean =
      let due = select (is_overdue s.now) s.db.stage_instances in
      let t = (escalate_all refuses s.now due s).1 in
      let (n, done, counted, settled, time, all) =
        escalate_all-Counted s.now [] due s distinct clean refl refl in
      (
        n,
        done,
        ap (λ now. n + length (select (is_overdue now) t.db.stage_instances)) time ∙ counted,
        settled,
        all,
      )
