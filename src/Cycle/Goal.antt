-- ===== src/Cycle/Goal.antt =====
-- About the goal and the schedule in the steps before a cycle answers
-- (src/agents/declarationOfCapital/plan.ts).
use fiscal_mind_agent.Prelude.{
  Bool, true, false, ◌≡◌, refl, ◌∙◌, String, none, List, [], ◌∷◌, if-cases, if◌then◌else◌, ℕ,
  Option, some, ◌+◌, ◌||◌, ◌++◌, ap, arith, ltb,
}
use fiscal_mind_agent.Documents.Table.{Table}
use fiscal_mind_agent.Decision.Answer.{
  Changes, IntakeState, AttestationDecision, requested, confirmed_by,
}
use fiscal_mind_agent.Ties.Evidence.{FilePair}
use fiscal_mind_agent.Ties.Pairs.{Filtered}
use fiscal_mind_agent.Ties.NewRows.{Tie, Assignment}
use fiscal_mind_agent.Verification.Batch.{VerificationTarget, run_verification_batch}
use fiscal_mind_agent.Cycle.Run.{
  PlanRun, CycleCall, ChecklistChanges, Step, call, and_then, build_intake_state, CycleWorld,
  publish_updated, claimed_email, planner_step, verify_batch, link_to_document, documents_claimed,
  documents_collected,
}
use fiscal_mind_agent.Cycle.Decide.{Split, CollectionOutcome}
use fiscal_mind_agent.Cycle.Collect.{
  apply_outcome, split_allowed, assigned_files, outcome_of, collected_with, company_checked,
  collected_rows, claimed_rows, link_files_to_documents, record_collections, collect_files,
}
use fiscal_mind_agent.Cycle.Follow.{
  Planner, files_collected, verify_one, verify_targets, settled_changes, added_and_settled,
  apply_changes,
}
use fiscal_mind_agent.Cycle.Apply.{
  tell_claimed, settle_checklist_changes, apply_attestation_confirmed, apply_retirements,
  apply_stated_costs, apply_vehicle_declarations, apply_additions, apply_resolutions,
}
use fiscal_mind_agent.Cycle.Kept.{
  draft_of, drafts, drafts-append, apply_resolutions-Kept, apply_additions-Kept,
  apply_retirements-Kept, apply_stated_costs-Kept, apply_vehicle_declarations-Kept,
}

-- Whether the goal is complete, and how many messages were put on schedule.
abbrev pub view : PlanRun → Bool × ℕ
view s = (s.goal_complete, drafts s.calls)

pub says : (cs : List CycleCall) (s : PlanRun) → drafts cs ≡ 0 → view (call cs s) ≡ view s
says cs s h = ap (λ n. (s.goal_complete, n)) (no_more (drafts-append s.calls cs))
  where
    no_more :
        drafts (s.calls ++ cs) ≡ drafts s.calls + drafts cs
        → drafts (s.calls ++ cs) ≡ drafts s.calls
    no_more e = omega (arith, e, h)

-- `says` where the state before the call is not named.
pub quiet :
    (goal : Bool) (l cs : List CycleCall)
    → drafts cs ≡ 0
    → Path (Bool × ℕ) (goal, drafts (l ++ cs)) (goal, drafts l)
quiet goal l cs h = ap (λ n. (goal, n)) (no_more (drafts-append l cs))
  where
    no_more : drafts (l ++ cs) ≡ drafts l + drafts cs → drafts (l ++ cs) ≡ drafts l
    no_more e = omega (arith, e, h)

abbrev pub Keeps : (PlanRun → PlanRun) → Type 0
Keeps step = (s : PlanRun) → view (step s) ≡ view s

-- A test of which neither side changes the view.
chosen :
    (b : Bool) (s t u : PlanRun)
    → view t ≡ view s
    → view u ≡ view s
    → view (if b then t else u) ≡ view s
chosen b s t u ht hu = if-cases {A = PlanRun} (λ x. view x ≡ view s) b (λ _. ht) (λ _. hu)

and_then-Kept :
    (s : PlanRun) (r : PlanRun × Bool) (next : Step)
    → view r.0 ≡ view s
    → ((t : PlanRun) → view (next t).0 ≡ view t)
    → view (and_then r next).0 ≡ view s
and_then-Kept s (t, false) next kept more = kept
and_then-Kept s (t, true) next kept more = more t ∙ kept

writes :
    (s : PlanRun) (t : Table) (c : ChecklistChanges) (n : ℕ)
    → view (record s { table = t; changes = c; inserted = n }) ≡ view s
writes s t c n = refl

said : (c : CycleCall) (s : PlanRun) → draft_of c ≡ 0 → view (call (c ∷ []) s) ≡ view s
said c s h = says (c ∷ []) s (omega (arith, h))

module _ (w : CycleWorld) where
  told : (names : List String) → Keeps (tell_claimed w names)
  told [] s = refl
  told (name ∷ names) s = says (claimed_email (name ∷ names) ∷ []) s refl

  settled-Kept : (intake : IntakeState) → Keeps (settle_checklist_changes w intake)
  unfolding settle_checklist_changes
  settled-Kept intake s =
      told s.changes.claimed_at_creation _
      ∙ chosen (ltb 0 s.changes.applied) s _ s
          (quiet _ _ (publish_updated ∷ []) refl
            ∙ chosen (intake.attestation_requested || intake.attestation_confirmed) s _ s refl refl)
          refl

  confirmed-Kept :
      (decision : Option AttestationDecision) → Keeps (apply_attestation_confirmed decision)
  unfolding apply_attestation_confirmed
  confirmed-Kept none s = refl
  confirmed-Kept (some requested) s = refl
  confirmed-Kept (some (confirmed_by evidence)) s =
      quiet _ _ (planner_step "apply_attestation" ∷ []) refl

module _ (p : Planner) (c : Changes) (intake : IntakeState) where
  settled_changes-Kept : (s : PlanRun) → view (settled_changes p intake c s).0 ≡ view s
  settled_changes-Kept s =
      let w = p.world in
      let s1 = apply_retirements w c.retired s in
      let s2 = apply_stated_costs w (p.stated_costs c) s1 in
      let s3 = apply_vehicle_declarations w (p.stated_vehicles c) s2 in
      confirmed-Kept w c.attestation (settle_checklist_changes w intake s3)
      ∙ settled-Kept w intake s3
      ∙ apply_vehicle_declarations-Kept view writes said w (p.stated_vehicles c) s2
      ∙ apply_stated_costs-Kept view writes said w (p.stated_costs c) s1
      ∙ apply_retirements-Kept view writes said w c.retired s

  added_and_settled-Kept : (s : PlanRun) → view (added_and_settled p intake c s).0 ≡ view s
  added_and_settled-Kept s =
      and_then-Kept s (apply_additions p.world c.added_instances s) (settled_changes p intake c)
        (apply_additions-Kept view writes said p.world c.added_instances s) settled_changes-Kept

-- Even where a step throws.
pub apply_changes-Kept :
    (p : Planner) (c : Changes) (s : PlanRun) → view (apply_changes p c s).0 ≡ view s
unfolding apply_changes
apply_changes-Kept p c s =
    let intake = build_intake_state p.world s in
    and_then-Kept s (apply_resolutions p.world c.resolutions s) (added_and_settled p intake c)
      (apply_resolutions-Kept view writes said p.world c.resolutions s)
      (added_and_settled-Kept p c intake)

module _ (p : Planner)
    -- the split of an item neither completes the goal nor drafts a message
    (split_keeps : (pairs : List FilePair) (s : PlanRun)
      → view (p.split_items_by_company pairs s).0 ≡ view s) where
  linked :
      (ms : List Tie)
      → Keeps (
          link_files_to_documents p.identify p.institution_bound p.split_items_by_company p.world
            ms)
  linked [] s = refl
  linked (m ∷ ms) s =
      linked ms _
      ∙ chosen _ s _ s (says (link_to_document m.file_id m.document_id ∷ []) s refl) refl

  claimed-Kept :
      (ids : List String)
      → Keeps (claimed_rows p.identify p.institution_bound p.split_items_by_company p.world ids)
  claimed-Kept [] s = refl
  claimed-Kept (id ∷ ids) s = quiet _ _ (documents_claimed (id ∷ ids) ∷ []) refl

  collected-Kept :
      (ids : List String)
      → Keeps (collected_rows p.identify p.institution_bound p.split_items_by_company p.world ids)
  collected-Kept [] s = refl
  collected-Kept (id ∷ ids) s = quiet _ _ (documents_collected (id ∷ ids) ∷ []) refl

  recorded :
      (o : CollectionOutcome)
      → Keeps (record_collections p.identify p.institution_bound p.split_items_by_company p.world o)
  recorded o s = chosen _ s s _ refl (says (planner_step "apply_collections" ∷ []) s refl)

  applied-Kept :
      (o : CollectionOutcome)
      → Keeps (apply_outcome p.identify p.institution_bound p.split_items_by_company p.world o)
  applied-Kept o s =
      recorded o _
      ∙ linked o.proposed_pairs _
      ∙ claimed-Kept o.newly_claimed _
      ∙ collected-Kept o.newly_collected s

  with_split :
      (after : Bool) (c : Changes) (documents : Table) (checked : Filtered) (r : PlanRun × Split)
      (assigned : Assignment)
      → view
          (collected_with p.identify p.institution_bound p.split_items_by_company p.world after c
            documents checked r assigned).0
        ≡ view r.0
  with_split after c documents checked (s, split) assigned =
      applied-Kept
        (outcome_of p.identify p.institution_bound p.split_items_by_company p.world after c
          documents checked split assigned)
        s

  pub collect_files-Kept :
      (after : Bool) (c : Changes) (s : PlanRun) → view (files_collected p after c s).0 ≡ view s
  unfolding collect_files
  collect_files-Kept after c s =
      let checked =
        company_checked p.identify p.institution_bound p.split_items_by_company p.world
          c.matched_files s.documents in
      with_split after c s.documents checked
        (split_allowed p.identify p.institution_bound p.split_items_by_company p.world after
          checked.allowed s)
        (assigned_files p.identify p.institution_bound p.split_items_by_company p.world after
          s.changes.created_with_files)
      ∙ if-cases {A = PlanRun × Split} (λ r. view r.0 ≡ view s) after (λ _. refl)
          (λ _. split_keeps checked.allowed s)

  batch-Kept :
      (ts : List VerificationTarget) (s : PlanRun)
      → view (run_verification_batch (λ t x. (x, p.is_ready t)) (verify_one p) ts s).0 ≡ view s
  unfolding run_verification_batch
  batch-Kept [] s = refl
  batch-Kept (t ∷ ts) s = batch-Kept ts _ ∙ one (p.is_ready t)
    where
      one : (ready : Bool) → view (if ready then verify_one p t s else (s, none)).0 ≡ view s
      one true = refl
      one false = refl

  pub verify_targets-Kept : (ts : List VerificationTarget) → Keeps (verify_targets p ts)
  unfolding verify_targets
  verify_targets-Kept ts s =
      quiet _ _ (planner_step "rerun_after_verification" ∷ []) refl
      ∙ batch-Kept ts _
      ∙ says (planner_step "withhold_reply" ∷ verify_batch ts ∷ []) s refl
