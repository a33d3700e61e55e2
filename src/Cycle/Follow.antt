-- ===== src/Cycle/Follow.antt =====
-- The whole cycle (`planFollowUp`, `askPlanner`, `buildDecisionContext`, `verifyThenReplan`,
-- `completeGoalIfDone` and `scheduleReply` of src/agents/declarationOfCapital/plan.ts, and `decide` of
-- decide.ts). The answers of the model are an argument. The follow-up cycle after a verification runs on
-- fuel, of which two are enough.
use fiscal_mind_agent.Prelude.{
  ℕ, zero, suc, Bool, true, false, ◌&&◌, String, Option, none, some, List, [], ◌∷◌, length,
  first_some, ◌==◌, if◌then◌else◌,
}
use fiscal_mind_agent.Decision.Result.{Result, ok, err}
use fiscal_mind_agent.Decision.Answer.{
  DecisionResponse, TaxFetchState, Template, DecisionContext, FollowUpMessage, TaxFetchDecision,
  IntakeState, DocumentResolution, InstanceAddition, AttestationDecision, requested, confirmed_by,
  Changes, NormalizedDecision, declines, completes, collects, follows_up,
}
use fiscal_mind_agent.Decision.Lists.{Catalog}
use fiscal_mind_agent.Decision.Gate.{normalize_decision}
use fiscal_mind_agent.Ties.Evidence.{FilePair}
use fiscal_mind_agent.Verification.Record.{RecordFormat}
use fiscal_mind_agent.Verification.Check.{
  VerificationOutcome, CheckWorld, verify_collected_document,
}
use fiscal_mind_agent.Verification.Batch.{VerificationTarget, run_verification_batch}
use fiscal_mind_agent.Cycle.Run.{
  CycleCall, planner_step, publish_updated, tax_fetch_action, goal_completed, sync_status,
  send_closing, goal_complete_email, schedule_draft, attestation_requested, verify_batch,
  handle_client_decline, PlanRun, call, Step, and_then, CycleWorld, all_documents_settled,
  build_intake_state, load_planning_context,
}
use fiscal_mind_agent.Cycle.Apply.{
  apply_resolutions, apply_additions, apply_retirements, apply_stated_costs,
  apply_vehicle_declarations, settle_checklist_changes, apply_attestation_confirmed,
}
use fiscal_mind_agent.Cycle.Decide.{Split, CollectionOutcome, pick_verification_targets}
use fiscal_mind_agent.Cycle.Collect.{collect_files}

-- What a call of the model gives: it fails, its tool calls are refused, or they make up an answer.
pub data ModelAnswer : Type 0 where
  call_failed bad_calls : ModelAnswer
  answered : DecisionResponse → ModelAnswer

-- What the rest of the program and the world answer to a cycle.
pub record Planner : Type 0 where
  pub world : CycleWorld
  pub catalog : Catalog
  pub render : String → List String → String
  pub validate_stated :
      DecisionResponse
      → DecisionContext
      → List DocumentResolution
      → List InstanceAddition
      → Result (Unit {0})
  -- the first answer, and the one after the correction
  pub model : (after_verification correction : Bool) → PlanRun → ModelAnswer
  pub window_open : Bool
  pub templates : List Template
  pub hidden_templates : List String
  pub tax_fetch : PlanRun → List TaxFetchState
  -- the costs and the vehicles that the answer states of existing items
  pub stated_costs : Changes → List (String × String)
  pub stated_vehicles : Changes → List (String × String)
  pub identify : Option String → Option String
  pub institution_bound : Option String → Bool
  pub split_items_by_company : List FilePair → PlanRun → PlanRun × Split
  pub record_format : RecordFormat
  pub check_world : VerificationTarget → CheckWorld
  pub is_ready : VerificationTarget → Bool
  pub client_exists : Bool
  pub roll_send_at : String → String
  pub email_id : String
  -- which of the calls around the goal and the reply come through; the others throw
  pub draft_lands : Bool
  pub stamp_lands : Bool
  pub fetch_lands : Bool
  pub goal_lands : Bool

pub data GoalCheck : Type 0 where
  ended not_done contradicted interrupted : GoalCheck

module _ (p : Planner) where
  -- `buildDecisionContext`
  abbrev pub build_decision_context : (after_verification : Bool) → PlanRun → DecisionContext
  build_decision_context after s = record {
    window_open = p.window_open;
    templates = p.templates;
    hidden_templates = p.hidden_templates;
    tax_fetch = p.tax_fetch s;
    intake = some (build_intake_state p.world s);
    after_verification = after;
  }

  abbrev pub accepted : Result NormalizedDecision → Option NormalizedDecision
  accepted (ok d) = some d
  accepted (err why) = none

  -- `gateDecision`
  abbrev pub gate_decision : ModelAnswer → DecisionContext → Option NormalizedDecision
  gate_decision call_failed ctx = none
  gate_decision bad_calls ctx = none
  gate_decision (answered raw) ctx =
      accepted (normalize_decision p.catalog p.render p.validate_stated raw ctx)

  abbrev pub or_corrected : ModelAnswer → ModelAnswer → DecisionContext → Option NormalizedDecision
  or_corrected call_failed second ctx = none
  or_corrected first second ctx = first_some (gate_decision first ctx) (gate_decision second ctx)

  -- `decide` of src/agents/declarationOfCapital/decide.ts: one answer and one corrective pass; `none`
  -- when it throws.
  unfoldable pub ask_planner : (after_verification : Bool) → PlanRun → Option NormalizedDecision
  unfolding build_intake_state normalize_decision
  ask_planner after s =
      or_corrected (p.model after false s) (p.model after true s) (build_decision_context after s)

  -- The steps that every accepted answer but a decline goes through before the files: those after the
  -- additions, those after the resolutions, and all.
  abbrev pub settled_changes : IntakeState → Changes → Step
  settled_changes intake c s =
      let s1 = apply_retirements p.world c.retired s in
      let s2 = apply_stated_costs p.world (p.stated_costs c) s1 in
      let s3 = apply_vehicle_declarations p.world (p.stated_vehicles c) s2 in
      (apply_attestation_confirmed c.attestation (settle_checklist_changes p.world intake s3), true)

  abbrev pub added_and_settled : IntakeState → Changes → Step
  added_and_settled intake c s =
      and_then (apply_additions p.world c.added_instances s) (settled_changes intake c)

  unfoldable pub apply_changes : Changes → Step
  unfolding build_intake_state apply_resolutions apply_additions apply_retirements
      apply_stated_costs apply_vehicle_declarations settle_checklist_changes
      apply_attestation_confirmed
  apply_changes c s =
      and_then (apply_resolutions p.world c.resolutions s)
        (added_and_settled (build_intake_state p.world s) c)

  abbrev pub files_collected :
      (after_verification : Bool) → Changes → PlanRun → PlanRun × CollectionOutcome
  files_collected = collect_files p.identify p.institution_bound p.split_items_by_company p.world

  -- `completeGoalIfDone`
  abbrev pub is_goal_done : (goal_complete : Bool) → PlanRun → Bool
  is_goal_done goal_complete s =
      if length s.documents == 0
      then goal_complete
      else all_documents_settled s.documents && s.attestation_confirmed

  abbrev pub closing : PlanRun → List CycleCall
  closing s =
      if length s.documents == 0
      then []
      else send_closing ∷ planner_step "send_closing" ∷ goal_complete_email ∷ []

  unfoldable pub complete_goal_if_done :
      (goal_complete : Bool) → Option TaxFetchDecision → PlanRun → PlanRun × GoalCheck
  unfolding all_documents_settled
  complete_goal_if_done goal_complete fetch s =
      if is_goal_done goal_complete s
      then (if p.fetch_lands && p.goal_lands
          then (
            call
                (tax_fetch_action fetch
                  ∷ sync_status
                  ∷ publish_updated
                  ∷ goal_completed
                  ∷ closing s)
                (record s { goal_complete = true }),
            ended,
          )
          else (call (tax_fetch_action fetch ∷ []) s, interrupted))
      else (s, if goal_complete then contradicted else not_done)

  -- `applyAttestationRequest`
  abbrev pub apply_attestation_request : Option AttestationDecision → Step
  apply_attestation_request none s = (s, true)
  apply_attestation_request (some requested) s =
      if p.stamp_lands
      then (
        call (attestation_requested ∷ planner_step "apply_attestation" ∷ [])
            (record s { attestation_request = some p.email_id }),
        true,
      )
      else (s, false)
  apply_attestation_request (some (confirmed_by evidence)) s = (s, true)

  abbrev pub draft_reply : FollowUpMessage → String → Step
  draft_reply message send_at s =
      if p.draft_lands
      then (
        call (schedule_draft message (p.roll_send_at send_at) ∷ planner_step "send_reply" ∷ []) s,
        true,
      )
      else (call (schedule_draft message (p.roll_send_at send_at) ∷ []) s, false)

  -- `scheduleReply`; what comes after the draft may throw, and leaves it on schedule.
  unfoldable pub schedule_reply :
      Changes → Option TaxFetchDecision → FollowUpMessage → String → Step
  schedule_reply c fetch message send_at s =
      and_then (and_then (draft_reply message send_at s) (apply_attestation_request c.attestation))
        λ s'. (call (tax_fetch_action fetch ∷ []) s', p.fetch_lands)

  abbrev pub after_goal_check : PlanRun × GoalCheck → Step → PlanRun × Bool
  after_goal_check (s, ended) reply = (s, true)
  after_goal_check (s, not_done) reply = reply s
  after_goal_check (s, contradicted) reply = (s, false)
  after_goal_check (s, interrupted) reply = (s, false)

  abbrev pub verify_one : VerificationTarget → PlanRun → PlanRun × Option VerificationOutcome
  verify_one t s =
      let (out, c) =
        verify_collected_document p.record_format (p.check_world t) p.world.client_id t.document_id
          t.file_id (record { table = s.table; calls = [] }) in
      (record s { table = c.table }, some out)

  -- `verifyBatch`, and what comes before it in `verifyThenReplan`
  unfoldable pub verify_targets : List VerificationTarget → PlanRun → PlanRun
  unfolding run_verification_batch verify_collected_document
  verify_targets ts s =
      call (planner_step "rerun_after_verification" ∷ [])
        (run_verification_batch (λ t s. (s, p.is_ready t)) verify_one ts
          (call (planner_step "withhold_reply" ∷ verify_batch ts ∷ []) s)).0

  -- What follows on a step that may throw.
  abbrev pub go_on : PlanRun × Bool → (PlanRun → Option (PlanRun × Bool)) → Option (PlanRun × Bool)
  go_on (s, false) next = some (s, false)
  go_on (s, true) next = next s

  -- The end of a cycle; `again` is the follow-up cycle.
  abbrev pub answer_cycle :
      (PlanRun → Option (PlanRun × Bool))
      → (after_verification : Bool) → NormalizedDecision
      → PlanRun
      → Option (PlanRun × Bool)
  answer_cycle again after declines s = some (call (handle_client_decline ∷ []) s, true)
  answer_cycle again after (collects c) s = go_on (apply_changes c s) λ s'.
      let (s'', o) = files_collected after c s' in
      let s3 = verify_targets (pick_verification_targets p.world.files o) s'' in
      if p.client_exists then again s3 else some (s3, true)
  answer_cycle again after (completes c fetch) s = go_on (apply_changes c s) λ s'. some (
      after_goal_check (complete_goal_if_done true fetch (files_collected after c s').0)
        λ s''. (s'', true))
  answer_cycle again after (follows_up c fetch message send_at) s = go_on (apply_changes c s) λ s'.
      some (
        after_goal_check (complete_goal_if_done false fetch (files_collected after c s').0)
          (schedule_reply c fetch message send_at))

  abbrev pub with_answer :
      (PlanRun → Option (PlanRun × Bool))
      → (after_verification : Bool) → Option NormalizedDecision
      → PlanRun
      → Option (PlanRun × Bool)
  with_answer again after none s = some (s, false)
  with_answer again after (some d) s = answer_cycle again after d s

  -- `planFollowUp`; `none` when the fuel is out, and false when it throws.
  unfoldable pub plan_follow_up :
      ℕ → (after_verification : Bool) → PlanRun → Option (PlanRun × Bool)
  unfolding pick_verification_targets ask_planner apply_changes collect_files verify_targets
      complete_goal_if_done schedule_reply load_planning_context
  plan_follow_up zero after s = none
  plan_follow_up (suc fuel) after s =
      go_on (load_planning_context p.world s)
        λ s'. with_answer (λ s''. plan_follow_up fuel true s'') after (ask_planner after s') s'
