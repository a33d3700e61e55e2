-- ===== src/Cycle/Examples.antt =====
-- A cycle that collects and verifies a document and one that completes the goal, with the theorems on
-- them.
use fiscal_mind_agent.Prelude.{
  ℕ, suc, ◌≡◌, refl, Bool, true, false, none, some, [], ◌∷◌, if◌then◌else◌, ◌⊎◌,
}
use fiscal_mind_agent.Documents.Table.{ClientDocument, pending, approved, retired, update_where}
use fiscal_mind_agent.Documents.Queries.{update_one, is_listed}
use fiscal_mind_agent.Decision.Answer.{
  goal_complete, collect, DecisionResponse, QuoteEvidence, quoted, confirmed_by, Changes,
}
use fiscal_mind_agent.Decision.Replies
use fiscal_mind_agent.Decision.Examples.{catalog, render, no_statements, reply}
use fiscal_mind_agent.Ties.Evidence.{DocumentFile}
use fiscal_mind_agent.Ties.NewRows.{Tie}
use fiscal_mind_agent.Verification.Check.{answered}
use fiscal_mind_agent.Verification.Examples
use fiscal_mind_agent.Verification.Examples.{format, row, file, world, right}
use fiscal_mind_agent.Cycle.Run.{
  documents_collected, link_to_document, planner_step, verify_batch, tax_fetch_action, sync_status,
  publish_updated, goal_completed, send_closing, goal_complete_email, document_retired, PlanRun,
  no_changes, CycleWorld, build_intake_state,
}
use fiscal_mind_agent.Cycle.Decide.{decide_collect_or_claim}
use fiscal_mind_agent.Cycle.Follow
use fiscal_mind_agent.Cycle.Follow.{Planner, apply_changes, plan_follow_up}
use fiscal_mind_agent.Cycle.Attests.{Attested, is_voided, apply_changes-Attested}
use fiscal_mind_agent.Cycle.Earned.{IsDecided, decide_collect_or_claim-IsDecided}
use fiscal_mind_agent.Cycle.Depth.{plan_follow_up-EndsAs}
use fiscal_mind_agent.Cycle.Kept.{drafts}
use fiscal_mind_agent.Cycle.Reply.{reply_lands}
use fiscal_mind_agent.Cycle.Completion.{
  IsComplete, plan_follow_up-IsComplete, plan_follow_up-drafts,
}

abbrev report : DocumentFile
report = record file { client_document_id = none }

abbrev cycle_world : CycleWorld
cycle_world = record {
  client_id = "c1";
  now = 4;
  row_id = λ n. none;
  encode = λ e. "quote";
  stated_cost = λ i. none;
  stated_vehicle = λ i. none;
  merge_vehicle = λ d v. v;
  files = report ∷ [];
  channel_allowed = true;
  request_sent = true;
  inbound_texts = [];
  confirmable_message_ids = [];
  approved_property_files = λ t. [];
  self_evident_files = [];
  multi_instance = λ t. false;
}

abbrev collecting : DecisionResponse
collecting = record reply {
  decision = collect;
  collected_document_ids = "d1" ∷ [];
  matched_files = record { file_id = "f1"; document_id = "d1"; evidence = none } ∷ [];
  whatsapp_text = none;
  send_at = none;
}

abbrev completing : DecisionResponse
completing = record reply { decision = goal_complete; whatsapp_text = none; send_at = none }

-- The first answer collects the report; after its verification the second completes the goal.
abbrev planner : Planner
planner = record {
  world = cycle_world;
  catalog = catalog;
  render = render;
  validate_stated = no_statements;
  model = λ after correction s. Follow.answered (if after then completing else collecting);
  window_open = true;
  templates = [];
  hidden_templates = [];
  tax_fetch = λ s. [];
  stated_costs = λ c. [];
  stated_vehicles = λ c. [];
  identify = λ t. none;
  institution_bound = λ t. false;
  split_items_by_company =
      λ pairs s. (s, record { pairs = pairs; split_pairs = []; renamed = []; created = [] });
  record_format = format;
  check_world = λ t. world (answered false right);
  is_ready = λ t. true;
  client_exists = true;
  roll_send_at = λ t. t;
  email_id = "e2";
  draft_lands = true;
  stamp_lands = true;
  fetch_lands = true;
  goal_lands = true;
}

abbrev yes : QuoteEvidence
yes = record { message_id = "m2"; quote = "yes, that is all" }

abbrev start : PlanRun
start = record {
  table = record row { status = pending } ∷ [];
  attestation_request = some "e1";
  attestation_evidence = some yes;
  goal_complete = false;
  documents = [];
  attestation_confirmed = false;
  changes = no_changes;
  inserted = 0;
  calls = [];
}

abbrev checked_row : ClientDocument
checked_row = record row { status = approved; verification = some "u"; updated_at = 5 }

abbrev end : PlanRun
end = record {
  table = checked_row ∷ [];
  attestation_request = some "e1";
  attestation_evidence = some yes;
  goal_complete = true;
  documents = checked_row ∷ [];
  attestation_confirmed = true;
  changes = no_changes;
  inserted = 0;
  calls =
      documents_collected ("d1" ∷ [])
      ∷ link_to_document "f1" "d1"
      ∷ planner_step "apply_collections"
      ∷ planner_step "withhold_reply"
      ∷ verify_batch (record { document_id = "d1"; file_id = "f1" } ∷ [])
      ∷ planner_step "rerun_after_verification"
      ∷ tax_fetch_action none
      ∷ sync_status
      ∷ publish_updated
      ∷ goal_completed
      ∷ send_closing
      ∷ planner_step "send_closing"
      ∷ goal_complete_email
      ∷ [];
}

whole_run : plan_follow_up planner 2 false start ≡ some (end, true)
unfolding plan_follow_up Examples.encode Examples.attempts_of Examples.stalled_of Examples.marks
    Examples.tally update_one update_where is_listed
whole_run = refl

plan_follow_up-IsComplete_example : IsComplete end
plan_follow_up-IsComplete_example =
    plan_follow_up-IsComplete planner (λ pairs s. refl) 2 false start end true whole_run refl refl

plan_follow_up-drafts_example :
    (drafts end.calls ≡ drafts start.calls)
    ⊎ ((drafts end.calls ≡ suc (drafts start.calls))
        × (end.goal_complete ≡ start.goal_complete)
        × ((true ≡ true) ⊎ (reply_lands planner ≡ false)))
plan_follow_up-drafts_example =
    plan_follow_up-drafts planner (λ pairs s. refl) 2 false start end true whole_run

plan_follow_up-EndsAs_example :
    (x : PlanRun × Bool) × ((fuel : ℕ)
      → plan_follow_up planner (suc (suc fuel)) false start ≡ some x)
plan_follow_up-EndsAs_example = plan_follow_up-EndsAs planner false start

-- One answer that retires a row and confirms the summary of the list with the row.
abbrev requested_run : PlanRun
requested_run = record start { table = row ∷ []; attestation_evidence = none; documents = row ∷ [] }

abbrev retiring_and_confirming : Changes
retiring_and_confirming = record Replies.no_changes {
  retired = record { document_id = "d1"; evidence = quoted yes } ∷ [];
  attestation = some (confirmed_by yes);
}

abbrev retired_row : ClientDocument
retired_row = record row { status = retired; resolution_evidence = some "quote"; updated_at = 4 }

abbrev confirmed_run : PlanRun
confirmed_run = record requested_run {
  table = retired_row ∷ [];
  attestation_request = none;
  attestation_evidence = some yes;
  documents = retired_row ∷ [];
  attestation_confirmed = true;
  changes = record no_changes { applied = 1 };
  calls =
      document_retired "d1"
      ∷ planner_step "apply_retirements"
      ∷ publish_updated
      ∷ planner_step "apply_attestation"
      ∷ [];
}

retired_and_confirmed :
    apply_changes planner retiring_and_confirming requested_run ≡ (confirmed_run, true)
unfolding apply_changes update_one update_where
retired_and_confirmed = refl

apply_changes-Attested_example :
    Attested
      (some (confirmed_by yes))
      (is_voided (build_intake_state cycle_world requested_run) confirmed_run)
      requested_run
      confirmed_run
apply_changes-Attested_example =
    apply_changes-Attested planner retiring_and_confirming requested_run confirmed_run
      retired_and_confirmed

-- A legible file of the pair collects the first document; nothing is known of the second.
abbrev pair : Tie
pair = record { file_id = "f1"; document_id = "d2" }

decisions :
    decide_collect_or_claim
      (report ∷ [])
      ("d2" ∷ "d3" ∷ [])
      (pair ∷ [])
      []
      false
      ("d2" ∷ "d3" ∷ "d4" ∷ [])
    ≡ record { newly_collected = "d2" ∷ []; newly_claimed = "d3" ∷ [] }
unfolding decide_collect_or_claim
decisions = refl

decide_collect_or_claim-IsDecided_example :
    IsDecided
      (report ∷ [])
      ("d2" ∷ "d3" ∷ [])
      (pair ∷ [])
      []
      ("d2" ∷ "d3" ∷ "d4" ∷ [])
      (decide_collect_or_claim
        (report ∷ [])
        ("d2" ∷ "d3" ∷ [])
        (pair ∷ [])
        []
        false
        ("d2" ∷ "d3" ∷ "d4" ∷ []))
      "d3"
decide_collect_or_claim-IsDecided_example =
    decide_collect_or_claim-IsDecided (report ∷ []) ("d2" ∷ "d3" ∷ []) (pair ∷ []) [] false
      ("d2" ∷ "d3" ∷ "d4" ∷ []) "d3"
