-- ===== src/Planning/Examples.antt =====
-- The planner run on a concrete turn, and its theorems.
use fiscal_mind_agent.Prelude.{◌≡◌, ◌≢◌, ◌⊎◌, ◌↔◌, refl, true, false, some, [], ◌∷◌, any}
use fiscal_mind_agent.Sending.Rules.{Instance, Client, supervised_type}
use fiscal_mind_agent.Turn.Rules.{wait}
use fiscal_mind_agent.Planning.Plan.{
  mark_drafting_started, clear_drafting_state, plan_next_action, remove_future_email, clear_dirty,
  take_dirty, publish_updated, restart_turn, move_to_delayed, PlanWorld, set_future_email,
}
use fiscal_mind_agent.Planning.Replan.{TurnWorld, is_delayed, on_replan}
use fiscal_mind_agent.Planning.Conditions.{is_plan, is_queued_plan, IsPlannable}
use fiscal_mind_agent.Planning.Runs.{decision, on_replan_iff, on_replan-looks_again}

abbrev office : Instance
office = record {
  enabled = true;
  agent_type = supervised_type;
  admin_paused = false;
  review_mode = false;
}

abbrev tal : Client
tal = record {
  goal_complete = false;
  paused = false;
  admin_paused = false;
  wa_enabled = true;
  wa_phone = some "+972";
}

abbrev ready : PlanWorld
ready = record {
  client = some tal;
  instance = some office;
  manual_kickoff = true;
  contacted_messages = 3;
  hold = false;
  loads = true;
  plans = true;
}

-- The client wrote again while the planner ran.
abbrev wrote_again : TurnWorld
wrote_again = record {
  turn = record { inflight = 0; last_inbound_at = some 100; pending_files = 0 };
  turn_started_at = 50;
  now = 200;
  limits = record { quiet_ms = 60; max_wait_ms = 1000 };
  kill_switch_on = false;
  plan_world = ready;
  dirty_after = true;
  later = 230;
}

planned_again :
    (on_replan wrote_again).calls
    ≡ clear_dirty
      ∷ remove_future_email
      ∷ mark_drafting_started
      ∷ plan_next_action false
      ∷ clear_drafting_state
      ∷ clear_drafting_state
      ∷ publish_updated
      ∷ take_dirty
      ∷ restart_turn 230
      ∷ mark_drafting_started
      ∷ move_to_delayed 60
      ∷ []
unfolding on_replan
planned_again = refl

held_first_message :
    (set_future_email
      (record ready { client = some (record tal { paused = true }); contacted_messages = 0 })).calls
    ≡ mark_drafting_started ∷ plan_next_action true ∷ clear_drafting_state ∷ []
unfolding set_future_email
held_first_message = refl

is_queued : any is_queued_plan (set_future_email ready).calls ≡ true
unfolding set_future_email
is_queued = refl

on_replan_iff_example : (any is_plan (on_replan wrote_again).calls ≡ true) ↔ (
    (decision wrote_again ≢ wait)
    × (wrote_again.kill_switch_on ≡ false)
    × IsPlannable (some tal) ready)
on_replan_iff_example = on_replan_iff wrote_again

on_replan-looks_again_example : ((on_replan wrote_again).finish ≡ is_delayed) ↔ (
    (decision wrote_again ≡ wait)
    ⊎ ((wrote_again.kill_switch_on ≡ false)
        × ((set_future_email ready).threw ≡ false)
        × (wrote_again.dirty_after ≡ true)))
on_replan-looks_again_example = on_replan-looks_again wrote_again
