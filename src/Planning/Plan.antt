-- ===== src/Planning/Plan.antt =====
-- `setFutureEmail` of src/orchestration/setFutureEmail.ts, with heldFirstMessage.ts. What the agent's
-- own planner does is a call; whether its context loads and whether it succeeds are arguments.
use fiscal_mind_agent.Prelude.{
  ℕ, Bool, true, false, not, ◌&&◌, ◌||◌, Option, none, some, is_some, List, [], ◌∷◌, if◌then◌else◌,
}
use fiscal_mind_agent.Sending.Rules.{Instance, Client, admin_comms_paused, holds_first_message}

pub data PlanCall : Type 0 where
  mark_drafting_started clear_drafting_state mark_drafting_failed : PlanCall
  plan_next_action : (hold : Bool) → PlanCall
  remove_future_email clear_dirty take_dirty publish_updated : PlanCall
  restart_turn : ℕ → PlanCall
  move_to_delayed : ℕ → PlanCall

pub record PlanWorld : Type 0 where
  pub client : Option Client
  pub instance : Option Instance
  -- of the instance's agent type, and the number of the client's messages
  pub manual_kickoff : Bool
  pub contacted_messages : ℕ
  -- the caller's hint
  pub hold : Bool
  pub loads : Bool
  pub plans : Bool

pub record Planned : Type 0 where
  pub calls : List PlanCall
  pub threw : Bool

unfoldable pub is_held_first_message_client : Client → PlanWorld → Bool
unfolding holds_first_message
is_held_first_message_client c w =
    if not c.paused || not (is_some w.instance)
    then false
    else if not w.manual_kickoff
    then false
    else holds_first_message c.paused w.manual_kickoff w.contacted_messages

abbrev no_plan : Planned
no_plan = record { calls = []; threw = false }

-- The attempt between the drafting stamps.
abbrev pub draft_next : Bool → PlanWorld → Planned
draft_next hold w =
    if not w.loads
    then record {
      calls = mark_drafting_started ∷ mark_drafting_failed ∷ publish_updated ∷ [];
      threw = true;
    }
    else if w.plans
    then record {
      calls = mark_drafting_started ∷ plan_next_action hold ∷ clear_drafting_state ∷ [];
      threw = false;
    }
    else record {
      calls =
          mark_drafting_started
          ∷ plan_next_action hold
          ∷ mark_drafting_failed
          ∷ publish_updated
          ∷ [];
      threw = true;
    }

abbrev pub plan_client : Option Client → PlanWorld → Planned
plan_client none w = no_plan
plan_client (some c) w =
    if c.goal_complete
    then no_plan
    else if c.paused && not (is_held_first_message_client c w)
    then no_plan
    else if admin_comms_paused c w.instance
    then no_plan
    else draft_next (w.hold || c.paused) w

unfoldable pub set_future_email : PlanWorld → Planned
unfolding is_held_first_message_client admin_comms_paused
set_future_email w = plan_client w.client w
