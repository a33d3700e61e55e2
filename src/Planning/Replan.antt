-- ===== src/Planning/Replan.antt =====
-- `onReplan` of src/queue/replanWorker.ts: the deferred planner run of a client's turn.
use fiscal_mind_agent.Prelude.{ℕ, Bool, List, [], ◌∷◌, ◌++◌, if◌then◌else◌}
use fiscal_mind_agent.Turn.Rules.{
  TurnState, Limits, ReplanDecision, plan, wait, force, decide_replan,
}
use fiscal_mind_agent.Planning.Plan.{
  PlanCall, mark_drafting_started, clear_drafting_state, remove_future_email, clear_dirty,
  take_dirty, publish_updated, restart_turn, move_to_delayed, PlanWorld, Planned, set_future_email,
}

abbrev recheck_ms : ℕ
recheck_ms = 2000

pub record TurnWorld : Type 0 where
  pub turn : TurnState
  pub turn_started_at : ℕ
  pub now : ℕ
  pub limits : Limits
  pub kill_switch_on : Bool
  pub plan_world : PlanWorld
  -- what `takeDirty` answers after the run, and the time then
  pub dirty_after : Bool
  pub later : ℕ

-- How the job ends: moved to the delayed set, completed, or failed.
pub data ReplanEnd : Type 0 where
  is_delayed is_completed is_failed : ReplanEnd

pub record Replanned : Type 0 where
  pub calls : List PlanCall
  pub finish : ReplanEnd

abbrev pub plan_again : Bool → ℕ → ℕ → List PlanCall → Replanned
plan_again dirty later quiet_ms calls =
    if dirty
    then record {
      calls = calls ++ restart_turn later ∷ mark_drafting_started ∷ move_to_delayed quiet_ms ∷ [];
      finish = is_delayed;
    }
    else record { calls = calls; finish = is_completed }

abbrev pub after_plan : TurnWorld → Planned → Replanned
after_plan w p =
    let calls = clear_dirty ∷ remove_future_email ∷ p.calls in
    if p.threw
    then record { calls = calls; finish = is_failed }
    else plan_again w.dirty_after w.later w.limits.quiet_ms
        (calls ++ clear_drafting_state ∷ publish_updated ∷ take_dirty ∷ [])

abbrev pub run_turn : TurnWorld → Replanned
run_turn w =
    if w.kill_switch_on
    then record { calls = clear_drafting_state ∷ publish_updated ∷ []; finish = is_completed }
    else after_plan w (set_future_email w.plan_world)

abbrev pub act_on : ReplanDecision → TurnWorld → Replanned
act_on wait w = record {
  calls = mark_drafting_started ∷ move_to_delayed recheck_ms ∷ [];
  finish = is_delayed;
}
act_on plan w = run_turn w
act_on force w = run_turn w

unfoldable pub on_replan : TurnWorld → Replanned
unfolding decide_replan set_future_email
on_replan w = act_on (decide_replan w.turn w.turn_started_at w.now w.limits) w
