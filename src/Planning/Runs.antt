-- ===== src/Planning/Runs.antt =====
-- When the deferred run of a turn plans, and when its job looks again.
use fiscal_mind_agent.Prelude.{
  Bool, true, false, ◌||◌, ◌≡◌, ◌≢◌, ◌⊎◌, ◌↔◌, inl, inr, refl, List, [], ◌∷◌, ◌++◌, any, Bool-cases,
  arith,
}
use fiscal_mind_agent.Turn.Rules.{ReplanDecision, plan, wait, force, decide_replan}
use fiscal_mind_agent.Planning.Plan.{
  PlanCall, mark_drafting_started, clear_drafting_state, take_dirty, publish_updated, restart_turn,
  move_to_delayed, Planned, set_future_email,
}
use fiscal_mind_agent.Planning.Replan.{
  TurnWorld, is_delayed, after_plan, plan_again, run_turn, act_on, on_replan,
}
use fiscal_mind_agent.Planning.Conditions.{IsPlannable, is_plan, set_future_email_iff}

module _ (w : TurnWorld) where
  abbrev pub decision : ReplanDecision
  decision = decide_replan w.turn w.turn_started_at w.now w.limits

  any_append : (xs ys : List PlanCall) → any is_plan (xs ++ ys) ≡ (any is_plan xs || any is_plan ys)
  any_append [] ys = refl
  any_append (x ∷ xs) ys = ground (arith, any_append xs ys)

  plan_again-plans :
      (dirty : Bool) (calls : List PlanCall)
      → any is_plan (plan_again dirty w.later w.limits.quiet_ms calls).calls ≡ any is_plan calls
  plan_again-plans true calls = ground (
    arith,
    any_append calls
        (restart_turn w.later ∷ mark_drafting_started ∷ move_to_delayed w.limits.quiet_ms ∷ []),
  )
  plan_again-plans false calls = refl

  after_plan-plans : (p : Planned) → any is_plan (after_plan w p).calls ≡ any is_plan p.calls
  after_plan-plans p = elim (Bool-cases p.threw) [
    | inl failed ↦ rw failed refl
    | inr fine ↦
        rw (fine, plan_again-plans w.dirty_after _)
          (ground
            (arith, any_append p.calls (clear_drafting_state ∷ publish_updated ∷ take_dirty ∷ [])))
  ]

  run_turn_iff :
      (any is_plan (run_turn w).calls ≡ true)
      ↔ ((w.kill_switch_on ≡ false) × IsPlannable w.plan_world.client w.plan_world)
  run_turn_iff = elim (Bool-cases w.kill_switch_on) [
    | inl off ↦ rw off (ground arith)
    | inr on ↦
        rw (on, after_plan-plans (set_future_email w.plan_world))
          (ground (arith, set_future_email_iff w.plan_world))
  ]

  act_on_iff :
      (d : ReplanDecision)
      → (any is_plan (act_on d w).calls ≡ true)
        ↔ ((d ≢ wait) × (w.kill_switch_on ≡ false) × IsPlannable w.plan_world.client w.plan_world)
  act_on_iff wait = ground arith
  act_on_iff plan = (
    λ k. let r = run_turn_iff.0 k in (λ e. ground arith, r.0, r.1),
    λ r. run_turn_iff.1 (r.1, r.2),
  )
  act_on_iff force = (
    λ k. let r = run_turn_iff.0 k in (λ e. ground arith, r.0, r.1),
    λ r. run_turn_iff.1 (r.1, r.2),
  )

  run_turn-looks_again : ((run_turn w).finish ≡ is_delayed) ↔ (
      (w.kill_switch_on ≡ false)
      × ((set_future_email w.plan_world).threw ≡ false)
      × (w.dirty_after ≡ true))
  run_turn-looks_again = ground arith

  act_on-looks_again :
      (d : ReplanDecision)
      → ((act_on d w).finish ≡ is_delayed) ↔ (
          (d ≡ wait)
          ⊎ ((w.kill_switch_on ≡ false)
              × ((set_future_email w.plan_world).threw ≡ false)
              × (w.dirty_after ≡ true)))
  act_on-looks_again wait = ground arith
  act_on-looks_again plan = ground (arith, run_turn-looks_again)
  act_on-looks_again force = ground (arith, run_turn-looks_again)

  -- The deferred run plans exactly when its turn is settled or forced, the platform is not switched
  -- off, and the client can be planned for.
  pub on_replan_iff : (any is_plan (on_replan w).calls ≡ true) ↔ (
      (decision ≢ wait) × (w.kill_switch_on ≡ false) × IsPlannable w.plan_world.client w.plan_world)
  unfolding on_replan
  on_replan_iff = act_on_iff decision

  -- The job is moved to the delayed set, to look again, exactly when the turn has to wait, or when
  -- the platform is not switched off, the planner's run did not throw, and an inbound came in
  -- meanwhile.
  pub on_replan-looks_again : ((on_replan w).finish ≡ is_delayed) ↔ (
      (decision ≡ wait)
      ⊎ ((w.kill_switch_on ≡ false)
          × ((set_future_email w.plan_world).threw ≡ false)
          × (w.dirty_after ≡ true)))
  unfolding on_replan
  on_replan-looks_again = act_on-looks_again decision
