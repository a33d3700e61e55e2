-- ===== src/Cycle/Depth.antt =====
-- How often a cycle runs again (`verifyThenReplan` of src/agents/declarationOfCapital/plan.ts).
use fiscal_mind_agent.Prelude.{
  ℕ, suc, if◌then◌else◌, Bool, true, false, ◌≡◌, refl, Option, none, some, ◌⊎◌, inl, inr,
  first_some,
}
use fiscal_mind_agent.Decision.Result.{Result, ok, err}
use fiscal_mind_agent.Decision.Answer.{
  DecisionContext, NormalizedDecision, declines, completes, collects, follows_up,
}
use fiscal_mind_agent.Decision.Gate.{normalize_decision}
use fiscal_mind_agent.Decision.Shapes.{normalize_decision-IsShaped}
use fiscal_mind_agent.Cycle.Run.{PlanRun, load_planning_context}
use fiscal_mind_agent.Cycle.Decide.{pick_verification_targets}
use fiscal_mind_agent.Cycle.Follow.{
  ModelAnswer, call_failed, bad_calls, answered, Planner, build_decision_context, accepted,
  gate_decision, or_corrected, ask_planner, apply_changes, files_collected, go_on, verify_targets,
  answer_cycle, with_answer, plan_follow_up,
}

abbrev CollectsNothing : NormalizedDecision → Type 0
CollectsNothing (collects c) = ⊥
CollectsNothing _ = Unit

module _ (p : Planner) where
  accepted_by :
      (r : Result NormalizedDecision) {d : NormalizedDecision} → accepted p r ≡ some d → r ≡ ok d
  accepted_by (ok x) h = cc
  accepted_by (err why) h = cc

  shaped :
      (d : NormalizedDecision) (ctx : DecisionContext)
      → ctx.after_verification ≡ true
      → (m : ModelAnswer) → gate_decision p m ctx ≡ some d
      → CollectsNothing d
  shaped d ctx after call_failed h = absurd (cc h)
  shaped d ctx after bad_calls h = absurd (cc h)
  shaped declines ctx after (answered raw) h = tt
  shaped (completes c fetch) ctx after (answered raw) h = tt
  shaped (follows_up c fetch message at) ctx after (answered raw) h = tt
  shaped (collects c) ctx after (answered raw) h =
      let (kind, first_cycle, t, m, f, r) =
        normalize_decision-IsShaped p.catalog p.render p.validate_stated raw ctx
          (accepted_by (normalize_decision p.catalog p.render p.validate_stated raw ctx) h) in
      cc (after, first_cycle)

  either :
      (a b : Option NormalizedDecision) (d : NormalizedDecision)
      → first_some a b ≡ some d
      → (a ≡ some d) ⊎ (b ≡ some d)
  either none b d h = inr h
  either (some x) b d h = inl h

  corrected :
      (first second : ModelAnswer) (ctx : DecisionContext) (d : NormalizedDecision)
      → ctx.after_verification ≡ true
      → or_corrected p first second ctx ≡ some d
      → CollectsNothing d
  corrected call_failed second ctx d after h = absurd (cc h)
  corrected bad_calls second ctx d after h = shaped d ctx after second h
  corrected (answered raw) second ctx d after h =
      elim (either (gate_decision p (answered raw) ctx) (gate_decision p second ctx) d h) [
        | inl one ↦ shaped d ctx after (answered raw) one
        | inr two ↦ shaped d ctx after second two
      ]

  ask_planner-CollectsNothing :
      (s : PlanRun) (d : NormalizedDecision) → ask_planner p true s ≡ some d → CollectsNothing d
  unfolding ask_planner
  ask_planner-CollectsNothing s d h =
      corrected (p.model true false s) (p.model true true s) (build_decision_context p true s) d
        refl h

  -- What the rest of a cycle comes to, whatever fuel is left.
  abbrev EndsAs : (ℕ → Option (PlanRun × Bool)) → Type 0
  EndsAs run = (x : PlanRun × Bool) × ((fuel : ℕ) → run fuel ≡ some x)

  after_step :
      (r : PlanRun × Bool) (next : ℕ → PlanRun → Option (PlanRun × Bool))
      → ((s : PlanRun) → EndsAs (λ fuel. next fuel s))
      → EndsAs (λ fuel. go_on p r (next fuel))
  after_step (s, false) next ends = ((s, false), λ fuel. refl)
  after_step (s, true) next ends = ends s

  quiet_answer :
      (again : ℕ → PlanRun → Option (PlanRun × Bool)) (after : Bool) (d : NormalizedDecision)
      (s : PlanRun)
      → CollectsNothing d
      → EndsAs (λ fuel. answer_cycle p (again fuel) after d s)
  quiet_answer again after declines s none_collected = (_, λ fuel. refl)
  quiet_answer again after (completes c fetch) s none_collected =
      after_step (apply_changes p c s) _ λ s'. (_, λ fuel. refl)
  quiet_answer again after (follows_up c fetch message at) s none_collected =
      after_step (apply_changes p c s) _ λ s'. (_, λ fuel. refl)
  quiet_answer again after (collects c) s none_collected = absurd none_collected

  with_any :
      (again : ℕ → PlanRun → Option (PlanRun × Bool)) (after : Bool) (o : Option NormalizedDecision)
      (s : PlanRun)
      → ((d : NormalizedDecision)
          → o ≡ some d
          → EndsAs (λ fuel. answer_cycle p (again fuel) after d s))
      → EndsAs (λ fuel. with_answer p (again fuel) after o s)
  with_any again after none s ends = (_, λ fuel. refl)
  with_any again after (some d) s ends = ends d refl

  second_cycle : (s : PlanRun) → EndsAs (λ fuel. plan_follow_up p (suc fuel) true s)
  unfolding plan_follow_up
  second_cycle s =
      after_step (load_planning_context p.world s)
        (λ fuel s'.
          with_answer p (λ s''. plan_follow_up p fuel true s'') true (ask_planner p true s') s')
        λ s'.
          with_any (λ fuel s''. plan_follow_up p fuel true s'') true (ask_planner p true s') s'
            λ d given.
              quiet_answer (λ fuel s''. plan_follow_up p fuel true s'') true d s'
                (ask_planner-CollectsNothing s' d given)

  any_answer :
      (after : Bool) (d : NormalizedDecision) (s : PlanRun)
      → EndsAs (λ fuel. answer_cycle p (plan_follow_up p (suc fuel) true) after d s)
  any_answer after declines s =
      quiet_answer (λ fuel. plan_follow_up p (suc fuel) true) after declines s tt
  any_answer after (completes c fetch) s =
      quiet_answer (λ fuel. plan_follow_up p (suc fuel) true) after (completes c fetch) s tt
  any_answer after (follows_up c fetch message at) s =
      quiet_answer (λ fuel. plan_follow_up p (suc fuel) true) after (follows_up c fetch message at)
        s tt
  any_answer after (collects c) s = after_step (apply_changes p c s) _ λ s'.
      let (s'', o) = files_collected p after c s' in
      again_if p.client_exists (verify_targets p (pick_verification_targets p.world.files o) s'')
    where
      again_if :
          (b : Bool) (s : PlanRun)
          → EndsAs (λ fuel. if b then plan_follow_up p (suc fuel) true s else some (s, true))
      again_if true s = second_cycle s
      again_if false s = (_, λ fuel. refl)

  -- A planning cycle ends, with one result, after at most one cycle more: an answer that collects is
  -- never accepted in the cycle after a verification, so two units of fuel give what any more give.
  pub plan_follow_up-EndsAs :
      (after_verification : Bool) (s : PlanRun)
      → (x : PlanRun × Bool) × ((fuel : ℕ)
          → plan_follow_up p (suc (suc fuel)) after_verification s ≡ some x)
  unfolding plan_follow_up
  plan_follow_up-EndsAs after s =
      after_step (load_planning_context p.world s)
        (λ fuel s'.
          with_answer p (λ s''. plan_follow_up p (suc fuel) true s'') after (ask_planner p after s')
            s')
        λ s'.
          with_any (λ fuel s''. plan_follow_up p (suc fuel) true s'') after (ask_planner p after s')
            s' λ d given. any_answer after d s'
