-- ===== src/Cycle/Attests.antt =====
-- What the steps that change the checklist do to the client's attestation (`settleChecklistChanges` and
-- `applyAttestationConfirmed` of src/agents/declarationOfCapital/plan.ts).
use mathlib.Core.Path.{subst}
use fiscal_mind_agent.Prelude.{
  Bool, true, false, ◌&&◌, ◌||◌, ◌≡◌, refl, sym, ◌∙◌, ap, String, Option, none, some, List, [], ◌∷◌,
  ltb, if-cases,
}
use fiscal_mind_agent.Decision.Answer.{
  IntakeState, AttestationDecision, requested, confirmed_by, Changes,
}
use fiscal_mind_agent.Cycle.Run.{PlanRun, Step, and_then, CycleWorld, build_intake_state}
use fiscal_mind_agent.Cycle.Apply.{
  apply_resolutions, apply_additions, apply_retirements, apply_stated_costs,
  apply_vehicle_declarations, tell_claimed, settle_checklist_changes, apply_attestation_confirmed,
}
use fiscal_mind_agent.Cycle.Follow.{Planner, apply_changes}
use fiscal_mind_agent.Cycle.Same.{
  client_of, Same, apply_resolutions-Same, apply_additions-Same, apply_retirements-Same,
  apply_stated_costs-Same, apply_vehicle_declarations-Same,
}

-- Whether the changes of the cycle void an attestation that was asked for or given.
abbrev pub is_voided : IntakeState → PlanRun → Bool
is_voided intake s =
    ltb 0 s.changes.applied && (intake.attestation_requested || intake.attestation_confirmed)

-- The client's side after the steps on the checklist: the goal as before, and the attestation as the
-- answer confirms it, or void, or as before.
abbrev pub Attested : Option AttestationDecision → Bool → PlanRun → PlanRun → Type 0
Attested (some (confirmed_by evidence)) voided s s' =
    (s'.goal_complete ≡ s.goal_complete)
    × (s'.attestation_confirmed ≡ true)
    × (s'.attestation_evidence ≡ some evidence)
Attested none true s s' = client_of s' ≡ (s.goal_complete, none, none, false)
Attested (some requested) true s s' = client_of s' ≡ (s.goal_complete, none, none, false)
Attested none false s s' = Same s s'
Attested (some requested) false s s' = Same s s'

module _ (w : CycleWorld) where
  told-Same : (names : List String) (s : PlanRun) → Same s (tell_claimed w names s)
  told-Same [] s = refl
  told-Same (name ∷ names) s = refl

  abbrev Settled : Bool → PlanRun → PlanRun → Type 0
  Settled true s s' = client_of s' ≡ (s.goal_complete, none, none, false)
  Settled false s s' = Same s s'

  settled :
      (a b : Bool) (intake : IntakeState) (s : PlanRun)
      → ltb 0 s.changes.applied ≡ a
      → (intake.attestation_requested || intake.attestation_confirmed) ≡ b
      → Settled (a && b) s (settle_checklist_changes w intake s)
  unfolding settle_checklist_changes
  settled true true intake s ha hb = rw ha (rw hb (told-Same s.changes.claimed_at_creation _))
  settled true false intake s ha hb = rw ha (rw hb (told-Same s.changes.claimed_at_creation _))
  settled false b intake s ha hb = rw ha (told-Same s.changes.claimed_at_creation s)

  settled-changes :
      (intake : IntakeState) (s : PlanRun)
      → (settle_checklist_changes w intake s).changes ≡ s.changes
  unfolding settle_checklist_changes
  settled-changes intake s =
      told s.changes.claimed_at_creation _
      ∙ if-cases {A = PlanRun} (λ t. t.changes ≡ s.changes) (ltb 0 s.changes.applied)
          (λ _.
            if-cases {A = PlanRun} (λ t. t.changes ≡ s.changes)
              (intake.attestation_requested || intake.attestation_confirmed) (λ _. refl)
              (λ _. refl))
          (λ _. refl)
    where
      told : (names : List String) (t : PlanRun) → (tell_claimed w names t).changes ≡ t.changes
      told [] t = refl
      told (name ∷ names) t = refl

  finished :
      (decision : Option AttestationDecision) (voided : Bool) (s s5 t : PlanRun)
      → Same s s5
      → Settled voided s5 t
      → Attested decision voided s (apply_attestation_confirmed decision t)
  unfolding apply_attestation_confirmed
  finished (some (confirmed_by evidence)) true s s5 t kept h =
      (ap (λ x. x.0) h ∙ ap (λ x. x.0) kept, refl, refl)
  finished (some (confirmed_by evidence)) false s s5 t kept h =
      (ap (λ x. x.0) h ∙ ap (λ x. x.0) kept, refl, refl)
  finished none true s s5 t kept h = cc (h, ap (λ x. x.0) kept)
  finished (some requested) true s s5 t kept h = cc (h, ap (λ x. x.0) kept)
  finished none false s s5 t kept h = h ∙ kept
  finished (some requested) false s s5 t kept h = h ∙ kept

  confirmed-changes :
      (decision : Option AttestationDecision) (s : PlanRun)
      → (apply_attestation_confirmed decision s).changes ≡ s.changes
  unfolding apply_attestation_confirmed
  confirmed-changes none s = refl
  confirmed-changes (some requested) s = refl
  confirmed-changes (some (confirmed_by evidence)) s = refl

through :
    (r : PlanRun × Bool) (next : Step) {s : PlanRun}
    → and_then r next ≡ (s, true)
    → (t : PlanRun) × (r ≡ (t, true)) × (next t ≡ (s, true))
through (t, false) next h = absurd (cc h)
through (t, true) next h = (t, refl, h)

-- The steps that change the checklist leave the goal as it was. A confirmation in the answer stands at
-- their end with its evidence, whether or not the same answer changed the list. Without one, an
-- attestation that was asked for or given is void exactly when at least one change landed, and stands
-- otherwise.
pub apply_changes-Attested :
    (p : Planner) (c : Changes) (s s' : PlanRun)
    → apply_changes p c s ≡ (s', true)
    → Attested c.attestation (is_voided (build_intake_state p.world s) s') s s'
unfolding apply_changes
apply_changes-Attested p c s s' h =
    let w = p.world in
    let intake = build_intake_state w s in
    let (s1, e1, h1) = through (apply_resolutions w c.resolutions s) _ h in
    let (s2, e2, h2) = through (apply_additions w c.added_instances s1) _ h1 in
    let s3 = apply_retirements w c.retired s2 in
    let s4 = apply_stated_costs w (p.stated_costs c) s3 in
    let s5 = apply_vehicle_declarations w (p.stated_vehicles c) s4 in
    let t = settle_checklist_changes w intake s5 in
    let kept : Same s s5 =
      apply_vehicle_declarations-Same w (p.stated_vehicles c) s4
      ∙ apply_stated_costs-Same w (p.stated_costs c) s3
      ∙ apply_retirements-Same w c.retired s2
      ∙ subst (λ (x : PlanRun × Bool). Same s1 x.0) e2 (apply_additions-Same w c.added_instances s1)
      ∙ subst (λ (x : PlanRun × Bool). Same s x.0) e1 (apply_resolutions-Same w c.resolutions s) in
    let end = apply_attestation_confirmed c.attestation t in
    let same_changes : end.changes ≡ s5.changes =
      confirmed-changes w c.attestation t ∙ settled-changes w intake s5 in
    let at_end : Attested c.attestation (is_voided intake end) s end =
      subst
        (λ ch.
          Attested c.attestation
            (ltb 0 ch.applied && (intake.attestation_requested || intake.attestation_confirmed)) s
            end)
        (sym same_changes)
        (finished w c.attestation (is_voided intake s5) s s5 t kept
          (settled w _ _ intake s5 refl refl)) in
    subst (λ (x : PlanRun × Bool). Attested c.attestation (is_voided intake x.0) s x.0) h2 at_end
