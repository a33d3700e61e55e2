-- ===== src/Cycle/Same.antt =====
-- About the client's goal and attestation in the apply steps of a cycle (`applyResolutions` to
-- `applyVehicleDeclarations` of src/agents/declarationOfCapital/plan.ts).
use fiscal_mind_agent.Prelude.{Bool, ◌≡◌, refl, String, Option, List}
use fiscal_mind_agent.Decision.Answer.{
  QuoteEvidence, DocumentResolution, InstanceAddition, DocumentRetirement,
}
use fiscal_mind_agent.Cycle.Run.{PlanRun, CycleWorld}
use fiscal_mind_agent.Cycle.Apply.{
  apply_resolutions, apply_additions, apply_retirements, apply_stated_costs,
  apply_vehicle_declarations,
}
use fiscal_mind_agent.Cycle.Kept.{
  apply_resolutions-Kept, apply_additions-Kept, apply_retirements-Kept, apply_stated_costs-Kept,
  apply_vehicle_declarations-Kept,
}

-- What the cycle knows of the client beside the checklist.
abbrev pub client_of : PlanRun → Bool × Option String × Option QuoteEvidence × Bool
client_of s =
    (s.goal_complete, s.attestation_request, s.attestation_evidence, s.attestation_confirmed)

-- The client's goal and attestation stand as they stood.
abbrev pub Same : PlanRun → PlanRun → Type 0
Same s s' = client_of s' ≡ client_of s

module _ (w : CycleWorld) where
  pub apply_resolutions-Same :
      (l : List DocumentResolution) (s : PlanRun) → Same s (apply_resolutions w l s).0
  apply_resolutions-Same = apply_resolutions-Kept client_of (λ s t c n. refl) (λ c s h. refl) w

  pub apply_additions-Same :
      (l : List InstanceAddition) (s : PlanRun) → Same s (apply_additions w l s).0
  apply_additions-Same = apply_additions-Kept client_of (λ s t c n. refl) (λ c s h. refl) w

  pub apply_retirements-Same :
      (l : List DocumentRetirement) (s : PlanRun) → Same s (apply_retirements w l s)
  apply_retirements-Same = apply_retirements-Kept client_of (λ s t c n. refl) (λ c s h. refl) w

  pub apply_stated_costs-Same :
      (l : List (String × String)) (s : PlanRun) → Same s (apply_stated_costs w l s)
  apply_stated_costs-Same = apply_stated_costs-Kept client_of (λ s t c n. refl) (λ c s h. refl) w

  pub apply_vehicle_declarations-Same :
      (l : List (String × String)) (s : PlanRun) → Same s (apply_vehicle_declarations w l s)
  apply_vehicle_declarations-Same =
      apply_vehicle_declarations-Kept client_of (λ s t c n. refl) (λ c s h. refl) w
