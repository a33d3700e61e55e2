-- ===== src/Decision/Accepted.antt =====
-- The parts of an answer that the gate accepts (`normalizeDecision` of
-- src/agents/declarationOfCapital/decisionSchema.ts).
use mathlib.Core.Path.{subst}
use fiscal_mind_agent.Prelude.{
  ℕ, true, false, not, ◌||◌, ◌≡◌, sym, String, Option, none, some, List, [], ◌∷◌, length, any, All,
  str_eq, ltb, arith,
}
use fiscal_mind_agent.Decision.Result.{Result, ok, ok-injective, passed, passed_not, chain-ok}
use fiscal_mind_agent.Decision.Answer.{
  AttestationStep, request, confirmed, DecisionResponse, IntakeState, DecisionContext,
  DocumentResolution, InstanceAddition, AttestationDecision, requested, confirmed_by, Changes,
  TaxFetchDecision, NormalizedDecision, declines, completes, collects, follows_up,
}
use fiscal_mind_agent.Decision.Lists.{
  Catalog, with_intake, each_once, validate_resolution, validate_addition, validate_retirement,
  validate_resolutions, validate_added_instances, validate_retirements, validate_matched_files,
}
use fiscal_mind_agent.Decision.Message.{validate_tax_fetch}
use fiscal_mind_agent.Decision.Gate.{
  is_follow_up, changes_this_cycle, attestation_step, optional_attestation, validate_attestation,
  changes_of,
}
use fiscal_mind_agent.Decision.Backed.{IsSaid, validate_evidence-IsSaid}
use fiscal_mind_agent.Decision.Entries.{
  IsSoundResolution, IsSoundAddition, IsSoundRetirement, AreNew, resolved_id, each_once-All,
  validate_resolution-IsSound, validate_addition-IsSound, validate_retirement-IsSound,
}

-- Every entry of the list is sound, and no two have one target; without an intake there is none.
abbrev AreSound :
    {R : Type 0} → (IntakeState → R → Type 0) → (R → String) → Option IntakeState → List R → Type 0
AreSound P named none rs = rs ≡ []
AreSound P named (some intake) rs = All (P intake) rs × AreNew named [] rs

-- The loop under `with_intake`, by the number of the entries.
module _ {E R : Type 0} (target : E → String) (validate : IntakeState → E → Result R)
    (P : IntakeState → R → Type 0) (named : R → String)
    (sound : (intake : IntakeState) (e : E) (r : R)
      → validate intake e ≡ ok r
      → P intake r × (named r ≡ target e)) where
  with_intake-AreSound :
      (es : List E) (intake : Option IntakeState) {rs : List R}
      → with_intake (length es) (λ i. each_once target (validate i) [] es) intake ≡ ok rs
      → AreSound P named intake rs
  with_intake-AreSound [] none h = sym (ok-injective h)
  with_intake-AreSound [] (some intake) h =
      subst (AreSound P named (some intake)) (ok-injective h) (tt, tt)
  with_intake-AreSound (e ∷ es) none h = absurd (cc h)
  with_intake-AreSound (e ∷ es) (some intake) h =
      each_once-All target (validate intake) (P intake) named (sound intake) [] (e ∷ es) h

-- The summary may go out now, or the client's reply to the summary that was sent confirms it.
abbrev IsAttested : DecisionResponse → Option IntakeState → Option AttestationDecision → Type 0
IsAttested raw intake none = Unit
IsAttested raw none (some a) = ⊥
IsAttested raw (some intake) (some requested) =
    (intake.attestation_confirmed ≡ false)
    × (is_follow_up raw.decision ≡ true)
    × (intake.all_settled ≡ true)
    × (changes_this_cycle raw ≡ 0)
IsAttested raw (some intake) (some (confirmed_by q)) =
    (intake.attestation_confirmed ≡ false)
    × (intake.attestation_requested ≡ true)
    × (any (str_eq q.message_id) intake.confirmable_message_ids ≡ true)
    × IsSaid intake.inbound_texts q

attestation_step-IsAttested :
    (raw : DecisionResponse) (intake : IntakeState) (step : AttestationStep)
    {a : AttestationDecision}
    → intake.attestation_confirmed ≡ false
    → attestation_step raw intake step ≡ ok a
    → IsAttested raw (some intake) (some a)
attestation_step-IsAttested raw intake request unconfirmed h =
    let (follows, h1) = passed_not _ _ _ h in
    let (settled, same) = passed _ _ _ h1 in
    let summarized : IsAttested raw (some intake) (some requested) =
      summary (changes_this_cycle raw) follows settled in
    subst (λ a. IsAttested raw (some intake) (some a)) (ok-injective same) summarized
  where
    summary :
        (n : ℕ)
        → is_follow_up raw.decision ≡ true
        → (not intake.all_settled || ltb 0 n) ≡ false
        → (intake.attestation_confirmed ≡ false)
          × (is_follow_up raw.decision ≡ true)
          × (intake.all_settled ≡ true)
          × (n ≡ 0)
    summary n follows settled = (unconfirmed, follows, ground arith, ground arith)
attestation_step-IsAttested raw intake confirmed unconfirmed h =
    let (sent, h1) = passed_not _ _ _ h in
    let (q, h2, said) = chain-ok _ _ h1 in
    let (after, same) = passed_not _ _ _ h2 in
    let attested : IsAttested raw (some intake) (some (confirmed_by q)) = (
      unconfirmed,
      sent,
      after,
      validate_evidence-IsSaid raw.attestation_evidence intake.inbound_texts said,
    ) in
    subst (λ a. IsAttested raw (some intake) (some a)) (ok-injective same) attested

optional_attestation-IsAttested :
    (step : Option AttestationStep) (raw : DecisionResponse) (intake : Option IntakeState)
    {a : Option AttestationDecision}
    → optional_attestation step raw intake ≡ ok a
    → IsAttested raw intake a
optional_attestation-IsAttested none raw intake h =
    subst (IsAttested raw intake) (ok-injective h) tt
optional_attestation-IsAttested (some step) raw none h = absurd (cc h)
optional_attestation-IsAttested (some step) raw (some intake) h =
    let (unconfirmed, h1) = passed _ _ _ h in
    let (a, same, decided) = chain-ok _ _ h1 in
    subst (IsAttested raw (some intake)) (ok-injective same)
      (attestation_step-IsAttested raw intake step unconfirmed decided)

-- What the accepted changes are.
abbrev AreSoundChanges : Catalog → DecisionResponse → DecisionContext → Changes → Type 0
AreSoundChanges cat raw ctx c =
    AreSound (IsSoundResolution cat) resolved_id ctx.intake c.resolutions
    × AreSound (IsSoundAddition cat) (λ a. a.anchor_document_id) ctx.intake c.added_instances
    × AreSound IsSoundRetirement (λ r. r.document_id) ctx.intake c.retired
    × IsAttested raw ctx.intake c.attestation

-- What the gate lets through of an answer: nothing but the decline, or changes that are sound.
abbrev pub CarriesSound : Catalog → DecisionResponse → DecisionContext → NormalizedDecision → Type 0
CarriesSound cat raw ctx declines = Unit
CarriesSound cat raw ctx (completes c fetch) = AreSoundChanges cat raw ctx c
CarriesSound cat raw ctx (collects c) = AreSoundChanges cat raw ctx c
CarriesSound cat raw ctx (follows_up c fetch message at) = AreSoundChanges cat raw ctx c

module _ (cat : Catalog) (render : String → List String → String)
    (validate_stated : DecisionResponse
      → DecisionContext
      → List DocumentResolution
      → List InstanceAddition
      → Result (Unit {0})) where
  pub changes_of-AreSound :
      (raw : DecisionResponse) (ctx : DecisionContext) {d : Option TaxFetchDecision × Changes}
      → changes_of cat render validate_stated raw ctx ≡ ok d
      → (validate_tax_fetch raw ctx ≡ ok d.0) × AreSoundChanges cat raw ctx d.1
  unfolding changes_of validate_resolutions validate_added_instances validate_retirements
      validate_attestation
  changes_of-AreSound raw ctx {d} h =
      let (fetch, h1, fetched) = chain-ok (validate_tax_fetch raw ctx) _ h in
      let (resolutions, h2, rs) =
        chain-ok (validate_resolutions cat raw.resolved_documents ctx.intake) _ h1 in
      let (added, h3, adds) =
        chain-ok (validate_added_instances cat raw.added_instances ctx.intake) _ h2 in
      let (retired, h4, ts) =
        chain-ok (validate_retirements raw.retired_documents ctx.intake) _ h3 in
      let (u, h5, stated) = chain-ok (validate_stated raw ctx resolutions added) _ h4 in
      let (a, same, attested) = chain-ok (validate_attestation raw ctx.intake) _ h5 in
      let parts : (validate_tax_fetch raw ctx ≡ ok fetch)
          × AreSoundChanges cat raw ctx (record {
            collected_document_ids = raw.collected_document_ids;
            matched_files = validate_matched_files raw.matched_files ctx.intake;
            resolutions = resolutions;
            added_instances = added;
            retired = retired;
            attestation = a;
          }) =
        (
          fetched,
          (
            with_intake-AreSound (λ e. e.document_id) (validate_resolution cat)
                (IsSoundResolution cat) resolved_id (λ i e r. validate_resolution-IsSound cat i e)
                raw.resolved_documents ctx.intake rs,
            with_intake-AreSound (λ e. e.anchor_document_id) (validate_addition cat)
                (IsSoundAddition cat) (λ a. a.anchor_document_id)
                (λ i e r. validate_addition-IsSound cat i e) raw.added_instances ctx.intake adds,
            with_intake-AreSound (λ e. e.document_id) validate_retirement IsSoundRetirement
                (λ r. r.document_id) (λ i e r. validate_retirement-IsSound i e)
                raw.retired_documents ctx.intake ts,
            optional_attestation-IsAttested raw.attestation raw ctx.intake attested,
          ),
        ) in
      subst
        (λ (x : Option TaxFetchDecision × Changes).
          (validate_tax_fetch raw ctx ≡ ok x.0) × AreSoundChanges cat raw ctx x.1)
        (ok-injective same) parts
