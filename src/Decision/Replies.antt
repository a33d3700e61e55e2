-- ===== src/Decision/Replies.antt =====
-- A plain reply through the gate (`normalizeDecision` of
-- src/agents/declarationOfCapital/decisionSchema.ts).
use mathlib.Core.Path.{subst}
use fiscal_mind_agent.Prelude.{
  true, false, ◌≡◌, refl, sym, ap, String, Option, none, some, List, [], str_eq,
}
use fiscal_mind_agent.Decision.Result.{Result, ok}
use fiscal_mind_agent.Decision.Quotes.{trim, normalize_send_at}
use fiscal_mind_agent.Decision.Answer.{
  RawResolution, RawAddition, RawRetirement, RawMatch, RawTemplate, IntakeState, follow_up,
  DecisionResponse, DecisionContext, DocumentResolution, InstanceAddition, Changes, follows_up,
  freeform,
}
use fiscal_mind_agent.Decision.Lists.{
  Catalog, validate_resolutions, validate_added_instances, validate_retirements,
  validate_matched_files,
}
use fiscal_mind_agent.Decision.Message.{
  optional_fetch, validate_tax_fetch, message_of, normalize_follow_up_message,
}
use fiscal_mind_agent.Decision.Gate.{
  self_evident_files_of, answer_ties_files, optional_attestation, validate_attestation, changes_of,
  decide, normalize_decision,
}
use fiscal_mind_agent.Decision.Ties.{TiesNothing, answer_ties_files_iff, ChangesNothing}

-- An answer that says one free text at a valid time, and nothing else.
abbrev IsPlainReply : DecisionResponse → DecisionContext → String → String → Type 0
IsPlainReply raw ctx text at =
    (raw.decision ≡ follow_up)
    × TiesNothing raw (self_evident_files_of ctx.intake)
    × ChangesNothing raw
    × (raw.tax_fetch_action ≡ none)
    × (raw.attestation ≡ none)
    × (raw.whatsapp_text ≡ some text)
    × (raw.whatsapp_template ≡ none)
    × (str_eq (trim text) "" ≡ false)
    × (normalize_send_at raw.send_at ≡ some at)

abbrev pub no_changes : Changes
no_changes = record {
  collected_document_ids = [];
  matched_files = [];
  resolutions = [];
  added_instances = [];
  retired = [];
  attestation = none;
}

no_fetch :
    (raw : DecisionResponse) (ctx : DecisionContext)
    → raw.tax_fetch_action ≡ none
    → validate_tax_fetch raw ctx ≡ ok none
unfolding validate_tax_fetch
no_fetch raw ctx h = ap (λ o. optional_fetch o raw ctx) h

no_resolutions :
    (cat : Catalog) (rs : List RawResolution) (intake : Option IntakeState)
    → rs ≡ []
    → validate_resolutions cat rs intake ≡ ok []
unfolding validate_resolutions
no_resolutions cat rs intake h = rw h refl

no_additions :
    (cat : Catalog) (adds : List RawAddition) (intake : Option IntakeState)
    → adds ≡ []
    → validate_added_instances cat adds intake ≡ ok []
unfolding validate_added_instances
no_additions cat adds intake h = rw h refl

no_retirements :
    (rs : List RawRetirement) (intake : Option IntakeState)
    → rs ≡ []
    → validate_retirements rs intake ≡ ok []
unfolding validate_retirements
no_retirements rs intake h = rw h refl

no_attestation :
    (raw : DecisionResponse) (intake : Option IntakeState)
    → raw.attestation ≡ none
    → validate_attestation raw intake ≡ ok none
unfolding validate_attestation
no_attestation raw intake h = ap (λ o. optional_attestation o raw intake) h

no_matches :
    (ms : List RawMatch) (intake : Option IntakeState)
    → ms ≡ []
    → validate_matched_files ms intake ≡ []
unfolding validate_matched_files
no_matches ms intake h = rw h refl

sent :
    (render : String → List String → String) (ctx : DecisionContext) (text : String)
    (o : Option String) (chosen : Option RawTemplate)
    → o ≡ some text
    → chosen ≡ none
    → str_eq (trim text) "" ≡ false
    → ctx.window_open ≡ true
    → message_of render ctx o chosen ≡ ok (freeform text)
sent render ctx text o chosen said none_chosen words open_window =
    rw (said, none_chosen, words, open_window) refl

module _ (cat : Catalog) (render : String → List String → String)
    (validate_stated : DecisionResponse
      → DecisionContext
      → List DocumentResolution
      → List InstanceAddition
      → Result (Unit {0})) where
  plain_changes :
      (raw : DecisionResponse) (ctx : DecisionContext) (text at : String)
      → IsPlainReply raw ctx text at
      → validate_stated raw ctx [] [] ≡ ok tt
      → changes_of cat render validate_stated raw ctx ≡ ok (none, no_changes)
  unfolding changes_of
  plain_changes raw ctx text at plain stated =
      let (claims, matches, named, cited) = plain.1 in
      let (resolved, added, retired, costs, vehicles) = plain.2 in
      rw
        (
          no_fetch raw ctx plain.3,
          no_resolutions cat raw.resolved_documents ctx.intake resolved,
          no_additions cat raw.added_instances ctx.intake added,
          no_retirements raw.retired_documents ctx.intake retired,
          stated,
          no_attestation raw ctx.intake plain.4,
          no_matches raw.matched_files ctx.intake matches,
          claims,
        )
        refl

  -- In the open window the gate accepts a plain reply, as the message that it is.
  pub normalize_decision-plain_reply :
      (raw : DecisionResponse) (ctx : DecisionContext) (text at : String)
      → IsPlainReply raw ctx text at
      → ctx.window_open ≡ true
      → validate_stated raw ctx [] [] ≡ ok tt
      → normalize_decision cat render validate_stated raw ctx
        ≡ ok (follows_up no_changes none (freeform text) at)
  unfolding normalize_decision normalize_follow_up_message
  normalize_decision-plain_reply raw ctx text at plain open_window stated =
      subst
        (λ k.
          decide cat render validate_stated k
            (answer_ties_files raw (self_evident_files_of ctx.intake)) raw ctx
          ≡ ok (follows_up no_changes none (freeform text) at))
        (sym plain.0)
        (rw
          (
            (answer_ties_files_iff raw (self_evident_files_of ctx.intake)).1 plain.1,
            plain_changes raw ctx text at plain stated,
            plain.8,
            sent render ctx text raw.whatsapp_text raw.whatsapp_template plain.5 plain.6 plain.7
                open_window,
          )
          refl)
