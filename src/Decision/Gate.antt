-- ===== src/Decision/Gate.antt =====
-- `validateAttestation`, `answerTiesFiles` and `normalizeDecision` of
-- src/agents/declarationOfCapital/decisionSchema.ts. What `validateStatedCosts` and
-- `validateStatedVehicles` say of an answer is an argument.
use fiscal_mind_agent.Prelude.{
  ℕ, ◌+◌, Bool, true, false, not, ◌||◌, ◌&&◌, String, Option, none, some, is_some, List, [], length,
  any, str_eq, ◌==◌, ltb,
}
use fiscal_mind_agent.Decision.Result.{
  Result, ok, err, ◌>>=◌, ◌>>◌, reject_if, found_or, not_applicable, attestation_confirmed_before,
  request_without_follow_up, request_too_early, no_request_sent, reply_predates_request,
  decline_with_extras, collect_after_verification, collect_without_tie, collect_with_message,
  collect_with_fetch, collect_with_request, follow_up_with_tie, bad_send_at,
}
use fiscal_mind_agent.Decision.Quotes.{trim, normalize_send_at}
use fiscal_mind_agent.Decision.Answer.{
  SelfEvidentFile, RawInstance, DecisionKind, goal_complete, follow_up, collect, client_declined,
  AttestationStep, request, confirmed, DecisionResponse, IntakeState, DecisionContext,
  DocumentResolution, InstanceAddition, AttestationDecision, requested, confirmed_by, Changes,
  TaxFetchDecision, NormalizedDecision, declines, completes, collects, follows_up,
}
use fiscal_mind_agent.Decision.Evidence.{get, validate_evidence}
use fiscal_mind_agent.Decision.Lists.{
  Catalog, validate_resolutions, validate_added_instances, validate_retirements,
  validate_matched_files,
}
use fiscal_mind_agent.Decision.Message.{has_words, validate_tax_fetch, normalize_follow_up_message}

abbrev pub is_follow_up : DecisionKind → Bool
is_follow_up follow_up = true
is_follow_up _ = false

abbrev pub changes_this_cycle : DecisionResponse → ℕ
changes_this_cycle raw =
    length raw.resolved_documents
    + length raw.added_instances
    + length raw.retired_documents
    + length raw.stated_costs
    + length raw.stated_vehicles

abbrev pub attestation_step :
    DecisionResponse → IntakeState → AttestationStep → Result AttestationDecision
attestation_step raw intake request = do
  reject_if (not (is_follow_up raw.decision)) request_without_follow_up
  reject_if (not intake.all_settled || ltb 0 (changes_this_cycle raw)) request_too_early
  ok requested
attestation_step raw intake confirmed = do
  reject_if (not intake.attestation_requested) no_request_sent
  evidence ← validate_evidence raw.attestation_evidence intake.inbound_texts
  reject_if (not (any (str_eq evidence.message_id) intake.confirmable_message_ids))
      reply_predates_request
  ok (confirmed_by evidence)

abbrev pub optional_attestation :
    Option AttestationStep
    → DecisionResponse
    → Option IntakeState
    → Result (Option AttestationDecision)
optional_attestation none raw intake = ok none
optional_attestation (some step) raw none = err not_applicable
optional_attestation (some step) raw (some intake) = do
  reject_if intake.attestation_confirmed attestation_confirmed_before
  decided ← attestation_step raw intake step
  ok (some decided)

-- `validateAttestation`
unfoldable pub validate_attestation :
    DecisionResponse → Option IntakeState → Result (Option AttestationDecision)
unfolding validate_evidence
validate_attestation raw intake = optional_attestation raw.attestation raw intake

abbrev pub self_evident_files_of : Option IntakeState → List (String × SelfEvidentFile)
self_evident_files_of none = []
self_evident_files_of (some intake) = intake.self_evident_files

abbrev pub names_files : List RawInstance → Bool
names_files instances = any (λ i. not (length i.file_ids == 0)) instances

abbrev pub is_cited : List (String × SelfEvidentFile) → String → Bool
is_cited files id = not (str_eq id "") && is_some (get id files)

-- `answerTiesFiles`
unfoldable pub answer_ties_files : DecisionResponse → List (String × SelfEvidentFile) → Bool
answer_ties_files raw files =
    not (length raw.collected_document_ids == 0)
    || not (length raw.matched_files == 0)
    || any (λ r. names_files r.instances) raw.resolved_documents
    || any (λ a. names_files a.instances) raw.added_instances
    || any (λ r. is_cited files r.proven_by_file_id) raw.resolved_documents
    || any (λ a. is_cited files a.proven_by_file_id) raw.added_instances

-- `filledMessageFields`: is one filled
unfoldable pub has_message_field : DecisionResponse → Bool
unfolding trim
has_message_field raw =
    has_words raw.whatsapp_text || is_some raw.whatsapp_template || is_some raw.send_at

abbrev pub is_request : Option AttestationStep → Bool
is_request none = false
is_request (some request) = true
is_request (some confirmed) = false

module _ (cat : Catalog) (render : String → List String → String)
    (validate_stated : DecisionResponse
      → DecisionContext
      → List DocumentResolution
      → List InstanceAddition
      → Result (Unit {0})) where
  unfoldable pub changes_of :
      DecisionResponse → DecisionContext → Result (Option TaxFetchDecision × Changes)
  unfolding validate_tax_fetch validate_resolutions validate_added_instances validate_retirements
      validate_attestation validate_matched_files
  changes_of raw ctx = do
    tax_fetch ← validate_tax_fetch raw ctx
    resolutions ← validate_resolutions cat raw.resolved_documents ctx.intake
    added ← validate_added_instances cat raw.added_instances ctx.intake
    retired ← validate_retirements raw.retired_documents ctx.intake
    validate_stated raw ctx resolutions added
    attestation ← validate_attestation raw ctx.intake
    ok (
      tax_fetch,
      record {
        collected_document_ids = raw.collected_document_ids;
        matched_files = validate_matched_files raw.matched_files ctx.intake;
        resolutions = resolutions;
        added_instances = added;
        retired = retired;
        attestation = attestation;
      },
    )

  -- The answer by its decision, with whether it ties a file.
  abbrev pub decide :
      DecisionKind → Bool → DecisionResponse → DecisionContext → Result NormalizedDecision
  decide client_declined ties raw ctx = do
    reject_if
        (has_message_field raw
          || ties
          || is_some raw.tax_fetch_action
          || is_some raw.attestation
          || ltb 0 (changes_this_cycle raw))
        decline_with_extras
    ok declines
  decide collect ties raw ctx = do
    reject_if ctx.after_verification collect_after_verification
    reject_if (not ties) collect_without_tie
    reject_if (has_message_field raw) collect_with_message
    reject_if (is_some raw.tax_fetch_action) collect_with_fetch
    reject_if (is_request raw.attestation) collect_with_request
    (tax_fetch, changes) ← changes_of raw ctx
    ok (collects changes)
  decide goal_complete ties raw ctx = do
    (tax_fetch, changes) ← changes_of raw ctx
    ok (completes changes tax_fetch)
  decide follow_up ties raw ctx = do
    reject_if ties follow_up_with_tie
    (tax_fetch, changes) ← changes_of raw ctx
    send_at ← found_or (normalize_send_at raw.send_at) bad_send_at
    message ← normalize_follow_up_message render raw ctx
    ok (follows_up changes tax_fetch message send_at)

  -- `normalizeDecision`
  unfoldable pub normalize_decision : DecisionResponse → DecisionContext → Result NormalizedDecision
  unfolding answer_ties_files has_message_field normalize_send_at normalize_follow_up_message
      changes_of
  normalize_decision raw ctx =
      decide raw.decision (answer_ties_files raw (self_evident_files_of ctx.intake)) raw ctx
