-- ===== src/Decision/Message.antt =====
-- The fetch step and the message of a follow-up (`allowedTaxFetchActions`, `validateTaxFetch`,
-- `normalizeFollowUpMessage` of src/agents/declarationOfCapital/decisionSchema.ts). How a template is
-- rendered is an argument.
use fiscal_mind_agent.Prelude.{
  ℕ, Bool, false, not, ◌&&◌, String, Option, none, some, is_some, List, [], ◌∷◌, ◌++◌, length, any,
  find, str_eq, ◌==◌, if◌then◌else◌,
}
use fiscal_mind_agent.Decision.Result.{
  Result, ok, err, ◌>>=◌, ◌>>◌, reject_if, found_or, no_provider, unknown_provider,
  action_not_allowed, keys_not_pending, two_messages, freeform_outside_window, template_hidden,
  template_unknown, wrong_variable_count, no_message,
}
use fiscal_mind_agent.Decision.Quotes.{trim}
use fiscal_mind_agent.Decision.Answer.{
  RawTemplate, TaxFetchAction, client_agreed, start_login, cancel, DecisionResponse, FetchState,
  delivered, awaiting_otp, in_progress, none_yet, failed, failed_no_documents, agreed,
  wa_intro_sent, other_state, TaxFetchState, Template, DecisionContext, FollowUpMessage, freeform,
  template, TaxFetchDecision,
}

-- `allowedTaxFetchActions`
unfoldable pub allowed_tax_fetch_actions : FetchState → Bool → Bool → List TaxFetchAction
allowed_tax_fetch_actions delivered available on_whatsapp = []
allowed_tax_fetch_actions awaiting_otp available on_whatsapp = cancel ∷ []
allowed_tax_fetch_actions in_progress available on_whatsapp = cancel ∷ []
allowed_tax_fetch_actions none_yet available on_whatsapp =
    if available then client_agreed ∷ (if on_whatsapp then start_login ∷ [] else []) else []
allowed_tax_fetch_actions failed available on_whatsapp =
    if available then client_agreed ∷ (if on_whatsapp then start_login ∷ [] else []) else []
allowed_tax_fetch_actions failed_no_documents available on_whatsapp =
    if available then client_agreed ∷ (if on_whatsapp then start_login ∷ [] else []) else []
allowed_tax_fetch_actions agreed available on_whatsapp =
    (if available && on_whatsapp then start_login ∷ [] else []) ++ cancel ∷ []
allowed_tax_fetch_actions wa_intro_sent available on_whatsapp =
    (if available && on_whatsapp then start_login ∷ [] else []) ++ cancel ∷ []
allowed_tax_fetch_actions other_state available on_whatsapp = []

abbrev action_index : TaxFetchAction → ℕ
action_index client_agreed = 0
action_index start_login = 1
action_index cancel = 2

-- `actions.includes(action)`
abbrev pub has_action : TaxFetchAction → List TaxFetchAction → Bool
has_action action actions = any (λ a. action_index a == action_index action) actions

abbrev pub fetch_step :
    TaxFetchAction → Option String → List String → List TaxFetchState → Result TaxFetchDecision
fetch_step action provider requested states = do
  provider_id ← found_or provider no_provider
  entry ← found_or (find (λ t. str_eq t.provider provider_id) states) unknown_provider
  reject_if
      (not (
        has_action action
          (allowed_tax_fetch_actions entry.state entry.available entry.client_on_whatsapp)))
      action_not_allowed
  reject_if (any (λ k. not (any (str_eq k) entry.document_keys)) requested) keys_not_pending
  ok (record {
    action = action;
    provider = provider_id;
    document_keys = if length requested == 0 then entry.document_keys else requested;
  })

-- `validateTaxFetch`; an empty provider is falsy like a missing one.
abbrev pub named_provider : Option String → Option String
named_provider none = none
named_provider (some p) = if str_eq p "" then none else some p

abbrev pub optional_fetch :
    Option TaxFetchAction → DecisionResponse → DecisionContext → Result (Option TaxFetchDecision)
optional_fetch none raw ctx = ok none
optional_fetch (some action) raw ctx = do
  step ←
      fetch_step action (named_provider raw.tax_fetch_provider) raw.tax_fetch_document_keys
        ctx.tax_fetch
  ok (some step)

unfoldable pub validate_tax_fetch :
    DecisionResponse → DecisionContext → Result (Option TaxFetchDecision)
unfolding allowed_tax_fetch_actions
validate_tax_fetch raw ctx = optional_fetch raw.tax_fetch_action raw ctx

-- A text that is there and not blank.
abbrev pub has_words : Option String → Bool
has_words none = false
has_words (some t) = not (str_eq (trim t) "")

abbrev pub template_message :
    (String → List String → String)
    → DecisionContext
    → RawTemplate
    → Option Template
    → Result FollowUpMessage
template_message render ctx chosen none =
    if any (str_eq chosen.template_id) ctx.hidden_templates
    then err template_hidden
    else err template_unknown
template_message render ctx chosen (some t) = do
  reject_if (not (length chosen.variables == t.variable_count)) wrong_variable_count
  ok (template t.content_sid chosen.variables (render t.body chosen.variables))

abbrev pub template_or_nothing :
    (String → List String → String) → DecisionContext → Option RawTemplate → Result FollowUpMessage
template_or_nothing render ctx none = err no_message
template_or_nothing render ctx (some chosen) =
    template_message render ctx chosen
      (find (λ t. str_eq t.content_sid chosen.template_id) ctx.templates)

abbrev pub message_of :
    (String → List String → String)
    → DecisionContext
    → Option String
    → Option RawTemplate
    → Result FollowUpMessage
message_of render ctx none chosen = template_or_nothing render ctx chosen
message_of render ctx (some text) chosen =
    if str_eq (trim text) ""
    then template_or_nothing render ctx chosen
    else if is_some chosen
    then err two_messages
    else if ctx.window_open
    then ok (freeform text)
    else err freeform_outside_window

-- `normalizeFollowUpMessage`
unfoldable pub normalize_follow_up_message :
    (String → List String → String) → DecisionResponse → DecisionContext → Result FollowUpMessage
unfolding trim
normalize_follow_up_message render raw ctx =
    message_of render ctx raw.whatsapp_text raw.whatsapp_template
