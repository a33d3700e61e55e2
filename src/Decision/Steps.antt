-- ===== src/Decision/Steps.antt =====
-- The fetch steps and the messages that the gate lets through (`validateTaxFetch` and
-- `normalizeFollowUpMessage` of src/agents/declarationOfCapital/decisionSchema.ts).
use mathlib.Core.Path.{subst}
use fiscal_mind_agent.Prelude.{
  Bool, true, false, not, ◌≡◌, ◌⊎◌, inl, inr, String, Option, none, some, List, [], ◌∷◌, length,
  any, find, All, str_eq, eq_refl, ◌==◌, if◌then◌else◌, if-cases, arith,
}
use fiscal_mind_agent.Decision.Result.{
  ok, ok-injective, passed, passed_not, looked_up, no_provider, unknown_provider, chain-ok,
}
use fiscal_mind_agent.Decision.Answer.{
  TaxFetchAction, client_agreed, start_login, cancel, DecisionResponse, FetchState, delivered,
  awaiting_otp, in_progress, none_yet, failed, failed_no_documents, agreed, wa_intro_sent,
  other_state, TaxFetchState, DecisionContext, TaxFetchDecision,
}
use fiscal_mind_agent.Decision.Message.{
  allowed_tax_fetch_actions, has_action, fetch_step, named_provider, optional_fetch,
  validate_tax_fetch,
}

-- No attempt is in flight and none has delivered.
abbrev IsIdle : FetchState → Type 0
IsIdle none_yet = Unit
IsIdle failed = Unit
IsIdle failed_no_documents = Unit
IsIdle _ = ⊥

-- The client agreed, and no browser session is open yet.
abbrev IsAgreed : FetchState → Type 0
IsAgreed agreed = Unit
IsAgreed wa_intro_sent = Unit
IsAgreed _ = ⊥

-- A browser session is open.
abbrev pub IsOpen : FetchState → Type 0
IsOpen awaiting_otp = Unit
IsOpen in_progress = Unit
IsOpen _ = ⊥

abbrev MayFetch : TaxFetchState → TaxFetchAction → Type 0
MayFetch t client_agreed = (t.available ≡ true) × IsIdle t.state
MayFetch t start_login =
    (t.available ≡ true) × (t.client_on_whatsapp ≡ true) × (IsIdle t.state ⊎ IsAgreed t.state)
MayFetch t cancel = IsOpen t.state ⊎ IsAgreed t.state

may_fetch :
    (s : FetchState) (available on_whatsapp : Bool) (action : TaxFetchAction) (p : String)
    (keys : List String)
    → has_action action (allowed_tax_fetch_actions s available on_whatsapp) ≡ true
    → MayFetch
        (record {
          provider = p;
          state = s;
          available = available;
          client_on_whatsapp = on_whatsapp;
          document_keys = keys;
        })
        action
unfolding allowed_tax_fetch_actions
may_fetch delivered a w action p keys h = absurd (cc h)
may_fetch other_state a w action p keys h = absurd (cc h)
may_fetch awaiting_otp a w cancel p keys h = inl tt
may_fetch awaiting_otp a w client_agreed p keys h = absurd (cc h)
may_fetch awaiting_otp a w start_login p keys h = absurd (cc h)
may_fetch in_progress a w cancel p keys h = inl tt
may_fetch in_progress a w client_agreed p keys h = absurd (cc h)
may_fetch in_progress a w start_login p keys h = absurd (cc h)
may_fetch none_yet a w client_agreed p keys h = (ground arith, tt)
may_fetch none_yet a w start_login p keys h = (ground arith, ground arith, inl tt)
may_fetch none_yet a w cancel p keys h = absurd (ground arith)
may_fetch failed a w client_agreed p keys h = (ground arith, tt)
may_fetch failed a w start_login p keys h = (ground arith, ground arith, inl tt)
may_fetch failed a w cancel p keys h = absurd (ground arith)
may_fetch failed_no_documents a w client_agreed p keys h = (ground arith, tt)
may_fetch failed_no_documents a w start_login p keys h = (ground arith, ground arith, inl tt)
may_fetch failed_no_documents a w cancel p keys h = absurd (ground arith)
may_fetch agreed a w client_agreed p keys h = absurd (ground arith)
may_fetch agreed a w start_login p keys h = (ground arith, ground arith, inr tt)
may_fetch agreed a w cancel p keys h = inr tt
may_fetch wa_intro_sent a w client_agreed p keys h = absurd (ground arith)
may_fetch wa_intro_sent a w start_login p keys h = (ground arith, ground arith, inr tt)
may_fetch wa_intro_sent a w cancel p keys h = inr tt

-- Each key is one of the list.
abbrev AreAmong : List String → List String → Type 0
AreAmong keys ks = All (λ k. any (str_eq k) keys ≡ true) ks

AreAmong-cons : (x : String) (keys ks : List String) → AreAmong keys ks → AreAmong (x ∷ keys) ks
AreAmong-cons x keys [] h = tt
AreAmong-cons x keys (k ∷ ks) h = (ground (arith, h.0), AreAmong-cons x keys ks h.1)

AreAmong-self : (ks : List String) → AreAmong ks ks
AreAmong-self [] = tt
AreAmong-self (k ∷ ks) = (ground (arith, eq_refl k), AreAmong-cons k ks ks (AreAmong-self ks))

AreAmong-known :
    (keys ks : List String) → any (λ k. not (any (str_eq k) keys)) ks ≡ false → AreAmong keys ks
AreAmong-known keys [] h = tt
AreAmong-known keys (k ∷ ks) h = (ground arith, AreAmong-known keys ks (ground arith))

-- The step may be taken with a provider that is offered to the client, for documents that are pending.
abbrev pub IsFetchStep : DecisionContext → Option TaxFetchDecision → Type 0
IsFetchStep ctx none = Unit
IsFetchStep ctx (some d) =
    (entry : TaxFetchState) × (find (λ t. str_eq t.provider d.provider) ctx.tax_fetch ≡ some entry)
    × MayFetch entry d.action
    × AreAmong entry.document_keys d.document_keys

fetch_step-IsFetchStep :
    (ctx : DecisionContext) (action : TaxFetchAction) (provider : Option String)
    (requested : List String) {d : TaxFetchDecision}
    → fetch_step action provider requested ctx.tax_fetch ≡ ok d
    → IsFetchStep ctx (some d)
fetch_step-IsFetchStep ctx action provider requested h =
    let (p, named, h1) = looked_up provider no_provider _ h in
    let (entry, found, h2) =
      looked_up (find (λ t. str_eq t.provider p) ctx.tax_fetch) unknown_provider _ h1 in
    let (allowed, h3) = passed_not _ _ _ h2 in
    let (known, same) = passed _ _ _ h3 in
    let step : IsFetchStep ctx (
        some (record {
          action = action;
          provider = p;
          document_keys = if length requested == 0 then entry.document_keys else requested;
        })) =
      (
        entry,
        found,
        may_fetch entry.state entry.available entry.client_on_whatsapp action entry.provider
            entry.document_keys allowed,
        among requested entry.document_keys known,
      ) in
    subst (λ d. IsFetchStep ctx (some d)) (ok-injective same) step
  where
    among :
        (ks keys : List String)
        → any (λ k. not (any (str_eq k) keys)) ks ≡ false
        → AreAmong keys (if length ks == 0 then keys else ks)
    among ks keys h =
        if-cases (AreAmong keys) (length ks == 0) (λ _. AreAmong-self keys)
          (λ _. AreAmong-known keys ks h)

optional_fetch-IsFetchStep :
    (action : Option TaxFetchAction) (raw : DecisionResponse) (ctx : DecisionContext)
    {d : Option TaxFetchDecision}
    → optional_fetch action raw ctx ≡ ok d
    → IsFetchStep ctx d
optional_fetch-IsFetchStep none raw ctx h = subst (IsFetchStep ctx) (ok-injective h) tt
optional_fetch-IsFetchStep (some action) raw ctx h =
    let (d, same, step) = chain-ok _ _ h in
    subst (IsFetchStep ctx) (ok-injective same) (
      fetch_step-IsFetchStep ctx action (named_provider raw.tax_fetch_provider)
        raw.tax_fetch_document_keys step)

pub validate_tax_fetch-IsFetchStep :
    (raw : DecisionResponse) (ctx : DecisionContext) {d : Option TaxFetchDecision}
    → validate_tax_fetch raw ctx ≡ ok d
    → IsFetchStep ctx d
unfolding validate_tax_fetch
validate_tax_fetch-IsFetchStep raw ctx h = optional_fetch-IsFetchStep raw.tax_fetch_action raw ctx h
