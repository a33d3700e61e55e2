-- ===== src/Decision/Shapes.antt =====
-- What the gate lets through, by the decision (`normalizeDecision` of
-- src/agents/declarationOfCapital/decisionSchema.ts).
use mathlib.Core.Path.{subst}
use fiscal_mind_agent.Prelude.{
  Bool, true, false, ◌||◌, ◌≡◌, refl, String, none, is_some, List, ltb, arith,
}
use fiscal_mind_agent.Decision.Result.{
  Result, ok, ok-injective, passed, passed_not, looked_up, chain-ok,
}
use fiscal_mind_agent.Decision.Answer.{
  DecisionKind, goal_complete, follow_up, collect, client_declined, DecisionResponse,
  DecisionContext, DocumentResolution, InstanceAddition, NormalizedDecision, declines, completes,
  collects, follows_up,
}
use fiscal_mind_agent.Decision.Lists.{Catalog}
use fiscal_mind_agent.Decision.Message.{normalize_follow_up_message}
use fiscal_mind_agent.Decision.Gate.{
  changes_this_cycle, is_request, self_evident_files_of, answer_ties_files, has_message_field,
  changes_of, decide, normalize_decision,
}
use fiscal_mind_agent.Decision.Ties.{
  TiesNothing, answer_ties_files_iff, NoMessage, has_message_field-NoMessage, ChangesNothing,
  none_changed, is_none,
}
use fiscal_mind_agent.Decision.Steps.{IsFetchStep, validate_tax_fetch-IsFetchStep}
use fiscal_mind_agent.Decision.Messages.{
  IsSendTime, normalize_send_at-IsSendTime, IsSendable, normalize_follow_up_message-IsSendable,
}
use fiscal_mind_agent.Decision.Accepted.{CarriesSound, changes_of-AreSound}

not_both : (b : Bool) → b ≡ true → b ≡ false → ⊥
not_both b h k = cc (h, k)

module _ (cat : Catalog) (render : String → List String → String)
    (validate_stated : DecisionResponse
      → DecisionContext
      → List DocumentResolution
      → List InstanceAddition
      → Result (Unit {0})) where
  -- The answer that a decision may come from.
  abbrev pub IsShaped : DecisionResponse → DecisionContext → NormalizedDecision → Type 0
  IsShaped raw ctx declines =
      (raw.decision ≡ client_declined)
      × NoMessage raw
      × TiesNothing raw (self_evident_files_of ctx.intake)
      × (raw.tax_fetch_action ≡ none)
      × (raw.attestation ≡ none)
      × ChangesNothing raw
  IsShaped raw ctx (completes c fetch) = (raw.decision ≡ goal_complete) × IsFetchStep ctx fetch
  IsShaped raw ctx (collects c) =
      (raw.decision ≡ collect)
      × (ctx.after_verification ≡ false)
      × (TiesNothing raw (self_evident_files_of ctx.intake) → ⊥)
      × NoMessage raw
      × (raw.tax_fetch_action ≡ none)
      × (is_request raw.attestation ≡ false)
  IsShaped raw ctx (follows_up c fetch message at) =
      (raw.decision ≡ follow_up)
      × TiesNothing raw (self_evident_files_of ctx.intake)
      × IsFetchStep ctx fetch
      × IsSendable render ctx raw message
      × IsSendTime at

  abbrev IsAccepted : DecisionResponse → DecisionContext → NormalizedDecision → Type 0
  IsAccepted raw ctx d = IsShaped raw ctx d × CarriesSound cat raw ctx d

  declined-IsAccepted :
      (raw : DecisionResponse) (ctx : DecisionContext) {d : NormalizedDecision}
      → raw.decision ≡ client_declined
      → decide cat render validate_stated client_declined
          (answer_ties_files raw (self_evident_files_of ctx.intake))
          raw
          ctx
        ≡ ok d
      → IsAccepted raw ctx d
  declined-IsAccepted raw ctx kind h =
      let (bare, same) = passed _ _ _ h in
      let (silent, loose, no_fetch, no_step, unchanged) =
        parts (has_message_field raw) (answer_ties_files raw (self_evident_files_of ctx.intake))
          (is_some raw.tax_fetch_action) (is_some raw.attestation) (ltb 0 (changes_this_cycle raw))
          bare in
      let shaped : IsAccepted raw ctx declines = (
        (
          kind,
          has_message_field-NoMessage raw silent,
          (answer_ties_files_iff raw (self_evident_files_of ctx.intake)).0 loose,
          is_none raw.tax_fetch_action no_fetch,
          is_none raw.attestation no_step,
          none_changed raw unchanged,
        ),
        tt,
      ) in
      subst (IsAccepted raw ctx) (ok-injective same) shaped
    where
      parts :
          (a b c d e : Bool)
          → (a || b || c || d || e) ≡ false
          → (a ≡ false) × (b ≡ false) × (c ≡ false) × (d ≡ false) × (e ≡ false)
      parts a b c d e h = (ground arith, ground arith, ground arith, ground arith, ground arith)

  collected-IsAccepted :
      (raw : DecisionResponse) (ctx : DecisionContext) {d : NormalizedDecision}
      → raw.decision ≡ collect
      → decide cat render validate_stated collect
          (answer_ties_files raw (self_evident_files_of ctx.intake))
          raw
          ctx
        ≡ ok d
      → IsAccepted raw ctx d
  collected-IsAccepted raw ctx kind h =
      let (first_cycle, h1) = passed _ _ _ h in
      let (ties, h2) =
        passed_not (answer_ties_files raw (self_evident_files_of ctx.intake)) _ _ h1 in
      let (silent, h3) = passed _ _ _ h2 in
      let (no_fetch, h4) = passed _ _ _ h3 in
      let (no_request, h5) = passed _ _ _ h4 in
      let ((fetch, changes), same, made) =
        chain-ok (changes_of cat render validate_stated raw ctx) _ h5 in
      let sound = changes_of-AreSound cat render validate_stated raw ctx made in
      let accepted : IsAccepted raw ctx (collects changes) = (
        (
          kind,
          first_cycle,
          λ bare.
              not_both _ ties
                ((answer_ties_files_iff raw (self_evident_files_of ctx.intake)).1 bare),
          has_message_field-NoMessage raw silent,
          is_none raw.tax_fetch_action no_fetch,
          no_request,
        ),
        sound.1,
      ) in
      subst (IsAccepted raw ctx) (ok-injective same) accepted

  completed-IsAccepted :
      (raw : DecisionResponse) (ctx : DecisionContext) (ties : Bool) {d : NormalizedDecision}
      → raw.decision ≡ goal_complete
      → decide cat render validate_stated goal_complete ties raw ctx ≡ ok d
      → IsAccepted raw ctx d
  completed-IsAccepted raw ctx ties kind h =
      let ((fetch, changes), same, made) =
        chain-ok (changes_of cat render validate_stated raw ctx) _ h in
      let sound = changes_of-AreSound cat render validate_stated raw ctx made in
      let accepted : IsAccepted raw ctx (completes changes fetch) =
        ((kind, validate_tax_fetch-IsFetchStep raw ctx sound.0), sound.1) in
      subst (IsAccepted raw ctx) (ok-injective same) accepted

  followed-IsAccepted :
      (raw : DecisionResponse) (ctx : DecisionContext) {d : NormalizedDecision}
      → raw.decision ≡ follow_up
      → decide cat render validate_stated follow_up
          (answer_ties_files raw (self_evident_files_of ctx.intake))
          raw
          ctx
        ≡ ok d
      → IsAccepted raw ctx d
  followed-IsAccepted raw ctx kind h =
      let (ties, h1) = passed _ _ _ h in
      let ((fetch, changes), h2, made) =
        chain-ok (changes_of cat render validate_stated raw ctx) _ h1 in
      let (at, timed, h3) = looked_up _ _ _ h2 in
      let (message, same, sent) = chain-ok (normalize_follow_up_message render raw ctx) _ h3 in
      let sound = changes_of-AreSound cat render validate_stated raw ctx made in
      let accepted : IsAccepted raw ctx (follows_up changes fetch message at) = (
        (
          kind,
          (answer_ties_files_iff raw (self_evident_files_of ctx.intake)).0 ties,
          validate_tax_fetch-IsFetchStep raw ctx sound.0,
          normalize_follow_up_message-IsSendable render raw ctx sent,
          normalize_send_at-IsSendTime raw.send_at timed,
        ),
        sound.1,
      ) in
      subst (IsAccepted raw ctx) (ok-injective same) accepted

  accepted :
      (kind : DecisionKind) (raw : DecisionResponse) (ctx : DecisionContext)
      {d : NormalizedDecision}
      → raw.decision ≡ kind
      → decide cat render validate_stated kind
          (answer_ties_files raw (self_evident_files_of ctx.intake))
          raw
          ctx
        ≡ ok d
      → IsAccepted raw ctx d
  accepted client_declined raw ctx kind h = declined-IsAccepted raw ctx kind h
  accepted collect raw ctx kind h = collected-IsAccepted raw ctx kind h
  accepted goal_complete raw ctx kind h =
      completed-IsAccepted raw ctx (answer_ties_files raw (self_evident_files_of ctx.intake)) kind h
  accepted follow_up raw ctx kind h = followed-IsAccepted raw ctx kind h

  -- An accepted decline carries no message, tie, change, fetch step or attestation. An accepted collect
  -- ties a file, carries no message, no fetch step and no summary, and is never given after a
  -- verification. An accepted follow-up ties no file, has one message that may be sent (free text in the
  -- open window, or a template that is approved for the client with all its variables), and a time that
  -- is "asap" or a wall-clock time. A fetch step is one that the state of its provider allows.
  pub normalize_decision-IsShaped :
      (raw : DecisionResponse) (ctx : DecisionContext) {d : NormalizedDecision}
      → normalize_decision cat render validate_stated raw ctx ≡ ok d
      → IsShaped raw ctx d
  unfolding normalize_decision
  normalize_decision-IsShaped raw ctx h = (accepted raw.decision raw ctx refl h).0

  -- In an accepted answer every resolution, addition and retirement targets a row of the client that
  -- stands in the right status, no row twice in one of the three lists, and rests on the client's words in
  -- a stored message or on a file that calls for just this change; a row is never settled as not needed, and nothing is retired
  -- for a self-evident file, without the client's words or an approved paper; a type takes as many
  -- instances as it allows, each with a name and a paper that fit. A summary is asked for only when all
  -- is settled and nothing changes, and is confirmed only by a reply to it.
  pub normalize_decision-CarriesSound :
      (raw : DecisionResponse) (ctx : DecisionContext) {d : NormalizedDecision}
      → normalize_decision cat render validate_stated raw ctx ≡ ok d
      → CarriesSound cat raw ctx d
  unfolding normalize_decision
  normalize_decision-CarriesSound raw ctx h = (accepted raw.decision raw ctx refl h).1
