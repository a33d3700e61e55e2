-- ===== src/Decision/Messages.antt =====
-- The message and the time of an accepted follow-up (`normalizeFollowUpMessage` and `normalizeSendAt`
-- of src/agents/declarationOfCapital/decisionSchema.ts).
use mathlib.Core.Path.{subst}
use mathlib.Core.Option.{some-injective}
use fiscal_mind_agent.Prelude.{
  true, false, ◌≡◌, ◌⊎◌, inl, inr, refl, sym, String, Option, none, some, is_some, List, length,
  find, str_eq, ==_iff, Bool-cases, arith,
}
use fiscal_mind_agent.Decision.Result.{ok, ok-injective, passed_not}
use fiscal_mind_agent.Decision.Quotes.{codes, trim, is_asap, is_wall_clock, normalize_send_at}
use fiscal_mind_agent.Decision.Answer.{
  RawTemplate, DecisionResponse, Template, DecisionContext, FollowUpMessage, freeform, template,
}
use fiscal_mind_agent.Decision.Message.{
  has_words, template_message, template_or_nothing, message_of, normalize_follow_up_message,
}
use fiscal_mind_agent.Decision.Ties.{is_none}

-- "asap", or a wall-clock time.
abbrev pub IsSendTime : String → Type 0
IsSendTime at = (at ≡ "asap") ⊎ (is_wall_clock (codes at) ≡ true)

pub normalize_send_at-IsSendTime :
    (o : Option String) {at : String} → normalize_send_at o ≡ some at → IsSendTime at
unfolding normalize_send_at
normalize_send_at-IsSendTime none h = absurd (cc h)
normalize_send_at-IsSendTime (some v) h = elim (Bool-cases (is_asap (codes (trim v)))) [
  | inl asap ↦ inl (sym (some-injective _ _ (rw asap at h)))
  | inr timed ↦ elim (Bool-cases (is_wall_clock (codes (trim v)))) [
    | inl clock ↦ inr (
        subst (λ t. is_wall_clock (codes t) ≡ true)
          (some-injective _ _ (rw clock at (rw timed at h))) clock)
    | inr bad ↦ absurd (cc (rw bad at (rw timed at h)))
  ]
]

module _ (render : String → List String → String) where
  -- A free text goes out in the open window only, a template only if it is approved for this client and
  -- has all its variables; the answer fills one of the two.
  abbrev pub IsSendable : DecisionContext → DecisionResponse → FollowUpMessage → Type 0
  IsSendable ctx raw (freeform t) =
      (ctx.window_open ≡ true)
      × (raw.whatsapp_text ≡ some t)
      × (has_words (some t) ≡ true)
      × (raw.whatsapp_template ≡ none)
  IsSendable ctx raw (template sid variables body) =
      (chosen : RawTemplate) × (raw.whatsapp_template ≡ some chosen)
      × (variables ≡ chosen.variables)
      × (has_words raw.whatsapp_text ≡ false)
      × (t : Template) × (find (λ t. str_eq t.content_sid chosen.template_id) ctx.templates
          ≡ some t)
      × (length variables ≡ t.variable_count)
      × (sid ≡ t.content_sid)
      × (body ≡ render t.body variables)

  template_message-IsSendable :
      (ctx : DecisionContext) (raw : DecisionResponse) (chosen : RawTemplate) (o : Option Template)
      {m : FollowUpMessage}
      → find (λ t. str_eq t.content_sid chosen.template_id) ctx.templates ≡ o
      → raw.whatsapp_template ≡ some chosen
      → has_words raw.whatsapp_text ≡ false
      → template_message render ctx chosen o ≡ ok m
      → IsSendable ctx raw m
  template_message-IsSendable ctx raw chosen none found picked silent h = absurd (ground (arith, h))
  template_message-IsSendable ctx raw chosen (some t) found picked silent h =
      let (count, same) = passed_not _ _ _ h in
      let sendable : IsSendable ctx raw
          (template t.content_sid chosen.variables (render t.body chosen.variables)) =
        (
          chosen,
          picked,
          refl,
          silent,
          t,
          found,
          (==_iff (length chosen.variables) t.variable_count).0 count,
          refl,
          refl,
        ) in
      subst (IsSendable ctx raw) (ok-injective same) sendable

  template_or_nothing-IsSendable :
      (ctx : DecisionContext) (raw : DecisionResponse) (o : Option RawTemplate)
      {m : FollowUpMessage}
      → raw.whatsapp_template ≡ o
      → has_words raw.whatsapp_text ≡ false
      → template_or_nothing render ctx o ≡ ok m
      → IsSendable ctx raw m
  template_or_nothing-IsSendable ctx raw none picked silent h = absurd (cc h)
  template_or_nothing-IsSendable ctx raw (some chosen) picked silent h =
      template_message-IsSendable ctx raw chosen
        (find (λ t. str_eq t.content_sid chosen.template_id) ctx.templates) refl picked silent h

  message_of-IsSendable :
      (ctx : DecisionContext) (raw : DecisionResponse) (text : Option String) {m : FollowUpMessage}
      → raw.whatsapp_text ≡ text
      → message_of render ctx text raw.whatsapp_template ≡ ok m
      → IsSendable ctx raw m
  message_of-IsSendable ctx raw none said h =
      template_or_nothing-IsSendable ctx raw raw.whatsapp_template refl (rw said refl) h
  message_of-IsSendable ctx raw (some t) said h = elim (Bool-cases (str_eq (trim t) "")) [
    | inl blank ↦
        template_or_nothing-IsSendable ctx raw raw.whatsapp_template refl (rw (said, blank) refl)
          (rw blank at h)
    | inr words ↦ elim (Bool-cases (is_some raw.whatsapp_template)) [
      | inl two ↦ absurd (cc (rw two at (rw words at h)))
      | inr one ↦ elim (Bool-cases ctx.window_open) [
        | inl open_window ↦
            let same = ok-injective (rw open_window at (rw one at (rw words at h))) in
            let sendable : IsSendable ctx raw (freeform t) =
              (open_window, said, rw words refl, is_none raw.whatsapp_template one) in
            subst (IsSendable ctx raw) same sendable
        | inr shut ↦ absurd (cc (rw shut at (rw one at (rw words at h))))
      ]
    ]
  ]

  pub normalize_follow_up_message-IsSendable :
      (raw : DecisionResponse) (ctx : DecisionContext) {m : FollowUpMessage}
      → normalize_follow_up_message render raw ctx ≡ ok m
      → IsSendable ctx raw m
  unfolding normalize_follow_up_message
  normalize_follow_up_message-IsSendable raw ctx h =
      message_of-IsSendable ctx raw raw.whatsapp_text refl h
