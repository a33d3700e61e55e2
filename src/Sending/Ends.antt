-- ===== src/Sending/Ends.antt =====
-- How a firing of the send worker can end, and what each end leaves behind.
use fiscal_mind_agent.Prelude.{
  inl, inr, has_text, ◌≡◌, ◌≢◌, refl, sym, ◌∙◌, Bool, true, false, not, ◌&&◌, ◌||◌, Option, none,
  some, is_some, List, any, arith, if-cases,
}
use mathlib.Core.Path.{subst}
use mathlib.Core.Option.{some-injective}
use fiscal_mind_agent.Queue.{JobState}
use fiscal_mind_agent.Sending.Rules.{
  draft, sent, pending, superseded, Channel, email, whatsapp, Draft, MirrorRow, Client,
  agent_work_blocked, is_supervised_instance, admin_comms_paused, is_whatsapp_window_open,
  awaits_admin_review,
}
use fiscal_mind_agent.Sending.Mirror.{
  Call, SendState, remove_future_email, superseded_draft, cancel_job, is_cancelable,
}
use fiscal_mind_agent.Sending.Worker.{
  World, Effect, deliver_email, deliver_template, deliver_text, SendOutcome, Run, deliver, is_draft,
  is_approved, review_mode, send_email_draft, send_whatsapp_draft, send_draft, after_send,
  run_draft, run_client, on_scheduled_send, stop,
}
use fiscal_mind_agent.Sending.Gates.{is_delivery, CanCarry}
use fiscal_mind_agent.Sending.Outcomes.{
  carrier, IsFree, IsDue, no_client, kept_back, no_draft, not_draft, no_mailbox, Ends, stays, parks,
  fails, replans, goes,
}

module _ (w : World) (s : SendState) (c : Client) (d : Draft) (due : IsDue w s c d) where
  -- What the outcome of the send makes of the run.
  abbrev EndsAfter : SendState × List Effect × SendOutcome → Type 0
  EndsAfter x = Ends w s (after_send w x)

  deliver-Ends :
      (e : Effect)
      → CanCarry d.channel w c d
      → e ≡ carrier d.channel d
      → EndsAfter (deliver e w d s)
  deliver-Ends e carries out =
      if-cases {A = SendState × List Effect × SendOutcome} EndsAfter w.accepts
        (λ takes. goes due carries takes out) (λ refuses. fails due carries refuses)

  by_channel : (ch : Channel) → d.channel ≡ ch → CanCarry ch w c d → CanCarry d.channel w c d
  by_channel ch e h = subst (λ x. CanCarry x w c d) (sym e) h

  cannot_reach :
      (enabled phone sender : Bool) {P : Type 0}
      → (not enabled || not phone || not sender) ≡ true
      → ¬ ((enabled ≡ true) × (phone ≡ true) × (sender ≡ true) × P)
  cannot_reach enabled phone sender h = ground arith

  reach :
      (enabled phone sender : Bool) {P : Type 0}
      → (not enabled || not phone || not sender) ≡ false
      → P
      → (enabled ≡ true) × (phone ≡ true) × (sender ≡ true) × P
  reach enabled phone sender h p = ground arith

  carried :
      (ch : Channel) (e : Effect) → d.channel ≡ ch → e ≡ carrier ch d → e ≡ carrier d.channel d
  carried ch e is_it by = subst (λ x. e ≡ carrier x d) (sym is_it) by

  send_draft-Ends : (ch : Channel) → d.channel ≡ ch → EndsAfter (send_draft ch w c d s)
  unfolding send_email_draft send_whatsapp_draft is_whatsapp_window_open
  send_draft-Ends email is_email =
      if-cases {A = SendState × List Effect × SendOutcome} EndsAfter w.has_mailbox
        (λ has.
          deliver-Ends deliver_email (by_channel email is_email has)
            (carried email deliver_email is_email refl))
        (λ has. stays (no_mailbox due is_email has))
  send_draft-Ends whatsapp is_it =
      if-cases {A = SendState × List Effect × SendOutcome} EndsAfter
        (not c.wa_enabled || not (has_text c.wa_phone) || not w.has_wa_sender)
        (λ cannot. replans due is_it (cannot_reach _ _ _ cannot))
        (λ can.
          if-cases {A = SendState × List Effect × SendOutcome} EndsAfter (has_text d.content_sid)
            (λ template.
              deliver-Ends deliver_template
                (by_channel whatsapp is_it (reach _ _ _ can (inl template)))
                (carried whatsapp deliver_template is_it (rw template refl)))
            (λ text.
              if-cases {A = SendState × List Effect × SendOutcome} EndsAfter
                (not (is_whatsapp_window_open w.last_inbound_at w.now))
                (λ shut. replans due is_it (closed text shut))
                (λ unshut.
                  deliver-Ends deliver_text
                    (by_channel whatsapp is_it (reach _ _ _ can (inr (ground arith))))
                    (carried whatsapp deliver_text is_it (rw text refl)))))
    where
      closed :
          has_text d.content_sid ≡ false
          → not (is_whatsapp_window_open w.last_inbound_at w.now) ≡ true
          → ¬ CanCarry whatsapp w c d
      closed text shut (enabled, phone, sender, inl template) = absurd (cc (text, template))
      closed text shut (enabled, phone, sender, inr window) = absurd (cc (shut, window))

module _ (w : World) (s : SendState) (c : Client) (client : w.client ≡ some c)
    (free : IsFree w c) where
  run_draft-Ends : (o : Option Draft) → s.draft ≡ o → Ends w s (run_draft w c o s)
  run_draft-Ends none is_it = stays (no_draft is_it)
  run_draft-Ends (some d) is_it =
      if-cases {A = Run} (Ends w s) (not (is_draft d.status))
        (λ old. stays (not_draft is_it (ground arith)))
        (λ new.
          if-cases {A = Run} (Ends w s)
            (is_supervised_instance w.instance
              && review_mode w.instance
              && not (is_approved d.review_status))
            (λ unread. parks client free is_it (ground arith) (ground arith) (ground arith))
            (λ read.
              send_draft-Ends w s c d
                (record {
                  client = client;
                  free = free;
                  is_it = is_it;
                  new = ground arith;
                  reviewed = ground arith;
                })
                d.channel refl))

run_client-Ends :
    (w : World) (o : Option Client) (s : SendState) → w.client ≡ o → Ends w s (run_client w o s)
run_client-Ends w none s client = stays (no_client client)
run_client-Ends w (some c) s client =
    if-cases {A = Run} (Ends w s) c.goal_complete (λ h. back (λ free. cc (h, free.0)))
      (λ going.
        if-cases {A = Run} (Ends w s) c.paused (λ h. back (λ free. cc (h, free.1)))
          (λ running.
            if-cases {A = Run} (Ends w s) (is_some (agent_work_blocked w.kill_switch_on w.instance))
              (λ h. back (λ free. blocked h free.2))
              (λ unblocked.
                if-cases {A = Run} (Ends w s) (admin_comms_paused c w.instance)
                  (λ h. back (λ free. cc (h, free.3)))
                  (λ unpaused.
                    run_draft-Ends w s c client (going, running, ground arith, unpaused) s.draft
                      refl))))
  where
    back : ¬ IsFree w c → Ends w s (stop s)
    back h = stays (kept_back client h)

    blocked :
        is_some (agent_work_blocked w.kill_switch_on w.instance) ≡ true
        → ¬ (agent_work_blocked w.kill_switch_on w.instance ≡ none)
    blocked h e = cc (rw e at h)

pub on_scheduled_send-Ends : (w : World) (s : SendState) → Ends w s (on_scheduled_send w s)
unfolding on_scheduled_send
on_scheduled_send-Ends w s = run_client-Ends w w.client s refl

cancel_job-draft : (job : Option JobState) (s : SendState) → (cancel_job job s).draft ≡ s.draft
cancel_job-draft none s = refl
cancel_job-draft (some state) s =
    if-cases {A = SendState} (λ x. x.draft ≡ s.draft) (is_cancelable state) (λ _. refl) (λ _. refl)

remove_future_email-draft :
    (job : Option JobState) (m : Option MirrorRow) (d : Option Draft) (calls : List Call)
    → (remove_future_email job (record { mirror = m; draft = d; calls = calls })).draft
      ≡ superseded_draft d
unfolding remove_future_email
remove_future_email-draft job none d calls = refl
remove_future_email-draft job (some row) d calls = cancel_job-draft job _

superseded_draft-pending :
    (d : Draft)
    → d.review_status ≡ some pending
    → superseded_draft (some d)
      ≡ some (record d { status = draft; review_status = some superseded })
unfolding awaits_admin_review
superseded_draft-pending d waits = rw waits refl

superseded_draft-other :
    (d : Draft) → d.review_status ≢ some pending → superseded_draft (some d) ≡ some d
unfolding awaits_admin_review
superseded_draft-other d other = ground arith

-- What a run that delivers leaves of the draft that it started from.
Ends-draft :
    (w : World) (s : SendState) (d : Draft) (r : Run)
    → s.draft ≡ some d
    → any is_delivery r.effects ≡ true
    → Ends w s r
    → r.state.draft ≡ superseded_draft (some (record d { status = sent }))
Ends-draft w s d _ is_it out (stays why) = absurd (cc out)
Ends-draft w s d _ is_it out (parks a b c e f g) = absurd (cc out)
Ends-draft w s d _ is_it out (fails a b c) = absurd (cc out)
Ends-draft w s d _ is_it out (replans a b c) = absurd (cc out)
Ends-draft w s d _ is_it out (goes {d = d'} due carries takes z) =
    rw
      (
        remove_future_email-draft w.job s.mirror _ s.calls,
        some-injective _ _ (sym due.is_it ∙ is_it),
      )
      refl

-- A message that goes out while its draft awaits review (review mode was switched off in between)
-- is set back to a draft by the clean-up after the send: it ends as an unsent, superseded draft.
pub sent_pending-reverts :
    (w : World) (s : SendState) (d : Draft)
    → s.draft ≡ some d
    → d.review_status ≡ some pending
    → any is_delivery (on_scheduled_send w s).effects ≡ true
    → (on_scheduled_send w s).state.draft
      ≡ some (record d { status = draft; review_status = some superseded })
sent_pending-reverts w s d is_it waits out =
    Ends-draft w s d _ is_it out (on_scheduled_send-Ends w s)
    ∙ superseded_draft-pending (record d { status = sent }) waits

-- A message that goes out while its draft does not await review is recorded as sent.
delivered-sent :
    (w : World) (s : SendState) (d : Draft)
    → s.draft ≡ some d
    → d.review_status ≢ some pending
    → any is_delivery (on_scheduled_send w s).effects ≡ true
    → (on_scheduled_send w s).state.draft ≡ some (record d { status = sent })
delivered-sent w s d is_it other out =
    Ends-draft w s d _ is_it out (on_scheduled_send-Ends w s)
    ∙ superseded_draft-other (record d { status = sent }) other
