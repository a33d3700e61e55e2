-- ===== src/Sending/Gates.antt =====
-- The gates of the send worker: when a message goes out, and what each outcome leaves behind.
use fiscal_mind_agent.Prelude.{
  has_text, ◌≡◌, refl, ◌⊎◌, ◌↔◌, Bool, true, false, not, ◌&&◌, Option, none, some, is_some, any,
  arith, if◌then◌else◌,
}
use fiscal_mind_agent.Sending.Rules.{
  EmailStatus, draft, Channel, email, whatsapp, Draft, Client, agent_work_blocked,
  is_supervised_instance, admin_comms_paused, is_whatsapp_window_open,
}
use fiscal_mind_agent.Sending.Mirror.{SendState}
use fiscal_mind_agent.Sending.Worker.{
  World, Effect, deliver_email, deliver_template, deliver_text, Run, is_draft, is_approved,
  review_mode, send_email_draft, send_whatsapp_draft, send_draft, after_send, run_draft, run_client,
  on_scheduled_send,
}

abbrev pub is_delivery : Effect → Bool
is_delivery deliver_email = true
is_delivery deliver_template = true
is_delivery deliver_text = true
is_delivery _ = false

-- The channel of the draft can carry it now. Free WhatsApp text needs the open 24h window; a
-- template does not.
abbrev pub CanCarry : Channel → World → Client → Draft → Type 0
CanCarry email w c d = w.has_mailbox ≡ true
CanCarry whatsapp w c d =
    (c.wa_enabled ≡ true)
    × (has_text c.wa_phone ≡ true)
    × (w.has_wa_sender ≡ true)
    × ((has_text d.content_sid ≡ true) ⊎ (is_whatsapp_window_open w.last_inbound_at w.now ≡ true))

-- The review gate lets the draft through: it is approved, or the agent is not in review mode.
abbrev pub IsReviewed : World → Draft → Type 0
IsReviewed w d =
    ((is_supervised_instance w.instance && review_mode w.instance) ≡ false)
    ⊎ (is_approved d.review_status ≡ true)

-- Every gate of the worker is open for this client and draft.
abbrev IsSendable : World → Client → Option Draft → Type 0
IsSendable w c none = ⊥
IsSendable w c (some d) =
    (d.status ≡ draft) × IsReviewed w d × CanCarry d.channel w c d × (w.accepts ≡ true)

abbrev pub IsCleared : World → Option Client → Option Draft → Type 0
IsCleared w none o = ⊥
IsCleared w (some c) o =
    (c.goal_complete ≡ false)
    × (c.paused ≡ false)
    × (agent_work_blocked w.kill_switch_on w.instance ≡ none)
    × (admin_comms_paused c w.instance ≡ false)
    × IsSendable w c o

abbrev went_out : Run → Bool
went_out r = any is_delivery r.effects

went_out-if :
    (b : Bool) (r r' : Run)
    → went_out (if b then r else r') ≡ (if b then went_out r else went_out r')
went_out-if true r r' = refl
went_out-if false r r' = refl

send_iff :
    (w : World) (ch : Channel) (c : Client) (d : Draft) (s : SendState)
    → (went_out (after_send w (send_draft ch w c d s)) ≡ true)
      ↔ (CanCarry ch w c d × (w.accepts ≡ true))
unfolding send_email_draft send_whatsapp_draft is_whatsapp_window_open
send_iff w email c d s = ground arith
send_iff w whatsapp c d s = ground arith

is_draft_iff : (e : EmailStatus) → (is_draft e ≡ true) ↔ (e ≡ draft)
is_draft_iff e = ground arith

run_draft_iff :
    (w : World) (c : Client) (o : Option Draft) (s : SendState)
    → (went_out (run_draft w c o s) ≡ true) ↔ IsSendable w c o
run_draft_iff w c none s = ground arith
run_draft_iff w c (some d) s =
    rw
      (
        went_out-if (not (is_draft d.status)) _ _,
        went_out-if (is_supervised_instance w.instance && _ && _) _ _,
      )
      (gate (is_draft d.status) (is_supervised_instance w.instance) (review_mode w.instance)
        (is_approved d.review_status) _ (is_draft_iff d.status) (send_iff w d.channel c d s))
  where
    gate :
        {P Q R : Type 0} (b r m a x : Bool)
        → (b ≡ true) ↔ P
        → (x ≡ true) ↔ (Q × R)
        → ((if not b then false else if r && m && not a then false else x) ≡ true)
          ↔ (P × (((r && m) ≡ false) ⊎ (a ≡ true)) × Q × R)
    gate b r m a x hb hx = ground arith

run_client_iff :
    (w : World) (o : Option Client) (s : SendState)
    → (went_out (run_client w o s) ≡ true) ↔ IsCleared w o s.draft
run_client_iff w none s = ground arith
run_client_iff w (some c) s =
    rw
      (
        went_out-if c.goal_complete _ _,
        went_out-if c.paused _ _,
        went_out-if (is_some (agent_work_blocked w.kill_switch_on w.instance)) _ _,
        went_out-if (admin_comms_paused c w.instance) _ _,
      )
      (gate _ _ _ _ _ (run_draft_iff w c s.draft s))
  where
    gate :
        {A P : Type 0} (g p : Bool) (k : Option A) (a x : Bool)
        → (x ≡ true) ↔ P
        → ((if g
              then false
              else if p
              then false
              else if is_some k
              then false
              else if a
              then false
              else x)
            ≡ true)
          ↔ ((g ≡ false) × (p ≡ false) × (k ≡ none) × (a ≡ false) × P)
    gate g p k a x hx = ground arith

-- The worker hands the message to the provider, and the provider takes it, exactly when the client
-- exists, is not finished and not paused; the office's agent is not blocked by the kill switch or its
-- own switch; the admin has not paused it; the row is still a draft; review does not apply or has
-- approved it; the channel can carry it; and the provider accepts.
pub delivered_iff :
    (w : World) (s : SendState)
    → (any is_delivery (on_scheduled_send w s).effects ≡ true) ↔ IsCleared w w.client s.draft
unfolding on_scheduled_send
delivered_iff w s = run_client_iff w w.client s
