-- ===== src/Sending/Outcomes.antt =====
-- The ways in which a firing of the send worker can end (`onScheduledSend` of
-- src/queue/sendEmailWorker.ts).
use fiscal_mind_agent.Prelude.{
  has_text, ◌≡◌, ◌≢◌, true, false, ◌&&◌, none, some, List, [], ◌∷◌, if◌then◌else◌,
}
use fiscal_mind_agent.Sending.Rules.{
  Channel, draft, email, whatsapp, Draft, Client, agent_work_blocked, is_supervised_instance,
  admin_comms_paused,
}
use fiscal_mind_agent.Sending.Mirror.{publish_updated, SendState, call, mark_send_failed}
use fiscal_mind_agent.Sending.Worker.{
  World, Effect, deliver_email, deliver_template, deliver_text, hold_notice, first_contact, Run,
  is_approved, review_mode, stop, mark_held, mark_sent, replan,
}
use fiscal_mind_agent.Sending.Gates.{CanCarry, IsReviewed}

-- What carries the draft: an email, or on WhatsApp its template where it has one, and else a text.
abbrev pub carrier : Channel → Draft → Effect
carrier email d = deliver_email
carrier whatsapp d = if has_text d.content_sid then deliver_template else deliver_text

abbrev greeting : World → List Effect
greeting w = if w.contacted_before then [] else first_contact ∷ []

-- The client is not finished, and neither the client, the agent nor the admin holds the work back.
abbrev pub IsFree : World → Client → Type 0
IsFree w c =
    (c.goal_complete ≡ false)
    × (c.paused ≡ false)
    × (agent_work_blocked w.kill_switch_on w.instance ≡ none)
    × (admin_comms_paused c w.instance ≡ false)

-- The draft of the row is due: the client is there and free, and the draft is unsent and reviewed.
pub record IsDue (w : World) (s : SendState) (c : Client) (d : Draft) : Type 0 where
  pub client : w.client ≡ some c
  pub free : IsFree w c
  pub is_it : s.draft ≡ some d
  pub new : d.status ≡ draft
  pub reviewed : IsReviewed w d

-- Why nothing happens: there is no client, the client is finished or something holds the work back, there
-- is no draft or it is not one any more, or it is due but an email without a mailbox.
pub data Rests (w : World) (s : SendState) : Type 0 where
  no_client : w.client ≡ none → Rests w s
  kept_back : {c : Client} → w.client ≡ some c → ¬ IsFree w c → Rests w s
  no_draft : s.draft ≡ none → Rests w s
  not_draft : {d : Draft} → s.draft ≡ some d → d.status ≢ draft → Rests w s
  no_mailbox :
      {c : Client} {d : Draft}
      → IsDue w s c d
      → d.channel ≡ email
      → w.has_mailbox ≡ false
      → Rests w s

-- The ends, each with its cause: nothing happens; the draft of a free client is parked, since the agent is
-- in review mode and it is not approved; a due draft that its channel can carry is refused by the
-- provider; WhatsApp cannot carry a due draft, so that it is planned again; or a due draft that its
-- channel can carry and the provider takes goes out.
pub data Ends (w : World) (s : SendState) : Run → Type 0 where
  stays : Rests w s → Ends w s (stop s)
  parks :
      {c : Client} {d : Draft}
      → w.client ≡ some c
      → IsFree w c
      → s.draft ≡ some d
      → d.status ≡ draft
      → (is_supervised_instance w.instance && review_mode w.instance) ≡ true
      → is_approved d.review_status ≡ false
      → Ends w s (record { state = mark_held d s; effects = hold_notice ∷ []; failed = false })
  fails :
      {c : Client} {d : Draft}
      → IsDue w s c d
      → CanCarry d.channel w c d
      → w.accepts ≡ false
      → Ends w s (record {
        state = call publish_updated (mark_send_failed s);
        effects = [];
        failed = true;
      })
  replans :
      {c : Client} {d : Draft}
      → IsDue w s c d
      → d.channel ≡ whatsapp
      → ¬ CanCarry whatsapp w c d
      → Ends w s (record { state = replan w s; effects = []; failed = false })
  goes :
      {c : Client} {d : Draft} {e : Effect}
      → IsDue w s c d
      → CanCarry d.channel w c d
      → w.accepts ≡ true
      → e ≡ carrier d.channel d
      → Ends w s
          (record { state = replan w (mark_sent d s); effects = e ∷ greeting w; failed = false })
