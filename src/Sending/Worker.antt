-- ===== src/Sending/Worker.antt =====
-- `onScheduledSend` of src/queue/sendEmailWorker.ts: what happens when the job of a client's pending
-- send fires. What the other tables and the provider answer is the world that it runs in.
use fiscal_mind_agent.Prelude.{
  has_text, ℕ, Bool, true, false, not, ◌&&◌, ◌||◌, Option, none, some, is_some, List, [], ◌∷◌, ◌++◌,
  if◌then◌else◌,
}
use fiscal_mind_agent.Queue.{JobState}
use fiscal_mind_agent.Sending.Rules.{
  EmailStatus, draft, held, sent, ReviewStatus, pending, approved, Channel, email, whatsapp, Draft,
  Instance, Client, agent_work_blocked, is_supervised_instance, admin_comms_paused,
  is_whatsapp_window_open,
}
use fiscal_mind_agent.Sending.Mirror.{
  publish_updated, plan_next, SendState, call, mark_send_failed, remove_future_email,
}

pub record World : Type 0 where
  pub now : ℕ
  pub kill_switch_on : Bool
  pub client : Option Client
  pub instance : Option Instance
  -- whether a sender address, and a WhatsApp number, is there to send from
  pub has_mailbox : Bool
  pub has_wa_sender : Bool
  pub last_inbound_at : Option ℕ
  pub contacted_before : Bool
  -- whether the provider takes the message
  pub accepts : Bool
  -- the state of the running job, as `removeFutureEmail` will read it
  pub job : Option JobState

-- What the worker does to the outside.
pub data Effect : Type 0 where
  deliver_email deliver_template deliver_text : Effect
  hold_notice : Effect
  first_contact : Effect

pub data SendOutcome : Type 0 where
  was_sent not_sent skip_planning threw : SendOutcome

pub record Run : Type 0 where
  pub state : SendState
  pub effects : List Effect
  pub failed : Bool

abbrev pub is_draft : EmailStatus → Bool
is_draft draft = true
is_draft _ = false

abbrev pub is_approved : Option ReviewStatus → Bool
is_approved (some approved) = true
is_approved _ = false

abbrev pub review_mode : Option Instance → Bool
review_mode none = false
review_mode (some i) = i.review_mode

-- `emails.markSent` and `emails.markHeld` (src/db/queries/emails.ts) on the draft.
abbrev pub mark_sent : Draft → SendState → SendState
mark_sent d s = record s { draft = some (record d { status = sent }) }

abbrev pub mark_held : Draft → SendState → SendState
mark_held d s = record s { draft = some (record d { status = held; review_status = some pending }) }

abbrev pub stop : SendState → Run
stop s = record { state = s; effects = []; failed = false }

-- A delivery that the provider takes marks the draft sent; else the call throws.
abbrev pub deliver : Effect → World → Draft → SendState → SendState × List Effect × SendOutcome
deliver e w d s = if w.accepts then (mark_sent d s, e ∷ [], was_sent) else (s, [], threw)

unfoldable pub send_email_draft : World → Draft → SendState → SendState × List Effect × SendOutcome
send_email_draft w d s =
    if w.has_mailbox then deliver deliver_email w d s else (s, [], skip_planning)

unfoldable pub send_whatsapp_draft :
    World → Client → Draft → SendState → SendState × List Effect × SendOutcome
unfolding is_whatsapp_window_open
send_whatsapp_draft w client d s =
    if not client.wa_enabled || not (has_text client.wa_phone) || not w.has_wa_sender
    then (s, [], not_sent)
    else if has_text d.content_sid
    then deliver deliver_template w d s
    else if not (is_whatsapp_window_open w.last_inbound_at w.now)
    then (s, [], not_sent)
    else deliver deliver_text w d s

abbrev pub send_draft :
    Channel → World → Client → Draft → SendState → SendState × List Effect × SendOutcome
send_draft whatsapp w client d s = send_whatsapp_draft w client d s
send_draft email w client d s = send_email_draft w d s

abbrev pub replan : World → SendState → SendState
replan w s = call plan_next (remove_future_email w.job s)

-- After the send: a failure is stamped on the mirror row, and the job fails; a first contact runs its
-- hook; and unless planning is skipped the pending send goes and the next one is planned.
abbrev pub after_send : World → SendState × List Effect × SendOutcome → Run
after_send w (s, effects, threw) = record {
  state = call publish_updated (mark_send_failed s);
  effects = effects;
  failed = true;
}
after_send w (s, effects, skip_planning) = record { state = s; effects = effects; failed = false }
after_send w (s, effects, not_sent) = record {
  state = replan w s;
  effects = effects;
  failed = false;
}
after_send w (s, effects, was_sent) = record {
  state = replan w s;
  effects = effects ++ (if w.contacted_before then [] else first_contact ∷ []);
  failed = false;
}

abbrev pub run_draft : World → Client → Option Draft → SendState → Run
run_draft w client none s = stop s
run_draft w client (some d) s =
    if not (is_draft d.status)
    then stop s
    else if is_supervised_instance w.instance
        && review_mode w.instance
        && not (is_approved d.review_status)
    then record { state = mark_held d s; effects = hold_notice ∷ []; failed = false }
    else after_send w (send_draft d.channel w client d s)

abbrev pub run_client : World → Option Client → SendState → Run
run_client w none s = stop s
run_client w (some client) s =
    if client.goal_complete
    then stop s
    else if client.paused
    then stop s
    else if is_some (agent_work_blocked w.kill_switch_on w.instance)
    then stop s
    else if admin_comms_paused client w.instance
    then stop s
    else run_draft w client s.draft s

unfoldable pub on_scheduled_send : World → SendState → Run
unfolding agent_work_blocked admin_comms_paused send_email_draft send_whatsapp_draft
    remove_future_email
on_scheduled_send w s = run_client w w.client s
