-- ===== src/Sending/Examples.antt =====
-- The theorems on sending at concrete inputs.
use fiscal_mind_agent.Prelude.{
  ◌≡◌, refl, ◌↔◌, true, false, Option, none, some, [], ◌∷◌, any, arith, ◌+◌,
}
use fiscal_mind_agent.Queue.{delayed, active}
use fiscal_mind_agent.Sending.Rules.{
  draft, ReviewStatus, pending, superseded, email, Draft, MirrorRow, Instance, Client,
  supervised_type,
}
use fiscal_mind_agent.Sending.Mirror.{
  add_send, remove_job, publish_updated, SendState, resume_future_email, pause_future_email,
  send_future_email_now, promoted,
}
use fiscal_mind_agent.Sending.Worker.{World, on_scheduled_send}
use fiscal_mind_agent.Sending.Gates.{is_delivery, IsCleared, delivered_iff}
use fiscal_mind_agent.Sending.Outcomes.{Ends}
use fiscal_mind_agent.Sending.Ends.{sent_pending-reverts}
use fiscal_mind_agent.Sending.Resume.{pause-resume, start}

abbrev office : Instance
office = record {
  enabled = true;
  agent_type = supervised_type;
  admin_paused = false;
  review_mode = false;
}

abbrev dana : Client
dana = record {
  goal_complete = false;
  paused = false;
  admin_paused = false;
  wa_enabled = false;
  wa_phone = none;
}

abbrev morning : World
morning = record {
  now = 1000;
  kill_switch_on = false;
  client = some dana;
  instance = some office;
  has_mailbox = true;
  has_wa_sender = false;
  last_inbound_at = none;
  contacted_before = false;
  accepts = true;
  job = some active;
}

abbrev row : MirrorRow
row = record { job_id = "send" ∷ "c1" ∷ "e1" ∷ []; scheduled_for = 1000; send_failed = false }

abbrev failed_send : MirrorRow
failed_send = record row { send_failed = true }

abbrev letter : Option ReviewStatus → Draft
letter r = record {
  id = "e1";
  status = draft;
  review_status = r;
  channel = email;
  content_sid = none;
}

abbrev due : Option ReviewStatus → SendState
due r = record { mirror = some row; draft = some (letter r); calls = [] }

due_is_delivered :
    (r : Option ReviewStatus) → any is_delivery (on_scheduled_send morning (due r)).effects ≡ true
unfolding on_scheduled_send
due_is_delivered r = refl

delivered_iff_example :
    (any is_delivery (on_scheduled_send morning (due none)).effects ≡ true)
    ↔ IsCleared morning (some dana) (some (letter none))
delivered_iff_example = delivered_iff morning (due none)

sent_pending-reverts_example :
    (on_scheduled_send morning (due (some pending))).state.draft ≡ some (letter (some superseded))
sent_pending-reverts_example =
    sent_pending-reverts morning (due (some pending)) (letter (some pending)) refl refl
      (due_is_delivered (some pending))

pause-resume_example :
    (resume_future_email "c1" 600 none (pause_future_email (some delayed) (due none))
      ≡ record (due none) {
        calls =
            remove_job ∷ publish_updated ∷ add_send row.job_id "c1" "e1" 400 ∷ publish_updated ∷ [];
      })
    × (600 + 400 ≡ row.scheduled_for)
pause-resume_example = pause-resume "c1" 600 row (some (letter none)) [] refl refl (ground arith)

is_promoted :
    (send_future_email_now true none 600 (start row (some (letter none)) 600 [])).1 ≡ promoted
unfolding send_future_email_now
is_promoted = refl
