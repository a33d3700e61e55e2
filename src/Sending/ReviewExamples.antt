-- ===== src/Sending/ReviewExamples.antt =====
-- The theorems on the review at concrete inputs.
use fiscal_mind_agent.Prelude.{◌≡◌, refl, true, false, none, some, List, [], ◌∷◌, any}
use fiscal_mind_agent.Sending.Rules.{
  approved, Draft, draft, held, pending, email, Instance, Client, supervised_type,
}
use fiscal_mind_agent.Sending.Mirror.{add_send, publish_updated, SendState}
use fiscal_mind_agent.Sending.Worker.{World, on_scheduled_send}
use fiscal_mind_agent.Sending.Gates.{is_delivery}
use fiscal_mind_agent.Sending.Review.{DraftArgs, job_of, approve_review_message}
use fiscal_mind_agent.Sending.Approved.{
  SendOp, schedule, send_at_once, fire, approve, deliveries, deliveries-unapproved,
}
use fiscal_mind_agent.Sending.Released.{approve_review_message-delivers}

abbrev supervised : Instance
supervised = record {
  enabled = true;
  agent_type = supervised_type;
  admin_paused = false;
  review_mode = true;
}

abbrev noa : Client
noa = record {
  goal_complete = false;
  paused = false;
  admin_paused = false;
  wa_enabled = false;
  wa_phone = none;
}

abbrev noon : World
noon = record {
  now = 1000;
  kill_switch_on = false;
  client = some noa;
  instance = some supervised;
  has_mailbox = true;
  has_wa_sender = false;
  last_inbound_at = none;
  contacted_before = true;
  accepts = true;
  job = none;
}

abbrev letter : DraftArgs
letter = record { id = "e1"; channel = email; content_sid = none; delay_ms = 100; hold = false }

abbrev nothing : SendState
nothing = record { mirror = none; draft = none; calls = [] }

abbrev parked : Draft
parked = record {
  id = "e1";
  status = held;
  review_status = some pending;
  channel = email;
  content_sid = none;
}

abbrev unread : List SendOp
unread =
    schedule (some noa) (some supervised) "c1" 900 letter
    ∷ send_at_once true none 950
    ∷ fire noon
    ∷ fire noon
    ∷ []

abbrev read : List SendOp
read =
    schedule (some noa) (some supervised) "c1" 900 letter
    ∷ fire noon
    ∷ approve (some noa) (some supervised) "c1" 1100 (some parked)
    ∷ fire noon
    ∷ []

one_delivery : deliveries read nothing ≡ 1
unfolding deliveries
one_delivery = refl

deliveries-unapproved_example : deliveries unread nothing ≡ 0
deliveries-unapproved_example = deliveries-unapproved unread nothing refl refl tt

approve_review_message-delivers_example :
    let s =
      (approve_review_message
        (some noa)
        (some supervised)
        "c1"
        1100
        (some parked)
        (record { mirror = none; draft = some parked; calls = [] })).0 in
    (s.mirror
      ≡ some (record {
        job_id = job_of "send_email_approved" "c1" "e1";
        scheduled_for = 1100;
        send_failed = false;
      }))
    × (s.draft ≡ some (record parked { status = draft; review_status = some approved }))
    × (s.calls
        ≡ add_send (job_of "send_email_approved" "c1" "e1") "c1" "e1" 0 ∷ publish_updated ∷ [])
    × (any is_delivery (on_scheduled_send noon s).effects ≡ true)
unfolding fiscal_mind_agent.Sending.Rules.agent_work_blocked
    fiscal_mind_agent.Sending.Rules.admin_comms_paused
approve_review_message-delivers_example =
    approve_review_message-delivers noon noa parked none [] "c1" 1100 refl refl refl refl refl refl
      refl refl refl
