-- ===== src/Sending/Review.antt =====
-- The review of a message before it goes out: the guarded transitions of src/db/queries/emails.ts,
-- `scheduleDraftMessage` of src/orchestration/scheduleDraftEmail.ts and `adminApproveReviewMessage` of
-- src/api/reviewAdmin.ts.
use fiscal_mind_agent.Prelude.{
  ℕ, ◌+◌, Bool, true, false, not, ◌&&◌, ◌||◌, String, Option, none, some, is_some, List, [], ◌∷◌,
  if◌then◌else◌,
}
use fiscal_mind_agent.Sending.Rules.{
  EmailStatus, draft, held, pending, approved, Channel, Draft, Instance, Client,
  is_supervised_instance, admin_comms_paused, awaits_admin_review,
}
use fiscal_mind_agent.Sending.Mirror.{add_send, publish_updated, SendState, call, upsert_for_client}
use fiscal_mind_agent.Sending.Worker.{is_draft, review_mode}

-- `WHERE id = $1 AND status = 'draft' AND review_status IS NULL`
abbrev pub mark_review_pending : Draft → Draft
mark_review_pending d =
    if is_draft d.status && not (is_some d.review_status)
    then record d { review_status = some pending }
    else d

-- `WHERE id = $1 AND review_status = 'pending'`; `none` = no row.
unfoldable pub approve_pending : Option Draft → Option Draft
approve_pending none = none
approve_pending (some d) =
    if awaits_admin_review (some d)
    then some (record d { review_status = some approved; status = draft })
    else none

pub record DraftArgs : Type 0 where
  pub id : String
  pub channel : Channel
  pub content_sid : Option String
  pub delay_ms : ℕ
  pub hold : Bool

-- `emails.insertDraft`
abbrev pub insert_draft : DraftArgs → Draft
insert_draft args = record {
  id = args.id;
  status = draft;
  review_status = none;
  channel = args.channel;
  content_sid = args.content_sid;
}

abbrev pub is_reviewed_client : Option Client → Option Instance → Bool
is_reviewed_client client inst = is_some client && is_supervised_instance inst && review_mode inst

abbrev pub job_of : String → String → String → List String
job_of kind client_id email_id = kind ∷ client_id ∷ email_id ∷ []

abbrev queue_send : String → DraftArgs → ℕ → SendState → SendState
queue_send client_id args now s = call publish_updated (
    upsert_for_client (job_of "send_email" client_id args.id) (now + args.delay_ms) (
      if args.hold
      then s
      else call (add_send (job_of "send_email" client_id args.id) client_id args.id args.delay_ms)
          s))

unfoldable pub schedule_draft_message :
    Option Client → Option Instance → String → ℕ → DraftArgs → SendState → SendState
schedule_draft_message client inst client_id now args s =
    let d = insert_draft args in
    let reviewed = if is_reviewed_client client inst then mark_review_pending d else d in
    queue_send client_id args now (record s { draft = some reviewed })

-- The answers of the approval: 404, 409 no longer awaiting review, 409 paused or complete, or done.
pub data ApproveResult : Type 0 where
  not_found not_awaiting client_stopped : ApproveResult
  was_approved : (sent_immediately : Bool) → ApproveResult

abbrev is_stopped : Option Client → Option Instance → Bool
is_stopped none inst = true
is_stopped (some c) inst = c.goal_complete || c.paused || admin_comms_paused c inst

abbrev pub is_held : EmailStatus → Bool
is_held held = true
is_held _ = false

abbrev fire_held : Bool → String → String → ℕ → SendState → SendState
fire_held parked client_id email_id now s =
    if parked
    then upsert_for_client (job_of "send_email_approved" client_id email_id) now
        (call (add_send (job_of "send_email_approved" client_id email_id) client_id email_id 0) s)
    else s

abbrev approve_before :
    String → ℕ → Option Draft → Option Draft → SendState → SendState × ApproveResult
approve_before client_id now (some d) (some d') s = (
  call publish_updated
      (fire_held (is_held d.status) client_id d.id now (record s { draft = some d' })),
  was_approved (is_held d.status),
)
approve_before client_id now _ _ s = (s, not_awaiting)

-- `earlier`: the draft as it is read before the lock is taken.
unfoldable pub approve_review_message :
    Option Client
    → Option Instance
    → String
    → ℕ
    → Option Draft
    → SendState
    → SendState × ApproveResult
unfolding approve_pending admin_comms_paused awaits_admin_review
approve_review_message client inst client_id now none s = (s, not_found)
approve_review_message client inst client_id now (some earlier) s =
    if not (awaits_admin_review (some earlier))
    then (s, not_awaiting)
    else if is_stopped client inst
    then (s, client_stopped)
    else approve_before client_id now s.draft (approve_pending s.draft) s
