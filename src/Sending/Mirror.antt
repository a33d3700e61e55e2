-- ===== src/Sending/Mirror.antt =====
-- The operations on a client's pending send: src/db/queries/scheduledJobs.ts and the files
-- removeFutureEmail.ts, pauseFutureEmail.ts, resumeFutureEmail.ts and sendFutureEmailNow.ts of
-- src/orchestration. The state is the
-- client's mirror row, the draft that its job id names, and the calls made of the queue (which is
-- not modelled), the planner and the workspace's event channel; what the queue answers is an
-- argument.
use fiscal_mind_agent.Prelude.{
  ℕ, ◌-◌, Bool, true, false, not, ◌&&◌, String, Option, none, some, List, [], ◌∷◌, ◌++◌, str_eq,
  if◌then◌else◌,
}
use fiscal_mind_agent.Queue.{
  JobState, delayed, waiting, prioritized, waiting_children, active, failed,
}
use fiscal_mind_agent.Sending.Rules.{
  EmailStatus, held, draft, superseded, Draft, MirrorRow, parse_job_id, ResumeAction, restore,
  send_now, already_queued, keep, resume_action, awaits_admin_review,
}

pub data Call : Type 0 where
  remove_job : Call
  add_send : List String → (client email_id : String) → (delay : ℕ) → Call
  promote_job : Call
  retry_job : Call
  publish_updated : Call
  plan_next : Call

pub record SendState : Type 0 where
  pub mirror : Option MirrorRow
  pub draft : Option Draft
  pub calls : List Call

abbrev pub call : Call → SendState → SendState
call c s = record s { calls = s.calls ++ c ∷ [] }

-- `upsertForClient`: a fresh schedule clears a recorded failure.
abbrev pub upsert_for_client : List String → ℕ → SendState → SendState
upsert_for_client job_id at s = record s {
  mirror = some (record { job_id = job_id; scheduled_for = at; send_failed = false });
}

abbrev failed_row : Option MirrorRow → Option MirrorRow
failed_row none = none
failed_row (some row) = some (record row { send_failed = true })

abbrev pub mark_send_failed : SendState → SendState
mark_send_failed s = record s { mirror = failed_row s.mirror }

abbrev delete_for_client : SendState → SendState
delete_for_client s = record s { mirror = none }

-- `supersedePendingReview` (src/db/queries/emails.ts) on the draft.
abbrev pub superseded_draft : Option Draft → Option Draft
superseded_draft none = none
superseded_draft (some d) =
    if awaits_admin_review (some d)
    then some (record d { review_status = some superseded; status = draft })
    else some d

abbrev pub is_cancelable : JobState → Bool
is_cancelable delayed = true
is_cancelable waiting = true
is_cancelable waiting_children = true
is_cancelable _ = false

-- `if (job) { if (delayed or waiting) await job.remove() }`
abbrev pub cancel_job : Option JobState → SendState → SendState
cancel_job none s = s
cancel_job (some state) s = if is_cancelable state then call remove_job s else s

abbrev pub remove_row : Option JobState → Option MirrorRow → SendState → SendState
remove_row job none s = s
remove_row job (some row) s = call publish_updated (delete_for_client (cancel_job job s))

unfoldable pub remove_future_email : Option JobState → SendState → SendState
unfolding awaits_admin_review
remove_future_email job s = remove_row job s.mirror (record s { draft = superseded_draft s.draft })

abbrev pub pause_row : Option JobState → Option MirrorRow → SendState → SendState
pause_row job none s = s
pause_row job (some row) s = call publish_updated (cancel_job job s)

unfoldable pub pause_future_email : Option JobState → SendState → SendState
pause_future_email job s = pause_row job s.mirror s

-- `enqueuePreservedSendNow`; false = the job id cannot be parsed.
abbrev pub enqueue_parsed :
    List String → ℕ → Option (String × String) → SendState → SendState × Bool
enqueue_parsed job_id now none s = (s, false)
enqueue_parsed job_id now (some (client, email_id)) s = (
  call publish_updated (upsert_for_client job_id now (call (add_send job_id client email_id 0) s)),
  true,
)

unfoldable pub enqueue_preserved_send_now : List String → ℕ → SendState → SendState × Bool
enqueue_preserved_send_now job_id now s = enqueue_parsed job_id now (parse_job_id job_id) s

-- `bullmq_job_id.split(':')[2] ?? ''`
abbrev pub email_part : List String → String
email_part (kind ∷ client ∷ email_id ∷ more) = email_id
email_part _ = ""

abbrev has_status_held : Option Draft → Bool
has_status_held none = false
has_status_held (some d) = is_held d.status
  where
    is_held : EmailStatus → Bool
    is_held held = true
    is_held _ = false

-- `isDraftHeld`, for the draft that the job id names.
abbrev pub is_draft_held : List String → Option Draft → Bool
is_draft_held job_id d = not (str_eq (email_part job_id) "") && has_status_held d

abbrev held_of : Option MirrorRow → Option Draft → Bool
held_of none d = false
held_of (some row) d = is_draft_held row.job_id d

-- The ends of `resumeFutureEmail`, one for each action.
abbrev pub resume_by :
    String → ℕ → Option JobState → ResumeAction → Option MirrorRow → SendState → SendState
resume_by client now job already_queued (some row) s = call publish_updated s
resume_by client now job keep (some row) s = call publish_updated s
resume_by client now job restore (some row) s =
    call publish_updated
      (call (add_send row.job_id client (email_part row.job_id) (row.scheduled_for - now)) s)
resume_by client now job send_now (some row) s = (enqueue_preserved_send_now row.job_id now s).0
resume_by client now job _ row s = call plan_next (remove_future_email job s)

unfoldable pub resume_future_email : String → ℕ → Option JobState → SendState → SendState
unfolding resume_action enqueue_preserved_send_now remove_future_email
resume_future_email client now job s =
    resume_by client now job (resume_action s.mirror job (held_of s.mirror s.draft) now) s.mirror s

pub data SendNowResult : Type 0 where
  promoted already_sending none_scheduled send_failed awaiting_review : SendNowResult

-- What a job's state makes of "send now": already on its way, failed, delayed, or finished.
pub data SendNowCase : Type 0 where
  on_its_way was_failed is_delayed is_finished : SendNowCase

abbrev pub send_now_case : JobState → SendNowCase
send_now_case waiting = on_its_way
send_now_case active = on_its_way
send_now_case prioritized = on_its_way
send_now_case failed = was_failed
send_now_case delayed = is_delayed
send_now_case _ = is_finished

abbrev pub missing_job : MirrorRow → ℕ → SendState → SendState × SendNowResult
missing_job row now s =
    let (s', ok) = enqueue_preserved_send_now row.job_id now s in
    if ok then (s', promoted) else (s, none_scheduled)

-- `promotes`: whether `job.promote()` succeeds, when it is called.
abbrev pub send_now_by : Bool → SendNowCase → MirrorRow → ℕ → SendState → SendState × SendNowResult
send_now_by promotes on_its_way row now s = (s, already_sending)
send_now_by promotes was_failed row now s = (call publish_updated (mark_send_failed s), send_failed)
send_now_by promotes is_finished row now s =
    if is_draft_held row.job_id s.draft
    then (s, already_sending)
    else (call publish_updated (delete_for_client s), none_scheduled)
send_now_by promotes is_delayed row now s =
    if promotes
    then (call publish_updated (upsert_for_client row.job_id now (call promote_job s)), promoted)
    else (call promote_job s, already_sending)

abbrev pub send_now_job :
    Bool → Option JobState → MirrorRow → ℕ → SendState → SendState × SendNowResult
send_now_job promotes none row now s = missing_job row now s
send_now_job promotes (some state) row now s = send_now_by promotes (send_now_case state) row now s

abbrev pub send_now_row :
    Bool → Option JobState → ℕ → Option MirrorRow → SendState → SendState × SendNowResult
send_now_row promotes job now none s = (s, none_scheduled)
send_now_row promotes job now (some row) s =
    if row.send_failed
    then (s, send_failed)
    else if not (str_eq (email_part row.job_id) "") && awaits_admin_review s.draft
    then (s, awaiting_review)
    else send_now_job promotes job row now s

unfoldable pub send_future_email_now :
    Bool → Option JobState → ℕ → SendState → SendState × SendNowResult
unfolding awaits_admin_review enqueue_preserved_send_now
send_future_email_now promotes job now s = send_now_row promotes job now s.mirror s
