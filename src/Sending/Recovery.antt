-- ===== src/Sending/Recovery.antt =====
-- src/orchestration/retryFailedSend.ts and src/queue/resyncScheduledJobs.ts: a failed send is fired
-- again by hand, and a mirrored job that Redis lost is queued again at boot.
use fiscal_mind_agent.Prelude.{
  ℕ, ◌-◌, Bool, true, false, not, ◌&&◌, String, Option, none, some, is_some, List, [], ◌∷◌, str_eq,
  if◌then◌else◌,
}
use fiscal_mind_agent.Queue.{JobState, failed}
use fiscal_mind_agent.Sending.Rules.{MirrorRow, parse_job_id, Client}
use fiscal_mind_agent.Sending.Mirror.{
  add_send, retry_job, publish_updated, SendState, call, upsert_for_client,
}

pub data RetrySendResult : Type 0 where
  retried no_failed_send : RetrySendResult

abbrev pub is_failed : JobState → Bool
is_failed failed = true
is_failed _ = false

-- Fires the job again, or its draft where the queue lost the job; `none` = nothing to fire.
abbrev pub refire : Option JobState → MirrorRow → SendState → Option SendState
refire (some state) row s = some (if is_failed state then call retry_job s else s)
refire none row s = elim (parse_job_id row.job_id) [
  | none ↦ none
  | some (client, email_id) ↦ some (call (add_send row.job_id client email_id 0) s)
]

abbrev pub settle_retry :
    List String → ℕ → SendState → Option SendState → SendState × RetrySendResult
settle_retry job_id now s none = (s, no_failed_send)
settle_retry job_id now s (some s') =
    (call publish_updated (upsert_for_client job_id now s'), retried)

abbrev pub retry_row :
    Option JobState → ℕ → Option MirrorRow → SendState → SendState × RetrySendResult
retry_row job now none s = (s, no_failed_send)
retry_row job now (some row) s =
    if row.send_failed
    then settle_retry row.job_id now s (refire job row s)
    else (s, no_failed_send)

unfoldable pub retry_failed_send : Option JobState → ℕ → SendState → SendState × RetrySendResult
retry_failed_send job now s = retry_row job now s.mirror s

-- `current.bullmq_job_id !== row.bullmq_job_id`, on the parts of the ids.
abbrev pub same_parts : List String → List String → Bool
same_parts [] [] = true
same_parts (a ∷ as') (b ∷ bs) = str_eq a b && same_parts as' bs
same_parts _ _ = false

abbrev pub is_paused : Option Client → Bool
is_paused none = true
is_paused (some c) = c.paused

abbrev pub requeue : List String → ℕ → Option (String × String) → SendState → SendState
requeue job_id delay none s = s
requeue job_id delay (some (client, email_id)) s = call (add_send job_id client email_id delay) s

abbrev pub resync_row :
    List String → Option Client → Option JobState → ℕ → Option MirrorRow → SendState → SendState
resync_row listed client job now none s = s
resync_row listed client job now (some current) s =
    if not (same_parts current.job_id listed)
    then s
    else if is_paused client
    then s
    else if current.send_failed
    then s
    else if is_some job
    then s
    else requeue current.job_id (current.scheduled_for - now) (parse_job_id current.job_id) s

-- One round of the loop of `resyncScheduledJobs`: the row as it was listed, and the state as it is
-- read again under the lock. The client is null once it is deleted.
unfoldable pub resync_scheduled_job :
    List String → Option Client → Option JobState → ℕ → SendState → SendState
resync_scheduled_job listed client job now s = resync_row listed client job now s.mirror s
