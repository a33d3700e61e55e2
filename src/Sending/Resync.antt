-- ===== src/Sending/Resync.antt =====
-- Firing a failed send again by hand, and queueing again at boot a send that the queue lost
-- (src/orchestration/retryFailedSend.ts, src/queue/resyncScheduledJobs.ts).
use fiscal_mind_agent.Prelude.{
  ℕ, ◌+◌, ◌-◌, ◌≡◌, refl, ◌⊎◌, ◌↔◌, inl, inr, true, false, not, String, Option, none, some, is_some,
  List, arith, Option-cases, if-cases, max,
}
use fiscal_mind_agent.Queue.{JobState}
use fiscal_mind_agent.Sending.Rules.{Draft, MirrorRow, parse_job_id, Client}
use fiscal_mind_agent.Sending.Mirror.{Call, add_send, SendState, call}
use fiscal_mind_agent.Sending.Recovery.{
  retry_failed_send, retried, resync_scheduled_job, same_parts, resync_row, requeue, is_paused,
}
use fiscal_mind_agent.Sending.Resume.{start}

-- A failed send is fired again exactly when the row says that it failed and the queue has its job or
-- the job id names its draft.
retry_failed_send_iff :
    (row : MirrorRow) (d : Option Draft) (now : ℕ) (calls : List Call) (job : Option JobState)
    → ((retry_failed_send job now (start row d now calls)).1 ≡ retried) ↔ (
        (row.send_failed ≡ true)
        × ((is_some job ≡ true) ⊎ (is_some (parse_job_id row.job_id) ≡ true)))
unfolding retry_failed_send
retry_failed_send_iff row d now calls none = elim (Option-cases (parse_job_id row.job_id)) [
  | inl missing ↦ rw missing (ground arith)
  | inr (parts, e) ↦ rw e (ground arith)
]
retry_failed_send_iff row d now calls (some state) = ground arith

-- The row still is the one that was listed, its client is there and not paused, it has not failed, and
-- the queue has no job for it: the job is added under its id, due when the row is, or now if that has
-- passed.
abbrev IsRequeued :
    List String → Option Client → Option JobState → ℕ → MirrorRow → SendState → SendState → Type 0
IsRequeued listed client job now row s s' =
    (same_parts row.job_id listed ≡ true)
    × (is_paused client ≡ false)
    × (row.send_failed ≡ false)
    × (job ≡ none)
    × (client_id : String) × (email_id : String) × (delay : ℕ) × (parse_job_id row.job_id
        ≡ some (client_id, email_id))
    × (now + delay ≡ max now row.scheduled_for)
    × (s' ≡ call (add_send row.job_id client_id email_id delay) s)

abbrev IsLeft :
    List String → Option Client → Option JobState → MirrorRow → SendState → SendState → Type 0
IsLeft listed client job row s s' =
    (s' ≡ s)
    × ((same_parts row.job_id listed ≡ false)
        ⊎ ((is_paused client ≡ true)
            ⊎ ((row.send_failed ≡ true)
                ⊎ ((is_some job ≡ true) ⊎ (parse_job_id row.job_id ≡ none)))))

module _ (listed : List String) (client : Option Client) (job : Option JobState) (now : ℕ)
    (row : MirrorRow) (s : SendState) where
  abbrev IsResynced : SendState → Type 0
  IsResynced x = IsLeft listed client job row s x ⊎ IsRequeued listed client job now row s x

  resync_row-IsResynced : IsResynced (resync_row listed client job now (some row) s)
  resync_row-IsResynced =
      if-cases IsResynced (not (same_parts row.job_id listed)) (λ h. inl (refl, inl (ground arith)))
        (λ same.
          if-cases IsResynced (is_paused client) (λ h. inl (refl, inr (inl h)))
            (λ live.
              if-cases IsResynced row.send_failed (λ h. inl (refl, inr (inr (inl h))))
                (λ fine.
                  if-cases IsResynced (is_some job) (λ h. inl (refl, inr (inr (inr (inl h)))))
                    (λ lost. add (ground arith) live fine (ground arith)))))
    where
      add :
          same_parts row.job_id listed ≡ true
          → is_paused client ≡ false
          → row.send_failed ≡ false
          → job ≡ none
          → IsResynced (requeue row.job_id (row.scheduled_for - now) (parse_job_id row.job_id) s)
      add same live fine lost = elim (Option-cases (parse_job_id row.job_id)) [
        | inl missing ↦ inl (rw missing refl, inr (inr (inr (inr missing))))
        | inr ((c, e), named) ↦
            rw named (
              inr (same, live, fine, lost, c, e, row.scheduled_for - now, refl, ground arith, refl))
      ]

-- The resync at boot adds the job that the queue lost, due when its row is, and leaves a mirrored send as
-- it was only where the row was replaced, the client is gone or paused, the send had failed, the queue
-- still has the job, or the job id names no draft.
resync_scheduled_job-IsRequeued :
    (listed : List String) (client : Option Client) (job : Option JobState) (now : ℕ)
    (row : MirrorRow) (d : Option Draft) (calls : List Call)
    → IsLeft listed client job row
        (start row d now calls)
        (resync_scheduled_job listed client job now (start row d now calls))
      ⊎ IsRequeued listed client job now row
          (start row d now calls)
          (resync_scheduled_job listed client job now (start row d now calls))
unfolding resync_scheduled_job
resync_scheduled_job-IsRequeued listed client job now row d calls =
    resync_row-IsResynced listed client job now row (start row d now calls)
