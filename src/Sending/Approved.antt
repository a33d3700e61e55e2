-- ===== src/Sending/Approved.antt =====
-- Sequences of the operations on a pending send, under review (src/orchestration,
-- src/queue/sendEmailWorker.ts, src/api/reviewAdmin.ts).
use fiscal_mind_agent.Prelude.{
  and-left, and-right, suc, ℕ, Bool, true, false, ◌&&◌, ◌≡◌, inl, inr, refl, String, Option, none,
  some, List, [], ◌∷◌, any, all, Bool-cases, if-cases, if◌then◌else◌, arith,
}
use fiscal_mind_agent.Queue.{JobState}
use fiscal_mind_agent.Sending.Rules.{Draft, Instance, Client, is_supervised_instance}
use fiscal_mind_agent.Sending.Mirror.{
  SendState, remove_future_email, pause_future_email, resume_future_email, send_future_email_now,
}
use fiscal_mind_agent.Sending.Recovery.{retry_failed_send, resync_scheduled_job}
use fiscal_mind_agent.Sending.Worker.{World, review_mode, on_scheduled_send}
use fiscal_mind_agent.Sending.Ends.{on_scheduled_send-Ends}
use fiscal_mind_agent.Sending.Gates.{is_delivery, IsCleared, delivered_iff}
use fiscal_mind_agent.Sending.Review.{
  is_reviewed_client, mark_review_pending, insert_draft, DraftArgs, schedule_draft_message,
  approve_review_message,
}
use fiscal_mind_agent.Sending.Unapproved.{
  IsUnapproved, U, remove_future_email-U, pause_row-U, resume_by-U, send_now_row-U, retry_row-U,
  resync_row-U, Ends-U,
}

-- What can happen to a pending send, with what the outside answers.
pub data SendOp : Type 0 where
  schedule : Option Client → Option Instance → String → ℕ → DraftArgs → SendOp
  approve : Option Client → Option Instance → String → ℕ → Option Draft → SendOp
  remove_send : Option JobState → SendOp
  pause_send : Option JobState → SendOp
  resume_send : String → ℕ → Option JobState → SendOp
  send_at_once : Bool → Option JobState → ℕ → SendOp
  retry_send : Option JobState → ℕ → SendOp
  resync_send : List String → Option Client → Option JobState → ℕ → SendOp
  fire : World → SendOp

unfoldable perform : SendOp → SendState → SendState
unfolding schedule_draft_message approve_review_message remove_future_email pause_future_email
    resume_future_email send_future_email_now retry_failed_send resync_scheduled_job
    on_scheduled_send
perform (schedule client inst id now args) s = schedule_draft_message client inst id now args s
perform (approve client inst id now earlier) s =
    (approve_review_message client inst id now earlier s).0
perform (remove_send job) s = remove_future_email job s
perform (pause_send job) s = pause_future_email job s
perform (resume_send client now job) s = resume_future_email client now job s
perform (send_at_once promotes job now) s = (send_future_email_now promotes job now s).0
perform (retry_send job now) s = (retry_failed_send job now s).0
perform (resync_send listed client job now) s = resync_scheduled_job listed client job now s
perform (fire w) s = (on_scheduled_send w s).state

abbrev pub is_approval : SendOp → Bool
is_approval (approve client inst id now earlier) = true
is_approval _ = false

schedule-U :
    (client : Option Client) (inst : Option Instance) (id : String) (now : ℕ) (args : DraftArgs)
    (s : SendState)
    → U (schedule_draft_message client inst id now args s)
unfolding schedule_draft_message
schedule-U client inst id now args s = if-cases U args.hold (λ _. drafted) (λ _. drafted)
  where
    drafted : IsUnapproved (
        some (
          if is_reviewed_client client inst
          then mark_review_pending (insert_draft args)
          else insert_draft args))
    drafted =
        if-cases (λ d. IsUnapproved (some d)) (is_reviewed_client client inst) (λ _. refl)
          (λ _. refl)

perform-U : (op : SendOp) (s : SendState) → is_approval op ≡ false → U s → U (perform op s)
unfolding perform schedule_draft_message pause_future_email resume_future_email
    send_future_email_now retry_failed_send resync_scheduled_job
perform-U (schedule client inst id now args) s n h = schedule-U client inst id now args s
perform-U (approve client inst id now earlier) s n h = ground arith
perform-U (remove_send job) s n h = remove_future_email-U job s h
perform-U (pause_send job) s n h = pause_row-U job s.mirror s h
perform-U (resume_send client now job) s n h = resume_by-U client now job _ s.mirror s h
perform-U (send_at_once promotes job now) s n h = send_now_row-U promotes job now s.mirror s h
perform-U (retry_send job now) s n h = retry_row-U job now s.mirror s h
perform-U (resync_send listed client job now) s n h =
    resync_row-U listed client job now s.mirror s h
perform-U (fire w) s n h = Ends-U w s _ h (on_scheduled_send-Ends w s)

-- Whether the operation lets a message out.
abbrev pub sends : SendOp → SendState → Bool
sends (fire w) s = any is_delivery (on_scheduled_send w s).effects
sends _ s = false

-- The worker finds the agent in review mode, when it fires.
abbrev is_in_review : SendOp → Bool
is_in_review (fire w) = is_supervised_instance w.instance && review_mode w.instance
is_in_review _ = true

unfoldable pub deliveries : List SendOp → SendState → ℕ
unfolding perform
deliveries [] s = 0
deliveries (op ∷ ops) s =
    let later = deliveries ops (perform op s) in if sends op s then suc later else later

fire-sends :
    (w : World) (s : SendState)
    → (is_supervised_instance w.instance && review_mode w.instance) ≡ true
    → U s
    → any is_delivery (on_scheduled_send w s).effects ≡ false
fire-sends w s review h = elim (Bool-cases (any is_delivery (on_scheduled_send w s).effects)) [
  | inr none_out ↦ none_out
  | inl out ↦ absurd (go w.client s.draft ((delivered_iff w s).0 out) h)
]
  where
    go : (c : Option Client) (d : Option Draft) → IsCleared w c d → IsUnapproved d → ⊥
    go none d k h = k
    go (some c) none k h = ground arith
    go (some c) (some d) k h = ground arith

sends-unapproved :
    (op : SendOp) (s : SendState)
    → is_in_review op ≡ true
    → IsUnapproved s.draft
    → sends op s ≡ false
sends-unapproved (schedule client inst id now args) s review h = refl
sends-unapproved (approve client inst id now earlier) s review h = refl
sends-unapproved (remove_send job) s review h = refl
sends-unapproved (pause_send job) s review h = refl
sends-unapproved (resume_send client now job) s review h = refl
sends-unapproved (send_at_once promotes job now) s review h = refl
sends-unapproved (retry_send job now) s review h = refl
sends-unapproved (resync_send listed client job now) s review h = refl
sends-unapproved (fire w) s review h = fire-sends w s review h

-- While the agent is in review mode, no message goes out before the admin approves one: whatever
-- else happens to a pending send that is not approved (drafts scheduled anew, pauses, resumes, "send
-- now", retries, resyncs and firings of the worker, in any order), nothing is delivered.
pub deliveries-unapproved :
    (ops : List SendOp) (s : SendState)
    → all is_in_review ops ≡ true
    → any is_approval ops ≡ false
    → IsUnapproved s.draft
    → deliveries ops s ≡ 0
unfolding deliveries
deliveries-unapproved [] s review n h = refl
deliveries-unapproved (op ∷ ops) s review n h = rw (sends-unapproved op s (and-left _ _ review) h) (
    deliveries-unapproved ops (perform op s) (and-right (is_in_review op) _ review) (ground arith)
      (perform-U op s (ground arith) h))
