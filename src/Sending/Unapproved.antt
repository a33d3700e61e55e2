-- ===== src/Sending/Unapproved.antt =====
-- What each operation on a pending send makes of a draft that is not approved (src/orchestration,
-- src/queue).
use fiscal_mind_agent.Prelude.{
  ℕ, ◌-◌, str_eq, Bool, false, not, ◌&&◌, ◌≡◌, refl, String, Option, none, some, is_some, List,
  if-cases, arith,
}
use mathlib.Core.Path.{subst}
use fiscal_mind_agent.Queue.{JobState}
use fiscal_mind_agent.Sending.Rules.{
  parse_job_id, Draft, MirrorRow, Client, awaits_admin_review, ResumeAction, restore, send_now,
  already_queued, keep, redraft,
}
use fiscal_mind_agent.Sending.Mirror.{
  SendState, cancel_job, remove_row, pause_row, resume_by, enqueue_parsed, email_part,
  is_draft_held, missing_job, SendNowCase, on_its_way, was_failed, is_delayed, is_finished,
  send_now_case, send_now_by, send_now_job, send_now_row, is_cancelable, superseded_draft,
  remove_future_email, enqueue_preserved_send_now,
}
use fiscal_mind_agent.Sending.Recovery.{
  refire, settle_retry, is_failed, retry_row, same_parts, is_paused, requeue, resync_row,
}
use fiscal_mind_agent.Sending.Worker.{World, Run, is_approved, mark_sent}
use fiscal_mind_agent.Sending.Outcomes.{Ends, stays, parks, fails, replans, goes}

-- There is no draft, or it is not approved.
abbrev pub IsUnapproved : Option Draft → Type 0
IsUnapproved none = Unit
IsUnapproved (some d) = is_approved d.review_status ≡ false

superseded_draft-IsUnapproved :
    (d : Option Draft) → IsUnapproved d → IsUnapproved (superseded_draft d)
unfolding awaits_admin_review
superseded_draft-IsUnapproved none h = h
superseded_draft-IsUnapproved (some d) h = ground arith

abbrev pub U : SendState → Type 0
U s = IsUnapproved s.draft

cancel_job-U : (job : Option JobState) (s : SendState) → U s → U (cancel_job job s)
cancel_job-U none s h = h
cancel_job-U (some state) s h = if-cases U (is_cancelable state) (λ _. h) (λ _. h)

remove_row-U :
    (job : Option JobState) (m : Option MirrorRow) (s : SendState) → U s → U (remove_row job m s)
remove_row-U job none s h = h
remove_row-U job (some row) s h = cancel_job-U job s h

pub remove_future_email-U :
    (job : Option JobState) (s : SendState) → U s → U (remove_future_email job s)
unfolding remove_future_email
remove_future_email-U job s h =
    remove_row-U job s.mirror _ (superseded_draft-IsUnapproved s.draft h)

pub pause_row-U :
    (job : Option JobState) (m : Option MirrorRow) (s : SendState) → U s → U (pause_row job m s)
pause_row-U job none s h = h
pause_row-U job (some row) s h = cancel_job-U job s h

enqueue-U :
    (id : List String) (now : ℕ) (s : SendState) → U s → U (enqueue_preserved_send_now id now s).0
unfolding enqueue_preserved_send_now
enqueue-U id now s h = go (parse_job_id id)
  where
    go : (parts : Option (String × String)) → U (enqueue_parsed id now parts s).0
    go none = h
    go (some (c, e)) = h

pub resume_by-U :
    (client : String) (now : ℕ) (job : Option JobState) (a : ResumeAction) (m : Option MirrorRow)
    (s : SendState)
    → U s
    → U (resume_by client now job a m s)
resume_by-U client now job already_queued (some row) s h = h
resume_by-U client now job keep (some row) s h = h
resume_by-U client now job restore (some row) s h = h
resume_by-U client now job send_now (some row) s h = enqueue-U row.job_id now s h
resume_by-U client now job redraft m s h = remove_future_email-U job s h
resume_by-U client now job already_queued none s h = remove_future_email-U job s h
resume_by-U client now job keep none s h = remove_future_email-U job s h
resume_by-U client now job restore none s h = remove_future_email-U job s h
resume_by-U client now job send_now none s h = remove_future_email-U job s h

abbrev U₁ : {A : Type 0} → SendState × A → Type 0
U₁ x = U x.0

missing_job-U : (row : MirrorRow) (now : ℕ) (s : SendState) → U s → U₁ (missing_job row now s)
missing_job-U row now s h =
    if-cases U₁ (enqueue_preserved_send_now row.job_id now s).1 (λ _. enqueue-U row.job_id now s h)
      (λ _. h)

send_now_by-U :
    (promotes : Bool) (c : SendNowCase) (row : MirrorRow) (now : ℕ) (s : SendState)
    → U s
    → U₁ (send_now_by promotes c row now s)
send_now_by-U promotes on_its_way row now s h = h
send_now_by-U promotes was_failed row now s h = h
send_now_by-U promotes is_finished row now s h =
    if-cases U₁ (is_draft_held row.job_id s.draft) (λ _. h) (λ _. h)
send_now_by-U promotes is_delayed row now s h = if-cases U₁ promotes (λ _. h) (λ _. h)

send_now_job-U :
    (promotes : Bool) (job : Option JobState) (row : MirrorRow) (now : ℕ) (s : SendState)
    → U s
    → U₁ (send_now_job promotes job row now s)
send_now_job-U promotes none row now s h = missing_job-U row now s h
send_now_job-U promotes (some state) row now s h =
    send_now_by-U promotes (send_now_case state) row now s h

pub send_now_row-U :
    (promotes : Bool) (job : Option JobState) (now : ℕ) (m : Option MirrorRow) (s : SendState)
    → U s
    → U₁ (send_now_row promotes job now m s)
send_now_row-U promotes job now none s h = h
send_now_row-U promotes job now (some row) s h =
    if-cases U₁ row.send_failed (λ _. h)
      (λ _.
        if-cases U₁ (not (str_eq (email_part row.job_id) "") && awaits_admin_review s.draft)
          (λ _. h) (λ _. send_now_job-U promotes job row now s h))

pub retry_row-U :
    (job : Option JobState) (now : ℕ) (m : Option MirrorRow) (s : SendState)
    → U s
    → U₁ (retry_row job now m s)
retry_row-U job now none s h = h
retry_row-U job now (some row) s h = if-cases U₁ row.send_failed (λ _. go job) (λ _. h)
  where
    parsed :
        (parts : Option (String × String))
        → parse_job_id row.job_id ≡ parts
        → U₁ (settle_retry row.job_id now s (refire none row s))
    parsed none e = rw (e, settle_retry, refire) h
    parsed (some (c, i)) e = rw (e, settle_retry, refire) h

    go : (j : Option JobState) → U₁ (settle_retry row.job_id now s (refire j row s))
    go none = parsed (parse_job_id row.job_id) refl
    go (some state) =
        if-cases (λ x. U₁ (settle_retry row.job_id now s (some x))) (is_failed state) (λ _. h)
          (λ _. h)

pub resync_row-U :
    (listed : List String) (client : Option Client) (job : Option JobState) (now : ℕ)
    (m : Option MirrorRow) (s : SendState)
    → U s
    → U (resync_row listed client job now m s)
resync_row-U listed client job now none s h = h
resync_row-U listed client job now (some row) s h =
    if-cases U (not (same_parts row.job_id listed)) (λ _. h)
      (λ _.
        if-cases U (is_paused client) (λ _. h)
          (λ _.
            if-cases U row.send_failed (λ _. h)
              (λ _. if-cases U (is_some job) (λ _. h) (λ _. go (parse_job_id row.job_id)))))
  where
    go :
        (parts : Option (String × String))
        → U (requeue row.job_id (row.scheduled_for - now) parts s)
    go none = h
    go (some (c, i)) = h

pub Ends-U : (w : World) (s : SendState) (r : Run) → U s → Ends w s r → U r.state
Ends-U w s _ h (stays why) = h
Ends-U w s _ h (parks client free is_it new mode unread) = refl
Ends-U w s _ h (fails due carries refuses) = h
Ends-U w s _ h (replans due is_whatsapp cannot) = remove_future_email-U w.job s h
Ends-U w s _ h (goes {d = d} due carries takes out) =
    remove_future_email-U w.job (mark_sent d s) (subst IsUnapproved due.is_it h)
