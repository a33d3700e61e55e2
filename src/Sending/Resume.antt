-- ===== src/Sending/Resume.antt =====
-- Pausing and resuming a pending send, and sending it now: what each decision needs and what it does to
-- the row, the draft and the queue.
use fiscal_mind_agent.Prelude.{
  ℕ, ◌+◌, ◌-◌, ◌<◌, ◌≤◌, ◌≡◌, refl, ◌⊎◌, ◌↔◌, inl, inr, Bool, true, false, not, ◌&&◌, String,
  Option, none, some, is_some, List, [], ◌∷◌, ◌++◌, arith, Bool-cases, Option-cases, if-cases,
  str_eq, eq_iff,
}
use fiscal_mind_agent.Queue.{JobState, delayed}
use fiscal_mind_agent.Sending.Rules.{
  Draft, MirrorRow, parse_job_id, awaits_admin_review, ResumeAction, restore, send_now,
  already_queued, keep, redraft, is_queued_job, resume_action,
}
use fiscal_mind_agent.Sending.Mirror.{
  Call, add_send, remove_job, publish_updated, SendState, email_part, is_draft_held,
  pause_future_email, resume_future_email, send_future_email_now, SendNowResult, promoted,
  enqueue_preserved_send_now, missing_job, SendNowCase, on_its_way, was_failed, is_delayed,
  is_finished, send_now_case, send_now_by, send_now_job,
}

-- The mirror's job is gone from the queue, can be named again, and its draft is not parked.
abbrev IsLost : MirrorRow → Option JobState → Bool → Type 0
IsLost row job h = (h ≡ false) × (job ≡ none) × (is_some (parse_job_id row.job_id) ≡ true)

-- What each decision on a resume needs.
abbrev pub Warrants : Option MirrorRow → Option JobState → Bool → ℕ → ResumeAction → Type 0
Warrants none job h now redraft = Unit
Warrants none job h now _ = ⊥
Warrants (some row) job h now restore = IsLost row job h × (now < row.scheduled_for)
Warrants (some row) job h now send_now = IsLost row job h × (row.scheduled_for ≤ now)
Warrants (some row) job h now keep = h ≡ true
Warrants (some row) job h now already_queued = (h ≡ false) × (is_queued_job job ≡ true)
Warrants (some row) job h now redraft =
    (h ≡ false)
    × (is_queued_job job ≡ false)
    × ((is_some job ≡ true) ⊎ (parse_job_id row.job_id ≡ none))

-- Each decision on a resume is taken exactly in its case. Without a row the send is drafted again.
-- With one: it stays parked if its draft is held; else it is already queued if its job is on the
-- way; else it is drafted again if the queue still knows its job or the job id names no draft; else
-- it is restored before it is due, and sent now from then on.
resume_action_iff :
    (m : Option MirrorRow) (job : Option JobState) (h : Bool) (now : ℕ) (a : ResumeAction)
    → (resume_action m job h now ≡ a) ↔ Warrants m job h now a
unfolding resume_action
resume_action_iff none job h now restore = ground arith
resume_action_iff none job h now send_now = ground arith
resume_action_iff none job h now keep = ground arith
resume_action_iff none job h now already_queued = ground arith
resume_action_iff none job h now redraft = ground arith
resume_action_iff (some row) job h now restore = ground arith
resume_action_iff (some row) job h now send_now = ground arith
resume_action_iff (some row) job h now keep = ground arith
resume_action_iff (some row) job h now already_queued = ground arith
resume_action_iff (some row) job h now redraft = ground arith

-- Pausing a delayed send and resuming it before it is due takes its job off the queue and puts the
-- same job back with the rest of its delay, so that it falls due at the time that it had. The row and
-- the draft stay as they were.
pub pause-resume :
    (client : String) (now : ℕ) (row : MirrorRow) (d : Option Draft) (calls : List Call)
    → is_some (parse_job_id row.job_id) ≡ true
    → is_draft_held row.job_id d ≡ false
    → now < row.scheduled_for
    → (resume_future_email client now none (
          pause_future_email
            (some delayed)
            (record { mirror = some row; draft = d; calls = calls }))
        ≡ record {
          mirror = some row;
          draft = d;
          calls =
              (((calls ++ remove_job ∷ []) ++ publish_updated ∷ [])
                ++ add_send row.job_id client (email_part row.job_id) (row.scheduled_for - now)
                  ∷ [])
              ++ publish_updated ∷ [];
        })
      × (now + (row.scheduled_for - now) ≡ row.scheduled_for)
unfolding pause_future_email resume_future_email
pause-resume client now row d calls named free early = (rw lost refl, omega arith)
  where
    lost : resume_action (some row) none (is_draft_held row.job_id d) now ≡ restore
    lost =
        (resume_action_iff (some row) none (is_draft_held row.job_id d) now restore).1
          ((free, refl, named), early)

-- A state in which "send now" has fired the row for the draft: no failure was recorded, no review is
-- awaited, and the row has its job id, falls due now, and has no failure on it.
abbrev HasFired : MirrorRow → Option Draft → ℕ → SendState → Type 0
HasFired row d now s =
    (row.send_failed ≡ false)
    × ((email_part row.job_id ≡ "") ⊎ (awaits_admin_review d ≡ false))
    × (s.mirror ≡ some (record { job_id = row.job_id; scheduled_for = now; send_failed = false }))
    × (s.draft ≡ d)

abbrev IsFired : MirrorRow → Option Draft → ℕ → SendState × SendNowResult → Type 0
IsFired row d now (s, result) = result ≡ promoted → HasFired row d now s

abbrev unreviewed : MirrorRow → Option Draft → Bool
unreviewed row d = not (str_eq (email_part row.job_id) "") && awaits_admin_review d

unreviewed_no :
    (row : MirrorRow) (d : Option Draft)
    → unreviewed row d ≡ false
    → (email_part row.job_id ≡ "") ⊎ (awaits_admin_review d ≡ false)
unreviewed_no row d h = elim (Bool-cases (str_eq (email_part row.job_id) "")) [
  | inl empty ↦ inl ((eq_iff _ _).0 empty)
  | inr other ↦ inr (ground arith)
]

module _ (row : MirrorRow) (d : Option Draft) (now : ℕ) (calls : List Call) where
  abbrev pub start : SendState
  start = record { mirror = some row; draft = d; calls = calls }

  missing_job-IsFired :
      row.send_failed ≡ false
      → unreviewed row d ≡ false
      → IsFired row d now (missing_job row now start)
  unfolding enqueue_preserved_send_now
  missing_job-IsFired ok clear = elim (Option-cases (parse_job_id row.job_id)) [
    | inl missing ↦ rw missing (ground arith)
    | inr (parts, e) ↦ rw e (λ _. (ok, unreviewed_no row d clear, refl, refl))
  ]

  send_now_by-IsFired :
      (promotes : Bool) (c : SendNowCase)
      → row.send_failed ≡ false
      → unreviewed row d ≡ false
      → IsFired row d now (send_now_by promotes c row now start)
  send_now_by-IsFired promotes on_its_way ok clear = ground arith
  send_now_by-IsFired promotes was_failed ok clear = ground arith
  send_now_by-IsFired promotes is_finished ok clear =
      if-cases (IsFired row d now) (is_draft_held row.job_id d) (λ _. ground arith)
        (λ _. ground arith)
  send_now_by-IsFired true is_delayed ok clear = λ _. (ok, unreviewed_no row d clear, refl, refl)
  send_now_by-IsFired false is_delayed ok clear = ground arith

  send_now_job-IsFired :
      (promotes : Bool) (job : Option JobState)
      → row.send_failed ≡ false
      → unreviewed row d ≡ false
      → IsFired row d now (send_now_job promotes job row now start)
  unfolding enqueue_preserved_send_now
  send_now_job-IsFired promotes none ok clear = missing_job-IsFired ok clear
  send_now_job-IsFired promotes (some state) ok clear =
      send_now_by-IsFired promotes (send_now_case state) ok clear

  send_future_email_now-IsFired :
      (promotes : Bool) (job : Option JobState)
      → IsFired row d now (send_future_email_now promotes job now start)
  unfolding send_future_email_now
  send_future_email_now-IsFired promotes job =
      if-cases (IsFired row d now) row.send_failed (λ _. ground arith)
        (λ ok.
          if-cases (IsFired row d now) (unreviewed row d) (λ _. ground arith)
            (λ clear. send_now_job-IsFired promotes job ok clear))

-- A send that "send now" fires had not failed, and its draft does not await the admin's review,
-- unless the job id names no draft. It keeps its draft and its job id, and its row falls due now,
-- with no failure on it.
send_future_email_now-HasFired :
    (row : MirrorRow) (d : Option Draft) (now : ℕ) (calls : List Call) (promotes : Bool)
    (job : Option JobState)
    → (send_future_email_now promotes job now (start row d now calls)).1 ≡ promoted
    → HasFired row d now (send_future_email_now promotes job now (start row d now calls)).0
send_future_email_now-HasFired row d now calls promotes job h =
    send_future_email_now-IsFired row d now calls promotes job h
