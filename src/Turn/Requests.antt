-- ===== src/Turn/Requests.antt =====
-- `createReplanRequester` of src/orchestration/inboundTurnCore.ts: one deferred planner run for a
-- client. BullMQ and the clock are not part of the repository: what the queue answers and the times
-- are arguments, and the calls that change state are the result.
use fiscal_mind_agent.Prelude.{
  Bool-cases, ℕ, ◌+◌, ◌-◌, ◌≤◌, ◌≡◌, refl, ◌⊎◌, inl, inr, Bool, true, false, Option, none, some,
  List, [], ◌∷◌, min, max, arith, if◌then◌else◌,
}
use fiscal_mind_agent.Queue.{
  JobState, delayed, waiting, prioritized, paused, waiting_children, active, is_active,
}

-- A job found under the client's id: its state, the turn's start in its data, and whether `remove`
-- succeeds when it is called.
pub record ReplanJob : Type 0 where
  pub state : JobState
  pub turn_started_at : ℕ
  pub removable : Bool

pub data Call : Type 0 where
  remove_job : Call
  set_dirty : Call
  add_job : (turn_started_at delay : ℕ) → Call

abbrev min_delay_ms : ℕ
min_delay_ms = 1000

-- `NOT_STARTED`
abbrev is_not_started : JobState → Bool
is_not_started delayed = true
is_not_started waiting = true
is_not_started prioritized = true
is_not_started paused = true
is_not_started waiting_children = true
is_not_started _ = false

-- `delayFor`: `-` stops at 0, below the minimum that `max` puts in its place.
unfoldable delay_for : ℕ → Option ℕ → ℕ → ℕ
delay_for quiet_ms none now = quiet_ms
delay_for quiet_ms (some last) now = min quiet_ms (max min_delay_ms (last + quiet_ms - now))

-- `requestReplan`: `now` is the time of the call, `later` the time at which the delay is computed,
-- `last` the client's last inbound as the store then reads it.
unfoldable pub request_replan : ℕ → ℕ → ℕ → Option ℕ → Option ReplanJob → List Call
unfolding delay_for
request_replan quiet_ms now later last none = add_job now (delay_for quiet_ms last later) ∷ []
request_replan quiet_ms now later last (some job) =
    if is_active job.state
    then set_dirty ∷ []
    else if job.removable
    then remove_job
      ∷ add_job (if is_not_started job.state then job.turn_started_at else now)
          (delay_for quiet_ms last later)
      ∷ []
    else remove_job ∷ set_dirty ∷ []

-- The calls leave exactly one trace of the request: a run in the queue, or the flag that makes the
-- running one plan again. A run keeps the start of a turn whose job has not started.
abbrev pub IsOneRequest : ℕ → Option ReplanJob → (ℕ → Type 0) → List Call → Type 0
IsOneRequest now none Fits (add_job start delay ∷ []) = (start ≡ now) × Fits delay
IsOneRequest now (some job) Fits (set_dirty ∷ []) = job.state ≡ active
IsOneRequest now (some job) Fits (remove_job ∷ set_dirty ∷ []) =
    (is_active job.state ≡ false) × (job.removable ≡ false)
IsOneRequest now (some job) Fits (remove_job ∷ add_job start delay ∷ []) =
    (is_active job.state ≡ false)
    × (job.removable ≡ true)
    × (start ≡ (if is_not_started job.state then job.turn_started_at else now))
    × Fits delay
IsOneRequest _ _ _ _ = ⊥

-- With no known inbound the delay is the whole window. Else it is at most the window, and at least
-- one second unless it is the window; and the run fires at or after the end of the window that
-- began with the last inbound, or with this call if the inbound's time lies after it.
abbrev pub IsDelay : ℕ → Option ℕ → ℕ → ℕ → Type 0
IsDelay quiet_ms none later delay = delay ≡ quiet_ms
IsDelay quiet_ms (some last) later delay =
    (delay ≤ quiet_ms)
    × ((min_delay_ms ≤ delay) ⊎ (delay ≡ quiet_ms))
    × (min last later + quiet_ms ≤ later + delay)

delay_for-IsDelay :
    (quiet_ms : ℕ) (last : Option ℕ) (later : ℕ)
    → IsDelay quiet_ms last later (delay_for quiet_ms last later)
unfolding delay_for
delay_for-IsDelay quiet_ms none later = refl
delay_for-IsDelay quiet_ms (some last) later = (omega arith, omega arith, omega arith)

-- Each call of `requestReplan` leaves the dirty flag, when the planner is running or takes the job
-- while it is removed, or else exactly one deferred run: at the turn's original start if the job
-- under the id has not started, and after a delay that reaches the end of the client's quiet
-- window (counted from the call, if the last inbound's time lies after it), is no longer than the window, and is a second at least unless the window is shorter.
pub request_replan-IsOneRequest :
    (quiet_ms now later : ℕ) (last : Option ℕ) (job : Option ReplanJob)
    → IsOneRequest now job
        (IsDelay quiet_ms last later)
        (request_replan quiet_ms now later last job)
unfolding request_replan
request_replan-IsOneRequest quiet_ms now later last none =
    (refl, delay_for-IsDelay quiet_ms last later)
request_replan-IsOneRequest quiet_ms now later last (some job) =
    elim (Bool-cases (is_active job.state)) [
      | inl busy ↦ rw busy (ground arith)
      | inr idle ↦
          let fits = delay_for-IsDelay quiet_ms last later in
          elim (Bool-cases job.removable) [
            | inl free ↦ rw (idle, free) (idle, refl, refl, fits)
            | inr taken ↦ rw (idle, taken) (idle, refl)
          ]
    ]
