-- ===== src/Fetch/Tracker.antt =====
-- `SessionTracker` of src/agents/declarationOfCapital/taxFetch/sessionTracker.ts. A timer is a number
-- that no other timer has; the armed ones are listed with the session that they expire.
use fiscal_mind_agent.Prelude.{
  ℕ, suc, Bool, not, String, Option, none, some, List, [], ◌∷◌, ◌++◌, length, find, keep, str_eq,
  leb, ◌==◌, if◌then◌else◌,
}

pub record Session : Type 0 where
  pub session_id : String
  pub client_id : String
  pub provider : String

pub record TrackedSession : Type 0 where
  pub session : Session
  pub timer : ℕ

pub record Timer : Type 0 where
  pub timer : ℕ
  pub session_id : String

pub record Tracker : Type 0 where
  pub sessions : List TrackedSession
  pub armed : List Timer
  pub next_timer : ℕ
  -- the sessions that the expiry handler was called with
  pub expired : List TrackedSession

abbrev pub is_session : String → TrackedSession → Bool
is_session id s = str_eq s.session.session_id id

unfoldable pub at_capacity : ℕ → Tracker → Bool
at_capacity max_live t = leb max_live (length t.sessions)

-- `clearTimeout`
abbrev pub clear_timer : ℕ → List Timer → List Timer
clear_timer k armed = keep (λ a. not (a.timer == k)) armed

abbrev pub delete_session : String → List TrackedSession → List TrackedSession
delete_session id sessions = keep (λ s. not (is_session id s)) sessions

abbrev pub take_found : String → Option TrackedSession → Tracker → Tracker × Option TrackedSession
take_found id none t = (t, none)
take_found id (some s) t = (
  record t { sessions = delete_session id t.sessions; armed = clear_timer s.timer t.armed },
  some s,
)

unfoldable pub take_session : String → Tracker → Tracker × Option TrackedSession
take_session id t = take_found id (find (is_session id) t.sessions) t

unfoldable pub put : Session → Tracker → Tracker
unfolding take_session
put s t =
    let t' = (take_session s.session_id t).0 in
    record t' {
      sessions = t'.sessions ++ record { session = s; timer = t'.next_timer } ∷ [];
      armed = t'.armed ++ record { timer = t'.next_timer; session_id = s.session_id } ∷ [];
      next_timer = suc t'.next_timer;
    }

abbrev pub hand_over : Tracker × Option TrackedSession → Tracker
hand_over (t, none) = t
hand_over (t, some s) = record t { expired = t.expired ++ s ∷ [] }

unfoldable pub expire : String → Tracker → Tracker
unfolding take_session
expire id t = hand_over (take_session id t)

-- What happens to the tracker when each job of the fetch queue runs alone (the worker's static mode):
-- a login that is tracked if there was room before it, a session that is taken for its code, and put
-- back when the code is rejected, a session that is discarded, and a timer that goes off.
pub data TrackerOp : Type 0 where
  admit : Session → TrackerOp
  take_out : String → TrackerOp
  try_again : String → TrackerOp
  discard : String → TrackerOp
  go_off : ℕ → TrackerOp

abbrev pub expire_armed : Option Timer → Tracker → Tracker
expire_armed none t = t
expire_armed (some a) t = expire a.session_id t

-- A rejected code: the session that was taken is put back, with a new timer.
unfoldable pub put_back : Tracker × Option TrackedSession → Tracker
unfolding put
put_back (t, none) = t
put_back (t, some s) = put s.session t

unfoldable pub operate : ℕ → TrackerOp → Tracker → Tracker
unfolding at_capacity put take_session expire put_back
operate max_live (admit s) t = if at_capacity max_live t then t else put s t
operate max_live (take_out id) t = (take_session id t).0
operate max_live (try_again id) t = put_back (take_session id t)
operate max_live (discard id) t = (take_session id t).0
operate max_live (go_off k) t = expire_armed (find (λ a. a.timer == k) t.armed) t

unfoldable pub track : ℕ → List TrackerOp → Tracker → Tracker
unfolding operate
track max_live [] t = t
track max_live (op ∷ ops) t = track max_live ops (operate max_live op t)

abbrev pub no_sessions : Tracker
no_sessions = record { sessions = []; armed = []; next_timer = 0; expired = [] }
