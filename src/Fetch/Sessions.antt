-- ===== src/Fetch/Sessions.antt =====
-- The tracker through any operations (src/agents/declarationOfCapital/taxFetch/sessionTracker.ts).
use fiscal_mind_agent.Prelude.{
  inl, inr, ℕ, suc, ◌≤◌, ◌<◌, ◌≡◌, not, String, Option, none, some, List, [], ◌∷◌, length, find,
  length-append, length-keep-le, leb, ◌==◌, Bool-cases, Option-cases, if-cases, arith,
}
use fiscal_mind_agent.Fetch.Tracker.{
  Session, TrackedSession, Timer, Tracker, is_session, at_capacity, take_found, take_session, put,
  hand_over, expire, TrackerOp, admit, take_out, try_again, discard, go_off, expire_armed, operate,
  track, delete_session, put_back,
}
use fiscal_mind_agent.Fetch.Timers.{IsArmed, take_session-IsTaken, put-IsArmed}

hand_over-IsArmed : (x : Tracker × Option TrackedSession) → IsArmed x.0 → IsArmed (hand_over x)
hand_over-IsArmed (t, none) h = h
hand_over-IsArmed (t, some s) h = h

expire_armed-IsArmed : (a : Option Timer) (t : Tracker) → IsArmed t → IsArmed (expire_armed a t)
unfolding expire
expire_armed-IsArmed none t h = h
expire_armed-IsArmed (some a) t h =
    hand_over-IsArmed (take_session a.session_id t) (take_session-IsTaken a.session_id t h).0

put_back-IsArmed : (x : Tracker × Option TrackedSession) → IsArmed x.0 → IsArmed (put_back x)
unfolding put_back
put_back-IsArmed (t, none) h = h
put_back-IsArmed (t, some s) h = put-IsArmed s.session t h

operate-IsArmed : (m : ℕ) (op : TrackerOp) (t : Tracker) → IsArmed t → IsArmed (operate m op t)
unfolding operate
operate-IsArmed m (admit s) t h =
    if-cases IsArmed (at_capacity m t) (λ _. h) (λ _. put-IsArmed s t h)
operate-IsArmed m (take_out id) t h = (take_session-IsTaken id t h).0
operate-IsArmed m (try_again id) t h =
    put_back-IsArmed (take_session id t) (take_session-IsTaken id t h).0
operate-IsArmed m (discard id) t h = (take_session-IsTaken id t h).0
operate-IsArmed m (go_off k) t h = expire_armed-IsArmed _ t h

-- After any operations, the armed timers are those of the sessions that are tracked, one for each, and
-- no session id and no timer stands twice: a session that was taken, discarded or replaced leaves no
-- timer behind that could expire it.
pub track-IsArmed :
    (m : ℕ) (ops : List TrackerOp) (t : Tracker) → IsArmed t → IsArmed (track m ops t)
unfolding track
track-IsArmed m [] t h = h
track-IsArmed m (op ∷ ops) t h = track-IsArmed m ops (operate m op t) (operate-IsArmed m op t h)

take-shrinks :
    (id : String) (t : Tracker) → length (take_session id t).0.sessions ≤ length t.sessions
unfolding take_session
take-shrinks id t = elim (Option-cases (find (is_session id) t.sessions)) [
  | inl missing ↦ rw missing (omega arith)
  | inr (s, found) ↦ rw found (length-keep-le (λ x. not (is_session id x)) t.sessions)
]

expire_armed-shrinks :
    (a : Option Timer) (t : Tracker) → length (expire_armed a t).sessions ≤ length t.sessions
unfolding expire
expire_armed-shrinks none t = omega arith
expire_armed-shrinks (some a) t = go (take_session a.session_id t) (take-shrinks a.session_id t)
  where
    go :
        (x : Tracker × Option TrackedSession)
        → length x.0.sessions ≤ length t.sessions
        → length (hand_over x).sessions ≤ length t.sessions
    go (u, none) h = h
    go (u, some s) h = h

put-grows : (s : Session) (t : Tracker) → length (put s t).sessions ≤ suc (length t.sessions)
unfolding put
put-grows s t =
    let grown =
      length-append (take_session s.session_id t).0.sessions
        (record { session = s; timer = (take_session s.session_id t).0.next_timer } ∷ []) in
    let shrunk = take-shrinks s.session_id t in ground (arith, grown, shrunk)

delete-shrinks :
    (id : String) (ss : List TrackedSession) (s : TrackedSession)
    → find (is_session id) ss ≡ some s
    → length (delete_session id ss) < length ss
delete-shrinks id [] s h = ground arith
delete-shrinks id (r ∷ ss) s h = elim (Bool-cases (is_session id r)) [
  | inl hit ↦
      let kept = length-keep-le (λ x. not (is_session id x)) ss in rw hit (omega (arith, kept))
  | inr miss ↦
      let later = delete-shrinks id ss s (rw (miss, find) at h) in rw miss (omega (arith, later))
]

put_back-le :
    (id : String) (t : Tracker) → length (put_back (take_session id t)).sessions ≤ length t.sessions
unfolding take_session put_back
put_back-le id t = elim (Option-cases (find (is_session id) t.sessions)) [
  | inl missing ↦ rw missing (omega arith)
  | inr (s, found) ↦
      let shrunk = delete-shrinks id t.sessions s found in
      let taken = take_found id (some s) t in
      rw found (omega (arith, shrunk, put-grows s.session taken.0))
]

operate-le :
    (m : ℕ) (op : TrackerOp) (t : Tracker)
    → length t.sessions ≤ m
    → length (operate m op t).sessions ≤ m
unfolding operate at_capacity
operate-le m (admit s) t h =
    if-cases {A = Tracker} (λ x. length x.sessions ≤ m) (leb m (length t.sessions)) (λ _. h)
      (λ room. let grown = put-grows s t in ground (arith, grown, room))
operate-le m (take_out id) t h = omega (arith, take-shrinks id t)
operate-le m (try_again id) t h = omega (arith, put_back-le id t)
operate-le m (discard id) t h = omega (arith, take-shrinks id t)
operate-le m (go_off k) t h =
    omega (arith, expire_armed-shrinks (find (λ a. a.timer == k) t.armed) t)

-- When each job runs alone, so that a login is tracked only if there was room before it, there are never
-- more sessions tracked than are allowed: a session that is put back takes the place it had.
track-le :
    (m : ℕ) (ops : List TrackerOp) (t : Tracker)
    → length t.sessions ≤ m
    → length (track m ops t).sessions ≤ m
unfolding track
track-le m [] t h = h
track-le m (op ∷ ops) t h = track-le m ops (operate m op t) (operate-le m op t h)
