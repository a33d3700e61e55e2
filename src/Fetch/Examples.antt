-- ===== src/Fetch/Examples.antt =====
-- The session tracker on a concrete sequence, and its theorems.
use fiscal_mind_agent.Prelude.{◌≡◌, refl, List, [], ◌∷◌, length, map}
use fiscal_mind_agent.Fetch.Tracker.{
  Session, TrackerOp, admit, try_again, go_off, track, no_sessions,
}
use fiscal_mind_agent.Fetch.Timers.{IsArmed}
use fiscal_mind_agent.Fetch.Sessions.{track-IsArmed}

abbrev login : Session
login = record { session_id = "s1"; client_id = "c1"; provider = "tax" }

abbrev second : Session
second = record { session_id = "s2"; client_id = "c2"; provider = "tax" }

-- The first session is taken and put back, so that its old timer is gone; the second expires.
abbrev ops : List TrackerOp
ops = admit login ∷ admit second ∷ try_again "s1" ∷ go_off 0 ∷ go_off 1 ∷ []

expiries :
    (map (λ s. s.timer) (track 2 ops no_sessions).expired ≡ 1 ∷ [])
    × (map (λ s. s.timer) (track 2 ops no_sessions).sessions ≡ 2 ∷ [])
    × (length (track 1 (admit login ∷ admit second ∷ []) no_sessions).sessions ≡ 1)
unfolding track
expiries = (refl, refl, refl)

track-IsArmed_example : IsArmed (track 2 ops no_sessions)
track-IsArmed_example = track-IsArmed 2 ops no_sessions (refl, tt)
