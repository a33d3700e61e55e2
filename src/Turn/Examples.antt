-- ===== src/Turn/Examples.antt =====
-- The inbound turn on concrete events: a Redis that meets its laws, tests, and the theorems.
use fiscal_mind_agent.Prelude.{◌≡◌, refl, true, Option, none, some, List, [], ◌∷◌, if◌then◌else◌}
use fiscal_mind_agent.Prelude.Int.{ℤ, pos, ◌+ℤ◌, ◌-ℤ◌}
use fiscal_mind_agent.Queue.{active, delayed}
use fiscal_mind_agent.Turn.Rules.{
  TurnState, Limits, plan, wait, force, decide_replan, Warrants, decide_replan-Warrants,
}
use fiscal_mind_agent.Turn.Store.{
  Key, same_key, counter, TurnRedis, mark_inbound_started, mark_inbound_finished, read, set_dirty,
}
use fiscal_mind_agent.Turn.Counting.{Event, started, finished, dirtied, step, run}
use fiscal_mind_agent.Turn.Requests.{
  ReplanJob, remove_job, set_dirty as flag_call, add_job, request_replan, IsOneRequest, IsDelay,
  request_replan-IsOneRequest,
}

abbrev Keys : Type 0
Keys = Key → Option ℤ

abbrev put : Key → Option ℤ → Keys → Keys
put k v s j = if same_key j k then v else s j

abbrev memory : TurnRedis
memory = record {
  Store = Keys;
  get = λ k s. s k;
  incr = λ k s.
      (counter (s k) +ℤ pos 1, λ j. if same_key j k then some (counter (s j) +ℤ pos 1) else s j);
  decr = λ k s.
      (counter (s k) -ℤ pos 1, λ j. if same_key j k then some (counter (s j) -ℤ pos 1) else s j);
  set_ex = λ k v ttl s. put k (some v) s;
  expire = λ k ttl s. s;
  del = λ k s. put k none s;
  lapse = λ k s. put k none s;
  incr_answer = λ k s. refl;
  decr_answer = λ k s. refl;
  get-incr = λ j k s. refl;
  get-decr = λ j k s. refl;
  get-set_ex = λ j k v ttl s. refl;
  get-expire = λ j k ttl s. refl;
  get-del = λ j k s. refl;
  get-lapse = λ j k s. refl;
}

abbrev nothing : Keys
nothing k = none

abbrev busy : List Event
busy = started "c" 100 ∷ started "d" 120 ∷ started "c" 150 ∷ finished "c" ∷ dirtied "c" ∷ []

busy_reading :
    let r = read memory 60 "c" (run memory 60 busy nothing) in
    (r.inflight ≡ 1) × (r.last_inbound_at ≡ some 150)
unfolding run step read mark_inbound_started mark_inbound_finished set_dirty ◌+ℤ◌ ◌-ℤ◌
busy_reading = (refl, refl)

abbrev limits : Limits
limits = record { quiet_ms = 20; max_wait_ms = 100 }

abbrev quiet_turn : TurnState
quiet_turn = record { inflight = 0; last_inbound_at = some 150; pending_files = 0 }

decisions :
    (decide_replan quiet_turn 100 170 limits ≡ plan)
    × (decide_replan quiet_turn 100 169 limits ≡ wait)
    × (decide_replan (record quiet_turn { pending_files = 2 }) 100 200 limits ≡ force)
unfolding decide_replan
decisions = (refl, refl, refl)

decide_replan-Warrants_example :
    Warrants quiet_turn 100 169 limits (decide_replan quiet_turn 100 169 limits)
decide_replan-Warrants_example = decide_replan-Warrants quiet_turn 100 169 limits

abbrev waiting_run : ReplanJob
waiting_run = record { state = delayed; turn_started_at = 90; removable = true }

requests :
    (request_replan 8000 5000 5000 (some 4000) (some waiting_run)
      ≡ remove_job ∷ add_job 90 7000 ∷ [])
    × (request_replan 8000 20000 20000 (some 4000) none ≡ add_job 20000 1000 ∷ [])
    × (request_replan 8000 5000 5000 none (some (record waiting_run { state = active }))
        ≡ flag_call ∷ [])
unfolding request_replan
requests = (refl, refl, refl)

request_replan-IsOneRequest_example :
    IsOneRequest 5000
      (some waiting_run)
      (IsDelay 8000 (some 4000) 5000)
      (request_replan 8000 5000 5000 (some 4000) (some waiting_run))
request_replan-IsOneRequest_example =
    request_replan-IsOneRequest 8000 5000 5000 (some 4000) (some waiting_run)
