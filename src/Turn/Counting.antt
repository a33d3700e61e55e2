-- ===== src/Turn/Counting.antt =====
-- The in-flight counter of the turn store (src/orchestration/inboundTurnCore.ts).
use fiscal_mind_agent.Prelude.{
  false, ◌⊎◌, ℕ, ◌+◌, ◌-◌, ◌≤◌, ◌≡◌, String, Option, none, some, List, [], ◌∷◌, str_eq,
  if◌then◌else◌,
}
use fiscal_mind_agent.Prelude.Int.{ℤ, pos}
use fiscal_mind_agent.Turn.Store.{
  Key, inflight_key, same_key, TurnRedis, mark_inbound_started, mark_inbound_finished, set_dirty,
  clear_dirty, take_dirty,
}

-- What happens to the store: a handler starts at a time or finishes, the planner's flag is set or
-- cleared or taken, and Redis drops a key whose time to live ran out.
pub data Event : Type 0 where
  started : String → ℕ → Event
  finished : String → Event
  dirtied : String → Event
  cleared : String → Event
  taken : String → Event
  lapsed : Key → Event

-- A stored counter is the number, which is then not 0; no counter is stored for 0.
abbrev pub IsCount : Option ℤ → ℕ → Type 0
IsCount none n = n ≡ 0
IsCount (some v) n = (v ≡ pos n) × (1 ≤ n)

module _ (redis : TurnRedis) (ttl : ℕ) where
  open redis use {
    Store, get, incr, decr, del, lapse, incr_answer, decr_answer, get-incr, get-decr, get-set_ex,
    get-expire, get-del, get-lapse,
  }

  unfoldable pub step : Event → Store → Store
  step (started c now) s = mark_inbound_started redis ttl c now s
  step (finished c) s = mark_inbound_finished redis ttl c s
  step (dirtied c) s = set_dirty redis ttl c s
  step (cleared c) s = clear_dirty redis ttl c s
  step (taken c) s = (take_dirty redis ttl c s).1
  step (lapsed k) s = lapse k s

  unfoldable pub run : List Event → Store → Store
  run [] s = s
  run (e ∷ es) s = run es (step e s)

-- The count of client `d` after an event, where it was `n` before it. A finish leaves 0 where nothing is
-- counted, and a counter that Redis drops starts again from 0.
abbrev count_after : String → Event → ℕ → ℕ
count_after d (started c now) n = if str_eq d c then n + 1 else n
count_after d (finished c) n = if str_eq d c then n - 1 else n
count_after d (lapsed k) n = if same_key (inflight_key d) k then 0 else n
count_after d _ n = n

abbrev count_of : String → List Event → ℕ → ℕ
count_of d [] n = n
count_of d (e ∷ es) n = count_of d es (count_after d e n)

-- How many handlers of the client started, and how many finished.
abbrev pub starts : String → List Event → ℕ
starts d [] = 0
starts d (started c now ∷ es) = if str_eq d c then 1 + starts d es else starts d es
starts d (_ ∷ es) = starts d es

abbrev finishes : String → List Event → ℕ
finishes d [] = 0
finishes d (finished c ∷ es) = if str_eq d c then 1 + finishes d es else finishes d es
finishes d (_ ∷ es) = finishes d es

-- The events can follow on `n` open handlers of the client: a handler that finishes is one of those that
-- are open, and Redis drops the client's counter only while none is.
abbrev IsOrderly : String → ℕ → List Event → Type 0
IsOrderly d n [] = Unit
IsOrderly d n (started c now ∷ es) = IsOrderly d (if str_eq d c then n + 1 else n) es
IsOrderly d n (finished c ∷ es) =
    ((str_eq d c ≡ false) ⊎ (1 ≤ n)) × IsOrderly d (if str_eq d c then n - 1 else n) es
IsOrderly d n (lapsed k ∷ es) = ((same_key (inflight_key d) k ≡ false) ⊎ (n ≡ 0)) × IsOrderly d n es
IsOrderly d n (_ ∷ es) = IsOrderly d n es
