-- ===== src/SendTime/Guard.antt =====
-- `rollBlockedSendAt` and `lastInboundMessageAt` of src/agents/shared/sendAtGuard.ts, with `chagLabel` of
-- jewishHolidays.ts. A day is the number of days since the epoch, a text the list of its code points;
-- the calendar of holidays (@hebcal/core) and the conversions of Date are arguments.
use fiscal_mind_agent.Prelude.{
  ℕ, zero, suc, ◌+◌, ◌-◌, ◌*◌, ◌%◌, Bool, true, false, ◌||◌, String, Option, none, some, List, [],
  ◌∷◌, ◌++◌, take, leb, ◌==◌, or_else, if◌then◌else◌,
}
use fiscal_mind_agent.Decision.Quotes.{codes, trim, is_wall_clock}

pub record Calendar : Type 0 where
  -- a day that an event with the flag CHAG falls on
  pub is_chag : ℕ → Bool
  -- `Date.UTC(y, m - 1, d)` in days, and `isoFromUtcMs`
  pub utc_day : (year month day : ℕ) → ℕ
  pub iso_date : ℕ → List ℕ

-- `chagLabel(...) !== null`: a chag or the day before one
abbrev has_label : Calendar → ℕ → Bool
has_label cal day = cal.is_chag day || cal.is_chag (suc day)

-- `getUTCDay`; the epoch was a Thursday.
abbrev weekday : ℕ → ℕ
weekday day = (day + 4) % 7

-- `isBlockedDay`
unfoldable pub is_blocked_day : Calendar → ℕ → Bool
is_blocked_day cal day = weekday day == 5 || weekday day == 6 || has_label cal day

-- `ACTIVE_CONVERSATION_MS`
abbrev active_conversation_ms : ℕ
active_conversation_ms = 24 * 3600000

abbrev pub is_active : Option ℕ → ℕ → Bool
is_active none now = false
is_active (some last) now = leb (now - last) active_conversation_ms

-- The loop: how many days are stepped over, of at most `left`.
unfoldable pub steps_over : (ℕ → Bool) → (left day : ℕ) → ℕ
steps_over blocked zero day = 0
steps_over blocked (suc left) day =
    let more = steps_over blocked left (suc day) in if blocked day then suc more else 0

abbrev pub drop : ℕ → List ℕ → List ℕ
drop zero cs = cs
drop (suc n) [] = []
drop (suc n) (c ∷ cs) = drop n cs

-- `Number(...)` of a text of digits
abbrev pub number : ℕ → List ℕ → ℕ
number n [] = n
number n (c ∷ cs) = number (n * 10 + (c - b'0')) cs

abbrev pub day_of : Calendar → List ℕ → ℕ
day_of cal cs =
    cal.utc_day (number 0 (take 4 cs)) (number 0 (take 2 (drop 5 cs)))
      (number 0 (take 2 (drop 8 cs)))

pub record Rolled : Type 0 where
  pub send_at : List ℕ
  pub rolled : Bool

-- Where the loop took a step, the date of the day that it came to, with the time as it was.
abbrev pub moved : Calendar → List ℕ → (cs : List ℕ) → (day steps : ℕ) → Rolled
moved cal given cs day zero = record { send_at = given; rolled = false }
moved cal given cs day (suc n) = record {
  send_at = cal.iso_date (day + suc n) ++ drop 10 cs;
  rolled = true;
}

-- `rollBlockedSendAt`
unfoldable pub roll_blocked_send_at : Calendar → String → Option ℕ → ℕ → Rolled
unfolding is_blocked_day steps_over trim
roll_blocked_send_at cal send_at last_inbound now =
    let cs = codes (trim send_at) in
    if is_active last_inbound now
    then record { send_at = codes send_at; rolled = false }
    else if is_wall_clock cs
    then moved cal (codes send_at) cs (day_of cal cs)
        (steps_over (is_blocked_day cal) 14 (day_of cal cs))
    else record { send_at = codes send_at; rolled = false }

-- One message of the history, oldest first.
pub record HistoryMessage : Type 0 where
  pub is_inbound : Bool
  pub sent_at : Option ℕ
  pub created_at : ℕ

-- `lastInboundMessageAt`
unfoldable pub last_inbound_message_at : List HistoryMessage → Option ℕ
last_inbound_message_at [] = none
last_inbound_message_at (m ∷ ms) =
    let later = last_inbound_message_at ms in
    elim later [
      | some t ↦ some t
      | none ↦ if m.is_inbound then some (or_else m.sent_at m.created_at) else none
    ]
