-- ===== src/SendTime/Examples.antt =====
-- A message on a Friday before a holiday, with the theorem on it.
use fiscal_mind_agent.Prelude.{
  ◌+◌, ◌-◌, ◌/◌, ◌%◌, ◌≡◌, ◌⊎◌, refl, true, false, none, some, List, [], ◌∷◌, ◌++◌, ◌==◌,
}
use fiscal_mind_agent.Decision.Quotes.{codes}
use fiscal_mind_agent.SendTime.Guard.{
  Calendar, HistoryMessage, last_inbound_message_at, roll_blocked_send_at,
}
use fiscal_mind_agent.SendTime.Rolled.{IsKept, IsMoved, roll_blocked_send_at-cases}

-- January 1970, with a holiday on its 19th day, a Monday.
abbrev january : Calendar
january = record {
  is_chag = λ day. day == 18;
  utc_day = λ y m d. d - 1;
  iso_date = λ day. codes "1970-01-" ++ (b'0' + (day + 1) / 10) ∷ (b'0' + (day + 1) % 10) ∷ [];
}

abbrev history : List HistoryMessage
history =
    record { is_inbound = true; sent_at = some 5; created_at = 9 }
    ∷ record { is_inbound = false; sent_at = some 20; created_at = 20 }
    ∷ []

friday :
    (roll_blocked_send_at january " 1970-01-16 09:30" (last_inbound_message_at history) 90000000
      ≡ record { send_at = codes "1970-01-20 09:30"; rolled = true })
    × (roll_blocked_send_at january "1970-01-16 09:30" (last_inbound_message_at history) 100
        ≡ record { send_at = codes "1970-01-16 09:30"; rolled = false })
unfolding roll_blocked_send_at last_inbound_message_at
friday = (refl, refl)

roll_blocked_send_at-cases_example :
    IsKept january "1970-01-16 09:30" none 100
      (roll_blocked_send_at january "1970-01-16 09:30" none 100)
    ⊎ IsMoved january "1970-01-16 09:30" none 100
        (roll_blocked_send_at january "1970-01-16 09:30" none 100)
roll_blocked_send_at-cases_example = roll_blocked_send_at-cases january "1970-01-16 09:30" none 100
