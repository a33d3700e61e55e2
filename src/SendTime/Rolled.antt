-- ===== src/SendTime/Rolled.antt =====
-- Which day a message is rolled to (`rollBlockedSendAt` of src/agents/shared/sendAtGuard.ts).
use mathlib.Core.Path.{subst}
use fiscal_mind_agent.Prelude.{
  ℕ, zero, suc, ◌+◌, ◌≤◌, ◌<◌, ◌≡◌, ◌⊎◌, inl, inr, refl, sym, Bool, true, false, String, Option,
  List, ◌++◌, Bool-cases, arith, if-cases,
}
use fiscal_mind_agent.Decision.Quotes.{codes, trim, is_wall_clock}
use fiscal_mind_agent.SendTime.Guard.{
  Calendar, is_blocked_day, is_active, steps_over, drop, day_of, Rolled, moved,
  roll_blocked_send_at,
}

-- The first day from a day on that is not blocked, or the one after so many blocked days.
abbrev IsFirst : (ℕ → Bool) → (left day steps : ℕ) → Type 0
IsFirst blocked left day steps =
    (steps ≤ left)
    × ((j : ℕ) → j < steps → blocked (day + j) ≡ true)
    × (steps < left → blocked (day + steps) ≡ false)

at_start : (blocked : ℕ → Bool) (day n : ℕ) (b : Bool) → blocked day ≡ b → n ≡ day → blocked n ≡ b
at_start blocked day n b h e = subst (λ m. blocked m ≡ b) (sym e) h

one_more :
    (blocked : ℕ → Bool) (left day steps : ℕ)
    → blocked day ≡ true
    → IsFirst blocked left (suc day) steps
    → IsFirst blocked (suc left) day (suc steps)
one_more blocked left day steps now (few, before, then_) = (
  omega arith,
  λ j h. earlier j h,
  λ h.
      at_start blocked (suc day + steps) (day + suc steps) false (then_ (omega arith))
        (omega arith),
)
  where
    earlier : (j : ℕ) → j < suc steps → blocked (day + j) ≡ true
    earlier zero h = at_start blocked day (day + 0) true now (omega arith)
    earlier (suc j) h =
        at_start blocked (suc day + j) (day + suc j) true (before j (omega arith)) (omega arith)

steps_over-IsFirst :
    (blocked : ℕ → Bool) (left day : ℕ) → IsFirst blocked left day (steps_over blocked left day)
unfolding steps_over
steps_over-IsFirst blocked zero day =
    (omega arith, λ j h. absurd (omega (arith, h)), λ h. absurd (omega (arith, h)))
steps_over-IsFirst blocked (suc left) day = elim (Bool-cases (blocked day)) [
  | inl now ↦ rw now (
      one_more blocked left day (steps_over blocked left (suc day)) now
        (steps_over-IsFirst blocked left (suc day)))
  | inr open_day ↦ rw open_day (
    omega arith,
    λ j h. absurd (omega (arith, h)),
    λ h. at_start blocked day (day + 0) false open_day (omega arith),
  )
]

module _ (cal : Calendar) (send_at : String) (last_inbound : Option ℕ) (now : ℕ) where
  abbrev cs : List ℕ
  cs = codes (trim send_at)

  -- The send time stays: the client wrote within the last day, or it is no date and time, or its day is
  -- not blocked.
  abbrev pub IsKept : Rolled → Type 0
  IsKept r =
      (r ≡ record { send_at = codes send_at; rolled = false })
      × ((is_active last_inbound now ≡ true)
          ⊎ (is_wall_clock cs ≡ false)
          ⊎ (is_blocked_day cal (day_of cal cs) ≡ false))

  -- It moves to the first day after its own that is not blocked, of the fourteen that are tried, at the
  -- same time of the day.
  abbrev pub IsMoved : Rolled → Type 0
  IsMoved r =
      (is_active last_inbound now ≡ false)
      × (is_wall_clock cs ≡ true)
      × (steps : ℕ) × (0 < steps)
      × IsFirst (is_blocked_day cal) 14 (day_of cal cs) steps
      × (r ≡ record { send_at = cal.iso_date (day_of cal cs + steps) ++ drop 10 cs; rolled = true })

  moved-cases :
      (steps : ℕ)
      → is_active last_inbound now ≡ false
      → is_wall_clock cs ≡ true
      → IsFirst (is_blocked_day cal) 14 (day_of cal cs) steps
      → IsKept (moved cal (codes send_at) cs (day_of cal cs) steps)
        ⊎ IsMoved (moved cal (codes send_at) cs (day_of cal cs) steps)
  moved-cases zero idle clock (few, before, open_day) = inl (
    refl,
    inr (
        inr (
          at_start (is_blocked_day cal) (day_of cal cs + 0) (day_of cal cs) false
            (open_day (omega arith)) (omega arith))),
  )
  moved-cases (suc n) idle clock first = inr (idle, clock, suc n, omega arith, first, refl)

  -- A message that the client's own writing does not call for never keeps a blocked day: its time moves to
  -- the first day that is not a Friday, a Saturday, a holiday or the eve of one, at the same hour, or to
  -- the fifteenth day where fourteen in a row are blocked. Every other send time stays as it is given.
  pub roll_blocked_send_at-cases :
      IsKept (roll_blocked_send_at cal send_at last_inbound now)
      ⊎ IsMoved (roll_blocked_send_at cal send_at last_inbound now)
  unfolding roll_blocked_send_at
  roll_blocked_send_at-cases =
      if-cases {A = Rolled} (λ r. IsKept r ⊎ IsMoved r) (is_active last_inbound now)
        (λ active. inl (refl, inl active))
        (λ idle.
          if-cases {A = Rolled} (λ r. IsKept r ⊎ IsMoved r) (is_wall_clock cs)
            (λ clock.
              moved-cases (steps_over (is_blocked_day cal) 14 (day_of cal cs)) idle clock
                (steps_over-IsFirst (is_blocked_day cal) 14 (day_of cal cs)))
            (λ other. inl (refl, inr (inl other))))
