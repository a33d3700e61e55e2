-- ===== src/Turn/Rules.antt =====
-- src/orchestration/inboundTurnRules.ts: `isTurnSettled` and `decideReplan`. Times are ms; a
-- difference of two times is tested as a sum, since `-` on ℕ stops at 0.
use fiscal_mind_agent.Prelude.{
  ℕ, ◌+◌, ◌≤◌, ◌<◌, ◌≡◌, refl, Bool, true, false, Option, none, some, arith, ltb, leb,
  if◌then◌else◌, Bool-cases, inl, inr,
}

pub record TurnState : Type 0 where
  pub inflight : ℕ
  pub last_inbound_at : Option ℕ
  pub pending_files : ℕ

-- `lastInboundAt !== null && now - lastInboundAt < quietMs`
abbrev is_fresh : Option ℕ → ℕ → ℕ → Bool
is_fresh none now quiet_ms = false
is_fresh (some at) now quiet_ms = ltb now (at + quiet_ms)

unfoldable is_turn_settled : TurnState → ℕ → ℕ → Bool
is_turn_settled state now quiet_ms =
    if ltb 0 state.inflight
    then false
    else if ltb 0 state.pending_files
    then false
    else if is_fresh state.last_inbound_at now quiet_ms
    then false
    else true

pub data ReplanDecision : Type 0 where
  plan wait force : ReplanDecision

pub record Limits : Type 0 where
  pub quiet_ms : ℕ
  pub max_wait_ms : ℕ

unfoldable pub decide_replan : TurnState → ℕ → ℕ → Limits → ReplanDecision
unfolding is_turn_settled
decide_replan state turn_started_at now limits =
    if is_turn_settled state now limits.quiet_ms
    then plan
    else if leb (turn_started_at + limits.max_wait_ms) now
    then force
    else wait

-- Nothing of the client is being processed, and the client has been quiet for the whole window.
abbrev IsQuiet : TurnState → ℕ → ℕ → Type 0
IsQuiet s now quiet_ms =
    (s.inflight ≡ 0)
    × (s.pending_files ≡ 0)
    × ((at : ℕ) → s.last_inbound_at ≡ some at → at + quiet_ms ≤ now)

fresh-late :
    (o : Option ℕ) (now quiet_ms at : ℕ)
    → is_fresh o now quiet_ms ≡ false
    → o ≡ some at
    → at + quiet_ms ≤ now
fresh-late o now quiet_ms at h e = ground arith

late-fresh :
    (o : Option ℕ) (now quiet_ms : ℕ)
    → ((at : ℕ) → o ≡ some at → at + quiet_ms ≤ now)
    → is_fresh o now quiet_ms ≡ false
late-fresh none now quiet_ms h = refl
late-fresh (some at) now quiet_ms h = ground (arith, h at refl)

settled-IsQuiet :
    (s : TurnState) (now quiet_ms : ℕ)
    → is_turn_settled s now quiet_ms ≡ true
    → IsQuiet s now quiet_ms
unfolding is_turn_settled
settled-IsQuiet s now quiet_ms h =
    (ground arith, ground arith, λ at. fresh-late s.last_inbound_at now quiet_ms at (ground arith))

IsQuiet-settled :
    (s : TurnState) (now quiet_ms : ℕ)
    → IsQuiet s now quiet_ms
    → is_turn_settled s now quiet_ms ≡ true
unfolding is_turn_settled
IsQuiet-settled s now quiet_ms h =
    ground (arith, h.0, h.1, late-fresh s.last_inbound_at now quiet_ms h.2)

-- What each decision says of the turn.
abbrev pub Warrants : TurnState → ℕ → ℕ → Limits → ReplanDecision → Type 0
Warrants s started now limits plan = IsQuiet s now limits.quiet_ms
Warrants s started now limits force =
    (¬ IsQuiet s now limits.quiet_ms) × (started + limits.max_wait_ms ≤ now)
Warrants s started now limits wait =
    (¬ IsQuiet s now limits.quiet_ms) × (now < started + limits.max_wait_ms)

-- The deferred run plans when the turn is quiet: nothing in flight, no file pending, and no inbound
-- within the quiet window. Otherwise it waits before the turn's maximum wait is over and is forced
-- from then on; so it never waits once the maximum is reached.
pub decide_replan-Warrants :
    (s : TurnState) (started now : ℕ) (limits : Limits)
    → Warrants s started now limits (decide_replan s started now limits)
unfolding decide_replan
decide_replan-Warrants s started now limits =
    elim (Bool-cases (is_turn_settled s now limits.quiet_ms)) [
      | inl settled ↦ rw (settled, decide_replan) (settled-IsQuiet s now limits.quiet_ms settled)
      | inr busy ↦
          let unquiet : ¬ IsQuiet s now limits.quiet_ms =
            λ q. ground (arith, IsQuiet-settled s now limits.quiet_ms q) in
          elim (Bool-cases (leb (started + limits.max_wait_ms) now)) [
            | inl late ↦ rw (busy, decide_replan) (rw late (unquiet, ground arith))
            | inr early ↦ rw (busy, decide_replan) (rw early (unquiet, ground arith))
          ]
    ]
