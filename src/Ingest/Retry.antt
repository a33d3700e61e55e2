-- ===== src/Ingest/Retry.antt =====
-- `withAttempts` of src/webhook/ingestRetry.ts. What the retried function does to the outside is a state
-- that it takes and returns; the pauses are the calls of `sleep`.
use fiscal_mind_agent.Prelude.{
  ℕ, zero, suc, ◌-◌, min, max, Option, none, some, List, [], ◌∷◌, length, ltb, or_else,
  if◌then◌else◌,
}

pub data Try (T E : Type 0) : Type 0 where
  resolved : T → Try T E
  rejected : E → Try T E

pub record AttemptsOptions : Type 0 where
  pub attempts : ℕ
  pub delays_ms : List ℕ

-- The value and the attempt that gave it, or `AttemptsExhaustedError`.
pub data Outcome (T E : Type 0) : Type 0 where
  gave : T → (attempts : ℕ) → Outcome T E
  exhausted : (attempts : ℕ) → (cause : E) → Outcome T E

pub record Ran (W T E : Type 0) : Type 0 where
  pub world : W
  pub pauses : List ℕ
  pub outcome : Outcome T E

abbrev pub ingest_attempts : AttemptsOptions
ingest_attempts = record { attempts = 3; delays_ms = 2000 ∷ 8000 ∷ [] }

-- `xs[i]`
abbrev get_elem? : List ℕ → ℕ → Option ℕ
get_elem? [] i = none
get_elem? (x ∷ xs) zero = some x
get_elem? (x ∷ xs) (suc i) = get_elem? xs i

-- Without entries the index is -1 in the source, and 0 here: there is none at either.
unfoldable pub delay_after : List ℕ → ℕ → ℕ
delay_after delays attempt = or_else (get_elem? delays (min (attempt - 1) (length delays - 1))) 0

abbrev pause : ℕ → List ℕ → List ℕ
pause delay pauses = if ltb 0 delay then delay ∷ pauses else pauses

-- `Math.max(1, Math.floor(opts.attempts))`
abbrev total_attempts : AttemptsOptions → ℕ
total_attempts opts = max 1 opts.attempts

abbrev pub paused : {W T E : Type 0} → ℕ → Ran W T E → Ran W T E
paused delay r = record r { pauses = pause delay r.pauses }

-- The last attempt: what it rejects with is thrown.
abbrev pub end_at : {W T E : Type 0} → ℕ → W × Try T E → Ran W T E
end_at attempt (w, resolved v) = record { world = w; pauses = []; outcome = gave v attempt }
end_at attempt (w, rejected e) = record { world = w; pauses = []; outcome = exhausted attempt e }

-- An attempt with others after it.
abbrev pub go_on : {W T E : Type 0} → ℕ → ℕ → W × Try T E → (W → Ran W T E) → Ran W T E
go_on attempt delay (w, resolved v) later = record {
  world = w;
  pauses = [];
  outcome = gave v attempt;
}
go_on attempt delay (w, rejected e) later = paused delay (later w)

module _ {W T E : Type 0} (fn : ℕ → W → W × Try T E) (delays : List ℕ) where
  -- The loop from `attempt` on, with `rest` attempts after it.
  unfoldable pub attempts_from : (rest attempt : ℕ) → W → Ran W T E
  unfolding delay_after
  attempts_from zero attempt w = end_at attempt (fn attempt w)
  attempts_from (suc rest) attempt w =
      go_on attempt (delay_after delays attempt) (fn attempt w) (attempts_from rest (suc attempt))

unfoldable pub with_attempts :
    {W T E : Type 0} → (ℕ → W → W × Try T E) → AttemptsOptions → W → Ran W T E
unfolding attempts_from
with_attempts fn opts w = attempts_from fn opts.delays_ms (total_attempts opts - 1) 1 w
