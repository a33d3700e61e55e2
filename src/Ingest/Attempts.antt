-- ===== src/Ingest/Attempts.antt =====
-- How `withAttempts` (src/webhook/ingestRetry.ts) ends, and what it keeps.
use fiscal_mind_agent.Prelude.{
  ◌⊎◌, inl, inr, ℕ, zero, suc, ◌+◌, ◌-◌, ◌≤◌, ◌<◌, ◌≡◌, refl, List, length, max, arith,
}
use mathlib.Core.Path.{subst}
use fiscal_mind_agent.Ingest.Retry.{
  Try, resolved, rejected, AttemptsOptions, Outcome, gave, exhausted, Ran, delay_after,
  attempts_from, with_attempts, paused, end_at, go_on,
}

module _ {W T E : Type 0} (fn : ℕ → W → W × Try T E) where
  -- The attempts from `a` up to but not `b` all reject, and lead from one state to the other.
  pub data Fails (a : ℕ) (w : W) : ℕ → W → Type 0 where
    none_yet : Fails a w a w
    one_more :
        {b : ℕ} {w' w'' : W} {e : E}
        → Fails a w b w'
        → fn b w' ≡ (w'', rejected e)
        → Fails a w (suc b) w''

  Fails-first :
      (a : ℕ) (w w' : W) (e : E)
      → fn a w ≡ (w', rejected e)
      → (b : ℕ) (w'' : W) → Fails (suc a) w' b w''
      → Fails a w b w''
  Fails-first a w w' e first _ _ none_yet = one_more none_yet first
  Fails-first a w w' e first _ _ (one_more {b = c} {w' = x} p last) =
      one_more (Fails-first a w w' e first c x p) last

  -- The last attempt that ran, and the state before it: all attempts before it rejected. It resolved,
  -- or it is the last that is allowed and rejected with the error that is the cause.
  abbrev pub IsLast : (first last : ℕ) → W → W → Outcome T E → Type 0
  IsLast a b w w' (gave v n) =
      (n ≤ b) × (before : W) × Fails a w n before × (fn n before ≡ (w', resolved v))
  IsLast a b w w' (exhausted n e) =
      (n ≡ b) × (before : W) × Fails a w n before × (fn n before ≡ (w', rejected e))

  -- What a run of the loop that starts with attempt `a` is, where `b` is the last that is allowed.
  abbrev IsRun : (a b : ℕ) → W → Ran W T E → Type 0
  IsRun a b w r = IsLast a b w r.world r.outcome × (length r.pauses + a ≤ b)

  IsLast-first :
      (a b : ℕ) (w w' : W) (e : E) (r : Ran W T E)
      → fn a w ≡ (w', rejected e)
      → IsLast (suc a) b w' r.world r.outcome
      → IsLast a b w r.world r.outcome
  IsLast-first a b w w' e r first h = go r.world r.outcome h
    where
      go : (x : W) (o : Outcome T E) → IsLast (suc a) b w' x o → IsLast a b w x o
      go x (gave v n) (le, before, p, last) =
          (le, before, Fails-first a w w' e first n before p, last)
      go x (exhausted n c) (le, before, p, last) =
          (le, before, Fails-first a w w' e first n before p, last)

  paused-IsRun :
      (a b delay : ℕ) (w w' : W) (e : E) (r : Ran W T E)
      → fn a w ≡ (w', rejected e)
      → IsRun (suc a) b w' r
      → IsRun a b w (paused delay r)
  paused-IsRun a b delay w w' e r first h =
      (IsLast-first a b w w' e r first h.0, ground (arith, h.1))

  attempts_from-IsRun :
      (delays : List ℕ) (rest a b : ℕ) (w : W)
      → a + rest ≡ b
      → IsRun a b w (attempts_from fn delays rest a w)
  unfolding attempts_from
  attempts_from-IsRun delays zero a b w count = go (fn a w) refl
    where
      go : (x : W × Try T E) → fn a w ≡ x → IsRun a b w (end_at a x)
      go (w', resolved v) e = ((omega arith, w, none_yet, e), omega arith)
      go (w', rejected c) e = ((omega arith, w, none_yet, e), omega arith)
  attempts_from-IsRun delays (suc rest) a b w count =
      go (fn a w) refl (λ w'. attempts_from-IsRun delays rest (suc a) b w' (omega arith))
    where
      go :
          (x : W × Try T E)
          → fn a w ≡ x
          → ((w' : W) → IsRun (suc a) b w' (attempts_from fn delays rest (suc a) w'))
          → IsRun a b w (go_on a (delay_after delays a) x (attempts_from fn delays rest (suc a)))
      go (w', resolved v) e later = ((omega arith, w, none_yet, e), omega arith)
      go (w', rejected c) e later =
          paused-IsRun a b _ w w' c (attempts_from fn delays rest (suc a) w') e (later w')

-- The retry ends at the first attempt that resolves, with its value and number, and throws only when
-- all attempts rejected, with the last error; it runs at least one attempt and at most as many as are
-- allowed, and pauses fewer times than it may run.
pub with_attempts-IsLast :
    {W T E : Type 0} (fn : ℕ → W → W × Try T E) (opts : AttemptsOptions) (w : W)
    → IsLast fn 1
        (max 1 opts.attempts)
        w
        (with_attempts fn opts w).world
        (with_attempts fn opts w).outcome
      × (length (with_attempts fn opts w).pauses < max 1 opts.attempts)
unfolding with_attempts
with_attempts-IsLast fn opts w =
    let (last, count) =
      attempts_from-IsRun fn opts.delays_ms (max 1 opts.attempts - 1) 1 (max 1 opts.attempts) w
        (omega arith) in
    (last, omega (arith, count))

-- A first attempt that rejects is the last, or the run goes on with the second in the state it left.
module _ {W T E : Type 0} (fn : ℕ → W → W × Try T E) (w w1 : W) (e : E)
    (first : fn 1 w ≡ (w1, rejected e)) where
  abbrev pub GoesOn : ℕ → W → Outcome T E → Type 0
  GoesOn b x o = ((x ≡ w1) × (o ≡ exhausted 1 e)) ⊎ IsLast fn 2 b w1 x o

  attempts_from-GoesOn :
      (delays : List ℕ) (rest : ℕ)
      → GoesOn
          (1 + rest)
          (attempts_from fn delays rest 1 w).world
          (attempts_from fn delays rest 1 w).outcome
  unfolding attempts_from
  attempts_from-GoesOn delays zero = rw first (inl (refl, refl))
  attempts_from-GoesOn delays (suc rest) =
      rw first (inr (attempts_from-IsRun fn delays rest 2 (1 + suc rest) w1 (omega arith)).0)

  pub with_attempts-GoesOn :
      (opts : AttemptsOptions)
      → GoesOn
          (1 + (max 1 opts.attempts - 1))
          (with_attempts fn opts w).world
          (with_attempts fn opts w).outcome
  unfolding with_attempts
  with_attempts-GoesOn opts = attempts_from-GoesOn opts.delays_ms (max 1 opts.attempts - 1)

-- What every attempt keeps, attempts that reject keep, and the retry keeps.
module _ {W T E : Type 0} (P : W → Type 0) (fn : ℕ → W → W × Try T E)
    (keeps : (n : ℕ) (v : W) → P v → P (fn n v).0) where
  pub Fails-keeps : (a : ℕ) (w : W) → P w → (b : ℕ) (v : W) → Fails fn a w b v → P v
  Fails-keeps a w h _ _ none_yet = h
  Fails-keeps a w h _ _ (one_more {b = c} {w' = x} p last) =
      subst (λ r. P r.0) last (keeps c x (Fails-keeps a w h c x p))

  pub with_attempts-keeps :
      (opts : AttemptsOptions) (w : W) → P w → P (with_attempts fn opts w).world
  with_attempts-keeps opts w h =
      go (with_attempts fn opts w).world (with_attempts fn opts w).outcome
        (with_attempts-IsLast fn opts w).0
    where
      go : (x : W) (o : Outcome T E) → IsLast fn 1 (max 1 opts.attempts) w x o → P x
      go x (gave v n) (le, b, p, last) =
          subst (λ r. P r.0) last (keeps n b (Fails-keeps 1 w h n b p))
      go x (exhausted n e) (le, b, p, last) =
          subst (λ r. P r.0) last (keeps n b (Fails-keeps 1 w h n b p))
