-- ===== src/Turn/Flag.antt =====
-- The dirty flag of the turn store: an inbound arrived while the planner was running.
use fiscal_mind_agent.Prelude.{
  ℕ, eq_iff, eq_refl, ◌≡◌, refl, ◌∙◌, ap, Bool, true, false, String, List, [], ◌∷◌, is_some, str_eq,
  arith, if◌then◌else◌,
}
use fiscal_mind_agent.Prelude.Int.{pos}
use fiscal_mind_agent.Turn.Store.{
  inflight_key, last_key, dirty_key, same_key, TurnRedis, mark_inbound_started,
  mark_inbound_finished, set_dirty, clear_dirty, take_dirty,
}
use fiscal_mind_agent.Turn.Counting.{
  Event, started, finished, dirtied, cleared, taken, lapsed, step, run,
}

-- Whether the flag of client `d` stands after an event, where it stood as `b` says before it.
abbrev flag_after : String → Event → Bool → Bool
flag_after d (dirtied c) b = if str_eq d c then true else b
flag_after d (cleared c) b = if str_eq d c then false else b
flag_after d (taken c) b = if str_eq d c then false else b
flag_after d (lapsed k) b = if same_key (dirty_key d) k then false else b
flag_after d _ b = b

abbrev pub flag : String → List Event → Bool → Bool
flag d [] b = b
flag d (e ∷ es) b = flag d es (flag_after d e b)

module _ (redis : TurnRedis) (ttl : ℕ) where
  open redis use {Store, get, decr, get-incr, get-decr, get-set_ex, get-expire, get-del, get-lapse}

  get_dirty-started :
      (c d : String) (now : ℕ) (s : Store)
      → get (dirty_key d) (mark_inbound_started redis ttl c now s) ≡ get (dirty_key d) s
  unfolding mark_inbound_started
  get_dirty-started c d now s =
      get-set_ex (dirty_key d) (last_key c) (pos now) ttl _
      ∙ get-expire (dirty_key d) (inflight_key c) ttl _
      ∙ get-incr (dirty_key d) (inflight_key c) s

  get_dirty-finished :
      (c d : String) (s : Store)
      → get (dirty_key d) (mark_inbound_finished redis ttl c s) ≡ get (dirty_key d) s
  unfolding mark_inbound_finished
  get_dirty-finished c d s = ground (
    arith,
    get-decr (dirty_key d) (inflight_key c) s,
    get-del (dirty_key d) (inflight_key c) (decr (inflight_key c) s).1,
  )

  get_dirty-taken :
      (c d : String) (s : Store)
      → is_some (get (dirty_key d) (take_dirty redis ttl c s).1)
        ≡ (if str_eq d c then false else is_some (get (dirty_key d) s))
  unfolding take_dirty
  get_dirty-taken c d s = ground (arith, get-del (dirty_key d) (dirty_key c) s, eq_iff d c)

  step-flag :
      (d : String) (e : Event) (s : Store)
      → is_some (get (dirty_key d) (step redis ttl e s))
        ≡ flag_after d e (is_some (get (dirty_key d) s))
  unfolding step set_dirty clear_dirty
  step-flag d (started c now) s = ap is_some (get_dirty-started c d now s)
  step-flag d (finished c) s = ap is_some (get_dirty-finished c d s)
  step-flag d (dirtied c) s = ground (arith, get-set_ex (dirty_key d) (dirty_key c) (pos 1) ttl s)
  step-flag d (cleared c) s = ground (arith, get-del (dirty_key d) (dirty_key c) s)
  step-flag d (taken c) s = get_dirty-taken c d s
  step-flag d (lapsed k) s = ground (arith, get-lapse (dirty_key d) k s)

  run-flag :
      (d : String) (es : List Event) (s : Store)
      → is_some (get (dirty_key d) (run redis ttl es s)) ≡ flag d es (is_some (get (dirty_key d) s))
  unfolding run
  run-flag d [] s = refl
  run-flag d (e ∷ es) s = run-flag d es (step redis ttl e s) ∙ ap (flag d es) (step-flag d e s)

  take_dirty-answer :
      (d : String) (s : Store) → (take_dirty redis ttl d s).0 ≡ is_some (get (dirty_key d) s)
  unfolding take_dirty
  take_dirty-answer d s = refl

  -- After any events, `takeDirty` answers whether the client's flag was set and not cleared, taken
  -- or lapsed since, and a second `takeDirty` answers false.
  pub take_dirty-run :
      (d : String) (es : List Event) (s : Store)
      → let s' = run redis ttl es s in
        ((take_dirty redis ttl d s').0 ≡ flag d es (is_some (get (dirty_key d) s)))
        × ((take_dirty redis ttl d (take_dirty redis ttl d s').1).0 ≡ false)
  take_dirty-run d es s = (
    take_dirty-answer d (run redis ttl es s) ∙ run-flag d es s,
    take_dirty-answer d _ ∙ get_dirty-taken d d (run redis ttl es s) ∙ rw (eq_refl d) refl,
  )
