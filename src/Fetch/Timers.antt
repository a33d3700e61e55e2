-- ===== src/Fetch/Timers.antt =====
-- The timers of the tracked sessions, through any operations of the tracker.
use mathlib.Core.Path.{subst}
use mathlib.Core.Option.{some-injective}
use fiscal_mind_agent.Prelude.{
  ℕ, suc, ◌≤◌, ◌<◌, ◌≡◌, inl, inr, refl, sym, ap, ◌∙◌, Bool, true, false, ◌||◌, String, none, some,
  List, [], ◌∷◌, ◌++◌, find, keep, map, any, eq_iff, ◌==◌, Bool-cases, Option-cases, arith,
}
use fiscal_mind_agent.Fetch.Tracker.{
  Session, TrackedSession, Timer, Tracker, is_session, clear_timer, delete_session, take_session,
  put,
}

abbrev timer_of : TrackedSession → Timer
timer_of s = record { timer = s.timer; session_id = s.session.session_id }

abbrev has_timer : ℕ → List TrackedSession → Bool
has_timer k sessions = any (λ s. s.timer == k) sessions

-- No session id and no timer stands twice, and every timer is below the bound.
abbrev AreApart : ℕ → List TrackedSession → Type 0
AreApart next [] = Unit
AreApart next (s ∷ ss) =
    (any (is_session s.session.session_id) ss ≡ false)
    × (has_timer s.timer ss ≡ false)
    × (s.timer < next)
    × AreApart next ss

-- The armed timers are the timers of the tracked sessions, one for each.
abbrev pub IsArmed : Tracker → Type 0
IsArmed t = (t.armed ≡ map timer_of t.sessions) × AreApart t.next_timer t.sessions

keep-other :
    (id : String) (ss : List TrackedSession)
    → any (is_session id) ss ≡ false
    → delete_session id ss ≡ ss
keep-other id [] h = refl
keep-other id (s ∷ ss) h = ground (arith, ap (λ l. s ∷ l) (keep-other id ss (ground arith)))

clear-other :
    (k : ℕ) (ss : List TrackedSession)
    → has_timer k ss ≡ false
    → clear_timer k (map timer_of ss) ≡ map timer_of ss
clear-other k [] h = refl
clear-other k (s ∷ ss) h = ground (arith, clear-other k ss (ground arith))

find-has_timer :
    (id : String) (ss : List TrackedSession) (s : TrackedSession)
    → find (is_session id) ss ≡ some s
    → has_timer s.timer ss ≡ true
find-has_timer id [] s h = ground arith
find-has_timer id (r ∷ ss) s h = elim (Bool-cases (is_session id r)) [
  | inl hit ↦
      subst (λ x. has_timer x.timer (r ∷ ss) ≡ true) (some-injective _ _ (rw (hit, find) at h))
        (ground arith)
  | inr miss ↦ ground (arith, find-has_timer id ss s (rw (miss, find) at h))
]

apart_timers :
    (j k : ℕ) (ss : List TrackedSession)
    → has_timer j ss ≡ false
    → has_timer k ss ≡ true
    → (j == k) ≡ false
apart_timers j k [] h g = ground arith
apart_timers j k (s ∷ ss) h g = elim (Bool-cases (has_timer k ss)) [
  | inl later ↦ apart_timers j k ss (ground arith) later
  | inr none_later ↦ ground arith
]

same_session :
    (id : String) (r : TrackedSession) (ss : List TrackedSession)
    → is_session id r ≡ true
    → any (is_session r.session.session_id) ss ≡ false
    → any (is_session id) ss ≡ false
same_session id r ss hit h =
    subst (λ i. any (is_session i) ss ≡ false) ((eq_iff r.session.session_id id).0 hit) h

-- Taking the session that is found clears its own timer and no other.
clear-delete :
    (next : ℕ) (id : String) (ss : List TrackedSession) (s : TrackedSession)
    → AreApart next ss
    → find (is_session id) ss ≡ some s
    → clear_timer s.timer (map timer_of ss) ≡ map timer_of (delete_session id ss)
clear-delete next id [] s apart h = ground arith
clear-delete next id (r ∷ ss) s apart h = elim (Bool-cases (is_session id r)) [
  | inl hit ↦
      let other = same_session id r ss hit apart.0 in
      let same = some-injective _ _ (rw (hit, find) at h) in
      subst
        (λ x.
          clear_timer x.timer (map timer_of (r ∷ ss)) ≡ map timer_of (delete_session id (r ∷ ss)))
        same (first r hit other)
  | inr miss ↦
      let found = rw (miss, find) at h in
      let later = clear-delete next id ss s apart.3 found in
      let differ = apart_timers r.timer s.timer ss apart.1 (find-has_timer id ss s found) in
      rw (miss, differ) (ap (λ l. timer_of r ∷ l) later)
]
  where
    first :
        (x : TrackedSession)
        → is_session id r ≡ true
        → any (is_session id) ss ≡ false
        → clear_timer r.timer (map timer_of (r ∷ ss)) ≡ map timer_of (delete_session id (r ∷ ss))
    first x hit other =
        rw (hit, keep-other id ss other) (ground (arith, clear-other r.timer ss apart.1))

AreApart-weaken : (n m : ℕ) (ss : List TrackedSession) → n ≤ m → AreApart n ss → AreApart m ss
AreApart-weaken n m [] le h = tt
AreApart-weaken n m (s ∷ ss) le (a, b, c, d) = (a, b, omega arith, AreApart-weaken n m ss le d)

any-keep :
    (p q : TrackedSession → Bool) (ss : List TrackedSession)
    → any p ss ≡ false
    → any p (keep q ss) ≡ false
any-keep p q [] h = refl
any-keep p q (s ∷ ss) h = ground (arith, any-keep p q ss (ground arith))

AreApart-keep :
    (n : ℕ) (q : TrackedSession → Bool) (ss : List TrackedSession)
    → AreApart n ss
    → AreApart n (keep q ss)
AreApart-keep n q [] h = tt
AreApart-keep n q (s ∷ ss) (a, b, c, d) = elim (Bool-cases (q s)) [
  | inl stays ↦ rw stays (any-keep _ q ss a, any-keep _ q ss b, c, AreApart-keep n q ss d)
  | inr goes ↦ rw goes (AreApart-keep n q ss d)
]

any-append :
    (p : TrackedSession → Bool) (xs ys : List TrackedSession)
    → any p (xs ++ ys) ≡ (any p xs || any p ys)
any-append p [] ys = refl
any-append p (x ∷ xs) ys = ground (arith, any-append p xs ys)

map-append :
    (xs ys : List TrackedSession) → map timer_of (xs ++ ys) ≡ map timer_of xs ++ map timer_of ys
map-append [] ys = refl
map-append (x ∷ xs) ys = ap (λ l. timer_of x ∷ l) (map-append xs ys)

AreApart-append :
    (n : ℕ) (ss : List TrackedSession) (s : Session)
    → AreApart n ss
    → any (is_session s.session_id) ss ≡ false
    → AreApart (suc n) (ss ++ record { session = s; timer = n } ∷ [])
AreApart-append n [] s h new = (refl, refl, omega arith, tt)
AreApart-append n (r ∷ ss) s (a, b, c, d) new = (
  ground (
    arith,
    any-append (is_session r.session.session_id) ss (record { session = s; timer = n } ∷ []),
    eq_iff s.session_id r.session.session_id,
    eq_iff r.session.session_id s.session_id,
  ),
  ground (arith, any-append (λ x. x.timer == r.timer) ss (record { session = s; timer = n } ∷ [])),
  omega arith,
  AreApart-append n ss s d (ground arith),
)

deleted :
    (id : String) (ss : List TrackedSession) → any (is_session id) (delete_session id ss) ≡ false
deleted id [] = refl
deleted id (s ∷ ss) = ground (arith, deleted id ss)

not_found :
    (id : String) (ss : List TrackedSession)
    → find (is_session id) ss ≡ none
    → any (is_session id) ss ≡ false
not_found id [] h = refl
not_found id (s ∷ ss) h = ground (arith, not_found id ss (ground arith))

-- A session that is taken is gone, with its timer.
abbrev IsTaken : String → Tracker → Type 0
IsTaken id t = IsArmed t × (any (is_session id) t.sessions ≡ false)

pub take_session-IsTaken :
    (id : String) (t : Tracker) → IsArmed t → IsTaken id (take_session id t).0
unfolding take_session
take_session-IsTaken id t h = elim (Option-cases (find (is_session id) t.sessions)) [
  | inl missing ↦ rw missing (h, not_found id t.sessions missing)
  | inr (s, found) ↦ rw found (
    (
      rw h.0 (clear-delete t.next_timer id t.sessions s h.1 found),
      AreApart-keep t.next_timer _ t.sessions h.1,
    ),
    deleted id t.sessions,
  )
]

pub put-IsArmed : (s : Session) (t : Tracker) → IsArmed t → IsArmed (put s t)
unfolding put
put-IsArmed s t h =
    let ((armed, apart), new) = take_session-IsTaken s.session_id t h in
    (
      ap
            (λ l.
              l
              ++ record {
                timer = (take_session s.session_id t).0.next_timer;
                session_id = s.session_id;
              }
                ∷ [])
            armed
          ∙ sym (map-append (take_session s.session_id t).0.sessions _),
      AreApart-append _ _ s apart new,
    )
