-- ===== src/Budget/Refused.antt =====
-- The calls after the ceiling is reached (`assertWithinBudget` of src/gemini/budget.ts).
use mathlib.Core.Path.{subst}
use fiscal_mind_agent.Prelude.{
  ℕ, ◌+◌, ◌-◌, ◌≤◌, ◌<◌, ◌≡◌, refl, sym, ◌∙◌, true, not, ◌&&◌, String, Option, none, some, is_some,
  List, [], ◌∷◌, ◌⊎◌, All, ltb, leb, arith, if-cases,
}
use fiscal_mind_agent.Budget.Cache.{
  Cached, BudgetWorld, cache_ttl_ms, spent_of, is_fresh, covers, with_spent, load_cache, platform,
  exceeded, assert_within_budget, BudgetEvent, call_checked, cost_noted, run,
}
use fiscal_mind_agent.Budget.Window.{IsInTime, noted, run-Grown}

-- The database answers what an instance has spent, where it is asked.
abbrev pub Answers : Option String → BudgetWorld → Type 0
Answers none w = Unit
Answers (some i) w = is_some (w.spent_by i) ≡ true

answered :
    (i : String) (o : Option ℕ) (c : Cached)
    → is_some o ≡ true
    → (c' : Cached) × (with_spent i o c ≡ some c')
      × (c'.platform_daily ≡ c.platform_daily)
      × (c'.platform_spent ≡ c.platform_spent)
answered i none c h = absurd (cc h)
answered i (some n) c h = (_, refl, refl, refl)

-- A load in time, of which no query throws, keeps the platform's counter and ceiling.
abbrev Loads : Cached → Option Cached → Type 0
Loads c o =
    (c' : Cached) × (o ≡ some c')
    × (c'.platform_daily ≡ c.platform_daily)
    × (c'.platform_spent ≡ c.platform_spent)

loaded :
    (i : Option String) (w : BudgetWorld) (c : Cached)
    → is_fresh w.now c ≡ true
    → Answers i w
    → Loads c (load_cache i w (some c))
unfolding load_cache
loaded none w c fresh answers = rw fresh (c, refl, refl, refl)
loaded (some i) w c fresh answers = rw fresh (
    if-cases {A = Option Cached} (Loads c) (covers (some i) c) (λ h. (c, refl, refl, refl))
      (λ h.
        if-cases {A = Option Cached} (Loads c)
          (ltb 0 c.instance_daily && not (is_some (spent_of i c.instance_spent)))
          (λ k. answered i (w.spent_by i) c answers) (λ k. (c, refl, refl, refl))))

reached : (daily spent : ℕ) → 0 < daily → daily ≤ spent → (ltb 0 daily && leb daily spent) ≡ true
reached daily spent h k = ground arith

-- While a cache lasts, a check that needs no query: it is for no instance, for one that the cache knows,
-- or instances have no ceiling. Then `loadCache` does not wait, and nothing comes between its parts.
abbrev IsAtOnce : Cached → BudgetEvent → Type 0
IsAtOnce c (call_checked i w) =
    (is_fresh w.now c ≡ true) × ((covers i c ≡ true) ⊎ (c.instance_daily ≡ 0))
IsAtOnce c (cost_noted i cost) = Unit

IsAtOnce-IsInTime : (c : Cached) (es : List BudgetEvent) → All (IsAtOnce c) es → All (IsInTime c) es
IsAtOnce-IsInTime c [] h = tt
IsAtOnce-IsInTime c (call_checked i w ∷ es) h = (h.0.0, IsAtOnce-IsInTime c es h.1)
IsAtOnce-IsInTime c (cost_noted i cost ∷ es) h = (tt, IsAtOnce-IsInTime c es h.1)

-- Once the costs that were noted while a cache lasts bring the platform to its ceiling, a later check of
-- that time refuses its call and says what was spent, whatever the checks and notes before it. The
-- checks before it are taken to need no query of the database, and none waits for one that began
-- earlier, so that no load overwrites a cost; and where the last check asks for an instance that is new
-- to the cache, its query does not throw and nothing else happens while it waits.
pub run-refuses :
    (es : List BudgetEvent) (c : Cached) (i : Option String) (w : BudgetWorld)
    → All (IsAtOnce c) es
    → is_fresh w.now c ≡ true
    → Answers i w
    → 0 < c.platform_daily
    → c.platform_daily ≤ c.platform_spent + noted es
    → (assert_within_budget i w (run es (some c))).0
      ≡ exceeded platform (c.platform_spent + noted es) c.platform_daily
unfolding assert_within_budget
run-refuses es c i w at_once fresh answers ceiling spent =
    let timely = IsAtOnce-IsInTime c es at_once in
    let (c1, ran, (age1, daily1, instance1, spent1, by1)) = run-Grown es c timely in
    let (c2, loads, daily2, spent2) =
      loaded i w c1 (subst (λ t. ltb (w.now - t) cache_ttl_ms ≡ true) (sym age1) fresh) answers in
    let total : c2.platform_spent ≡ c.platform_spent + noted es = spent2 ∙ spent1 in
    let ceiling_there : c2.platform_daily ≡ c.platform_daily = daily2 ∙ daily1 in
    let over =
      reached c2.platform_daily c2.platform_spent (omega (arith, ceiling_there))
        (omega (arith, ceiling_there, total)) in
    subst
      (λ o.
        (assert_within_budget i w o).0
        ≡ exceeded platform (c.platform_spent + noted es) c.platform_daily)
      (sym ran) (rw loads (rw over (cc (total, ceiling_there))))
