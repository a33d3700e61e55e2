-- ===== src/Budget/Races.antt =====
-- A load of the cache that waits for the database while other calls go on (`loadCache` of
-- src/gemini/budget.ts).
use fiscal_mind_agent.Prelude.{
  ℕ, ◌+◌, ◌≡◌, refl, sym, ◌∙◌, true, false, String, Option, none, some, is_some, List, [], All, ltb,
}
use fiscal_mind_agent.Budget.Cache.{
  Cached, BudgetWorld, spent_of, set_spent, is_fresh, load_cache, BudgetEvent, run,
}
use fiscal_mind_agent.Budget.Window.{IsInTime, noted, run-Grown}

-- The end of a load that found a cache in time which does not know the instance: the ceilings and the
-- platform's counter were read before the query for the instance was sent, the age and the map of the
-- instances are those that are there when its answer comes.
abbrev finish_load : Option ℕ → String → (captured now_there : Cached) → Option Cached
finish_load none i captured now_there = some now_there
finish_load (some n) i captured now_there =
    some (record captured {
      at = now_there.at;
      instance_spent = set_spent i n now_there.instance_spent;
    })

-- `loadCache` from the cache in which it starts to the one that it leaves, with the events that other
-- calls bring while it waits.
unfoldable pub load_across : String → BudgetWorld → List BudgetEvent → Cached → Option Cached
unfolding run
load_across i w meanwhile c = elim (run meanwhile (some c)) [
  | none ↦ none
  | some now_there ↦ finish_load (w.spent_by i) i c now_there
]

asked :
    (i : String) (n : ℕ) (w : BudgetWorld) (c : Cached)
    → w.spent_by i ≡ some n
    → is_some (spent_of i c.instance_spent) ≡ false
    → ltb 0 c.instance_daily ≡ true
    → is_fresh w.now c ≡ true
    → load_cache (some i) w (some c)
      ≡ some (record c { instance_spent = set_spent i n c.instance_spent })
unfolding load_cache
asked i n w c given unknown ceiling fresh = rw (fresh, unknown, ceiling, given) refl

ended_with :
    (o : Option Cached) (i : String) (n : ℕ) (w : BudgetWorld) (c c1 : Cached)
    → o ≡ some c1
    → w.spent_by i ≡ some n
    → elim o [ none ↦ none | some now_there ↦ finish_load (w.spent_by i) i c now_there ]
      ≡ some (record c { at = c1.at; instance_spent = set_spent i n c1.instance_spent })
ended_with o i n w c c1 h given = rw h (rw given refl)

-- A load for an instance that the cache does not know yet agrees with the load that nothing interrupts
-- when nothing happens while it waits. The costs that are noted while it waits are lost to the
-- platform's counter: they stand in it before the answer comes, and not after.
pub load_across-loses :
    (i : String) (n : ℕ) (w : BudgetWorld) (meanwhile : List BudgetEvent) (c : Cached)
    → is_fresh w.now c ≡ true
    → is_some (spent_of i c.instance_spent) ≡ false
    → ltb 0 c.instance_daily ≡ true
    → w.spent_by i ≡ some n
    → All (IsInTime c) meanwhile
    → (load_across i w [] c ≡ load_cache (some i) w (some c))
      × (before : Cached) × (after : Cached) × (run meanwhile (some c) ≡ some before)
      × (before.platform_spent ≡ c.platform_spent + noted meanwhile)
      × (load_across i w meanwhile c ≡ some after)
      × (after.platform_spent ≡ c.platform_spent)
unfolding load_across run
load_across-loses i n w meanwhile c fresh unknown ceiling given timely =
    let (c1, ran, (age1, daily1, instance1, spent1, by1)) = run-Grown meanwhile c timely in
    (
      ended_with (some c) i n w c c refl given ∙ sym (asked i n w c given unknown ceiling fresh),
      c1,
      record c { at = c1.at; instance_spent = set_spent i n c1.instance_spent },
      ran,
      spent1,
      ended_with (run meanwhile (some c)) i n w c c1 ran given,
      refl,
    )
