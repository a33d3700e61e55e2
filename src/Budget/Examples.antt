-- ===== src/Budget/Examples.antt =====
-- A budget that runs out within a minute, and a load that loses what is spent while it waits.
use fiscal_mind_agent.Prelude.{none, inl, ◌+◌, ◌≡◌, refl, some, List, [], ◌∷◌, arith}
use fiscal_mind_agent.Budget.Cache.{
  Cached, BudgetWorld, load_cache, platform, exceeded, assert_within_budget, BudgetEvent,
  call_checked, cost_noted, run,
}
use fiscal_mind_agent.Budget.Window.{noted}
use fiscal_mind_agent.Budget.Refused.{run-refuses}
use fiscal_mind_agent.Budget.Races.{load_across, load_across-loses}

abbrev world : BudgetWorld
world = record {
  now = 70000;
  settings = some (record { platform_daily = 100; instance_daily = 50 });
  spent = some 60;
  spent_by = λ i. some 5;
}

abbrev cache : Cached
cache = record {
  at = 50000;
  platform_daily = 100;
  instance_daily = 50;
  platform_spent = 60;
  instance_spent = ("a", 30) ∷ [];
}

loaded :
    load_cache (some "b") world (some cache)
    ≡ some (record cache { instance_spent = ("a", 30) ∷ ("b", 5) ∷ [] })
unfolding load_cache
loaded = refl

abbrev spending : List BudgetEvent
spending =
    cost_noted (some "a") (some 25)
    ∷ call_checked (some "b") world
    ∷ cost_noted (some "b") (some 15)
    ∷ []

abbrev spending_of_one : List BudgetEvent
spending_of_one =
    cost_noted (some "a") (some 25) ∷ call_checked (some "a") world ∷ cost_noted none (some 15) ∷ []

run-refuses_example :
    (assert_within_budget (some "b") world (run spending_of_one (some cache))).0
    ≡ exceeded platform 100 100
run-refuses_example =
    run-refuses spending_of_one cache (some "b") world (tt, ((refl, inl refl), (tt, tt))) refl refl
      (omega arith) (omega arith)

load_across-loses_example :
    (load_across "b" world [] cache ≡ load_cache (some "b") world (some cache))
    × (before : Cached) × (after : Cached) × (run spending (some cache) ≡ some before)
    × (before.platform_spent ≡ 60 + noted spending)
    × (load_across "b" world spending cache ≡ some after)
    × (after.platform_spent ≡ 60)
load_across-loses_example =
    load_across-loses "b" 5 world spending cache refl refl refl refl (tt, (refl, (tt, tt)))
