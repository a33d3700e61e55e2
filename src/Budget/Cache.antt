-- ===== src/Budget/Cache.antt =====
-- The cached counters of src/gemini/budget.ts and the check of a call. Costs are natural numbers of one
-- small unit; what the database answers is an argument, `none` where a query throws.
use fiscal_mind_agent.Prelude.{
  ℕ, ◌+◌, ◌-◌, Bool, true, not, ◌&&◌, String, Option, none, some, is_some, or_else, List, [], ◌∷◌,
  str_eq, ltb, leb, ◌==◌, if◌then◌else◌,
}

-- What the two settings hold, 0 for no ceiling.
pub record BudgetSettings : Type 0 where
  pub platform_daily : ℕ
  pub instance_daily : ℕ

pub record Cached : Type 0 where
  pub at : ℕ
  pub platform_daily : ℕ
  pub instance_daily : ℕ
  pub platform_spent : ℕ
  pub instance_spent : List (String × ℕ)

pub record BudgetWorld : Type 0 where
  pub now : ℕ
  pub settings : Option BudgetSettings
  -- `spentSince` since the start of the day
  pub spent : Option ℕ
  pub spent_by : String → Option ℕ

-- `CACHE_TTL_MS`
abbrev pub cache_ttl_ms : ℕ
cache_ttl_ms = 60000

-- `map.get` and `map.set`
abbrev pub spent_of : String → List (String × ℕ) → Option ℕ
spent_of i [] = none
spent_of i ((k, n) ∷ more) = if str_eq k i then some n else spent_of i more

abbrev pub set_spent : String → ℕ → List (String × ℕ) → List (String × ℕ)
set_spent i n [] = (i, n) ∷ []
set_spent i n ((k, m) ∷ more) =
    let rest = set_spent i n more in if str_eq k i then (k, n) ∷ more else (k, m) ∷ rest

abbrev pub is_fresh : ℕ → Cached → Bool
is_fresh now c = ltb (now - c.at) cache_ttl_ms

abbrev pub covers : Option String → Cached → Bool
covers none c = true
covers (some i) c = is_some (spent_of i c.instance_spent)

abbrev pub with_spent : String → Option ℕ → Cached → Option Cached
with_spent i none c = none
with_spent i (some n) c = some (record c { instance_spent = set_spent i n c.instance_spent })

abbrev pub add_instance : Option String → BudgetWorld → Cached → Option Cached
add_instance none w c = some c
add_instance (some i) w c =
    if ltb 0 c.instance_daily && not (is_some (spent_of i c.instance_spent))
    then with_spent i (w.spent_by i) c
    else some c

-- A cache that is built anew; the spending of the platform is asked for only where it has a ceiling.
abbrev platform_of : BudgetSettings → BudgetWorld → ℕ → Option ℕ
platform_of s w old = if ltb 0 s.platform_daily then w.spent else some old

abbrev new_cache : Option BudgetSettings → Option String → BudgetWorld → ℕ → Option Cached
new_cache none i w old = none
new_cache (some s) i w old = elim (platform_of s w old) [
  | none ↦ none
  | some spent ↦ add_instance i w (record {
    at = w.now;
    platform_daily = s.platform_daily;
    instance_daily = s.instance_daily;
    platform_spent = spent;
    instance_spent = [];
  })
]

-- `loadCache`, where nothing else happens while it waits for the database (`Budget.Races.load_across` is the
-- load with other calls in between); `none` when it throws.
unfoldable pub load_cache : Option String → BudgetWorld → Option Cached → Option Cached
load_cache i w none = new_cache w.settings i w 0
load_cache i w (some c) =
    if is_fresh w.now c
    then (if covers i c then some c else add_instance i w c)
    else new_cache w.settings i w c.platform_spent

abbrev pub add_cost : Option String → ℕ → Cached → Cached
add_cost none cost c = record c { platform_spent = c.platform_spent + cost }
add_cost (some i) cost c = record c {
  platform_spent = c.platform_spent + cost;
  instance_spent = elim (spent_of i c.instance_spent) [
    | none ↦ c.instance_spent
    | some n ↦ set_spent i (n + cost) c.instance_spent
  ];
}

-- `noteSpend`; a cost that is null or 0 is not noted.
unfoldable pub note_spend : Option String → Option ℕ → Option Cached → Option Cached
note_spend i cost none = none
note_spend i none (some c) = some c
note_spend i (some cost) (some c) = some (if cost == 0 then c else add_cost i cost c)

pub data Scope : Type 0 where
  platform instance : Scope

pub data CallVerdict : Type 0 where
  allowed : CallVerdict
  exceeded : Scope → (spent budget : ℕ) → CallVerdict

abbrev instance_verdict : Option String → Cached → CallVerdict
instance_verdict none c = allowed
instance_verdict (some i) c =
    let spent = or_else (spent_of i c.instance_spent) 0 in
    if ltb 0 c.instance_daily && leb c.instance_daily spent
    then exceeded instance spent c.instance_daily
    else allowed

abbrev verdict_on : Option String → Cached → CallVerdict
verdict_on i c =
    if ltb 0 c.platform_daily && leb c.platform_daily c.platform_spent
    then exceeded platform c.platform_spent c.platform_daily
    else instance_verdict i c

abbrev pub judged : Option String → Option Cached → Option Cached → CallVerdict × Option Cached
judged i old none = (allowed, old)
judged i old (some c) = (verdict_on i c, some c)

-- `assertWithinBudget`, with a load that nothing comes between: what it throws, and the cache after it. A
-- load that throws lets the call pass.
unfoldable pub assert_within_budget :
    Option String → BudgetWorld → Option Cached → CallVerdict × Option Cached
unfolding load_cache
assert_within_budget i w cache = judged i cache (load_cache i w cache)

-- `saveBudgetSettings` and `resetBudgetCache` drop the cache.
pub data BudgetEvent : Type 0 where
  call_checked : Option String → BudgetWorld → BudgetEvent
  cost_noted : Option String → Option ℕ → BudgetEvent

abbrev pub step : BudgetEvent → Option Cached → Option Cached
step (call_checked i w) cache = (assert_within_budget i w cache).1
step (cost_noted i cost) cache = note_spend i cost cache

unfoldable pub run : List BudgetEvent → Option Cached → Option Cached
unfolding assert_within_budget note_spend
run [] cache = cache
run (e ∷ es) cache = run es (step e cache)
