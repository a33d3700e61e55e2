-- ===== src/Budget/Window.antt =====
-- The counters while one cache lasts (src/gemini/budget.ts).
use mathlib.Core.Path.{subst}
use fiscal_mind_agent.Prelude.{
  ℕ, ◌+◌, ◌-◌, ◌≡◌, refl, sym, ◌∙◌, ap, inl, inr, Bool, true, false, not, ◌&&◌, String, Option,
  none, some, is_some, List, [], ◌∷◌, All, str_eq, eq_iff, ltb, ◌==◌, ==_iff, arith, Bool-cases,
  if◌then◌else◌, if-cases,
}
use fiscal_mind_agent.Budget.Cache.{
  Cached, BudgetWorld, cache_ttl_ms, spent_of, set_spent, is_fresh, covers, with_spent,
  add_instance, load_cache, add_cost, note_spend, judged, assert_within_budget, BudgetEvent,
  call_checked, cost_noted, step, run,
}

spent_of-set_spent :
    (i k : String) (n : ℕ) (l : List (String × ℕ))
    → spent_of k (set_spent i n l) ≡ (if str_eq i k then some n else spent_of k l)
spent_of-set_spent i k n [] = refl
spent_of-set_spent i k n ((j, m) ∷ l) =
    ground (arith, eq_iff i k, eq_iff j k, eq_iff j i, spent_of-set_spent i k n l)

-- What an event adds to the platform's counter, and to that of an instance.
abbrev cost_of : BudgetEvent → ℕ
cost_of (call_checked i w) = 0
cost_of (cost_noted i none) = 0
cost_of (cost_noted i (some cost)) = cost

abbrev cost_by : String → BudgetEvent → ℕ
cost_by k (call_checked i w) = 0
cost_by k (cost_noted i none) = 0
cost_by k (cost_noted none (some cost)) = 0
cost_by k (cost_noted (some i) (some cost)) = if str_eq i k then cost else 0

abbrev pub noted : List BudgetEvent → ℕ
noted [] = 0
noted (e ∷ es) = cost_of e + noted es

abbrev noted_by : String → List BudgetEvent → ℕ
noted_by k [] = 0
noted_by k (e ∷ es) = cost_by k e + noted_by k es

-- A check reaches the cache while it lasts.
abbrev pub IsInTime : Cached → BudgetEvent → Type 0
IsInTime c (call_checked i w) = is_fresh w.now c ≡ true
IsInTime c (cost_noted i cost) = Unit

-- The cache after some spending: the same age and ceilings, the counters grown by what was spent.
abbrev Grown : Cached → ℕ → (String → ℕ) → Cached → Type 0
Grown c spent spent_by c' =
    (c'.at ≡ c.at)
    × (c'.platform_daily ≡ c.platform_daily)
    × (c'.instance_daily ≡ c.instance_daily)
    × (c'.platform_spent ≡ c.platform_spent + spent)
    × ((k : String) (n : ℕ)
        → spent_of k c.instance_spent ≡ some n
        → spent_of k c'.instance_spent ≡ some (n + spent_by k))

abbrev GrowsTo : Cached → ℕ → (String → ℕ) → Option Cached → Type 0
GrowsTo c spent spent_by o = (c' : Cached) × (o ≡ some c') × Grown c spent spent_by c'

more_by : {o : Option ℕ} {n m : ℕ} → n ≡ m → o ≡ some n → o ≡ some m
more_by e h = cc (e, h)

same : (c : Cached) → GrowsTo c 0 (λ k. 0) (some c)
same c = (c, refl, (refl, refl, refl, omega arith, λ k n h. more_by (omega arith) h))

added_one :
    (i k : String) (n m : ℕ) (l : List (String × ℕ))
    → is_some (spent_of i l) ≡ false
    → spent_of k l ≡ some m
    → spent_of k (set_spent i n l) ≡ some (m + 0)
added_one i k n m l missing h = elim (Bool-cases (str_eq i k)) [
  | inl one ↦ absurd (cc (missing, subst (λ j. spent_of j l ≡ some m) (sym ((eq_iff i k).0 one)) h))
  | inr other ↦ spent_of-set_spent i k n l ∙ rw other (more_by (omega arith) h)
]

added :
    (i : String) (o : Option ℕ) (c : Cached)
    → is_some (spent_of i c.instance_spent) ≡ false
    → GrowsTo c 0 (λ k. 0) (judged (some i) (some c) (with_spent i o c)).1
added i none c missing = same c
added i (some n) c missing = (
  record c { instance_spent = set_spent i n c.instance_spent },
  refl,
  (refl, refl, refl, omega arith, λ k m h. added_one i k n m c.instance_spent missing h),
)

not_known : (a b : Bool) → (a && not b) ≡ true → b ≡ false
not_known a b h = ground arith

added_instance :
    (i : Option String) (w : BudgetWorld) (c : Cached)
    → GrowsTo c 0 (λ k. 0) (judged i (some c) (add_instance i w c)).1
added_instance none w c = same c
added_instance (some i) w c =
    if-cases {A = Option Cached} (λ o. GrowsTo c 0 (λ k. 0) (judged (some i) (some c) o).1)
      (ltb 0 c.instance_daily && not (is_some (spent_of i c.instance_spent)))
      (λ h. added i (w.spent_by i) c (not_known _ _ h)) (λ h. same c)

checked :
    (i : Option String) (w : BudgetWorld) (c : Cached)
    → is_fresh w.now c ≡ true
    → GrowsTo c 0 (λ k. 0) (assert_within_budget i w (some c)).1
unfolding assert_within_budget load_cache
checked i w c fresh = rw fresh (
    if-cases {A = Option Cached} (λ o. GrowsTo c 0 (λ k. 0) (judged i (some c) o).1) (covers i c)
      (λ h. same c) (λ h. added_instance i w c))

counted :
    (o : Option ℕ) (i k : String) (cost n : ℕ) (l : List (String × ℕ))
    → spent_of i l ≡ o
    → spent_of k l ≡ some n
    → spent_of k (elim o [ none ↦ l | some m ↦ set_spent i (m + cost) l ])
      ≡ some (n + (if str_eq i k then cost else 0))
counted none i k cost n l hi hk = elim (Bool-cases (str_eq i k)) [
  | inl one ↦ absurd (cc (hi, subst (λ j. spent_of j l ≡ some n) (sym ((eq_iff i k).0 one)) hk))
  | inr other ↦ rw other (more_by (omega arith) hk)
]
counted (some m) i k cost n l hi hk = elim (Bool-cases (str_eq i k)) [
  | inl one ↦
      spent_of-set_spent i k (m + cost) l
      ∙ rw one
          (same_count (sym hi ∙ subst (λ j. spent_of j l ≡ some n) (sym ((eq_iff i k).0 one)) hk))
  | inr other ↦ spent_of-set_spent i k (m + cost) l ∙ rw other (more_by (omega arith) hk)
]
  where
    same_count : Option.some m ≡ some n → Option.some (m + cost) ≡ some (n + cost)
    same_count h = cc h

free :
    (i : Option String) (k : String) (cost : ℕ)
    → cost ≡ 0
    → cost_by k (cost_noted i (some cost)) ≡ 0
free none k cost h = refl
free (some i) k cost h = if-cases {A = ℕ} (λ n. n ≡ 0) (str_eq i k) (λ _. h) (λ _. refl)

spent_more :
    (i : Option String) (cost : ℕ) (c : Cached)
    → Grown c cost (λ k. cost_by k (cost_noted i (some cost))) (add_cost i cost c)
spent_more none cost c = (refl, refl, refl, refl, λ k n h. more_by (omega arith) h)
spent_more (some i) cost c = (
  refl,
  refl,
  refl,
  refl,
  λ k n h. counted (spent_of i c.instance_spent) i k cost n c.instance_spent refl h,
)

noted_one :
    (i : Option String) (cost : ℕ) (c : Cached)
    → GrowsTo c cost
        (λ k. cost_by k (cost_noted i (some cost)))
        (some (if cost == 0 then c else add_cost i cost c))
noted_one i cost c = elim (Bool-cases (cost == 0)) [
  | inl nothing ↦ rw nothing (unchanged ((==_iff cost 0).0 nothing))
  | inr something ↦ rw something (add_cost i cost c, refl, spent_more i cost c)
]
  where
    unchanged : cost ≡ 0 → GrowsTo c cost (λ k. cost_by k (cost_noted i (some cost))) (some c)
    unchanged e = (
      c,
      refl,
      (refl, refl, refl, omega (arith, e), λ k n h. more_by (omega (arith, free i k cost e)) h),
    )

one_step :
    (e : BudgetEvent) (c : Cached)
    → IsInTime c e
    → GrowsTo c (cost_of e) (λ k. cost_by k e) (step e (some c))
unfolding note_spend
one_step (call_checked i w) c fresh = checked i w c fresh
one_step (cost_noted i none) c tt = same c
one_step (cost_noted i (some cost)) c tt = noted_one i cost c

in_time :
    (c c' : Cached) (es : List BudgetEvent)
    → c'.at ≡ c.at
    → All (IsInTime c) es
    → All (IsInTime c') es
in_time c c' [] same_age h = tt
in_time c c' (call_checked i w ∷ es) same_age h = (
  subst (λ t. ltb (w.now - t) cache_ttl_ms ≡ true) (sym same_age) h.0,
  in_time c c' es same_age h.1,
)
in_time c c' (cost_noted i cost ∷ es) same_age h = (tt, in_time c c' es same_age h.1)

-- While a cache lasts, checks and noted costs in any order keep its age and its ceilings. The platform's
-- counter is what it was and all the costs that were noted; the counter of an instance that the cache
-- knows is what it was and the costs noted for that instance.
pub run-Grown :
    (es : List BudgetEvent) (c : Cached)
    → All (IsInTime c) es
    → (c' : Cached) × (run es (some c) ≡ some c') × Grown c (noted es) (λ k. noted_by k es) c'
unfolding run
run-Grown [] c h = same c
run-Grown (e ∷ es) c h =
    let (c1, first, (age1, platform1, instance1, spent1, by1)) = one_step e c h.0 in
    let (c2, rest, (age2, platform2, instance2, spent2, by2)) =
      run-Grown es c1 (in_time c c1 es age1 h.1) in
    (
      c2,
      ap (run es) first ∙ rest,
      (
        age2 ∙ age1,
        platform2 ∙ platform1,
        instance2 ∙ instance1,
        omega (arith, spent1, spent2),
        λ k n known. more_by (omega arith) (by2 k (n + cost_by k e) (by1 k n known)),
      ),
    )
