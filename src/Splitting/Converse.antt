-- ===== src/Splitting/Converse.antt =====
-- From a run of pages to the order and the bounds of its ranges
-- (src/agents/declarationOfCapital/splitFileRules.ts).
use mathlib.Core.Path.{subst}
use fiscal_mind_agent.Prelude.{ℕ, suc, ◌+◌, ◌-◌, ◌≡◌, List, [], ◌∷◌, arith, All}
use fiscal_mind_agent.Prelude.Int.{ℤ, pos, ◌+ℤ◌, +ℤ_parts}
use fiscal_mind_agent.Splitting.Gate.{PageRange, pages_from, range_pages, covered_pages}
use fiscal_mind_agent.Splitting.Pages.{pages_from-cancel}
use fiscal_mind_agent.Splitting.Partition.{
  size, IsForward, IsInside, Ascends, size_lem, from-add-size,
}

size-pos : (r : PageRange) → IsForward r → size r ≡ suc (size r - 1)
size-pos r f = omega (arith, size_lem r)

-- What is left of a run once its first range is taken off.
take_first :
    (k : ℕ) (a : ℤ) (r : PageRange) (rs : List PageRange)
    → IsForward r
    → covered_pages (r ∷ rs) ≡ pages_from k a
    → (k' : ℕ) × (size r + k' ≡ k)
      × (r.from ≡ a)
      × (covered_pages rs ≡ pages_from k' (r.to +ℤ pos 1))
unfolding covered_pages range_pages
take_first k a r rs f e =
    let (k', fits, same, run) =
      pages_from-cancel (size r - 1) k r.from a (covered_pages rs) (rw (← size-pos r f) e) in
    let next : a +ℤ pos (suc (size r - 1)) ≡ r.to +ℤ pos 1 =
      rw (← size-pos r f, ← same) (from-add-size r f) in
    (k', rw (size-pos r f) fits, same, rw (← next) run)

IsInside-widen :
    (k k' : ℕ) (r : PageRange) (rs : List PageRange)
    → size r + k' ≡ k
    → IsForward r
    → All (IsInside k' (r.to +ℤ pos 1)) rs
    → All (IsInside k r.from) rs
IsInside-widen k k' r [] fits f h = tt
IsInside-widen k k' r (s ∷ rs) fits f h = (
  (
    omega (arith, h.0, +ℤ_parts r.to (pos 1)),
    h.0.1,
    (
      omega (arith, h.0, +ℤ_parts r.to (pos 1)),
      omega (arith, h.0, size_lem r, +ℤ_parts r.to (pos 1)),
    ),
  ),
  IsInside-widen k k' r rs fits f h.1,
)

Ascends-cons :
    (k : ℕ) (r : PageRange) (rs : List PageRange)
    → All (IsInside k (r.to +ℤ pos 1)) rs
    → Ascends rs
    → Ascends (r ∷ rs)
Ascends-cons k r [] h asc = tt
Ascends-cons k r (s ∷ rs) h asc = (omega (arith, h.0, +ℤ_parts r.to (pos 1)), asc)

-- Forward ranges that are one run ascend, and lie among its pages.
pub run-Ascends :
    (rs : List PageRange) (k : ℕ) (a : ℤ)
    → All IsForward rs
    → covered_pages rs ≡ pages_from k a
    → Ascends rs × All (IsInside k a) rs
run-Ascends [] k a f e = (tt, tt)
run-Ascends (r ∷ rs) k a f e =
    let (k', fits, same, run) = take_first k a r rs f.0 e in
    let (asc, inside) = run-Ascends rs k' (r.to +ℤ pos 1) f.1 run in
    let here : IsInside k r.from r =
      (omega arith, f.0, (f.0, omega (arith, size_lem r, fits, f.0))) in
    (
      Ascends-cons k' r rs inside asc,
      subst (λ c. IsInside k c r × All (IsInside k c) rs) same
          (here, IsInside-widen k k' r rs fits f.0 inside),
    )
