-- ===== src/Splitting/Partition.antt =====
-- Ranges that ascend inside a file and cover it, and the run of its pages
-- (src/agents/declarationOfCapital/splitFileRules.ts).
use mathlib.Core.Path.{subst}
use fiscal_mind_agent.Prelude.{
  ℕ, zero, suc, ◌+◌, ◌-◌, ◌≡◌, refl, sym, ap, ◌∙◌, ◌⊎◌, inl, inr, true, List, [], ◌∷◌, ◌++◌, none,
  arith, All,
}
use fiscal_mind_agent.Prelude.Int.{
  ℤ, pos, ◌+ℤ◌, ◌-ℤ◌, ◌≤ℤ◌, ◌<ℤ◌, pos_part, neg_part, +ℤ_parts, eq_of_parts,
}
use fiscal_mind_agent.Splitting.Gate.{
  PageRange, pages_from, range_pages, covered_pages, has, order_reason,
}
use fiscal_mind_agent.Splitting.Pages.{
  IsWithin, has-append, has-pages_from, pages_from-has, pages_from-append, has-nil,
}

-- The number of pages of a range.
abbrev pub size : PageRange → ℕ
size r = pos_part (r.to +ℤ pos 1 -ℤ r.from)

-- A range holds a page.
abbrev pub IsForward : PageRange → Type 0
IsForward r = r.from ≤ℤ r.to

-- A range lies among the `k` pages from `a` on.
abbrev pub IsInside : ℕ → ℤ → PageRange → Type 0
IsInside k a r = (a ≤ℤ r.from) × (r.from ≤ℤ r.to) × IsWithin k a r.to

-- Every later range begins after the end of the one before it.
abbrev pub Ascends : List PageRange → Type 0
Ascends [] = Unit
Ascends (r ∷ []) = Unit
Ascends (r ∷ s ∷ rs) = (r.to <ℤ s.from) × Ascends (s ∷ rs)

pub order_reason-Ascends : (rs : List PageRange) → order_reason rs ≡ none → Ascends rs
unfolding order_reason
order_reason-Ascends [] e = tt
order_reason-Ascends (r ∷ []) e = tt
order_reason-Ascends (r ∷ s ∷ rs) e = (ground arith, order_reason-Ascends (s ∷ rs) (ground arith))

pub Ascends-order_reason : (rs : List PageRange) → Ascends rs → order_reason rs ≡ none
unfolding order_reason
Ascends-order_reason [] h = refl
Ascends-order_reason (r ∷ []) h = refl
Ascends-order_reason (r ∷ s ∷ rs) h = ground (arith, Ascends-order_reason (s ∷ rs) h.1)

-- Pages after a range lie after the pages of the ranges before.
has-covered :
    (p : ℤ) (r : PageRange) (rs : List PageRange)
    → has (covered_pages (r ∷ rs)) p ≡ true
    → has (range_pages r) p ≡ true ⊎ has (covered_pages rs) p ≡ true
unfolding covered_pages
has-covered p r rs h = ground (arith, has-append (range_pages r) (covered_pages rs) p)

-- The size of a range is its last page + 1 - its first page, or 0.
pub size_lem :
    (r : PageRange)
    → size r ≡ pos_part r.to + 1 + neg_part r.from - (neg_part r.to + pos_part r.from)
unfolding ◌+ℤ◌ ◌-ℤ◌
size_lem r = ground arith

has-range_pages :
    (p : ℤ) (r : PageRange) → has (range_pages r) p ≡ true → (r.from ≤ℤ p) × (p ≤ℤ r.to)
unfolding range_pages
has-range_pages p r h = omega (arith, has-pages_from (size r) r.from p h, size_lem r)

range_pages-has : (p : ℤ) (r : PageRange) → r.from ≤ℤ p → p ≤ℤ r.to → has (range_pages r) p ≡ true
unfolding range_pages
range_pages-has p r h k = pages_from-has (size r) r.from p (omega arith, omega (arith, size_lem r))

-- A page below the first page of ranges that ascend is in none of them.
below-All :
    (p : ℤ) (rs : List PageRange) → All (λ r. p <ℤ r.from) rs → ¬ (has (covered_pages rs) p ≡ true)
unfolding covered_pages
below-All p [] a h = absurd (has-nil p h)
below-All p (r ∷ rs) a h = elim (has-covered p r rs h) [
  | inl here ↦ omega (arith, has-range_pages p r here, a.0)
  | inr later ↦ below-All p rs a.1 later
]

-- In ranges that ascend and hold pages, all later ranges begin after the first one ends.
Ascends-after :
    (r : PageRange) (rs : List PageRange)
    → Ascends (r ∷ rs)
    → All IsForward rs
    → All (λ s. r.to <ℤ s.from) rs
Ascends-after r [] a f = tt
Ascends-after r (s ∷ rs) a f = (a.0, All-above r s rs a.0 f.0 (Ascends-after s rs a.1 f.1))
  where
    All-above :
        (r s : PageRange) (rs : List PageRange)
        → r.to <ℤ s.from
        → IsForward s
        → All (λ u. s.to <ℤ u.from) rs
        → All (λ u. r.to <ℤ u.from) rs
    All-above r s [] h f a = tt
    All-above r s (u ∷ rs) h f a = (omega arith, All-above r s rs h f a.1)

Ascends-tail : (r : PageRange) (rs : List PageRange) → Ascends (r ∷ rs) → Ascends rs
Ascends-tail r [] a = tt
Ascends-tail r (s ∷ rs) a = a.1

inside-IsForward : (k : ℕ) (a : ℤ) (rs : List PageRange) → All (IsInside k a) rs → All IsForward rs
inside-IsForward k a [] h = tt
inside-IsForward k a (r ∷ rs) h = (h.0.1, inside-IsForward k a rs h.1)

-- Once the first range is cut off, the later ones lie among the pages that are left.
IsInside-after :
    (k : ℕ) (r : PageRange) (rs : List PageRange)
    → r.from ≤ℤ r.to
    → All (λ s. r.to <ℤ s.from) rs
    → All (IsInside k r.from) rs
    → All (IsInside (k - size r) (r.to +ℤ pos 1)) rs
IsInside-after k r [] f b h = tt
IsInside-after k r (s ∷ rs) f b h = (
  (
    omega (arith, b, h, +ℤ_parts r.to (pos 1)),
    h.0.1,
    (
      omega (arith, b, h, +ℤ_parts r.to (pos 1)),
      omega (arith, b, h, size_lem r, +ℤ_parts r.to (pos 1)),
    ),
  ),
  IsInside-after k r rs f b.1 h.1,
)

-- The first of ranges that cover a run begins where the run does.
first_from :
    (k : ℕ) (a : ℤ) (r : PageRange) (rs : List PageRange)
    → IsInside k a r
    → All (λ s. r.to <ℤ s.from) rs
    → has (covered_pages (r ∷ rs)) a ≡ true
    → r.from ≡ a
first_from k a r rs inside b h = elim (has-covered a r rs h) [
  | inl here ↦ eq_of_parts r.from a (omega (arith, has-range_pages a r here, inside))
  | inr later ↦ absurd (below-All a rs (All-below rs b) later)
]
  where
    All-below : (rs : List PageRange) → All (λ s. r.to <ℤ s.from) rs → All (λ s. a <ℤ s.from) rs
    All-below [] b = tt
    All-below (s ∷ rs) b = (omega (arith, inside, b), All-below rs b.1)

after_first :
    (k : ℕ) (r : PageRange) (rs : List PageRange)
    → r.from ≤ℤ r.to
    → (p : ℤ) → IsWithin (k - size r) (r.to +ℤ pos 1) p
    → (IsWithin k r.from p → has (covered_pages (r ∷ rs)) p ≡ true)
    → has (covered_pages rs) p ≡ true
after_first k r rs f p w cov =
    let w' : IsWithin k r.from p = (
      omega (arith, w, +ℤ_parts r.to (pos 1)),
      omega (arith, w, size_lem r, +ℤ_parts r.to (pos 1)),
    ) in
    elim (has-covered p r rs (cov w')) [
      | inl here ↦ absurd (omega (arith, w, has-range_pages p r here, +ℤ_parts r.to (pos 1)))
      | inr later ↦ later
    ]

-- The end of a range, counted from its first page.
pub from-add-size : (r : PageRange) → r.from ≤ℤ r.to → r.from +ℤ pos (size r) ≡ r.to +ℤ pos 1
from-add-size r f =
    eq_of_parts _ _
      (omega (arith, size_lem r, +ℤ_parts r.to (pos 1), +ℤ_parts r.from (pos (size r))))

join_first :
    (k : ℕ) (r : PageRange) (rs : List PageRange)
    → IsInside k r.from r
    → covered_pages rs ≡ pages_from (k - size r) (r.to +ℤ pos 1)
    → covered_pages (r ∷ rs) ≡ pages_from k r.from
unfolding covered_pages range_pages
join_first k r rs inside run =
    ap (λ l. pages_from (size r) r.from ++ l) run
    ∙ sym (
        pages_from-append (size r) (k - size r) k r.from (r.to +ℤ pos 1)
          (omega (arith, size_lem r, inside)) (from-add-size r inside.1))

-- Ranges that ascend, lie among the `k` pages from `a` on and cover them all, are that run.
pub contiguous :
    (rs : List PageRange) (k : ℕ) (a : ℤ)
    → Ascends rs
    → All (IsInside k a) rs
    → ((p : ℤ) → IsWithin k a p → has (covered_pages rs) p ≡ true)
    → covered_pages rs ≡ pages_from k a
unfolding covered_pages pages_from
contiguous [] zero a asc inside cov = refl
contiguous [] (suc k) a asc inside cov = absurd (has-nil a (cov a (omega arith, omega arith)))
contiguous (r ∷ rs) k a asc inside cov =
    let b = Ascends-after r rs asc (inside-IsForward k a rs inside.1) in
    let start : r.from ≡ a =
      first_from k a r rs inside.0 b (cov a (omega arith, omega (arith, inside))) in
    let inside' : All (IsInside k r.from) (r ∷ rs) =
      subst (λ c. All (IsInside k c) (r ∷ rs)) (sym start) inside in
    let run =
      contiguous rs (k - size r) (r.to +ℤ pos 1) (Ascends-tail r rs asc)
        (IsInside-after k r rs inside.0.1 b inside'.1)
        (λ p w.
          after_first k r rs inside.0.1 p w (λ w'. cov p (subst (λ c. IsWithin k c p) start w'))) in
    rw (← start) (join_first k r rs inside'.0 run)
