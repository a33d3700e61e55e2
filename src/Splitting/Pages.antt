-- ===== src/Splitting/Pages.antt =====
-- Runs of consecutive pages: which pages a run holds, and how runs join.
use mathlib.Core.List.{nil≢cons, head-eq_of_cons-eq, tail-eq_of_cons-eq}
use fiscal_mind_agent.Prelude.{
  ℕ, zero, suc, ◌+◌, ◌<◌, ◌≡◌, refl, sym, ap, ◌∙◌, inl, inr, true, not, ◌||◌, List, [], ◌∷◌, ◌++◌,
  Bool-cases, arith, keep,
}
use fiscal_mind_agent.Prelude.Int.{ℤ, pos, ◌+ℤ◌, ◌≤ℤ◌, pos_part, neg_part, +ℤ_parts, int_laws}
use fiscal_mind_agent.Splitting.Gate.{pages_from, eq_ℤ, has, is_empty}

-- `p` is one of the `k` pages from `a` on.
abbrev pub IsWithin : ℕ → ℤ → ℤ → Type 0
IsWithin k a p = (a ≤ℤ p) × (pos_part p + neg_part a < pos_part a + neg_part p + k)

pub has-append : (xs ys : List ℤ) (p : ℤ) → has (xs ++ ys) p ≡ (has xs p || has ys p)
unfolding has
has-append [] ys p = refl
has-append (x ∷ xs) ys p = ground (arith, has-append xs ys p)

pub has-pages_from : (k : ℕ) (a p : ℤ) → has (pages_from k a) p ≡ true → IsWithin k a p
unfolding has pages_from
has-pages_from zero a p h = cc
has-pages_from (suc k) a p h = ground (arith, has-pages_from k (a +ℤ pos 1) p, +ℤ_parts a (pos 1))

pub pages_from-has : (k : ℕ) (a p : ℤ) → IsWithin k a p → has (pages_from k a) p ≡ true
unfolding has pages_from
pages_from-has zero a p h = absurd (omega arith)
pages_from-has (suc k) a p h = ground (arith, pages_from-has k (a +ℤ pos 1) p, +ℤ_parts a (pos 1))

+ℤ_zero : (a : ℤ) → a +ℤ pos 0 ≡ a
+ℤ_zero a = omega int_laws

+ℤ_suc : (a : ℤ) (j : ℕ) → a +ℤ pos 1 +ℤ pos j ≡ a +ℤ pos (suc j)
+ℤ_suc a j = omega int_laws

pub pages_from-append :
    (j k m : ℕ) (a b : ℤ)
    → j + k ≡ m
    → a +ℤ pos j ≡ b
    → pages_from m a ≡ pages_from j a ++ pages_from k b
unfolding pages_from
pages_from-append zero k m a b e f = let e' : m ≡ k = omega arith in rw (e', ← f, +ℤ_zero a) refl
pages_from-append (suc j) k zero a b e f = absurd (omega arith)
pages_from-append (suc j) k (suc m) a b e f =
    ap (λ l. a ∷ l) (pages_from-append j k m (a +ℤ pos 1) b (omega arith) (+ℤ_suc a j ∙ f))

eq_of_eq_ℤ : (p q : ℤ) → eq_ℤ p q ≡ true → p ≡ q
eq_of_eq_ℤ p q h = ground arith

has-cons : (q : ℤ) (pages : List ℤ) (p : ℤ) → has (q ∷ pages) p ≡ (eq_ℤ p q || has pages p)
unfolding has
has-cons q pages p = refl

pub has-nil : (p : ℤ) → ¬ (has [] p ≡ true)
unfolding has
has-nil p h = cc

-- A page that `keep` finds nowhere missing is covered.
pub has_of_none_missing :
    (pages : List ℤ) (given : List ℤ) (p : ℤ)
    → is_empty (keep (λ q. not (has given q)) pages) ≡ true
    → has pages p ≡ true
    → has given p ≡ true
has_of_none_missing [] given p e h = absurd (has-nil p h)
has_of_none_missing (q ∷ pages) given p e h = elim (Bool-cases (has given q)) [
  | inl covered ↦
      let rest = has_of_none_missing pages given p (rw (covered, keep) at e) in
      elim (Bool-cases (eq_ℤ p q)) [
        | inl same ↦ rw (eq_of_eq_ℤ p q same) covered
        | inr other ↦ rest (ground (arith, has-cons q pages p))
      ]
  | inr left ↦ absurd (cc (rw (left, keep) at e))
]

-- No page is missing from a list that holds them all.
pub none_missing :
    (pages : List ℤ) (given : List ℤ)
    → ((p : ℤ) → has pages p ≡ true → has given p ≡ true)
    → is_empty (keep (λ q. not (has given q)) pages) ≡ true
none_missing [] given h = refl
none_missing (q ∷ pages) given h =
    rw (h q (ground (arith, has-cons q pages q)), keep)
      (none_missing pages given (λ p k. h p (ground (arith, has-cons q pages p))))

-- A list that begins with a run, and is one run itself, goes on as a run.
pub pages_from-cancel :
    (j m : ℕ) (a b : ℤ) (rest : List ℤ)
    → pages_from (suc j) a ++ rest ≡ pages_from m b
    → (k : ℕ) × (suc j + k ≡ m) × (a ≡ b) × (rest ≡ pages_from k (b +ℤ pos (suc j)))
unfolding pages_from
pages_from-cancel j zero a b rest e = absurd (nil≢cons (sym e))
pages_from-cancel zero (suc m) a b rest e =
    (m, omega arith, head-eq_of_cons-eq e, tail-eq_of_cons-eq e)
pages_from-cancel (suc j) (suc m) a b rest e =
    let (k, fits, same, rest_run) =
      pages_from-cancel j m (a +ℤ pos 1) (b +ℤ pos 1) rest (tail-eq_of_cons-eq e) in
    (k, omega arith, head-eq_of_cons-eq e, rest_run ∙ ap (pages_from k) (+ℤ_suc b (suc j)))
