-- ===== src/Splitting/Verdict.antt =====
-- What the verdict of the gate `validateFileSplit` says of the answer.
use fiscal_mind_agent.Prelude.{
  ℕ, ◌≤◌, ◌≡◌, refl, ◌↔◌, Bool, true, false, List, [], ◌∷◌, Option, none, some, map, length, find,
  arith, All,
}
use fiscal_mind_agent.Prelude.Int.{ℤ, pos}
use fiscal_mind_agent.Splitting.Gate.{
  PageRange, SplitDocument, proposed_range, pages_from, covered_pages, missing, is_empty,
  is_outside, order_reason, count_ok, validate_file_split, max_split_documents, GateCheck, Reason,
}
use fiscal_mind_agent.Splitting.Pages.{pages_from-has, has_of_none_missing, none_missing}
use fiscal_mind_agent.Splitting.Converse.{run-Ascends}
use fiscal_mind_agent.Splitting.Partition.{
  IsForward, IsInside, order_reason-Ascends, Ascends-order_reason, contiguous,
}

-- The four checks of the gate, as equations.
abbrev IsPassed : List PageRange → ℕ → Type 0
IsPassed rs pages =
    (count_ok (length rs) ≡ true)
    × (find (is_outside pages) rs ≡ none)
    × (order_reason rs ≡ none)
    × (is_empty (missing rs pages) ≡ true)

result-IsPassed :
    (docs : List SplitDocument) (pages : ℕ)
    → (validate_file_split docs pages).result ≡ true
    → IsPassed (map proposed_range docs) pages
unfolding validate_file_split
result-IsPassed docs pages h = ground arith

IsPassed-result :
    (docs : List SplitDocument) (pages : ℕ)
    → IsPassed (map proposed_range docs) pages
    → (validate_file_split docs pages).result ≡ true
unfolding validate_file_split
IsPassed-result docs pages h = ground arith

find-IsInside :
    (pages : ℕ) (rs : List PageRange)
    → find (is_outside pages) rs ≡ none
    → All (IsInside pages (pos 1)) rs
find-IsInside pages [] e = tt
find-IsInside pages (r ∷ rs) e = (
  (ground arith, ground arith, (ground arith, ground arith)),
  find-IsInside pages rs (ground arith),
)

inside-find :
    (pages : ℕ) (rs : List PageRange)
    → All (IsInside pages (pos 1)) rs
    → find (is_outside pages) rs ≡ none
inside-find pages [] h = refl
inside-find pages (r ∷ rs) h = ground (arith, inside-find pages rs h.1)

inside-IsForward : (k : ℕ) (a : ℤ) (rs : List PageRange) → All (IsInside k a) rs → All IsForward rs
inside-IsForward k a [] h = tt
inside-IsForward k a (r ∷ rs) h = (h.0.1, inside-IsForward k a rs h.1)

-- The ranges cut a file of `pages` pages: between one and twenty of them, each running forward,
-- and their pages in order are 1, 2, ..., `pages`.
abbrev pub IsCut : List PageRange → ℕ → Type 0
IsCut rs pages =
    (1 ≤ length rs)
    × (length rs ≤ max_split_documents)
    × All IsForward rs
    × (covered_pages rs ≡ pages_from pages (pos 1))

IsPassed-IsCut : (rs : List PageRange) (pages : ℕ) → IsPassed rs pages → IsCut rs pages
unfolding missing
IsPassed-IsCut rs pages (count, inside, order, left) =
    let within = find-IsInside pages rs inside in
    (
      ground arith,
      ground arith,
      inside-IsForward pages (pos 1) rs within,
      contiguous rs pages (pos 1) (order_reason-Ascends rs order) within (λ p w.
          has_of_none_missing (pages_from pages (pos 1)) (covered_pages rs) p left
            (pages_from-has pages (pos 1) p w)),
    )

IsCut-IsPassed : (rs : List PageRange) (pages : ℕ) → IsCut rs pages → IsPassed rs pages
unfolding missing
IsCut-IsPassed rs pages (one, cap, forward, run) =
    let (asc, within) = run-Ascends rs pages (pos 1) forward run in
    (
      ground arith,
      inside-find pages rs within,
      Ascends-order_reason rs asc,
      none_missing (pages_from pages (pos 1)) (covered_pages rs) (λ p h. rw run h),
    )

-- The gate accepts an answer exactly when its ranges are between one and twenty, each runs forward,
-- and the pages of the ranges, in order, are the pages 1 to the last of the file, each once.
pub accepts_iff :
    (docs : List SplitDocument) (pages : ℕ)
    → ((validate_file_split docs pages).result ≡ true) ↔ IsCut (map proposed_range docs) pages
accepts_iff docs pages = (
  λ h. IsPassed-IsCut (map proposed_range docs) pages (result-IsPassed docs pages h),
  λ c. IsPassed-result docs pages (IsCut-IsPassed (map proposed_range docs) pages c),
)

abbrev HasPassed : GateCheck Reason → Type 0
HasPassed c = (c.passed ≡ some true) × (c.note ≡ none)

-- Every check but the last passed; the last failed, for the given reason.
abbrev FailsLast : Reason → List (GateCheck Reason) → Type 0
FailsLast why [] = ⊥
FailsLast why (c ∷ []) = (c.passed ≡ some false) × (c.note ≡ some why)
FailsLast why (c ∷ d ∷ cs) = HasPassed c × FailsLast why (d ∷ cs)

abbrev pub IsAccounted :
    List PageRange → Bool → Option Reason → List PageRange → List (GateCheck Reason) → Type 0
IsAccounted proposed true none ranges checks = (ranges ≡ proposed) × All HasPassed checks
IsAccounted proposed false (some why) ranges checks = (ranges ≡ []) × FailsLast why checks
IsAccounted proposed _ _ ranges checks = ⊥

-- An accepted answer keeps its ranges, has no reason, and every check of the list passed. A rejected
-- one has no ranges, and its list ends at the first check that failed, whose note is the reason.
validate_file_split-IsAccounted :
    (docs : List SplitDocument) (pages : ℕ)
    → let r = validate_file_split docs pages in
      IsAccounted (map proposed_range docs) r.result r.reason r.ranges r.checks
unfolding validate_file_split
validate_file_split-IsAccounted docs pages = ground arith
