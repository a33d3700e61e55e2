-- ===== src/Splitting/Gate.antt =====
-- The gate `validateFileSplit` of src/agents/declarationOfCapital/splitFileRules.ts, with the check
-- records of src/agents/shared/gateChecks.ts. A reason is kept as data in place of its English
-- text, and the texts `observed` and `expected` of a check, which nothing reads, are left out.
use fiscal_mind_agent.Prelude.{
  ℕ, zero, suc, ◌+◌, Bool, true, false, not, ◌&&◌, ◌||◌, String, Option, none, some, List, [], ◌∷◌,
  ◌++◌, map, leb, ◌==◌, is_some, length, keep, any, find, if◌then◌else◌,
}
use fiscal_mind_agent.Prelude.Int.{ℤ, pos, ◌+ℤ◌, ◌-ℤ◌, pos_part, neg_part, ltb_ℤ, leb_ℤ}

-- `passed` is null only for a check that did not apply.
pub record GateCheck (N : Type 0) : Type 0 where
  pub key : String
  pub passed : Option Bool
  pub note : Option N

-- The note is kept only for a failure.
abbrev pub check : {N : Type 0} → String → Bool → Option N → GateCheck N
check key passed note = record {
  key = key;
  passed = some passed;
  note = if passed then none else note;
}

pub record PageRange : Type 0 where
  pub from : ℤ
  pub to : ℤ

pub record SplitDocument : Type 0 where
  pub first_page : ℤ
  pub last_page : ℤ
  pub kind : String

pub data Reason : Type 0 where
  no_documents : Reason
  above_cap : ℕ → Reason
  first_after_last : PageRange → Reason
  outside_file : PageRange → ℕ → Reason
  not_ascending : PageRange → PageRange → Reason
  share_page : PageRange → PageRange → Reason
  missing_pages : List ℤ → Reason

pub record FileSplitGateResult : Type 0 where
  pub result : Bool
  pub reason : Option Reason
  pub ranges : List PageRange
  pub proposed : List PageRange
  pub checks : List (GateCheck Reason)

abbrev pub max_split_documents : ℕ
max_split_documents = 20

abbrev pub proposed_range : SplitDocument → PageRange
proposed_range d = record { from = d.first_page; to = d.last_page }

abbrev pub rejected : List PageRange → List (GateCheck Reason) → Reason → FileSplitGateResult
rejected proposed checks reason = record {
  result = false;
  reason = some reason;
  ranges = [];
  proposed = proposed;
  checks = checks;
}

abbrev pub count_ok : ℕ → Bool
count_ok count = leb 1 count && leb count max_split_documents

abbrev count_reason : ℕ → Reason
count_reason count = if count == 0 then no_documents else above_cap count

-- A range that does not lie inside the file, or runs backwards.
abbrev pub is_outside : ℕ → PageRange → Bool
is_outside pages r = ltb_ℤ r.from (pos 1) || ltb_ℤ (pos pages) r.to || ltb_ℤ r.to r.from

abbrev outside_reason : ℕ → PageRange → Reason
outside_reason pages r = if ltb_ℤ r.to r.from then first_after_last r else outside_file r pages

-- The loop over neighbours: the first pair that is out of order or shares a page.
unfoldable pub order_reason : List PageRange → Option Reason
order_reason [] = none
order_reason (previous ∷ []) = none
order_reason (previous ∷ current ∷ rest) =
    let later = order_reason (current ∷ rest) in
    if leb_ℤ current.from previous.to
    then some (
        if ltb_ℤ current.to previous.from
        then not_ascending previous current
        else share_page previous current)
    else later

-- `for (page = start; rounds left; page += 1)`: the pages that the loop visits.
unfoldable pub pages_from : ℕ → ℤ → List ℤ
pages_from zero start = []
pages_from (suc rounds) start = start ∷ pages_from rounds (start +ℤ pos 1)

-- `for (page = range.from; page <= range.to; page += 1)`
unfoldable pub range_pages : PageRange → List ℤ
range_pages r = pages_from (pos_part (r.to +ℤ pos 1 -ℤ r.from)) r.from

-- The pages that the accepted ranges hold, in the order in which they are cut.
unfoldable pub covered_pages : List PageRange → List ℤ
covered_pages [] = []
covered_pages (r ∷ rs) = range_pages r ++ covered_pages rs

abbrev pub eq_ℤ : ℤ → ℤ → Bool
eq_ℤ a b = (pos_part a + neg_part b) == (pos_part b + neg_part a)

-- `covered.has(page)`
unfoldable pub has : List ℤ → ℤ → Bool
has pages p = any (eq_ℤ p) pages

-- The pages of the file that belong to no range.
unfoldable pub missing : List PageRange → ℕ → List ℤ
missing proposed pages = keep (λ p. not (has (covered_pages proposed) p)) (pages_from pages (pos 1))

abbrev pub is_empty {ℓ} : {A : Type ℓ} → List A → Bool
is_empty [] = true
is_empty (x ∷ xs) = false

-- Checks 4, 3, 2 and 1 of the gate; each is run once those before it have passed.
unfoldable check_coverage : List PageRange → ℕ → List (GateCheck Reason) → FileSplitGateResult
check_coverage proposed pages checks =
    let left = missing proposed pages in
    let checks' =
      checks ++ check "all_pages_covered" (is_empty left) (some (missing_pages left)) ∷ [] in
    if is_empty left
    then record {
      result = true;
      reason = none;
      ranges = proposed;
      proposed = proposed;
      checks = checks';
    }
    else rejected proposed checks' (missing_pages left)

unfoldable check_order : List PageRange → ℕ → List (GateCheck Reason) → FileSplitGateResult
unfolding check_coverage
check_order proposed pages checks =
    let reason = order_reason proposed in
    let checks' = checks ++ check "ranges_ordered_no_overlap" (not (is_some reason)) reason ∷ [] in
    elim reason [
      | some why ↦ rejected proposed checks' why
      | none ↦ check_coverage proposed pages checks'
    ]

unfoldable check_inside : List PageRange → ℕ → List (GateCheck Reason) → FileSplitGateResult
unfolding check_order
check_inside proposed pages checks = elim (find (is_outside pages) proposed) [
  | some r ↦
      rejected proposed
        (checks ++ check "ranges_inside_file" false (some (outside_reason pages r)) ∷ [])
        (outside_reason pages r)
  | none ↦ check_order proposed pages (checks ++ check "ranges_inside_file" true none ∷ [])
]

-- `validateFileSplit`
unfoldable pub validate_file_split : List SplitDocument → ℕ → FileSplitGateResult
unfolding check_inside
validate_file_split documents pages =
    let proposed = map proposed_range documents in
    let count = length proposed in
    let checks =
      check "document_count_within_cap" (count_ok count) (some (count_reason count)) ∷ [] in
    if count_ok count
    then check_inside proposed pages checks
    else rejected proposed checks (count_reason count)
