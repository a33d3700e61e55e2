-- ===== src/Splitting/Examples.antt =====
-- The gate of the PDF split on concrete answers.
use fiscal_mind_agent.Prelude.{◌≡◌, refl, ◌↔◌, true, none, some, List, [], ◌∷◌, map}
use fiscal_mind_agent.Prelude.Int.{ℤ, pos, negsuc, ◌+ℤ◌, ◌-ℤ◌}
use fiscal_mind_agent.Splitting.Gate.{
  PageRange, SplitDocument, proposed_range, validate_file_split, share_page, missing_pages,
  first_after_last, no_documents, order_reason, pages_from, range_pages, covered_pages, has,
  missing,
}
use fiscal_mind_agent.Splitting.Verdict.{IsCut, accepts_iff}

abbrev part : ℤ → ℤ → SplitDocument
part from to = record { first_page = from; last_page = to; kind = "statement" }

abbrev range : ℤ → ℤ → PageRange
range from to = record { from = from; to = to }

gate : Unit {0}
unfolding validate_file_split order_reason pages_from range_pages covered_pages has missing ◌+ℤ◌
    ◌-ℤ◌
gate = tt

verdicts :
    ((validate_file_split (part (pos 1) (pos 2) ∷ part (pos 3) (pos 5) ∷ []) 5).reason ≡ none)
    × ((validate_file_split (part (pos 1) (pos 3) ∷ part (pos 3) (pos 5) ∷ []) 5).reason
        ≡ some (share_page (range (pos 1) (pos 3)) (range (pos 3) (pos 5))))
    × ((validate_file_split (part (pos 1) (pos 2) ∷ part (pos 4) (pos 4) ∷ []) 5).reason
        ≡ some (missing_pages (pos 3 ∷ pos 5 ∷ [])))
    × ((validate_file_split (part (pos 2) (negsuc 0) ∷ []) 5).reason
        ≡ some (first_after_last (range (pos 2) (negsuc 0))))
    × ((validate_file_split [] 5).reason ≡ some no_documents)
unfolding gate
verdicts = (refl, refl, refl, refl, refl)

abbrev answer : List SplitDocument
answer = part (pos 1) (pos 2) ∷ part (pos 3) (pos 5) ∷ []

accepts_iff_example :
    ((validate_file_split answer 5).result ≡ true) ↔ IsCut (map proposed_range answer) 5
accepts_iff_example = accepts_iff answer 5

abbrev gap : List SplitDocument
gap = part (pos 1) (pos 2) ∷ part (pos 4) (pos 4) ∷ []
