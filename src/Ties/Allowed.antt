-- ===== src/Ties/Allowed.antt =====
-- What the planner's pairs have passed when the filter lets them through.
use fiscal_mind_agent.Prelude.{
  Bool, ◌≡◌, ◌↔◌, inl, inr, refl, String, Option, none, some, is_some, List, [], ◌∷◌, keep, All,
  not, Option-cases, arith,
}
use fiscal_mind_agent.Ties.Evidence.{DocumentFile, FilePair}
use fiscal_mind_agent.Ties.Company.{
  TieDocument, TieRefusal, FitsPaper, FitsCompany, paper_refusal_iff, company_refusal_iff,
}
use fiscal_mind_agent.Ties.Pairs.{
  RefusedTie, Filtered, document_by_id, tie_refusal, pair_refusal, filter_pairs_by_company,
}

module _ (identify : Option String → Option String) (institution_bound : Option String → Bool)
    (file_by_id : String → Option DocumentFile) where
  -- A pair is refused for its reason; without one it is allowed.
  abbrev refusal_of : List TieDocument → FilePair → Option TieRefusal
  refusal_of documents p = pair_refusal identify institution_bound file_by_id documents p

  -- Where the ids of a pair name a file and an item, the file fits the item.
  abbrev FitsBoth : Option DocumentFile → Option TieDocument → Bool → Type 0
  FitsBoth (some f) (some d) has_evidence =
      FitsPaper identify institution_bound f d
      × FitsCompany identify institution_bound f d has_evidence
  FitsBoth _ _ has_evidence = Unit

  abbrev FitsPair : List TieDocument → FilePair → Type 0
  FitsPair documents p =
      FitsBoth (file_by_id p.file_id) (document_by_id p.document_id documents) p.has_evidence

  tie_refusal-FitsBoth :
      (f : Option DocumentFile) (d : Option TieDocument) (has_evidence : Bool)
      → (tie_refusal identify institution_bound file_by_id f d has_evidence ≡ none)
        ↔ FitsBoth f d has_evidence
  tie_refusal-FitsBoth none d e = ground arith
  tie_refusal-FitsBoth (some f) none e = ground arith
  tie_refusal-FitsBoth (some f) (some d) e = ground (
    arith,
    paper_refusal_iff identify institution_bound f d,
    company_refusal_iff identify institution_bound f d e,
  )

  -- The pairs of the refused list: each has the refusal that its reason names.
  abbrev IsRefusal : List TieDocument → List FilePair → List RefusedTie → Type 0
  IsRefusal documents [] [] = Unit
  IsRefusal documents (p ∷ ps) (r ∷ rs) =
      (r.file_id ≡ p.file_id)
      × (r.document_id ≡ p.document_id)
      × (refusal_of documents p ≡ some r.reason)
      × IsRefusal documents ps rs
  IsRefusal documents _ _ = ⊥

  abbrev pub IsFiltered : List TieDocument → List FilePair → Filtered → Type 0
  IsFiltered documents ps out =
      (out.allowed ≡ keep (λ p. not (is_some (refusal_of documents p))) ps)
      × All (FitsPair documents) out.allowed
      × IsRefusal documents (keep (λ p. is_some (refusal_of documents p)) ps) out.refused

  -- The filter keeps, in their order, exactly the pairs without a refusal, and each of them fits its
  -- item's paper and company; the others stand in the refused list, in their order, each with its
  -- reason.
  pub filter_pairs_by_company-IsFiltered :
      (documents : List TieDocument) (ps : List FilePair)
      → IsFiltered documents ps
          (filter_pairs_by_company identify institution_bound file_by_id ps documents)
  unfolding filter_pairs_by_company
  filter_pairs_by_company-IsFiltered documents [] = (refl, tt, tt)
  filter_pairs_by_company-IsFiltered documents (p ∷ ps) =
      let (kept, fit, refused) = filter_pairs_by_company-IsFiltered documents ps in
      elim (Option-cases (refusal_of documents p)) [
        | inl allowed ↦
            rw allowed (rw kept refl, ((tie_refusal-FitsBoth _ _ _).0 allowed, fit), refused)
        | inr (reason, e) ↦ rw e (kept, fit, (refl, refl, e, refused))
      ]
