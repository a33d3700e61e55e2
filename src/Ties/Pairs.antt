-- ===== src/Ties/Pairs.antt =====
-- `filterPairsByCompany` of src/agents/declarationOfCapital/fileTies.ts. The map of files is a
-- function; the map of documents is built from the list, where the last of one id stands.
use fiscal_mind_agent.Prelude.{
  Bool, String, Option, none, some, List, [], ◌∷◌, first_some, str_eq, if◌then◌else◌,
}
use fiscal_mind_agent.Ties.Evidence.{DocumentFile, FilePair}
use fiscal_mind_agent.Ties.Company.{TieDocument, TieRefusal, paper_refusal, company_refusal}

pub record RefusedTie : Type 0 where
  pub file_id : String
  pub document_id : String
  pub reason : TieRefusal

pub record Filtered : Type 0 where
  pub allowed : List FilePair
  pub refused : List RefusedTie

-- `new Map(documents.map((d) => [d.id, d])).get(id)`
unfoldable pub document_by_id : String → List TieDocument → Option TieDocument
document_by_id id [] = none
document_by_id id (d ∷ ds) =
    first_some (document_by_id id ds) (if str_eq d.id id then some d else none)

module _ (identify : Option String → Option String) (institution_bound : Option String → Bool)
    (file_by_id : String → Option DocumentFile) where
  abbrev pub tie_refusal : Option DocumentFile → Option TieDocument → Bool → Option TieRefusal
  tie_refusal (some f) (some d) has_evidence =
      first_some (paper_refusal f d) (company_refusal identify institution_bound f d has_evidence)
  tie_refusal _ _ has_evidence = none

  abbrev pub pair_refusal : List TieDocument → FilePair → Option TieRefusal
  pair_refusal documents p =
      tie_refusal (file_by_id p.file_id) (document_by_id p.document_id documents) p.has_evidence

  abbrev file_pair : FilePair → Option TieRefusal → Filtered → Filtered
  file_pair p none out = record out { allowed = p ∷ out.allowed }
  file_pair p (some reason) out = record out {
    refused =
        record { file_id = p.file_id; document_id = p.document_id; reason = reason } ∷ out.refused;
  }

  -- Each list in the order of the pairs.
  unfoldable pub filter_pairs_by_company : List FilePair → List TieDocument → Filtered
  unfolding paper_refusal company_refusal document_by_id
  filter_pairs_by_company [] documents = record { allowed = []; refused = [] }
  filter_pairs_by_company (p ∷ ps) documents =
      file_pair p (pair_refusal documents p) (filter_pairs_by_company ps documents)
