-- ===== src/Ties/NewRows.antt =====
-- `assignFilesToNewRows` of src/agents/declarationOfCapital/fileTies.ts: the files that the rows
-- created in this cycle take.
use fiscal_mind_agent.Prelude.{
  Bool, true, not, ◌||◌, String, Option, none, some, is_some, List, [], ◌∷◌, ◌++◌, any, str_eq,
  if◌then◌else◌,
}
use fiscal_mind_agent.Ties.Evidence.{DocumentFile, is_split_parent, is_verified_legible_file}
use fiscal_mind_agent.Ties.Company.{
  TieDocument, TieRefusal, unknown_file, row_not_pending, split_parent, not_verified_legible,
  already_attached, type_differs, paper_differs, file_already_taken, differs, file_type,
  paper_refusal, company_refusal,
}
use fiscal_mind_agent.Ties.Pairs.{RefusedTie}

pub record NewRowFiles : Type 0 where
  pub row : TieDocument
  pub file_ids : List String

pub record Tie : Type 0 where
  pub file_id : String
  pub document_id : String

pub record Assignment : Type 0 where
  pub taken : List String
  pub pairs : List Tie
  pub refused : List RefusedTie

abbrev pub nothing_assigned : Assignment
nothing_assigned = record { taken = []; pairs = []; refused = [] }

module _ (identify : Option String → Option String) (institution_bound : Option String → Bool)
    (file_by_id : String → Option DocumentFile) where
  -- The chain of tests, in the source's order; `none` = the row takes the file.
  abbrev pub file_refusal : TieDocument → Bool → Option DocumentFile → Option TieRefusal
  file_refusal row taken none = some unknown_file
  file_refusal row taken (some f) =
      if not row.is_pending
      then some row_not_pending
      else if is_split_parent f
      then some split_parent
      else if not (is_verified_legible_file f)
      then some not_verified_legible
      else if is_some f.client_document_id
      then some already_attached
      else if not (is_some row.type_key) || differs (file_type f) row.type_key
      then some type_differs
      else if is_some (paper_refusal f row)
      then some paper_differs
      else if taken
      then some file_already_taken
      else company_refusal identify institution_bound f row true

  abbrev pub refuse : String → TieDocument → TieRefusal → Assignment → Assignment
  refuse file_id row reason a = record a {
    refused = a.refused ++ record { file_id = file_id; document_id = row.id; reason = reason } ∷ [];
  }

  abbrev attach : String → TieDocument → Assignment → Assignment
  attach file_id row a = record a {
    taken = a.taken ++ file_id ∷ [];
    pairs = a.pairs ++ record { file_id = file_id; document_id = row.id } ∷ [];
  }

  -- The inner loop: it ends with the first file that the row takes.
  unfoldable pub assign_files : TieDocument → List String → Assignment → Assignment
  unfolding is_split_parent is_verified_legible_file paper_refusal company_refusal
  assign_files row [] a = a
  assign_files row (f ∷ fs) a = elim (file_refusal row (any (str_eq f) a.taken) (file_by_id f)) [
    | some reason ↦ assign_files row fs (refuse f row reason a)
    | none ↦ attach f row a
  ]

  unfoldable pub assign_rows : List NewRowFiles → Assignment → Assignment
  unfolding assign_files
  assign_rows [] a = a
  assign_rows (r ∷ rs) a = assign_rows rs (assign_files r.row r.file_ids a)

  unfoldable pub assign_files_to_new_rows : List NewRowFiles → Assignment
  unfolding assign_rows
  assign_files_to_new_rows created = assign_rows created nothing_assigned
