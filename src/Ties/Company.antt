-- ===== src/Ties/Company.antt =====
-- The company and paper checks of one tie: src/agents/declarationOfCapital/fileTies.ts and the rules of
-- institutions.ts. What company a text names (`identifyInstitution`, a text search in the table of
-- institutions) and which types an institution issues (`isInstitutionBound`, the catalog) are
-- parameters: the rules hold for any.
use fiscal_mind_agent.Prelude.{
  Bool, true, false, not, ◌&&◌, ◌≡◌, ◌⊎◌, ◌↔◌, String, Option, none, some, is_some, has_text,
  str_eq, eq_iff, if◌then◌else◌, arith,
}
use fiscal_mind_agent.Ties.Evidence.{DocumentFile, is_text}

pub record TieDocument : Type 0 where
  pub id : String
  pub name : String
  pub type_key : Option String
  pub paper_key : Option String
  -- only the items created in this cycle are asked for it
  pub is_pending : Bool

pub data TieRefusal : Type 0 where
  companies_differ company_unidentified_no_client_quote unknown_file split_parent : TieRefusal
  not_verified_legible already_attached type_differs paper_differs : TieRefusal
  file_already_taken row_not_pending : TieRefusal

pub data CompanyVerdict : Type 0 where
  same different file_unidentified item_unidentified : CompanyVerdict

abbrev issuer : DocumentFile → Option String
issuer f = elim f.analysis [ none ↦ none | some a ↦ a.issuer_name ]

abbrev pub file_type : DocumentFile → Option String
file_type f = elim f.analysis [ none ↦ none | some a ↦ a.document_type ]

abbrev file_paper : DocumentFile → Option String
file_paper f = elim f.analysis [ none ↦ none | some a ↦ a.document_paper ]

-- `file.analysis?.document_type !== key`, where a missing type is not null
abbrev pub differs : Option String → Option String → Bool
differs t none = true
differs t (some key) = not (is_text t key)

abbrev paper_of : Option String → Option String → Option TieRefusal
paper_of paper none = none
paper_of paper (some key) =
    if str_eq key "" then none else if is_text paper key then none else some paper_differs

unfoldable pub paper_refusal : DocumentFile → TieDocument → Option TieRefusal
paper_refusal f d = paper_of (file_paper f) d.paper_key

-- `compareCompanies`, on the companies that the file and the item name.
unfoldable pub compare_companies : Option String → Option String → CompanyVerdict
compare_companies none item = file_unidentified
compare_companies (some file) none = item_unidentified
compare_companies (some file) (some item) = if str_eq file item then same else different

abbrev tie_allowed_by_company : CompanyVerdict → Bool → Bool
tie_allowed_by_company same has_evidence = true
tie_allowed_by_company item_unidentified has_evidence = true
tie_allowed_by_company different has_evidence = false
tie_allowed_by_company file_unidentified has_evidence = has_evidence

abbrev is_item_unidentified : CompanyVerdict → Bool
is_item_unidentified item_unidentified = true
is_item_unidentified _ = false

abbrev refused_for : CompanyVerdict → TieRefusal
refused_for different = companies_differ
refused_for _ = company_unidentified_no_client_quote

paper_of_iff :
    (paper key : Option String)
    → (paper_of paper key ≡ none)
      ↔ ((has_text key ≡ false) ⊎ ((paper ≡ key) × (is_some key ≡ true)))
paper_of_iff paper none = ground arith
paper_of_iff none (some key) = ground arith
paper_of_iff (some p) (some key) = ground (arith, eq_iff p key)

-- `companyRefusal`, on what it reads of the file and the item.
abbrev decided : Bool → CompanyVerdict → Bool → Bool → Option TieRefusal
decided bound v types_differ has_evidence =
    if not bound
    then none
    else if is_item_unidentified v && types_differ
    then some type_differs
    else if tie_allowed_by_company v has_evidence
    then none
    else some (refused_for v)

decided_iff :
    (bound : Bool) (file item : Option String) (types_differ has_evidence : Bool)
    → (decided bound (compare_companies file item) types_differ has_evidence ≡ none) ↔ (
        (bound ≡ false)
        ⊎ ((file ≡ none) × (has_evidence ≡ true))
        ⊎ ((is_some file ≡ true) × (file ≡ item))
        ⊎ ((is_some file ≡ true) × (item ≡ none) × (types_differ ≡ false)))
unfolding compare_companies
decided_iff bound none item types_differ has_evidence = ground arith
decided_iff bound (some f) none types_differ has_evidence = ground arith
decided_iff bound (some f) (some i) types_differ has_evidence = ground (arith, eq_iff f i)

module _ (identify : Option String → Option String) (institution_bound : Option String → Bool) where
  abbrev pub verdict : DocumentFile → TieDocument → CompanyVerdict
  verdict f d = compare_companies (identify (issuer f)) (identify (some d.name))

  unfoldable pub company_refusal : DocumentFile → TieDocument → Bool → Option TieRefusal
  unfolding compare_companies
  company_refusal f d has_evidence =
      decided (institution_bound d.type_key) (verdict f d) (differs (file_type f) d.type_key)
        has_evidence

  -- What a tie has passed: an item of one paper takes a file of that paper; and for an item of a
  -- type that institutions issue, the file and the item name one company, or the item names none and
  -- the types agree, or the file names none and the client's own words back the tie.
  abbrev pub FitsPaper : DocumentFile → TieDocument → Type 0
  FitsPaper f d =
      (has_text d.paper_key ≡ false) ⊎ ((file_paper f ≡ d.paper_key) × (is_some d.paper_key ≡ true))

  abbrev pub FitsCompany : DocumentFile → TieDocument → Bool → Type 0
  FitsCompany f d has_evidence =
      (institution_bound d.type_key ≡ false)
      ⊎ ((identify (issuer f) ≡ none) × (has_evidence ≡ true))
      ⊎ ((is_some (identify (issuer f)) ≡ true) × (identify (issuer f) ≡ identify (some d.name)))
      ⊎ ((is_some (identify (issuer f)) ≡ true)
          × (identify (some d.name) ≡ none)
          × (differs (file_type f) d.type_key ≡ false))

  -- The paper check lets a tie through exactly when the item stands for no paper or the file is of
  -- the item's paper.
  pub paper_refusal_iff :
      (f : DocumentFile) (d : TieDocument) → (paper_refusal f d ≡ none) ↔ FitsPaper f d
  unfolding paper_refusal
  paper_refusal_iff f d = paper_of_iff (file_paper f) d.paper_key

  -- The company check lets a tie through exactly when no institution issues the item's type, or the
  -- file names no company and the client's words back the tie, or both name the same company, or
  -- the file names one, the item none, and the types agree.
  pub company_refusal_iff :
      (f : DocumentFile) (d : TieDocument) (has_evidence : Bool)
      → (company_refusal f d has_evidence ≡ none) ↔ FitsCompany f d has_evidence
  unfolding company_refusal compare_companies
  company_refusal_iff f d has_evidence =
      decided_iff (institution_bound d.type_key) (identify (issuer f)) (identify (some d.name))
        (differs (file_type f) d.type_key) has_evidence
