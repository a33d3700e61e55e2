-- ===== src/Ties/Assigned.antt =====
-- What holds of the files that the rows created in one cycle take.
use fiscal_mind_agent.Prelude.{
  Bool, true, false, ◌≡◌, ◌⊎◌, inl, inr, refl, sym, ap, ◌∙◌, String, Option, none, some, is_some,
  List, [], ◌∷◌, ◌++◌, map, any, str_eq, eq_refl, Option-cases, arith,
}
use mathlib.Core.List.{append_assoc, append-nil}
use fiscal_mind_agent.Prelude.Distinct.{Distinct, Distinct-append}
use fiscal_mind_agent.Ties.Evidence.{DocumentFile, is_split_parent, is_verified_legible_file}
use fiscal_mind_agent.Ties.Company.{
  TieDocument, differs, file_type, FitsPaper, FitsCompany, paper_refusal_iff, company_refusal_iff,
}
use fiscal_mind_agent.Ties.NewRows.{
  NewRowFiles, Tie, Assignment, nothing_assigned, file_refusal, refuse, assign_files, assign_rows,
  assign_files_to_new_rows,
}

module _ (identify : Option String → Option String) (institution_bound : Option String → Bool)
    (file_by_id : String → Option DocumentFile) where
  -- The file is known, real, readable, not attached, of the row's type, paper and company, and no
  -- original that was cut up; and the row is pending.
  abbrev FitsRow : TieDocument → Option DocumentFile → Type 0
  FitsRow row none = ⊥
  FitsRow row (some f) =
      (row.is_pending ≡ true)
      × (is_split_parent f ≡ false)
      × (is_verified_legible_file f ≡ true)
      × (f.client_document_id ≡ none)
      × (is_some row.type_key ≡ true)
      × (differs (file_type f) row.type_key ≡ false)
      × FitsPaper identify institution_bound f row
      × FitsCompany identify institution_bound f row true

  -- The ties go to the rows in their order, at most one to a row; each is a file that was named for
  -- the row and fits it.
  abbrev pub Serves : List NewRowFiles → List Tie → Type 0
  Serves [] [] = Unit
  Serves [] (t ∷ ts) = ⊥
  Serves (r ∷ rs) [] = Unit
  Serves (r ∷ rs) (t ∷ ts) =
      ((t.document_id ≡ r.row.id)
        × (any (str_eq t.file_id) r.file_ids ≡ true)
        × FitsRow r.row (file_by_id t.file_id)
        × Serves rs ts)
      ⊎ Serves rs (t ∷ ts)

  file_refusal-FitsRow :
      (row : TieDocument) (taken : Bool) (f : Option DocumentFile)
      → file_refusal identify institution_bound file_by_id row taken f ≡ none
      → (taken ≡ false) × FitsRow row f
  file_refusal-FitsRow row taken none h = ground arith
  file_refusal-FitsRow row taken (some f) h = ground (
    arith,
    paper_refusal_iff identify institution_bound f row,
    company_refusal_iff identify institution_bound f row true,
  )

  -- What the inner loop makes of an assignment: the row takes nothing, or one file.
  abbrev TakesOne : TieDocument → List String → Assignment → Assignment → Type 0
  TakesOne row files a x =
      ((x.pairs ≡ a.pairs) × (x.taken ≡ a.taken))
      ⊎ ((f : String) × (x.pairs ≡ a.pairs ++ record { file_id = f; document_id = row.id } ∷ [])
          × (x.taken ≡ a.taken ++ f ∷ [])
          × (any (str_eq f) a.taken ≡ false)
          × (any (str_eq f) files ≡ true)
          × FitsRow row (file_by_id f))

  TakesOne-cons :
      (row : TieDocument) (f : String) (files : List String) (a x : Assignment)
      → TakesOne row files a x
      → TakesOne row (f ∷ files) a x
  TakesOne-cons row f files a x (inl same) = inl same
  TakesOne-cons row f files a x (inr (g, ps, ts, new, named, fits)) =
      inr (g, ps, ts, new, ground arith, fits)

  assign_files-TakesOne :
      (row : TieDocument) (files : List String) (a : Assignment)
      → TakesOne row files a (assign_files identify institution_bound file_by_id row files a)
  unfolding assign_files
  assign_files-TakesOne row [] a = inl (refl, refl)
  assign_files-TakesOne row (f ∷ files) a =
      elim (Option-cases (
        file_refusal identify institution_bound file_by_id row (any (str_eq f) a.taken)
          (file_by_id f))) [
            | inl free ↦
                let (new, fits) = file_refusal-FitsRow row _ _ free in
                rw (free, assign_files) (inr (f, refl, refl, new, rw (eq_refl f) refl, fits))
            | inr (reason, e) ↦
                let b = refuse identify institution_bound file_by_id f row reason a in
                rw (e, assign_files)
                  (TakesOne-cons row f files a
                    (assign_files identify institution_bound file_by_id row files b)
                    (assign_files-TakesOne row files b))
          ]

  -- What the outer loop adds to an assignment.
  record Adds (rows : List NewRowFiles) (a x : Assignment) : Type 0 where
    ties : List Tie
    grown : x.pairs ≡ a.pairs ++ ties
    recorded : x.taken ≡ a.taken ++ map (λ t. t.file_id) ties
    distinct : Distinct x.taken
    served : Serves rows ties

  Adds-skip :
      (r : NewRowFiles) (rows : List NewRowFiles) (a b x : Assignment)
      → b.pairs ≡ a.pairs
      → b.taken ≡ a.taken
      → Adds rows b x
      → Adds (r ∷ rows) a x
  Adds-skip r rows a b x ps ts h = record {
    ties = h.ties;
    grown = rw (← ps) h.grown;
    recorded = rw (← ts) h.recorded;
    distinct = h.distinct;
    served = skip h.ties h.served;
  }
    where
      skip : (ties : List Tie) → Serves rows ties → Serves (r ∷ rows) ties
      skip [] s = tt
      skip (t ∷ ts) s = inr s

  assign_rows-Adds :
      (rows : List NewRowFiles) (a : Assignment)
      → Distinct a.taken
      → Adds rows a (assign_rows identify institution_bound file_by_id rows a)
  unfolding assign_rows
  assign_rows-Adds [] a h = record {
    ties = [];
    grown = sym (append-nil _);
    recorded = sym (append-nil _);
    distinct = h;
    served = tt;
  }
  assign_rows-Adds (r ∷ rows) a h =
      let b = assign_files identify institution_bound file_by_id r.row r.file_ids a in
      elim (assign_files-TakesOne r.row r.file_ids a) [
        | inl (ps, ts) ↦ Adds-skip r rows a b _ ps ts (assign_rows-Adds rows b (rw ts h))
        | inr (f, ps, ts, new, named, fits) ↦
            let more = assign_rows-Adds rows b (rw ts (Distinct-append a.taken f h new)) in
            record {
              ties = record { file_id = f; document_id = r.row.id } ∷ more.ties;
              grown =
                  more.grown
                  ∙ ap (λ l. l ++ more.ties) ps
                  ∙ append_assoc a.pairs (record { file_id = f; document_id = r.row.id } ∷ [])
                      more.ties;
              recorded =
                  more.recorded
                  ∙ ap (λ l. l ++ map (λ t. t.file_id) more.ties) ts
                  ∙ append_assoc a.taken (f ∷ []) (map (λ t. t.file_id) more.ties);
              distinct = more.distinct;
              served = inl (refl, named, fits, more.served);
            }
      ]

  -- No file goes to two rows, no row takes two files, and each tie is a file that was named for its row
  -- and fits it: a known, real, readable and unattached file of the row's type, paper and company.
  pub assign_files_to_new_rows-Serves :
      (rows : List NewRowFiles)
      → let out = assign_files_to_new_rows identify institution_bound file_by_id rows in
        Distinct (map (λ t. t.file_id) out.pairs) × Serves rows out.pairs
  unfolding assign_files_to_new_rows
  assign_files_to_new_rows-Serves rows =
      let h = assign_rows-Adds rows nothing_assigned tt in
      (rw h.grown (rw h.recorded at h.distinct), rw h.grown h.served)
