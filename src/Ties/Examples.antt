-- ===== src/Ties/Examples.antt =====
-- The ties on a concrete cycle: a table with two companies, two files and two items.
use fiscal_mind_agent.Prelude.{
  Bool, true, false, ◌≡◌, refl, String, Option, none, some, List, [], ◌∷◌, map, str_eq,
  if◌then◌else◌,
}
use fiscal_mind_agent.Ties.Evidence.{DocumentFile, done, FilePair}
use fiscal_mind_agent.Ties.Company.{TieDocument, companies_differ}
use fiscal_mind_agent.Ties.Pairs.{filter_pairs_by_company}
use fiscal_mind_agent.Ties.NewRows.{NewRowFiles, assign_files_to_new_rows}
use fiscal_mind_agent.Ties.Allowed.{IsFiltered, filter_pairs_by_company-IsFiltered}
use fiscal_mind_agent.Prelude.Distinct.{Distinct}
use fiscal_mind_agent.Ties.Assigned.{Serves, assign_files_to_new_rows-Serves}

abbrev names : Option String → Option String
names none = none
names (some t) =
    if str_eq t "Clal" then some "clal" else if str_eq t "Harel" then some "harel" else none

abbrev bound : Option String → Bool
bound none = false
bound (some t) = str_eq t "pension"

abbrev report : String → String → DocumentFile
report id company = record {
  id = id;
  client_document_id = none;
  analysis_status = done;
  analysis = some (record {
    issuer_name = some company;
    matched_document_id = some "d1";
    legible = true;
    injection_suspected = false;
    document_type = some "pension";
    document_paper = none;
  });
}

abbrev files : String → Option DocumentFile
files id =
    if str_eq id "f1"
    then some (report "f1" "Clal")
    else if str_eq id "f2"
    then some (report "f2" "Harel")
    else none

abbrev item : String → String → TieDocument
item id name = record {
  id = id;
  name = name;
  type_key = some "pension";
  paper_key = none;
  is_pending = true;
}

abbrev pairs : List FilePair
pairs =
    record { file_id = "f1"; document_id = "d1"; has_evidence = false }
    ∷ record { file_id = "f2"; document_id = "d1"; has_evidence = true }
    ∷ []

abbrev items : List TieDocument
items = item "d1" "Clal" ∷ item "d2" "Harel" ∷ []

abbrev rows : List NewRowFiles
rows =
    record { row = item "d1" "Clal"; file_ids = "f2" ∷ "f1" ∷ [] }
    ∷ record { row = item "d2" "Harel"; file_ids = "f1" ∷ "f2" ∷ [] }
    ∷ []

-- Harel's report is not tied to Clal's item, whatever the client said.
filtered :
    map (λ r. r.reason) (filter_pairs_by_company names bound files pairs items).refused
    ≡ companies_differ ∷ []
unfolding filter_pairs_by_company
filtered = refl

assigned :
    map (λ t. t.file_id) (assign_files_to_new_rows names bound files rows).pairs ≡ "f1" ∷ "f2" ∷ []
unfolding assign_files_to_new_rows
assigned = refl

filter_pairs_by_company-IsFiltered_example :
    IsFiltered names bound files items pairs (filter_pairs_by_company names bound files pairs items)
filter_pairs_by_company-IsFiltered_example =
    filter_pairs_by_company-IsFiltered names bound files items pairs

assign_files_to_new_rows-Serves_example :
    let out = assign_files_to_new_rows names bound files rows in
    Distinct (map (λ t. t.file_id) out.pairs) × Serves names bound files rows out.pairs
assign_files_to_new_rows-Serves_example = assign_files_to_new_rows-Serves names bound files rows
