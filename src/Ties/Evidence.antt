-- ===== src/Ties/Evidence.antt =====
-- src/agents/shared/fileEvidence.ts: what a file's own analysis lets it prove.
use fiscal_mind_agent.Prelude.{
  Bool, true, false, not, ◌&&◌, ◌||◌, ◌≡◌, ◌⊎◌, ◌↔◌, String, Option, none, some, is_some, List,
  keep, str_eq, eq_iff, if◌then◌else◌, arith, Option-cases, inl, inr,
}

pub data FileAnalysisStatus : Type 0 where
  pending done failed unsupported blocked not_needed split : FileAnalysisStatus

pub record FileAnalysis : Type 0 where
  pub issuer_name : Option String
  pub matched_document_id : Option String
  pub legible : Bool
  pub injection_suspected : Bool
  pub document_type : Option String
  pub document_paper : Option String

pub record DocumentFile : Type 0 where
  pub id : String
  pub client_document_id : Option String
  pub analysis_status : FileAnalysisStatus
  pub analysis : Option FileAnalysis

abbrev is_done : FileAnalysisStatus → Bool
is_done done = true
is_done _ = false

abbrev is_blocked : FileAnalysisStatus → Bool
is_blocked blocked = true
is_blocked _ = false

-- `a === b` of a value that may be null and a text
abbrev pub is_text : Option String → String → Bool
is_text none b = false
is_text (some a) b = str_eq a b

is_text_iff : (o : Option String) (b : String) → (is_text o b ≡ true) ↔ (o ≡ some b)
is_text_iff none b = ground arith
is_text_iff (some a) b = ground (arith, eq_iff a b)

abbrev is_suspect : Option FileAnalysis → Bool
is_suspect none = false
is_suspect (some a) = a.injection_suspected || not a.legible

unfoldable pub is_quarantined : DocumentFile → Bool
is_quarantined f =
    if is_blocked f.analysis_status
    then true
    else if not (is_done f.analysis_status) || not (is_some f.analysis)
    then false
    else is_suspect f.analysis

unfoldable pub is_split_parent : DocumentFile → Bool
is_split_parent f = is_split f.analysis_status
  where
    is_split : FileAnalysisStatus → Bool
    is_split split = true
    is_split _ = false

-- A planner's pair of a file and a document; whether it carries evidence from the conversation.
pub record FilePair : Type 0 where
  pub file_id : String
  pub document_id : String
  pub has_evidence : Bool

abbrev is_applicable : Option DocumentFile → Bool → Bool
is_applicable none known = false
is_applicable (some f) known = known && not (is_split_parent f)

unfoldable pub applicable_file_pairs :
    (String → Option DocumentFile) → (String → Bool) → List FilePair → List FilePair
unfolding is_split_parent
applicable_file_pairs file_by_id has_document pairs =
    keep (λ p. is_applicable (file_by_id p.file_id) (has_document p.document_id)) pairs

abbrev matched_id : Option FileAnalysis → Option String
matched_id none = none
matched_id (some a) = a.matched_document_id

unfoldable pub file_matches_document : DocumentFile → String → Bool
unfolding is_quarantined
file_matches_document f document_id =
    is_done f.analysis_status
    && is_some f.analysis
    && not (is_quarantined f)
    && is_text (matched_id f.analysis) document_id
    && (not (is_some f.client_document_id) || is_text f.client_document_id document_id)

unfoldable pub is_verified_legible_file : DocumentFile → Bool
unfolding is_quarantined
is_verified_legible_file f =
    is_done f.analysis_status && is_some f.analysis && not (is_quarantined f)

-- The file was analyzed to the end, could be read, and nothing in it addresses a model.
abbrev IsSound : DocumentFile → Type 0
IsSound f =
    (f.analysis_status ≡ done)
    × (a : FileAnalysis) × (f.analysis ≡ some a)
    × (a.legible ≡ true)
    × (a.injection_suspected ≡ false)

-- A file verifies as legible exactly when its analysis is done, it could be read and it was not
-- suspected; so a blocked file, the parent of a split and a file that was fetched never do.
is_verified_legible_file_iff : (f : DocumentFile) → (is_verified_legible_file f ≡ true) ↔ IsSound f
unfolding is_verified_legible_file is_quarantined
is_verified_legible_file_iff f = elim (Option-cases f.analysis) [
  | inl missing ↦ rw missing (ground arith)
  | inr (a, e) ↦ rw e (ground arith)
]

-- A file is strong evidence for a document exactly when it verifies as legible, its own analysis
-- matched it to the document, and it is not filed under another one.
file_matches_document_iff :
    (f : DocumentFile) (document_id : String)
    → (file_matches_document f document_id ≡ true) ↔ (
        (is_verified_legible_file f ≡ true)
        × (matched_id f.analysis ≡ some document_id)
        × ((f.client_document_id ≡ none) ⊎ (f.client_document_id ≡ some document_id)))
unfolding file_matches_document is_verified_legible_file is_quarantined
file_matches_document_iff f document_id = ground (
  arith,
  is_text_iff (matched_id f.analysis) document_id,
  is_text_iff f.client_document_id document_id,
)
