-- ===== src/Decision/Lists.antt =====
-- The validators of the lists of an answer (src/agents/declarationOfCapital/decisionSchema.ts):
-- resolutions, additions, retirements and matched files. The catalog (catalog.ts) and the naming of an
-- item after its company (splitChildNames.ts) are arguments.
use fiscal_mind_agent.Prelude.{
  ℕ, zero, suc, Bool, true, false, not, ◌||◌, ◌&&◌, String, Option, none, some, is_some, List, [],
  ◌∷◌, length, map, any, find, keep, str_eq, ltb, ◌==◌, if◌then◌else◌,
}
use fiscal_mind_agent.Documents.Table.{retired, is_one_of}
use fiscal_mind_agent.Decision.Result.{
  Result, ok, err, ◌>>=◌, ◌>>◌, reject_if, found_or, not_applicable, target_twice, not_resolvable,
  already_not_required, file_never_unneeded, approved_file_settles_nothing, not_typed_row,
  single_instance_only, already_retired, no_instances, bad_instance_name, bad_paper,
  too_many_instances,
}
use fiscal_mind_agent.Decision.Quotes.{trim, utf16_length}
use fiscal_mind_agent.Decision.Answer.{
  QuoteEvidence, SelfEvidentFile, Evidence, quoted, approved_file, self_evident_file, RawInstance,
  ResolvedInstance, Resolution, required, not_required, RawResolution, RawAddition, RawRetirement,
  RawMatch, ResolvableRow, IntakeState, DocumentResolution, needed, not_needed, InstanceAddition,
  DocumentRetirement, MatchedFile,
}
use fiscal_mind_agent.Decision.Evidence.{
  get, validate_evidence, validate_proven_by_file, retiring, adding, resolving,
}

pub record Catalog : Type 0 where
  -- the papers of a type, and the type of a paper
  pub papers_of : Option String → List String
  pub paper_type : String → Option String
  -- `selfEvidentItemName`
  pub item_name : String → SelfEvidentFile → String

-- `[...new Set(xs)]`
abbrev pub distinct : List String → List String
distinct [] = []
distinct (x ∷ xs) = x ∷ keep (λ y. not (str_eq x y)) (distinct xs)

-- `text || null`
abbrev non_empty : String → Option String
non_empty t = if str_eq t "" then none else some t

abbrev trimmed : Option String → Option String
trimmed none = none
trimmed (some t) = non_empty (trim t)

abbrev pub resolved_instance : RawInstance → ResolvedInstance
resolved_instance i = record {
  name = trim i.name;
  description = trimmed i.description;
  already_provided = i.already_provided;
  file_ids = distinct i.file_ids;
  paper_key = non_empty (trim i.paper_key);
}

abbrev pub same_type : Option String → Option String → Bool
same_type none type_key = false
same_type (some k) none = false
same_type (some k) (some t) = str_eq k t

-- `instancePaperFault` of src/agents/declarationOfCapital/catalog.ts: is there a fault
abbrev pub instance_paper_fault : Catalog → Option String → Option String → Bool
instance_paper_fault cat none type_key = not (length (cat.papers_of type_key) == 0)
instance_paper_fault cat (some paper) type_key =
    length (cat.papers_of type_key) == 0 || not (same_type (cat.paper_type paper) type_key)

abbrev pub bad_name : ResolvedInstance → Bool
bad_name i = utf16_length i.name == 0 || ltb 200 (utf16_length i.name)

unfoldable pub normalize_instances :
    Catalog → List RawInstance → Bool → Option String → Result (List ResolvedInstance)
unfolding utf16_length trim
normalize_instances cat raw multi_instance type_key = do
  let instances = map resolved_instance raw
  reject_if (length instances == 0) no_instances
  reject_if (any bad_name instances) bad_instance_name
  reject_if (any (λ i. instance_paper_fault cat i.paper_key type_key) instances) bad_paper
  reject_if (ltb 1 (length instances) && not multi_instance) single_instance_only
  reject_if (ltb 10 (length instances)) too_many_instances
  ok instances

abbrev on_file :
    Catalog → Option SelfEvidentFile → String → List ResolvedInstance → List ResolvedInstance
on_file cat none file_id instances = instances
on_file cat (some proof) file_id instances =
    map
      (λ (i : ResolvedInstance). record i {
        name = cat.item_name i.name proof;
        file_ids = distinct (file_id ∷ i.file_ids);
      })
      instances

-- `instancesOnSelfEvidentFile`
abbrev pub instances_on_self_evident_file :
    Catalog → List ResolvedInstance → Evidence → IntakeState → List ResolvedInstance
instances_on_self_evident_file cat instances (self_evident_file e) intake =
    on_file cat (get e.file_id intake.self_evident_files) e.file_id instances
instances_on_self_evident_file cat instances evidence intake = instances

-- The loop of the three validators: no target twice, and the first entry that is refused ends it.
module _ {E R : Type 0} (target : E → String) (validate : E → Result R) where
  unfoldable pub each_once : List String → List E → Result (List R)
  each_once seen [] = ok []
  each_once seen (e ∷ es) = do
    reject_if (any (str_eq (target e)) seen) target_twice
    r ← validate e
    rs ← each_once (target e ∷ seen) es
    ok (r ∷ rs)

abbrev pub quote_of : Option QuoteEvidence → IntakeState → Result Evidence
quote_of e intake = do q ← validate_evidence e intake.inbound_texts; ok (quoted q)

abbrev settles_a_row : Evidence → Bool
settles_a_row (approved_file file_id document_id fact) = false
settles_a_row _ = true

-- One entry of `validateResolutions`
abbrev pub resolution_of :
    Catalog → IntakeState → Resolution → RawResolution → ResolvableRow → Result DocumentResolution
resolution_of cat intake not_required entry row = do
  reject_if (not row.is_unresolved) already_not_required
  reject_if (not (is_some entry.evidence) && not (str_eq entry.proven_by_file_id ""))
      file_never_unneeded
  evidence ← validate_evidence entry.evidence intake.inbound_texts
  ok (not_needed entry.document_id evidence)
resolution_of cat intake required entry row = do
  instances ← normalize_instances cat entry.instances row.multi_instance row.type_key
  evidence ←
      if not (is_some entry.evidence) && not (str_eq entry.proven_by_file_id "")
      then validate_proven_by_file entry.proven_by_file_id (resolving row instances) intake
      else quote_of entry.evidence intake
  reject_if (not (settles_a_row evidence)) approved_file_settles_nothing
  ok (
      needed entry.document_id (instances_on_self_evident_file cat instances evidence intake)
        evidence)

unfoldable pub validate_resolution :
    Catalog → IntakeState → RawResolution → Result DocumentResolution
unfolding validate_evidence validate_proven_by_file normalize_instances
validate_resolution cat intake entry = do
  row ← found_or (find (λ r. str_eq r.id entry.document_id) intake.resolvable) not_resolvable
  resolution_of cat intake entry.resolution entry row

-- One entry of `validateAddedInstances`
unfoldable pub validate_addition : Catalog → IntakeState → RawAddition → Result InstanceAddition
unfolding validate_evidence validate_proven_by_file normalize_instances
validate_addition cat intake entry = do
  anchor ←
      found_or (find (λ r. str_eq r.id entry.anchor_document_id) intake.typed_rows) not_typed_row
  reject_if (not anchor.multi_instance) single_instance_only
  instances ← normalize_instances cat entry.instances true anchor.type_key
  evidence ←
      if not (is_some entry.evidence) && not (str_eq entry.proven_by_file_id "")
      then validate_proven_by_file entry.proven_by_file_id (adding anchor instances) intake
      else quote_of entry.evidence intake
  ok (record {
    anchor_document_id = entry.anchor_document_id;
    instances = instances_on_self_evident_file cat instances evidence intake;
    evidence = evidence;
  })

-- One entry of `validateRetirements`
unfoldable pub validate_retirement : IntakeState → RawRetirement → Result DocumentRetirement
unfolding validate_evidence validate_proven_by_file
validate_retirement intake entry = do
  row ← found_or (find (λ r. str_eq r.id entry.document_id) intake.typed_rows) not_typed_row
  reject_if (is_one_of (retired ∷ []) row.status) already_retired
  evidence ←
      if not (is_some entry.evidence) && not (str_eq entry.proven_by_file_id "")
      then validate_proven_by_file entry.proven_by_file_id (retiring row) intake
      else quote_of entry.evidence intake
  ok (record { document_id = entry.document_id; evidence = evidence })

-- A validator whose list may be empty where there is no intake.
abbrev pub with_intake :
    {R : Type 0} → ℕ → (IntakeState → Result (List R)) → Option IntakeState → Result (List R)
with_intake zero validate intake = ok []
with_intake (suc n) validate none = err not_applicable
with_intake (suc n) validate (some intake) = validate intake

unfoldable pub validate_resolutions :
    Catalog → List RawResolution → Option IntakeState → Result (List DocumentResolution)
unfolding each_once validate_resolution
validate_resolutions cat entries =
    with_intake (length entries)
      λ intake. each_once (λ e. e.document_id) (validate_resolution cat intake) [] entries

unfoldable pub validate_added_instances :
    Catalog → List RawAddition → Option IntakeState → Result (List InstanceAddition)
unfolding each_once validate_addition
validate_added_instances cat entries =
    with_intake (length entries)
      λ intake. each_once (λ e. e.anchor_document_id) (validate_addition cat intake) [] entries

unfoldable pub validate_retirements :
    List RawRetirement → Option IntakeState → Result (List DocumentRetirement)
unfolding each_once validate_retirement
validate_retirements entries =
    with_intake (length entries)
      λ intake. each_once (λ e. e.document_id) (validate_retirement intake) [] entries

-- The `catch` of `validateMatchedFiles`
abbrev kept_quote : Result QuoteEvidence → Option QuoteEvidence
kept_quote (ok e) = some e
kept_quote (err r) = none

abbrev match_evidence : Option IntakeState → Option QuoteEvidence → Option QuoteEvidence
match_evidence none e = none
match_evidence (some intake) none = none
match_evidence (some intake) (some e) = kept_quote (validate_evidence (some e) intake.inbound_texts)

unfoldable pub validate_matched_files : List RawMatch → Option IntakeState → List MatchedFile
unfolding validate_evidence
validate_matched_files matches intake =
    map {B = MatchedFile}
      (λ m. record {
        file_id = m.file_id;
        document_id = m.document_id;
        evidence = match_evidence intake m.evidence;
      })
      matches
