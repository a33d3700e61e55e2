-- ===== src/Decision/Evidence.antt =====
-- `validateEvidence` and `validateProvenByFile` of src/agents/declarationOfCapital/decisionSchema.ts.
use fiscal_mind_agent.Prelude.{
  Bool, true, false, not, ◌||◌, String, Option, none, some, List, [], ◌∷◌, length, any, str_eq,
  ◌==◌, if◌then◌else◌,
}
use fiscal_mind_agent.Decision.Result.{
  Result, ok, err, ◌>>=◌, ◌>>◌, reject_if, found_or, no_evidence, unknown_message, quote_not_found,
  file_retires_nothing, wrong_file_type, not_one_instance, file_settles_nothing,
  not_a_property_paper, not_approved_file, unknown_seller_kind, not_called_for_retirement,
  not_called_for_addition,
}
use fiscal_mind_agent.Decision.Quotes.{quote_appears_in}
use fiscal_mind_agent.Decision.Answer.{
  QuoteEvidence, SellerKind, private_seller, builder, SelfEvidentFile, seller_private,
  seller_builder, Evidence, approved_file, self_evident_file, ResolvedInstance, ResolvableRow,
  TypedRow, IntakeState,
}

-- `map.get(key)`
abbrev pub get {ℓ} : {A : Type ℓ} → String → List (String × A) → Option A
get key [] = none
get key ((k, a) ∷ rest) = if str_eq k key then some a else get key rest

unfoldable pub validate_evidence :
    Option QuoteEvidence → List (String × String) → Result QuoteEvidence
validate_evidence none inbound_texts = err no_evidence
validate_evidence (some e) inbound_texts = do
  text ← found_or (get e.message_id inbound_texts) unknown_message
  reject_if (not (quote_appears_in e.quote text)) quote_not_found
  ok e

-- The change of the list that a file is cited for.
pub data Change : Type 0 where
  retiring : TypedRow → Change
  adding : TypedRow → List ResolvedInstance → Change
  resolving : ResolvableRow → List ResolvedInstance → Change

abbrev pub has_key : Option String → String → Bool
has_key none key = false
has_key (some k) key = str_eq k key

-- `selfEvidentEvidenceOf`
abbrev pub self_evident_evidence_of : String → SelfEvidentFile → Evidence
self_evident_evidence_of file_id proof = self_evident_file (record {
  file_id = file_id;
  issuer = proof.issuer;
  holders = proof.holders;
  matched = proof.matched;
  employer = proof.employer;
})

abbrev pub own_item :
    String → SelfEvidentFile → Option String → List ResolvedInstance → Result Evidence
own_item file_id proof type_key instances = do
  reject_if (not (has_key type_key proof.type_key)) wrong_file_type
  reject_if (not (length instances == 1)) not_one_instance
  ok (self_evident_evidence_of file_id proof)

abbrev pub by_self_evident : String → SelfEvidentFile → Change → Result Evidence
by_self_evident file_id proof (retiring row) = err file_retires_nothing
by_self_evident file_id proof (adding anchor instances) =
    own_item file_id proof anchor.type_key instances
by_self_evident file_id proof (resolving row instances) =
    own_item file_id proof row.type_key instances

-- `PAPERS_RETIRED_BY_PRIVATE_SELLER`
abbrev pub is_retired_by_private_seller : Option String → Bool
is_retired_by_private_seller none = false
is_retired_by_private_seller (some paper) =
    str_eq paper "payments_appendix" || str_eq paper "builder_payments_report"

abbrev pub is_private : SellerKind → Bool
is_private private_seller = true
is_private builder = false

-- The approved paper of a property, for a row of type real_estate.
abbrev pub property_file : String → Option String → IntakeState → Result (String × SellerKind)
property_file file_id type_key intake = do
  reject_if (not (has_key type_key "real_estate")) not_a_property_paper
  approved ← found_or (get file_id intake.approved_property_files) not_approved_file
  kind ← found_or approved.seller_kind unknown_seller_kind
  ok (approved.document_id, kind)

abbrev pub by_approved : String → Change → IntakeState → Result Evidence
by_approved file_id (resolving row instances) intake = err file_settles_nothing
by_approved file_id (retiring row) intake = do
  (document_id, kind) ← property_file file_id row.type_key intake
  reject_if (not (is_private kind) || not (is_retired_by_private_seller row.paper_key))
      not_called_for_retirement
  ok (approved_file file_id document_id seller_private)
by_approved file_id (adding anchor instances) intake = do
  (document_id, kind) ← property_file file_id anchor.type_key intake
  reject_if (is_private kind || any (λ i. not (has_key i.paper_key "payments_appendix")) instances)
      not_called_for_addition
  ok (approved_file file_id document_id seller_builder)

abbrev pub by_file : Option SelfEvidentFile → String → Change → IntakeState → Result Evidence
by_file (some proof) file_id change intake = by_self_evident file_id proof change
by_file none file_id change intake = by_approved file_id change intake

unfoldable pub validate_proven_by_file : String → Change → IntakeState → Result Evidence
validate_proven_by_file file_id change intake =
    by_file (get file_id intake.self_evident_files) file_id change intake
