-- ===== src/Decision/Answer.antt =====
-- The planner's answer and what the gate knows of the client (DecisionResponseSchema, DecisionContext
-- and NormalizedDecision of src/agents/declarationOfCapital/decisionSchema.ts). The stated costs and
-- vehicles of an answer are the ids of the documents that they target.
use fiscal_mind_agent.Prelude.{ℕ, Bool, String, Option, List}
use fiscal_mind_agent.Documents.Table.{DocumentStatus}

pub record QuoteEvidence : Type 0 where
  pub message_id : String
  pub quote : String

pub data SellerKind : Type 0 where
  private_seller builder : SellerKind

-- `ApprovedPropertyFile` of src/agents/declarationOfCapital/provenFacts.ts
pub record ApprovedPropertyFile : Type 0 where
  pub document_id : String
  pub seller_kind : Option SellerKind

pub data Person : Type 0 where
  client spouse : Person

-- `SelfEvidentFile` of src/agents/declarationOfCapital/selfEvidentFiles.ts
pub record SelfEvidentFile : Type 0 where
  pub type_key : String
  pub institution_key : String
  pub issuer : String
  pub holders : List String
  pub matched : Person
  pub employer : Option String

pub record SelfEvidentFileEvidence : Type 0 where
  pub file_id : String
  pub issuer : String
  pub holders : List String
  pub matched : Person
  pub employer : Option String

pub data Fact : Type 0 where
  seller_private seller_builder : Fact

pub data Evidence : Type 0 where
  quoted : QuoteEvidence → Evidence
  approved_file : (file_id document_id : String) → Fact → Evidence
  self_evident_file : SelfEvidentFileEvidence → Evidence

-- One instance as the model writes it.
pub record RawInstance : Type 0 where
  pub name : String
  pub description : Option String
  pub already_provided : Bool
  pub file_ids : List String
  pub paper_key : String

pub record ResolvedInstance : Type 0 where
  pub name : String
  pub description : Option String
  pub already_provided : Bool
  pub file_ids : List String
  pub paper_key : Option String

pub data Resolution : Type 0 where
  required not_required : Resolution

pub record RawResolution : Type 0 where
  pub document_id : String
  pub resolution : Resolution
  pub instances : List RawInstance
  pub evidence : Option QuoteEvidence
  -- "" for none
  pub proven_by_file_id : String

pub record RawAddition : Type 0 where
  pub anchor_document_id : String
  pub instances : List RawInstance
  pub evidence : Option QuoteEvidence
  pub proven_by_file_id : String

pub record RawRetirement : Type 0 where
  pub document_id : String
  pub evidence : Option QuoteEvidence
  pub proven_by_file_id : String

pub record RawMatch : Type 0 where
  pub file_id : String
  pub document_id : String
  pub evidence : Option QuoteEvidence

pub record RawTemplate : Type 0 where
  pub template_id : String
  pub variables : List String

pub data DecisionKind : Type 0 where
  goal_complete follow_up collect client_declined : DecisionKind

pub data TaxFetchAction : Type 0 where
  client_agreed start_login cancel : TaxFetchAction

pub data AttestationStep : Type 0 where
  request confirmed : AttestationStep

pub record DecisionResponse : Type 0 where
  pub decision : DecisionKind
  pub reasoning : String
  pub collected_document_ids : List String
  pub matched_files : List RawMatch
  pub whatsapp_text : Option String
  pub whatsapp_template : Option RawTemplate
  pub send_at : Option String
  pub tax_fetch_action : Option TaxFetchAction
  pub tax_fetch_provider : Option String
  pub tax_fetch_document_keys : List String
  pub resolved_documents : List RawResolution
  pub added_instances : List RawAddition
  pub retired_documents : List RawRetirement
  pub stated_costs : List String
  pub stated_vehicles : List String
  pub attestation : Option AttestationStep
  pub attestation_evidence : Option QuoteEvidence

pub record ResolvableRow : Type 0 where
  pub id : String
  pub is_unresolved : Bool
  pub type_key : Option String
  pub multi_instance : Bool

pub record TypedRow : Type 0 where
  pub id : String
  pub status : DocumentStatus
  pub type_key : Option String
  pub multi_instance : Bool
  pub paper_key : Option String

-- The maps are the lists of their entries.
pub record IntakeState : Type 0 where
  pub resolvable : List ResolvableRow
  pub typed_rows : List TypedRow
  pub inbound_texts : List (String × String)
  pub approved_property_files : List (String × ApprovedPropertyFile)
  pub self_evident_files : List (String × SelfEvidentFile)
  pub all_settled : Bool
  pub attestation_requested : Bool
  pub confirmable_message_ids : List String
  pub attestation_confirmed : Bool

pub data FetchState : Type 0 where
  delivered awaiting_otp in_progress none_yet failed failed_no_documents : FetchState
  agreed wa_intro_sent other_state : FetchState

pub record TaxFetchState : Type 0 where
  pub provider : String
  pub state : FetchState
  pub available : Bool
  pub client_on_whatsapp : Bool
  pub document_keys : List String

pub record Template : Type 0 where
  pub content_sid : String
  pub body : String
  pub variable_count : ℕ

pub record DecisionContext : Type 0 where
  pub window_open : Bool
  pub templates : List Template
  -- the content ids of the templates that are not usable for this client
  pub hidden_templates : List String
  pub tax_fetch : List TaxFetchState
  pub intake : Option IntakeState
  pub after_verification : Bool

pub data FollowUpMessage : Type 0 where
  freeform : String → FollowUpMessage
  template : (content_sid : String) → (variables : List String) → (body : String) → FollowUpMessage

pub record TaxFetchDecision : Type 0 where
  pub action : TaxFetchAction
  pub provider : String
  pub document_keys : List String

pub data DocumentResolution : Type 0 where
  needed : String → List ResolvedInstance → Evidence → DocumentResolution
  not_needed : String → QuoteEvidence → DocumentResolution

pub record InstanceAddition : Type 0 where
  pub anchor_document_id : String
  pub instances : List ResolvedInstance
  pub evidence : Evidence

pub record DocumentRetirement : Type 0 where
  pub document_id : String
  pub evidence : Evidence

pub record MatchedFile : Type 0 where
  pub file_id : String
  pub document_id : String
  pub evidence : Option QuoteEvidence

pub data AttestationDecision : Type 0 where
  requested : AttestationDecision
  confirmed_by : QuoteEvidence → AttestationDecision

-- What every accepted answer but a decline carries.
pub record Changes : Type 0 where
  pub collected_document_ids : List String
  pub matched_files : List MatchedFile
  pub resolutions : List DocumentResolution
  pub added_instances : List InstanceAddition
  pub retired : List DocumentRetirement
  pub attestation : Option AttestationDecision

pub data NormalizedDecision : Type 0 where
  declines : NormalizedDecision
  completes : Changes → Option TaxFetchDecision → NormalizedDecision
  collects : Changes → NormalizedDecision
  follows_up :
      Changes → Option TaxFetchDecision → FollowUpMessage → (send_at : String) → NormalizedDecision
