-- ===== src/Cycle/Run.antt =====
-- The state of a planning cycle (`PlanRun`, `ChecklistChanges` and `buildIntakeState` of
-- src/agents/declarationOfCapital/plan.ts), and the chain of its steps, of which one may throw.
use fiscal_mind_agent.Prelude.{
  ℕ, Bool, true, false, not, ◌&&◌, String, Option, is_some, List, [], ◌∷◌, ◌++◌, length, map, keep,
  all, str_eq, ◌==◌, if◌then◌else◌,
}
use fiscal_mind_agent.Documents.Table.{
  ClientDocument, Table, unresolved, not_required, approved, stated, retired, is_one_of,
}
use fiscal_mind_agent.Decision.Answer.{
  QuoteEvidence, Evidence, ApprovedPropertyFile, SelfEvidentFile, ResolvedInstance, ResolvableRow,
  TypedRow, IntakeState, TaxFetchDecision, FollowUpMessage,
}
use fiscal_mind_agent.Ties.Evidence.{DocumentFile}
use fiscal_mind_agent.Verification.Batch.{VerificationTarget}

pub data CycleCall : Type 0 where
  document_resolved instances_added document_retired document_stated : String → CycleCall
  planner_step : String → CycleCall
  publish_updated : CycleCall
  claimed_email : (names : List String) → CycleCall
  documents_collected documents_claimed : List String → CycleCall
  link_to_document : (file_id document_id : String) → CycleCall
  tax_fetch_action : Option TaxFetchDecision → CycleCall
  goal_completed sync_status send_closing goal_complete_email : CycleCall
  schedule_draft : FollowUpMessage → (send_at : String) → CycleCall
  attestation_requested : CycleCall
  verify_batch : List VerificationTarget → CycleCall
  handle_client_decline : CycleCall

pub record ChecklistChanges : Type 0 where
  pub applied : ℕ
  pub created_with_files : List (ClientDocument × List String)
  pub claimed_at_creation : List String
  -- the id of a created row, and what was stated of it
  pub created_stated : List (String × String)
  pub created_stated_vehicles : List (String × String)

abbrev pub no_changes : ChecklistChanges
no_changes = record {
  applied = 0;
  created_with_files = [];
  claimed_at_creation = [];
  created_stated = [];
  created_stated_vehicles = [];
}

-- The database (the table, and of the client the attestation and the goal), the cycle's own copies, and
-- the calls so far. `inserted` counts the rows that the cycle has asked the database for.
pub record PlanRun : Type 0 where
  pub table : Table
  pub attestation_request : Option String
  pub attestation_evidence : Option QuoteEvidence
  pub goal_complete : Bool
  pub documents : Table
  pub attestation_confirmed : Bool
  pub changes : ChecklistChanges
  pub inserted : ℕ
  pub calls : List CycleCall

abbrev pub call : List CycleCall → PlanRun → PlanRun
call cs s = record s { calls = s.calls ++ cs }

-- A step answers whether it went through; after a throw the state stays as the step left it.
abbrev pub Step : Type 0
Step = PlanRun → PlanRun × Bool

abbrev pub and_then : PlanRun × Bool → Step → PlanRun × Bool
and_then (s, false) next = (s, false)
and_then (s, true) next = next s

unfoldable pub each {ℓ} : {A : Type ℓ} → (A → Step) → List A → Step
each step [] s = (s, true)
each step (a ∷ more) s = and_then (step a s) (each step more)

-- What the cycle reads of the world.
pub record CycleWorld : Type 0 where
  pub client_id : String
  pub now : ℕ
  -- the database's id of the n-th row that is inserted
  pub row_id : ℕ → Option String
  pub encode : Evidence → String
  -- what an instance states of its cost or its vehicle, and how a statement is merged into the evidence
  pub stated_cost : ResolvedInstance → Option String
  pub stated_vehicle : ResolvedInstance → Option String
  pub merge_vehicle : Option ClientDocument → String → String
  pub files : List DocumentFile
  pub channel_allowed : Bool
  pub request_sent : Bool
  pub inbound_texts : List (String × String)
  pub confirmable_message_ids : List String
  pub approved_property_files : Table → List (String × ApprovedPropertyFile)
  pub self_evident_files : List (String × SelfEvidentFile)
  pub multi_instance : Option String → Bool

-- `listForClient` of src/db/queries/clientDocuments.ts
abbrev pub list_for_client : String → Table → Table
list_for_client client_id t = keep (λ r. str_eq r.client_id client_id) t

abbrev pub is_settled : ClientDocument → Bool
is_settled d = is_one_of (approved ∷ stated ∷ not_required ∷ retired ∷ []) d.status

-- `allDocumentsSettled`
unfoldable pub all_documents_settled : Table → Bool
all_documents_settled documents = not (length documents == 0) && all is_settled documents

-- `buildIntakeState`
unfoldable pub build_intake_state : CycleWorld → PlanRun → IntakeState
unfolding all_documents_settled
build_intake_state w s = record {
  resolvable =
      map {B = ResolvableRow}
        (λ d. record {
          id = d.id;
          is_unresolved = is_one_of (unresolved ∷ []) d.status;
          type_key = d.type_key;
          multi_instance = w.multi_instance d.type_key;
        })
        (keep (λ d. is_one_of (unresolved ∷ not_required ∷ []) d.status) s.documents);
  typed_rows =
      map {B = TypedRow}
        (λ d. record {
          id = d.id;
          status = d.status;
          type_key = d.type_key;
          multi_instance = w.multi_instance d.type_key;
          paper_key = d.paper_key;
        })
        (keep (λ d. is_some d.type_key && not (is_one_of (unresolved ∷ not_required ∷ []) d.status))
          s.documents);
  inbound_texts = w.inbound_texts;
  approved_property_files = w.approved_property_files s.documents;
  self_evident_files = w.self_evident_files;
  all_settled = all_documents_settled s.documents;
  attestation_requested = is_some s.attestation_request && w.request_sent;
  confirmable_message_ids =
      if is_some s.attestation_request && w.request_sent then w.confirmable_message_ids else [];
  attestation_confirmed = s.attestation_confirmed;
}

-- `loadPlanningContext`: what the cycle starts from; it throws when no channel is usable.
unfoldable pub load_planning_context : CycleWorld → Step
load_planning_context w s = (
  record s {
    documents = list_for_client w.client_id s.table;
    attestation_confirmed = is_some s.attestation_evidence;
    changes = no_changes;
  },
  w.channel_allowed,
)
