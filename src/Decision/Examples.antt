-- ===== src/Decision/Examples.antt =====
-- The gate on concrete answers, and its theorems.
use fiscal_mind_agent.Prelude.{◌≡◌, refl, str_eq, true, false, String, none, some, List, [], ◌∷◌}
use fiscal_mind_agent.Documents.Table.{pending}
use fiscal_mind_agent.Decision.Result.{Result, ok, err, quote_not_found, follow_up_with_tie}
use fiscal_mind_agent.Decision.Quotes.{quote_appears_in, trim, normalize_send_at}
use fiscal_mind_agent.Decision.Answer.{
  private_seller, quoted, approved_file, seller_private, required, follow_up, DecisionResponse,
  IntakeState, DecisionContext, needed, NormalizedDecision, follows_up, freeform,
  DocumentResolution, InstanceAddition,
}
use fiscal_mind_agent.Decision.Lists.{Catalog, validate_retirement}
use fiscal_mind_agent.Decision.Gate.{normalize_decision}
use fiscal_mind_agent.Decision.Accepted.{CarriesSound}
use fiscal_mind_agent.Decision.Shapes.{
  IsShaped, normalize_decision-IsShaped, normalize_decision-CarriesSound,
}
use fiscal_mind_agent.Decision.Replies.{no_changes, normalize_decision-plain_reply}

abbrev pub catalog : Catalog
catalog = record { papers_of = λ t. []; paper_type = λ p. none; item_name = λ name proof. name }

abbrev pub render : String → List String → String
render body variables = body

abbrev pub no_statements :
    DecisionResponse
    → DecisionContext
    → List DocumentResolution
    → List InstanceAddition
    → Result (Unit {0})
no_statements raw ctx rs as_ = ok tt

abbrev intake : IntakeState
intake = record {
  resolvable =
      record { id = "cars"; is_unresolved = true; type_key = some "vehicle"; multi_instance = true }
      ∷ [];
  typed_rows =
      record {
        id = "appendix";
        status = pending;
        type_key = some "real_estate";
        multi_instance = true;
        paper_key = some "payments_appendix";
      }
      ∷ [];
  inbound_texts = ("m1", "Hello,  we have\n one car") ∷ [];
  approved_property_files =
      ("f1", record { document_id = "contract"; seller_kind = some private_seller }) ∷ [];
  self_evident_files = [];
  all_settled = false;
  attestation_requested = false;
  confirmable_message_ids = [];
  attestation_confirmed = false;
}

abbrev ctx : DecisionContext
ctx = record {
  window_open = true;
  templates = [];
  hidden_templates = [];
  tax_fetch = [];
  intake = some intake;
  after_verification = false;
}

abbrev pub reply : DecisionResponse
reply = record {
  decision = follow_up;
  reasoning = "";
  collected_document_ids = [];
  matched_files = [];
  whatsapp_text = some "Thank you";
  whatsapp_template = none;
  send_at = some " ASAP ";
  tax_fetch_action = none;
  tax_fetch_provider = none;
  tax_fetch_document_keys = [];
  resolved_documents = [];
  added_instances = [];
  retired_documents = [];
  stated_costs = [];
  stated_vehicles = [];
  attestation = none;
  attestation_evidence = none;
}

abbrev one_car : String → DecisionResponse
one_car quote = record reply {
  resolved_documents =
      record {
        document_id = "cars";
        resolution = required;
        instances =
            record {
              name = " car ";
              description = none;
              already_provided = false;
              file_ids = [];
              paper_key = "";
            }
            ∷ [];
        evidence = some (record { message_id = "m1"; quote = quote });
        proven_by_file_id = "";
      }
      ∷ [];
}

abbrev car : NormalizedDecision
car =
    follows_up
      (record no_changes {
        resolutions =
            needed "cars"
              (record {
                name = "car";
                description = none;
                already_provided = false;
                file_ids = [];
                paper_key = none;
              }
                ∷ [])
              (quoted (record { message_id = "m1"; quote = "we have one  car" }))
            ∷ [];
      })
      none (freeform "Thank you") "asap"

answers :
    (normalize_decision catalog render no_statements (one_car "we have one  car") ctx ≡ ok car)
    × (normalize_decision catalog render no_statements (one_car "two cars") ctx
        ≡ err quote_not_found)
    × (normalize_decision catalog render no_statements
          (record reply { collected_document_ids = "appendix" ∷ [] })
          ctx
        ≡ err follow_up_with_tie)
unfolding normalize_decision quote_appears_in
answers = (refl, refl, refl)

times :
    (normalize_send_at (some "2026-11-26 09:30") ≡ some "2026-11-26 09:30")
    × (normalize_send_at (some "tomorrow") ≡ none)
unfolding normalize_send_at
times = (refl, refl)

retirement :
    validate_retirement intake
      (record { document_id = "appendix"; evidence = none; proven_by_file_id = "f1" })
    ≡ ok (record {
      document_id = "appendix";
      evidence = approved_file "f1" "contract" seller_private;
    })
unfolding validate_retirement
retirement = refl

said : str_eq (trim "Thank you") "" ≡ false
unfolding trim
said = refl

asap : normalize_send_at (some " ASAP ") ≡ some "asap"
unfolding normalize_send_at
asap = refl

normalize_decision-IsShaped_example :
    IsShaped catalog render no_statements (one_car "we have one  car") ctx car
normalize_decision-IsShaped_example =
    normalize_decision-IsShaped catalog render no_statements (one_car "we have one  car") ctx
      answers.0

normalize_decision-CarriesSound_example : CarriesSound catalog (one_car "we have one  car") ctx car
normalize_decision-CarriesSound_example =
    normalize_decision-CarriesSound catalog render no_statements (one_car "we have one  car") ctx
      answers.0

normalize_decision-plain_reply_example :
    normalize_decision catalog render no_statements reply ctx
    ≡ ok (follows_up no_changes none (freeform "Thank you") "asap")
normalize_decision-plain_reply_example =
    normalize_decision-plain_reply catalog render no_statements reply ctx "Thank you" "asap"
      (
        refl,
        (refl, refl, tt, tt),
        (refl, refl, refl, refl, refl),
        refl,
        refl,
        refl,
        refl,
        said,
        asap,
      )
      refl refl
