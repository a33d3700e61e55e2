-- ===== src/Decline/Rules.antt =====
-- The rules and the routine of src/agents/declarationOfCapital/clientDeclineRules.ts. The texts of the
-- messages are left out; whether a body is the button's text (a comparison of normalized texts) and
-- what the collaborators answer are arguments.
use fiscal_mind_agent.Prelude.{
  Bool, true, false, not, ◌||◌, String, Option, none, some, List, [], ◌∷◌, ◌++◌, map, keep,
  has_text, str_eq, if◌then◌else◌,
}
use fiscal_mind_agent.Documents.Table.{ClientDocument, pending, unresolved, is_one_of}
use fiscal_mind_agent.Sending.Rules.{Channel, email, whatsapp}

abbrev pub decline_button_id : String
decline_button_id = "decline"

abbrev is_whatsapp : Channel → Bool
is_whatsapp whatsapp = true
is_whatsapp email = false

abbrev is_payload : Option String → Bool
is_payload none = false
is_payload (some p) = str_eq p decline_button_id

abbrev is_body : (String → Bool) → Option String → Bool
is_body is_button_text none = false
is_body is_button_text (some b) = is_button_text b

unfoldable pub is_decline_button :
    (String → Bool) → Channel → Bool → Option String → Option String → Bool
is_decline_button is_button_text channel is_new_message payload body =
    if not (is_whatsapp channel) || not is_new_message
    then false
    else if is_payload payload
    then true
    else is_body is_button_text body

pub data SkipReason : Type 0 where
  not_available window_closed no_sender no_number send_failed : SkipReason

pub data Delivery : Type 0 where
  send : (from to : String) → Delivery
  skip : SkipReason → Delivery

abbrev pub from_sender : Option String → Option String → Delivery
from_sender none phone = skip no_sender
from_sender (some from) none = skip no_number
from_sender (some from) (some to) = if has_text (some to) then send from to else skip no_number

-- `declineAckDelivery`
unfoldable pub decline_ack_delivery : Option String → Bool → Bool → Option String → Delivery
decline_ack_delivery wa_phone allowed window_open sender =
    if not allowed
    then skip not_available
    else if not window_open
    then skip window_closed
    else from_sender sender wa_phone

unfoldable pub missing_document_names : List ClientDocument → List String
missing_document_names documents =
    map (λ d. d.name) (keep (λ d. is_one_of (pending ∷ unresolved ∷ []) d.status) documents)

pub data DeclineCall : Type 0 where
  mark_declined sync_documents_status remove_future_email clear_drafting_state : DeclineCall
  audit_declined audit_ack_sent publish_updated : DeclineCall
  send_text : (from to : String) → DeclineCall
  audit_ack_skipped : SkipReason → DeclineCall
  send_declined_email : List String → DeclineCall

-- What the collaborators answer.
pub record DeclineWorld : Type 0 where
  -- the number of the client that `markDeclined` claimed, or null when it claimed none
  pub claimed : Option (Option String)
  pub has_instance : Bool
  pub looks_up : Bool
  pub allowed : Bool
  pub window_open : Bool
  pub sender : Option String
  pub sends : Bool
  -- the checklist, or a failure to read it
  pub documents : Option (List ClientDocument)

pub record Declined : Type 0 where
  pub calls : List DeclineCall
  pub handled : Bool
  pub ack_sent : Bool

abbrev pub acknowledge : Delivery → Bool → List DeclineCall × Bool
acknowledge (skip reason) sends = (audit_ack_skipped reason ∷ [], false)
acknowledge (send from to) sends =
    if sends
    then (send_text from to ∷ audit_ack_sent ∷ [], true)
    else (send_text from to ∷ audit_ack_skipped send_failed ∷ [], false)

-- The first try block.
abbrev pub try_acknowledge : Option String → DeclineWorld → List DeclineCall × Bool
try_acknowledge wa_phone w =
    if w.looks_up
    then acknowledge
        (decline_ack_delivery wa_phone w.allowed w.window_open
          (if w.has_instance then w.sender else none))
        w.sends
    else (audit_ack_skipped send_failed ∷ [], false)

-- The second try block.
abbrev pub try_notify : Option (List ClientDocument) → List DeclineCall
try_notify none = []
try_notify (some documents) = send_declined_email (missing_document_names documents) ∷ []

abbrev stop_calls : List DeclineCall
stop_calls =
    mark_declined ∷ sync_documents_status ∷ remove_future_email ∷ clear_drafting_state
    ∷ audit_declined ∷ []

abbrev pub decline_claimed : Option (Option String) → DeclineWorld → Declined
decline_claimed none w = record { calls = mark_declined ∷ []; handled = false; ack_sent = false }
decline_claimed (some wa_phone) w =
    let (calls, sent) = try_acknowledge wa_phone w in
    record {
      calls = stop_calls ++ calls ++ try_notify w.documents ++ publish_updated ∷ [];
      handled = true;
      ack_sent = sent;
    }

-- `handleClientDeclineWith`
unfoldable pub handle_client_decline : DeclineWorld → Declined
unfolding decline_ack_delivery missing_document_names
handle_client_decline w = decline_claimed w.claimed w
