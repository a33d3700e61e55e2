-- ===== src/Decline/Examples.antt =====
-- A decline on a concrete client, and its theorems.
use fiscal_mind_agent.Prelude.{◌≡◌, refl, true, false, none, some, [], ◌∷◌, str_eq}
use fiscal_mind_agent.Documents.Table.{ClientDocument, DocumentStatus, pending, approved}
use fiscal_mind_agent.Sending.Rules.{email, whatsapp}
use fiscal_mind_agent.Decline.Rules.{
  is_decline_button, window_closed, mark_declined, sync_documents_status, remove_future_email,
  clear_drafting_state, audit_declined, audit_ack_skipped, send_declined_email, publish_updated,
  DeclineWorld, handle_client_decline,
}
use fiscal_mind_agent.Decline.Handling.{IsStopped, handle_client_decline-IsStopped}

abbrev row : DocumentStatus → ClientDocument
row status = record {
  id = "d1";
  client_id = "c1";
  name = "bank report";
  description = none;
  status = status;
  type_key = none;
  paper_key = none;
  verification = none;
  resolution_evidence = none;
  created_at = 1;
  updated_at = 1;
}

abbrev tapped : DeclineWorld
tapped = record {
  claimed = some (some "+972");
  has_instance = true;
  looks_up = true;
  allowed = true;
  window_open = true;
  sender = some "+1";
  sends = true;
  documents = some (row pending ∷ row approved ∷ []);
}

late :
    (handle_client_decline (record tapped { window_open = false })).calls
    ≡ mark_declined
      ∷ sync_documents_status
      ∷ remove_future_email
      ∷ clear_drafting_state
      ∷ audit_declined
      ∷ audit_ack_skipped window_closed
      ∷ send_declined_email ("bank report" ∷ [])
      ∷ publish_updated
      ∷ []
unfolding handle_client_decline
late = refl

buttons :
    (is_decline_button (str_eq "office") whatsapp true none (some "office") ≡ true)
    × (is_decline_button (str_eq "office") whatsapp true (some "decline") none ≡ true)
    × (is_decline_button (str_eq "office") email true (some "decline") none ≡ false)
unfolding is_decline_button
buttons = (refl, refl, refl)

handle_client_decline-IsStopped_example :
    IsStopped tapped (some (some "+972")) (handle_client_decline tapped)
handle_client_decline-IsStopped_example = handle_client_decline-IsStopped tapped
