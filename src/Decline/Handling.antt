-- ===== src/Decline/Handling.antt =====
-- What `handleClientDeclineWith` (src/agents/declarationOfCapital/clientDeclineRules.ts) calls, and when
-- it acknowledges.
use fiscal_mind_agent.Prelude.{
  Bool, true, false, not, if◌then◌else◌, ◌≡◌, ◌↔◌, refl, String, Option, none, some, is_some, List,
  [], ◌∷◌, ◌++◌, has_text, if-cases, arith,
}
use fiscal_mind_agent.Documents.Table.{DocumentStatus, pending, unresolved, ClientDocument}
use fiscal_mind_agent.Decline.Rules.{
  send_failed, Delivery, send, skip, decline_ack_delivery, DeclineCall, mark_declined,
  publish_updated, send_text, audit_ack_sent, audit_ack_skipped, DeclineWorld, Declined,
  sync_documents_status, remove_future_email, clear_drafting_state, audit_declined,
  send_declined_email, from_sender, missing_document_names, acknowledge, try_acknowledge,
  try_notify, decline_claimed, handle_client_decline,
}

-- One trace step for the acknowledgement: sent, with the one message before it, which goes from the
-- instance's sender to the number of the client; or skipped.
abbrev IsAck : (sender phone : Option String) → List DeclineCall → Bool → Type 0
IsAck sender phone (send_text from to ∷ audit_ack_sent ∷ []) sent =
    (some from ≡ sender) × (some to ≡ phone) × (sent ≡ true)
IsAck sender phone (send_text from to ∷ audit_ack_skipped send_failed ∷ []) sent =
    (some from ≡ sender) × (some to ≡ phone) × (sent ≡ false)
IsAck sender phone (audit_ack_skipped reason ∷ []) sent = sent ≡ false
IsAck sender phone _ sent = ⊥

abbrev awaits_client : DocumentStatus → Bool
awaits_client pending = true
awaits_client unresolved = true
awaits_client _ = false

-- The names of the rows that the client has not answered for, in the order of the checklist.
abbrev outstanding : List ClientDocument → List String
outstanding [] = []
outstanding (d ∷ ds) =
    let rest = outstanding ds in if awaits_client d.status then d.name ∷ rest else rest

abbrev notice : Option (List ClientDocument) → List DeclineCall
notice none = []
notice (some documents) = send_declined_email (outstanding documents) ∷ []

abbrev pub IsStopped : DeclineWorld → Option (Option String) → Declined → Type 0
IsStopped w none out =
    (out.calls ≡ mark_declined ∷ []) × (out.handled ≡ false) × (out.ack_sent ≡ false)
IsStopped w (some phone) out =
    (out.handled ≡ true)
    × (ack : List DeclineCall) × IsAck w.sender phone ack out.ack_sent
    × (out.calls
        ≡ (mark_declined ∷ sync_documents_status ∷ remove_future_email ∷ clear_drafting_state
            ∷ audit_declined ∷ [])
          ++ ack
          ++ notice w.documents
          ++ publish_updated ∷ [])

IsAddressed : Option String → Option String → Delivery → Type 0
IsAddressed sender phone (skip reason) = Unit
IsAddressed sender phone (send from to) = (some from ≡ sender) × (some to ≡ phone)

from_sender-IsAddressed :
    (sender phone : Option String) → IsAddressed sender phone (from_sender sender phone)
unfolding IsAddressed
from_sender-IsAddressed none phone = tt
from_sender-IsAddressed (some from) none = tt
from_sender-IsAddressed (some from) (some to) =
    if-cases {A = Delivery} (IsAddressed (some from) (some to)) (has_text (some to))
      (λ _. (refl, refl)) (λ _. tt)

decline_ack_delivery-IsAddressed :
    (sender phone : Option String) (allowed window_open : Bool)
    → IsAddressed sender phone (decline_ack_delivery phone allowed window_open sender)
unfolding IsAddressed decline_ack_delivery
decline_ack_delivery-IsAddressed sender phone allowed window_open =
    if-cases {A = Delivery} (IsAddressed sender phone) (not allowed) (λ _. tt)
      (λ _.
        if-cases {A = Delivery} (IsAddressed sender phone) (not window_open) (λ _. tt)
          (λ _. from_sender-IsAddressed sender phone))

acknowledge-IsAck :
    (sender phone : Option String) (d : Delivery) (sends : Bool)
    → IsAddressed sender phone d
    → IsAck sender phone (acknowledge d sends).0 (acknowledge d sends).1
unfolding IsAddressed
acknowledge-IsAck sender phone (skip reason) sends to_them = refl
acknowledge-IsAck sender phone (send from to) true to_them = (to_them.0, to_them.1, refl)
acknowledge-IsAck sender phone (send from to) false to_them = (to_them.0, to_them.1, refl)

-- Without an instance there is no sender.
with_instance :
    (has : Bool) (sender phone : Option String) (d : Delivery)
    → IsAddressed (if has then sender else none) phone d
    → IsAddressed sender phone d
unfolding IsAddressed
with_instance true sender phone d h = h
with_instance false sender phone (skip reason) h = tt
with_instance false sender phone (send from to) h = absurd (cc (h.0))

try_acknowledge-IsAck :
    (phone : Option String) (w : DeclineWorld)
    → IsAck w.sender phone (try_acknowledge phone w).0 (try_acknowledge phone w).1
try_acknowledge-IsAck phone w =
    let sender = if w.has_instance then w.sender else none in
    if-cases {A = List DeclineCall × Bool} (λ x. IsAck w.sender phone x.0 x.1) w.looks_up
      (λ _.
        acknowledge-IsAck w.sender phone (decline_ack_delivery phone w.allowed w.window_open sender)
          w.sends
          (with_instance w.has_instance w.sender phone _
            (decline_ack_delivery-IsAddressed sender phone w.allowed w.window_open)))
      (λ _. refl)

missing-outstanding : (ds : List ClientDocument) → missing_document_names ds ≡ outstanding ds
unfolding missing_document_names
missing-outstanding [] = refl
missing-outstanding (d ∷ ds) = ground (arith, missing-outstanding ds)

notify-notice : (documents : Option (List ClientDocument)) → try_notify documents ≡ notice documents
notify-notice none = refl
notify-notice (some ds) = rw (missing-outstanding ds) refl

decline_claimed-IsStopped :
    (o : Option (Option String)) (w : DeclineWorld) → IsStopped w o (decline_claimed o w)
decline_claimed-IsStopped none w = (refl, refl, refl)
decline_claimed-IsStopped (some phone) w = (
  refl,
  (try_acknowledge phone w).0,
  try_acknowledge-IsAck phone w,
  rw (notify-notice w.documents) refl,
)

-- A decline that claims the client marks the decline, sets the status of the documents, drops the
-- pending send and clears the drafting stamp, in that order and before all else; then it leaves one
-- trace step for the acknowledgement, which is sent, if at all, once, from the sender to the number of the
-- client; then it mails the accountant the names of the pending and unresolved documents when the
-- checklist can be read; and it publishes the update at the end. A decline that claims no client does
-- nothing more. (The calls that are not in one of the two try blocks are taken to come through.)
pub handle_client_decline-IsStopped :
    (w : DeclineWorld) → IsStopped w w.claimed (handle_client_decline w)
unfolding handle_client_decline
handle_client_decline-IsStopped w = decline_claimed-IsStopped w.claimed w

-- What the acknowledgement needs.
abbrev CanAcknowledge : Option (Option String) → DeclineWorld → Type 0
CanAcknowledge none w = ⊥
CanAcknowledge (some phone) w =
    (w.looks_up ≡ true)
    × (w.allowed ≡ true)
    × (w.window_open ≡ true)
    × (w.has_instance ≡ true)
    × (is_some w.sender ≡ true)
    × (has_text phone ≡ true)
    × (w.sends ≡ true)

claimed_iff :
    (o : Option (Option String)) (w : DeclineWorld)
    → ((decline_claimed o w).ack_sent ≡ true) ↔ CanAcknowledge o w
unfolding decline_ack_delivery
claimed_iff none w = ground arith
claimed_iff (some phone) w = ground arith

-- The client hears the acknowledgement exactly when the decline claims them, WhatsApp is allowed and
-- its window is open, the instance has a sender and the client a number, and the provider takes it.
ack_sent_iff :
    (w : DeclineWorld) → ((handle_client_decline w).ack_sent ≡ true) ↔ CanAcknowledge w.claimed w
unfolding handle_client_decline
ack_sent_iff w = claimed_iff w.claimed w
