-- ===== src/Documents/Agent.antt =====
-- The agent's queries as operations on the table, and what any run of them does to the rows.
-- (The workspace's own edit and delete, `update_for_client` and `remove_for_client`, stand apart.)
use fiscal_mind_agent.Prelude.{
  ◌&&◌, and-right, any, str_eq, ℕ, ◌≡◌, refl, inl, inr, true, String, Option, List, [], ◌∷◌,
  Bool-cases,
}
use fiscal_mind_agent.Documents.Table.{
  DocumentStatus, unresolved, not_required, pending, claimed, collected, approved, stated, retired,
  ClientDocument, Table, is_row, is_one_of,
}
use fiscal_mind_agent.Documents.Queries.{
  update_one, is_listed, mark_collected, mark_claimed, resolve_not_required, retire, mark_stated,
  mark_stated_vehicle, set_verification, mark_approved, revert_to_pending,
}
use fiscal_mind_agent.Documents.Transactions.{
  DocumentInstance, born_status, resolve_required, add_instances,
}
use fiscal_mind_agent.Documents.CompanyRows.{CompanySplitItem, split_by_company}
use fiscal_mind_agent.Documents.Life.{
  dismiss, need, need_held, reconsider, reconsider_held, claim, receive, receive_claimed, approve,
  reopen, state, retire_pending, retire_claimed, retire_collected, retire_approved, Step, Follows,
  Evolves, update_where-Evolves,
}

-- The queries on the checklist that the planner and the verification run for a client that has been kicked
-- off. (The kickoff inserts the catalog rows, unresolved, before them.)
pub data AgentOp : Type 0 where
  collect : List String → AgentOp
  claim_delivered : List String → AgentOp
  dismiss_row : String → String → AgentOp
  resolve : String → List DocumentInstance → Option String → AgentOp
  add : String → List DocumentInstance → Option String → AgentOp
  retire_row : String → String → AgentOp
  state_cost : String → String → AgentOp
  state_vehicle : String → String → AgentOp
  verdict : String → String → AgentOp
  approve_row : String → String → AgentOp
  reopen_row : String → String → AgentOp
  split : List CompanySplitItem → AgentOp

-- One query for a client at a time.
unfoldable pub apply : ℕ → String → AgentOp → Table → Table
apply now client (collect ids) t = mark_collected now client ids t
apply now client (claim_delivered ids) t = mark_claimed now client ids t
apply now client (dismiss_row id e) t = (resolve_not_required now id client e t).0
apply now client (resolve id is e) t = (resolve_required now id client is e t).0
apply now client (add id is e) t = (add_instances now id client is e t).0
apply now client (retire_row id e) t = (retire now id client e t).0
apply now client (state_cost id e) t = (mark_stated now id client e t).0
apply now client (state_vehicle id e) t = (mark_stated_vehicle now id client e t).0
apply now client (verdict id v) t = (set_verification now id client v t).0
apply now client (approve_row id v) t = (mark_approved now id client v t).0
apply now client (reopen_row id v) t = (revert_to_pending now id client v t).0
apply now client (split items) t = (split_by_company now client items t).0

-- A test `status IN (from)` with a common target: the change is an edge.
abbrev Leads : List DocumentStatus → DocumentStatus → Type 0
Leads from t = (s : DocumentStatus) → is_one_of from s ≡ true → Step s t

pub collected_Leads : Leads (pending ∷ claimed ∷ []) collected
collected_Leads pending h = inr receive
collected_Leads claimed h = inr receive_claimed
collected_Leads _ h = cc

pub claimed_Leads : Leads (pending ∷ []) claimed
claimed_Leads pending h = inr claim
claimed_Leads _ h = cc

pub not_required_Leads : Leads (unresolved ∷ []) not_required
not_required_Leads unresolved h = inr dismiss
not_required_Leads _ h = cc

pub retired_Leads : Leads (pending ∷ claimed ∷ collected ∷ approved ∷ []) retired
retired_Leads pending h = inr retire_pending
retired_Leads claimed h = inr retire_claimed
retired_Leads collected h = inr retire_collected
retired_Leads approved h = inr retire_approved
retired_Leads _ h = cc

pub stated_Leads : Leads (pending ∷ []) stated
stated_Leads pending h = inr state
stated_Leads _ h = cc

pub vehicle_Leads : Leads (pending ∷ stated ∷ []) stated
vehicle_Leads pending h = inr state
vehicle_Leads stated h = inl refl
vehicle_Leads _ h = cc

pub approved_Leads : Leads (collected ∷ []) approved
approved_Leads collected h = inr approve
approved_Leads _ h = cc

pub reopened_Leads : Leads (collected ∷ []) pending
reopened_Leads collected h = inr reopen
reopened_Leads _ h = cc

pub born_Leads : (i : DocumentInstance) → Leads (unresolved ∷ not_required ∷ []) (born_status i)
born_Leads i unresolved h = elim (Bool-cases i.already_provided) [
  | inl held ↦ rw held (inr need_held)
  | inr new ↦ rw new (inr need)
]
born_Leads i not_required h = elim (Bool-cases i.already_provided) [
  | inl held ↦ rw held (inr reconsider_held)
  | inr new ↦ rw new (inr reconsider)
]
born_Leads i _ h = cc

-- `update_one` evolves the table, if what it sets leads on and keeps the rest of the row's identity.
pub update_one-Evolves :
    (id client : String) (from : List DocumentStatus) (set : ClientDocument → ClientDocument)
    (t : Table)
    → ((r : ClientDocument) → is_one_of from r.status ≡ true → Follows Step r (set r))
    → Evolves Step t (update_one id client from set t).0
unfolding update_one
update_one-Evolves id client from set t ok =
    update_where-Evolves _ set
      (λ r h. ok r (and-right (is_row id client r) (is_one_of from r.status) h)) t

pub is_listed_status :
    (client : String) (ids : List String) (from : List DocumentStatus) (r : ClientDocument)
    → is_listed client ids from r ≡ true
    → is_one_of from r.status ≡ true
unfolding is_listed
is_listed_status client ids from r h =
    and-right (str_eq r.client_id client && any (λ id. str_eq r.id id) ids)
      (is_one_of from r.status) h
