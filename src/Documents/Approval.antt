-- ===== src/Documents/Approval.antt =====
-- Which queries of src/db/queries/clientDocuments.ts can approve a row.
use fiscal_mind_agent.Prelude.{
  inl, inr, ℕ, ◌≡◌, ◌≢◌, Bool, true, false, not, String, Option, none, some, List, [], ◌∷◌, ◌++◌,
  All, All-append, all, Bool-cases, Option-cases, arith, and-right,
}
use fiscal_mind_agent.Documents.Table.{
  DocumentStatus, approved, ClientDocument, Table, update_where,
}
use fiscal_mind_agent.Documents.Queries.{
  update_one, mark_collected, mark_claimed, resolve_not_required, retire, mark_stated,
  mark_stated_vehicle, set_verification, revert_to_pending,
}
use fiscal_mind_agent.Documents.Transactions.{
  DocumentInstance, new_sibling, insert_siblings, finish, resolve_required, resolve_with,
  add_instances, add_with,
}
use fiscal_mind_agent.Documents.Agent.{
  AgentOp, collect, claim_delivered, dismiss_row, resolve, add, retire_row, state_cost,
  state_vehicle, verdict, approve_row, reopen_row, split, apply,
}
use fiscal_mind_agent.Documents.History.{run}
use fiscal_mind_agent.Documents.SplitKept.{split_by_company-Kept}

abbrev pub IsOpen : ClientDocument → Type 0
IsOpen r = r.status ≢ approved

abbrev pub is_approval : AgentOp → Bool
is_approval (approve_row id v) = true
is_approval _ = false

update_where-All :
    (P : ClientDocument → Type 0) (test : ClientDocument → Bool)
    (set : ClientDocument → ClientDocument)
    → ((r : ClientDocument) → P r → P (set r))
    → (t : Table) → All P t
    → All P (update_where test set t).0
unfolding update_where
update_where-All P test set ok [] h = tt
update_where-All P test set ok (r ∷ rs) h = elim (Bool-cases (test r)) [
  | inl hit ↦ rw (hit, update_where) (ok r h.0, update_where-All P test set ok rs h.1)
  | inr miss ↦ rw (miss, update_where) (h.0, update_where-All P test set ok rs h.1)
]

update_one-All :
    (P : ClientDocument → Type 0) (id client : String) (from : List DocumentStatus)
    (set : ClientDocument → ClientDocument) (t : Table)
    → ((r : ClientDocument) → P r → P (set r))
    → All P t
    → All P (update_one id client from set t).0
unfolding update_one
update_one-All P id client from set t ok h = update_where-All P _ set ok t h

born-IsOpen :
    (now : ℕ) (client : String) (type_key evidence : Option String) (i : DocumentInstance)
    (id : String)
    → IsOpen (new_sibling now client type_key evidence i id)
born-IsOpen now client type_key evidence i id = ground arith

insert_siblings-IsOpen :
    (now : ℕ) (client : String) (type_key evidence : Option String) (is : List DocumentInstance)
    (before t : Table) (rows : List ClientDocument)
    → All IsOpen before
    → All IsOpen t
    → All IsOpen (finish before (insert_siblings now client type_key evidence is t rows)).0
unfolding insert_siblings
insert_siblings-IsOpen now client type_key evidence [] before t rows h k = k
insert_siblings-IsOpen now client type_key evidence (i ∷ is) before t rows h k =
    elim (Option-cases i.row_id) [
      | inl fault ↦ rw (fault, insert_siblings) h
      | inr (id, given) ↦
          let row = new_sibling now client type_key evidence i id in
          let later =
            insert_siblings-IsOpen now client type_key evidence is before (t ++ row ∷ [])
              (rows ++ row ∷ []) h
              (All-append IsOpen t (row ∷ []) k
                (born-IsOpen now client type_key evidence i id, tt)) in
          rw (given, insert_siblings) later
    ]

resolve_with-IsOpen :
    (now : ℕ) (client : String) (evidence : Option String) (is : List DocumentInstance)
    (before t : Table) (head : Option ClientDocument)
    → All IsOpen before
    → All IsOpen t
    → All IsOpen (resolve_with now client evidence is before t head).0
resolve_with-IsOpen now client evidence is before t none h k = h
resolve_with-IsOpen now client evidence is before t (some head) h k =
    insert_siblings-IsOpen now client head.type_key evidence is before t (head ∷ []) h k

add_with-IsOpen :
    (now : ℕ) (client : String) (evidence : Option String) (is : List DocumentInstance)
    (before : Table) (anchor : Option ClientDocument)
    → All IsOpen before
    → All IsOpen (add_with now client evidence is before anchor).0
add_with-IsOpen now client evidence is before none h = h
add_with-IsOpen now client evidence is before (some a) h =
    insert_siblings-IsOpen now client a.type_key evidence is before before [] h h

apply-IsOpen :
    (now : ℕ) (client : String) (op : AgentOp) (t : Table)
    → is_approval op ≡ false
    → All IsOpen t
    → All IsOpen (apply now client op t)
unfolding apply mark_collected mark_claimed resolve_not_required resolve_required add_instances
    retire mark_stated mark_stated_vehicle set_verification revert_to_pending
apply-IsOpen now client (collect []) t n h = h
apply-IsOpen now client (collect (i ∷ ids)) t n h =
    update_where-All IsOpen _ _ (λ r p. ground arith) t h
apply-IsOpen now client (claim_delivered []) t n h = h
apply-IsOpen now client (claim_delivered (i ∷ ids)) t n h =
    update_where-All IsOpen _ _ (λ r p. ground arith) t h
apply-IsOpen now client (dismiss_row id e) t n h =
    update_one-All IsOpen id client _ _ t (λ r p. ground arith) h
apply-IsOpen now client (resolve id [] e) t n h = h
apply-IsOpen now client (resolve id (i ∷ is) e) t n h =
    resolve_with-IsOpen now client e is t _ _ h
      (update_one-All IsOpen id client _ _ t (λ r p. ground arith) h)
apply-IsOpen now client (add id [] e) t n h = h
apply-IsOpen now client (add id (i ∷ is) e) t n h = add_with-IsOpen now client e (i ∷ is) t _ h
apply-IsOpen now client (retire_row id e) t n h =
    update_one-All IsOpen id client _ _ t (λ r p. ground arith) h
apply-IsOpen now client (state_cost id e) t n h =
    update_one-All IsOpen id client _ _ t (λ r p. ground arith) h
apply-IsOpen now client (state_vehicle id e) t n h =
    update_one-All IsOpen id client _ _ t (λ r p. ground arith) h
apply-IsOpen now client (verdict id v) t n h = update_where-All IsOpen _ _ (λ r p. p) t h
apply-IsOpen now client (approve_row id v) t n h = cc
apply-IsOpen now client (reopen_row id v) t n h =
    update_one-All IsOpen id client _ _ t (λ r p. ground arith) h
apply-IsOpen now client (split items) t n h =
    split_by_company-Kept (All IsOpen) now client
      (λ item u k. update_one-All IsOpen item.document_id client _ _ u (λ r p. p) k)
      (λ head s id u k. All-append IsOpen u _ k (λ e. cc e, tt)) items t h

-- A run of the agent's queries without `markApproved` leaves a checklist without an approved row
-- without one.
pub run-IsOpen :
    (client : String) (ops : List (ℕ × AgentOp)) (t : Table)
    → all (λ op. not (is_approval op.1)) ops ≡ true
    → All IsOpen t
    → All IsOpen (run client ops t)
unfolding run
run-IsOpen client [] t n h = h
run-IsOpen client ((now, op) ∷ ops) t n h =
    run-IsOpen client ops (apply now client op t) (and-right (not (is_approval op)) _ n)
      (apply-IsOpen now client op t (ground arith) h)
