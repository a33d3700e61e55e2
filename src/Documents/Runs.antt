-- ===== src/Documents/Runs.antt =====
-- The queries of src/db/queries/clientDocuments.ts that the agent runs, against the graph of statuses.
use fiscal_mind_agent.Prelude.{
  Bool, All, ℕ, refl, inl, inr, String, Option, none, some, List, [], ◌∷◌, ◌++◌, Bool-cases,
  Option-cases,
}
use fiscal_mind_agent.Documents.Table.{ClientDocument, Table, update_where}
use fiscal_mind_agent.Documents.Queries.{
  mark_collected, mark_claimed, resolve_not_required, retire, mark_stated, mark_stated_vehicle,
  set_verification, mark_approved, revert_to_pending,
}
use fiscal_mind_agent.Documents.Queries.{update_one}
use fiscal_mind_agent.Documents.CompanyRows.{CompanySplitItem, split_by_company}
use fiscal_mind_agent.Documents.SplitKept.{split_by_company-Kept}
use fiscal_mind_agent.Documents.Transactions.{
  DocumentInstance, new_sibling, insert_siblings, finish, resolve_required, resolve_with,
  add_instances, add_with,
}
use fiscal_mind_agent.Documents.Life.{
  Step, follow, IsBorn, Evolves, Evolves-Step_refl, update_where-Evolves, Evolves-append,
}
use fiscal_mind_agent.Documents.Agent.{
  AgentOp, collect, claim_delivered, dismiss_row, resolve, add, retire_row, state_cost,
  state_vehicle, verdict, approve_row, reopen_row, split, apply, collected_Leads, claimed_Leads,
  not_required_Leads, retired_Leads, stated_Leads, vehicle_Leads, approved_Leads, reopened_Leads,
  born_Leads, update_one-Evolves, is_listed_status,
}

new_sibling-IsBorn :
    (now : ℕ) (client : String) (type_key evidence : Option String) (i : DocumentInstance)
    (id : String)
    → IsBorn Step (new_sibling now client type_key evidence i id)
new_sibling-IsBorn now client type_key evidence i id = elim (Bool-cases i.already_provided) [
  | inl held ↦ rw held (inr (inl refl))
  | inr new ↦ rw new (inl (inl refl))
]

-- Whatever the database answers, the loop of INSERTs evolves the table that it began with.
insert_siblings-Evolves :
    (now : ℕ) (client : String) (type_key evidence : Option String) (is : List DocumentInstance)
    (before t : Table) (rows : List ClientDocument)
    → Evolves Step before t
    → Evolves Step before (finish before (insert_siblings now client type_key evidence is t rows)).0
unfolding insert_siblings
insert_siblings-Evolves now client type_key evidence [] before t rows e = e
insert_siblings-Evolves now client type_key evidence (i ∷ is) before t rows e =
    elim (Option-cases i.row_id) [
      | inl fault ↦ rw (fault, insert_siblings) (Evolves-Step_refl before)
      | inr (id, given) ↦
          let row = new_sibling now client type_key evidence i id in
          let later =
            insert_siblings-Evolves now client type_key evidence is before (t ++ row ∷ [])
              (rows ++ row ∷ [])
              (Evolves-append before t (row ∷ []) e
                (new_sibling-IsBorn now client type_key evidence i id, tt)) in
          rw (given, insert_siblings) later
    ]

resolve_with-Evolves :
    (now : ℕ) (client : String) (evidence : Option String) (is : List DocumentInstance)
    (before t : Table) (head : Option ClientDocument)
    → Evolves Step before t
    → Evolves Step before (resolve_with now client evidence is before t head).0
resolve_with-Evolves now client evidence is before t none e = Evolves-Step_refl before
resolve_with-Evolves now client evidence is before t (some head) e =
    insert_siblings-Evolves now client head.type_key evidence is before t (head ∷ []) e

add_with-Evolves :
    (now : ℕ) (client : String) (evidence : Option String) (is : List DocumentInstance)
    (before : Table) (anchor : Option ClientDocument)
    → Evolves Step before (add_with now client evidence is before anchor).0
add_with-Evolves now client evidence is before none = Evolves-Step_refl before
add_with-Evolves now client evidence is before (some anchor) =
    insert_siblings-Evolves now client anchor.type_key evidence is before before []
      (Evolves-Step_refl before)

-- A rename keeps what the table has become.
renamed :
    (new : Table) (test : ClientDocument → Bool) (name : String) (now : ℕ)
    → All (IsBorn Step) new
    → All (IsBorn Step) (update_where test (λ r. record r { name = name; updated_at = now }) new).0
unfolding update_where
renamed [] test name now born = tt
renamed (r ∷ rs) test name now born = elim (Bool-cases (test r)) [
  | inl hit ↦ rw (hit, update_where) (born.0, renamed rs test name now born.1)
  | inr miss ↦ rw (miss, update_where) (born.0, renamed rs test name now born.1)
]

update_where-renames :
    (t u : Table) (test : ClientDocument → Bool) (name : String) (now : ℕ)
    → Evolves Step t u
    → Evolves Step t (update_where test (λ r. record r { name = name; updated_at = now }) u).0
unfolding update_where
update_where-renames [] u test name now e = renamed u test name now e
update_where-renames (r ∷ t) [] test name now e = absurd e
update_where-renames (r ∷ t) (r' ∷ u) test name now e = elim (Bool-cases (test r')) [
  | inl hit ↦
      rw (hit, update_where)
        (
          follow e.0.same_id e.0.same_client e.0.same_type e.0.same_birth e.0.moved,
          update_where-renames t u test name now e.1,
        )
  | inr miss ↦ rw (miss, update_where) (e.0, update_where-renames t u test name now e.1)
]

split-Evolves :
    (now : ℕ) (client : String) (items : List CompanySplitItem) (t : Table)
    → Evolves Step t (split_by_company now client items t).0
unfolding update_one
split-Evolves now client items t =
    split_by_company-Kept (Evolves Step t) now client
      (λ item u e. update_where-renames t u _ item.new_name now e)
      (λ head s id u e. Evolves-append t u _ e (inl (inl refl), tt)) items t (Evolves-Step_refl t)

-- Each query of the agent keeps every row, its identity and its type, and moves its status along
-- at most one edge; a row that it creates is pending or claimed.
pub apply-Evolves :
    (now : ℕ) (client : String) (op : AgentOp) (t : Table) → Evolves Step t (apply now client op t)
unfolding apply mark_collected mark_claimed resolve_not_required resolve_required add_instances
    retire mark_stated mark_stated_vehicle set_verification mark_approved revert_to_pending
apply-Evolves now client (collect []) t = Evolves-Step_refl t
apply-Evolves now client (collect (i ∷ ids)) t =
    update_where-Evolves _ _
      (λ r h.
        follow refl refl refl refl
          (collected_Leads r.status (is_listed_status client (i ∷ ids) _ r h)))
      t
apply-Evolves now client (claim_delivered []) t = Evolves-Step_refl t
apply-Evolves now client (claim_delivered (i ∷ ids)) t =
    update_where-Evolves _ _
      (λ r h.
        follow refl refl refl refl
          (claimed_Leads r.status (is_listed_status client (i ∷ ids) _ r h)))
      t
apply-Evolves now client (dismiss_row id e) t =
    update_one-Evolves id client _ _ t
      (λ r h. follow refl refl refl refl (not_required_Leads r.status h))
apply-Evolves now client (resolve id [] e) t = Evolves-Step_refl t
apply-Evolves now client (resolve id (i ∷ is) e) t = resolve_with-Evolves now client e is t _ _ (
    update_one-Evolves id client _ _ t
      (λ r h. follow refl refl refl refl (born_Leads i r.status h)))
apply-Evolves now client (add id [] e) t = Evolves-Step_refl t
apply-Evolves now client (add id (i ∷ is) e) t = add_with-Evolves now client e (i ∷ is) t _
apply-Evolves now client (retire_row id e) t =
    update_one-Evolves id client _ _ t
      (λ r h. follow refl refl refl refl (retired_Leads r.status h))
apply-Evolves now client (state_cost id e) t =
    update_one-Evolves id client _ _ t (λ r h. follow refl refl refl refl (stated_Leads r.status h))
apply-Evolves now client (state_vehicle id e) t =
    update_one-Evolves id client _ _ t
      (λ r h. follow refl refl refl refl (vehicle_Leads r.status h))
apply-Evolves now client (verdict id v) t =
    update_where-Evolves _ _ (λ r h. follow refl refl refl refl (inl refl)) t
apply-Evolves now client (approve_row id v) t =
    update_one-Evolves id client _ _ t
      (λ r h. follow refl refl refl refl (approved_Leads r.status h))
apply-Evolves now client (reopen_row id v) t =
    update_one-Evolves id client _ _ t
      (λ r h. follow refl refl refl refl (reopened_Leads r.status h))
apply-Evolves now client (split items) t = split-Evolves now client items t
