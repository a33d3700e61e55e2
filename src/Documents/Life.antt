-- ===== src/Documents/Life.antt =====
-- The life of a checklist row: which changes of status the agent's queries can make.
use fiscal_mind_agent.Prelude.{
  ◌≡◌, refl, ◌⊎◌, inl, inr, Bool, true, [], ◌∷◌, ◌++◌, All, All-append, Bool-cases,
}
use fiscal_mind_agent.Documents.Table.{
  DocumentStatus, unresolved, not_required, pending, claimed, collected, approved, stated, retired,
  ClientDocument, Table, update_where,
}

-- The changes of status that a query of the agent may make.
infix 40 ◌⟶◌ ◌⟶*◌
pub data ◌⟶◌ : DocumentStatus → DocumentStatus → Type 0 where
  dismiss : unresolved ⟶ not_required
  need : unresolved ⟶ pending
  need_held : unresolved ⟶ claimed
  reconsider : not_required ⟶ pending
  reconsider_held : not_required ⟶ claimed
  claim : pending ⟶ claimed
  receive : pending ⟶ collected
  receive_claimed : claimed ⟶ collected
  approve : collected ⟶ approved
  reopen : collected ⟶ pending
  state : pending ⟶ stated
  retire_pending : pending ⟶ retired
  retire_claimed : claimed ⟶ retired
  retire_collected : collected ⟶ retired
  retire_approved : approved ⟶ retired

pub data ◌⟶*◌ : DocumentStatus → DocumentStatus → Type 0 where
  here : {s : DocumentStatus} → s ⟶* s
  next : {s t u : DocumentStatus} → s ⟶* t → t ⟶ u → s ⟶* u

pub ⟶*-trans : {s t u : DocumentStatus} → s ⟶* t → t ⟶* u → s ⟶* u
⟶*-trans p here = p
⟶*-trans p (next q e) = next (⟶*-trans p q) e

-- At most one change.
abbrev pub Step : DocumentStatus → DocumentStatus → Type 0
Step s t = (s ≡ t) ⊎ (s ⟶ t)

pub Step-⟶* : {s t : DocumentStatus} → Step s t → s ⟶* t
Step-⟶* {s} (inl e) = rw (← e) here
Step-⟶* (inr e) = next here e

-- A row keeps its identity and its type, and its status moves along `R`.
pub record Follows (R : DocumentStatus → DocumentStatus → Type 0) (r r' : ClientDocument)
    : Type 0 where
  pub same_id : r'.id ≡ r.id
  pub same_client : r'.client_id ≡ r.client_id
  pub same_type : r'.type_key ≡ r.type_key
  pub same_birth : r'.created_at ≡ r.created_at
  pub moved : R r.status r'.status

pub follow :
    {R : DocumentStatus → DocumentStatus → Type 0} {r r' : ClientDocument}
    → r'.id ≡ r.id
    → r'.client_id ≡ r.client_id
    → r'.type_key ≡ r.type_key
    → r'.created_at ≡ r.created_at
    → R r.status r'.status
    → Follows R r r'
follow a b c d e = record { same_id = a; same_client = b; same_type = c; same_birth = d; moved = e }

-- A row that was not there before starts as pending or claimed, and moves on from there.
abbrev pub IsBorn : (DocumentStatus → DocumentStatus → Type 0) → ClientDocument → Type 0
IsBorn R r = R pending r.status ⊎ R claimed r.status

-- No row goes: each follows `R`, and new ones stand behind them.
abbrev pub Evolves : (DocumentStatus → DocumentStatus → Type 0) → Table → Table → Type 0
Evolves R [] new = All (IsBorn R) new
Evolves R (r ∷ rs) [] = ⊥
Evolves R (r ∷ rs) (r' ∷ rs') = Follows R r r' × Evolves R rs rs'

Follows-Step_refl : (r : ClientDocument) → Follows Step r r
Follows-Step_refl r = record {
  same_id = refl;
  same_client = refl;
  same_type = refl;
  same_birth = refl;
  moved = inl refl;
}

pub Evolves-Step_refl : (t : Table) → Evolves Step t t
Evolves-Step_refl [] = tt
Evolves-Step_refl (r ∷ rs) = (Follows-Step_refl r, Evolves-Step_refl rs)

-- An UPDATE evolves the table, if what it sets follows a step wherever its test passes.
pub update_where-Evolves :
    (test : ClientDocument → Bool) (set : ClientDocument → ClientDocument)
    → ((r : ClientDocument) → test r ≡ true → Follows Step r (set r))
    → (t : Table) → Evolves Step t (update_where test set t).0
unfolding update_where
update_where-Evolves test set ok [] = tt
update_where-Evolves test set ok (r ∷ rs) = elim (Bool-cases (test r)) [
  | inl hit ↦ rw (hit, update_where) (ok r hit, update_where-Evolves test set ok rs)
  | inr miss ↦ rw (miss, update_where) (Follows-Step_refl r, update_where-Evolves test set ok rs)
]

pub Evolves-append :
    (t u new : Table) → Evolves Step t u → All (IsBorn Step) new → Evolves Step t (u ++ new)
Evolves-append [] u new e born = All-append (IsBorn Step) u new e born
Evolves-append (r ∷ rs) [] new e born = absurd e
Evolves-append (r ∷ rs) (r' ∷ rs') new e born = (e.0, Evolves-append rs rs' new e.1 born)
