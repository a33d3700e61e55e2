-- ===== src/Documents/Atomic.antt =====
-- Atomicity of `resolveRequired` of src/db/queries/clientDocuments.ts.
use mathlib.Core.Path.{subst}
use mathlib.Core.Option.{some-injective}
use fiscal_mind_agent.Prelude.{
  ℕ, ◌≡◌, refl, inl, inr, ◌⊎◌, Bool, true, false, ◌&&◌, and-left, and-right, String, Option, none,
  some, List, [], ◌∷◌, ◌++◌, Bool-cases, str_eq, eq_iff, first,
}
use fiscal_mind_agent.Documents.Table.{
  DocumentStatus, unresolved, not_required, pending, claimed, ClientDocument, Table, update_where,
  is_row, is_one_of,
}
use fiscal_mind_agent.Documents.Queries.{update_one}
use fiscal_mind_agent.Documents.Transactions.{
  DocumentInstance, TxResult, null, done, threw, born_status, resolve_required, resolve_with,
}
use fiscal_mind_agent.Documents.NewRows.{AreNewRows, Grows, insert_siblings-Grows}

-- The row that an instance makes of the row that is resolved.
pub record IsResolved (now : ℕ) (id client : String) (evidence : Option String)
    (i : DocumentInstance) (before after : ClientDocument) : Type 0 where
  pub was_it : (before.id ≡ id) × (before.client_id ≡ client)
  pub was_open : (before.status ≡ unresolved) ⊎ (before.status ≡ not_required)
  pub held : i.already_provided ≡ true → after.status ≡ claimed
  pub wanted : i.already_provided ≡ false → after.status ≡ pending
  pub rest : after ≡ record before {
    status = after.status;
    name = i.name;
    description = i.description;
    resolution_evidence = evidence;
    paper_key = i.paper_key;
    updated_at = now;
  }

-- The table with the rows of that id resolved, and all others as they were.
abbrev AreResolved :
    (now : ℕ) (id client : String) (evidence : Option String) (i : DocumentInstance)
    → Table
    → Table
    → Type 0
AreResolved now id client evidence i [] [] = Unit
AreResolved now id client evidence i (r ∷ rs) (r' ∷ rs') =
    ((r' ≡ r) ⊎ IsResolved now id client evidence i r r')
    × AreResolved now id client evidence i rs rs'
AreResolved now id client evidence i _ _ = ⊥

-- The row stands in the table, at the place of one that it resolves.
abbrev IsAmong :
    (now : ℕ) (id client : String) (evidence : Option String) (i : DocumentInstance)
    → ClientDocument
    → Table
    → Table
    → Type 0
IsAmong now id client evidence i head (r ∷ rs) (r' ∷ rs') =
    ((r' ≡ head) × IsResolved now id client evidence i r head)
    ⊎ IsAmong now id client evidence i head rs rs'
IsAmong now id client evidence i head _ _ = ⊥

-- What `resolveRequired` may answer over the table `before`: null or an error, with the table as it was; or
-- the resolved row, and after it one new row for each further instance, which also stand in that order
-- behind the rows that were there.
abbrev pub IsWhole :
    (now : ℕ) (id client : String) (i : DocumentInstance) (is : List DocumentInstance)
    (evidence : Option String)
    → Table
    → Table × TxResult (List ClientDocument)
    → Type 0
IsWhole now id client i is evidence before (after, null) = after ≡ before
IsWhole now id client i is evidence before (after, threw) = after ≡ before
IsWhole now id client i is evidence before (after, done rows) =
    (head : ClientDocument) × (new : List ClientDocument) × (there : Table) × (rows ≡ head ∷ new)
    × (after ≡ there ++ new)
    × AreResolved now id client evidence i before there
    × IsAmong now id client evidence i head before there
    × AreNewRows now client head.type_key evidence is new

module _ (now : ℕ) (id client : String) (evidence : Option String) (i : DocumentInstance) where
  resolves : ClientDocument → ClientDocument
  resolves r = record r {
    status = born_status i;
    name = i.name;
    description = i.description;
    resolution_evidence = evidence;
    paper_key = i.paper_key;
    updated_at = now;
  }

  is_open :
      (s : DocumentStatus)
      → is_one_of (unresolved ∷ not_required ∷ []) s ≡ true
      → (s ≡ unresolved) ⊎ (s ≡ not_required)
  is_open unresolved h = inl refl
  is_open not_required h = inr refl
  is_open _ h = cc

  resolves-IsResolved :
      (r : ClientDocument)
      → (is_row id client r && is_one_of (unresolved ∷ not_required ∷ []) r.status) ≡ true
      → IsResolved now id client evidence i r (resolves r)
  unfolding resolves
  resolves-IsResolved r h = record {
    was_it =
        let it = and-left (is_row id client r) _ h in
        (
          (eq_iff r.id id).0 (and-left (str_eq r.id id) _ it),
          (eq_iff r.client_id client).0 (and-right (str_eq r.id id) _ it),
        );
    was_open = is_open r.status (and-right (is_row id client r) _ h);
    held = λ h. rw h refl;
    wanted = λ h. rw h refl;
    rest = refl;
  }

  module _ (test : ClientDocument → Bool)
      (ok : (r : ClientDocument)
        → test r ≡ true
        → IsResolved now id client evidence i r (resolves r)) where
    all_resolved :
        (t : Table) → AreResolved now id client evidence i t (update_where test resolves t).0
    unfolding update_where
    all_resolved [] = tt
    all_resolved (r ∷ rs) = elim (Bool-cases (test r)) [
      | inl hit ↦ rw (hit, update_where) (inr (ok r hit), all_resolved rs)
      | inr miss ↦ rw (miss, update_where) (inl refl, all_resolved rs)
    ]

    first_resolved :
        (t : Table) (head : ClientDocument)
        → first (update_where test resolves t).1 ≡ some head
        → IsAmong now id client evidence i head t (update_where test resolves t).0
    unfolding update_where
    first_resolved [] head h = absurd (cc h)
    first_resolved (r ∷ rs) head h = elim (Bool-cases (test r)) [
      | inl hit ↦
          let same : resolves r ≡ head = some-injective _ _ (rw (hit, update_where) at h) in
          rw (hit, update_where)
            (inl (same, subst (IsResolved now id client evidence i r) same (ok r hit)))
      | inr miss ↦
          rw (miss, update_where) (inr (first_resolved rs head (rw (miss, update_where) at h)))
    ]

  answered :
      (is : List DocumentInstance) (before there : Table) (head : ClientDocument)
      (x : Table × TxResult (List ClientDocument))
      → AreResolved now id client evidence i before there
      → IsAmong now id client evidence i head before there
      → Grows now client head.type_key evidence is before there (head ∷ []) x
      → IsWhole now id client i is evidence before x
  unfolding Grows
  answered is before there head (after, null) resolved among g = absurd g
  answered is before there head (after, threw) resolved among g = g
  answered is before there head (after, done rows) resolved among (new, are_new, grown, told) =
      (head, new, there, told, grown, resolved, among, are_new)

  resolve_with-IsWhole :
      (is : List DocumentInstance) (before there : Table) (head : Option ClientDocument)
      → AreResolved now id client evidence i before there
      → ((r : ClientDocument) → head ≡ some r → IsAmong now id client evidence i r before there)
      → IsWhole now id client i is evidence before
          (resolve_with now client evidence is before there head)
  resolve_with-IsWhole is before there none resolved among = refl
  resolve_with-IsWhole is before there (some head) resolved among =
      answered is before there head _ resolved (among head refl)
        (insert_siblings-Grows now client head.type_key evidence is before there (head ∷ []))

-- `resolveRequired` either answers null or throws and leaves the table as it was; or it answers the resolved
-- row first, which was unresolved or not required and stands at its old place, and after it one new row
-- for each further instance, in order. Then the table is the old one with that row resolved and no other
-- row changed but such as bear its id, and the new rows behind it. A row is claimed where its instance is held
-- already and pending where it is not, under the instance's name and with the evidence.
pub resolve_required-IsWhole :
    (now : ℕ) (id client : String) (i : DocumentInstance) (is : List DocumentInstance)
    (evidence : Option String) (t : Table)
    → IsWhole now id client i is evidence t (resolve_required now id client (i ∷ is) evidence t)
unfolding resolve_required update_one resolves
resolve_required-IsWhole now id client i is evidence t =
    resolve_with-IsWhole now id client evidence i is t _ _
      (all_resolved now id client evidence i _ (resolves-IsResolved now id client evidence i) t)
      (first_resolved now id client evidence i _ (resolves-IsResolved now id client evidence i) t)
