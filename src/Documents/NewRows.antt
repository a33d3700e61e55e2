-- ===== src/Documents/NewRows.antt =====
-- The loop of INSERTs of `resolveRequired` and `addInstances` of src/db/queries/clientDocuments.ts.
use mathlib.Core.Path.{subst}
use fiscal_mind_agent.Prelude.{
  ℕ, ◌≡◌, refl, sym, ap, ◌∙◌, inl, inr, true, false, String, Option, some, List, [], ◌∷◌, ◌++◌,
  Option-cases,
}
use fiscal_mind_agent.Documents.Table.{pending, claimed, ClientDocument, Table}
use fiscal_mind_agent.Documents.Transactions.{
  DocumentInstance, TxResult, null, done, threw, new_sibling, insert_siblings, finish,
}

-- A row is the new one of an instance: pending, or claimed where the client holds the document.
pub record IsNewRow (now : ℕ) (client : String) (type_key evidence : Option String)
    (i : DocumentInstance) (r : ClientDocument) : Type 0 where
  pub given_id : i.row_id ≡ some r.id
  pub of_client : r.client_id ≡ client
  pub named : r.name ≡ i.name
  pub described : r.description ≡ i.description
  pub held : i.already_provided ≡ true → r.status ≡ claimed
  pub wanted : i.already_provided ≡ false → r.status ≡ pending
  pub of_type : r.type_key ≡ type_key
  pub on_paper : r.paper_key ≡ i.paper_key
  pub proven : r.resolution_evidence ≡ evidence
  pub born : r.created_at ≡ now

-- One new row for each instance, in order.
abbrev pub AreNewRows :
    (now : ℕ) (client : String) (type_key evidence : Option String)
    → List DocumentInstance
    → List ClientDocument
    → Type 0
AreNewRows now client type_key evidence [] [] = Unit
AreNewRows now client type_key evidence (i ∷ is) (r ∷ rs) =
    IsNewRow now client type_key evidence i r × AreNewRows now client type_key evidence is rs
AreNewRows now client type_key evidence _ _ = ⊥

-- The loop answers the rows so far and the new ones, which also stand at the end of the table; or the
-- transaction throws, and leaves the table as it was.
unfoldable pub Grows :
    (now : ℕ) (client : String) (type_key evidence : Option String) (is : List DocumentInstance)
    (before t : Table) (rows : List ClientDocument)
    → Table × TxResult (List ClientDocument)
    → Type 0
Grows now client type_key evidence is before t rows (after, null) = ⊥
Grows now client type_key evidence is before t rows (after, threw) = after ≡ before
Grows now client type_key evidence is before t rows (after, done answer) =
    (new : List ClientDocument) × AreNewRows now client type_key evidence is new
    × (after ≡ t ++ new)
    × (answer ≡ rows ++ new)

new_sibling-IsNewRow :
    (now : ℕ) (client : String) (type_key evidence : Option String) (i : DocumentInstance)
    (id : String)
    → i.row_id ≡ some id
    → IsNewRow now client type_key evidence i (new_sibling now client type_key evidence i id)
new_sibling-IsNewRow now client type_key evidence i id given = record {
  given_id = given;
  of_client = refl;
  named = refl;
  described = refl;
  held = λ h. rw h refl;
  wanted = λ h. rw h refl;
  of_type = refl;
  on_paper = refl;
  proven = refl;
  born = refl;
}

one_more :
    (now : ℕ) (client : String) (type_key evidence : Option String) (i : DocumentInstance)
    (is : List DocumentInstance) (before t : Table) (rows : List ClientDocument)
    (r : ClientDocument) (x : Table × TxResult (List ClientDocument))
    → IsNewRow now client type_key evidence i r
    → Grows now client type_key evidence is before (t ++ r ∷ []) (rows ++ r ∷ []) x
    → Grows now client type_key evidence (i ∷ is) before t rows x
unfolding Grows
one_more now client type_key evidence i is before t rows r (after, null) is_new g = g
one_more now client type_key evidence i is before t rows r (after, threw) is_new g = g
one_more now client type_key evidence i is before t rows r (after, done answer) is_new
      (new, are_new, grown, told) =
    (r ∷ new, (is_new, are_new), grown ∙ append-one t r new, told ∙ append-one rows r new)
  where
    append-one :
        (xs : List ClientDocument) (x : ClientDocument) (ys : List ClientDocument)
        → (xs ++ x ∷ []) ++ ys ≡ xs ++ x ∷ ys
    append-one [] x ys = refl
    append-one (z ∷ xs) x ys = ap (λ l. z ∷ l) (append-one xs x ys)

next :
    (now : ℕ) (client : String) (type_key evidence : Option String) (i : DocumentInstance)
    (is : List DocumentInstance) (t : Table) (rows : List ClientDocument) (id : String)
    → i.row_id ≡ some id
    → let row = new_sibling now client type_key evidence i id in
      insert_siblings now client type_key evidence (i ∷ is) t rows
      ≡ insert_siblings now client type_key evidence is (t ++ row ∷ []) (rows ++ row ∷ [])
unfolding insert_siblings
next now client type_key evidence i is t rows id given = rw given refl

append-nil : (l : Table) → l ++ [] ≡ l
append-nil [] = refl
append-nil (r ∷ l) = ap (λ x. r ∷ x) (append-nil l)

pub insert_siblings-Grows :
    (now : ℕ) (client : String) (type_key evidence : Option String) (is : List DocumentInstance)
    (before t : Table) (rows : List ClientDocument)
    → Grows now client type_key evidence is before t rows
        (finish before (insert_siblings now client type_key evidence is t rows))
unfolding insert_siblings Grows
insert_siblings-Grows now client type_key evidence [] before t rows =
    ([], tt, sym (append-nil t), sym (append-nil rows))
insert_siblings-Grows now client type_key evidence (i ∷ is) before t rows =
    elim (Option-cases i.row_id) [
      | inl fault ↦ rw (fault, insert_siblings) refl
      | inr (id, given) ↦
          let row = new_sibling now client type_key evidence i id in
          subst (λ o. Grows now client type_key evidence (i ∷ is) before t rows (finish before o))
            (sym (next now client type_key evidence i is t rows id given))
            (one_more now client type_key evidence i is before t rows row _
              (new_sibling-IsNewRow now client type_key evidence i id given)
              (insert_siblings-Grows now client type_key evidence is before (t ++ row ∷ [])
                (rows ++ row ∷ [])))
    ]
