-- ===== src/Documents/Transactions.antt =====
-- The transactions `resolveRequired` and `addInstances` of src/db/queries/clientDocuments.ts. A
-- transaction works on a copy of the table; ROLLBACK returns the old one.
use fiscal_mind_agent.Prelude.{
  ℕ, Bool, ◌&&◌, not, String, Option, none, some, List, [], ◌∷◌, ◌++◌, is_some, keep, first,
  if◌then◌else◌,
}
use fiscal_mind_agent.Documents.Table.{
  DocumentStatus, unresolved, not_required, pending, claimed, ClientDocument, Table, is_one_of,
  is_row,
}
use fiscal_mind_agent.Documents.Queries.{update_one}

-- One concrete document, with what the database makes of its INSERT: the id of the new row, or
-- `none` where the statement throws.
pub record DocumentInstance : Type 0 where
  pub name : String
  pub description : Option String
  pub already_provided : Bool
  pub paper_key : Option String
  pub row_id : Option String

-- What a transaction answers: null, the rows, or the error that it throws again.
pub data TxResult {ℓ} (A : Type ℓ) : Type ℓ where
  null : TxResult A
  done : A → TxResult A
  threw : TxResult A

abbrev pub born_status : DocumentInstance → DocumentStatus
born_status i = if i.already_provided then claimed else pending

abbrev pub new_sibling :
    ℕ → String → Option String → Option String → DocumentInstance → String → ClientDocument
new_sibling now client_id type_key evidence i id = record {
  id = id;
  client_id = client_id;
  name = i.name;
  description = i.description;
  status = born_status i;
  type_key = type_key;
  paper_key = i.paper_key;
  verification = none;
  resolution_evidence = evidence;
  created_at = now;
  updated_at = now;
}

-- The loop of INSERTs: the table and the rows so far, or `none` once a statement throws.
unfoldable pub insert_siblings :
    ℕ
    → String
    → Option String
    → Option String
    → List DocumentInstance
    → Table
    → List ClientDocument
    → Option (Table × List ClientDocument)
insert_siblings now client_id type_key evidence [] t result = some (t, result)
insert_siblings now client_id type_key evidence (i ∷ more) t result = elim i.row_id [
  | none ↦ none
  | some id ↦
      let row = new_sibling now client_id type_key evidence i id in
      insert_siblings now client_id type_key evidence more (t ++ row ∷ []) (result ++ row ∷ [])
]

-- COMMIT, or ROLLBACK to the table that the transaction began with.
abbrev pub finish :
    Table → Option (Table × List ClientDocument) → Table × TxResult (List ClientDocument)
finish before none = (before, threw)
finish before (some (t, rows)) = (t, done rows)

abbrev pub resolve_with :
    ℕ
    → String
    → Option String
    → List DocumentInstance
    → Table
    → Table
    → Option ClientDocument
    → Table × TxResult (List ClientDocument)
resolve_with now client_id evidence extras before t none = (before, null)
resolve_with now client_id evidence extras before t (some head) =
    finish before (insert_siblings now client_id head.type_key evidence extras t (head ∷ []))

-- An empty list throws before the transaction begins.
unfoldable pub resolve_required :
    ℕ
    → String
    → String
    → List DocumentInstance
    → Option String
    → Table
    → Table × TxResult (List ClientDocument)
unfolding insert_siblings
resolve_required now id client_id [] evidence t = (t, threw)
resolve_required now id client_id (i ∷ extras) evidence t =
    let (t', head) =
      update_one id client_id (unresolved ∷ not_required ∷ [])
        (λ r. record r {
          status = born_status i;
          name = i.name;
          description = i.description;
          resolution_evidence = evidence;
          paper_key = i.paper_key;
          updated_at = now;
        })
        t in
    resolve_with now client_id evidence extras t t' head

-- `type_key IS NOT NULL AND status <> 'unresolved'`
abbrev is_anchor : String → String → ClientDocument → Bool
is_anchor id client_id r =
    is_row id client_id r && is_some r.type_key && not (is_one_of (unresolved ∷ []) r.status)

abbrev pub add_with :
    ℕ
    → String
    → Option String
    → List DocumentInstance
    → Table
    → Option ClientDocument
    → Table × TxResult (List ClientDocument)
add_with now client_id evidence instances before none = (before, null)
add_with now client_id evidence instances before (some anchor) =
    finish before (insert_siblings now client_id anchor.type_key evidence instances before [])

unfoldable pub add_instances :
    ℕ
    → String
    → String
    → List DocumentInstance
    → Option String
    → Table
    → Table × TxResult (List ClientDocument)
unfolding insert_siblings
add_instances now id client_id [] evidence t = (t, threw)
add_instances now id client_id (i ∷ more) evidence t =
    add_with now client_id evidence (i ∷ more) t (first (keep (is_anchor id client_id) t))
