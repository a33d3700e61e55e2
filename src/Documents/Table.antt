-- ===== src/Documents/Table.antt =====
-- The rows of client_documents (src/db/types.ts) and the two SQL forms that the queries of
-- src/db/queries/clientDocuments.ts are made of. JSONB columns hold their JSON text; times are ms.
use fiscal_mind_agent.Prelude.{
  ℕ, Bool, ◌&&◌, String, Option, List, [], ◌∷◌, str_eq, ◌==◌, any, if◌then◌else◌,
}

pub data DocumentStatus : Type 0 where
  unresolved not_required pending claimed collected approved stated retired : DocumentStatus

pub record ClientDocument : Type 0 where
  pub id : String
  pub client_id : String
  pub name : String
  pub description : Option String
  pub status : DocumentStatus
  pub type_key : Option String
  pub paper_key : Option String
  pub verification : Option String
  pub resolution_evidence : Option String
  pub created_at : ℕ
  pub updated_at : ℕ

abbrev pub Table : Type 0
Table = List ClientDocument

abbrev pub index : DocumentStatus → ℕ
index unresolved = 0
index not_required = 1
index pending = 2
index claimed = 3
index collected = 4
index approved = 5
index stated = 6
index retired = 7

-- `status IN (...)`
abbrev pub is_one_of : List DocumentStatus → DocumentStatus → Bool
is_one_of given s = any (λ t. index t == index s) given

-- `id = $1 AND client_id = $2`
abbrev pub is_row : String → String → ClientDocument → Bool
is_row id client_id r = str_eq r.id id && str_eq r.client_id client_id

-- `UPDATE client_documents SET ... WHERE ... RETURNING *`: the table and the returned rows.
unfoldable pub update_where :
    (ClientDocument → Bool)
    → (ClientDocument → ClientDocument)
    → Table
    → Table × List ClientDocument
update_where test set [] = ([], [])
update_where test set (r ∷ rs) =
    let (rest, hit) = update_where test set rs in
    if test r then (set r ∷ rest, set r ∷ hit) else (r ∷ rest, hit)

-- `DELETE FROM client_documents WHERE ...`: the table and how many rows went.
unfoldable pub delete_where : (ClientDocument → Bool) → Table → Table × List ClientDocument
delete_where test [] = ([], [])
delete_where test (r ∷ rs) =
    let (rest, gone) = delete_where test rs in if test r then (rest, r ∷ gone) else (r ∷ rest, gone)
