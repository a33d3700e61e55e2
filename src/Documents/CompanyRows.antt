-- ===== src/Documents/CompanyRows.antt =====
-- The transaction `splitByCompany` of src/db/queries/clientDocuments.ts.
use fiscal_mind_agent.Prelude.{ℕ, String, Option, none, some, List, [], ◌∷◌, ◌++◌}
use fiscal_mind_agent.Documents.Table.{pending, claimed, collected, ClientDocument, Table}
use fiscal_mind_agent.Documents.Queries.{update_one}
use fiscal_mind_agent.Documents.Transactions.{TxResult, done, threw}

-- One item of the per-company split; a sibling carries its evidence and the database's answer.
pub record SplitSibling : Type 0 where
  pub name : String
  pub evidence : String
  pub row_id : Option String

pub record CompanySplitItem : Type 0 where
  pub document_id : String
  pub new_name : String
  pub siblings : List SplitSibling

abbrev pub split_sibling : ℕ → String → ClientDocument → SplitSibling → String → ClientDocument
split_sibling now client_id head s id = record {
  id = id;
  client_id = client_id;
  name = s.name;
  description = head.description;
  status = pending;
  type_key = head.type_key;
  paper_key = head.paper_key;
  verification = none;
  resolution_evidence = some s.evidence;
  created_at = now;
  updated_at = now;
}

-- The inner loop of `splitByCompany`.
unfoldable pub insert_split :
    ℕ
    → String
    → ClientDocument
    → List SplitSibling
    → Table
    → List ClientDocument
    → Option (Table × List ClientDocument)
insert_split now client_id head [] t rows = some (t, rows)
insert_split now client_id head (s ∷ more) t rows = elim s.row_id [
  | none ↦ none
  | some id ↦
      let row = split_sibling now client_id head s id in
      insert_split now client_id head more (t ++ row ∷ []) (rows ++ row ∷ [])
]

pub record SplitOutcome : Type 0 where
  pub created : List (List ClientDocument)
  pub skipped : List String

-- The state of the outer loop: the working copy of the table, and what it has found.
pub record SplitState : Type 0 where
  pub table : Table
  pub outcome : SplitOutcome

abbrev skip_item : CompanySplitItem → SplitState → SplitState
skip_item item s = record s {
  outcome = record {
    created = s.outcome.created ++ [] ∷ [];
    skipped = s.outcome.skipped ++ item.document_id ∷ [];
  };
}

abbrev pub keep_created : SplitState → Option (Table × List ClientDocument) → Option SplitState
keep_created s none = none
keep_created s (some (t, rows)) = some (record {
  table = t;
  outcome = record { created = s.outcome.created ++ rows ∷ []; skipped = s.outcome.skipped };
})

-- One round of the outer loop, once the UPDATE of the head has answered.
unfoldable pub split_item_with :
    ℕ → String → CompanySplitItem → SplitState → Table → Option ClientDocument → Option SplitState
unfolding insert_split
split_item_with now client_id item s t none = some (skip_item item s)
split_item_with now client_id item s t (some head) =
    keep_created s (insert_split now client_id head item.siblings t [])

unfoldable pub split_item : ℕ → String → CompanySplitItem → SplitState → Option SplitState
unfolding split_item_with
split_item now client_id item s =
    let (t, head) =
      update_one item.document_id client_id (pending ∷ claimed ∷ collected ∷ [])
        (λ r. record r { name = item.new_name; updated_at = now }) s.table in
    split_item_with now client_id item s t head

unfoldable pub split_items : ℕ → String → List CompanySplitItem → SplitState → Option SplitState
split_items now client_id [] s = some s
split_items now client_id (item ∷ items) s = elim (split_item now client_id item s) [
  | none ↦ none
  | some s' ↦ split_items now client_id items s'
]

abbrev pub finish_split : Table → Option SplitState → Table × TxResult SplitOutcome
finish_split before none = (before, threw)
finish_split before (some s) = (s.table, done s.outcome)

unfoldable pub split_by_company :
    ℕ → String → List CompanySplitItem → Table → Table × TxResult SplitOutcome
unfolding split_items split_item
split_by_company now client_id items t = finish_split t (
    split_items now client_id items
      (record { table = t; outcome = record { created = []; skipped = [] } }))
