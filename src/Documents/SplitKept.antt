-- ===== src/Documents/SplitKept.antt =====
-- What holds of the table through `splitByCompany` of src/db/queries/clientDocuments.ts, where a rename of a
-- row and a new sibling keep it.
use mathlib.Core.Path.{subst}
use mathlib.Core.Option.{some-injective}
use fiscal_mind_agent.Prelude.{
  ℕ, ◌≡◌, inl, inr, String, Option, none, some, List, [], ◌∷◌, ◌++◌, Option-cases,
}
use fiscal_mind_agent.Documents.Table.{pending, claimed, collected, ClientDocument, Table}
use fiscal_mind_agent.Documents.Queries.{update_one}
use fiscal_mind_agent.Documents.CompanyRows.{
  SplitSibling, CompanySplitItem, split_sibling, insert_split, SplitState, split_item, split_items,
  split_by_company, split_item_with, keep_created, finish_split,
}

module _ (Q : Table → Type 0) (now : ℕ) (client : String)
    (renames : (item : CompanySplitItem) (t : Table)
      → Q t
      → Q
          (update_one item.document_id client
            (pending ∷ claimed ∷ collected ∷ [])
            (λ r. record r { name = item.new_name; updated_at = now })
            t).0)
    (grows : (head : ClientDocument) (s : SplitSibling) (id : String) (t : Table)
      → Q t
      → Q (t ++ split_sibling now client head s id ∷ [])) where
  insert_split-Kept :
      (head : ClientDocument) (ss : List SplitSibling) (t : Table) (rows : List ClientDocument)
      {u : Table} {rows' : List ClientDocument}
      → Q t
      → insert_split now client head ss t rows ≡ some (u, rows')
      → Q u
  unfolding insert_split
  insert_split-Kept head [] t rows q e = subst (λ x. Q x.0) (some-injective _ _ e) q
  insert_split-Kept head (s ∷ ss) t rows q e = elim (Option-cases s.row_id) [
    | inl fault ↦ absurd (cc (rw (fault, insert_split) at e))
    | inr (id, given) ↦
        let row = split_sibling now client head s id in
        insert_split-Kept head ss (t ++ row ∷ []) (rows ++ row ∷ []) (grows head s id t q)
          (rw (given, insert_split) at e)
  ]

  split_item_with-Kept :
      (item : CompanySplitItem) (s : SplitState) (t : Table) (head : Option ClientDocument)
      {s' : SplitState}
      → Q s.table
      → Q t
      → split_item_with now client item s t head ≡ some s'
      → Q s'.table
  unfolding split_item_with
  split_item_with-Kept item s t none before q e =
      subst (λ x. Q x.table) (some-injective _ _ e) before
  split_item_with-Kept item s t (some head) before q e =
      elim (Option-cases (insert_split now client head item.siblings t [])) [
        | inl fault ↦ absurd (cc (rw (fault, keep_created) at e))
        | inr ((u, rows), given) ↦
            subst (λ x. Q x.table) (some-injective _ _ (rw (given, keep_created) at e))
              (insert_split-Kept head item.siblings t [] q given)
      ]

  split_items-Kept :
      (items : List CompanySplitItem) (s : SplitState) {s' : SplitState}
      → Q s.table
      → split_items now client items s ≡ some s'
      → Q s'.table
  unfolding split_items split_item
  split_items-Kept [] s q e = subst (λ x. Q x.table) (some-injective _ _ e) q
  split_items-Kept (item ∷ items) s q e = elim (Option-cases (split_item now client item s)) [
    | inl fault ↦ absurd (cc (rw (fault, split_items) at e))
    | inr (s1, given) ↦
        split_items-Kept items s1 (split_item_with-Kept item s _ _ q (renames item s.table q) given)
          (rw (given, split_items) at e)
  ]

  pub split_by_company-Kept :
      (items : List CompanySplitItem) (t : Table) → Q t → Q (split_by_company now client items t).0
  unfolding split_by_company
  split_by_company-Kept items t q = elim (Option-cases (split_items now client items start)) [
    | inl fault ↦ rw (fault, finish_split) q
    | inr (s, given) ↦ rw (given, finish_split) (split_items-Kept items start q given)
  ]
    where
      start : SplitState
      start = record { table = t; outcome = record { created = []; skipped = [] } }
