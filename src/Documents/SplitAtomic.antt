-- ===== src/Documents/SplitAtomic.antt =====
-- Atomicity of `splitByCompany` of src/db/queries/clientDocuments.ts.
use mathlib.Core.Path.{subst}
use mathlib.Core.Option.{some-injective}
use fiscal_mind_agent.Prelude.{
  Bool, ℕ, ◌+◌, ◌≡◌, refl, inl, inr, String, Option, none, some, List, [], ◌∷◌, ◌++◌, Option-cases,
  arith, length, length-append,
}
use fiscal_mind_agent.Documents.Table.{DocumentStatus, ClientDocument, Table, update_where}
use fiscal_mind_agent.Documents.Queries.{update_one}
use fiscal_mind_agent.Documents.Transactions.{TxResult, null, done, threw}
use fiscal_mind_agent.Documents.CompanyRows.{
  SplitSibling, CompanySplitItem, split_sibling, insert_split, SplitOutcome, SplitState, split_item,
  split_items, split_by_company, split_item_with, keep_created, finish_split,
}

length-update_where :
    (test : ClientDocument → Bool) (set : ClientDocument → ClientDocument) (t : Table)
    → length (update_where test set t).0 ≡ length t
unfolding update_where
length-update_where test set [] = refl
length-update_where test set (r ∷ rs) = ground (arith, length-update_where test set rs)

length-update_one :
    (id client : String) (from : List DocumentStatus) (set : ClientDocument → ClientDocument)
    (t : Table)
    → length (update_one id client from set t).0 ≡ length t
unfolding update_one
length-update_one id client from set t = length-update_where _ set t

-- How many rows the items' answers hold.
abbrev total {ℓ} : {A : Type ℓ} → List (List A) → ℕ
total [] = 0
total (xs ∷ xss) = length xs + total xss

total-concat {ℓ} :
    {A : Type ℓ} (xss : List (List A)) (xs : List A)
    → total (xss ++ xs ∷ []) ≡ total xss + length xs
total-concat [] xs = omega arith
total-concat (ys ∷ xss) xs = omega (arith, total-concat xss xs)

insert_split-length :
    (now : ℕ) (client : String) (head : ClientDocument) (ss : List SplitSibling) (t : Table)
    (rows : List ClientDocument) {u : Table} {rows' : List ClientDocument}
    → insert_split now client head ss t rows ≡ some (u, rows')
    → length u + length rows ≡ length t + length rows'
unfolding insert_split
insert_split-length now client head [] t rows e = ground arith
insert_split-length now client head (s ∷ ss) t rows e = elim (Option-cases s.row_id) [
  | inl fault ↦ absurd (cc (rw (fault, insert_split) at e))
  | inr (id, given) ↦
      let row = split_sibling now client head s id in
      omega (
        arith,
        insert_split-length now client head ss (t ++ row ∷ []) (rows ++ row ∷ [])
            (rw (given, insert_split) at e),
        length-append rows (row ∷ []),
        length-append t (row ∷ []),
      )
]

-- The loop's state: `n` items answered, and as many new rows in the table as the answers hold.
record IsBalanced (before : Table) (n : ℕ) (s : SplitState) : Type 0 where
  answered : length s.outcome.created ≡ n
  counted : length s.table ≡ length before + total s.outcome.created

split_item_with-IsBalanced :
    (now : ℕ) (client : String) (item : CompanySplitItem) (before : Table) (n : ℕ) (s : SplitState)
    (t : Table) (head : Option ClientDocument) {s' : SplitState}
    → length t ≡ length s.table
    → IsBalanced before n s
    → split_item_with now client item s t head ≡ some s'
    → IsBalanced before (n + 1) s'
unfolding split_item_with
split_item_with-IsBalanced now client item before n s t none same b e =
    subst (IsBalanced before (n + 1)) (some-injective _ _ e) (record {
      answered = omega (arith, b, length-append s.outcome.created ([] ∷ []));
      counted = omega (arith, b, total-concat s.outcome.created []);
    })
split_item_with-IsBalanced now client item before n s t (some head) same b e =
    elim (Option-cases (insert_split now client head item.siblings t [])) [
      | inl fault ↦ absurd (cc (rw (fault, keep_created) at e))
      | inr ((u, rows), given) ↦
          let fits = insert_split-length now client head item.siblings t [] given in
          subst (IsBalanced before (n + 1)) (some-injective _ _ (rw (given, keep_created) at e))
            (record {
              answered = omega (arith, b, length-append s.outcome.created (rows ∷ []));
              counted = omega (arith, b, fits, same, total-concat s.outcome.created rows);
            })
    ]

split_item-IsBalanced :
    (now : ℕ) (client : String) (item : CompanySplitItem) (before : Table) (n : ℕ) (s : SplitState)
    {s' : SplitState}
    → IsBalanced before n s
    → split_item now client item s ≡ some s'
    → IsBalanced before (n + 1) s'
unfolding split_item
split_item-IsBalanced now client item before n s b e =
    split_item_with-IsBalanced now client item before n s _ _
      (length-update_one item.document_id client _ _ s.table) b e

split_items-IsBalanced :
    (now : ℕ) (client : String) (items : List CompanySplitItem) (before : Table) (n : ℕ)
    (s : SplitState) {s' : SplitState}
    → IsBalanced before n s
    → split_items now client items s ≡ some s'
    → IsBalanced before (n + length items) s'
unfolding split_items
split_items-IsBalanced now client [] before n s b e =
    subst (IsBalanced before (n + length {A = CompanySplitItem} [])) (some-injective _ _ e)
      (record { answered = omega (arith, b); counted = b.counted })
split_items-IsBalanced now client (item ∷ items) before n s b e =
    elim (Option-cases (split_item now client item s)) [
      | inl fault ↦ absurd (cc (rw (fault, split_items) at e))
      | inr (s1, given) ↦
          let b' =
            split_items-IsBalanced now client items before (n + 1) s1
              (split_item-IsBalanced now client item before n s b given)
              (rw (given, split_items) at e) in
          record { answered = omega (arith, b'); counted = b'.counted }
    ]

-- What `splitByCompany` may answer: one list of rows for each item, with as many new rows in the
-- table as the lists hold; or an error, with the table as it was.
abbrev pub IsWholeSplit : List CompanySplitItem → Table → Table × TxResult SplitOutcome → Type 0
IsWholeSplit items before (after, null) = ⊥
IsWholeSplit items before (after, threw) = after ≡ before
IsWholeSplit items before (after, done o) =
    (length o.created ≡ length items) × (length after ≡ length before + total o.created)

-- `splitByCompany` throws and leaves the table as it was, or it answers one list of created rows
-- for each item and the table has grown by exactly as many rows as the lists hold.
pub split_by_company-IsWhole :
    (now : ℕ) (client : String) (items : List CompanySplitItem) (t : Table)
    → IsWholeSplit items t (split_by_company now client items t)
unfolding split_by_company
split_by_company-IsWhole now client items t =
    elim (Option-cases (split_items now client items start)) [
      | inl fault ↦ rw (fault, finish_split) refl
      | inr (s, given) ↦
          let b =
            split_items-IsBalanced now client items t 0 start
              (record { answered = refl; counted = omega arith }) given in
          rw (given, finish_split) (omega (arith, b), b.counted)
    ]
  where
    start : SplitState
    start = record { table = t; outcome = record { created = []; skipped = [] } }
