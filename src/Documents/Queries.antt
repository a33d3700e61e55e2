-- ===== src/Documents/Queries.antt =====
-- The single-statement queries of src/db/queries/clientDocuments.ts. Each takes the time of the
-- statement (`now()`), and returns the table with what the query returns.
use fiscal_mind_agent.Prelude.{
  ℕ, Bool, ◌&&◌, ◌||◌, not, String, Option, none, some, List, [], ◌∷◌, ◌++◌, str_eq, any, keep,
  first, is_some, or_else, if◌then◌else◌,
}
use fiscal_mind_agent.Documents.Table.{
  DocumentStatus, unresolved, not_required, pending, claimed, collected, approved, stated, retired,
  ClientDocument, Table, is_one_of, is_row, update_where, delete_where,
}

-- `getForClient`
unfoldable pub get_for_client : String → String → Table → Option ClientDocument
get_for_client id client_id t = first (keep (is_row id client_id) t)

-- The arguments of `insert`, with the id that the database gives to the row.
pub record NewDocument : Type 0 where
  pub id : String
  pub client_id : String
  pub name : String
  pub description : Option String
  pub type_key : Option String
  pub paper_key : Option String
  pub status : Option DocumentStatus

unfoldable pub insert : ℕ → NewDocument → Table → Table × ClientDocument
insert now args t =
    let row : ClientDocument = record {
      id = args.id;
      client_id = args.client_id;
      name = args.name;
      description = args.description;
      status = or_else args.status pending;
      type_key = args.type_key;
      paper_key = args.paper_key;
      verification = none;
      resolution_evidence = none;
      created_at = now;
      updated_at = now;
    } in
    (t ++ row ∷ [], row)

-- `none` = the field is not in the patch; `clear_evidence` = `resolutionEvidence: null`.
pub record DocumentPatch : Type 0 where
  pub name : Option String
  pub description : Option (Option String)
  pub status : Option DocumentStatus
  pub clear_evidence : Bool

abbrev is_empty_patch : DocumentPatch → Bool
is_empty_patch p =
    not (is_some p.name || is_some p.description || is_some p.status || p.clear_evidence)

unfoldable update_for_client :
    ℕ → String → String → DocumentPatch → Table → Table × Option ClientDocument
unfolding get_for_client
update_for_client now id client_id patch t =
    if is_empty_patch patch
    then (t, get_for_client id client_id t)
    else (let (t', rows) =
          update_where (is_row id client_id)
            (λ r. record r {
              name = or_else patch.name r.name;
              description = or_else patch.description r.description;
              status = or_else patch.status r.status;
              resolution_evidence = if patch.clear_evidence then none else r.resolution_evidence;
              updated_at = now;
            })
            t in
        (t', first rows))

unfoldable remove_for_client : String → String → Table → Table × Bool
remove_for_client id client_id t =
    let (t', gone) = delete_where (is_row id client_id) t in (t', is_some (first gone))

-- `client_id = $1 AND id = ANY($2) AND status IN (...)`
unfoldable pub is_listed : String → List String → List DocumentStatus → ClientDocument → Bool
is_listed client_id ids from r =
    str_eq r.client_id client_id && any (λ id. str_eq r.id id) ids && is_one_of from r.status

unfoldable pub mark_collected : ℕ → String → List String → Table → Table
mark_collected now client_id [] t = t
mark_collected now client_id (i ∷ ids) t =
    (update_where (is_listed client_id (i ∷ ids) (pending ∷ claimed ∷ []))
      (λ r. record r { status = collected; updated_at = now }) t).0

unfoldable pub mark_claimed : ℕ → String → List String → Table → Table
mark_claimed now client_id [] t = t
mark_claimed now client_id (i ∷ ids) t =
    (update_where (is_listed client_id (i ∷ ids) (pending ∷ []))
      (λ r. record r { status = claimed; updated_at = now }) t).0

-- `UPDATE ... WHERE id = $1 AND client_id = $2 AND status IN (from) RETURNING *`, the first row.
unfoldable pub update_one :
    String
    → String
    → List DocumentStatus
    → (ClientDocument → ClientDocument)
    → Table
    → Table × Option ClientDocument
update_one id client_id from set t =
    let (t', rows) = update_where (λ r. is_row id client_id r && is_one_of from r.status) set t in
    (t', first rows)

unfoldable pub resolve_not_required :
    ℕ → String → String → String → Table → Table × Option ClientDocument
resolve_not_required now id client_id evidence =
    update_one id client_id (unresolved ∷ [])
      λ r. record r { status = not_required; resolution_evidence = some evidence; updated_at = now }

unfoldable pub retire : ℕ → String → String → String → Table → Table × Option ClientDocument
retire now id client_id evidence =
    update_one id client_id (pending ∷ claimed ∷ collected ∷ approved ∷ [])
      λ r. record r { status = retired; resolution_evidence = some evidence; updated_at = now }

unfoldable pub mark_stated : ℕ → String → String → String → Table → Table × Option ClientDocument
mark_stated now id client_id evidence =
    update_one id client_id (pending ∷ [])
      λ r. record r { status = stated; resolution_evidence = some evidence; updated_at = now }

unfoldable pub mark_stated_vehicle :
    ℕ → String → String → String → Table → Table × Option ClientDocument
mark_stated_vehicle now id client_id evidence =
    update_one id client_id (pending ∷ stated ∷ [])
      λ r. record r { status = stated; resolution_evidence = some evidence; updated_at = now }

unfoldable pub set_verification :
    ℕ → String → String → String → Table → Table × Option ClientDocument
set_verification now id client_id verdict t =
    let (t', rows) =
      update_where (is_row id client_id)
        (λ r. record r { verification = some verdict; updated_at = now }) t in
    (t', first rows)

unfoldable pub mark_approved : ℕ → String → String → String → Table → Table × Option ClientDocument
mark_approved now id client_id verdict =
    update_one id client_id (collected ∷ [])
      λ r. record r { status = approved; verification = some verdict; updated_at = now }

unfoldable pub revert_to_pending :
    ℕ → String → String → String → Table → Table × Option ClientDocument
revert_to_pending now id client_id verdict =
    update_one id client_id (collected ∷ [])
      λ r. record r { status = pending; verification = some verdict; updated_at = now }
