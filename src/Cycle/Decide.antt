-- ===== src/Cycle/Decide.antt =====
-- Which documents are collected or claimed, and which file each is verified against
-- (`decideCollectOrClaim` and `pickVerificationTargets` of src/agents/declarationOfCapital/plan.ts).
use fiscal_mind_agent.Prelude.{
  Bool, false, not, ◌||◌, String, Option, none, some, List, [], ◌∷◌, ◌++◌, any, find, first_some,
  str_eq, if◌then◌else◌,
}
use fiscal_mind_agent.Documents.Table
use fiscal_mind_agent.Documents.Table.{ClientDocument, Table, is_one_of}
use fiscal_mind_agent.Ties.Evidence.{
  DocumentFile, FilePair, file_matches_document, is_verified_legible_file,
}
use fiscal_mind_agent.Ties.Company.{TieDocument}
use fiscal_mind_agent.Ties.Pairs.{RefusedTie}
use fiscal_mind_agent.Ties.NewRows.{Tie}
use fiscal_mind_agent.Verification.Batch.{VerificationTarget}

abbrev pub tie_document : ClientDocument → TieDocument
tie_document d = record {
  id = d.id;
  name = d.name;
  type_key = d.type_key;
  paper_key = d.paper_key;
  is_pending = is_one_of (Table.pending ∷ []) d.status;
}

-- `fileById`: the last file of an id stands in the map.
abbrev pub file_by_id : List DocumentFile → String → Option DocumentFile
file_by_id [] id = none
file_by_id (f ∷ fs) id = first_some (file_by_id fs id) (if str_eq f.id id then some f else none)

-- A row that the split created, and the item it was cut from.
pub record SplitRow : Type 0 where
  pub document_id : String
  pub from_document_id : String

pub record Split : Type 0 where
  pub pairs : List FilePair
  pub split_pairs : List Tie
  pub renamed : List String
  pub created : List SplitRow

pub record CollectionOutcome : Type 0 where
  pub newly_collected : List String
  pub newly_claimed : List String
  pub proposed_pairs : List Tie
  pub refused_ties : List RefusedTie
  pub split_touched : List String

abbrev pub has_id : String → List String → Bool
has_id id ids = any (λ i. str_eq i id) ids

abbrev pub is_refused : List RefusedTie → String → Bool
is_refused refused id = any (λ (r : RefusedTie). str_eq r.document_id id) refused

-- The first pair of a document
abbrev pair_of : List Tie → String → Option Tie
pair_of pairs id = find (λ (m : Tie). str_eq m.document_id id) pairs

abbrev is_legible : Option DocumentFile → Bool
is_legible none = false
is_legible (some f) = is_verified_legible_file f

abbrev paired_file : List DocumentFile → Option Tie → Option DocumentFile
paired_file files none = none
paired_file files (some m) = file_by_id files m.file_id

-- The document has a file that the analyzer matched to it, or its pair has a verified legible file.
unfoldable pub is_earned : List DocumentFile → List Tie → String → Bool
unfolding file_matches_document is_verified_legible_file
is_earned files pairs id =
    any (λ f. file_matches_document f id) files || is_legible (paired_file files (pair_of pairs id))

pub record Decided : Type 0 where
  pub newly_collected : List String
  pub newly_claimed : List String

abbrev pub collect_id : String → Decided → Decided
collect_id id d = record d { newly_collected = id ∷ d.newly_collected }

abbrev pub claim_id : String → Decided → Decided
claim_id id d = record d { newly_claimed = id ∷ d.newly_claimed }

module _ (files : List DocumentFile) (pending_ids : List String) (pairs : List Tie)
    (refused : List RefusedTie) where
  -- The loop of `decideCollectOrClaim`
  unfoldable pub decide_each : List String → Decided
  unfolding is_earned
  decide_each [] = record { newly_collected = []; newly_claimed = [] }
  decide_each (id ∷ ids) =
      let rest = decide_each ids in
      if not (has_id id pending_ids)
      then rest
      else if is_earned files pairs id
      then collect_id id rest
      else if is_refused refused id
      then rest
      else claim_id id rest

  unfoldable pub decide_collect_or_claim : (after_verification : Bool) → List String → Decided
  unfolding decide_each
  decide_collect_or_claim after_verification proposed =
      if after_verification
      then record { newly_collected = []; newly_claimed = [] }
      else decide_each proposed

-- `pickVerificationTargets`: the newest file that the analyzer matched, or the pair of this cycle, which
-- comes first for an item that the split touched.
abbrev newest_match : List DocumentFile → String → Option String
newest_match [] id = none
newest_match (f ∷ fs) id =
    first_some (newest_match fs id) (if file_matches_document f id then some f.id else none)

abbrev pair_file_id : Option Tie → Option String
pair_file_id none = none
pair_file_id (some m) = some m.file_id

abbrev verification_file : List DocumentFile → CollectionOutcome → String → Option String
verification_file files o id =
    if has_id id o.split_touched
    then first_some (pair_file_id (pair_of o.proposed_pairs id)) (newest_match files id)
    else first_some (newest_match files id) (pair_file_id (pair_of o.proposed_pairs id))

abbrev target_for : String → Option String → List VerificationTarget
target_for id none = []
target_for id (some file_id) =
    if str_eq file_id "" then [] else record { document_id = id; file_id = file_id } ∷ []

abbrev targets_for : List DocumentFile → CollectionOutcome → List String → List VerificationTarget
targets_for files o [] = []
targets_for files o (id ∷ ids) =
    target_for id (verification_file files o id) ++ targets_for files o ids

unfoldable pub pick_verification_targets :
    List DocumentFile → CollectionOutcome → List VerificationTarget
unfolding file_matches_document
pick_verification_targets files o = targets_for files o o.newly_collected
