-- ===== src/Cycle/Collect.antt =====
-- The collect step of a cycle (`collectFiles`, `decideCollectOrClaim`, `markCollected`, `markClaimed`,
-- `linkFilesToDocuments` and `pickVerificationTargets` of src/agents/declarationOfCapital/plan.ts).
-- What companies a text names and the split of an item by company are parameters.
use fiscal_mind_agent.Prelude.{
  Bool, false, not, ◌&&◌, String, Option, none, some, is_some, List, [], ◌∷◌, ◌++◌, length, map,
  keep, ◌==◌, if◌then◌else◌,
}
use fiscal_mind_agent.Documents.Table
use fiscal_mind_agent.Documents.Table.{ClientDocument, Table, is_one_of}
use fiscal_mind_agent.Documents.Queries.{mark_collected, mark_claimed}
use fiscal_mind_agent.Decision.Answer.{MatchedFile, Changes}
use fiscal_mind_agent.Decision.Lists.{distinct}
use fiscal_mind_agent.Ties.Evidence.{DocumentFile, FilePair, applicable_file_pairs, is_quarantined}
use fiscal_mind_agent.Ties.Pairs.{Filtered, filter_pairs_by_company}
use fiscal_mind_agent.Ties.NewRows.{
  NewRowFiles, Tie, Assignment, nothing_assigned, assign_files_to_new_rows,
}
use fiscal_mind_agent.Cycle.Run.{
  documents_collected, documents_claimed, link_to_document, planner_step, PlanRun, call, CycleWorld,
}
use fiscal_mind_agent.Cycle.Decide.{
  tie_document, file_by_id, SplitRow, Split, CollectionOutcome, has_id, decide_collect_or_claim,
}

module _ (identify : Option String → Option String) (institution_bound : Option String → Bool)
    (split_items_by_company : List FilePair → PlanRun → PlanRun × Split) (w : CycleWorld) where
  abbrev pub collected_rows : List String → PlanRun → PlanRun
  collected_rows [] s = s
  collected_rows (id ∷ ids) s =
      call (documents_collected (id ∷ ids) ∷ [])
        (record s { table = mark_collected w.now w.client_id (id ∷ ids) s.table })

  abbrev pub claimed_rows : List String → PlanRun → PlanRun
  claimed_rows [] s = s
  claimed_rows (id ∷ ids) s =
      call (documents_claimed (id ∷ ids) ∷ [])
        (record s { table = mark_claimed w.now w.client_id (id ∷ ids) s.table })

  abbrev may_link : Option DocumentFile → Bool
  may_link none = false
  may_link (some f) = not (is_quarantined f)

  -- `linkFilesToDocuments`
  abbrev pub link_files_to_documents : List Tie → PlanRun → PlanRun
  link_files_to_documents [] s = s
  link_files_to_documents (m ∷ ms) s = link_files_to_documents ms (
      if may_link (file_by_id w.files m.file_id)
      then call (link_to_document m.file_id m.document_id ∷ []) s
      else s)

  abbrev pub file_pair : MatchedFile → FilePair
  file_pair m = record {
    file_id = m.file_id;
    document_id = m.document_id;
    has_evidence = is_some m.evidence;
  }

  abbrev pub plain : FilePair → Tie
  plain p = record { file_id = p.file_id; document_id = p.document_id }

  abbrev pub whole : List FilePair → Split
  whole pairs = record { pairs = pairs; split_pairs = []; renamed = []; created = [] }

  abbrev ids_of : Table → List String
  ids_of t = map (λ (d : ClientDocument). d.id) t

  -- The pairs that pass the checks of `applicableFilePairs` and `filterPairsByCompany`.
  unfoldable pub company_checked : List MatchedFile → Table → Filtered
  unfolding applicable_file_pairs filter_pairs_by_company
  company_checked matched documents =
      filter_pairs_by_company identify institution_bound (file_by_id w.files)
        (applicable_file_pairs (file_by_id w.files) (λ id. has_id id (ids_of documents))
          (map file_pair matched))
        (map tie_document documents)

  abbrev new_row_files : List (ClientDocument × List String) → List NewRowFiles
  new_row_files rows =
      map {B = NewRowFiles} (λ r. record { row = tie_document r.0; file_ids = r.1 }) rows

  -- `recordApplyCollectionsStep`
  abbrev pub record_collections : CollectionOutcome → PlanRun → PlanRun
  record_collections o s =
      if length o.newly_collected == 0
        && length o.newly_claimed == 0
        && length o.proposed_pairs == 0
        && length o.refused_ties == 0
      then s
      else call (planner_step "apply_collections" ∷ []) s

  -- The writes, the links and the step row of an outcome.
  abbrev pub apply_outcome : CollectionOutcome → PlanRun → PlanRun
  apply_outcome o s = record_collections o (
      link_files_to_documents o.proposed_pairs
        (claimed_rows o.newly_claimed (collected_rows o.newly_collected s)))

  -- No split, and no files for new rows, in the cycle after a verification.
  abbrev pub split_allowed : (after_verification : Bool) → List FilePair → PlanRun → PlanRun × Split
  split_allowed after pairs s = if after then (s, whole pairs) else split_items_by_company pairs s

  unfoldable pub assigned_files :
      (after_verification : Bool) → List (ClientDocument × List String) → Assignment
  unfolding assign_files_to_new_rows
  assigned_files after rows =
      if after
      then nothing_assigned
      else assign_files_to_new_rows identify institution_bound (file_by_id w.files)
          (new_row_files rows)

  abbrev pending_ids_of : Table → Split → List String
  pending_ids_of documents split =
      ids_of (keep (λ d. is_one_of (Table.pending ∷ []) d.status) documents)
      ++ map (λ (r : SplitRow). r.document_id) split.created

  -- What is proposed: by the model, by the files that a new row took, and a row that the split created
  -- when its item was.
  abbrev proposed_of : List String → List Tie → Split → List String
  proposed_of collected_ids new_pairs split = distinct (
      collected_ids
      ++ map (λ (p : Tie). p.document_id) new_pairs
      ++ map (λ (r : SplitRow). r.document_id)
          (keep (λ r. has_id r.from_document_id collected_ids) split.created))

  abbrev pub outcome_of :
      (after_verification : Bool)
      → Changes
      → (documents : Table) → Filtered
      → Split
      → Assignment
      → CollectionOutcome
  outcome_of after c documents checked split assigned =
      let pairs = map plain split.pairs ++ split.split_pairs ++ assigned.pairs in
      let refused = checked.refused ++ assigned.refused in
      let decided =
        decide_collect_or_claim w.files (pending_ids_of documents split) pairs refused after
          (proposed_of c.collected_document_ids assigned.pairs split) in
      record {
        newly_collected = decided.newly_collected;
        newly_claimed = decided.newly_claimed;
        proposed_pairs = pairs;
        refused_ties = refused;
        split_touched = split.renamed ++ map (λ (r : SplitRow). r.document_id) split.created;
      }

  abbrev pub collected_with :
      (after_verification : Bool)
      → Changes
      → Table
      → Filtered
      → PlanRun × Split
      → Assignment
      → PlanRun × CollectionOutcome
  collected_with after c documents checked (s, split) assigned =
      let o = outcome_of after c documents checked split assigned in (apply_outcome o s, o)

  -- `collectFiles`
  unfoldable pub collect_files :
      (after_verification : Bool) → Changes → PlanRun → PlanRun × CollectionOutcome
  unfolding company_checked assigned_files decide_collect_or_claim mark_collected mark_claimed
      is_quarantined
  collect_files after c s =
      let checked = company_checked c.matched_files s.documents in
      collected_with after c s.documents checked (split_allowed after checked.allowed s)
        (assigned_files after s.changes.created_with_files)
