-- ===== src/Verification/Check.antt =====
-- `verifyCollectedDocument` and its steps (src/agents/declarationOfCapital/verifyDocument.ts). What
-- others do to the table while the file is read is an argument, as is what the storage, the model and
-- the type's checks answer.
use fiscal_mind_agent.Prelude.{
  ℕ, suc, Bool, true, false, not, ◌||◌, String, Option, none, some, List, [], ◌∷◌, ◌++◌, leb,
  if◌then◌else◌,
}
use fiscal_mind_agent.Documents.Table.{ClientDocument, Table, collected, is_one_of}
use fiscal_mind_agent.Documents.Queries.{
  get_for_client, set_verification, mark_approved, revert_to_pending,
}
use fiscal_mind_agent.Ties.Evidence.{FileAnalysis, DocumentFile, is_quarantined}
use fiscal_mind_agent.Verification.Record.{
  VerificationRecord, RecordFormat, previous_attempts, is_stalled, Verdict,
}

pub data VerificationOutcome : Type 0 where
  approved reopened stalled skipped : VerificationOutcome

pub data CheckCall : Type 0 where
  adopt_spouse : String → CheckCall
  verify_step : (result : Bool) → CheckCall
  audit_verified publish : CheckCall
  audit_failed : (stalled suspected : Bool) → CheckCall
  problem_email : (name : String) → (reasons : List String) → CheckCall

pub record Checking : Type 0 where
  pub table : Table
  pub calls : List CheckCall

-- What the storage and the model answer for the file.
pub data Reading : Type 0 where
  download_failed not_rendered not_read : Reading
  answered : (attack : Bool) → Verdict → Reading

pub record CheckWorld : Type 0 where
  pub kill_switch_on : Bool
  pub now : ℕ
  pub meanwhile : Table → Table
  pub file : Option DocumentFile
  pub is_analyzable : Bool
  pub reading : Reading

abbrev pub call_all : List CheckCall → Checking → Checking
call_all cs s = record s { calls = s.calls ++ cs }

-- `MAX_FAILED_ATTEMPTS`
abbrev max_failed_attempts : ℕ
max_failed_attempts = 3

module _ (fmt : RecordFormat) (w : CheckWorld) (client : String) where
  -- `stall`
  abbrev pub stall : ClientDocument → VerificationRecord → Bool → Checking → Checking
  stall doc r suspected s =
      let t =
        (set_verification w.now doc.id client (fmt.encode (record r { stalled = true }))
          s.table).0 in
      call_all
        (audit_failed true suspected
          ∷ publish
          ∷ (if is_stalled fmt doc.verification then [] else problem_email doc.name r.reasons ∷ []))
        (record s { table = t })

  abbrev pub unavailable : ClientDocument → String → String → VerificationRecord
  unavailable doc file_id reason = record {
    passed = false;
    attempts = previous_attempts fmt doc.verification;
    file_id = file_id;
    unavailable = true;
    stalled = false;
    reasons = reason ∷ [];
  }

  abbrev pub finished :
      Option ClientDocument
      → VerificationOutcome
      → List CheckCall
      → Checking
      → VerificationOutcome × Checking
  finished none out cs s = (skipped, s)
  finished (some doc) out cs s = (out, call_all cs s)

  -- `approveDocument`
  abbrev pub approve_document : ClientDocument → String → Checking → VerificationOutcome × Checking
  approve_document doc file_id s =
      let (t, row) =
        mark_approved w.now doc.id client
          (fmt.encode (record {
            passed = true;
            attempts = previous_attempts fmt doc.verification;
            file_id = file_id;
            unavailable = false;
            stalled = false;
            reasons = [];
          }))
          s.table in
      finished row approved (audit_verified ∷ publish ∷ []) (record s { table = t })

  abbrev pub failed_record : ClientDocument → String → List String → VerificationRecord
  failed_record doc file_id reasons = record {
    passed = false;
    attempts = suc (previous_attempts fmt doc.verification);
    file_id = file_id;
    unavailable = false;
    stalled = false;
    reasons = reasons;
  }

  -- `reopenDocument`
  abbrev pub reopen_document :
      ClientDocument → VerificationRecord → Checking → VerificationOutcome × Checking
  reopen_document doc r s =
      let (t, row) = revert_to_pending w.now doc.id client (fmt.encode r) s.table in
      finished row reopened (audit_failed false false ∷ publish ∷ []) (record s { table = t })

  -- `applyVerdict`
  abbrev pub apply_verdict :
      ClientDocument → String → Verdict → Checking → VerificationOutcome × Checking
  apply_verdict doc file_id v s =
      if v.passed
      then approve_document doc file_id s
      else if leb max_failed_attempts (suc (previous_attempts fmt doc.verification))
      then (stalled, stall doc (failed_record doc file_id v.reasons) false s)
      else reopen_document doc (failed_record doc file_id v.reasons) s

  abbrev adoption : Option String → List CheckCall
  adoption none = []
  adoption (some id) = adopt_spouse id ∷ publish ∷ []

  -- The calls of `checkExtractedData`
  abbrev pub check_calls : Verdict → List CheckCall
  check_calls v = adoption v.adopt_spouse ++ verify_step v.passed ∷ []

  -- `extractDocumentData`, `stallOnAttackText` and `checkExtractedData`
  abbrev pub read_document :
      Reading → ClientDocument → String → Checking → VerificationOutcome × Checking
  read_document download_failed doc file_id s = (skipped, s)
  read_document not_rendered doc file_id s =
      (skipped, stall doc (unavailable doc file_id "unreadable") false s)
  read_document not_read doc file_id s = (skipped, s)
  read_document (answered attack v) doc file_id s =
      if attack
      then (stalled, stall doc (unavailable doc file_id "attack text") true s)
      else apply_verdict doc file_id v (call_all (check_calls v) s)

  abbrev pub is_suspected : Option FileAnalysis → Bool
  is_suspected none = false
  is_suspected (some a) = a.injection_suspected

  -- `loadCheckableFile`
  abbrev pub check_file :
      Option DocumentFile → ClientDocument → String → Checking → VerificationOutcome × Checking
  check_file none doc file_id s =
      (stalled, stall doc (unavailable doc file_id "missing file") false s)
  check_file (some f) doc file_id s =
      if is_quarantined f
      then (
        stalled,
        stall doc (unavailable doc file_id "quarantined file") (is_suspected f.analysis) s,
      )
      else if not w.is_analyzable
      then (stalled, stall doc (unavailable doc file_id "unsupported file") false s)
      else read_document w.reading doc file_id s

  -- `loadCollectedDocument`
  abbrev pub check_loaded :
      Option ClientDocument → String → Checking → VerificationOutcome × Checking
  check_loaded none file_id s = (skipped, s)
  check_loaded (some doc) file_id s =
      if not (is_one_of (collected ∷ []) doc.status) || is_stalled fmt doc.verification
      then (skipped, s)
      else check_file w.file doc file_id (record s { table = w.meanwhile s.table })

  -- `verifyCollectedDocument`
  unfoldable pub verify_collected_document :
      String → String → Checking → VerificationOutcome × Checking
  unfolding get_for_client set_verification mark_approved revert_to_pending is_quarantined
  verify_collected_document document_id file_id s =
      if w.kill_switch_on
      then (skipped, s)
      else check_loaded (get_for_client document_id client s.table) file_id s
