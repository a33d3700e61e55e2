-- ===== src/Verification/Outcomes.antt =====
-- What a check leaves of the row, by its outcome (`verifyCollectedDocument` of
-- src/agents/declarationOfCapital/verifyDocument.ts).
use mathlib.Core.Path.{subst}
use fiscal_mind_agent.Prelude.{
  ℕ, suc, ◌≤◌, ◌<◌, Bool, true, false, not, ◌≡◌, refl, sym, String, Option, none, some, List, [],
  ◌∷◌, ◌++◌, leb, if◌then◌else◌, Bool-cases, ◌⊎◌, inl, inr, arith, if-cases,
}
use fiscal_mind_agent.Documents.Table.{
  ClientDocument, DocumentStatus, pending, Table, collected, is_one_of, is_row,
}
use fiscal_mind_agent.Documents.Table
use fiscal_mind_agent.Documents.Queries.{mark_approved, revert_to_pending}
use fiscal_mind_agent.Documents.Rows.{rows, update_one-IsUpdated, set_verification-IsUpdated}
use fiscal_mind_agent.Ties.Evidence.{DocumentFile, is_quarantined}
use fiscal_mind_agent.Verification.Record.{
  VerificationRecord, RecordFormat, previous_attempts, is_stalled, Verdict,
}
use fiscal_mind_agent.Verification.Check.{
  VerificationOutcome, approved, reopened, stalled, skipped, CheckCall, audit_failed, publish,
  problem_email, Checking, Reading, download_failed, not_rendered, not_read, answered, CheckWorld,
  call_all, stall, failed_record, approve_document, reopen_document, apply_verdict, check_calls,
  read_document, is_suspected, check_file, unavailable, finished,
}

-- The file can be checked: it is there, not quarantined, and of a type and size that are supported.
abbrev pub IsCheckable : CheckWorld → Type 0
IsCheckable w =
    (f : DocumentFile) × (w.file ≡ some f) × (is_quarantined f ≡ false) × (w.is_analyzable ≡ true)

-- `doc` is the row as it was loaded, `r` the row when the first write comes.
module _ (fmt : RecordFormat) (w : CheckWorld) (client : String) (doc r : ClientDocument)
    (file_id : String) where
  -- The row when the verdict comes is collected, and leaves that status with the record.
  abbrev Moves : DocumentStatus → Bool → ℕ → Table → Type 0
  Moves status passed attempts t =
      (is_one_of (collected ∷ []) r.status ≡ true)
      × (v : VerificationRecord) × (v.passed ≡ passed)
      × (v.attempts ≡ attempts)
      × (v.stalled ≡ false)
      × (v.file_id ≡ file_id)
      × (rows doc.id client t
          ≡ record r { status = status; verification = some (fmt.encode v); updated_at = w.now }
            ∷ [])

  -- The row keeps its status, and its record says that the accountant takes over; the accountant gets
  -- a mail about it.
  abbrev pub IsHandedOver : Checking → Type 0
  IsHandedOver s =
      (v : String) × (rows doc.id client s.table
        ≡ record r { verification = some v; updated_at = w.now } ∷ [])
      × (fmt.stalled_of v ≡ true)
      × (previous_attempts fmt doc.verification ≤ fmt.attempts_of v)
      × (before : List CheckCall) × (suspected : Bool) × (reasons : List String) × (s.calls
          ≡ before ++ audit_failed true suspected ∷ publish ∷ problem_email doc.name reasons ∷ [])

  abbrev IsRead : Bool → Verdict → Type 0
  IsRead attack v = IsCheckable w × (w.reading ≡ answered attack v)

  abbrev pub IsChecked : VerificationOutcome → Checking → Type 0
  IsChecked approved s =
      (v : Verdict) × IsRead false v
      × (v.passed ≡ true)
      × Moves Table.approved true (previous_attempts fmt doc.verification) s.table
  IsChecked reopened s =
      (v : Verdict) × IsRead false v
      × (v.passed ≡ false)
      × (suc (previous_attempts fmt doc.verification) < 3)
      × Moves pending false (suc (previous_attempts fmt doc.verification)) s.table
  IsChecked stalled s = IsHandedOver s
  IsChecked skipped s =
      (rows doc.id client s.table ≡ r ∷ []) ⊎ (IsHandedOver s × (w.reading ≡ not_rendered))

  pub stall-IsHandedOver :
      (v : VerificationRecord) (suspected : Bool) (s : Checking)
      → previous_attempts fmt doc.verification ≤ v.attempts
      → is_stalled fmt doc.verification ≡ false
      → rows doc.id client s.table ≡ r ∷ []
      → IsHandedOver (stall fmt w client doc v suspected s)
  stall-IsHandedOver v suspected s counted fresh one = (
    fmt.encode (record v { stalled = true }),
    (set_verification-IsUpdated w.now doc.id client (fmt.encode (record v { stalled = true }))
        s.table r one).0,
    fmt.stalled_back (record v { stalled = true }),
    subst (λ n. previous_attempts fmt doc.verification ≤ n)
        (sym (fmt.attempts_back (record v { stalled = true }))) counted,
    s.calls,
    suspected,
    v.reasons,
    rw fresh refl,
  )

  -- A guarded write: the outcome where it hits the row, else the row as it was.
  finished-IsChecked :
      (out : VerificationOutcome) (cs : List CheckCall) (s : Checking) (x : ClientDocument)
      (b : Bool) (o : Option ClientDocument) (t : Table)
      → rows doc.id client t ≡ (if b then x else r) ∷ []
      → o ≡ (if b then some x else none)
      → (b ≡ true
          → rows doc.id client t ≡ x ∷ []
          → IsChecked out (call_all cs (record s { table = t })))
      → IsChecked
          (finished fmt w client o out cs (record s { table = t })).0
          (finished fmt w client o out cs (record s { table = t })).1
  finished-IsChecked out cs s x true o t there answer hit =
      subst
        (λ (a : Option ClientDocument).
          IsChecked (finished fmt w client a out cs (record s { table = t })).0
            (finished fmt w client a out cs (record s { table = t })).1)
        (sym answer) (hit refl there)
  finished-IsChecked out cs s x false o t there answer hit =
      subst
        (λ (a : Option ClientDocument).
          IsChecked (finished fmt w client a out cs (record s { table = t })).0
            (finished fmt w client a out cs (record s { table = t })).1)
        (sym answer) (inl there)

  approve_document-IsChecked :
      (v : Verdict) (s : Checking)
      → IsRead false v
      → v.passed ≡ true
      → rows doc.id client s.table ≡ r ∷ []
      → IsChecked
          (approve_document fmt w client doc file_id s).0
          (approve_document fmt w client doc file_id s).1
  unfolding mark_approved
  approve_document-IsChecked v s seen passes one =
      let rec : VerificationRecord = record {
        passed = true;
        attempts = previous_attempts fmt doc.verification;
        file_id = file_id;
        unavailable = false;
        stalled = false;
        reasons = [];
      } in
      let u =
        update_one-IsUpdated doc.id client
          (λ x. record x {
            status = Table.approved;
            verification = some (fmt.encode rec);
            updated_at = w.now;
          })
          (λ x. refl) s.table r one (collected ∷ []) in
      finished-IsChecked approved _ s _ (is_one_of (collected ∷ []) r.status) _ _ u.0 u.1
        (λ open_row there. (v, seen, passes, (open_row, rec, refl, refl, refl, refl, there)))

  reopen_document-IsChecked :
      (v : Verdict) (s : Checking)
      → IsRead false v
      → v.passed ≡ false
      → suc (previous_attempts fmt doc.verification) < 3
      → rows doc.id client s.table ≡ r ∷ []
      → IsChecked
          (reopen_document fmt w client doc (failed_record fmt w client doc file_id v.reasons) s).0
          (reopen_document fmt w client doc (failed_record fmt w client doc file_id v.reasons) s).1
  unfolding revert_to_pending
  reopen_document-IsChecked v s seen fails few one =
      let rec = failed_record fmt w client doc file_id v.reasons in
      let u =
        update_one-IsUpdated doc.id client
          (λ x. record x {
            status = pending;
            verification = some (fmt.encode rec);
            updated_at = w.now;
          })
          (λ x. refl) s.table r one (collected ∷ []) in
      finished-IsChecked reopened _ s _ (is_one_of (collected ∷ []) r.status) _ _ u.0 u.1
        (λ open_row there. (v, seen, fails, few, (open_row, rec, refl, refl, refl, refl, there)))

  apply_verdict-IsChecked :
      (v : Verdict) (s : Checking)
      → IsRead false v
      → is_stalled fmt doc.verification ≡ false
      → rows doc.id client s.table ≡ r ∷ []
      → IsChecked
          (apply_verdict fmt w client doc file_id v s).0
          (apply_verdict fmt w client doc file_id v s).1
  apply_verdict-IsChecked v s seen fresh one = elim (Bool-cases v.passed) [
    | inl passes ↦ rw passes (approve_document-IsChecked v s seen passes one)
    | inr fails ↦ elim (Bool-cases (leb 3 (suc (previous_attempts fmt doc.verification)))) [
      | inl third ↦
          rw (fails, third)
            (stall-IsHandedOver (failed_record fmt w client doc file_id v.reasons) false s
              (omega arith) fresh one)
      | inr few ↦ rw (fails, few) (reopen_document-IsChecked v s seen fails (below _ few) one)
    ]
  ]
    where
      below : (n : ℕ) → leb 3 n ≡ false → n < 3
      below n h = ground arith

  read_document-IsChecked :
      (reading : Reading) (s : Checking)
      → IsCheckable w
      → w.reading ≡ reading
      → is_stalled fmt doc.verification ≡ false
      → rows doc.id client s.table ≡ r ∷ []
      → IsChecked
          (read_document fmt w client reading doc file_id s).0
          (read_document fmt w client reading doc file_id s).1
  read_document-IsChecked download_failed s ready answer fresh one = inl one
  read_document-IsChecked not_read s ready answer fresh one = inl one
  read_document-IsChecked not_rendered s ready answer fresh one = inr (
    stall-IsHandedOver (unavailable fmt w client doc file_id "unreadable") false s (omega arith)
        fresh one,
    answer,
  )
  read_document-IsChecked (answered true v) s ready answer fresh one =
      stall-IsHandedOver (unavailable fmt w client doc file_id "attack text") true s (omega arith)
        fresh one
  read_document-IsChecked (answered false v) s ready answer fresh one =
      apply_verdict-IsChecked v (call_all (check_calls fmt w client v) s) (ready, answer) fresh one

  pub check_file-IsChecked :
      (o : Option DocumentFile) (s : Checking)
      → w.file ≡ o
      → is_stalled fmt doc.verification ≡ false
      → rows doc.id client s.table ≡ r ∷ []
      → IsChecked
          (check_file fmt w client o doc file_id s).0
          (check_file fmt w client o doc file_id s).1
  check_file-IsChecked none s held fresh one =
      stall-IsHandedOver (unavailable fmt w client doc file_id "missing file") false s (omega arith)
        fresh one
  check_file-IsChecked (some f) s held fresh one =
      if-cases {A = VerificationOutcome × Checking} (λ x. IsChecked x.0 x.1) (is_quarantined f)
        (λ bad.
          stall-IsHandedOver (unavailable fmt w client doc file_id "quarantined file")
            (is_suspected fmt w client f.analysis) s (omega arith) fresh one)
        (λ clean.
          if-cases {A = VerificationOutcome × Checking} (λ x. IsChecked x.0 x.1)
            (not w.is_analyzable)
            (λ unfit.
              stall-IsHandedOver (unavailable fmt w client doc file_id "unsupported file") false s
                (omega arith) fresh one)
            (λ fits.
              read_document-IsChecked w.reading s (f, held, clean, ground arith) refl fresh one))
