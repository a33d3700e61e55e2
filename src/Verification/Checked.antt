-- ===== src/Verification/Checked.antt =====
-- A whole check (`verifyCollectedDocument` of src/agents/declarationOfCapital/verifyDocument.ts).
use mathlib.Core.Path.{subst}
use fiscal_mind_agent.Prelude.{
  Bool, true, false, not, ◌||◌, ◌≡◌, refl, sym, String, Option, some, [], ◌∷◌, arith, if-cases,
}
use fiscal_mind_agent.Documents.Table.{ClientDocument, collected, is_one_of}
use fiscal_mind_agent.Documents.Queries.{get_for_client}
use fiscal_mind_agent.Documents.Rows.{rows}
use fiscal_mind_agent.Ties.Evidence.{DocumentFile, is_quarantined}
use fiscal_mind_agent.Verification.Record.{RecordFormat, is_stalled}
use fiscal_mind_agent.Verification.Check.{
  VerificationOutcome, skipped, Checking, Reading, not_rendered, CheckWorld, read_document,
  check_file, check_loaded, verify_collected_document, unavailable,
}
use fiscal_mind_agent.Verification.Outcomes.{
  IsCheckable, IsHandedOver, IsChecked, stall-IsHandedOver, check_file-IsChecked,
}

settled : (a b : Bool) → (not a || b) ≡ true → a ≡ true → b ≡ false → ⊥
settled a b h k l = ground arith

not_both : (b : Bool) → b ≡ true → b ≡ false → ⊥
not_both b h k = cc (h, k)

-- When a collected row that is not stalled is checked and the switch is off, the outcome says what
-- became of the row: approved only if a sound file was read without attack text, its checks passed and
-- the row was still collected; reopened only if they failed for the first or second time, with the
-- count and the row pending; stalled with the status kept, the row handed over and a mail sent; skipped
-- with the row as others left it, or handed over because its file could not be rendered.
pub verify_collected_document-IsChecked :
    (fmt : RecordFormat) (w : CheckWorld) (client id file_id : String) (doc r : ClientDocument)
    (s : Checking)
    → w.kill_switch_on ≡ false
    → get_for_client id client s.table ≡ some doc
    → is_one_of (collected ∷ []) doc.status ≡ true
    → is_stalled fmt doc.verification ≡ false
    → rows doc.id client (w.meanwhile s.table) ≡ r ∷ []
    → IsChecked fmt w client doc r file_id
        (verify_collected_document fmt w client id file_id s).0
        (verify_collected_document fmt w client id file_id s).1
unfolding verify_collected_document
verify_collected_document-IsChecked fmt w client id file_id doc r s off loaded held fresh one =
    if-cases {A = VerificationOutcome × Checking}
      (λ x. IsChecked fmt w client doc r file_id x.0 x.1) w.kill_switch_on
      (λ on. absurd (not_both w.kill_switch_on on off))
      (λ _.
        subst
          (λ (o : Option ClientDocument).
            IsChecked fmt w client doc r file_id (check_loaded fmt w client o file_id s).0
              (check_loaded fmt w client o file_id s).1)
          (sym loaded)
          (if-cases {A = VerificationOutcome × Checking}
            (λ x. IsChecked fmt w client doc r file_id x.0 x.1)
            (not (is_one_of (collected ∷ []) doc.status) || is_stalled fmt doc.verification)
            (λ bad. absurd (
              settled (is_one_of (collected ∷ []) doc.status) (is_stalled fmt doc.verification) bad
                held fresh))
            (λ _.
              check_file-IsChecked fmt w client doc r file_id w.file
                (record s { table = w.meanwhile s.table }) refl fresh one)))

-- A file that code cannot render hands the row over to the accountant, with a mail, and yet the outcome
-- that the planner is given is 'skipped', as for a row whose check has not run.
pub verify_collected_document-skips_unrendered :
    (fmt : RecordFormat) (w : CheckWorld) (client id file_id : String) (doc r : ClientDocument)
    (s : Checking)
    → w.kill_switch_on ≡ false
    → get_for_client id client s.table ≡ some doc
    → is_one_of (collected ∷ []) doc.status ≡ true
    → is_stalled fmt doc.verification ≡ false
    → rows doc.id client (w.meanwhile s.table) ≡ r ∷ []
    → IsCheckable w
    → w.reading ≡ not_rendered
    → ((verify_collected_document fmt w client id file_id s).0 ≡ skipped)
      × IsHandedOver fmt w client doc r file_id
          (verify_collected_document fmt w client id file_id s).1
unfolding verify_collected_document
verify_collected_document-skips_unrendered fmt w client id file_id doc r s off loaded held fresh one
      (f, file, clean, fits) answer =
    if-cases {A = Left} Skips w.kill_switch_on (λ on. absurd (not_both w.kill_switch_on on off))
      (λ _.
        subst (λ (o : Option ClientDocument). Skips (check_loaded fmt w client o file_id s))
          (sym loaded)
          (if-cases {A = Left} Skips
            (not (is_one_of (collected ∷ []) doc.status) || is_stalled fmt doc.verification)
            (λ bad. absurd (settled _ _ bad held fresh))
            (λ _.
              subst (λ (o : Option DocumentFile). Skips (check_file fmt w client o doc file_id s'))
                (sym file)
                (if-cases {A = Left} Skips (is_quarantined f)
                  (λ bad. absurd (not_both (is_quarantined f) bad clean))
                  (λ _.
                    if-cases {A = Left} Skips (not w.is_analyzable)
                      (λ bad. absurd (not_both w.is_analyzable fits (ground arith)))
                      (λ _.
                        subst (λ (g : Reading). Skips (read_document fmt w client g doc file_id s'))
                          (sym answer)
                          (
                            refl,
                            stall-IsHandedOver fmt w client doc r file_id
                                (unavailable fmt w client doc file_id "unreadable") false s'
                                (omega arith) fresh one,
                          )))))))
  where
    Left : Type 0
    Left = VerificationOutcome × Checking

    Skips : VerificationOutcome × Checking → Type 0
    Skips x = (x.0 ≡ skipped) × IsHandedOver fmt w client doc r file_id x.1

    s' : Checking
    s' = record s { table = w.meanwhile s.table }
