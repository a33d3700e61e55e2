-- ===== src/Verification/Examples.antt =====
-- Checks of a concrete document, and their theorems.
use Prim.Native.Char.{code}
use fiscal_mind_agent.Prelude.{
  ℕ, zero, suc, ◌≤◌, ◌≡◌, ◌↔◌, refl, ap, Bool, true, false, String, Option, none, some, List, [],
  ◌∷◌, All, ◌==◌, if◌then◌else◌,
}
use fiscal_mind_agent.Documents.Table.{ClientDocument, collected, update_where}
use fiscal_mind_agent.Documents.Queries.{get_for_client, update_one, is_listed}
use fiscal_mind_agent.Ties.Evidence.{DocumentFile, done, is_quarantined}
use fiscal_mind_agent.Verification.Record.{
  VerificationRecord, RecordFormat, CheckResult, passes, fails, skips, Verdict, verdict_of,
}
use fiscal_mind_agent.Verification.Check.{
  VerificationOutcome, approved, reopened, stalled, skipped, Checking, Reading, not_rendered,
  answered, CheckWorld, verify_collected_document,
}
use fiscal_mind_agent.Verification.Outcomes.{IsHandedOver, IsChecked}
use fiscal_mind_agent.Verification.Checked.{
  verify_collected_document-IsChecked, verify_collected_document-skips_unrendered,
}
use fiscal_mind_agent.Verification.Rounds.{Round, reopenings, reopenings-le}
use fiscal_mind_agent.Verification.Batch.{VerificationTarget, Met, verdict_of_iff}

-- A format of records: whether it is stalled, then a mark for each attempt.
unfoldable pub tally : ℕ → String
tally zero = ""
tally (suc n) = String.◌∷◌ "x" (tally n)

unfoldable pub marks : String → ℕ
marks String.[] = 0
marks (String.◌∷◌ c s) = suc (marks s)

unfoldable pub attempts_of : String → ℕ
unfolding marks
attempts_of String.[] = 0
attempts_of (String.◌∷◌ c s) = marks s

unfoldable pub stalled_of : String → Bool
stalled_of String.[] = false
stalled_of (String.◌∷◌ c s) = code c == b's'

unfoldable pub encode : VerificationRecord → String
unfolding tally
encode r = String.◌∷◌ (if r.stalled then "s" else "u") (tally r.attempts)

pub marks-tally : (n : ℕ) → marks (tally n) ≡ n
unfolding marks tally
marks-tally zero = refl
marks-tally (suc n) = ap suc (marks-tally n)

pub stalled_back : (r : VerificationRecord) → stalled_of (encode r) ≡ r.stalled
unfolding stalled_of encode
stalled_back r = by_flag r.stalled
  where
    by_flag : (b : Bool) → (code (if b then "s" else "u") == b's') ≡ b
    by_flag true = refl
    by_flag false = refl

abbrev pub format : RecordFormat
unfolding attempts_of stalled_of encode
format = record {
  encode = encode;
  attempts_of = attempts_of;
  stalled_of = stalled_of;
  attempts_back = λ r. marks-tally r.attempts;
  stalled_back = stalled_back;
}

abbrev pub row : ClientDocument
row = record {
  id = "d1";
  client_id = "c1";
  name = "bank report";
  description = none;
  status = collected;
  type_key = some "bank_balance";
  paper_key = none;
  verification = none;
  resolution_evidence = none;
  created_at = 1;
  updated_at = 1;
}

abbrev pub file : DocumentFile
file = record {
  id = "f1";
  client_document_id = some "d1";
  analysis_status = done;
  analysis = some (record {
    issuer_name = none;
    matched_document_id = some "d1";
    legible = true;
    injection_suspected = false;
    document_type = none;
    document_paper = none;
  });
}

abbrev pub world : Reading → CheckWorld
world reading = record {
  kill_switch_on = false;
  now = 5;
  meanwhile = λ t. t;
  file = some file;
  is_analyzable = true;
  reading = reading;
}

abbrev start : Checking
start = record { table = row ∷ []; calls = [] }

abbrev wrong : Verdict
wrong = record { passed = false; reasons = "wrong year" ∷ []; adopt_spouse = none }

abbrev pub right : Verdict
right = record { passed = true; reasons = []; adopt_spouse = none }

outcomes :
    ((verify_collected_document format (world (answered false right)) "c1" "d1" "f1" start).0
      ≡ approved)
    × ((verify_collected_document format (world (answered false wrong)) "c1" "d1" "f1" start).0
        ≡ reopened)
    × ((verify_collected_document format (world (answered true right)) "c1" "d1" "f1" start).0
        ≡ stalled)
unfolding verify_collected_document update_one update_where attempts_of stalled_of encode marks
    tally
outcomes = (refl, refl, refl)

abbrev four_wrong : List Round
four_wrong =
    (world (answered false wrong), "f1")
    ∷ (world (answered false wrong), "f2")
    ∷ (world (answered false wrong), "f3")
    ∷ (world (answered false wrong), "f4")
    ∷ []

twice : reopenings format "c1" "d1" four_wrong start ≡ 2
unfolding reopenings is_listed update_one update_where attempts_of stalled_of encode marks tally
twice = refl

verify_collected_document-IsChecked_example :
    IsChecked format
      (world (answered false right))
      "c1"
      row
      row
      "f1"
      (verify_collected_document format (world (answered false right)) "c1" "d1" "f1" start).0
      (verify_collected_document format (world (answered false right)) "c1" "d1" "f1" start).1
unfolding get_for_client
verify_collected_document-IsChecked_example =
    verify_collected_document-IsChecked format (world (answered false right)) "c1" "d1" "f1" row row
      start refl refl refl refl refl

verify_collected_document-skips_unrendered_example :
    ((verify_collected_document format (world not_rendered) "c1" "d1" "f1" start).0 ≡ skipped)
    × IsHandedOver format
        (world not_rendered)
        "c1"
        row
        row
        "f1"
        (verify_collected_document format (world not_rendered) "c1" "d1" "f1" start).1
unfolding get_for_client is_quarantined
verify_collected_document-skips_unrendered_example =
    verify_collected_document-skips_unrendered format (world not_rendered) "c1" "d1" "f1" row row
      start refl refl refl refl refl (file, refl, refl, refl) refl

reopenings-le_example : reopenings format "c1" "d1" four_wrong start ≤ 2
reopenings-le_example =
    reopenings-le format "c1" "d1" four_wrong start row
      (λ t. refl, (λ t. refl, (λ t. refl, (λ t. refl, tt)))) refl

abbrev targets : List VerificationTarget
targets = record { document_id = "d1"; file_id = "f1" } ∷ []

abbrev second : VerificationTarget
second = record { document_id = "d2"; file_id = "f2" }

abbrev never_throws : VerificationTarget → ℕ → ℕ × Bool
never_throws t n = (n, true)

-- The first verification throws, the second does not.
abbrev counted : VerificationTarget → ℕ → ℕ × Option VerificationOutcome
counted t n = (suc n, if n == 0 then none else some approved)

abbrev checks : List CheckResult
checks =
    record { key = "legible"; outcome = passes }
    ∷ record { key = "period"; outcome = skips }
    ∷ record { key = "client_id_on_file"; outcome = fails "no id" }
    ∷ []

verdict_of_iff_example :
    ((verdict_of checks none).passed ≡ true) ↔ All (λ (c : CheckResult). Met c.outcome c.key) checks
verdict_of_iff_example = verdict_of_iff checks none
