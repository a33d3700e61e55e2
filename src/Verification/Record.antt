-- ===== src/Verification/Record.antt =====
-- The record that a check leaves in `client_documents.verification`
-- (src/agents/declarationOfCapital/verifyDocument.ts), and the verdict over the checks of a type
-- (`verdictOf` of src/agents/declarationOfCapital/verifyChecks.ts).
use fiscal_mind_agent.Prelude.{
  ℕ, Bool, false, ◌≡◌, String, Option, none, some, List, [], ◌∷◌, length, str_eq, ◌==◌,
  if◌then◌else◌,
}

-- `undefined` on `stalled` and `unavailable` is false.
pub record VerificationRecord : Type 0 where
  pub passed : Bool
  pub attempts : ℕ
  pub file_id : String
  pub unavailable : Bool
  pub stalled : Bool
  pub reasons : List String

-- The column is JSON: what is read back of a record that was written is what it had.
pub record RecordFormat : Type 0 where
  pub encode : VerificationRecord → String
  pub attempts_of : String → ℕ
  pub stalled_of : String → Bool
  pub attempts_back : (r : VerificationRecord) → attempts_of (encode r) ≡ r.attempts
  pub stalled_back : (r : VerificationRecord) → stalled_of (encode r) ≡ r.stalled

-- `previousAttempts`
abbrev pub previous_attempts : RecordFormat → Option String → ℕ
previous_attempts fmt none = 0
previous_attempts fmt (some v) = fmt.attempts_of v

-- `doc.verification?.['stalled'] === true`
abbrev pub is_stalled : RecordFormat → Option String → Bool
is_stalled fmt none = false
is_stalled fmt (some v) = fmt.stalled_of v

-- One check of the list: passed, failed with its reason, or skipped.
pub data CheckOutcome : Type 0 where
  passes : CheckOutcome
  fails : (reason : String) → CheckOutcome
  skips : CheckOutcome

pub record CheckResult : Type 0 where
  pub key : String
  pub outcome : CheckOutcome

pub record Verdict : Type 0 where
  pub passed : Bool
  pub reasons : List String
  -- the id of the spouse that the document taught
  pub adopt_spouse : Option String

-- A failed check adds its reason, but for client_id_on_file, which is never enforced.
abbrev pub add_reason : CheckOutcome → String → List String → List String
add_reason passes key rest = rest
add_reason skips key rest = rest
add_reason (fails reason) key rest = if str_eq key "client_id_on_file" then rest else reason ∷ rest

abbrev pub reasons_of : List CheckResult → List String
reasons_of [] = []
reasons_of (c ∷ cs) = add_reason c.outcome c.key (reasons_of cs)

-- `verdictOf`
unfoldable pub verdict_of : List CheckResult → Option String → Verdict
verdict_of checks adopt = record {
  passed = length (reasons_of checks) == 0;
  reasons = reasons_of checks;
  adopt_spouse = adopt;
}
