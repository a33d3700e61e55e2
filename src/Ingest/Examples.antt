-- ===== src/Ingest/Examples.antt =====
-- The ingestion of one file: a provider that fails once, and a database whose answer is lost.
use fiscal_mind_agent.Prelude.{
  ℕ, ◌<◌, true, ◌≡◌, refl, none, some, [], ◌∷◌, length, ◌==◌, if◌then◌else◌,
}
use fiscal_mind_agent.Prelude.Distinct.{Distinct}
use fiscal_mind_agent.Ingest.Retry.{ingest_attempts, with_attempts}
use fiscal_mind_agent.Ingest.Attempts.{IsLast, with_attempts-IsLast}
use fiscal_mind_agent.Ingest.Store.{
  InboundFileItem, InboundFileContext, Store, Answers, answers, loses_answer, attempt_once,
  is_stored, ingest_inbound_file,
}
use fiscal_mind_agent.Ingest.Kept.{attachments, ingest_inbound_file-Distinct}
use fiscal_mind_agent.Ingest.Lost.{ingest_inbound_file-unanalyzed}
use fiscal_mind_agent.Ingest.Accounted.{IsAccounted, ingest_inbound_file-IsAccounted}

abbrev message : InboundFileContext
message = record { client_id = "c1"; email_id = some "m1" }

abbrev photo : InboundFileItem
photo = record {
  provider_attachment_id = "a1";
  index = 0;
  content_type = "image/jpeg";
  filename = "1.jpg";
  file_name_hint = none;
}

abbrev empty : Store
empty = record { blobs = []; files = []; analyzed = []; failures = [] }

-- The first download fails, the second attempt succeeds.
abbrev flaky : ℕ → Answers
flaky n = record {
  body = if n == 1 then none else some "bytes";
  uploads = true;
  insert = answers;
  row_id = "f1";
}

-- The answer to the first INSERT is lost after it committed.
abbrev lost_answer : ℕ → Answers
lost_answer n = record {
  body = some "bytes";
  uploads = true;
  insert = if n == 1 then loses_answer else answers;
  row_id = "f1";
}

stored_on_retry :
    ((ingest_inbound_file message photo ingest_attempts flaky empty).0.analyzed ≡ "f1" ∷ [])
    × ((with_attempts (attempt_once message photo flaky) ingest_attempts empty).pauses ≡ 2000 ∷ [])
unfolding ingest_inbound_file with_attempts attempt_once
stored_on_retry = (refl, refl)

with_attempts-IsLast_example :
    IsLast
      (attempt_once message photo flaky)
      1
      3
      empty
      (with_attempts (attempt_once message photo flaky) ingest_attempts empty).world
      (with_attempts (attempt_once message photo flaky) ingest_attempts empty).outcome
    × (length (with_attempts (attempt_once message photo flaky) ingest_attempts empty).pauses < 3)
with_attempts-IsLast_example =
    with_attempts-IsLast (attempt_once message photo flaky) ingest_attempts empty

ingest_inbound_file-Distinct_example :
    Distinct (attachments (ingest_inbound_file message photo ingest_attempts flaky empty).0.files)
ingest_inbound_file-Distinct_example =
    ingest_inbound_file-Distinct message photo ingest_attempts flaky empty tt

ingest_inbound_file-IsAccounted_example :
    IsAccounted message photo ingest_attempts empty
      (ingest_inbound_file message photo ingest_attempts flaky empty)
ingest_inbound_file-IsAccounted_example =
    ingest_inbound_file-IsAccounted message photo ingest_attempts flaky empty

ingest_inbound_file-unanalyzed_example :
    let out = ingest_inbound_file message photo ingest_attempts lost_answer empty in
    (is_stored "a1" out.0.files ≡ true) × (out.1 ≡ none) × (out.0.analyzed ≡ [])
ingest_inbound_file-unanalyzed_example =
    ingest_inbound_file-unanalyzed message photo ingest_attempts lost_answer empty "bytes" refl refl
      refl
