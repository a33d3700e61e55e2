-- ===== src/Ingest/Store.antt =====
-- `ingestInboundFileWith` of src/webhook/ingestInboundFileCore.ts, on the blobs, the document_files
-- table and the trail of one client. What the provider, the blob storage and the database answer in
-- each attempt is an argument; hashes and sizes are functions of the bytes and left out.
use fiscal_mind_agent.Prelude.{
  ℕ, Bool, String, Option, none, some, List, [], ◌∷◌, ◌++◌, any, str_eq, if◌then◌else◌,
}
use fiscal_mind_agent.Ingest.Retry.{
  Try, resolved, rejected, AttemptsOptions, Outcome, gave, exhausted, with_attempts,
}

pub record InboundFileItem : Type 0 where
  pub provider_attachment_id : String
  pub index : ℕ
  pub content_type : String
  pub filename : String
  pub file_name_hint : Option String

pub record StoredFile : Type 0 where
  pub id : String
  pub provider_attachment_id : String
  pub client_id : String
  pub email_id : Option String
  pub filename : String
  pub content_type : String

pub data IngestError : Type 0 where
  download_failed upload_failed insert_failed : IngestError

-- The `file.ingest_failed` step of the trail.
pub record IngestFailure : Type 0 where
  pub provider_attachment_id : String
  pub email_id : Option String
  pub attempts : ℕ
  pub error : IngestError

-- A blob under `clients/<client>/<attachment>/<filename>`, by the parts of its key.
pub record Blob : Type 0 where
  pub client_id : String
  pub attachment_id : String
  pub filename : String
  pub body : String

pub record Store : Type 0 where
  pub blobs : List Blob
  pub files : List StoredFile
  pub analyzed : List String
  pub failures : List IngestFailure

-- How the INSERT of an attempt ends: it commits and answers, it fails, or it commits and the answer is
-- lost on the way. A row that it inserts gets the id.
pub data InsertFate : Type 0 where
  answers refuses loses_answer : InsertFate

pub record Answers : Type 0 where
  pub body : Option String
  pub uploads : Bool
  pub insert : InsertFate
  pub row_id : String

pub record InboundFileContext : Type 0 where
  pub client_id : String
  pub email_id : Option String

abbrev pub is_stored : String → List StoredFile → Bool
is_stored attachment files = any (λ f. str_eq attachment f.provider_attachment_id) files

module _ (ctx : InboundFileContext) (item : InboundFileItem) where
  -- `insertIfNew`: ON CONFLICT (provider_attachment_id) DO NOTHING
  abbrev pub new_file : String → StoredFile
  new_file id = record {
    id = id;
    provider_attachment_id = item.provider_attachment_id;
    client_id = ctx.client_id;
    email_id = ctx.email_id;
    filename = item.filename;
    content_type = item.content_type;
  }

  abbrev pub insert_if_new : String → List StoredFile → List StoredFile × Option StoredFile
  insert_if_new id files =
      if is_stored item.provider_attachment_id files
      then (files, none)
      else (files ++ new_file id ∷ [], some (new_file id))

  abbrev pub upload_blob : String → Store → Store
  upload_blob body s = record s {
    blobs =
        record {
          client_id = ctx.client_id;
          attachment_id = item.provider_attachment_id;
          filename = item.filename;
          body = body;
        }
        ∷ s.blobs;
  }

  abbrev pub insert_row : InsertFate → String → Store → Store × Try (Option StoredFile) IngestError
  insert_row refuses id s = (s, rejected insert_failed)
  insert_row loses_answer id s =
      (record s { files = (insert_if_new id s.files).0 }, rejected insert_failed)
  insert_row answers id s =
      (record s { files = (insert_if_new id s.files).0 }, resolved (insert_if_new id s.files).1)

  abbrev pub store_body :
      Answers → Option String → Store → Store × Try (Option StoredFile) IngestError
  store_body answer none s = (s, rejected download_failed)
  store_body answer (some body) s =
      if answer.uploads
      then insert_row answer.insert answer.row_id (upload_blob body s)
      else (s, rejected upload_failed)

  -- One attempt: download, upload, insert.
  unfoldable pub attempt_once :
      (ℕ → Answers) → ℕ → Store → Store × Try (Option StoredFile) IngestError
  attempt_once script n s = store_body (script n) (script n).body s

  abbrev record_failure : ℕ → IngestError → Store → Store
  record_failure attempts error s = record s {
    failures =
        s.failures
        ++ record {
          provider_attachment_id = item.provider_attachment_id;
          email_id = ctx.email_id;
          attempts = attempts;
          error = error;
        }
          ∷ [];
  }

  -- The analysis is called once for a row that this call inserted; its own failure is only logged.
  abbrev pub finish_ingest :
      Store → Outcome (Option StoredFile) IngestError → Store × Option StoredFile
  finish_ingest s (exhausted attempts cause) = (record_failure attempts cause s, none)
  finish_ingest s (gave none attempts) = (s, none)
  finish_ingest s (gave (some f) attempts) =
      (record s { analyzed = s.analyzed ++ f.id ∷ [] }, some f)

  unfoldable pub ingest_inbound_file :
      AttemptsOptions → (ℕ → Answers) → Store → Store × Option StoredFile
  unfolding attempt_once with_attempts
  ingest_inbound_file opts script s =
      let r = with_attempts (attempt_once script) opts s in finish_ingest r.world r.outcome
