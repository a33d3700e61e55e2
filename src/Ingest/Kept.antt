-- ===== src/Ingest/Kept.antt =====
-- What an ingested file leaves behind: a row and its analysis, a row that was there, or a failure on
-- the client's trail.
use fiscal_mind_agent.Prelude.{
  ℕ, true, false, ◌||◌, ◌≡◌, ◌⊎◌, inl, inr, refl, ◌∙◌, ap, String, Option, none, some, List, [],
  ◌∷◌, ◌++◌, map, any, str_eq, eq_refl, Bool-cases, if-cases, if◌then◌else◌, arith,
}
use fiscal_mind_agent.Prelude.Distinct.{Distinct, Distinct-append}
use fiscal_mind_agent.Ingest.Retry.{
  Try, resolved, rejected, AttemptsOptions, Outcome, gave, exhausted, with_attempts,
}
use fiscal_mind_agent.Ingest.Attempts.{with_attempts-keeps}
use fiscal_mind_agent.Ingest.Store.{
  InboundFileItem, InboundFileContext, StoredFile, IngestError, Store, Answers, InsertFate, answers,
  refuses, loses_answer, is_stored, new_file, insert_if_new, upload_blob, insert_row, store_body,
  attempt_once, finish_ingest, ingest_inbound_file,
}

-- The attachment ids of the table.
abbrev pub attachments : List StoredFile → List String
attachments files = map (λ f. f.provider_attachment_id) files

is_stored-any :
    (a : String) (files : List StoredFile) → any (str_eq a) (attachments files) ≡ is_stored a files
is_stored-any a [] = refl
is_stored-any a (f ∷ files) =
    ap (λ b. str_eq a f.provider_attachment_id || b) (is_stored-any a files)

attachments-append :
    (files : List StoredFile) (f : StoredFile)
    → attachments (files ++ f ∷ []) ≡ attachments files ++ f.provider_attachment_id ∷ []
attachments-append [] f = refl
attachments-append (g ∷ files) f =
    ap (λ l. g.provider_attachment_id ∷ l) (attachments-append files f)

pub is_stored-append :
    (a : String) (files : List StoredFile) (f : StoredFile)
    → is_stored a (files ++ f ∷ []) ≡ (is_stored a files || str_eq a f.provider_attachment_id)
is_stored-append a [] f = ground arith
is_stored-append a (g ∷ files) f = ground (arith, is_stored-append a files f)

module _ (ctx : InboundFileContext) (item : InboundFileItem) where
  abbrev IsUnique : Store → Type 0
  IsUnique s = Distinct (attachments s.files)

  insert_if_new-Distinct :
      (id : String) (files : List StoredFile)
      → Distinct (attachments files)
      → Distinct (attachments (insert_if_new ctx item id files).0)
  insert_if_new-Distinct id files h =
      elim (Bool-cases (is_stored item.provider_attachment_id files)) [
        | inl old ↦ rw (old, if◌then◌else◌) h
        | inr new ↦
            rw (new, if◌then◌else◌)
              (rw (attachments-append files (new_file ctx item id)) (
                Distinct-append (attachments files) item.provider_attachment_id h
                  (is_stored-any item.provider_attachment_id files ∙ new)))
      ]

  -- A property of the state that neither an upload nor the insert of a row breaks is kept by an attempt.
  pub attempt_once-keeps :
      (P : Store → Type 0) (script : ℕ → Answers) (n : ℕ) (s : Store)
      → ((body : String) → P s → P (upload_blob ctx item body s))
      → ((body id : String)
          → P s
          → P (record (upload_blob ctx item body s) {
            files = (insert_if_new ctx item id s.files).0;
          }))
      → P s
      → P (attempt_once ctx item script n s).0
  unfolding attempt_once
  attempt_once-keeps P script n s up ins h = go (script n) (script n).body
    where
      go : (a : Answers) (body : Option String) → P (store_body ctx item a body s).0
      go a none = h
      go a (some body) =
          if-cases {A = Store × Try (Option StoredFile) IngestError} (λ x. P x.0) a.uploads
            (λ _. row a.insert) (λ _. h)
        where
          row :
              (fate : InsertFate)
              → P (insert_row ctx item fate a.row_id (upload_blob ctx item body s)).0
          row refuses = up body h
          row loses_answer = ins body a.row_id h
          row answers = ins body a.row_id h

  pub finish_ingest-files :
      (w : Store) (o : Outcome (Option StoredFile) IngestError)
      → (finish_ingest ctx item w o).0.files ≡ w.files
  finish_ingest-files w (exhausted n e) = refl
  finish_ingest-files w (gave none n) = refl
  finish_ingest-files w (gave (some f) n) = refl

  -- Each attachment of a provider has at most one row, however often and however badly its file is
  -- ingested.
  pub ingest_inbound_file-Distinct :
      (opts : AttemptsOptions) (script : ℕ → Answers) (s : Store)
      → Distinct (attachments s.files)
      → Distinct (attachments (ingest_inbound_file ctx item opts script s).0.files)
  unfolding ingest_inbound_file
  ingest_inbound_file-Distinct opts script s h =
      let r = with_attempts (attempt_once ctx item script) opts s in
      rw (finish_ingest-files r.world r.outcome) (
        with_attempts-keeps IsUnique (attempt_once ctx item script)
          (λ n v k.
            attempt_once-keeps IsUnique script n v (λ body p. p)
              (λ body id p. insert_if_new-Distinct id v.files p) k)
          opts s h)

  -- What the attempts keep of the state that the call began with.
  abbrev pub Keeps : Store → Store → Type 0
  Keeps s w =
      (w.analyzed ≡ s.analyzed)
      × (w.failures ≡ s.failures)
      × ((is_stored item.provider_attachment_id s.files ≡ false)
          ⊎ (is_stored item.provider_attachment_id w.files ≡ true))

  pub Keeps-refl : (s : Store) → Keeps s s
  Keeps-refl s = elim (Bool-cases (is_stored item.provider_attachment_id s.files)) [
    | inl old ↦ (refl, refl, inr old)
    | inr new ↦ (refl, refl, inl new)
  ]

  pub insert-stored :
      (id : String) (files : List StoredFile)
      → is_stored item.provider_attachment_id (insert_if_new ctx item id files).0 ≡ true
  insert-stored id files = elim (Bool-cases (is_stored item.provider_attachment_id files)) [
    | inl old ↦ rw (old, if◌then◌else◌) old
    | inr new ↦
        rw (new, if◌then◌else◌)
          (ground (
            arith,
            is_stored-append item.provider_attachment_id files (new_file ctx item id),
            eq_refl item.provider_attachment_id,
          ))
  ]

  pub attempts-Keeps :
      (script : ℕ → Answers) (s : Store) (n : ℕ) (v : Store)
      → Keeps s v
      → Keeps s (attempt_once ctx item script n v).0
  attempts-Keeps script s n v h =
      attempt_once-keeps (Keeps s) script n v (λ body k. k)
        (λ body id k. (k.0, k.1, inr (insert-stored id v.files))) h

  -- What an attempt that resolves found and did.
  abbrev Found : Store → Store → Option StoredFile → Type 0
  Found v w none = is_stored item.provider_attachment_id w.files ≡ true
  Found v w (some f) =
      (is_stored item.provider_attachment_id v.files ≡ false)
      × (w.files ≡ v.files ++ f ∷ [])
      × (f.provider_attachment_id ≡ item.provider_attachment_id)

  abbrev pub FoundBy : Store → Store × Try (Option StoredFile) IngestError → Type 0
  FoundBy v (w, resolved r) = Found v w r
  FoundBy v (w, rejected e) = Unit

  pub attempt_once-FoundBy :
      (script : ℕ → Answers) (n : ℕ) (v : Store) → FoundBy v (attempt_once ctx item script n v)
  unfolding attempt_once
  attempt_once-FoundBy script n v = go (script n) (script n).body
    where
      go : (a : Answers) (body : Option String) → FoundBy v (store_body ctx item a body v)
      go a none = tt
      go a (some body) = if-cases (FoundBy v) a.uploads (λ _. row a.insert) (λ _. tt)
        where
          row :
              (fate : InsertFate)
              → FoundBy v (insert_row ctx item fate a.row_id (upload_blob ctx item body v))
          row refuses = tt
          row loses_answer = tt
          row answers = elim (Bool-cases (is_stored item.provider_attachment_id v.files)) [
            | inl old ↦ rw (old, if◌then◌else◌) old
            | inr new ↦ rw (new, if◌then◌else◌) (new, refl, refl)
          ]
