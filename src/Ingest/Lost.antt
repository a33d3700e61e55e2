-- ===== src/Ingest/Lost.antt =====
-- An INSERT that commits but whose answer is lost: what the retry makes of it.
use mathlib.Core.Path.{subst}
use fiscal_mind_agent.Prelude.{
  ℕ, ◌+◌, ◌-◌, true, ◌≡◌, inl, inr, refl, ◌∙◌, String, Option, none, some, max, arith,
}
use fiscal_mind_agent.Ingest.Retry.{
  rejected, AttemptsOptions, Outcome, gave, exhausted, with_attempts,
}
use fiscal_mind_agent.Ingest.Attempts.{
  IsLast, Fails-keeps, with_attempts-keeps, GoesOn, with_attempts-GoesOn,
}
use fiscal_mind_agent.Ingest.Store.{
  InboundFileItem, InboundFileContext, StoredFile, IngestError, insert_failed, Store, Answers,
  loses_answer, is_stored, insert_if_new, upload_blob, attempt_once, finish_ingest,
  ingest_inbound_file,
}
use fiscal_mind_agent.Ingest.Kept.{
  Keeps, Keeps-refl, FoundBy, attempts-Keeps, attempt_once-FoundBy, attempt_once-keeps,
  insert-stored, finish_ingest-files,
}

module _ (ctx : InboundFileContext) (item : InboundFileItem) where
  abbrev IsThere : Store → Type 0
  IsThere v = is_stored item.provider_attachment_id v.files ≡ true

  attempts-IsThere :
      (script : ℕ → Answers) (n : ℕ) (v : Store)
      → IsThere v
      → IsThere (attempt_once ctx item script n v).0
  attempts-IsThere script n v h =
      attempt_once-keeps ctx item IsThere script n v (λ body k. k)
        (λ body id k. insert-stored ctx item id v.files) h

  -- The state that the first attempt leaves.
  abbrev after_lost : Answers → String → Store → Store
  after_lost a body s = record (upload_blob ctx item body s) {
    files = (insert_if_new ctx item a.row_id s.files).0;
  }

  first_is_lost :
      (script : ℕ → Answers) (s : Store) (body : String)
      → (script 1).body ≡ some body
      → (script 1).uploads ≡ true
      → (script 1).insert ≡ loses_answer
      → attempt_once ctx item script 1 s ≡ (after_lost (script 1) body s, rejected insert_failed)
  unfolding attempt_once
  first_is_lost script s body given up lost = rw (given, up, lost) refl

  -- No attempt on a table that has the row answers a new one.
  abbrev IsNotNew : Outcome (Option StoredFile) IngestError → Type 0
  IsNotNew (gave (some f) n) = ⊥
  IsNotNew _ = Unit

  IsLast-IsNotNew :
      (script : ℕ → Answers) (b : ℕ) (s1 w : Store) (o : Outcome (Option StoredFile) IngestError)
      → IsThere s1
      → IsLast (attempt_once ctx item script) 2 b s1 w o
      → IsNotNew o
  IsLast-IsNotNew script b s1 w (exhausted n e) there h = tt
  IsLast-IsNotNew script b s1 w (gave none n) there h = tt
  IsLast-IsNotNew script b s1 w (gave (some f) n) there (le, v, p, last) =
      let (new, _, _) =
        subst (FoundBy ctx item v) last (attempt_once-FoundBy ctx item script n v) in
      let seen =
        Fails-keeps IsThere (attempt_once ctx item script) (attempts-IsThere script) 2 s1 there n v
          p in
      ground (arith, new, seen)

  IsLast-IsThere :
      (script : ℕ → Answers) (b : ℕ) (s1 w : Store) (o : Outcome (Option StoredFile) IngestError)
      → IsThere s1
      → IsLast (attempt_once ctx item script) 2 b s1 w o
      → IsThere w
  IsLast-IsThere script b s1 w (exhausted n e) there (le, v, p, last) =
      subst (λ r. IsThere r.0) last
        (attempts-IsThere script n v (
          Fails-keeps IsThere (attempt_once ctx item script) (attempts-IsThere script) 2 s1 there n
            v p))
  IsLast-IsThere script b s1 w (gave r n) there (le, v, p, last) =
      subst (λ x. IsThere x.0) last
        (attempts-IsThere script n v (
          Fails-keeps IsThere (attempt_once ctx item script) (attempts-IsThere script) 2 s1 there n
            v p))

  finish-IsNotNew :
      (w : Store) (o : Outcome (Option StoredFile) IngestError)
      → IsNotNew o
      → ((finish_ingest ctx item w o).1 ≡ none)
        × ((finish_ingest ctx item w o).0.analyzed ≡ w.analyzed)
  finish-IsNotNew w (exhausted n e) h = (refl, refl)
  finish-IsNotNew w (gave none n) h = (refl, refl)
  finish-IsNotNew w (gave (some f) n) h = absurd h

  GoesOn-IsNotNew :
      (script : ℕ → Answers) (b : ℕ) (s s1 w : Store) (o : Outcome (Option StoredFile) IngestError)
      (first : attempt_once ctx item script 1 s ≡ (s1, rejected insert_failed))
      → IsThere s1
      → GoesOn (attempt_once ctx item script) s s1 insert_failed first b w o
      → IsThere w × IsNotNew o
  GoesOn-IsNotNew script b s s1 w o first there (inl (same, over)) = (rw same there, rw over tt)
  GoesOn-IsNotNew script b s s1 w o first there (inr h) =
      (IsLast-IsThere script b s1 w o there h, IsLast-IsNotNew script b s1 w o there h)

  -- When the answer to the first INSERT is lost after it committed, then whatever the later attempts
  -- meet, the row is in the table, the call answers null, and it analyzes nothing: the later attempts
  -- take the row for one that was there before.
  pub ingest_inbound_file-unanalyzed :
      (opts : AttemptsOptions) (script : ℕ → Answers) (s : Store) (body : String)
      → (script 1).body ≡ some body
      → (script 1).uploads ≡ true
      → (script 1).insert ≡ loses_answer
      → let out = ingest_inbound_file ctx item opts script s in
        IsThere out.0 × (out.1 ≡ none) × (out.0.analyzed ≡ s.analyzed)
  unfolding ingest_inbound_file
  ingest_inbound_file-unanalyzed opts script s body given up lost =
      let fn = attempt_once ctx item script in
      let r = with_attempts fn opts s in
      let first = first_is_lost script s body given up lost in
      let s1 = after_lost (script 1) body s in
      let (there, old) =
        GoesOn-IsNotNew script (1 + (max 1 opts.attempts - 1)) s s1 r.world r.outcome first
          (insert-stored ctx item (script 1).row_id s.files)
          (with_attempts-GoesOn fn s s1 insert_failed first opts) in
      let (null, idle) = finish-IsNotNew r.world r.outcome old in
      let kept =
        with_attempts-keeps (Keeps ctx item s) fn (attempts-Keeps ctx item script s) opts s
          (Keeps-refl ctx item s) in
      (rw (finish_ingest-files ctx item r.world r.outcome) there, null, idle ∙ kept.0)
