-- ===== src/Ingest/Accounted.antt =====
-- What a call of `ingestInboundFileWith` (src/webhook/ingestInboundFileCore.ts) answers and leaves
-- behind.
use mathlib.Core.Path.{subst}
use fiscal_mind_agent.Prelude.{
  ℕ, true, false, ◌≡◌, ◌⊎◌, inl, inr, refl, ap, Option, none, some, List, [], ◌∷◌, ◌++◌, max,
  eq_refl, arith,
}
use fiscal_mind_agent.Ingest.Retry.{AttemptsOptions, Outcome, gave, exhausted, with_attempts}
use fiscal_mind_agent.Ingest.Attempts.{
  IsLast, with_attempts-IsLast, Fails-keeps, with_attempts-keeps,
}
use fiscal_mind_agent.Ingest.Store.{
  InboundFileItem, InboundFileContext, StoredFile, IngestError, Store, Answers, is_stored,
  attempt_once, finish_ingest, ingest_inbound_file,
}
use fiscal_mind_agent.Ingest.Kept.{
  Keeps, Keeps-refl, FoundBy, attempts-Keeps, attempt_once-FoundBy, is_stored-append,
}

module _ (ctx : InboundFileContext) (item : InboundFileItem) where
  abbrev pub IsAccounted : AttemptsOptions → Store → Store × Option StoredFile → Type 0
  IsAccounted opts s (s', some f) =
      (f.provider_attachment_id ≡ item.provider_attachment_id)
      × (is_stored item.provider_attachment_id s.files ≡ false)
      × (is_stored item.provider_attachment_id s'.files ≡ true)
      × (s'.analyzed ≡ s.analyzed ++ f.id ∷ [])
      × (s'.failures ≡ s.failures)
  IsAccounted opts s (s', none) =
      (s'.analyzed ≡ s.analyzed)
      × (((is_stored item.provider_attachment_id s'.files ≡ true) × (s'.failures ≡ s.failures))
          ⊎ ((e : IngestError) × (s'.failures
                ≡ s.failures
                  ++ record {
                    provider_attachment_id = item.provider_attachment_id;
                    email_id = ctx.email_id;
                    attempts = max 1 opts.attempts;
                    error = e;
                  }
                    ∷ [])))

  stored_last :
      (files : List StoredFile) (f : StoredFile)
      → f.provider_attachment_id ≡ item.provider_attachment_id
      → is_stored item.provider_attachment_id (files ++ f ∷ []) ≡ true
  stored_last files f same =
      rw (is_stored-append item.provider_attachment_id files f, same)
        (ground (arith, eq_refl item.provider_attachment_id))

  last-IsAccounted :
      (opts : AttemptsOptions) (script : ℕ → Answers) (s w : Store)
      (o : Outcome (Option StoredFile) IngestError)
      → IsLast (attempt_once ctx item script) 1 (max 1 opts.attempts) s w o
      → Keeps ctx item s w
      → IsAccounted opts s (finish_ingest ctx item w o)
  last-IsAccounted opts script s w (exhausted n e) (final, b, p, last) k =
      (k.0, inr (e, rw (k.1, final) refl))
  last-IsAccounted opts script s w (gave none n) (le, b, p, last) k =
      (k.0, inl (subst (FoundBy ctx item b) last (attempt_once-FoundBy ctx item script n b), k.1))
  last-IsAccounted opts script s w (gave (some f) n) (le, b, p, last) k =
      let (new, grown, same) =
        subst (FoundBy ctx item b) last (attempt_once-FoundBy ctx item script n b) in
      let (_, _, seen) =
        Fails-keeps (Keeps ctx item s) (attempt_once ctx item script)
          (attempts-Keeps ctx item script s) 1 s (Keeps-refl ctx item s) n b p in
      (
        same,
        ground (arith, seen, new),
        rw grown (stored_last b.files f same),
        ap (λ l. l ++ f.id ∷ []) k.0,
        k.1,
      )

  -- A call either answers a new row, which is in the table, was not there before, and is analyzed once,
  -- with no failure on the trail; or it answers null and has analyzed nothing, and then the attachment
  -- has a row in the table or exactly one failure, with all attempts spent, is on the client's trail.
  pub ingest_inbound_file-IsAccounted :
      (opts : AttemptsOptions) (script : ℕ → Answers) (s : Store)
      → IsAccounted opts s (ingest_inbound_file ctx item opts script s)
  unfolding ingest_inbound_file
  ingest_inbound_file-IsAccounted opts script s =
      let r = with_attempts (attempt_once ctx item script) opts s in
      last-IsAccounted opts script s r.world r.outcome
        (with_attempts-IsLast (attempt_once ctx item script) opts s).0
        (with_attempts-keeps (Keeps ctx item s) (attempt_once ctx item script)
          (attempts-Keeps ctx item script s) opts s (Keeps-refl ctx item s))
