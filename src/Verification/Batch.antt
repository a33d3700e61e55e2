-- ===== src/Verification/Batch.antt =====
-- `runVerificationBatch` (src/agents/declarationOfCapital/verifyBatchRules.ts), and the verdict over the
-- checks (`verdictOf` of src/agents/declarationOfCapital/verifyChecks.ts).
use fiscal_mind_agent.Prelude.{
  Bool, true, ◌≡◌, ◌↔◌, inl, inr, refl, ap, String, Option, none, List, [], ◌∷◌, ◌++◌, length, map,
  All, str_eq, eq_iff, ◌==◌, if◌then◌else◌, Bool-cases, arith,
}
use fiscal_mind_agent.Verification.Record.{
  CheckOutcome, passes, fails, skips, CheckResult, add_reason, reasons_of, verdict_of,
}
use fiscal_mind_agent.Verification.Check.{VerificationOutcome}

pub record VerificationTarget : Type 0 where
  pub document_id : String
  pub file_id : String

-- `none` is the outcome 'error'.
pub record VerificationResult : Type 0 where
  pub target : VerificationTarget
  pub outcome : Option VerificationOutcome

module _ {S : Type 0}
    -- `beforeEach` and `verifyOne`, over a state; `none` is a throw, after which the state is what it left
    (before_each : VerificationTarget → S → S × Bool)
    (verify_one : VerificationTarget → S → S × Option VerificationOutcome) where
  abbrev try_one : VerificationTarget → S → S × Option VerificationOutcome
  try_one t s = let (s', ready) = before_each t s in if ready then verify_one t s' else (s', none)

  unfoldable pub run_verification_batch : List VerificationTarget → S → S × List VerificationResult
  run_verification_batch [] s = (s, [])
  run_verification_batch (t ∷ ts) s =
      let (s', outcome) = try_one t s in
      let (s'', results) = run_verification_batch ts s' in
      (s'', record { target = t; outcome = outcome } ∷ results)

  -- The state in which a target is reached, when those before it have run.
  abbrev pub after : List VerificationTarget → S → S
  after [] s = s
  after (t ∷ ts) s = after ts (try_one t s).0

  batch-append :
      (ts us : List VerificationTarget) (s : S)
      → (run_verification_batch (ts ++ us) s).1
        ≡ (run_verification_batch ts s).1 ++ (run_verification_batch us (after ts s)).1
  unfolding run_verification_batch
  batch-append [] us s = refl
  batch-append (t ∷ ts) us s =
      ap (λ rs. record { target = t; outcome = (try_one t s).1 } ∷ rs)
        (batch-append ts us (try_one t s).0)

  batch-targets :
      (ts : List VerificationTarget) (s : S)
      → map (λ (r : VerificationResult). r.target) (run_verification_batch ts s).1 ≡ ts
  unfolding run_verification_batch
  batch-targets [] s = refl
  batch-targets (t ∷ ts) s = ap (λ l. t ∷ l) (batch-targets ts (try_one t s).0)

  -- Each target of a batch has one result, in the order of the targets. It is the outcome of the
  -- target's own verification in the state that the earlier ones left, whether or not they threw.
  pub run_verification_batch-each :
      (ts : List VerificationTarget) (t : VerificationTarget) (us : List VerificationTarget) (s : S)
      → (map (λ (r : VerificationResult). r.target) (run_verification_batch (ts ++ t ∷ us) s).1
          ≡ ts ++ t ∷ us)
        × ((run_verification_batch (ts ++ t ∷ us) s).1
            ≡ (run_verification_batch ts s).1
              ++ record { target = t; outcome = (try_one t (after ts s)).1 }
                ∷ (run_verification_batch us (try_one t (after ts s)).0).1)
  unfolding run_verification_batch
  run_verification_batch-each ts t us s =
      (batch-targets (ts ++ t ∷ us) s, batch-append ts (t ∷ us) s)

-- The check takes no part in the verdict, or did not fail.
abbrev pub Met : CheckOutcome → String → Type 0
Met passes key = Unit
Met skips key = Unit
Met (fails reason) key = key ≡ "client_id_on_file"

verdict_cases :
    (o : CheckOutcome) (key : String) (rest : List String)
    → ((length (add_reason o key rest) == 0) ≡ true) ↔ (Met o key × ((length rest == 0) ≡ true))
verdict_cases passes key rest = (λ h. (tt, h), λ h. h.1)
verdict_cases skips key rest = (λ h. (tt, h), λ h. h.1)
verdict_cases (fails reason) key rest = elim (Bool-cases (str_eq key "client_id_on_file")) [
  | inl free ↦ rw free (λ h. ((eq_iff key "client_id_on_file").0 free, h), λ h. h.1)
  | inr enforced ↦ rw enforced (
    λ h. absurd (ground (arith, h)),
    λ h. absurd (cc (enforced, (eq_iff key "client_id_on_file").1 h.0)),
  )
]

-- The verdict passes exactly when no check fails but client_id_on_file, which is never enforced; a
-- skipped check does not count.
pub verdict_of_iff :
    (checks : List CheckResult) (adopt : Option String)
    → ((verdict_of checks adopt).passed ≡ true)
      ↔ All (λ (c : CheckResult). Met c.outcome c.key) checks
unfolding verdict_of
verdict_of_iff [] adopt = (λ h. tt, λ h. refl)
verdict_of_iff (c ∷ cs) adopt = (
  λ h.
      let parts = (verdict_cases c.outcome c.key (reasons_of cs)).0 h in
      (parts.0, (verdict_of_iff cs adopt).0 parts.1),
  λ h. (verdict_cases c.outcome c.key (reasons_of cs)).1 (h.0, (verdict_of_iff cs adopt).1 h.1),
)
