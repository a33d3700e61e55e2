-- ===== src/Verification/Rounds.antt =====
-- A document that is collected and checked again and again (`verifyCollectedDocument` of
-- src/agents/declarationOfCapital/verifyDocument.ts with `markCollected` of
-- src/db/queries/clientDocuments.ts).
use mathlib.Core.Path.{subst}
use fiscal_mind_agent.Prelude.{
  ℕ, ◌+◌, ◌≤◌, Bool, true, false, not, ◌||◌, ◌≡◌, ◌⊎◌, inl, inr, refl, sym, ap, ◌∙◌, String, Option,
  some, List, [], ◌∷◌, first, All, eq_iff, Bool-cases, if-cases, and-left, arith,
}
use fiscal_mind_agent.Documents.Table
use fiscal_mind_agent.Documents.Table.{
  DocumentStatus, ClientDocument, Table, pending, claimed, collected, is_one_of, is_row,
}
use fiscal_mind_agent.Documents.Queries.{get_for_client, mark_collected}
use fiscal_mind_agent.Documents.Rows.{rows, keep-head, mark_collected-rows}
use fiscal_mind_agent.Verification.Record.{RecordFormat, previous_attempts, is_stalled}
use fiscal_mind_agent.Verification.Check.{
  VerificationOutcome, approved, reopened, stalled, skipped, Checking, CheckWorld, check_loaded,
  check_file, verify_collected_document,
}
use fiscal_mind_agent.Verification.Outcomes.{IsChecked, check_file-IsChecked}

abbrev is_reopened : VerificationOutcome → ℕ
is_reopened reopened = 1
is_reopened _ = 0

-- A round: what the world answers, and the file that the row is checked against.
abbrev pub Round : Type 0
Round = CheckWorld × String

module _ (fmt : RecordFormat) (client id : String) where
  -- How often the row goes back to the client over the rounds; the row is collected before each.
  unfoldable pub reopenings : List Round → Checking → ℕ
  unfolding mark_collected verify_collected_document
  reopenings [] s = 0
  reopenings ((w, file_id) ∷ rounds) s =
      let collected_now = record s { table = mark_collected w.now client (id ∷ []) s.table } in
      let (out, s') = verify_collected_document fmt w client id file_id collected_now in
      is_reopened out + reopenings rounds s'

  -- Nobody else touches the row while its file is read.
  abbrev pub IsQuiet : Round → Type 0
  IsQuiet (w, file_id) = (t : Table) → rows id client (w.meanwhile t) ≡ rows id client t

  -- A check leaves one row; its count has grown if it was reopened, and is then at most two.
  abbrev Counts : ClientDocument → VerificationOutcome × Checking → Type 0
  Counts r x =
      (r' : ClientDocument) × (rows id client x.1.table ≡ r' ∷ [])
      × (previous_attempts fmt r.verification + is_reopened x.0
          ≤ previous_attempts fmt r'.verification)
      × ((is_reopened x.0 ≡ 0) ⊎ (previous_attempts fmt r'.verification ≤ 2))

  count_rounds :
      (w : CheckWorld) (r : ClientDocument) (out : VerificationOutcome) (s : Checking)
      → r.id ≡ id
      → (status : DocumentStatus) (v : String)
      → rows r.id client s.table
        ≡ record r { status = status; verification = some v; updated_at = w.now } ∷ []
      → previous_attempts fmt r.verification + is_reopened out ≤ fmt.attempts_of v
      → (is_reopened out ≡ 0) ⊎ (fmt.attempts_of v ≤ 2)
      → Counts r (out, s)
  count_rounds w r out s e status v there grown few =
      let row : ClientDocument = record r {
        status = status;
        verification = some v;
        updated_at = w.now;
      } in
      (row, subst (λ i. rows i client s.table ≡ row ∷ []) e there, grown, few)

  checked-Counts :
      (w : CheckWorld) (r : ClientDocument) (file_id : String) (out : VerificationOutcome)
      (s : Checking)
      → r.id ≡ id
      → IsChecked fmt w client r r file_id out s
      → Counts r (out, s)
  checked-Counts w r file_id approved s e (v, seen, passes, (held, rec, p, n, st, f, there)) =
      count_rounds w r approved s e Table.approved (fmt.encode rec) there
        (omega (arith, fmt.attempts_back rec)) (inl refl)
  checked-Counts w r file_id reopened s e (v, seen, fails, few, (held, rec, p, n, st, f, there)) =
      count_rounds w r reopened s e pending (fmt.encode rec) there
        (omega (arith, fmt.attempts_back rec)) (inr (omega (arith, fmt.attempts_back rec)))
  checked-Counts w r file_id stalled s e (v, there, st, counted, before, sus, reasons, calls) =
      count_rounds w r stalled s e r.status v there (omega arith) (inl refl)
  checked-Counts w r file_id skipped s e (inl there) =
      (r, subst (λ i. rows i client s.table ≡ r ∷ []) e there, omega arith, inl refl)
  checked-Counts w r file_id skipped s e
        (inr ((v, there, st, counted, before, sus, reasons, calls), answer)) =
      count_rounds w r skipped s e r.status v there (omega arith) (inl refl)

  same_id : (t : Table) (r : ClientDocument) → rows id client t ≡ r ∷ [] → r.id ≡ id
  same_id t r one = (eq_iff r.id id).0 (and-left _ _ (keep-head (is_row id client) t r one))

  unchanged-Counts :
      (r : ClientDocument) (s : Checking) → rows id client s.table ≡ r ∷ [] → Counts r (skipped, s)
  unchanged-Counts r s one = (r, one, omega arith, inl refl)

  verify-Counts :
      (w : CheckWorld) (file_id : String) (r : ClientDocument) (s : Checking)
      → IsQuiet (w, file_id)
      → rows id client s.table ≡ r ∷ []
      → Counts r (verify_collected_document fmt w client id file_id s)
  unfolding verify_collected_document get_for_client
  verify-Counts w file_id r s quiet one =
      let e = same_id s.table r one in
      let read_state : Checking = record s { table = w.meanwhile s.table } in
      let there : rows r.id client read_state.table ≡ r ∷ [] =
        subst (λ i. rows i client (w.meanwhile s.table) ≡ r ∷ []) (sym e) (quiet s.table ∙ one) in
      if-cases {A = VerificationOutcome × Checking} (Counts r) w.kill_switch_on
        (λ _. unchanged-Counts r s one)
        (λ _.
          subst (λ (o : Option ClientDocument). Counts r (check_loaded fmt w client o file_id s))
            (sym (ap first one))
            (elim (Bool-cases (is_stalled fmt r.verification)) [
              | inl gone ↦
                  if-cases {A = VerificationOutcome × Checking} (Counts r)
                    (not (is_one_of (collected ∷ []) r.status) || is_stalled fmt r.verification)
                    (λ _. unchanged-Counts r s one) (λ k. absurd (never _ _ k gone))
              | inr fresh ↦
                  if-cases {A = VerificationOutcome × Checking} (Counts r)
                    (not (is_one_of (collected ∷ []) r.status) || is_stalled fmt r.verification)
                    (λ _. unchanged-Counts r s one)
                    (λ _.
                      checked-Counts w r file_id
                        (check_file fmt w client w.file r file_id read_state).0
                        (check_file fmt w client w.file r file_id read_state).1 e
                        (check_file-IsChecked fmt w client r r file_id w.file read_state refl fresh
                          there))
            ]))
    where
      never : (a b : Bool) → (not a || b) ≡ false → b ≡ true → ⊥
      never a b h k = ground arith

  counted :
      (rounds : List Round) (s : Checking) (r : ClientDocument)
      → All IsQuiet rounds
      → rows id client s.table ≡ r ∷ []
      → (reopenings rounds s ≡ 0) ⊎ (previous_attempts fmt r.verification + reopenings rounds s ≤ 2)
  unfolding reopenings
  counted [] s r quiet one = inl refl
  counted ((w, file_id) ∷ rounds) s r quiet one =
      let (c, collected_row, kept) = mark_collected-rows w.now client id s.table r one in
      let s1 : Checking = record s { table = mark_collected w.now client (id ∷ []) s.table } in
      let (r', there, grown, few) = verify-Counts w file_id c s1 quiet.0 collected_row in
      let x = verify_collected_document fmt w client id file_id s1 in
      let later = counted rounds x.1 r' quiet.1 there in
      add_up (previous_attempts fmt r.verification) (previous_attempts fmt c.verification)
        (previous_attempts fmt r'.verification) (is_reopened x.0) (reopenings rounds x.1)
        (ap (previous_attempts fmt) kept) grown few later
    where
      add_up :
          (a b c k n : ℕ)
          → b ≡ a
          → b + k ≤ c
          → (k ≡ 0) ⊎ (c ≤ 2)
          → (n ≡ 0) ⊎ (c + n ≤ 2)
          → (k + n ≡ 0) ⊎ (a + (k + n) ≤ 2)
      add_up a b c k n e g (inl none_now) (inl none_later) = inl (omega arith)
      add_up a b c k n e g (inl none_now) (inr few_later) = inr (omega arith)
      add_up a b c k n e g (inr few) (inl none_later) = inr (omega arith)
      add_up a b c k n e g (inr few) (inr few_later) = inr (omega arith)

  -- However often a document is collected and checked, with whatever files and answers, its row goes
  -- back to the client at most twice, as long as nobody else writes the row during a check.
  pub reopenings-le :
      (rounds : List Round) (s : Checking) (r : ClientDocument)
      → All IsQuiet rounds
      → rows id client s.table ≡ r ∷ []
      → reopenings rounds s ≤ 2
  reopenings-le rounds s r quiet one = elim (counted rounds s r quiet one) [
    | inl never ↦ omega arith
    | inr few ↦ omega arith
  ]
