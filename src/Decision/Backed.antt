-- ===== src/Decision/Backed.antt =====
-- What the evidence of an accepted change is (`validateEvidence`, `validateProvenByFile` of
-- src/agents/declarationOfCapital/decisionSchema.ts).
use mathlib.Core.Path.{subst}
use fiscal_mind_agent.Prelude.{
  true, false, not, ◌||◌, ◌≡◌, refl, sym, String, Option, none, some, List, [], ◌∷◌, length, any,
  All, eq_iff, ==_iff, arith,
}
use fiscal_mind_agent.Decision.Result.{ok, ok-injective, passed, passed_not, looked_up, chain-ok}
use fiscal_mind_agent.Decision.Quotes.{IsQuoteOf, quote_appears_in-IsQuoteOf}
use fiscal_mind_agent.Decision.Answer.{
  QuoteEvidence, SellerKind, private_seller, builder, ApprovedPropertyFile, SelfEvidentFile,
  seller_private, seller_builder, Evidence, quoted, approved_file, self_evident_file,
  ResolvedInstance, TypedRow, IntakeState,
}
use fiscal_mind_agent.Decision.Evidence.{
  get, validate_evidence, Change, retiring, adding, resolving, has_key, own_item, by_self_evident,
  is_retired_by_private_seller, is_private, self_evident_evidence_of, property_file, by_approved,
  by_file, validate_proven_by_file,
}

-- The client's words: a quote that stands in the stored inbound message that it cites.
abbrev pub IsSaid : List (String × String) → QuoteEvidence → Type 0
IsSaid inbound_texts q =
    (text : String) × (get q.message_id inbound_texts ≡ some text) × IsQuoteOf q.quote text

pub validate_evidence-IsSaid :
    (e : Option QuoteEvidence) (texts : List (String × String)) {q : QuoteEvidence}
    → validate_evidence e texts ≡ ok q
    → IsSaid texts q
unfolding validate_evidence
validate_evidence-IsSaid none texts h = cc
validate_evidence-IsSaid (some e) texts {q} h =
    let (text, found, kept) = looked_up _ _ _ h in
    let (quotes, same) = passed_not _ _ _ kept in
    subst (IsSaid texts) (ok-injective same)
      (text, found, quote_appears_in-IsQuoteOf e.quote text quotes)

-- The approved paper of a property proves this kind of seller.
abbrev Proves : IntakeState → Option String → String → String → SellerKind → Type 0
Proves intake type_key file_id document_id kind =
    (type_key ≡ some "real_estate")
    × (get file_id intake.approved_property_files
        ≡ some (record { document_id = document_id; seller_kind = some kind }))

-- The self-evident file is one of the client's, of the type of the row, and stands for one instance.
abbrev IsItself : IntakeState → Option String → List ResolvedInstance → String → Type 0
IsItself intake type_key instances file_id =
    (proof : SelfEvidentFile) × (get file_id intake.self_evident_files ≡ some proof)
    × (type_key ≡ some proof.type_key)
    × (length instances ≡ 1)

-- What a change may rest on besides the client's words.
abbrev pub IsProven : IntakeState → Change → Evidence → Type 0
IsProven intake change (quoted q) = ⊥
IsProven intake (retiring row) (self_evident_file e) = ⊥
IsProven intake (adding anchor instances) (self_evident_file e) =
    IsItself intake anchor.type_key instances e.file_id
IsProven intake (resolving row instances) (self_evident_file e) =
    IsItself intake row.type_key instances e.file_id
IsProven intake (retiring row) (approved_file file_id document_id seller_private) =
    Proves intake row.type_key file_id document_id private_seller
    × (is_retired_by_private_seller row.paper_key ≡ true)
IsProven intake (retiring row) (approved_file file_id document_id seller_builder) = ⊥
IsProven intake (adding anchor instances) (approved_file file_id document_id seller_private) = ⊥
IsProven intake (adding anchor instances) (approved_file file_id document_id seller_builder) =
    Proves intake anchor.type_key file_id document_id builder
    × All (λ (i : ResolvedInstance). i.paper_key ≡ some "payments_appendix") instances
IsProven intake (resolving row instances) (approved_file file_id document_id fact) = ⊥

has_key-eq : (k : Option String) (key : String) → has_key k key ≡ true → k ≡ some key
has_key-eq none key h = cc
has_key-eq (some k) key h = ground (arith, eq_iff k key)

appendix_everywhere :
    (is : List ResolvedInstance)
    → any (λ i. not (has_key i.paper_key "payments_appendix")) is ≡ false
    → All (λ (i : ResolvedInstance). i.paper_key ≡ some "payments_appendix") is
appendix_everywhere [] h = tt
appendix_everywhere (i ∷ is) h = (
  has_key-eq i.paper_key "payments_appendix" (ground arith),
  appendix_everywhere is (ground arith),
)

property_file-Proves :
    (file_id : String) (type_key : Option String) (intake : IntakeState) {d : String × SellerKind}
    → property_file file_id type_key intake ≡ ok d
    → Proves intake type_key file_id d.0 d.1
property_file-Proves file_id type_key intake h =
    let (typed, more) = passed_not _ _ _ h in
    let (a, found, more') = looked_up _ _ _ more in
    let (k, kind, same) = looked_up _ _ _ more' in
    proves a k (has_key-eq type_key "real_estate" typed) found kind _ (ok-injective same)
  where
    proves :
        (a : ApprovedPropertyFile) (k : SellerKind)
        → type_key ≡ some "real_estate"
        → get file_id intake.approved_property_files ≡ some a
        → a.seller_kind ≡ some k
        → (d : String × SellerKind) → (a.document_id, k) ≡ d
        → Proves intake type_key file_id d.0 d.1
    proves a k typed found kind d same = ground (arith, typed, found, kind, same)

own_item-IsItself :
    (intake : IntakeState) (file_id : String) (proof : SelfEvidentFile) (type_key : Option String)
    (instances : List ResolvedInstance) {ev : Evidence}
    → get file_id intake.self_evident_files ≡ some proof
    → own_item file_id proof type_key instances ≡ ok ev
    → IsItself intake type_key instances file_id × (ev ≡ self_evident_evidence_of file_id proof)
own_item-IsItself intake file_id proof type_key instances found h =
    let (typed, more) = passed_not _ _ _ h in
    let (one, same) = passed_not _ _ _ more in
    (
      (proof, found, has_key-eq type_key proof.type_key typed, (==_iff (length instances) 1).0 one),
      sym (ok-injective same),
    )

by_self_evident-IsProven :
    (intake : IntakeState) (file_id : String) (proof : SelfEvidentFile) (change : Change)
    {ev : Evidence}
    → get file_id intake.self_evident_files ≡ some proof
    → by_self_evident file_id proof change ≡ ok ev
    → IsProven intake change ev
by_self_evident-IsProven intake file_id proof (retiring row) found h = absurd (cc h)
by_self_evident-IsProven intake file_id proof (adding anchor instances) found h =
    let (itself, same) = own_item-IsItself intake file_id proof anchor.type_key instances found h in
    subst (IsProven intake (adding anchor instances)) (sym same) itself
by_self_evident-IsProven intake file_id proof (resolving row instances) found h =
    let (itself, same) = own_item-IsItself intake file_id proof row.type_key instances found h in
    subst (IsProven intake (resolving row instances)) (sym same) itself

-- The kind of seller that a pair proves is the one that the test lets through.
retire_by-IsProven :
    (intake : IntakeState) (file_id : String) (row : TypedRow) (d : String × SellerKind)
    {ev : Evidence}
    → Proves intake row.type_key file_id d.0 d.1
    → (not (is_private d.1) || not (is_retired_by_private_seller row.paper_key)) ≡ false
    → Evidence.approved_file file_id d.0 seller_private ≡ ev
    → IsProven intake (retiring row) ev
retire_by-IsProven intake file_id row (doc, private_seller) p kept same =
    subst (IsProven intake (retiring row)) same (p, ground arith)
retire_by-IsProven intake file_id row (doc, builder) p kept same = absurd (cc kept)

add_by-IsProven :
    (intake : IntakeState) (file_id : String) (anchor : TypedRow)
    (instances : List ResolvedInstance) (d : String × SellerKind) {ev : Evidence}
    → Proves intake anchor.type_key file_id d.0 d.1
    → (is_private d.1 || any (λ i. not (has_key i.paper_key "payments_appendix")) instances) ≡ false
    → Evidence.approved_file file_id d.0 seller_builder ≡ ev
    → IsProven intake (adding anchor instances) ev
add_by-IsProven intake file_id anchor instances (doc, private_seller) p kept same = absurd (cc kept)
add_by-IsProven intake file_id anchor instances (doc, builder) p kept same =
    subst (IsProven intake (adding anchor instances)) same (p, appendix_everywhere instances kept)

by_approved-IsProven :
    (intake : IntakeState) (file_id : String) (change : Change) {ev : Evidence}
    → by_approved file_id change intake ≡ ok ev
    → IsProven intake change ev
by_approved-IsProven intake file_id (resolving row instances) h = absurd (cc h)
by_approved-IsProven intake file_id (retiring row) h =
    let (d, more, found) = chain-ok _ _ h in
    let (kept, same) = passed _ _ _ more in
    retire_by-IsProven intake file_id row d (property_file-Proves file_id row.type_key intake found)
      kept (ok-injective same)
by_approved-IsProven intake file_id (adding anchor instances) h =
    let (d, more, found) = chain-ok _ _ h in
    let (kept, same) = passed _ _ _ more in
    add_by-IsProven intake file_id anchor instances d
      (property_file-Proves file_id anchor.type_key intake found) kept (ok-injective same)

by_file-IsProven :
    (intake : IntakeState) (file_id : String) (change : Change) (o : Option SelfEvidentFile)
    {ev : Evidence}
    → get file_id intake.self_evident_files ≡ o
    → by_file o file_id change intake ≡ ok ev
    → IsProven intake change ev
by_file-IsProven intake file_id change none found h = by_approved-IsProven intake file_id change h
by_file-IsProven intake file_id change (some proof) found h =
    by_self_evident-IsProven intake file_id proof change found h

pub validate_proven_by_file-IsProven :
    (file_id : String) (change : Change) (intake : IntakeState) {ev : Evidence}
    → validate_proven_by_file file_id change intake ≡ ok ev
    → IsProven intake change ev
unfolding validate_proven_by_file
validate_proven_by_file-IsProven file_id change intake h =
    by_file-IsProven intake file_id change (get file_id intake.self_evident_files) refl h
