-- ===== src/Decision/Sound.antt =====
-- The instances and the evidence of an entry (the validators of
-- src/agents/declarationOfCapital/decisionSchema.ts).
use mathlib.Core.Path.{subst}
use fiscal_mind_agent.Prelude.{
  ◌≤◌, Bool, true, false, not, ◌&&◌, ◌≡◌, String, Option, List, [], ◌∷◌, length, map, any, All, ltb,
  ◌==◌, arith, if◌then◌else◌,
}
use fiscal_mind_agent.Decision.Result.{ok, ok-injective, passed, chain-ok}
use fiscal_mind_agent.Decision.Quotes.{utf16_length}
use fiscal_mind_agent.Decision.Answer.{
  QuoteEvidence, Evidence, quoted, approved_file, self_evident_file, RawInstance, ResolvedInstance,
  IntakeState,
}
use fiscal_mind_agent.Decision.Evidence.{Change, validate_proven_by_file}
use fiscal_mind_agent.Decision.Lists.{
  Catalog, instance_paper_fault, bad_name, resolved_instance, normalize_instances, quote_of,
}
use fiscal_mind_agent.Decision.Backed.{
  IsSaid, IsProven, validate_evidence-IsSaid, validate_proven_by_file-IsProven,
}

-- The client's words, or a file that calls for just this change.
abbrev pub RestsOn : IntakeState → Change → Evidence → Type 0
RestsOn intake change (quoted q) = IsSaid intake.inbound_texts q
RestsOn intake change (approved_file f d fact) = IsProven intake change (approved_file f d fact)
RestsOn intake change (self_evident_file e) = IsProven intake change (self_evident_file e)

-- A name of 1 to 200 characters, and a paper that the type has, or none where it has none.
abbrev IsInstance : Catalog → Option String → ResolvedInstance → Type 0
IsInstance cat type_key i =
    (1 ≤ utf16_length i.name)
    × (utf16_length i.name ≤ 200)
    × (instance_paper_fault cat i.paper_key type_key ≡ false)

abbrev pub AreInstances : Catalog → Bool → Option String → List ResolvedInstance → Type 0
AreInstances cat multi_instance type_key is =
    (1 ≤ length is)
    × (length is ≤ 10)
    × (multi_instance ≡ false → length is ≡ 1)
    × All (IsInstance cat type_key) is

normalized_hold :
    (cat : Catalog) (type_key : Option String) (is : List ResolvedInstance)
    → any bad_name is ≡ false
    → any (λ i. instance_paper_fault cat i.paper_key type_key) is ≡ false
    → All (IsInstance cat type_key) is
normalized_hold cat type_key [] h k = tt
normalized_hold cat type_key (i ∷ is) h k = (
  (ground arith, ground arith, ground arith),
  normalized_hold cat type_key is (ground arith) (ground arith),
)

pub normalize_instances-AreInstances :
    (cat : Catalog) (raw : List RawInstance) (multi : Bool) (type_key : Option String)
    {is : List ResolvedInstance}
    → normalize_instances cat raw multi type_key ≡ ok is
    → AreInstances cat multi type_key is
unfolding normalize_instances
normalize_instances-AreInstances cat raw multi type_key h =
    let (some_there, h1) = passed _ _ _ h in
    let (named, h2) = passed _ _ _ h1 in
    let (papers, h3) = passed _ _ _ h2 in
    let (single, h4) = passed _ _ _ h3 in
    let (few, same) = passed _ _ _ h4 in
    subst (AreInstances cat multi type_key) (ok-injective same) (
      counted (map resolved_instance raw) some_there single few
        (normalized_hold cat type_key (map resolved_instance raw) named papers))
  where
    counted :
        (l : List ResolvedInstance)
        → (length l == 0) ≡ false
        → (ltb 1 (length l) && not multi) ≡ false
        → ltb 10 (length l) ≡ false
        → All (IsInstance cat type_key) l
        → AreInstances cat multi type_key l
    counted l a b c d = (ground arith, ground arith, λ m. ground (arith, m), d)

quote_of-IsSaid :
    (e : Option QuoteEvidence) (intake : IntakeState) (change : Change) {ev : Evidence}
    → quote_of e intake ≡ ok ev
    → RestsOn intake change ev
quote_of-IsSaid e intake change h =
    let (q, same, said) = chain-ok _ _ h in
    subst (RestsOn intake change) (ok-injective same)
      (validate_evidence-IsSaid e intake.inbound_texts said)

proven-RestsOn :
    (intake : IntakeState) (change : Change) (ev : Evidence)
    → IsProven intake change ev
    → RestsOn intake change ev
proven-RestsOn intake change (quoted q) h = elim h [ ]
proven-RestsOn intake change (approved_file f d fact) h = h
proven-RestsOn intake change (self_evident_file e) h = h

-- The evidence of an entry: by a file where no quote is given and one is named, by a quote otherwise.
pub evidence-RestsOn :
    (b : Bool) (file_id : String) (e : Option QuoteEvidence) (change : Change)
    (intake : IntakeState) {ev : Evidence}
    → (if b then validate_proven_by_file file_id change intake else quote_of e intake) ≡ ok ev
    → RestsOn intake change ev
evidence-RestsOn true file_id e change intake h =
    proven-RestsOn intake change _ (validate_proven_by_file-IsProven file_id change intake h)
evidence-RestsOn false file_id e change intake h = quote_of-IsSaid e intake change h
