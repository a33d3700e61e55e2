-- ===== src/Decision/Entries.antt =====
-- The accepted entries of the lists of an answer, and the loop over them
-- (src/agents/declarationOfCapital/decisionSchema.ts).
use mathlib.Core.Path.{subst}
use fiscal_mind_agent.Prelude.{
  true, false, ◌≡◌, refl, sym, String, some, List, [], ◌∷◌, any, find, All, str_eq,
}
use fiscal_mind_agent.Documents.Table.{retired, is_one_of}
use fiscal_mind_agent.Decision.Result.{
  Result, ok, ok-injective, passed, passed_not, looked_up, chain-ok,
}
use fiscal_mind_agent.Decision.Answer.{
  ResolvedInstance, Resolution, required, not_required, RawResolution, RawAddition, RawRetirement,
  ResolvableRow, TypedRow, IntakeState, DocumentResolution, needed, not_needed, InstanceAddition,
  DocumentRetirement,
}
use fiscal_mind_agent.Decision.Evidence.{
  validate_evidence, retiring, adding, resolving, validate_proven_by_file,
}
use fiscal_mind_agent.Decision.Lists.{
  Catalog, normalize_instances, instances_on_self_evident_file, each_once, resolution_of,
  validate_resolution, validate_addition, validate_retirement,
}
use fiscal_mind_agent.Decision.Backed.{IsSaid, validate_evidence-IsSaid}
use fiscal_mind_agent.Decision.Sound.{
  RestsOn, AreInstances, normalize_instances-AreInstances, evidence-RestsOn,
}

abbrev pub IsSoundResolution : Catalog → IntakeState → DocumentResolution → Type 0
IsSoundResolution cat intake (not_needed id q) =
    (row : ResolvableRow) × (find (λ r. str_eq r.id id) intake.resolvable ≡ some row)
    × (row.is_unresolved ≡ true)
    × IsSaid intake.inbound_texts q
IsSoundResolution cat intake (needed id instances ev) =
    (row : ResolvableRow) × (find (λ r. str_eq r.id id) intake.resolvable ≡ some row)
    × (is : List ResolvedInstance) × AreInstances cat row.multi_instance row.type_key is
    × RestsOn intake (resolving row is) ev
    × (instances ≡ instances_on_self_evident_file cat is ev intake)

abbrev pub IsSoundAddition : Catalog → IntakeState → InstanceAddition → Type 0
IsSoundAddition cat intake a =
    (anchor : TypedRow) × (find (λ r. str_eq r.id a.anchor_document_id) intake.typed_rows
      ≡ some anchor)
    × (anchor.multi_instance ≡ true)
    × (is : List ResolvedInstance) × AreInstances cat true anchor.type_key is
    × RestsOn intake (adding anchor is) a.evidence
    × (a.instances ≡ instances_on_self_evident_file cat is a.evidence intake)

abbrev pub IsSoundRetirement : IntakeState → DocumentRetirement → Type 0
IsSoundRetirement intake r =
    (row : TypedRow) × (find (λ t. str_eq t.id r.document_id) intake.typed_rows ≡ some row)
    × (is_one_of (retired ∷ []) row.status ≡ false)
    × RestsOn intake (retiring row) r.evidence

abbrev pub resolved_id : DocumentResolution → String
resolved_id (needed id instances ev) = id
resolved_id (not_needed id q) = id

abbrev IsFor : Catalog → IntakeState → String → DocumentResolution → Type 0
IsFor cat intake id r = IsSoundResolution cat intake r × (resolved_id r ≡ id)

resolution_of-IsSound :
    (cat : Catalog) (intake : IntakeState) (how : Resolution) (entry : RawResolution)
    (row : ResolvableRow) {r : DocumentResolution}
    → find (λ t. str_eq t.id entry.document_id) intake.resolvable ≡ some row
    → resolution_of cat intake how entry row ≡ ok r
    → IsFor cat intake entry.document_id r
unfolding validate_evidence validate_proven_by_file normalize_instances
resolution_of-IsSound cat intake not_required entry row found h =
    let (unresolved, h1) = passed_not _ _ _ h in
    let (no_file, h2) = passed _ _ _ h1 in
    let (q, same, said) = chain-ok (validate_evidence entry.evidence intake.inbound_texts) _ h2 in
    let sound : IsSoundResolution cat intake (not_needed entry.document_id q) =
      (row, found, unresolved, validate_evidence-IsSaid entry.evidence intake.inbound_texts said) in
    subst (IsFor cat intake entry.document_id) (ok-injective same) (sound, refl)
resolution_of-IsSound cat intake required entry row found h =
    let (is, h1, taken) =
      chain-ok (normalize_instances cat entry.instances row.multi_instance row.type_key) _ h in
    let (ev, h2, backed) = chain-ok _ _ h1 in
    let (settles, same) = passed_not _ _ _ h2 in
    let sound : IsSoundResolution cat intake
        (needed entry.document_id (instances_on_self_evident_file cat is ev intake) ev) =
      (
        row,
        found,
        is,
        normalize_instances-AreInstances cat entry.instances row.multi_instance row.type_key taken,
        evidence-RestsOn _ entry.proven_by_file_id entry.evidence (resolving row is) intake backed,
        refl,
      ) in
    subst (IsFor cat intake entry.document_id) (ok-injective same) (sound, refl)

pub validate_resolution-IsSound :
    (cat : Catalog) (intake : IntakeState) (entry : RawResolution) {r : DocumentResolution}
    → validate_resolution cat intake entry ≡ ok r
    → IsSoundResolution cat intake r × (resolved_id r ≡ entry.document_id)
unfolding validate_resolution
validate_resolution-IsSound cat intake entry h =
    let (row, found, more) = looked_up _ _ _ h in
    resolution_of-IsSound cat intake entry.resolution entry row found more

pub validate_addition-IsSound :
    (cat : Catalog) (intake : IntakeState) (entry : RawAddition) {a : InstanceAddition}
    → validate_addition cat intake entry ≡ ok a
    → IsSoundAddition cat intake a × (a.anchor_document_id ≡ entry.anchor_document_id)
unfolding validate_addition
validate_addition-IsSound cat intake entry h =
    let (anchor, found, h1) = looked_up _ _ _ h in
    let (multi, h2) = passed_not _ _ _ h1 in
    let (is, h3, taken) = chain-ok _ _ h2 in
    let (ev, same, backed) = chain-ok _ _ h3 in
    subst
      (λ (a : InstanceAddition).
        IsSoundAddition cat intake a × (a.anchor_document_id ≡ entry.anchor_document_id))
      (ok-injective same)
      (
        (
          anchor,
          found,
          multi,
          is,
          normalize_instances-AreInstances cat entry.instances true anchor.type_key taken,
          evidence-RestsOn _ entry.proven_by_file_id entry.evidence (adding anchor is) intake
              backed,
          refl,
        ),
        refl,
      )

pub validate_retirement-IsSound :
    (intake : IntakeState) (entry : RawRetirement) {r : DocumentRetirement}
    → validate_retirement intake entry ≡ ok r
    → IsSoundRetirement intake r × (r.document_id ≡ entry.document_id)
unfolding validate_retirement
validate_retirement-IsSound intake entry h =
    let (row, found, h1) = looked_up _ _ _ h in
    let (live, h2) = passed _ _ _ h1 in
    let (ev, same, backed) = chain-ok _ _ h2 in
    subst
      (λ (r : DocumentRetirement). IsSoundRetirement intake r × (r.document_id ≡ entry.document_id))
      (ok-injective same)
      (
        (
          row,
          found,
          live,
          evidence-RestsOn _ entry.proven_by_file_id entry.evidence (retiring row) intake backed,
        ),
        refl,
      )

-- No two of the entries have one target, and none has a target that was seen.
abbrev pub AreNew : {R : Type 0} → (R → String) → List String → List R → Type 0
AreNew named seen [] = Unit
AreNew named seen (r ∷ rs) =
    (any (str_eq (named r)) seen ≡ false) × AreNew named (named r ∷ seen) rs

-- The loop accepts each entry, and no two of one target.
module _ {E R : Type 0} (target : E → String) (validate : E → Result R) (P : R → Type 0)
    (named : R → String)
    (sound : (e : E) (r : R) → validate e ≡ ok r → P r × (named r ≡ target e)) where
  pub each_once-All :
      (seen : List String) (es : List E) {rs : List R}
      → each_once target validate seen es ≡ ok rs
      → All P rs × AreNew named seen rs
  unfolding each_once
  each_once-All seen [] h = subst (λ rs. All P rs × AreNew named seen rs) (ok-injective h) (tt, tt)
  each_once-All seen (e ∷ es) h =
      let (new, h1) = passed _ _ _ h in
      let (r, h2, valid) = chain-ok _ _ h1 in
      let (rs, same, rest) = chain-ok _ _ h2 in
      let (all, news) = each_once-All (target e ∷ seen) es rest in
      let (holds, t) = sound e r valid in
      let both : All P (r ∷ rs) × AreNew named seen (r ∷ rs) = (
        (holds, all),
        subst (λ x. (any (str_eq x) seen ≡ false) × AreNew named (x ∷ seen) rs) (sym t) (new, news),
      ) in
      subst (λ l. All P l × AreNew named seen l) (ok-injective same) both
