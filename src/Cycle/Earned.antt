-- ===== src/Cycle/Earned.antt =====
-- What a proposed document must have to be collected or claimed (`decideCollectOrClaim` of
-- src/agents/declarationOfCapital/plan.ts).
use mathlib.Core.Path.{subst}
use fiscal_mind_agent.Prelude.{
  Bool, true, false, not, ◌≡◌, ◌↔◌, refl, sym, String, List, [], ◌∷◌, str_eq, eq_iff, if◌then◌else◌,
  arith, Bool-cases, inl, inr,
}
use fiscal_mind_agent.Ties.Evidence.{DocumentFile}
use fiscal_mind_agent.Ties.Pairs.{RefusedTie}
use fiscal_mind_agent.Ties.NewRows.{Tie}
use fiscal_mind_agent.Cycle.Decide.{
  Decided, has_id, is_refused, is_earned, collect_id, claim_id, decide_each,
  decide_collect_or_claim,
}

module _ (files : List DocumentFile) (pending_ids : List String) (pairs : List Tie)
    (refused : List RefusedTie) where
  abbrev IsCollectable : String → Type 0
  IsCollectable id = (has_id id pending_ids ≡ true) × (is_earned files pairs id ≡ true)

  abbrev IsClaimable : String → Type 0
  IsClaimable id =
      (has_id id pending_ids ≡ true)
      × (is_earned files pairs id ≡ false)
      × (is_refused refused id ≡ false)

  abbrev pub IsDecided : List String → Decided → String → Type 0
  IsDecided proposed d id =
      ((has_id id d.newly_collected ≡ true) ↔ ((has_id id proposed ≡ true) × IsCollectable id))
      × ((has_id id d.newly_claimed ≡ true) ↔ ((has_id id proposed ≡ true) × IsClaimable id))

  -- The tests of one proposed document, with what the later ones gave.
  abbrev decide_one : Bool → Bool → Bool → String → Decided → Decided
  decide_one p e r x d =
      if not p then d else if e then collect_id x d else if r then d else claim_id x d

  same_one :
      (p e r : Bool) (x : String) (rest : List String) (d : Decided)
      → has_id x pending_ids ≡ p
      → is_earned files pairs x ≡ e
      → is_refused refused x ≡ r
      → str_eq x x ≡ true
      → IsDecided rest d x
      → IsDecided (x ∷ rest) (decide_one p e r x d) x
  same_one false e r x rest d hp he hr same h = ground (arith, h.0, h.1)
  same_one true true r x rest d hp he hr same h = ground (arith, h.0, h.1)
  same_one true false true x rest d hp he hr same h = ground (arith, h.0, h.1)
  same_one true false false x rest d hp he hr same h = ground (arith, h.0, h.1)

  other_one :
      (p e r : Bool) (x id : String) (rest : List String) (d : Decided)
      → str_eq x id ≡ false
      → IsDecided rest d id
      → IsDecided (x ∷ rest) (decide_one p e r x d) id
  other_one false e r x id rest d other h = rw other h
  other_one true true r x id rest d other h = rw other h
  other_one true false true x id rest d other h = rw other h
  other_one true false false x id rest d other h = rw other h

  decided :
      (ids : List String) (id : String)
      → IsDecided ids (decide_each files pending_ids pairs refused ids) id
  unfolding decide_each
  decided [] id =
      ((λ h. absurd (cc h), λ h. absurd (cc h.0)), (λ h. absurd (cc h), λ h. absurd (cc h.0)))
  decided (x ∷ ids) id = elim (Bool-cases (str_eq x id)) [
    | inl same ↦
        let e : x ≡ id = (eq_iff x id).0 same in
        subst (λ y. IsDecided (x ∷ ids) (decide_each files pending_ids pairs refused (x ∷ ids)) y) e
          (same_one (has_id x pending_ids) (is_earned files pairs x) (is_refused refused x) x ids
            (decide_each files pending_ids pairs refused ids) refl refl refl
            (subst (λ y. str_eq x y ≡ true) (sym e) same) (decided ids x))
    | inr other ↦
        other_one (has_id x pending_ids) (is_earned files pairs x) (is_refused refused x) x id ids
          (decide_each files pending_ids pairs refused ids) other (decided ids id)
  ]

  -- A proposed document is newly collected exactly when it is pending and earned: the analyzer matched a
  -- file to it, or the file of its pair is verified and legible. It is newly claimed exactly when it is
  -- pending, not earned, and no tie to it was refused. Nothing else is collected or claimed, and nothing
  -- at all in the cycle after a verification.
  pub decide_collect_or_claim-IsDecided :
      (after_verification : Bool) (proposed : List String) (id : String)
      → IsDecided
          (if after_verification then [] else proposed)
          (decide_collect_or_claim files pending_ids pairs refused after_verification proposed)
          id
  unfolding decide_collect_or_claim decide_each
  decide_collect_or_claim-IsDecided true proposed id = decided [] id
  decide_collect_or_claim-IsDecided false proposed id = decided proposed id
