-- ===== src/Cycle/Apply.antt =====
-- The steps that change the checklist (`applyResolutions` to `applyAttestationConfirmed` of
-- src/agents/declarationOfCapital/plan.ts), over the queries of client_documents.
use fiscal_mind_agent.Prelude.{
  ℕ, suc, ◌+◌, true, false, ◌||◌, String, Option, none, some, List, [], ◌∷◌, ◌++◌, length, map,
  keep, find, str_eq, ltb, if◌then◌else◌,
}
use fiscal_mind_agent.Documents.Table.{ClientDocument, claimed, is_one_of}
use fiscal_mind_agent.Documents.Queries.{
  resolve_not_required, retire, mark_stated, mark_stated_vehicle,
}
use fiscal_mind_agent.Documents.Transactions.{
  DocumentInstance, TxResult, null, done, threw, resolve_required, add_instances,
}
use fiscal_mind_agent.Decision.Answer.{
  quoted, ResolvedInstance, DocumentResolution, needed, not_needed, InstanceAddition,
  DocumentRetirement, IntakeState, AttestationDecision, requested, confirmed_by,
}
use fiscal_mind_agent.Cycle.Run.{
  CycleCall, document_resolved, instances_added, document_retired, document_stated, planner_step,
  publish_updated, claimed_email, ChecklistChanges, PlanRun, call, Step, and_then, each, CycleWorld,
  list_for_client,
}

-- The parameters of `resolveRequired` and `addInstances`, with the ids that the database gives.
abbrev pub document_instances :
    (ℕ → Option String) → ℕ → List ResolvedInstance → List DocumentInstance
document_instances row_id n [] = []
document_instances row_id n (i ∷ is) =
    record {
      name = i.name;
      description = i.description;
      already_provided = i.already_provided;
      paper_key = i.paper_key;
      row_id = row_id n;
    }
    ∷ document_instances row_id (suc n) is

-- `rows.forEach((row, i) => ... instances[i]?.fileIds ?? [])`
abbrev with_files :
    List ClientDocument → List ResolvedInstance → List (ClientDocument × List String)
with_files [] is = []
with_files (r ∷ rs) [] = (r, []) ∷ with_files rs []
with_files (r ∷ rs) (i ∷ is) = (r, i.file_ids) ∷ with_files rs is

abbrev statement_for : ClientDocument → Option String → List (String × String)
statement_for r none = []
statement_for r (some said) = (r.id, said) ∷ []

-- The created rows whose instance states something.
abbrev with_statements :
    (ResolvedInstance → Option String)
    → List ClientDocument
    → List ResolvedInstance
    → List (String × String)
with_statements said [] is = []
with_statements said (r ∷ rs) [] = []
with_statements said (r ∷ rs) (i ∷ is) = statement_for r (said i) ++ with_statements said rs is

-- A change that the database took, if it returned a row.
abbrev pub landed : Option ClientDocument → CycleCall → PlanRun → PlanRun
landed none c s = s
landed (some row) c s =
    call (c ∷ []) (record s { changes = record s.changes { applied = suc s.changes.applied } })

-- The step row, when the step has applied something.
abbrev pub record_step : ℕ → String → PlanRun → PlanRun
record_step before name s =
    if ltb before s.changes.applied then call (planner_step name ∷ []) s else s

module _ (w : CycleWorld) where
  abbrev note_rows :
      List ClientDocument → List ResolvedInstance → ChecklistChanges → ChecklistChanges
  note_rows rows is c = record c {
    applied = suc c.applied;
    created_with_files = c.created_with_files ++ with_files rows is;
    claimed_at_creation =
        c.claimed_at_creation
        ++ map (λ (r : ClientDocument). r.name)
            (keep (λ (r : ClientDocument). is_one_of (claimed ∷ []) r.status) rows);
    created_stated = c.created_stated ++ with_statements w.stated_cost rows is;
    created_stated_vehicles = c.created_stated_vehicles ++ with_statements w.stated_vehicle rows is;
  }

  abbrev pub resolved_rows :
      TxResult (List ClientDocument) → CycleCall → List ResolvedInstance → Step
  resolved_rows null c is s = (s, true)
  resolved_rows threw c is s = (s, false)
  resolved_rows (done rows) c is s =
      (call (c ∷ []) (record s { changes = note_rows rows is s.changes }), true)

  abbrev pub resolve_one : DocumentResolution → Step
  resolve_one (not_needed id evidence) s =
      let (t, row) =
        resolve_not_required w.now id w.client_id (w.encode (quoted evidence)) s.table in
      (landed row (document_resolved id) (record s { table = t }), true)
  resolve_one (needed id is evidence) s =
      let (t, rows) =
        resolve_required w.now id w.client_id (document_instances w.row_id s.inserted is)
          (some (w.encode evidence)) s.table in
      resolved_rows rows (document_resolved id) is
        (record s { table = t; inserted = s.inserted + length is })

  -- `applyResolutions`
  unfoldable pub apply_resolutions : List DocumentResolution → Step
  unfolding each resolve_not_required resolve_required
  apply_resolutions rs s =
      and_then (each resolve_one rs s)
        λ s'. (record_step s.changes.applied "apply_resolutions" s', true)

  abbrev pub added_rows : TxResult (List ClientDocument) → CycleCall → List ResolvedInstance → Step
  added_rows null c is s = (s, true)
  added_rows threw c is s = (s, false)
  added_rows (done []) c is s = (s, true)
  added_rows (done (row ∷ rows)) c is s =
      (call (c ∷ []) (record s { changes = note_rows (row ∷ rows) is s.changes }), true)

  abbrev pub add_one : InstanceAddition → Step
  add_one a s =
      let (t, rows) =
        add_instances w.now a.anchor_document_id w.client_id
          (document_instances w.row_id s.inserted a.instances) (some (w.encode a.evidence))
          s.table in
      added_rows rows (instances_added a.anchor_document_id) a.instances
        (record s { table = t; inserted = s.inserted + length a.instances })

  -- `applyAdditions`
  unfoldable pub apply_additions : List InstanceAddition → Step
  unfolding each add_instances
  apply_additions additions s =
      and_then (each add_one additions s)
        λ s'. (record_step s.changes.applied "apply_additions" s', true)

  abbrev pub retire_one : DocumentRetirement → PlanRun → PlanRun
  retire_one r s =
      let (t, row) = retire w.now r.document_id w.client_id (w.encode r.evidence) s.table in
      landed row (document_retired r.document_id) (record s { table = t })

  abbrev pub run_all {ℓ} : {A : Type ℓ} → (A → PlanRun → PlanRun) → List A → PlanRun → PlanRun
  run_all step [] s = s
  run_all step (a ∷ more) s = run_all step more (step a s)

  -- `applyRetirements`
  unfoldable pub apply_retirements : List DocumentRetirement → PlanRun → PlanRun
  unfolding retire
  apply_retirements rs s =
      record_step s.changes.applied "apply_retirements" (run_all retire_one rs s)

  abbrev pub state_one : String × String → PlanRun → PlanRun
  state_one (id, evidence) s =
      let (t, row) = mark_stated w.now id w.client_id evidence s.table in
      landed row (document_stated id) (record s { table = t })

  -- `applyStatedCosts`, on the costs that the answer states of existing items
  unfoldable pub apply_stated_costs : List (String × String) → PlanRun → PlanRun
  unfolding mark_stated
  apply_stated_costs costs s =
      record_step s.changes.applied "apply_stated_costs"
        (run_all state_one (costs ++ s.changes.created_stated) s)

  abbrev pub state_vehicle : String × String → PlanRun → PlanRun
  state_vehicle (id, evidence) s =
      let (t, row) = mark_stated_vehicle w.now id w.client_id evidence s.table in
      landed row (document_stated id) (record s { table = t })

  -- The statements with the evidence that each is merged into.
  abbrev pub vehicle_targets : List (String × String) → PlanRun → List (String × String)
  vehicle_targets vehicles s =
      map
        (λ v.
          (v.0, w.merge_vehicle (find (λ (d : ClientDocument). str_eq d.id v.0) s.documents) v.1))
        vehicles
      ++ map (λ v. (v.0, w.merge_vehicle none v.1)) s.changes.created_stated_vehicles

  -- `applyVehicleDeclarations`
  unfoldable pub apply_vehicle_declarations : List (String × String) → PlanRun → PlanRun
  unfolding mark_stated_vehicle
  apply_vehicle_declarations vehicles s =
      record_step s.changes.applied "apply_vehicle_declarations"
        (run_all state_vehicle (vehicle_targets vehicles s) s)

  abbrev clear_attestation : IntakeState → PlanRun → PlanRun
  clear_attestation intake s =
      if intake.attestation_requested || intake.attestation_confirmed
      then record s {
        attestation_request = none;
        attestation_evidence = none;
        attestation_confirmed = false;
      }
      else s

  abbrev pub tell_claimed : List String → PlanRun → PlanRun
  tell_claimed [] s = s
  tell_claimed (name ∷ names) s = call (claimed_email (name ∷ names) ∷ []) s

  -- `settleChecklistChanges`
  unfoldable pub settle_checklist_changes : IntakeState → PlanRun → PlanRun
  settle_checklist_changes intake s = tell_claimed s.changes.claimed_at_creation (
      if ltb 0 s.changes.applied
      then call (publish_updated ∷ [])
          (record (clear_attestation intake s) { documents = list_for_client w.client_id s.table })
      else s)

-- `applyAttestationConfirmed`
unfoldable pub apply_attestation_confirmed : Option AttestationDecision → PlanRun → PlanRun
apply_attestation_confirmed none s = s
apply_attestation_confirmed (some requested) s = s
apply_attestation_confirmed (some (confirmed_by evidence)) s =
    call (planner_step "apply_attestation" ∷ [])
      (record s { attestation_evidence = some evidence; attestation_confirmed = true })
