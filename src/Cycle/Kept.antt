-- ===== src/Cycle/Kept.antt =====
-- What the apply steps of a cycle leave alone (`applyResolutions` to `applyVehicleDeclarations` of src/agents/declarationOfCapital/plan.ts).
use fiscal_mind_agent.Prelude.{
  ◌+◌, arith, ℕ, Bool, true, false, ◌≡◌, refl, ◌∙◌, String, Option, none, some, List, [], ◌∷◌, ◌++◌,
  ltb, if-cases,
}
use fiscal_mind_agent.Documents.Table.{ClientDocument, Table}
use fiscal_mind_agent.Documents.Queries.{
  resolve_not_required, retire, mark_stated, mark_stated_vehicle,
}
use fiscal_mind_agent.Documents.Transactions.{
  TxResult, null, done, threw, resolve_required, add_instances,
}
use fiscal_mind_agent.Decision.Answer.{
  quoted, ResolvedInstance, DocumentResolution, needed, not_needed, InstanceAddition,
  DocumentRetirement,
}
use fiscal_mind_agent.Cycle.Run.{
  ChecklistChanges, call, schedule_draft, planner_step, CycleCall, document_resolved,
  instances_added, PlanRun, Step, and_then, each, CycleWorld,
}
use fiscal_mind_agent.Cycle.Apply.{
  document_instances, landed, record_step, resolved_rows, resolve_one, apply_resolutions,
  added_rows, add_one, apply_additions, retire_one, run_all, apply_retirements, state_one,
  apply_stated_costs, state_vehicle, vehicle_targets, apply_vehicle_declarations,
}

-- How many messages the calls put on schedule.
abbrev pub draft_of : CycleCall → ℕ
draft_of (schedule_draft message send_at) = 1
draft_of _ = 0

abbrev pub drafts : List CycleCall → ℕ
drafts [] = 0
drafts (c ∷ cs) = draft_of c + drafts cs

pub drafts-append : (cs ds : List CycleCall) → drafts (cs ++ ds) ≡ drafts cs + drafts ds
drafts-append [] ds = omega arith
drafts-append (c ∷ cs) ds = omega (arith, drafts-append cs ds)

-- For any view of the state that depends on no row of the checklist and on no call but a draft.
module _ {V : Type 0} (view : PlanRun → V)
    (writes : (s : PlanRun) (t : Table) (c : ChecklistChanges) (n : ℕ)
      → view (record s { table = t; changes = c; inserted = n }) ≡ view s)
    (says : (c : CycleCall) (s : PlanRun) → draft_of c ≡ 0 → view (call (c ∷ []) s) ≡ view s)
    (w : CycleWorld) where
  abbrev pub Kept : PlanRun → PlanRun → Type 0
  Kept s s' = view s' ≡ view s

  written : (s : PlanRun) (t : Table) → view (record s { table = t }) ≡ view s
  written s t = writes s t s.changes s.inserted

  changed : (s : PlanRun) (c : ChecklistChanges) → view (record s { changes = c }) ≡ view s
  changed s c = writes s s.table c s.inserted

  inserted :
      (s : PlanRun) (t : Table) (n : ℕ) → view (record s { table = t; inserted = n }) ≡ view s
  inserted s t n = writes s t s.changes n

  and_then-Kept :
      (s : PlanRun) (r : PlanRun × Bool) (next : Step)
      → Kept s r.0
      → ((t : PlanRun) → Kept t (next t).0)
      → Kept s (and_then r next).0
  and_then-Kept s (t, false) next kept more = kept
  and_then-Kept s (t, true) next kept more = more t ∙ kept

  each-Kept {ℓ} :
      {A : Type ℓ} (step : A → Step)
      → ((a : A) (s : PlanRun) → Kept s (step a s).0)
      → (l : List A) (s : PlanRun) → Kept s (each step l s).0
  unfolding each
  each-Kept step kept [] s = refl
  each-Kept step kept (a ∷ more) s =
      and_then-Kept s (step a s) (each step more) (kept a s) (each-Kept step kept more)

  record_step-Kept : (before : ℕ) (name : String) (s : PlanRun) → Kept s (record_step before name s)
  record_step-Kept before name s =
      if-cases {A = PlanRun} (Kept s) (ltb before s.changes.applied)
        (λ _. says (planner_step name) s refl) (λ _. refl)

  landed-Kept :
      (row : Option ClientDocument) (c : CycleCall) (s : PlanRun)
      → draft_of c ≡ 0
      → Kept s (landed row c s)
  landed-Kept none c s h = refl
  landed-Kept (some row) c s h = says c _ h ∙ changed s _

  run_all-Kept {ℓ} :
      {A : Type ℓ} (step : A → PlanRun → PlanRun)
      → ((a : A) (s : PlanRun) → Kept s (step a s))
      → (l : List A) (s : PlanRun) → Kept s (run_all w step l s)
  run_all-Kept step kept [] s = refl
  run_all-Kept step kept (a ∷ more) s = run_all-Kept step kept more (step a s) ∙ kept a s

  resolved_rows-Kept :
      (r : TxResult (List ClientDocument)) (c : CycleCall) (is : List ResolvedInstance)
      (s : PlanRun)
      → draft_of c ≡ 0
      → Kept s (resolved_rows w r c is s).0
  resolved_rows-Kept null c is s h = refl
  resolved_rows-Kept threw c is s h = refl
  resolved_rows-Kept (done rows) c is s h = says c _ h ∙ changed s _

  added_rows-Kept :
      (r : TxResult (List ClientDocument)) (c : CycleCall) (is : List ResolvedInstance)
      (s : PlanRun)
      → draft_of c ≡ 0
      → Kept s (added_rows w r c is s).0
  added_rows-Kept null c is s h = refl
  added_rows-Kept threw c is s h = refl
  added_rows-Kept (done []) c is s h = refl
  added_rows-Kept (done (row ∷ rows)) c is s h = says c _ h ∙ changed s _

  resolve_one-Kept : (r : DocumentResolution) (s : PlanRun) → Kept s (resolve_one w r s).0
  resolve_one-Kept (not_needed id evidence) s =
      let (t, row) =
        resolve_not_required w.now id w.client_id (w.encode (quoted evidence)) s.table in
      landed-Kept row (document_resolved id) (record s { table = t }) refl ∙ written s t
  resolve_one-Kept (needed id is evidence) s =
      resolved_rows-Kept
        (resolve_required w.now id w.client_id (document_instances w.row_id s.inserted is)
          (some (w.encode evidence)) s.table).1
        (document_resolved id) is _ refl
      ∙ inserted s _ _

  pub apply_resolutions-Kept :
      (l : List DocumentResolution) (s : PlanRun) → Kept s (apply_resolutions w l s).0
  unfolding apply_resolutions
  apply_resolutions-Kept l s =
      and_then-Kept s (each (resolve_one w) l s) _ (each-Kept (resolve_one w) resolve_one-Kept l s)
        (λ t. record_step-Kept s.changes.applied "apply_resolutions" t)

  add_one-Kept : (a : InstanceAddition) (s : PlanRun) → Kept s (add_one w a s).0
  add_one-Kept a s =
      added_rows-Kept
        (add_instances w.now a.anchor_document_id w.client_id
          (document_instances w.row_id s.inserted a.instances) (some (w.encode a.evidence))
          s.table).1
        (instances_added a.anchor_document_id) a.instances _ refl
      ∙ inserted s _ _

  pub apply_additions-Kept :
      (l : List InstanceAddition) (s : PlanRun) → Kept s (apply_additions w l s).0
  unfolding apply_additions
  apply_additions-Kept l s =
      and_then-Kept s (each (add_one w) l s) _ (each-Kept (add_one w) add_one-Kept l s)
        (λ t. record_step-Kept s.changes.applied "apply_additions" t)

  recorded {ℓ} :
      {A : Type ℓ} (step : A → PlanRun → PlanRun) (before : ℕ) (name : String)
      → ((a : A) (s : PlanRun) → Kept s (step a s))
      → (l : List A) (s : PlanRun) → Kept s (record_step before name (run_all w step l s))
  recorded step before name kept l s =
      record_step-Kept before name (run_all w step l s) ∙ run_all-Kept step kept l s

  pub apply_retirements-Kept :
      (l : List DocumentRetirement) (s : PlanRun) → Kept s (apply_retirements w l s)
  unfolding apply_retirements
  apply_retirements-Kept l s =
      recorded (retire_one w) s.changes.applied "apply_retirements"
        (λ r t.
          landed-Kept (retire w.now r.document_id w.client_id (w.encode r.evidence) t.table).1 _ _
            refl
          ∙ written t _)
        l s

  pub apply_stated_costs-Kept :
      (l : List (String × String)) (s : PlanRun) → Kept s (apply_stated_costs w l s)
  unfolding apply_stated_costs
  apply_stated_costs-Kept l s =
      recorded (state_one w) s.changes.applied "apply_stated_costs"
        (λ c t.
          landed-Kept (mark_stated w.now c.0 w.client_id c.1 t.table).1 _ _ refl ∙ written t _)
        (l ++ s.changes.created_stated) s

  pub apply_vehicle_declarations-Kept :
      (l : List (String × String)) (s : PlanRun) → Kept s (apply_vehicle_declarations w l s)
  unfolding apply_vehicle_declarations
  apply_vehicle_declarations-Kept l s =
      recorded (state_vehicle w) s.changes.applied "apply_vehicle_declarations"
        (λ c t.
          landed-Kept (mark_stated_vehicle w.now c.0 w.client_id c.1 t.table).1 _ _ refl
          ∙ written t _)
        (vehicle_targets w l s) s
