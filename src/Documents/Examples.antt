-- ===== src/Documents/Examples.antt =====
-- The checklist on concrete rows: tests of the queries, and the theorems at an input.
use fiscal_mind_agent.Prelude.{
  ℕ, ◌≡◌, refl, false, String, Option, none, some, List, [], ◌∷◌, map, All,
}
use fiscal_mind_agent.Documents.Table.{
  DocumentStatus, unresolved, pending, approved, retired, ClientDocument, Table, update_where,
}
use fiscal_mind_agent.Documents.Queries.{
  update_one, is_listed, mark_collected, mark_claimed, resolve_not_required, retire, mark_approved,
  revert_to_pending,
}
use fiscal_mind_agent.Documents.Transactions.{
  DocumentInstance, threw, resolve_required, add_instances,
}
use fiscal_mind_agent.Documents.CompanyRows.{CompanySplitItem, split_by_company}
use fiscal_mind_agent.Documents.Life.{◌⟶*◌, Evolves}
use fiscal_mind_agent.Documents.Agent.{
  AgentOp, collect, claim_delivered, resolve, retire_row, approve_row, reopen_row, verdict, apply,
}
use fiscal_mind_agent.Documents.History.{run, IsSettled, run-Evolves, run-IsSettled}
use fiscal_mind_agent.Documents.Approval.{IsOpen, run-IsOpen}
use fiscal_mind_agent.Documents.Atomic.{IsWhole, resolve_required-IsWhole}
use fiscal_mind_agent.Documents.SplitAtomic.{IsWholeSplit, split_by_company-IsWhole}

queries : Unit {0}
unfolding run apply update_where update_one is_listed mark_collected mark_claimed
    resolve_not_required retire mark_approved revert_to_pending resolve_required add_instances
    split_by_company
queries = tt

abbrev row : String → DocumentStatus → ClientDocument
row id status = record {
  id = id;
  client_id = "c";
  name = "car";
  description = none;
  status = status;
  type_key = some "vehicle";
  paper_key = none;
  verification = none;
  resolution_evidence = none;
  created_at = 1;
  updated_at = 1;
}

abbrev checklist : Table
checklist = row "a" unresolved ∷ row "b" pending ∷ row "d" retired ∷ []

abbrev instance_of : String → Option String → DocumentInstance
instance_of name id = record {
  name = name;
  description = none;
  already_provided = false;
  paper_key = none;
  row_id = id;
}

abbrev two_cars : List (ℕ × AgentOp)
two_cars =
    (2, resolve "a" (instance_of "Mazda" none ∷ instance_of "Kia" (some "e") ∷ []) (some "q"))
    ∷ (3, collect ("a" ∷ "d" ∷ []))
    ∷ (4, approve_row "a" "ok")
    ∷ (5, reopen_row "b" "no")
    ∷ []

abbrev statuses : Table → List DocumentStatus
statuses t = map (λ r. r.status) t

-- The second car is inserted as pending; the retired row is not collected, the pending one is not
-- reopened, and the verified one is approved.
two_cars-statuses :
    statuses (run "c" two_cars checklist) ≡ approved ∷ pending ∷ retired ∷ pending ∷ []
unfolding queries
two_cars-statuses = refl

-- The second INSERT throws: the first car is not renamed either.
faulty_resolve :
    resolve_required 2 "a" "c"
      (instance_of "Mazda" none ∷ instance_of "Kia" none ∷ [])
      none
      checklist
    ≡ (checklist, threw)
unfolding queries
faulty_resolve = refl

run-Evolves_example : Evolves ◌⟶*◌ checklist (run "c" two_cars checklist)
run-Evolves_example = run-Evolves "c" two_cars checklist

run-IsSettled_example : Evolves IsSettled checklist (run "c" two_cars checklist)
run-IsSettled_example = run-IsSettled "c" two_cars checklist

abbrev unverified : List (ℕ × AgentOp)
unverified =
    (2, claim_delivered ("b" ∷ []))
    ∷ (3, collect ("b" ∷ []))
    ∷ (4, verdict "b" "unclear")
    ∷ (5, retire_row "b" "replaced")
    ∷ []

run-IsOpen_example : All IsOpen (run "c" unverified checklist)
run-IsOpen_example = run-IsOpen "c" unverified checklist refl (λ e. cc, (λ e. cc, (λ e. cc, tt)))

resolve_required-IsWhole_example :
    IsWhole 2 "a" "c"
      (instance_of "Mazda" none)
      (instance_of "Kia" (some "e") ∷ [])
      (some "q")
      checklist
      (resolve_required 2 "a" "c"
        (instance_of "Mazda" none ∷ instance_of "Kia" (some "e") ∷ [])
        (some "q")
        checklist)
resolve_required-IsWhole_example =
    resolve_required-IsWhole 2 "a" "c" (instance_of "Mazda" none)
      (instance_of "Kia" (some "e") ∷ []) (some "q") checklist

abbrev by_company : List CompanySplitItem
by_company =
    record {
      document_id = "b";
      new_name = "car — Harel";
      siblings = record { name = "car — Migdal"; evidence = "file"; row_id = some "e" } ∷ [];
    }
    ∷ record { document_id = "d"; new_name = "car — Clal"; siblings = [] }
    ∷ []

split_by_company-IsWhole_example :
    IsWholeSplit by_company checklist (split_by_company 2 "c" by_company checklist)
split_by_company-IsWhole_example = split_by_company-IsWhole 2 "c" by_company checklist

abbrev names : Table → List String
names t = map (λ r. r.name) t

by_company-names :
    names (split_by_company 2 "c" by_company checklist).0
    ≡ "car" ∷ "car — Harel" ∷ "car" ∷ "car — Migdal" ∷ []
unfolding queries
by_company-names = refl
