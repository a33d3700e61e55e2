-- ===== src/Decision/Ties.antt =====
-- When an answer ties no file, and when it carries no message (`answerTiesFiles`,
-- `filledMessageFields` of src/agents/declarationOfCapital/decisionSchema.ts).
use fiscal_mind_agent.Prelude.{
  Bool, true, false, ◌||◌, ◌≡◌, ◌↔◌, refl, String, Option, none, some, is_some, List, [], ◌∷◌,
  length, any, All, ltb, ◌==◌, arith,
}
use fiscal_mind_agent.Decision.Answer.{
  SelfEvidentFile, RawInstance, RawResolution, RawAddition, DecisionResponse,
}
use fiscal_mind_agent.Decision.Message.{has_words}
use fiscal_mind_agent.Decision.Gate.{
  changes_this_cycle, names_files, is_cited, answer_ties_files, has_message_field,
}

is_nil : {A : Type 0} (xs : List A) → ((length xs == 0) ≡ true) ↔ (xs ≡ [])
is_nil [] = (λ h. refl, λ h. refl)
is_nil (x ∷ xs) = (λ h. ground arith, λ h. cc h)

-- No instance names a file.
abbrev NameNoFile : List RawInstance → Type 0
NameNoFile is = All (λ (i : RawInstance). i.file_ids ≡ []) is

-- No document is claimed, no file is matched or named, and no self-evident file is cited.
abbrev pub TiesNothing : DecisionResponse → List (String × SelfEvidentFile) → Type 0
TiesNothing raw files =
    (raw.collected_document_ids ≡ [])
    × (raw.matched_files ≡ [])
    × All
        (λ (r : RawResolution).
          NameNoFile r.instances × (is_cited files r.proven_by_file_id ≡ false))
        raw.resolved_documents
    × All
        (λ (a : RawAddition). NameNoFile a.instances × (is_cited files a.proven_by_file_id ≡ false))
        raw.added_instances

names_files_iff : (is : List RawInstance) → (names_files is ≡ false) ↔ NameNoFile is
names_files_iff [] = (λ h. tt, λ h. refl)
names_files_iff (i ∷ is) = (
  λ h. ((is_nil i.file_ids).0 (ground arith), (names_files_iff is).0 (ground arith)),
  λ h. ground (arith, (is_nil i.file_ids).1 h.0, (names_files_iff is).1 h.1),
)

-- Two tests over a list, and what they say of each item.
both_none :
    {A : Type 0} (p q : A → Bool) (P : A → Type 0)
    → ((a : A) → (p a ≡ false) ↔ P a)
    → (xs : List A) → ((any p xs || any q xs) ≡ false) ↔ All (λ a. P a × (q a ≡ false)) xs
both_none p q P means [] = (λ h. tt, λ h. refl)
both_none p q P means (x ∷ xs) = (
  λ h. (((means x).0 (ground arith), ground arith), (both_none p q P means xs).0 (ground arith)),
  λ h. ground (arith, (means x).1 h.0.0, h.0.1, (both_none p q P means xs).1 h.1),
)

-- An answer ties a file unless it ties nothing in any of the ways.
pub answer_ties_files_iff :
    (raw : DecisionResponse) (files : List (String × SelfEvidentFile))
    → (answer_ties_files raw files ≡ false) ↔ TiesNothing raw files
unfolding answer_ties_files
answer_ties_files_iff raw files = (
  λ h. (
    (is_nil raw.collected_document_ids).0 (ground arith),
    (is_nil raw.matched_files).0 (ground arith),
    resolved.0 (ground arith),
    added.0 (ground arith),
  ),
  λ h. ground (
    arith,
    (is_nil raw.collected_document_ids).1 h.0,
    (is_nil raw.matched_files).1 h.1,
    resolved.1 h.2,
    added.1 h.3,
  ),
)
  where
    resolved :
        ((any (λ r. names_files r.instances) raw.resolved_documents
            || any (λ r. is_cited files r.proven_by_file_id) raw.resolved_documents)
          ≡ false)
        ↔ All
            (λ (r : RawResolution).
              NameNoFile r.instances × (is_cited files r.proven_by_file_id ≡ false))
            raw.resolved_documents
    resolved = both_none _ _ _ (λ r. names_files_iff r.instances) raw.resolved_documents

    added :
        ((any (λ a. names_files a.instances) raw.added_instances
            || any (λ a. is_cited files a.proven_by_file_id) raw.added_instances)
          ≡ false)
        ↔ All
            (λ (a : RawAddition).
              NameNoFile a.instances × (is_cited files a.proven_by_file_id ≡ false))
            raw.added_instances
    added = both_none _ _ _ (λ a. names_files_iff a.instances) raw.added_instances

abbrev pub NoMessage : DecisionResponse → Type 0
NoMessage raw =
    (has_words raw.whatsapp_text ≡ false) × (raw.whatsapp_template ≡ none) × (raw.send_at ≡ none)

pub is_none : {A : Type 0} (o : Option A) → is_some o ≡ false → o ≡ none
is_none none h = refl
is_none (some a) h = cc h

pub has_message_field-NoMessage :
    (raw : DecisionResponse) → has_message_field raw ≡ false → NoMessage raw
unfolding has_message_field
has_message_field-NoMessage raw h =
    (ground arith, is_none raw.whatsapp_template (ground arith), is_none raw.send_at (ground arith))

-- No change of the list and no statement.
abbrev pub ChangesNothing : DecisionResponse → Type 0
ChangesNothing raw =
    (raw.resolved_documents ≡ [])
    × (raw.added_instances ≡ [])
    × (raw.retired_documents ≡ [])
    × (raw.stated_costs ≡ [])
    × (raw.stated_vehicles ≡ [])

pub none_changed :
    (raw : DecisionResponse) → ltb 0 (changes_this_cycle raw) ≡ false → ChangesNothing raw
none_changed raw h = (
  (is_nil raw.resolved_documents).0 (ground arith),
  (is_nil raw.added_instances).0 (ground arith),
  (is_nil raw.retired_documents).0 (ground arith),
  (is_nil raw.stated_costs).0 (ground arith),
  (is_nil raw.stated_vehicles).0 (ground arith),
)
