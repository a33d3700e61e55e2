-- ===== src/Cycle/Completion.antt =====
-- How a cycle ends (`completeGoalIfDone` and `planFollowUp` of
-- src/agents/declarationOfCapital/plan.ts).
use mathlib.Core.Path.{subst}
use fiscal_mind_agent.Prelude.{
  ℕ, zero, suc, Bool, true, false, not, ◌&&◌, ◌≡◌, ◌⊎◌, inl, inr, refl, ◌∙◌, arith, Option, none,
  some, List, [], ◌∷◌, length, all, All, ◌==◌, and-left, and-right, Bool-cases, if◌then◌else◌, ap,
  if-cases,
}
use fiscal_mind_agent.Documents.Table
use fiscal_mind_agent.Documents.Table.{
  DocumentStatus, unresolved, not_required, pending, claimed, approved, stated, retired,
  ClientDocument, Table, is_one_of,
}
use fiscal_mind_agent.Decision.Answer.{
  Changes, TaxFetchDecision, NormalizedDecision, declines, completes, collects, follows_up,
}
use fiscal_mind_agent.Ties.Evidence.{FilePair}
use fiscal_mind_agent.Cycle.Run.{
  Step, call, PlanRun, is_settled, all_documents_settled, load_planning_context, CycleCall,
  tax_fetch_action, sync_status, publish_updated, goal_completed, handle_client_decline,
}
use fiscal_mind_agent.Cycle.Decide.{pick_verification_targets}
use fiscal_mind_agent.Cycle.Follow.{
  GoalCheck, ended, interrupted, Planner, not_done, contradicted, ask_planner, apply_changes,
  is_goal_done, files_collected, complete_goal_if_done, schedule_reply, after_goal_check,
  verify_targets, go_on, answer_cycle, with_answer, plan_follow_up, closing,
}
use fiscal_mind_agent.Cycle.Reply.{reply_lands, replied}
use fiscal_mind_agent.Cycle.Goal.{
  quiet, view, says, apply_changes-Kept, collect_files-Kept, verify_targets-Kept,
}
use fiscal_mind_agent.Cycle.Kept.{drafts}

abbrev IsClosed : DocumentStatus → Type 0
IsClosed s = (s ≡ approved) ⊎ (s ≡ stated) ⊎ (s ≡ not_required) ⊎ (s ≡ retired)

closed :
    (s : DocumentStatus)
    → is_one_of (approved ∷ stated ∷ not_required ∷ retired ∷ []) s ≡ true
    → IsClosed s
closed unresolved h = absurd (cc h)
closed not_required h = inr (inr (inl refl))
closed pending h = absurd (cc h)
closed claimed h = absurd (cc h)
closed Table.collected h = absurd (cc h)
closed approved h = inl refl
closed stated h = inr (inl refl)
closed retired h = inr (inr (inr refl))

settled_rows :
    (t : Table) → all is_settled t ≡ true → All (λ (d : ClientDocument). IsClosed d.status) t
settled_rows [] h = tt
settled_rows (d ∷ t) h = (closed d.status (and-left _ _ h), settled_rows t (and-right _ _ h))

-- The list of the cycle is empty, or each of its rows is closed and an attestation is on record as confirmed.
abbrev pub IsComplete : PlanRun → Type 0
IsComplete s =
    (s.documents ≡ [])
    ⊎ (All (λ (d : ClientDocument). IsClosed d.status) s.documents
        × (s.attestation_confirmed ≡ true))

both_hold :
    (empty goal closed_all confirmed : Bool)
    → empty ≡ false
    → (if empty then goal else (not empty && closed_all) && confirmed) ≡ true
    → (closed_all ≡ true) × (confirmed ≡ true)
both_hold empty goal closed_all confirmed h k = (ground arith, ground arith)

complete :
    (goal : Bool) (l : Table) (confirmed : Bool)
    → (if length l == 0 then goal else (not (length l == 0) && all is_settled l) && confirmed)
      ≡ true
    → (l ≡ []) ⊎ (All (λ (d : ClientDocument). IsClosed d.status) l × (confirmed ≡ true))
complete goal [] confirmed h = inl refl
complete goal (d ∷ l) confirmed h =
    let (settled, attested) =
      both_hold (length (d ∷ l) == 0) goal (all is_settled (d ∷ l)) confirmed (ground arith) h in
    inr (settled_rows (d ∷ l) settled, attested)

-- How a cycle can end: with the goal and the schedule as they were; with the goal completed over a list
-- that is complete, and nothing drafted; or with one message drafted, and then through unless a call of
-- the reply throws.
abbrev CycleEnd : Planner → PlanRun → PlanRun × Bool → Type 0
CycleEnd p s (s', through) =
    (view s' ≡ view s)
    ⊎ (IsComplete s' × (view s' ≡ (true, drafts s.calls)))
    ⊎ ((view s' ≡ (s.goal_complete, suc (drafts s.calls)))
        × ((through ≡ true) ⊎ (reply_lands p ≡ false)))

closing-drafts : (s : PlanRun) (p : Planner) → drafts (closing p s) ≡ 0
closing-drafts s p =
    if-cases {A = List CycleCall} (λ cs. drafts cs ≡ 0) (length s.documents == 0) (λ _. refl)
      (λ _. refl)

module _ (p : Planner)
    -- the split of an item neither completes the goal nor drafts a message
    (split_keeps : (pairs : List FilePair) (s : PlanRun)
      → view (p.split_items_by_company pairs s).0 ≡ view s) where
  -- The check of the goal, and what follows it.
  checked :
      (goal : Bool) (fetch : Option TaxFetchDecision) (reply : Step)
      → ((s : PlanRun) → CycleEnd p s (reply s))
      → (s : PlanRun)
      → CycleEnd p s (after_goal_check p (complete_goal_if_done p goal fetch s) reply)
  unfolding complete_goal_if_done all_documents_settled
  checked goal fetch reply ends s = elim (Bool-cases (is_goal_done p goal s)) [
    | inl done ↦ rw done (landed done)
    | inr unfinished ↦ rw unfinished (unanswered goal)
  ]
    where
      landed :
          is_goal_done p goal s ≡ true
          → CycleEnd p s (
              after_goal_check p
                (if p.fetch_lands && p.goal_lands
                  then (
                    call
                        (tax_fetch_action fetch
                          ∷ sync_status
                          ∷ publish_updated
                          ∷ goal_completed
                          ∷ closing p s)
                        (record s { goal_complete = true }),
                    ended,
                  )
                  else (call (tax_fetch_action fetch ∷ []) s, interrupted))
                reply)
      landed done =
          if-cases {A = PlanRun × GoalCheck} (λ x. CycleEnd p s (after_goal_check p x reply))
            (p.fetch_lands && p.goal_lands)
            (λ lands. inr (
              inl (
                complete goal s.documents s.attestation_confirmed done,
                says
                    (tax_fetch_action fetch
                      ∷ sync_status
                      ∷ publish_updated
                      ∷ goal_completed
                      ∷ closing p s)
                    (record s { goal_complete = true }) (omega (arith, closing-drafts s p)),
              )))
            (λ throws. inl (says (tax_fetch_action fetch ∷ []) s refl))

      unanswered :
          (goal : Bool)
          → CycleEnd p s (after_goal_check p (s, if goal then contradicted else not_done) reply)
      unanswered true = inl refl
      unanswered false = ends s

  -- A run that starts where the view is that of `s` comes to the same for `s`.
  from : (s t : PlanRun) (x : PlanRun × Bool) → view t ≡ view s → CycleEnd p t x → CycleEnd p s x
  from s t x e (inl kept) = inl (kept ∙ e)
  from s t x e (inr (inl now)) = inr (inl (now.0, now.1 ∙ ap (λ v. (true, v.1)) e))
  from s t x e (inr (inr one)) = inr (inr (one.0 ∙ ap (λ v. (v.0, suc v.1)) e, one.1))

  -- Whatever a step comes to has the outcome.
  abbrev Comes : PlanRun → Option (PlanRun × Bool) → Type 0
  Comes s r = (x : PlanRun × Bool) → r ≡ some x → CycleEnd p s x

  comes : (s : PlanRun) (y : PlanRun × Bool) → CycleEnd p s y → Comes s (some y)
  comes s y h x e = subst (CycleEnd p s) (some-injective e) h
    where
      some-injective : {x y : PlanRun × Bool} → Option.some x ≡ some y → x ≡ y
      some-injective h = cc h

  stepped :
      (s : PlanRun) (r : PlanRun × Bool) (next : PlanRun → Option (PlanRun × Bool))
      → view r.0 ≡ view s
      → ((t : PlanRun) → view t ≡ view s → Comes s (next t))
      → Comes s (go_on p r next)
  stepped s (t, false) next kept ends = comes s (t, false) (inl kept)
  stepped s (t, true) next kept ends = ends t kept

  -- The check of the goal after the files.
  closes :
      (after goal : Bool) (c : Changes) (fetch : Option TaxFetchDecision) (reply : Step)
      → ((s : PlanRun) → CycleEnd p s (reply s))
      → (s t : PlanRun) → view t ≡ view s
      → Comes s (
          some (
            after_goal_check p
              (complete_goal_if_done p goal fetch (files_collected p after c t).0)
              reply))
  closes after goal c fetch reply keeps s t kept =
      let t' = (files_collected p after c t).0 in
      let y = after_goal_check p (complete_goal_if_done p goal fetch t') reply in
      comes s y (
        from s t' y (collect_files-Kept p split_keeps after c t ∙ kept)
          (checked goal fetch reply keeps t'))

  answered :
      (again : PlanRun → Option (PlanRun × Bool)) (after : Bool) (d : NormalizedDecision)
      (s : PlanRun)
      → ((t : PlanRun) → Comes t (again t))
      → Comes s (answer_cycle p again after d s)
  answered again after declines s ends =
      comes s _ (inl (quiet _ _ (handle_client_decline ∷ []) refl))
  answered again after (completes c fetch) s ends =
      stepped s (apply_changes p c s) _ (apply_changes-Kept p c s)
        (closes after true c fetch (λ x. (x, true)) (λ x. inl refl) s)
  answered again after (follows_up c fetch message at) s ends =
      stepped s (apply_changes p c s) _ (apply_changes-Kept p c s) (
        closes after false c fetch (schedule_reply p c fetch message at)
          (λ x. inr (inr (replied p c fetch message at x))) s)
  answered again after (collects c) s ends =
      stepped s (apply_changes p c s) _ (apply_changes-Kept p c s) λ t kept.
        let (t', o) = files_collected p after c t in
        let ts = pick_verification_targets p.world.files o in
        let e =
          verify_targets-Kept p split_keeps ts t'
          ∙ collect_files-Kept p split_keeps after c t
          ∙ kept in
        again_if p.client_exists (verify_targets p ts t') e
    where
      again_if :
          (b : Bool) (t : PlanRun)
          → view t ≡ view s
          → Comes s (if b then again t else some (t, true))
      again_if true t e = λ x h. from s t x e (ends t x h)
      again_if false t e = comes s (t, true) (inl e)

  with_any :
      (again : PlanRun → Option (PlanRun × Bool)) (after : Bool) (o : Option NormalizedDecision)
      (s : PlanRun)
      → ((t : PlanRun) → Comes t (again t))
      → Comes s (with_answer p again after o s)
  with_any again after none s ends = comes s (s, false) (inl refl)
  with_any again after (some d) s ends = answered again after d s ends

  every_cycle : (fuel : ℕ) (after : Bool) (s : PlanRun) → Comes s (plan_follow_up p fuel after s)
  unfolding plan_follow_up load_planning_context
  every_cycle zero after s = λ x h. absurd (cc h)
  every_cycle (suc fuel) after s = stepped s (load_planning_context p.world s) _ refl λ t kept x h.
      from s t x kept (
        with_any (plan_follow_up p fuel true) after (ask_planner p after t) t
          (every_cycle fuel true) x h)

  -- A run of the planner, with the cycle after a verification, completes an open goal only over a list of
  -- which every row is approved, stated, not required or retired, with the client's attestation on
  -- record as confirmed, or over an empty list. (The record says that a summary was confirmed, which
  -- need not have been one of this very list.) The split of items by company is taken to leave the
  -- goal and the calls that draft a message alone.
  pub plan_follow_up-IsComplete :
      (fuel : ℕ) (after_verification : Bool) (s s' : PlanRun) (went_through : Bool)
      → plan_follow_up p fuel after_verification s ≡ some (s', went_through)
      → s.goal_complete ≡ false
      → s'.goal_complete ≡ true
      → IsComplete s'
  plan_follow_up-IsComplete fuel after s s' b h before now =
      elim (every_cycle fuel after s (s', b) h) [
        | inl kept ↦ absurd (cc (ap (λ v. v.0) kept, before, now))
        | inr (inl complete) ↦ complete.0
        | inr (inr one) ↦ absurd (cc (ap (λ v. v.0) one.0, before, now))
      ]

  -- A run of the planner, with the cycle after a verification, puts at most one message on schedule; where
  -- it puts one, the goal stays as it was, and the run goes through unless a call of the reply throws: the
  -- draft itself, the stamp of the attestation's request, or the tax fetch step. The split of items by
  -- company is taken to leave the goal and the calls that draft a message alone.
  pub plan_follow_up-drafts :
      (fuel : ℕ) (after_verification : Bool) (s s' : PlanRun) (went_through : Bool)
      → plan_follow_up p fuel after_verification s ≡ some (s', went_through)
      → (drafts s'.calls ≡ drafts s.calls)
        ⊎ ((drafts s'.calls ≡ suc (drafts s.calls))
            × (s'.goal_complete ≡ s.goal_complete)
            × ((went_through ≡ true) ⊎ (reply_lands p ≡ false)))
  plan_follow_up-drafts fuel after s s' b h = elim (every_cycle fuel after s (s', b) h) [
    | inl kept ↦ inl (ap (λ v. v.1) kept)
    | inr (inl complete) ↦ inl (ap (λ v. v.1) complete.1)
    | inr (inr one) ↦ inr (ap (λ v. v.1) one.0, ap (λ v. v.0) one.0, one.1)
  ]
