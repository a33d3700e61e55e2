-- ===== src/Cycle/Reply.antt =====
-- What a reply leaves on schedule (`scheduleReply` of src/agents/declarationOfCapital/plan.ts).
use fiscal_mind_agent.Prelude.{
  suc, Bool, true, false, ◌&&◌, ◌≡◌, ◌⊎◌, inl, inr, refl, ◌∙◌, String, arith, Option, none, some,
  List, [], ◌∷◌, ap, ◌++◌, ◌+◌, if-cases,
}
use fiscal_mind_agent.Decision.Answer.{
  AttestationDecision, requested, confirmed_by, Changes, FollowUpMessage, TaxFetchDecision,
}
use fiscal_mind_agent.Cycle.Run.{
  Step, and_then, call, PlanRun, CycleCall, schedule_draft, planner_step, tax_fetch_action,
  attestation_requested,
}
use fiscal_mind_agent.Cycle.Follow.{draft_reply, Planner, schedule_reply, apply_attestation_request}
use fiscal_mind_agent.Cycle.Goal.{quiet, view}
use fiscal_mind_agent.Cycle.Kept.{drafts, drafts-append}

-- The calls of a reply that come after its draft, and the draft itself, come through.
abbrev pub reply_lands : Planner → Bool
reply_lands p = p.draft_lands && p.stamp_lands && p.fetch_lands

module _ (p : Planner) where
  -- A reply with its draft on schedule, up to some of its calls.
  abbrev Drafted : PlanRun → PlanRun × Bool → Type 0
  Drafted s (s', through) =
      (view s' ≡ (s.goal_complete, suc (drafts s.calls)))
      × ((through ≡ true) ⊎ (reply_lands p ≡ false))

  and_then-Drafted :
      (s : PlanRun) (r : PlanRun × Bool) (next : Step)
      → Drafted s r
      → ((t : PlanRun) → Drafted s (t, true) → Drafted s (next t))
      → Drafted s (and_then r next)
  and_then-Drafted s (t, false) next h more = h
  and_then-Drafted s (t, true) next h more = more t h

  draft_reply-Drafted :
      (message : FollowUpMessage) (at : String) (s : PlanRun)
      → Drafted s (draft_reply p message at s)
  draft_reply-Drafted message at s =
      if-cases {A = PlanRun × Bool} (Drafted s) p.draft_lands
        (λ lands. (
          one_more (schedule_draft message (p.roll_send_at at) ∷ planner_step "send_reply" ∷ [])
              refl,
          inl refl,
        ))
        (λ throws.
          (one_more (schedule_draft message (p.roll_send_at at) ∷ []) refl, inr (ground arith)))
    where
      one_more :
          (cs : List CycleCall)
          → drafts cs ≡ 1
          → view (call cs s) ≡ (s.goal_complete, suc (drafts s.calls))
      one_more cs one = ap (λ n. (s.goal_complete, n)) (more (drafts-append s.calls cs))
        where
          more :
              drafts (s.calls ++ cs) ≡ drafts s.calls + drafts cs
              → drafts (s.calls ++ cs) ≡ suc (drafts s.calls)
          more e = omega (arith, e, one)

  requested-Drafted :
      (d : Option AttestationDecision) (s t : PlanRun)
      → Drafted s (t, true)
      → Drafted s (apply_attestation_request p d t)
  requested-Drafted none s t h = h
  requested-Drafted (some requested) s t h =
      if-cases {A = PlanRun × Bool} (Drafted s) p.stamp_lands
        (λ lands. (
          quiet _ _ (attestation_requested ∷ planner_step "apply_attestation" ∷ []) refl ∙ h.0,
          inl refl,
        ))
        (λ throws. (h.0, inr (ground arith)))
  requested-Drafted (some (confirmed_by evidence)) s t h = h

  pub replied :
      (c : Changes) (fetch : Option TaxFetchDecision) (message : FollowUpMessage) (at : String)
      (s : PlanRun)
      → Drafted s (schedule_reply p c fetch message at s)
  unfolding schedule_reply
  replied c fetch message at s =
      and_then-Drafted s _ _
        (and_then-Drafted s (draft_reply p message at s) (apply_attestation_request p c.attestation)
          (draft_reply-Drafted message at s) (requested-Drafted c.attestation s))
        λ t h. (quiet _ _ (tax_fetch_action fetch ∷ []) refl ∙ h.0, fetched)
    where
      fetched : (p.fetch_lands ≡ true) ⊎ (reply_lands p ≡ false)
      fetched = ground arith
