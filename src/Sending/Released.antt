-- ===== src/Sending/Released.antt =====
-- The approval of a parked message (src/api/reviewAdmin.ts) and the firing after it.
use fiscal_mind_agent.Prelude.{
  ap, ℕ, true, false, ◌≡◌, inr, refl, sym, String, Option, none, some, List, [], ◌∷◌, ◌++◌, any,
}
use mathlib.Core.Path.{subst}
use fiscal_mind_agent.Sending.Rules.{
  Channel, email, whatsapp, draft, held, pending, approved, Draft, MirrorRow, Instance, Client,
  awaits_admin_review, agent_work_blocked, admin_comms_paused,
}
use fiscal_mind_agent.Sending.Mirror.{Call, add_send, publish_updated, SendState}
use fiscal_mind_agent.Sending.Worker.{World, on_scheduled_send}
use fiscal_mind_agent.Sending.Gates.{is_delivery, CanCarry, IsCleared, delivered_iff}
use fiscal_mind_agent.Sending.Review.{job_of, approve_review_message, approve_pending}

-- The draft that a parked one becomes on its approval.
abbrev approved_draft : Draft → Draft
approved_draft d = record d { review_status = some approved; status = draft }

-- What the approval of a parked draft leaves.
abbrev fired : Draft → String → ℕ → List Call → SendState
fired d id now calls = record {
  mirror = some (record {
    job_id = job_of "send_email_approved" id d.id;
    scheduled_for = now;
    send_failed = false;
  });
  draft = some (approved_draft d);
  calls =
      (calls ++ add_send (job_of "send_email_approved" id d.id) id d.id 0 ∷ [])
      ++ publish_updated ∷ [];
}

approve-parked :
    (inst : Option Instance) (c : Client) (d : Draft) (m : Option MirrorRow) (calls : List Call)
    (id : String) (now : ℕ)
    → d.status ≡ held
    → d.review_status ≡ some pending
    → c.goal_complete ≡ false
    → c.paused ≡ false
    → admin_comms_paused c inst ≡ false
    → (approve_review_message
        (some c)
        inst
        id
        now
        (some d)
        (record { mirror = m; draft = some d; calls = calls })).0
      ≡ fired d id now calls
unfolding approve_review_message approve_pending awaits_admin_review
approve-parked inst c d m calls id now parked waits going running unpaused =
    rw (waits, going, running, unpaused, parked) refl

added_twice : (calls : List Call) (a b : Call) → (calls ++ a ∷ []) ++ b ∷ [] ≡ calls ++ a ∷ b ∷ []
added_twice [] a b = refl
added_twice (c ∷ calls) a b = ap (λ l. c ∷ l) (added_twice calls a b)

-- Approving a parked message sends it: its row falls due at once under a job of its own, the draft is
-- approved, and exactly that job is put on the queue, without a delay; and when that job fires, with the client and the agent running, the channel able to carry the message and the
-- provider willing, the message goes out.
pub approve_review_message-delivers :
    (w : World) (c : Client) (d : Draft) (m : Option MirrorRow) (calls : List Call) (id : String)
    (now : ℕ)
    → w.client ≡ some c
    → d.status ≡ held
    → d.review_status ≡ some pending
    → c.goal_complete ≡ false
    → c.paused ≡ false
    → agent_work_blocked w.kill_switch_on w.instance ≡ none
    → admin_comms_paused c w.instance ≡ false
    → CanCarry d.channel w c d
    → w.accepts ≡ true
    → let s =
        (approve_review_message
          (some c)
          w.instance
          id
          now
          (some d)
          (record { mirror = m; draft = some d; calls = calls })).0 in
      (s.mirror
        ≡ some (record {
          job_id = job_of "send_email_approved" id d.id;
          scheduled_for = now;
          send_failed = false;
        }))
      × (s.draft ≡ some (record d { status = draft; review_status = some approved }))
      × (s.calls
          ≡ calls
            ++ add_send (job_of "send_email_approved" id d.id) id d.id 0 ∷ publish_updated ∷ [])
      × (any is_delivery (on_scheduled_send w s).effects ≡ true)
approve_review_message-delivers w c d m calls id now is_it parked waits going running free unpaused
      carries takes =
    rw (approve-parked w.instance c d m calls id now parked waits going running unpaused) (
      refl,
      refl,
      added_twice calls _ _,
      (delivered_iff w _).1 (
          subst (λ o. IsCleared w o (some (approved_draft d))) (sym is_it)
            (going, running, free, unpaused, (refl, inr refl, carry d.channel carries, takes))),
    )
  where
    carry : (ch : Channel) → CanCarry ch w c d → CanCarry ch w c (approved_draft d)
    carry email k = k
    carry whatsapp k = k
