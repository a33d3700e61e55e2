-- ===== src/Planning/Conditions.antt =====
-- When the planner runs, when its draft may be queued, and when its job looks again.
use fiscal_mind_agent.Prelude.{
  Bool, true, false, not, ◌&&◌, ◌||◌, ◌≡◌, ◌⊎◌, ◌↔◌, refl, Option, none, some, any, if◌then◌else◌,
  arith,
}
use fiscal_mind_agent.Sending.Rules.{Instance, Client, admin_comms_paused}
use fiscal_mind_agent.Planning.Plan.{
  PlanCall, plan_next_action, PlanWorld, Planned, draft_next, plan_client, set_future_email,
  is_held_first_message_client,
}

abbrev pub is_plan : PlanCall → Bool
is_plan (plan_next_action hold) = true
is_plan _ = false

-- A plan whose draft may be queued.
abbrev pub is_queued_plan : PlanCall → Bool
is_queued_plan (plan_next_action hold) = not hold
is_queued_plan _ = false

-- The client can be planned for: live, not complete, not stopped by the admin, and not paused unless it
-- holds its first message; and its agent loads.
abbrev pub IsPlannable : Option Client → PlanWorld → Type 0
IsPlannable none w = ⊥
IsPlannable (some c) w =
    (c.goal_complete ≡ false)
    × ((c.paused ≡ false) ⊎ (is_held_first_message_client c w ≡ true))
    × (admin_comms_paused c w.instance ≡ false)
    × (w.loads ≡ true)

-- A live client that nothing stops.
abbrev IsActive : Option Client → Option Instance → Type 0
IsActive none inst = ⊥
IsActive (some c) inst =
    (c.goal_complete ≡ false) × (c.paused ≡ false) × (admin_comms_paused c inst ≡ false)

calls_any : (PlanCall → Bool) → Planned → Bool
calls_any p r = any p r.calls

calls_any-if :
    (p : PlanCall → Bool) (b : Bool) (r r' : Planned)
    → calls_any p (if b then r else r') ≡ (if b then calls_any p r else calls_any p r')
calls_any-if p true r r' = refl
calls_any-if p false r r' = refl

draft_next_iff :
    (hold : Bool) (w : PlanWorld)
    → (calls_any is_plan (draft_next hold w) ≡ true) ↔ (w.loads ≡ true)
unfolding calls_any
draft_next_iff hold w = ground arith

draft_next-queued :
    (hold : Bool) (w : PlanWorld)
    → (calls_any is_queued_plan (draft_next hold w) ≡ true) ↔ ((w.loads ≡ true) × (hold ≡ false))
unfolding calls_any
draft_next-queued hold w = ground arith

plan_client_iff :
    (o : Option Client) (w : PlanWorld)
    → (calls_any is_plan (plan_client o w) ≡ true) ↔ IsPlannable o w
unfolding calls_any
plan_client_iff none w = ground arith
plan_client_iff (some c) w =
    rw
      (
        calls_any-if is_plan c.goal_complete _ _,
        calls_any-if is_plan (c.paused && not (is_held_first_message_client c w)) _ _,
        calls_any-if is_plan (admin_comms_paused c w.instance) _ _,
      )
      (gate _ _ _ _ _ (draft_next_iff (w.hold || c.paused) w))
  where
    gate :
        {P : Type 0} (g p h a x : Bool)
        → (x ≡ true) ↔ P
        → ((if g then false else if p && not h then false else if a then false else x) ≡ true)
          ↔ ((g ≡ false) × ((p ≡ false) ⊎ (h ≡ true)) × (a ≡ false) × P)
    gate g p h a x hx = ground arith

plan_client-queued :
    (o : Option Client) (w : PlanWorld)
    → calls_any is_queued_plan (plan_client o w) ≡ true
    → (w.hold ≡ false) × IsActive o w.instance
unfolding calls_any
plan_client-queued none w h = ground arith
plan_client-queued (some c) w h =
    gate c.goal_complete c.paused (is_held_first_message_client c w)
      (admin_comms_paused c w.instance) w.hold _
      (λ k. ((draft_next-queued (w.hold || c.paused) w).0 k).1)
      (rw
        (
          calls_any-if is_queued_plan c.goal_complete _ _,
          calls_any-if is_queued_plan (c.paused && not (is_held_first_message_client c w)) _ _,
          calls_any-if is_queued_plan (admin_comms_paused c w.instance) _ _,
        )
        at h)
  where
    gate :
        (g p h a hold x : Bool)
        → (x ≡ true → (hold || p) ≡ false)
        → (if g then false else if p && not h then false else if a then false else x) ≡ true
        → (hold ≡ false) × ((g ≡ false) × (p ≡ false) × (a ≡ false))
    gate g p h a hold x hx k = ground arith

-- `setFutureEmail` runs the planner exactly for a client that is live, not complete, not paused (or
-- paused but holding its first message) and not stopped by the admin, and whose agent loads.
pub set_future_email_iff :
    (w : PlanWorld) → (any is_plan (set_future_email w).calls ≡ true) ↔ IsPlannable w.client w
unfolding set_future_email calls_any
set_future_email_iff w = plan_client_iff w.client w

-- A plan whose draft may be queued is never made for a paused client, nor for one that is complete or
-- stopped by the admin, nor under the caller's hint to hold it.
set_future_email-queues :
    (w : PlanWorld)
    → any is_queued_plan (set_future_email w).calls ≡ true
    → (w.hold ≡ false) × IsActive w.client w.instance
unfolding set_future_email calls_any
set_future_email-queues w h = plan_client-queued w.client w h
