-- ===== src/Sending/Rules.antt =====
-- The pure rules of a client's pending send: src/orchestration/holdRule.ts, resumeDecision.ts,
-- reviewWait.ts, whatsappWindow.ts, adminPause.ts and src/agents/killSwitch.ts.
use fiscal_mind_agent.Prelude.{
  ℕ, ◌+◌, ◌*◌, Bool, true, false, not, ◌&&◌, ◌||◌, String, Option, none, some, is_some, List, ◌∷◌,
  str_eq, ltb, ◌==◌, if◌then◌else◌,
}
use fiscal_mind_agent.Queue.{JobState, delayed, waiting, prioritized, waiting_children, active}

pub data EmailStatus : Type 0 where
  draft held sent received : EmailStatus

-- null = not subject to review
pub data ReviewStatus : Type 0 where
  pending approved superseded : ReviewStatus

pub data Channel : Type 0 where
  email whatsapp : Channel

pub record Draft : Type 0 where
  pub id : String
  pub status : EmailStatus
  pub review_status : Option ReviewStatus
  pub channel : Channel
  pub content_sid : Option String

-- A row of scheduled_jobs; the job id as the parts of `bullmq_job_id.split(':')`.
pub record MirrorRow : Type 0 where
  pub job_id : List String
  pub scheduled_for : ℕ
  pub send_failed : Bool

-- `const [, jobClientId, emailId] = bullmq_job_id.split(':')`, with neither part missing or empty.
abbrev pub parse_job_id : List String → Option (String × String)
parse_job_id (kind ∷ client ∷ email_id ∷ more) =
    if str_eq client "" || str_eq email_id "" then none else some (client, email_id)
parse_job_id _ = none

pub data ResumeAction : Type 0 where
  restore send_now already_queued keep redraft : ResumeAction

-- `QUEUED_STATES`
abbrev pub is_queued : JobState → Bool
is_queued delayed = true
is_queued waiting = true
is_queued waiting_children = true
is_queued active = true
is_queued prioritized = true
is_queued _ = false

abbrev pub is_queued_job : Option JobState → Bool
is_queued_job none = false
is_queued_job (some s) = is_queued s

unfoldable pub resume_action : Option MirrorRow → Option JobState → Bool → ℕ → ResumeAction
resume_action none job_state draft_held now = redraft
resume_action (some row) job_state draft_held now =
    if draft_held
    then keep
    else if is_queued_job job_state
    then already_queued
    else if not (is_some (parse_job_id row.job_id)) || is_some job_state
    then redraft
    else if ltb now row.scheduled_for
    then restore
    else send_now

pub record Instance : Type 0 where
  pub enabled : Bool
  pub agent_type : String
  pub admin_paused : Bool
  pub review_mode : Bool

pub record Client : Type 0 where
  pub goal_complete : Bool
  pub paused : Bool
  pub admin_paused : Bool
  pub wa_enabled : Bool
  pub wa_phone : Option String

-- `agentWorkBlocked`; the instance is the one that the client's id leads to, or null.
pub data AgentBlockedReason : Type 0 where
  kill_switch instance_disabled : AgentBlockedReason

abbrev is_enabled : Option Instance → Bool
is_enabled none = false
is_enabled (some i) = i.enabled

unfoldable pub agent_work_blocked : Bool → Option Instance → Option AgentBlockedReason
agent_work_blocked kill_switch_on inst =
    if kill_switch_on
    then some kill_switch
    else if is_enabled inst
    then none
    else some instance_disabled

abbrev pub supervised_type : String
supervised_type = "declaration_of_capital"

abbrev pub is_supervised_instance : Option Instance → Bool
is_supervised_instance none = false
is_supervised_instance (some i) = str_eq i.agent_type supervised_type

abbrev instance_paused : Option Instance → Bool
instance_paused none = false
instance_paused (some i) = i.admin_paused

unfoldable pub admin_comms_paused : Client → Option Instance → Bool
admin_comms_paused client inst =
    if is_supervised_instance inst then client.admin_paused || instance_paused inst else false

abbrev whatsapp_window_ms : ℕ
whatsapp_window_ms = 24 * 60 * 60 * 1000

abbrev window_close_time : Option ℕ → Option ℕ
window_close_time none = none
window_close_time (some at) = some (at + whatsapp_window_ms)

abbrev is_before : ℕ → Option ℕ → Bool
is_before now none = false
is_before now (some closes_at) = ltb now closes_at

unfoldable pub is_whatsapp_window_open : Option ℕ → ℕ → Bool
is_whatsapp_window_open last_inbound_at now = is_before now (window_close_time last_inbound_at)

unfoldable pub holds_first_message : Bool → Bool → ℕ → Bool
holds_first_message is_paused manual_kickoff contacted =
    is_paused && manual_kickoff && (contacted == 0)

unfoldable enrolls_paused : Bool → Bool → Bool
enrolls_paused manual_kickoff first_message_approval = manual_kickoff && first_message_approval

unfoldable kickoff_startable : Bool → Option ℕ → ℕ → Bool → Bool
kickoff_startable goal_pending drafting_since messages has_scheduled_job =
    goal_pending && not (is_some drafting_since) && (messages == 0) && not has_scheduled_job

abbrev is_pending : Option ReviewStatus → Bool
is_pending (some pending) = true
is_pending _ = false

unfoldable pub awaits_admin_review : Option Draft → Bool
awaits_admin_review none = false
awaits_admin_review (some d) = is_pending d.review_status
