-- ===== src/Queue.antt =====
-- The states of a BullMQ job, as `job.getState()` answers them (BullMQ itself is not modelled).
use fiscal_mind_agent.Prelude.{Bool, true, false}

pub data JobState : Type 0 where
  delayed waiting prioritized paused waiting_children active completed failed unknown : JobState

abbrev pub is_active : JobState → Bool
is_active active = true
is_active _ = false
