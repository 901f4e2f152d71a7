-- ===== src/Recovery.antt =====
-- What the recovery of interrupted tasks reads: Hub tasks, src/taskBoard.ts, and events of a run,
-- src/hubExecution.ts. A field that no part of the recovery reads is left out.

mod Tests
pub mod Router
pub mod Routed
pub mod Detected
pub mod Branch
pub mod Detector
pub mod Startup
pub mod Attempted
use arch_loop.Prelude.{ℕ, String, Option, List, Bool, true, false}

-- `HUB_TASK_STATUSES`
pub data HubTaskStatus : Type 0 where
  inbox needs_info ready_for_agent ready_for_human blocked implementing reviewing : HubTaskStatus
  waiting_for_merge merging publishing done wontfix failed sync_conflict : HubTaskStatus

-- `isCompletedHubStatus`
abbrev pub is_completed : HubTaskStatus → Bool
is_completed done = true
is_completed wontfix = true
is_completed _ = false

-- `HubTaskProjection`; of the claim, its branch and whether its state is active
pub record Task : Type 0 where
  pub id : String
  pub title : String
  pub hub_status : HubTaskStatus
  pub claim_branch : Option String
  pub claim_is_active : Bool
  pub remote_refs : List String

-- The `type` of a `HubTaskEvent`: those that tell of a completed phase, and the others by name.
pub data EventType : Type 0 where
  task_implementation_succeeded task_review_succeeded : EventType
  other_event : String → EventType

-- `HubTaskEvent`; its status is any text
pub record Event : Type 0 where
  pub type : EventType
  pub task_id : String
  pub status : String
