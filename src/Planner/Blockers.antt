-- ===== src/Planner/Blockers.antt =====
-- How the blockers that a task declares are resolved on the board, `resolveDeclaredBlockers` of
-- src/hubBatchPlannerCandidates.ts.
use text.Mathlib.Text.{starts_with}
use arch_loop.Prelude.{
  String, Option, none, some, List, [], ◌∷◌, Bool, not, if◌then◌else◌, ◌==◌, find, keep, ◌++◌,
}
use arch_loop.Recovery.{HubTaskStatus, is_completed, Task}
use arch_loop.Planner.{contains, task_by_id}

-- `HubBatchPlannerResolvedBlocker`
pub record ResolvedBlocker : Type 0 where
  pub ref : String
  pub task_id : String
  pub title : String
  pub hub_status : HubTaskStatus
  pub claim_is_active : Bool

pub record Resolution : Type 0 where
  pub blockers_resolved : List ResolvedBlocker
  pub open_blockers : List String
  pub unknown_blockers : List String

-- `resolveDeclaredBlocker`: of the tasks of the board, the first that has the remote reference, or
-- the last of the id
unfoldable pub resolve_blocker : List Task → String → Option Task
resolve_blocker board ref =
    if starts_with ref "github#"
    then find (λ t. contains t.remote_refs ref) board
    else task_by_id board ref

-- `[...new Set(values)]`
unfoldable pub unique : List String → List String
unique [] = []
unique (x ∷ xs) = x ∷ keep (λ y. not (y == x)) (unique xs)

abbrev blocker_of : String → Task → ResolvedBlocker
blocker_of ref t = record {
  ref = ref;
  task_id = t.id;
  title = t.title;
  hub_status = t.hub_status;
  claim_is_active = t.claim_is_active;
}

-- one round of the loop of `resolveDeclaredBlockers`
unfoldable pub add_blocker : String → Option Task → Resolution → Resolution
add_blocker ref none r = record r { unknown_blockers = r.unknown_blockers ++ (ref ∷ []) }
add_blocker ref (some t) r = record r {
  blockers_resolved = r.blockers_resolved ++ (blocker_of ref t ∷ []);
  open_blockers =
      if is_completed t.hub_status then r.open_blockers else r.open_blockers ++ (ref ∷ []);
}

unfoldable pub resolve_each : List Task → List String → Resolution → Resolution
unfolding add_blocker resolve_blocker
resolve_each board [] r = r
resolve_each board (ref ∷ refs) r =
    resolve_each board refs (add_blocker ref (resolve_blocker board ref) r)

abbrev pub no_blockers : Resolution
no_blockers = record { blockers_resolved = []; open_blockers = []; unknown_blockers = [] }

-- `resolveDeclaredBlockers`; without a board every blocker is unknown
unfoldable pub resolve_declared : List String → Option (List Task) → Resolution
unfolding resolve_each unique
resolve_declared refs none = record {
  blockers_resolved = [];
  open_blockers = [];
  unknown_blockers = refs;
}
resolve_declared refs (some board) =
    let r = resolve_each board refs no_blockers in
    record r {
      open_blockers = unique r.open_blockers;
      unknown_blockers = unique r.unknown_blockers;
    }
