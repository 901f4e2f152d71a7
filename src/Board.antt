-- ===== src/Board.antt =====
-- Hub tasks on the board, src/taskBoard.ts: the texts that name statuses.
pub mod Metadata
pub mod Status
pub mod Projection
pub mod Written
pub mod Transition
pub mod Labels
pub mod Cleared
pub mod Lookup
pub mod Store
pub mod Stored
pub mod Moved
pub mod Carried
pub mod Settled
pub mod Projected
pub mod Sample
mod Tests
use Prim.Native.String.{[], ◌∷◌}
use arch_loop.Prelude.{
  ℕ, Bool, true, false, not, ◌||◌, ◌==◌, Char, code, String, Option, none, some, List, any, find,
  same_number, if◌then◌else◌, or_option,
}
use arch_loop.Prelude.Trim.{trim, is_space}
use arch_loop.Prelude.Json.{Json, Fields, text, member}
use arch_loop.Recovery.{
  HubTaskStatus, inbox, needs_info, ready_for_agent, ready_for_human, blocked, implementing,
  reviewing, waiting_for_merge, merging, publishing, done, wontfix, failed, sync_conflict,
}
use arch_loop.Recovery.Branch.{lower}

-- `replace(/[\s-]+/g, "_")`; the flag says that the text before ends in a replaced run
unfoldable pub underscore_runs : Bool → String → String
unfolding is_space
underscore_runs in_run [] = []
underscore_runs in_run (c ∷ s) =
    let replaced = is_space (code c) || same_number (code c) b'-' in
    let rest = underscore_runs replaced s in
    if replaced then if in_run then rest else "_" ∷ rest else c ∷ rest

-- `normalizeKey`; lower case is exact for texts that are compared with ASCII ones
unfoldable pub normalize_key : String → String
unfolding trim lower underscore_runs
normalize_key s = underscore_runs false (lower (trim s))

-- The statuses as texts, the members of `HUB_TASK_STATUSES`.
abbrev pub status_text : HubTaskStatus → String
status_text inbox = "inbox"
status_text needs_info = "needs_info"
status_text ready_for_agent = "ready_for_agent"
status_text ready_for_human = "ready_for_human"
status_text blocked = "blocked"
status_text implementing = "implementing"
status_text reviewing = "reviewing"
status_text waiting_for_merge = "waiting_for_merge"
status_text merging = "merging"
status_text publishing = "publishing"
status_text done = "done"
status_text wontfix = "wontfix"
status_text failed = "failed"
status_text sync_conflict = "sync_conflict"

abbrev pub hub_task_statuses : List HubTaskStatus
hub_task_statuses = List.◌∷◌ inbox (
    List.◌∷◌ needs_info (
      List.◌∷◌ ready_for_agent (
        List.◌∷◌ ready_for_human (
          List.◌∷◌ blocked (
            List.◌∷◌ implementing (
              List.◌∷◌ reviewing (
                List.◌∷◌ waiting_for_merge (
                  List.◌∷◌ merging (
                    List.◌∷◌ publishing (
                      List.◌∷◌ done (
                        List.◌∷◌ wontfix
                          (List.◌∷◌ failed (List.◌∷◌ sync_conflict List.[])))))))))))))

-- `HUB_TASK_STATUS_SET.has`, with the text as a status
abbrev pub status_named : String → Option HubTaskStatus
status_named t = find (λ s. status_text s == t) hub_task_statuses

-- `HUB_STATUS_LABELS`
abbrev pub status_label : HubTaskStatus → String
status_label inbox = "needs-triage"
status_label needs_info = "needs-info"
status_label ready_for_agent = "ready-for-agent"
status_label ready_for_human = "ready-for-human"
status_label blocked = "blocked"
status_label implementing = "implementing"
status_label reviewing = "reviewing"
status_label waiting_for_merge = "waiting-for-merge"
status_label merging = "merging"
status_label publishing = "publishing"
status_label failed = "failed"
status_label done = "done"
status_label wontfix = "wontfix"
status_label sync_conflict = "sync-conflict"

-- `STATUS_LABEL_TO_HUB_STATUS[key]`, for a key that no JavaScript object inherits
unfoldable pub status_of_key : String → Option HubTaskStatus
status_of_key k = if "needs_triage" == k then some inbox else status_named k

-- `key in` a set of texts
abbrev pub among : List String → String → Bool
among ks k = any (λ x. x == k) ks

-- a text that is not empty
abbrev pub nonempty : String → Option String
nonempty [] = none
nonempty (c ∷ s) = some (c ∷ s)

unfoldable pub trimmed : Option Json → Option String
unfolding trim
trimmed (some (text s)) = nonempty (trim s)
trimmed _ = none

-- `readFirstString`
abbrev pub first_text : List String → Fields → Option String
first_text List.[] fs = none
first_text (List.◌∷◌ k ks) fs = or_option (trimmed (member k fs)) (first_text ks fs)
