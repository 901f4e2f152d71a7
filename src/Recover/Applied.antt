-- ===== src/Recover/Applied.antt =====
-- What the recovery of an interrupted task does, src/hubTaskRecover.ts.
use arch_loop.Prelude.{
  String, Option, none, some, Bool, true, false, if◌then◌else◌, is_some, ◌≡◌, refl, sym, ap, ◌∙◌,
  inl, inr, Bool-cases, eq_iff,
}
use mathlib.Core.Option.{some_inj}
use arch_loop.Prelude.Json.{Fields}
use arch_loop.Recovery.{HubTaskStatus, implementing, reviewing, merging, failed, inbox, Event}
use arch_loop.Recovery.Startup.{Outcome, recovered_failed, unchanged}
use arch_loop.Board.{status_text, status_named}
use arch_loop.Board.Metadata.{delete_key}
use arch_loop.Board.Status.{same_status}
use arch_loop.Board.Projection.{BoardTask, project_task}
use arch_loop.Board.Written.{Request}
use arch_loop.Board.Projected.{IsMovable}
use arch_loop.Board.Moved.{HasClaim}
use arch_loop.Board.Store.{IsTaskStore, ArePlain}
use arch_loop.Board.Carried.{IsMoved, transition-IsMoved}
use arch_loop.Board.Transition.{TaskStore, Result, moved, load, transition, project_shown}
use arch_loop.Lifecycle.{request, persist_stripped}
use arch_loop.Recover.{
  Sentence, Plan, resolve_plan, plan_stale, plan_route, task_branch, is_interrupted,
}
use arch_loop.Recovery.Router.{route}
use arch_loop.Recover.Apply.{
  Recovered, Recovery, recovered, Surroundings, result_of, after_update, record_recovery, commented,
  apply_plan, recover_execution, recover_task, recover_hub_task, recover_loaded,
}

-- A comment succeeds and leaves the task as it is shown.
pub record KeepsTask {S : Type 0} (bd : TaskStore S) (around : Surroundings S) (id : String)
    : Type 0 where
  pub comments :
      (summary : Sentence) (s : S)
      → (s' : S) × (around.comment id summary s ≡ (s', true)) × (bd.show id s' ≡ bd.show id s)

-- The update that a plan asks for.
unfoldable pub plan_request : BoardTask → Plan → Request
unfolding delete_key
plan_request task plan =
    if plan.preserve_claim
    then request plan.target_status task.metadata none
    else request plan.target_status (delete_key "claim" task.metadata) none

-- A recovery that was carried out: it returns the status that was planned, and the task that it returns
-- is the one that is loaded afterwards.
pub record IsRecovered {S : Type 0} (bd : TaskStore S) (id : String) (task : BoardTask)
    (target : HubTaskStatus) (r : S × Recovery) : Type 0 where
  pub result : Recovered
  pub returned : r.1 ≡ recovered result
  pub status : result.hub_status ≡ target
  pub task_status : result.task.hub_status ≡ target
  pub prior : result.prior_status ≡ task.hub_status
  pub shown : load bd id r.0 ≡ some result.task

named_text : (s : HubTaskStatus) → status_named (status_text s) ≡ some s
named_text inbox = refl
named_text _ = refl

same_status_sound : (s t : HubTaskStatus) → same_status s t ≡ true → s ≡ t
same_status_sound s t h = some_inj.0 (
    sym (named_text s)
    ∙ ap status_named ((eq_iff (status_text s) (status_text t)).0 h)
    ∙ named_text t)

interrupted_not_failed :
    (s : HubTaskStatus) → is_interrupted s ≡ true → same_status s failed ≡ false
interrupted_not_failed implementing h = refl
interrupted_not_failed reviewing h = refl
interrupted_not_failed merging h = refl
interrupted_not_failed _ h = cc

resolve_plan-prior :
    (has_work : String → Bool) (latest : String → Option Event) (task : BoardTask)
    → (resolve_plan has_work latest task).prior_status ≡ task.hub_status
unfolding resolve_plan plan_stale plan_route
resolve_plan-prior has_work latest task =
    let work = if is_some (latest task.id) then false else has_work (task_branch task) in
    elim (Bool-cases ((route (latest task.id) work).preserve_claim)) [
      | inl p ↦ rw p refl
      | inr p ↦ rw p refl
    ]

module _ {S : Type 0} (bd : TaskStore S) (around : Surroundings S) (id : String)
    (keeps : KeepsTask bd around id) where
  after_update_moved :
      (o : Outcome) (task : BoardTask) (summary : Sentence) (r : S × Result) {u : BoardTask}
      → r.1 ≡ moved u
      → after_update bd around id o task summary r
        ≡ record_recovery bd around id (result_of o task summary u) r.0
  unfolding after_update
  after_update_moved o task summary (s, x) e = rw e refl

  load_same : (s s' : S) → bd.show id s' ≡ bd.show id s → load bd id s' ≡ load bd id s
  unfolding load
  load_same s s' e = ap project_shown e

  updated-IsRecovered :
      (task : BoardTask) (plan : Plan) (q : Request) (r : S × Result)
      → q.hub_status ≡ plan.target_status
      → IsMoved bd id task q r
      → IsRecovered bd id task plan.target_status
          (after_update bd around id recovered_failed task plan.reason r)
  unfolding record_recovery
  updated-IsRecovered task plan q r e m =
      let result = result_of recovered_failed task plan.reason m.after in
      let (s', ok, same) = keeps.comments plan.reason r.0 in
      let path : after_update bd around id recovered_failed task plan.reason r
          ≡ (s', recovered result) =
        after_update_moved recovered_failed task plan.reason r m.result
        ∙ ap (commented bd around id result) ok in
      record {
        result = result;
        returned = ap (λ x. x.1) path;
        status = m.status ∙ e;
        task_status = m.status ∙ e;
        prior = refl;
        shown = ap (λ x. load bd id x.0) path ∙ load_same r.0 s' same ∙ m.shown;
      }

  module _ (store : IsTaskStore bd id) (s : S) (shown : Fields) (e : bd.show id s ≡ some shown)
      (plain : ArePlain (project_task shown).labels) where
    abbrev task : BoardTask
    task = project_task shown

    loaded : load bd id s ≡ some task
    unfolding load project_shown
    loaded = ap project_shown e

    applied-IsRecovered :
        (plan : Plan)
        → plan.prior_status ≡ task.hub_status
        → IsMovable task (plan_request task plan)
        → HasClaim task (plan_request task plan)
        → IsRecovered bd id task plan.target_status (apply_plan bd around id task plan s)
    unfolding apply_plan plan_request persist_stripped
    applied-IsRecovered plan prior movable claims = elim (Bool-cases plan.preserve_claim) [
      | inr p ↦ rw p (
          updated-IsRecovered task plan
            (request plan.target_status (delete_key "claim" task.metadata) none)
            (transition bd id (request plan.target_status (delete_key "claim" task.metadata) none)
              s)
            refl
            (transition-IsMoved bd id store
              (request plan.target_status (delete_key "claim" task.metadata) none) s shown e plain
              (rw p at movable) (rw p at claims)))
      | inl p ↦ elim (Bool-cases (same_status plan.prior_status plan.target_status)) [
        | inr n ↦
            rw (p, n)
              (updated-IsRecovered task plan (request plan.target_status task.metadata none)
                (transition bd id (request plan.target_status task.metadata none) s) refl
                (transition-IsMoved bd id store (request plan.target_status task.metadata none) s
                  shown e plain (rw p at movable) (rw p at claims)))
        | inl n ↦
            let same = sym prior ∙ same_status_sound plan.prior_status plan.target_status n in
            rw (p, n)
              (record {
                result = result_of unchanged task plan.reason task;
                returned = refl;
                status = same;
                task_status = same;
                prior = refl;
                shown = loaded;
              })
      ]
    ]

    abbrev plan : Plan
    plan = resolve_plan around.has_work around.latest_event task

    -- Where the task store does what it documents, comments succeed, the labels are plain, and the
    -- request of the plan is movable with its claim: recovering a task in the middle of an execution
    -- takes it to the status that the preview plans, and the store then shows it there.
    pub recover_hub_task-IsRecovered :
        is_interrupted task.hub_status ≡ true
        → IsMovable task (plan_request task plan)
        → HasClaim task (plan_request task plan)
        → IsRecovered bd id task plan.target_status (recover_hub_task bd around id s)
    unfolding recover_hub_task recover_loaded recover_task recover_execution
    recover_hub_task-IsRecovered h movable claims =
        rw (loaded, interrupted_not_failed task.hub_status h, h)
          (applied-IsRecovered plan (resolve_plan-prior around.has_work around.latest_event task)
            movable claims)
