-- ===== src/Recover/Planned.antt =====
-- Where the recovery of an interrupted task can lead, `planStaleExecutionRecovery` of
-- src/hubTaskRecover.ts.
use arch_loop.Prelude.{
  String, Option, none, some, Bool, true, false, ◌==◌, ◌≡◌, ◌≢◌, refl, sym, ◌∙◌, inl, inr, subst,
  Bool-cases, eq_iff,
}
use arch_loop.Recovery.{
  HubTaskStatus, reviewing, waiting_for_merge, wontfix, blocked, ready_for_human, ready_for_agent,
  Event, EventType, task_implementation_succeeded, task_review_succeeded, other_event,
}
use arch_loop.Recovery.Router.{route, route_by, completion_status}
use arch_loop.Board.Status.{wontfix_keys}
use arch_loop.Board.Projection.{BoardTask}
use arch_loop.Recover.{
  has_truthy, reason_keys, is_human_task, is_human_failure, failed_target, read_failure_reason,
  plan_route, plan_stale, Plan,
}
use arch_loop.Recover.Said.{Says, IsForHuman, NeedsHuman, Says-iff, IsForHuman-iff, NeedsHuman-iff}

-- The next phase after the last event of a task that completes a phase.
pub data NextPhase : Option Event → HubTaskStatus → Type 0 where
  review_done :
      (task status : String)
      → NextPhase
          (some (record { type = task_review_succeeded; task_id = task; status = status }))
          waiting_for_merge
  to_review :
      (task : String)
      → NextPhase
          (some
            (record { type = task_implementation_succeeded; task_id = task; status = "reviewing" }))
          reviewing
  to_merge :
      (task : String)
      → NextPhase
          (some (record {
            type = task_implementation_succeeded;
            task_id = task;
            status = "waiting_for_merge";
          }))
          waiting_for_merge

-- Where a task goes that starts again, by what its metadata says.
pub data IsPutBack (task : BoardTask) : HubTaskStatus → Type 0 where
  rejected : Says task.metadata wontfix_keys → IsPutBack task wontfix
  held :
      (Says task.metadata wontfix_keys → ⊥)
      → Says task.metadata reason_keys
      → IsPutBack task blocked
  human_task :
      (Says task.metadata wontfix_keys → ⊥)
      → (Says task.metadata reason_keys → ⊥)
      → IsForHuman task.metadata
      → IsPutBack task ready_for_human
  human_failure :
      (Says task.metadata wontfix_keys → ⊥)
      → (Says task.metadata reason_keys → ⊥)
      → NeedsHuman (read_failure_reason task)
      → IsPutBack task ready_for_human
  given_to_agent :
      (Says task.metadata wontfix_keys → ⊥)
      → (Says task.metadata reason_keys → ⊥)
      → (IsForHuman task.metadata → ⊥)
      → (NeedsHuman (read_failure_reason task) → ⊥)
      → IsPutBack task ready_for_agent

refuted : {A : Type 0} {b : Bool} → (A → b ≡ true) → b ≡ false → A → ⊥
refuted f h a = cc (sym (f a) ∙ h)

failed_target-IsPutBack :
    (task : BoardTask) → IsPutBack task (failed_target task (read_failure_reason task))
unfolding failed_target
failed_target-IsPutBack task =
    let rejects = Says-iff task.metadata wontfix_keys in
    let holds = Says-iff task.metadata reason_keys in
    let humans = IsForHuman-iff task.metadata in
    let failures = NeedsHuman-iff (read_failure_reason task) in
    elim (Bool-cases (has_truthy task.metadata wontfix_keys)) [
      | inl w ↦ rw w (rejected (rejects.0 w))
      | inr w ↦ elim (Bool-cases (has_truthy task.metadata reason_keys)) [
        | inl r ↦ rw (w, r) (held (refuted rejects.1 w) (holds.0 r))
        | inr r ↦ elim (Bool-cases (is_human_task task.metadata)) [
          | inl h ↦ rw (w, r, h) (human_task (refuted rejects.1 w) (refuted holds.1 r) (humans.0 h))
          | inr h ↦ elim (Bool-cases (is_human_failure (read_failure_reason task))) [
            | inl f ↦
                rw (w, r, h, f)
                  (human_failure (refuted rejects.1 w) (refuted holds.1 r) (failures.0 f))
            | inr f ↦
                rw (w, r, h, f)
                  (given_to_agent (refuted rejects.1 w) (refuted holds.1 r) (refuted humans.1 h)
                    (refuted failures.1 f))
          ]
        ]
      ]
    ]

-- A plan that starts the task again, without its claim.
abbrev pub IsRestart : BoardTask → Plan → Type 0
IsRestart task plan = (plan.preserve_claim ≡ false) × IsPutBack task plan.target_status

module _ (task : BoardTask) (has_work : Bool) where
  unfinished-IsRestart :
      (latest : Option Event)
      → route latest has_work ≡ route_by none has_work
      → IsRestart task (plan_stale task latest has_work)
  unfolding plan_stale plan_route route_by
  unfinished-IsRestart latest e = rw e (refl, failed_target-IsPutBack task)

  other_status-IsRestart :
      (id status : String)
      → status ≢ "reviewing"
      → status ≢ "waiting_for_merge"
      → IsRestart task (
          plan_stale task
            (some (record { type = task_implementation_succeeded; task_id = id; status = status }))
            has_work)
  unfolding route completion_status
  other_status-IsRestart id status n m = elim (Bool-cases (status == "reviewing")) [
    | inl h ↦ absurd (n ((eq_iff status "reviewing").0 h))
    | inr h ↦ elim (Bool-cases (status == "waiting_for_merge")) [
      | inl k ↦ absurd (m ((eq_iff status "waiting_for_merge").0 k))
      | inr k ↦ unfinished-IsRestart _ (rw (h, k) refl)
    ]
  ]

  resumed :
      (latest : Option Event) (s : HubTaskStatus)
      → NextPhase latest s
      → ((plan_stale task latest has_work).target_status ≡ s)
        × ((plan_stale task latest has_work).preserve_claim ≡ true)
  unfolding plan_stale plan_route route route_by completion_status
  resumed latest s (review_done id status) = (refl, refl)
  resumed latest s (to_review id) = (refl, refl)
  resumed latest s (to_merge id) = (refl, refl)

  restarted_event :
      (type : EventType) (id status : String)
      → let e : Event = record { type = type; task_id = id; status = status } in
        ((s : HubTaskStatus) → NextPhase (some e) s → ⊥)
        → IsRestart task (plan_stale task (some e) has_work)
  unfolding route completion_status
  restarted_event task_review_succeeded id status n =
      absurd (n waiting_for_merge (review_done id status))
  restarted_event (other_event name) id status n = unfinished-IsRestart _ refl
  restarted_event task_implementation_succeeded id status n =
      other_status-IsRestart id status
        (λ e. n reviewing (
          subst
            (λ t.
              NextPhase
                (some (record { type = task_implementation_succeeded; task_id = id; status = t }))
                reviewing)
            (sym e) (to_review id)))
        (λ e. n waiting_for_merge (
          subst
            (λ t.
              NextPhase
                (some (record { type = task_implementation_succeeded; task_id = id; status = t }))
                waiting_for_merge)
            (sym e) (to_merge id)))

  restarted :
      (latest : Option Event)
      → ((s : HubTaskStatus) → NextPhase latest s → ⊥)
      → IsRestart task (plan_stale task latest has_work)
  unfolding route
  restarted none n = unfinished-IsRestart none refl
  restarted (some e) n = restarted_event e.type e.task_id e.status n

-- If the last event of the task that recovery found completes a phase, the plan resumes the task at
-- the next phase with its claim; if it completes none, the plan takes the claim, whether or not the
-- branch has work, and puts the task where its metadata says: to the rejected tasks, to the blocked
-- ones with a reason, to a human for a human task or failure, and else back to the agents.
pub plan_stale-IsPlanned :
    (task : BoardTask) (latest : Option Event) (has_work : Bool)
    → let plan = plan_stale task latest has_work in
      ((s : HubTaskStatus)
        → NextPhase latest s
        → (plan.target_status ≡ s) × (plan.preserve_claim ≡ true))
      × (((s : HubTaskStatus) → NextPhase latest s → ⊥) → IsRestart task plan)
plan_stale-IsPlanned task latest has_work =
    (resumed task has_work latest, restarted task has_work latest)
