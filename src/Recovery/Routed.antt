-- ===== src/Recovery/Routed.antt =====
-- What the recovery router does with a log of events, src/hubTaskRecoveryRouter.ts.
use arch_loop.Prelude.{
  String, Option, none, some, List, [], ◌∷◌, Bool, true, false, ◌==◌, ◌&&◌, ◌≡◌, refl, sym, ◌∙◌,
  ◌↔◌, In, Bool-cases, inl, inr, or_option, arith, is_some, eq_iff, or_option-none, or_option_assoc,
  find_last, find_last-mem, find_last-some,
}
use arch_loop.Recovery.{
  HubTaskStatus, ready_for_agent, reviewing, waiting_for_merge, Event, EventType,
  task_implementation_succeeded, task_review_succeeded, other_event,
}
use arch_loop.Recovery.Router.{
  completion_status, is_phase_completion, EventMap, event_of, latest_completion, latest_from, route,
  route_by,
}

-- A completed phase of the task.
abbrev pub completes : String → Event → Bool
completes task e = is_phase_completion e && e.task_id == task

latest_from-find_last :
    (task : String) (m : EventMap) (es : List Event)
    → event_of task (latest_from m es) ≡ or_option (find_last (completes task) es) (event_of task m)
unfolding latest_from event_of
latest_from-find_last task m [] = refl
latest_from-find_last task m (e ∷ es) = elim (Bool-cases (is_phase_completion e)) [
  | inr no_phase ↦
      rw no_phase
        (latest_from-find_last task m es ∙ rw (or_option-none (find_last (completes task) es)) refl)
  | inl phase ↦ rw phase (
      latest_from-find_last task ((e.task_id, e) ∷ m) es ∙ elim (Bool-cases (e.task_id == task)) [
        | inl same ↦
            rw same
              (sym (or_option_assoc (find_last (completes task) es) (some e) (event_of task m)))
        | inr other ↦ rw (other, or_option-none (find_last (completes task) es)) refl
      ])
]

-- The event that recovery looks up for a task is the last event of the log that completes a phase of
-- the task.
pub latest_completion-find_last :
    (task : String) (events : List Event)
    → event_of task (latest_completion events) ≡ find_last (completes task) events
unfolding latest_completion event_of
latest_completion-find_last task events =
    latest_from-find_last task [] events ∙ or_option-none (find_last (completes task) events)

-- The statuses that recovery sends a task to.
pub data IsTarget : HubTaskStatus → Bool → Type 0 where
  retried : IsTarget ready_for_agent false
  reviewed : IsTarget reviewing true
  merged : IsTarget waiting_for_merge true

type-IsTarget :
    (type : EventType) (task status : String) (has_work : Bool)
    → let e : Event = record { type = type; task_id = task; status = status } in
      let r = route_by (completion_status e) has_work in IsTarget r.target_status r.preserve_claim
unfolding route_by completion_status
type-IsTarget task_review_succeeded task status has_work = merged
type-IsTarget (other_event name) task status has_work = retried
type-IsTarget task_implementation_succeeded task status has_work =
    elim (Bool-cases (status == "reviewing")) [
      | inl a ↦ rw a reviewed
      | inr a ↦ rw a (elim (Bool-cases (status == "waiting_for_merge")) [
        | inl b ↦ rw b merged
        | inr b ↦ rw b retried
      ])
    ]

pub route-IsTarget :
    (e : Option Event) (has_work : Bool)
    → let r = route e has_work in IsTarget r.target_status r.preserve_claim
unfolding route route_by
route-IsTarget none has_work = retried
route-IsTarget (some e) has_work = type-IsTarget e.type e.task_id e.status has_work

route_by-preserve_claim :
    (o : Option HubTaskStatus) (has_work : Bool) → (route_by o has_work).preserve_claim ≡ is_some o
unfolding route_by
route_by-preserve_claim none has_work = refl
route_by-preserve_claim (some status) has_work = refl

route-preserve_claim :
    (e : Event) (has_work : Bool) → (route (some e) has_work).preserve_claim ≡ is_phase_completion e
unfolding route is_phase_completion
route-preserve_claim e has_work = route_by-preserve_claim (completion_status e) has_work

and_sound : (a b : Bool) → a && b ≡ true → (a ≡ true) × (b ≡ true)
and_sound a b h = ground arith

module _ (has_work : Bool) where
  found-completes :
      (o : Option Event)
      → (route o has_work).preserve_claim ≡ true
      → (e : Event) × (o ≡ some e) × (is_phase_completion e ≡ true)
  unfolding route route_by
  found-completes none h = cc
  found-completes (some e) h = (e, refl, sym (route-preserve_claim e has_work) ∙ h)

  some-preserve_claim :
      (o : Option Event)
      → is_some o ≡ true
      → ((e : Event) → o ≡ some e → is_phase_completion e ≡ true)
      → (route o has_work).preserve_claim ≡ true
  some-preserve_claim none h f = cc
  some-preserve_claim (some e) h f = route-preserve_claim e has_work ∙ f e refl

-- A recovered task goes to be retried without its claim, or with its claim to the review or to the
-- merge; it keeps the claim exactly if the log has an event that completes a phase of the task.
pub route_events :
    (task : String) (events : List Event) (has_work : Bool)
    → let r = route (event_of task (latest_completion events)) has_work in
      IsTarget r.target_status r.preserve_claim
      × ((r.preserve_claim ≡ true)
          ↔ ((e : Event) × In e events × (e.task_id ≡ task) × (is_phase_completion e ≡ true)))
route_events task events has_work = rw (latest_completion-find_last task events) (
  route-IsTarget found has_work,
  (
    λ h.
        let (e, f, phase) = found-completes has_work found h in
        let (m, c) = find_last-mem (completes task) events f in
        (e, m, (eq_iff e.task_id task).0 (and_sound _ _ c).1, phase),
    λ (e, m, same, phase).
        some-preserve_claim has_work found
          (find_last-some (completes task) events m (rw phase ((eq_iff e.task_id task).1 same)))
          (λ x f. (and_sound _ _ (find_last-mem (completes task) events f).1).0),
  ),
)
  where
    found : Option Event
    found = find_last (completes task) events
