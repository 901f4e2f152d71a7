-- ===== src/Lifecycle/Logged.antt =====
-- What recovery finds in the log after an outcome is recorded: src/hubTaskLifecycle.ts with
-- src/hubTaskRecoveryRouter.ts.
use arch_loop.Prelude.{
  String, none, some, List, [], ◌∷◌, ◌++◌, Bool, true, false, ◌≡◌, refl, sym, ap, ◌∙◌, find_last,
  or_option, or_option-none, or_option_assoc, if◌then◌else◌, eq_refl,
}
use arch_loop.Prelude.Json.{Fields}
use arch_loop.Recovery.{
  HubTaskStatus, reviewing, waiting_for_merge, Event, EventType, other_event,
  task_implementation_succeeded, task_review_succeeded,
}
use arch_loop.Recovery.Router.{
  completion_status, is_phase_completion, event_of, latest_completion, route, route_by, Route,
}
use arch_loop.Recovery.Routed.{completes, latest_completion-find_last}
use arch_loop.Board.Projection.{Claim}
use arch_loop.Board.Written.{Request}
use arch_loop.Board.Transition.{TaskStore, Result, moved, refused, transition}
use arch_loop.Lifecycle.{
  request, with_claim, World, MergeFailure, Exhaustion, record_implementation_failure,
  record_review_failure, record_merge_phase_failure, record_repair_exhaustion, event, advanced,
  report, record_outcome, record_implementation_success, record_review_success,
  post_implementation_status,
}

find_last-append :
    (p : Event → Bool) (xs : List Event) (x : Event)
    → find_last p (xs ++ x ∷ []) ≡ or_option (if p x then some x else none) (find_last p xs)
find_last-append p [] x = sym (or_option-none (if p x then some x else none))
find_last-append p (y ∷ xs) x =
    rw (find_last-append p xs x) (
      or_option_assoc (if p x then some x else none) (find_last p xs)
        (if p y then some y else none))

-- The route that recovery finds in a log.
abbrev pub route_in : List Event → String → Bool → Route
route_in log id has_work = route (event_of id (latest_completion log)) has_work

-- The task goes on at this status, with its claim.
abbrev pub IsResumed : Route → HubTaskStatus → Type 0
IsResumed r s = (r.target_status ≡ s) × (r.preserve_claim ≡ true)

module _ (id : String) (log : List Event) where
  -- A last event that completes no phase hides nothing.
  event_of-quiet :
      (e : Event)
      → is_phase_completion e ≡ false
      → event_of id (latest_completion (log ++ e ∷ [])) ≡ event_of id (latest_completion log)
  event_of-quiet e h =
      latest_completion-find_last id (log ++ e ∷ [])
      ∙ find_last-append (completes id) log e
      ∙ rw h refl
      ∙ sym (latest_completion-find_last id log)

  -- A last event that completes a phase of the task is the one that is found.
  event_of-last :
      (type : EventType) (s : HubTaskStatus)
      → is_phase_completion (event type id s) ≡ true
      → event_of id (latest_completion (log ++ event type id s ∷ [])) ≡ some (event type id s)
  event_of-last type s h =
      latest_completion-find_last id (log ++ event type id s ∷ [])
      ∙ find_last-append (completes id) log (event type id s)
      ∙ rw (h, eq_refl id) refl

  -- Reporting the new status hides nothing.
  event_of-report :
      {S : Type 0} (bd : TaskStore S) (r : S × Result)
      → event_of id (latest_completion (report bd id log r).0.1)
        ≡ event_of id (latest_completion log)
  event_of-report bd (s, moved t) =
      event_of-quiet (advanced id t) (unfold is_phase_completion completion_status in refl)
  event_of-report bd (s, refused r) = refl

implemented_route :
    (id : String) (has_work has_reviewer : Bool)
    → let s = post_implementation_status has_reviewer in
      let e = event task_implementation_succeeded id s in
      let r = route (some e) has_work in (is_phase_completion e ≡ true) × IsResumed r s
unfolding is_phase_completion completion_status route route_by
implemented_route id has_work true = (refl, (refl, refl))
implemented_route id has_work false = (refl, (refl, refl))

reviewed_route :
    (id : String) (has_work : Bool)
    → let e = event task_review_succeeded id waiting_for_merge in
      let r = route (some e) has_work in
      (is_phase_completion e ≡ true) × IsResumed r waiting_for_merge
unfolding is_phase_completion completion_status route route_by
reviewed_route id has_work = (refl, (refl, refl))

module _ {S : Type 0} (bd : TaskStore S) (id : String) (has_work : Bool) where
  record_outcome-found :
      (type : EventType) (q : Request) (w : World bd)
      → is_phase_completion (event type id q.hub_status) ≡ true
      → event_of id (latest_completion (record_outcome bd type id q w).0.1)
        ≡ some (event type id q.hub_status)
  unfolding record_outcome
  record_outcome-found type q (s, log) h =
      event_of-report id (log ++ event type id q.hub_status ∷ []) bd (transition bd id q s)
      ∙ event_of-last id log type q.hub_status h

  record_outcome-quiet :
      (name : String) (q : Request) (w : World bd)
      → event_of id (latest_completion (record_outcome bd (other_event name) id q w).0.1)
        ≡ event_of id (latest_completion w.1)
  unfolding record_outcome is_phase_completion completion_status
  record_outcome-quiet name q (s, log) =
      event_of-report id (log ++ event (other_event name) id q.hub_status ∷ []) bd
        (transition bd id q s)
      ∙ event_of-quiet id log (event (other_event name) id q.hub_status) refl

  found-IsResumed :
      (type : EventType) (q : Request) (w : World bd)
      → let e = event type id q.hub_status in
        (is_phase_completion e ≡ true) × IsResumed (route (some e) has_work) q.hub_status
        → IsResumed (route_in (record_outcome bd type id q w).0.1 id has_work) q.hub_status
  found-IsResumed type q w (h, r) =
      let found = record_outcome-found type q w h in
      (
        ap (λ o. (route o has_work).target_status) found ∙ r.0,
        ap (λ o. (route o has_work).preserve_claim) found ∙ r.1,
      )

  -- Once the success of an implementation or of a review is recorded, recovery resumes the task at
  -- the next phase with its claim, also where the change of its status was refused: after an
  -- implementation at the review if there is a reviewer and else at the merge, and after a review at
  -- the merge.
  pub record_success-IsResumed :
      (metadata : Fields) (c : Claim) (w : World bd)
      → let implemented : Bool → Route = λ has_reviewer.
        route_in (record_implementation_success bd id has_reviewer metadata c w).0.1 id has_work in
        let reviewed = route_in (record_review_success bd id metadata c w).0.1 id has_work in
        IsResumed (implemented true) reviewing
        × IsResumed (implemented false) waiting_for_merge
        × IsResumed reviewed waiting_for_merge
  unfolding record_implementation_success record_review_success
  record_success-IsResumed metadata c w = (
    found-IsResumed task_implementation_succeeded (request reviewing (with_claim metadata c) none) w
        (implemented_route id has_work true),
    found-IsResumed task_implementation_succeeded
        (request waiting_for_merge (with_claim metadata c) none) w
        (implemented_route id has_work false),
    found-IsResumed task_review_succeeded (request waiting_for_merge (with_claim metadata c) none) w
        (reviewed_route id has_work),
  )

  -- Recording a failure of any phase leaves the route of recovery as it was.
  pub record_failure-route :
      (reason : String) (f : MergeFailure) (e : Exhaustion) (metadata : Fields) (c : Claim)
      (w : World bd)
      → let before = route_in w.1 id has_work in
        (route_in (record_implementation_failure bd id reason metadata c w).0.1 id has_work
          ≡ before)
        × (route_in (record_review_failure bd id reason metadata w).0.1 id has_work ≡ before)
        × (route_in (record_merge_phase_failure bd id f metadata w).0.1 id has_work ≡ before)
        × (route_in (record_repair_exhaustion bd id e metadata w).0.1 id has_work ≡ before)
  unfolding record_implementation_failure record_review_failure record_merge_phase_failure
      record_repair_exhaustion
  record_failure-route reason f e metadata c w = (
    ap (λ o. route o has_work) (record_outcome-quiet _ _ w),
    ap (λ o. route o has_work) (record_outcome-quiet _ _ w),
    ap (λ o. route o has_work) (record_outcome-quiet _ _ w),
    ap (λ o. route o has_work) (record_outcome-quiet _ _ w),
  )
