-- ===== src/Landing/Queue/QuietWait.antt =====
-- Target drift in src/hubLandingQueue.ts: no later ticket overtakes one that waits, the limit of
-- rebuilds, and the end of the wait.
use mathlib.Core.Option
use arch_loop.Prelude.{
  ◌≡◌, refl, sym, ◌∙◌, String, Option, none, some, List, true, ◌==◌, eq_iff, In, Bool-cases, inl,
  inr, arith,
}
use arch_loop.Landing.Queue.{Ticket, File, tickets_of, find_ticket, update_ticket}
use arch_loop.Landing.Queue.Head.{is_eligible, may_head, blockers_shipped, queue_head}
use arch_loop.Landing.Queue.Marks.{record_candidate, mark_verified}
use arch_loop.Landing.Queue.Quiet.{
  record_drift_rebuild, enter_quiet_wait, resume_quiet_wait, is_waiting, has_moved,
}
use arch_loop.Landing.Queue.Validity.{IsOrdered, IsValidFile, Keeps, at_task}
use arch_loop.Landing.Queue.Update.{update_ticket_lem}
use arch_loop.Landing.Queue.Fifo.{find-listed}
use arch_loop.Landing.Queue.Steady.{queue_head-map}

abbrev task_of : Ticket → String
task_of t = t.task_id

-- The queue heads of two files belong to one task, or both are missing.
abbrev pub SameHead : List String → File → File → Type 0
SameHead shipped f g =
    Option.map task_of (queue_head shipped f) ≡ Option.map task_of (queue_head shipped g)

map-task_of :
    (task : String) (patch : Ticket → Ticket)
    → ((u : Ticket) → Keeps u (patch u))
    → (o : Option Ticket)
    → Option.map task_of (Option.map (at_task task patch) o) ≡ Option.map task_of o
map-task_of task patch keeps none = refl
map-task_of task patch keeps (some u) = ground (arith, (keeps u).1)

IsValidFile-IsOrdered : (file : File) → IsValidFile file → IsOrdered (tickets_of file)
IsValidFile-IsOrdered none v = tt
IsValidFile-IsOrdered (some q) v = v.ordered

module _ (shipped : List String) (task : String) (file : File) (valid : IsValidFile file)
    (t : Ticket) (found : find_ticket task file ≡ some t)
    (eligible : is_eligible t.status ≡ true) where
  task_ticket : (u : Ticket) → In u (tickets_of file) → u.task_id ≡ task → u ≡ t
  unfolding find_ticket
  task_ticket u m e =
      Option.some-injective u t
        (sym (find-listed task (tickets_of file) u (IsValidFile-IsOrdered file valid) m e) ∙ found)

  -- A patch that leaves the ticket eligible, with the same blockers.
  update_ticket-SameHead :
      (patch : Ticket → Ticket)
      → ((u : Ticket) → Keeps u (patch u))
      → is_eligible (patch t).status ≡ true
      → (patch t).blocker_task_ids ≡ t.blocker_task_ids
      → SameHead shipped (update_ticket task patch file).0 file
  update_ticket-SameHead patch keeps still blockers = rw (
    update_ticket_lem task patch file keeps valid,
    queue_head-map shipped task patch file keeps same,
    map-task_of task patch keeps (queue_head shipped file),
  )
    where
      same :
          (u : Ticket)
          → In u (tickets_of file)
          → may_head shipped (at_task task patch u) ≡ may_head shipped u
      same u m = elim (Bool-cases (u.task_id == task)) [
        | inl here ↦
            let e = task_ticket u m ((eq_iff u.task_id task).0 here) in
            rw here (rw e (unfold may_head blockers_shipped in rw (still, blockers, eligible)))
        | inr there ↦ rw there
      ]

  resume_quiet_wait-SameHead :
      (now observed : String) → SameHead shipped (resume_quiet_wait now task observed file).0 file
  unfolding resume_quiet_wait
  resume_quiet_wait-SameHead now observed =
      rw (found, resume_quiet_wait)
        (elim (Bool-cases (is_waiting t.status)) [
          | inr idle ↦ rw idle
          | inl waits ↦ elim (Bool-cases (has_moved t.last_observed_target_oid observed)) [
            | inl moved ↦
                rw (waits, moved) (update_ticket-SameHead _ (λ u. (refl, refl, refl)) eligible refl)
            | inr stable ↦
                rw (waits, stable) (update_ticket-SameHead _ (λ u. (refl, refl, refl)) refl refl)
          ]
        ])

  -- While the ticket of a task is eligible, recording a candidate, a verification, a drift rebuild,
  -- a quiet wait or its end leaves the queue head with the task that it had: what waits is not
  -- overtaken, and what does not wait does not overtake.
  pub steady_head :
      (now observed source predecessor candidate transaction : String)
      → SameHead shipped
          (record_candidate task source predecessor candidate transaction file).0
          file
        × SameHead shipped (mark_verified task file).0 file
        × SameHead shipped (record_drift_rebuild now task observed file).0 file
        × SameHead shipped (enter_quiet_wait now task observed file).0 file
        × SameHead shipped (resume_quiet_wait now task observed file).0 file
  steady_head now observed source predecessor candidate transaction = (
    unfold record_candidate in update_ticket-SameHead _ (λ u. (refl, refl, refl)) refl refl,
    unfold mark_verified in update_ticket-SameHead _ (λ u. (refl, refl, refl)) refl refl,
    unfold record_drift_rebuild in update_ticket-SameHead _ (λ u. (refl, refl, refl)) refl refl,
    unfold enter_quiet_wait in update_ticket-SameHead _ (λ u. (refl, refl, refl)) refl refl,
    resume_quiet_wait-SameHead now observed,
  )
