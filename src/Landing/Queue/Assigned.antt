-- ===== src/Landing/Queue/Assigned.antt =====
-- Assigning tickets, `assignHubLandingQueueTickets` of src/hubLandingQueue.ts: the queue stays well
-- formed, tickets keep their place, and every task has one.
use arch_loop.Prelude.{
  eq_refl, ◌≡◌, ◌∙◌, String, none, some, List, [], ◌∷◌, ◌==◌, In, Bool-cases, Option-cases, inl,
  inr, or_else,
}
use arch_loop.Landing.Queue.{Ticket, Queue, File, empty_queue}
use arch_loop.Landing.Queue.Round.{IsSound, start-IsSound, assign_task-IsSound, assign_task-Extends}
use arch_loop.Landing.Queue.Assign.{
  TaskInput, get, new_ticket, Progress, assign_task, assign_all, start, assign_tickets,
}
use arch_loop.Landing.Queue.Validity.{IsValid, IsValidFile}
use arch_loop.Landing.Queue.Extends.{Extends, Extends-refl, Extends-trans}

-- A task that the map knows stays known.
get-assign_task :
    (now task : String) (p : Progress) (other : TaskInput) (t : Ticket)
    → get task p.by_task ≡ some t
    → (u : Ticket) × (get task (assign_task now p other).by_task ≡ some u)
unfolding assign_task get
get-assign_task now task p other t e = elim (Option-cases (get other.task_id p.by_task)) [
  | inr (current, f) ↦ (t, rw (f, assign_task) e)
  | inl new ↦ elim (Bool-cases (other.task_id == task)) [
    | inl here ↦ (new_ticket other p.next_sequence now, rw (new, assign_task, here))
    | inr there ↦ (t, rw (new, assign_task, there) e)
  ]
]

get-assign_all :
    (now task : String) (p : Progress) (tasks : List TaskInput) (t : Ticket)
    → get task p.by_task ≡ some t
    → (u : Ticket) × (get task (assign_all now p tasks).by_task ≡ some u)
unfolding assign_all
get-assign_all now task p [] t e = (t, e)
get-assign_all now task p (x ∷ xs) t e =
    let (u, f) = get-assign_task now task p x t e in
    get-assign_all now task (assign_task now p x) xs u f

get-assign_task_self :
    (now : String) (p : Progress) (task : TaskInput)
    → (u : Ticket) × (get task.task_id (assign_task now p task).by_task ≡ some u)
unfolding assign_task get
get-assign_task_self now p task = elim (Option-cases (get task.task_id p.by_task)) [
  | inr (current, f) ↦ (current, rw (f, assign_task) f)
  | inl new ↦ (new_ticket task p.next_sequence now, rw (new, assign_task, eq_refl task.task_id))
]

assign_all-knows :
    (now : String) (p : Progress) (tasks : List TaskInput) (task : TaskInput)
    → In task tasks
    → (u : Ticket) × (get task.task_id (assign_all now p tasks).by_task ≡ some u)
unfolding assign_all
assign_all-knows now p [] task m = elim m [ ]
assign_all-knows now p (x ∷ xs) task (inl e) =
    let (u, f) = get-assign_task_self now p x in
    get-assign_all now task.task_id (assign_task now p x) xs u (rw e f)
assign_all-knows now p (x ∷ xs) task (inr m) = assign_all-knows now (assign_task now p x) xs task m

pub assign_all-IsSound :
    (now : String) (p : Progress) (tasks : List TaskInput)
    → IsSound p
    → IsSound (assign_all now p tasks)
unfolding assign_all
assign_all-IsSound now p [] s = s
assign_all-IsSound now p (task ∷ tasks) s =
    assign_all-IsSound now (assign_task now p task) tasks (assign_task-IsSound now p s task)

assign_all-Extends :
    (now : String) (p : Progress) (tasks : List TaskInput)
    → IsSound p
    → Extends p.next_sequence p.tickets (assign_all now p tasks).tickets
unfolding assign_all
assign_all-Extends now p [] s = Extends-refl p.next_sequence p.tickets
assign_all-Extends now p (task ∷ tasks) s =
    let p' = assign_task now p task in
    let (first, le) = assign_task-Extends now p s task in
    Extends-trans p.next_sequence p'.next_sequence p.tickets p'.tickets
      (assign_all now p' tasks).tickets le first
      (assign_all-Extends now p' tasks (assign_task-IsSound now p s task))

-- The queue that an assignment starts from.
abbrev pub before : String → File → Queue
before ref file = or_else file (empty_queue ref)

before-IsValid : (ref : String) (file : File) → IsValidFile file → IsValid (before ref file)
before-IsValid ref none v = unfold empty_queue in (record { ordered = tt; numbered = tt })
before-IsValid ref (some q) v = v

-- Assigning tickets keeps the queue well formed.
pub assign_tickets-IsValid :
    (now ref : String) (tasks : List TaskInput) (file : File)
    → IsValidFile file
    → IsValid (assign_tickets now ref tasks file)
unfolding assign_tickets
assign_tickets-IsValid now ref tasks file v =
    let s =
      assign_all-IsSound now (start (before ref file)) tasks
        (start-IsSound (before ref file) (before-IsValid ref file v)) in
    record { ordered = s.ordered; numbered = s.numbered }

-- Assigning tickets keeps the tickets that there are in their places, with their task, id and
-- sequence number, and adds new ones only behind them, numbered from the next free number on.
pub assign_tickets-Extends :
    (now ref : String) (tasks : List TaskInput) (file : File)
    → IsValidFile file
    → Extends
        (before ref file).next_sequence
        (before ref file).tickets
        (assign_tickets now ref tasks file).tickets
unfolding assign_tickets
assign_tickets-Extends now ref tasks file v =
    unfold start in
    assign_all-Extends now (start (before ref file)) tasks
      (start-IsSound (before ref file) (before-IsValid ref file v))

-- Every task that is handed in has a ticket afterwards.
pub assign_tickets-has :
    (now ref : String) (tasks : List TaskInput) (file : File) (task : TaskInput)
    → IsValidFile file
    → In task tasks
    → (u : Ticket) × In u (assign_tickets now ref tasks file).tickets × (u.task_id ≡ task.task_id)
unfolding assign_tickets
assign_tickets-has now ref tasks file task v m =
    let p = start (before ref file) in
    let s =
      assign_all-IsSound now p tasks
        (start-IsSound (before ref file) (before-IsValid ref file v)) in
    let (t, e) = assign_all-knows now p tasks task m in
    let (of_task, (u, n, k)) = s.knows.known task.task_id t e in (u, n, k.1 ∙ of_task)
