-- ===== src/Landing/Queue/Tests.antt =====
-- The landing queue of src/hubLandingQueue.ts at concrete inputs.
use arch_loop.Prelude.{
  head?, length, ◌≤◌, ◌≡◌, refl, ◌↔◌, none, some, [], ◌∷◌, true, false, In, inl, inr, arith, ◌+◌,
  leb,
}
use arch_loop.Landing.Queue.{Ticket, Queue, File, queued, find_ticket, tickets_of}
use arch_loop.Landing.Queue.TicketId.{ticket_id}
use arch_loop.Landing.Queue.Assign.{TaskInput, assign_tickets, new_ticket}
use arch_loop.Landing.Queue.Head.{queue_head, speculative_chain, can_land}
use arch_loop.Landing.Queue.Marks.{
  required, mark_after_local_land, mark_verified, record_candidate, invalidate_suffix,
}
use arch_loop.Landing.Queue.Quiet.{
  record_drift_rebuild, enter_quiet_wait, resume_quiet_wait, should_enter_quiet_wait, resumed,
  waiting,
}
use arch_loop.Landing.Queue.Validity.{IsValid, IsValidFile}
use arch_loop.Landing.Queue.Update.{update_ticket-IsValid}
use arch_loop.Landing.Queue.Fifo.{MayLand, can_land_iff}
use arch_loop.Landing.Queue.QuietWait.{SameHead, steady_head}
use arch_loop.Landing.Queue.Drift.{
  rebuilds, rebuilds-should_enter, Restarted, IsStill, resume_quiet_wait_ends,
}
use arch_loop.Landing.Queue.Delivery.{mark_after_local_land-holds, speculative_chain_head}
use arch_loop.Landing.Queue.Order.{IsSorted}
use arch_loop.Landing.Queue.Suffix.{IsBehind, Invalidated, invalidate_suffix_lem}
use arch_loop.Landing.Queue.Extends.{Extends}
use arch_loop.Landing.Queue.Assigned.{
  assign_tickets-IsValid, assign_tickets-Extends, assign_tickets-has,
}

abbrev task_a : TaskInput
task_a = record { task_id = "a b"; blocker_task_ids = none; source_oid = none }

abbrev task_b : TaskInput
task_b = record { task_id = "b"; blocker_task_ids = some ("x" ∷ []); source_oid = some "f00" }

abbrev sample : Queue
sample = assign_tickets "t0" "refs/publish" (task_a ∷ task_b ∷ []) none

sample-IsValid : IsValid sample
sample-IsValid = assign_tickets-IsValid "t0" "refs/publish" (task_a ∷ task_b ∷ []) none tt

abbrev first : Ticket
first = new_ticket task_a 1 "t0"

abbrev second : Ticket
second = new_ticket task_b 2 "t0"

first-listed : In first sample.tickets
unfolding assign_tickets
first-listed = inl refl

second-listed : In second sample.tickets
unfolding assign_tickets
second-listed = inr (inl refl)

find-first : find_ticket "a b" (some sample) ≡ some first
unfolding find_ticket assign_tickets
find-first = refl

ids : first.ticket_id ≡ "lqt-a-b-1"
unfolding ticket_id new_ticket
ids = refl

only_first_lands :
    (can_land "a b" [] (some sample) ≡ true) × (can_land "b" ("x" ∷ []) (some sample) ≡ false)
unfolding can_land assign_tickets
only_first_lands = (refl, refl)

can_land_iff_example : (can_land "a b" [] (some sample) ≡ true) ↔ MayLand "a b" [] sample.tickets
can_land_iff_example = can_land_iff "a b" [] sample sample-IsValid

assign_tickets-IsValid_example :
    IsValid (assign_tickets "t1" "refs/publish" (task_b ∷ []) (some sample))
assign_tickets-IsValid_example =
    assign_tickets-IsValid "t1" "refs/publish" (task_b ∷ []) (some sample) sample-IsValid

assign_tickets-Extends_example :
    Extends sample.next_sequence sample.tickets
      (assign_tickets "t1" "refs/publish" (task_b ∷ []) (some sample)).tickets
assign_tickets-Extends_example =
    assign_tickets-Extends "t1" "refs/publish" (task_b ∷ []) (some sample) sample-IsValid

assign_tickets-has_example :
    (u : Ticket) × In u (assign_tickets "t1" "refs/publish" (task_b ∷ []) (some sample)).tickets
    × (u.task_id ≡ "b")
assign_tickets-has_example =
    assign_tickets-has "t1" "refs/publish" (task_b ∷ []) (some sample) task_b sample-IsValid
      (inl refl)

mark_after_local_land-holds_example :
    can_land second.task_id
      ("x" ∷ [])
      (mark_after_local_land first.task_id required (some sample)).0
    ≡ false
unfolding new_ticket
mark_after_local_land-holds_example =
    mark_after_local_land-holds sample ("x" ∷ []) first second sample-IsValid first-listed
      second-listed (omega arith)

steady_head_example :
    SameHead [] (record_candidate "a b" "s" "p" "c" "t" (some sample)).0 (some sample)
    × SameHead [] (mark_verified "a b" (some sample)).0 (some sample)
    × SameHead [] (record_drift_rebuild "t1" "a b" "o" (some sample)).0 (some sample)
    × SameHead [] (enter_quiet_wait "t1" "a b" "o" (some sample)).0 (some sample)
    × SameHead [] (resume_quiet_wait "t1" "a b" "o" (some sample)).0 (some sample)
unfolding new_ticket
steady_head_example =
    steady_head [] "a b" (some sample) sample-IsValid first find-first refl "t1" "o" "s" "p" "c" "t"

rebuilds-should_enter_example :
    should_enter_quiet_wait "a b" (rebuilds "t1" "a b" ("o" ∷ "p" ∷ []) (some sample))
    ≡ leb 3 (first.activation_drift_rebuilds + 2)
rebuilds-should_enter_example =
    rebuilds-should_enter "t1" "a b" ("o" ∷ "p" ∷ []) (some sample) first sample-IsValid find-first

abbrev quiet : File
quiet = (enter_quiet_wait "t1" "a b" "o" (some sample)).0

quiet-IsValid : IsValidFile quiet
unfolding enter_quiet_wait
quiet-IsValid = update_ticket-IsValid "a b" _ (some sample) (λ t. (refl, refl, refl)) sample-IsValid

quiet_ticket : (t : Ticket) × (find_ticket "a b" quiet ≡ some t)
unfolding enter_quiet_wait find_ticket assign_tickets ticket_id
quiet_ticket = (_, refl)

resume_quiet_wait_ends_example :
    let (next, answer) = resume_quiet_wait "t2" "a b" "p" quiet in
    let (last, again) = resume_quiet_wait "t2" "a b" "p" next in
    (IsStill quiet_ticket.0.last_observed_target_oid "p"
      → (answer ≡ resumed) × Restarted "a b" next)
    × ((IsStill quiet_ticket.0.last_observed_target_oid "p" → ⊥)
        → (answer ≡ waiting) × (again ≡ resumed) × Restarted "a b" last)
unfolding quiet_ticket
resume_quiet_wait_ends_example =
    resume_quiet_wait_ends "t2" "a b" "p" quiet quiet_ticket.0 quiet-IsValid quiet_ticket.1 refl

invalidate_suffix_lem_example :
    (IsBehind first second
      → (u : Ticket) × Invalidated "t1" "drift" second u
        × In u (tickets_of (invalidate_suffix "t1" "drift" "a b" (some sample)).0)
        × In u (invalidate_suffix "t1" "drift" "a b" (some sample)).1)
    × ((IsBehind first second → ⊥)
        → In second (tickets_of (invalidate_suffix "t1" "drift" "a b" (some sample)).0))
    × ((u : Ticket)
        → In u (invalidate_suffix "t1" "drift" "a b" (some sample)).1
        → (x : Ticket) × In x sample.tickets × IsBehind first x × Invalidated "t1" "drift" x u)
invalidate_suffix_lem_example =
    invalidate_suffix_lem "t1" "drift" "a b" sample first second find-first second-listed

abbrev requeue : Ticket → Ticket
requeue t = record t { status = queued }

speculative_chain_head_example :
    (head? (speculative_chain [] 2 (some sample)) ≡ queue_head [] (some sample))
    × (length (speculative_chain [] 1 (some sample)) ≤ 1)
    × IsSorted (speculative_chain [] 1 (some sample))
speculative_chain_head_example = speculative_chain_head [] 1 (some sample)
