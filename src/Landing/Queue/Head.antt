-- ===== src/Landing/Queue/Head.antt =====
-- Who may land: the queue head, the hold of an ordered delivery, the speculative chain.
use arch_loop.Prelude.{
  ℕ, String, Option, none, some, List, [], ◌∷◌, Bool, true, false, not, ◌&&◌, if◌then◌else◌, ◌==◌,
  ltb, leb, find, keep, every, any, head?, take,
}
use arch_loop.Landing.Queue.{
  TicketStatus, queued, speculating, verified, landed, publishing, invalidated,
  blocked_unshipped_prerequisite, failed, target_quiet_wait, Ticket, File, is_task, tickets_of,
}

-- `ELIGIBLE_STATUSES`
abbrev pub is_eligible : TicketStatus → Bool
is_eligible queued = true
is_eligible speculating = true
is_eligible verified = true
is_eligible invalidated = true
is_eligible target_quiet_wait = true
is_eligible _ = false

-- `TERMINAL_STATUSES`
abbrev pub is_terminal : TicketStatus → Bool
is_terminal landed = true
is_terminal failed = true
is_terminal _ = false

abbrev pub is_publishing : TicketStatus → Bool
is_publishing publishing = true
is_publishing _ = false

abbrev pub is_blocked : TicketStatus → Bool
is_blocked blocked_unshipped_prerequisite = true
is_blocked _ = false

-- A `ReadonlySet<string>` as the list of its members.
abbrev pub has : List String → String → Bool
has shipped id = any (λ s. s == id) shipped

unfoldable pub blockers_shipped : List String → Ticket → Bool
blockers_shipped shipped t = every (has shipped) t.blocker_task_ids

-- `sort((left, right) => left.sequence - right.sequence)`, which is stable
unfoldable pub insert_by : Ticket → List Ticket → List Ticket
insert_by t [] = t ∷ []
insert_by t (u ∷ us) = if leb t.sequence u.sequence then t ∷ u ∷ us else u ∷ insert_by t us

unfoldable pub sort_by_sequence : List Ticket → List Ticket
unfolding insert_by
sort_by_sequence [] = []
sort_by_sequence (t ∷ ts) = insert_by t (sort_by_sequence ts)

unfoldable pub may_head : List String → Ticket → Bool
unfolding blockers_shipped
may_head shipped t = is_eligible t.status && blockers_shipped shipped t

unfoldable pub queue_head : List String → File → Option Ticket
unfolding may_head sort_by_sequence
queue_head shipped file = head? (sort_by_sequence (keep (may_head shipped) (tickets_of file)))

abbrev pub holds_before : Ticket → Ticket → Bool
holds_before mine t = ltb t.sequence mine.sequence && is_publishing t.status

-- `findEarlierRequiredDeliveryHold`
unfoldable pub delivery_hold : String → File → Option Ticket
unfolding sort_by_sequence
delivery_hold task file = elim (find (is_task task) (tickets_of file)) [
  | none ↦ none
  | some mine ↦ head? (sort_by_sequence (keep (holds_before mine) (tickets_of file)))
]

abbrev pub is_task_of : Option Ticket → String → Bool
is_task_of none task = false
is_task_of (some t) task = t.task_id == task

unfoldable pub can_land : String → List String → File → Bool
unfolding delivery_hold queue_head
can_land task shipped file = elim (delivery_hold task file) [
  | some hold ↦ false
  | none ↦ is_task_of (queue_head shipped file) task
]

unfoldable pub may_speculate : List String → Ticket → Bool
unfolding blockers_shipped
may_speculate shipped t =
    not (is_terminal t.status)
    && (not (is_blocked t.status) && (not (is_publishing t.status) && blockers_shipped shipped t))

unfoldable pub speculative_chain : List String → ℕ → File → List Ticket
unfolding may_speculate sort_by_sequence
speculative_chain shipped limit file =
    take limit (sort_by_sequence (keep (may_speculate shipped) (tickets_of file)))
