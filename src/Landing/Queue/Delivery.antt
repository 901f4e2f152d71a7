-- ===== src/Landing/Queue/Delivery.antt =====
-- Ordered delivery in src/hubLandingQueue.ts: after a local land under the policy `required` the
-- ticket holds every later one; under the other policies it is out of the way.
use arch_loop.Prelude.{
  zero, ℕ, ◌<◌, ◌≤◌, ◌≡◌, refl, sym, ap, ◌∙◌, String, some, List, [], ◌∷◌, map, true, false, head?,
  take, length, keep, In, map-In, keep-ext, head?-take, length-take-le, All-take, eq_refl,
  Bool-cases, inl, inr, arith, suc,
}
use arch_loop.Landing.Queue.{Ticket, File, tickets_of, Queue}
use arch_loop.Landing.Queue.Head.{
  can_land, may_head, may_speculate, speculative_chain, queue_head, sort_by_sequence, is_publishing,
  blockers_shipped,
}
use arch_loop.Landing.Queue.Marks.{required, mark_after_local_land, set_publishing, set_publishing}
use arch_loop.Landing.Queue.Validity.{IsValid, at_task}
use arch_loop.Landing.Queue.Update.{patched-IsValid, update_ticket_lem}
use arch_loop.Landing.Queue.Fifo.{can_land_iff, IsOrdered-unique}
use arch_loop.Landing.Queue.Order.{IsSorted, sort-IsSorted, From}

-- A publishing ticket holds the tasks of all later tickets.
pub publishing-holds :
    (q : Queue) (shipped : List String) (t u : Ticket)
    → IsValid q
    → In t q.tickets
    → In u q.tickets
    → is_publishing t.status ≡ true
    → t.sequence < u.sequence
    → can_land u.task_id shipped (some q) ≡ false
publishing-holds q shipped t u v m n p lt =
    elim (Bool-cases (can_land u.task_id shipped (some q))) [
      | inr held ↦ held
      | inl free ↦
          let l = (can_land_iff u.task_id shipped q v).0 free in
          let same = IsOrdered-unique q.tickets l.ticket u v.ordered l.listed n (inl l.of_task) in
          let before : t.sequence < l.ticket.sequence = rw same lt in
          cc (sym p ∙ l.none_publishing t m before)
    ]

-- After the local land of a task under the policy `required`, no task of a later ticket may land,
-- whatever is counted as shipped.
pub mark_after_local_land-holds :
    (q : Queue) (shipped : List String) (t u : Ticket)
    → IsValid q
    → In t q.tickets
    → In u q.tickets
    → t.sequence < u.sequence
    → can_land u.task_id shipped (mark_after_local_land t.task_id required (some q)).0 ≡ false
unfolding mark_after_local_land
mark_after_local_land-holds q shipped t u v m n lt =
    rw (update_ticket_lem t.task_id (set_publishing) (some q) (λ w. (refl, refl, refl)) v) (
      rw (← kept) (
        publishing-holds q' shipped (f t) (f u)
          (patched-IsValid t.task_id set_publishing (some q) (λ w. (refl, refl, refl)) v)
          (map-In f q.tickets t m) (map-In f q.tickets u n) (ground (arith, eq_refl t.task_id))
          (ground (arith, placed t, placed u))))
  where
    f : Ticket → Ticket
    f = at_task t.task_id set_publishing

    q' : Queue
    q' = record q { tickets = map f q.tickets }

    placed : (w : Ticket) → (f w).sequence ≡ w.sequence
    placed w = ground arith

    kept : (f u).task_id ≡ u.task_id
    kept = ground arith

take-IsSorted : (n : ℕ) (ts : List Ticket) → IsSorted ts → IsSorted (take n ts)
take-IsSorted zero ts s = tt
take-IsSorted (suc n) [] s = tt
take-IsSorted (suc n) (t ∷ ts) s = (All-take (From t.sequence) n ts s.0, take-IsSorted n ts s.1)

-- The tickets of the chain are those that may be head: the two lists of statuses agree.
may_speculate-may_head :
    (shipped : List String) (t : Ticket) → may_speculate shipped t ≡ may_head shipped t
unfolding may_speculate may_head blockers_shipped
may_speculate-may_head shipped t = ground arith

-- The speculative chain starts with the queue head, has at most `n` tickets, and keeps the order of
-- the sequence numbers.
pub speculative_chain_head :
    (shipped : List String) (n : ℕ) (file : File)
    → (head? (speculative_chain shipped (suc n) file) ≡ queue_head shipped file)
      × (length (speculative_chain shipped n file) ≤ n)
      × IsSorted (speculative_chain shipped n file)
unfolding speculative_chain queue_head
speculative_chain_head shipped n file = (
  head?-take n (sort_by_sequence (keep (may_speculate shipped) (tickets_of file)))
      ∙ ap (λ ts. head? (sort_by_sequence ts))
          (keep-ext (may_speculate shipped) (may_head shipped) (tickets_of file)
            (may_speculate-may_head shipped)),
  length-take-le n _,
  take-IsSorted n _ (sort-IsSorted (keep (may_speculate shipped) (tickets_of file))),
)
