-- ===== src/Landing/Queue/Steady.antt =====
-- The queue head under the operations of src/hubLandingQueue.ts that leave a ticket eligible: the
-- head stays with its task.
use mathlib.Core.Option
use arch_loop.Prelude.{
  ◌≡◌, refl, String, none, some, List, [], ◌∷◌, map, Bool, keep, head?, In, inl, inr, arith,
}
use arch_loop.Landing.Queue.{Ticket, File, tickets_of}
use arch_loop.Landing.Queue.Head.{may_head, insert_by, sort_by_sequence, queue_head}
use arch_loop.Landing.Queue.Validity.{Keeps, at_task}
use arch_loop.Landing.Queue.Update.{patched}

module _ (f : Ticket → Ticket) (placed : (t : Ticket) → (f t).sequence ≡ t.sequence) where
  insert_by-map :
      (t : Ticket) (us : List Ticket) → insert_by (f t) (map f us) ≡ map f (insert_by t us)
  unfolding insert_by
  insert_by-map t [] = refl
  insert_by-map t (u ∷ us) = ground (arith, placed t, placed u, insert_by-map t us)

  sort-map : (ts : List Ticket) → sort_by_sequence (map f ts) ≡ map f (sort_by_sequence ts)
  unfolding sort_by_sequence
  sort-map [] = refl
  sort-map (t ∷ ts) = rw (sort-map ts) (insert_by-map t (sort_by_sequence ts))

keep-map :
    (f : Ticket → Ticket) (p : Ticket → Bool) (ts : List Ticket)
    → ((t : Ticket) → In t ts → p (f t) ≡ p t)
    → keep p (map f ts) ≡ map f (keep p ts)
keep-map f p [] h = refl
keep-map f p (t ∷ ts) h = ground (arith, h t (inl refl), keep-map f p ts (λ u m. h u (inr m)))

head?-map : (f : Ticket → Ticket) (ts : List Ticket) → head? (map f ts) ≡ Option.map f (head? ts)
head?-map f [] = refl
head?-map f (t ∷ ts) = refl

-- A change of tickets that keeps who may be head maps the head.
pub queue_head-map :
    (shipped : List String) (task : String) (patch : Ticket → Ticket) (file : File)
    → ((t : Ticket) → Keeps t (patch t))
    → ((t : Ticket)
        → In t (tickets_of file)
        → may_head shipped (at_task task patch t) ≡ may_head shipped t)
    → queue_head shipped (patched task patch file)
      ≡ Option.map (at_task task patch) (queue_head shipped file)
unfolding queue_head
queue_head-map shipped task patch none keeps same = refl
queue_head-map shipped task patch (some q) keeps same = rw (
  keep-map (at_task task patch) (may_head shipped) q.tickets same,
  sort-map (at_task task patch) placed (keep (may_head shipped) q.tickets),
  head?-map (at_task task patch) (sort_by_sequence (keep (may_head shipped) q.tickets)),
)
  where
    placed : (t : Ticket) → (at_task task patch t).sequence ≡ t.sequence
    placed t = ground (arith, (keeps t).0)
