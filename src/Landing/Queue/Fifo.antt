-- ===== src/Landing/Queue/Fifo.antt =====
-- First in, first out: who may land by src/hubLandingQueue.ts, against a description of it that
-- mentions neither sorting nor searching.
use arch_loop.Prelude.{
  ◌<◌, ◌≡◌, sym, ◌∙◌, ◌↔◌, String, none, some, List, [], ◌∷◌, true, false, eq_iff, find, find-mem,
  find-none, keep, head?, In, All-mem, Bool-cases, Option-cases, inl, inr, arith, ◌⊎◌,
}
use arch_loop.Landing.Queue.{Ticket, Queue, File, is_task, tickets_of}
use arch_loop.Landing.Queue.Head.{
  may_head, queue_head, holds_before, delivery_hold, is_task_of, can_land, is_publishing,
  sort_by_sequence,
}
use arch_loop.Landing.Queue.Validity.{Before, IsOrdered, IsValid}
use arch_loop.Landing.Queue.Order.{IsFirst, sorted-head-IsFirst, sorted-head_none}

Before-apart : (t u : Ticket) → Before t u → (t.task_id ≡ u.task_id) ⊎ (t.sequence ≡ u.sequence) → ⊥
Before-apart t u b (inl p) = b.1 p
Before-apart t u b (inr q) = omega arith

-- Two tickets of a well-formed queue with one task, or with one sequence number, are the same.
pub IsOrdered-unique :
    (ts : List Ticket) (t u : Ticket)
    → IsOrdered ts
    → In t ts
    → In u ts
    → (t.task_id ≡ u.task_id) ⊎ (t.sequence ≡ u.sequence)
    → t ≡ u
IsOrdered-unique [] t u o m n e = elim m [ ]
IsOrdered-unique (x ∷ xs) t u o (inl a) (inl b) e = a ∙ sym b
IsOrdered-unique (x ∷ xs) t u o (inl a) (inr n) e =
    absurd (Before-apart t u (rw a (All-mem (Before x) xs n o.0)) e)
IsOrdered-unique (x ∷ xs) t u o (inr m) (inl b) e = absurd (
    Before-apart u t (rw b (All-mem (Before x) xs m o.0))
      (elim e [ inl p ↦ inl (sym p) | inr q ↦ inr (sym q) ]))
IsOrdered-unique (x ∷ xs) t u o (inr m) (inr n) e = IsOrdered-unique xs t u o.1 m n e

-- The queue head is a ticket that may be head, of the least sequence number.
pub queue_head-IsFirst :
    (shipped : List String) (file : File) (t : Ticket)
    → queue_head shipped file ≡ some t
    → IsFirst (may_head shipped) (tickets_of file) t
unfolding queue_head
queue_head-IsFirst shipped file t e = sorted-head-IsFirst (may_head shipped) (tickets_of file) t e

-- What lets a task land: it has a ready ticket, and before that ticket none is ready and none
-- waits for its delivery.
pub record MayLand (task : String) (shipped : List String) (ts : List Ticket) : Type 0 where
  pub ticket : Ticket
  pub listed : In ticket ts
  pub of_task : ticket.task_id ≡ task
  pub ready : may_head shipped ticket ≡ true
  pub none_ready :
      (u : Ticket) → In u ts → u.sequence < ticket.sequence → may_head shipped u ≡ false
  pub none_publishing :
      (u : Ticket) → In u ts → u.sequence < ticket.sequence → is_publishing u.status ≡ false

can_land_split :
    (task : String) (shipped : List String) (file : File)
    → can_land task shipped file ≡ true
    → (t : Ticket) × (queue_head shipped file ≡ some t)
      × (t.task_id ≡ task)
      × (delivery_hold task file ≡ none)
unfolding can_land
can_land_split task shipped file h = elim (Option-cases (delivery_hold task file)) [
  | inr (t, held) ↦ cc (rw (held, can_land) at h)
  | inl free ↦
      let g : is_task_of (queue_head shipped file) task ≡ true = rw (free, can_land) at h in
      elim (Option-cases (queue_head shipped file)) [
        | inl empty ↦ cc (rw empty at g)
        | inr (t, head) ↦ (t, head, (eq_iff t.task_id task).0 (rw head at g), free)
      ]
]

-- In a well-formed queue the search for a task finds its one ticket.
pub find-listed :
    (task : String) (ts : List Ticket) (t : Ticket)
    → IsOrdered ts
    → In t ts
    → t.task_id ≡ task
    → find (is_task task) ts ≡ some t
find-listed task ts t o m e = elim (Option-cases (find (is_task task) ts)) [
  | inl absent ↦ cc (sym (find-none (is_task task) ts absent m) ∙ (eq_iff t.task_id task).1 e)
  | inr (u, found) ↦
      let (n, h) = find-mem (is_task task) ts found in
      rw (found, IsOrdered-unique ts u t o n m (inl ((eq_iff u.task_id task).0 h ∙ sym e)))
]

delivery_hold-listed :
    (task : String) (file : File) (t : Ticket)
    → IsOrdered (tickets_of file)
    → In t (tickets_of file)
    → t.task_id ≡ task
    → delivery_hold task file ≡ head? (sort_by_sequence (keep (holds_before t) (tickets_of file)))
unfolding delivery_hold
delivery_hold-listed task file t o m e =
    rw (find-listed task (tickets_of file) t o m e, delivery_hold)

can_land_sound :
    (task : String) (shipped : List String) (file : File)
    → IsOrdered (tickets_of file)
    → can_land task shipped file ≡ true
    → MayLand task shipped (tickets_of file)
can_land_sound task shipped file o h =
    let (t, head, of_task, free) = can_land_split task shipped file h in
    let first = queue_head-IsFirst shipped file t head in
    let unheld = sym (delivery_hold-listed task file t o first.listed of_task) ∙ free in
    record {
      ticket = t;
      listed = first.listed;
      of_task = of_task;
      ready = first.passes;
      none_ready = λ u m lt. elim (Bool-cases (may_head shipped u)) [
        | inl good ↦ absurd (omega (arith, first.least u m good))
        | inr bad ↦ bad
      ];
      none_publishing =
          λ u m lt. ground (arith, sorted-head_none (holds_before t) (tickets_of file) u unheld m);
    }

can_land_complete :
    (task : String) (shipped : List String) (file : File)
    → IsOrdered (tickets_of file)
    → MayLand task shipped (tickets_of file)
    → can_land task shipped file ≡ true
unfolding can_land
can_land_complete task shipped file o l =
    rw (unheld, can_land, headed) ((eq_iff l.ticket.task_id task).1 l.of_task)
  where
    unheld : delivery_hold task file ≡ none
    unheld = elim (Option-cases (delivery_hold task file)) [
      | inl free ↦ free
      | inr (u, held) ↦
          let e = delivery_hold-listed task file l.ticket o l.listed l.of_task in
          let f = sorted-head-IsFirst (holds_before l.ticket) (tickets_of file) u (sym e ∙ held) in
          absurd (ground (arith, f.passes, l.none_publishing u f.listed))
    ]

    headed : queue_head shipped file ≡ some l.ticket
    headed = elim (Option-cases (queue_head shipped file)) [
      | inl empty ↦ cc (
          sym (sorted-head_none (may_head shipped) (tickets_of file) l.ticket empty l.listed)
          ∙ l.ready)
      | inr (u, head) ↦
          let f = queue_head-IsFirst shipped file u head in
          rw (
            head,
            IsOrdered-unique (tickets_of file) u l.ticket o f.listed l.listed (
                inr ground
                  (arith, f.passes, f.least l.ticket l.listed l.ready, l.none_ready u f.listed)),
          )
    ]

-- A task of a well-formed queue may land exactly when its ticket is ready (eligible, all its
-- blockers shipped), no ticket before it is ready, and none before it is publishing.
pub can_land_iff :
    (task : String) (shipped : List String) (q : Queue)
    → IsValid q
    → (can_land task shipped (some q) ≡ true) ↔ MayLand task shipped q.tickets
can_land_iff task shipped q v = (
  can_land_sound task shipped (some q) v.ordered,
  can_land_complete task shipped (some q) v.ordered,
)
