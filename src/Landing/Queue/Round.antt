-- ===== src/Landing/Queue/Round.antt =====
-- One round of the loop of `assignHubLandingQueueTickets`, src/hubLandingQueue.ts: the map from
-- tasks to tickets and the tickets agree, and the queue stays well formed.
use arch_loop.Prelude.{
  subst, mem-All, In-append, append-In_left, append-In_last, All-append, ◌+◌, ◌≤◌, ◌≡◌, refl, sym,
  ap, ◌∙◌, ◌≢◌, ◌⊎◌, String, none, some, List, [], ◌∷◌, ◌++◌, ◌==◌, eq_iff, In, All, All-mem,
  All-append, Bool-cases, Option-cases, inl, inr, arith,
}
use mathlib.Core.Option.{some-injective, some-ne-none}
use arch_loop.Landing.Queue.{Ticket, Queue}
use arch_loop.Landing.Queue.TicketId.{ticket_id-injective}
use arch_loop.Landing.Queue.Assign.{
  TaskInput, TicketMap, get, map_from, set_first, refreshed, new_ticket, Progress, assign_task,
  start,
}
use arch_loop.Landing.Queue.Validity.{IsOrdered, IsNumbered, IsValid, Keeps}
use arch_loop.Landing.Queue.Fifo.{IsOrdered-unique}
use arch_loop.Landing.Queue.Extends.{
  Extends, Extends-push, Extends-set_first, Extends-forward, IsOrdered-push, IsNumbered-suc,
  IsOrdered-set_first, IsNumbered-set_first, Keeps-sym, Keeps-trans, All-set_first,
}

-- The map knows a ticket of every task that has one, with its identity.
pub record Knows (m : TicketMap) (ts : List Ticket) : Type 0 where
  pub known :
      (task : String) (t : Ticket)
      → get task m ≡ some t
      → (t.task_id ≡ task) × ((u : Ticket) × In u ts × Keeps t u)
  pub unknown : (task : String) → get task m ≡ none → (u : Ticket) → In u ts → u.task_id ≢ task

pub record IsSound (p : Progress) : Type 0 where
  pub ordered : IsOrdered p.tickets
  pub numbered : All (IsNumbered p.next_sequence) p.tickets
  pub knows : Knows p.by_task p.tickets

get-map_from :
    (task : String) (m : TicketMap) (ts : List Ticket) (t : Ticket)
    → get task (map_from m ts) ≡ some t
    → (get task m ≡ some t) ⊎ (In t ts × (t.task_id ≡ task))
unfolding map_from get
get-map_from task m [] t e = inl e
get-map_from task m (u ∷ us) t e = elim (get-map_from task ((u.task_id, u) ∷ m) us t e) [
  | inr (n, h) ↦ inr (inr n, h)
  | inl old ↦ elim (Bool-cases (u.task_id == task)) [
    | inl here ↦
        let c : u ≡ t = some-injective u t (rw here at old) in
        inr (inl (sym c), rw (← c) ((eq_iff u.task_id task).0 here))
    | inr there ↦ inl (rw there at old)
  ]
]

get-map_from-none :
    (task : String) (m : TicketMap) (ts : List Ticket)
    → get task (map_from m ts) ≡ none
    → (get task m ≡ none) × ((u : Ticket) → In u ts → u.task_id ≢ task)
unfolding map_from get
get-map_from-none task m [] e = (e, λ u n. absurd n)
get-map_from-none task m (x ∷ xs) e =
    let (old, rest) = get-map_from-none task ((x.task_id, x) ∷ m) xs e in
    elim (Bool-cases (x.task_id == task)) [
      | inl here ↦ absurd (some-ne-none x (rw here at old))
      | inr there ↦ (
        rw there at old,
        λ u n. elim n [
          | inl c ↦ λ d. cc (sym there ∙ (eq_iff x.task_id task).1 (sym (ap task_of c) ∙ d))
          | inr later ↦ rest u later
        ],
      )
    ]
  where
    task_of : Ticket → String
    task_of u = u.task_id

pub start-IsSound : (q : Queue) → IsValid q → IsSound (start q)
unfolding start
start-IsSound q v = record {
  ordered = v.ordered;
  numbered = v.numbered;
  knows = record {
    known = λ task t e. elim (get-map_from task [] q.tickets t e) [
      | inl old ↦ absurd (unfold get in some-ne-none t (sym old))
      | inr (m, h) ↦ (h, (t, m, (refl, refl, refl)))
    ];
    unknown = λ task e. (get-map_from-none task [] q.tickets e).1;
  };
}

module _ (now : String) (p : Progress) (s : IsSound p) (task : TaskInput) where
  -- A ticket with the id of the one that the map knows is that one, but for what may change.
  same_ticket :
      (current u : Ticket)
      → get task.task_id p.by_task ≡ some current
      → In u p.tickets
      → u.ticket_id ≡ current.ticket_id
      → Keeps u (refreshed task current)
  same_ticket current u e m same =
      let (of_task, (w, n, k)) = s.knows.known task.task_id current e in
      let nu = All-mem (IsNumbered p.next_sequence) p.tickets m s.numbered in
      let nw = All-mem (IsNumbered p.next_sequence) p.tickets n s.numbered in
      let numbers =
        ticket_id-injective u.task_id w.task_id u.sequence w.sequence
          (sym nu.1 ∙ same ∙ sym k.2 ∙ nw.1) in
      rw (IsOrdered-unique p.tickets u w s.ordered m n (inr numbers)) (Keeps-sym current w k)

  module _ (current : Ticket) (e : get task.task_id p.by_task ≡ some current) where
    refreshed_at : List Ticket
    refreshed_at = set_first current.ticket_id (refreshed task current) p.tickets

    refreshed-Extends : Extends p.next_sequence p.tickets refreshed_at
    unfolding refreshed_at
    refreshed-Extends =
        Extends-set_first p.next_sequence current.ticket_id (refreshed task current) p.tickets
          (λ u m same. same_ticket current u e m same)

    refreshed-unknown :
        (other : String)
        → get other p.by_task ≡ none
        → (u : Ticket) → In u refreshed_at
        → u.task_id ≢ other
    unfolding refreshed_at
    refreshed-unknown other d u m =
        All-mem (λ v. v.task_id ≢ other) refreshed_at m
          (All-set_first (λ v. v.task_id ≢ other) current.ticket_id (refreshed task current)
            p.tickets (λ v n same ne c. ne (sym (same_ticket current v e n same).1 ∙ c))
            (mem-All (λ v. v.task_id ≢ other) p.tickets (s.knows.unknown other d)))

    refreshed-IsSound : IsSound (record p { tickets = refreshed_at })
    unfolding refreshed_at
    refreshed-IsSound = record {
      ordered =
          IsOrdered-set_first current.ticket_id (refreshed task current) p.tickets
            (λ u m same. same_ticket current u e m same) s.ordered;
      numbered =
          IsNumbered-set_first current.ticket_id (refreshed task current) p.next_sequence p.tickets
            (λ u m same. same_ticket current u e m same) s.numbered;
      knows = record {
        known = λ other t d.
            let (of_task, (w, n, k)) = s.knows.known other t d in
            let (v, l, h) =
              Extends-forward p.next_sequence p.tickets refreshed_at w refreshed-Extends n in
            (of_task, (v, l, Keeps-trans t w v k h));
        unknown = refreshed-unknown;
      };
    }

  module _ (e : get task.task_id p.by_task ≡ none) where
    added : Ticket
    added = new_ticket task p.next_sequence now

    pushed-known :
        (other : String) (t : Ticket)
        → get other ((task.task_id, added) ∷ p.by_task) ≡ some t
        → (t.task_id ≡ other) × ((u : Ticket) × In u (p.tickets ++ (added ∷ [])) × Keeps t u)
    unfolding get added new_ticket
    pushed-known other t d = elim (Bool-cases (task.task_id == other)) [
      | inl here ↦
          let c : added ≡ t = some-injective added t (rw here at d) in
          rw (← c) (
            (eq_iff task.task_id other).0 here,
            (added, append-In_last p.tickets added, (refl, refl, refl)),
          )
      | inr there ↦
          let (of_task, (w, n, k)) = s.knows.known other t (rw there at d) in
          (of_task, (w, append-In_left p.tickets (added ∷ []) w n, k))
    ]

    pushed-unknown :
        (other : String)
        → get other ((task.task_id, added) ∷ p.by_task) ≡ none
        → (u : Ticket) → In u (p.tickets ++ (added ∷ []))
        → u.task_id ≢ other
    unfolding get added new_ticket
    pushed-unknown other d u m = elim (Bool-cases (task.task_id == other)) [
      | inl here ↦ absurd (some-ne-none added (rw here at d))
      | inr there ↦ elim (In-append p.tickets (added ∷ []) u m) [
        | inl n ↦ s.knows.unknown other (rw there at d) u n
        | inr n ↦ λ c. elim n [
          | inl f ↦
              cc (sym there ∙ (eq_iff task.task_id other).1 (subst (λ v. v.task_id ≡ other) f c))
          | inr none_left ↦ none_left
        ]
      ]
    ]

    pushed-IsSound : IsSound (record {
      by_task = (task.task_id, added) ∷ p.by_task;
      next_sequence = p.next_sequence + 1;
      tickets = p.tickets ++ (added ∷ []);
    })
    unfolding added new_ticket
    pushed-IsSound = record {
      ordered =
          IsOrdered-push p.next_sequence added p.tickets refl (s.knows.unknown task.task_id e)
            s.numbered s.ordered;
      numbered =
          All-append (IsNumbered (p.next_sequence + 1)) p.tickets (added ∷ [])
            (IsNumbered-suc p.next_sequence p.tickets s.numbered) ((omega arith, refl), tt);
      knows = record { known = pushed-known; unknown = pushed-unknown };
    }

  pub assign_task-IsSound : IsSound (assign_task now p task)
  unfolding assign_task refreshed_at added
  assign_task-IsSound = elim (Option-cases (get task.task_id p.by_task)) [
    | inl new ↦ rw (new, assign_task) (pushed-IsSound new)
    | inr (current, e) ↦ rw (e, assign_task) (refreshed-IsSound current e)
  ]

  pub assign_task-Extends :
      Extends p.next_sequence p.tickets (assign_task now p task).tickets
      × (p.next_sequence ≤ (assign_task now p task).next_sequence)
  unfolding assign_task refreshed_at
  assign_task-Extends = elim (Option-cases (get task.task_id p.by_task)) [
    | inl new ↦
        rw (new, assign_task)
          (
            Extends-push p.next_sequence (new_ticket task p.next_sequence now) p.tickets
                (unfold new_ticket in refl),
            omega arith,
          )
    | inr (current, e) ↦ rw (e, assign_task) (refreshed-Extends current e, omega arith)
  ]
