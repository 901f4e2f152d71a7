-- ===== src/Landing/Queue/Drift.antt =====
-- The limit of drift rebuilds and the end of the quiet wait, in src/hubLandingQueue.ts.
use native.Mathlib.Nat.{add-zero}
use arch_loop.Prelude.{
  ◌+◌, ◌≡◌, refl, ap, ◌∙◌, String, Option, none, some, ◌==◌, List, [], ◌∷◌, true, false, eq_iff,
  eq_refl, leb, find-mem, Bool-cases, inl, inr, arith, length, ◌⊎◌,
}
use arch_loop.Landing.Queue.{Ticket, queued, File, is_task, find_ticket, update_ticket}
use arch_loop.Landing.Queue.Quiet.{
  record_drift_rebuild, resume_quiet_wait, should_enter_quiet_wait, resumed, waiting, is_waiting,
  has_moved, seen_at, restart,
}
use arch_loop.Landing.Queue.Validity.{IsValidFile, Keeps}
use arch_loop.Landing.Queue.Update.{update_ticket-IsValid, find_ticket-update_ticket}

find_ticket-of :
    (task : String) (file : File) (t : Ticket) → find_ticket task file ≡ some t → t.task_id ≡ task
unfolding find_ticket
find_ticket-of task file t e = (eq_iff t.task_id task).0 (find-mem (is_task task) _ e).1

-- The ticket of the task after an update of it.
find_ticket-updated :
    (task : String) (patch : Ticket → Ticket) (file : File) (t : Ticket)
    → ((u : Ticket) → Keeps u (patch u))
    → IsValidFile file
    → find_ticket task file ≡ some t
    → find_ticket task (update_ticket task patch file).0 ≡ some (patch t)
find_ticket-updated task patch file t keeps v e = rw (
  find_ticket-update_ticket task task patch file keeps v,
  e,
  (eq_iff t.task_id task).1 (find_ticket-of task file t e),
)

-- A rebuild for each observed target.
pub rebuilds : String → String → List String → File → File
rebuilds now task [] file = file
rebuilds now task (o ∷ os) file = rebuilds now task os (record_drift_rebuild now task o file).0

record_drift_rebuild-find :
    (now task observed : String) (file : File) (t : Ticket)
    → IsValidFile file
    → find_ticket task file ≡ some t
    → (u : Ticket) × (find_ticket task (record_drift_rebuild now task observed file).0 ≡ some u)
      × (u.activation_drift_rebuilds ≡ t.activation_drift_rebuilds + 1)
unfolding record_drift_rebuild
record_drift_rebuild-find now task observed file t v e =
    (_, find_ticket-updated task _ file t (λ u. (refl, refl, refl)) v e, rw e refl)

record_drift_rebuild-IsValid :
    (now task observed : String) (file : File)
    → IsValidFile file
    → IsValidFile (record_drift_rebuild now task observed file).0
unfolding record_drift_rebuild
record_drift_rebuild-IsValid now task observed file v =
    update_ticket-IsValid task _ file (λ u. (refl, refl, refl)) v

-- A task is sent to the quiet wait exactly when the rebuilds of its activation, those on its
-- ticket and those recorded since, are three or more.
pub rebuilds-should_enter :
    (now task : String) (os : List String) (file : File) (t : Ticket)
    → IsValidFile file
    → find_ticket task file ≡ some t
    → should_enter_quiet_wait task (rebuilds now task os file)
      ≡ leb 3 (t.activation_drift_rebuilds + length os)
unfolding rebuilds
rebuilds-should_enter now task [] file t v e =
    unfold should_enter_quiet_wait in rw (e, add-zero t.activation_drift_rebuilds)
rebuilds-should_enter now task (o ∷ os) file t v e =
    let (u, found, more) = record_drift_rebuild-find now task o file t v e in
    let file' = (record_drift_rebuild now task o file).0 in
    rebuilds-should_enter now task os file' u (record_drift_rebuild-IsValid now task o file v) found
    ∙ ap (leb 3) (omega (arith, more))

-- The ticket of the task is queued again, with no rebuild counted.
pub record Restarted (task : String) (file : File) : Type 0 where
  pub ticket : Ticket
  pub found : find_ticket task file ≡ some ticket
  pub is_queued : ticket.status ≡ queued
  pub reset : ticket.activation_drift_rebuilds ≡ 0

module _ (now task observed : String) (file : File) (t : Ticket) (v : IsValidFile file)
    (e : find_ticket task file ≡ some t) (w : is_waiting t.status ≡ true) where
  resume-stable :
      has_moved t.last_observed_target_oid observed ≡ false
      → ((resume_quiet_wait now task observed file).1 ≡ resumed)
        × Restarted task (resume_quiet_wait now task observed file).0
  resume-stable stable = (
    unfold resume_quiet_wait in rw (e, resume_quiet_wait, w, stable),
    unfold resume_quiet_wait in
        rw (e, resume_quiet_wait, w, stable)
          (record {
            ticket = restart now task observed t;
            found =
                find_ticket-updated task (restart now task observed) file t
                  (λ u. (refl, refl, refl)) v e;
            is_queued = refl;
            reset = refl;
          }),
  )

  resume-moved :
      has_moved t.last_observed_target_oid observed ≡ true
      → resume_quiet_wait now task observed file
        ≡ ((update_ticket task (seen_at observed) file).0, waiting)
  unfolding resume_quiet_wait
  resume-moved moved = rw (e, resume_quiet_wait, w, moved)

has_moved-seen : (observed : String) → has_moved (some observed) observed ≡ false
has_moved-seen observed = ground (arith, eq_refl observed)

-- No target was seen before, or an empty one, or the one that is observed now.
abbrev pub IsStill : Option String → String → Type 0
IsStill last observed = (last ≡ none) ⊎ ((last ≡ some "") ⊎ (last ≡ some observed))

still-stays :
    (last : Option String) (observed : String)
    → IsStill last observed
    → has_moved last observed ≡ false
still-stays last observed (inl e) = rw e refl
still-stays last observed (inr (inl e)) = rw e refl
still-stays last observed (inr (inr e)) = rw e (has_moved-seen observed)

moved-moves :
    (last : Option String) (observed : String)
    → (IsStill last observed → ⊥)
    → has_moved last observed ≡ true
moved-moves none observed n = absurd (n (inl refl))
moved-moves (some last) observed n = elim (Bool-cases (last == "")) [
  | inl h ↦ absurd (n (inr (inl (ap some ((eq_iff last "").0 h)))))
  | inr h ↦ elim (Bool-cases (last == observed)) [
    | inl k ↦ absurd (n (inr (inr (ap some ((eq_iff last observed).0 k)))))
    | inr k ↦ rw (h, k) refl
  ]
]

-- A waiting task is queued again at once, with no rebuild counted, if no target or the same one was
-- seen before; if another one was seen, the task waits, and one more call that sees the target at
-- the same place queues it.
pub resume_quiet_wait_ends :
    (now task observed : String) (file : File) (t : Ticket)
    → IsValidFile file
    → find_ticket task file ≡ some t
    → is_waiting t.status ≡ true
    → let (next, answer) = resume_quiet_wait now task observed file in
      let (last, again) = resume_quiet_wait now task observed next in
      (IsStill t.last_observed_target_oid observed → (answer ≡ resumed) × Restarted task next)
      × ((IsStill t.last_observed_target_oid observed → ⊥)
          → (answer ≡ waiting) × (again ≡ resumed) × Restarted task last)
resume_quiet_wait_ends now task observed file t v e w = (
  λ still.
      resume-stable now task observed file t v e w
        (still-stays t.last_observed_target_oid observed still),
  λ n.
      let file' = (update_ticket task (seen_at observed) file).0 in
      let (again, restarted) =
        resume-stable now task observed file' (seen_at observed t)
          (update_ticket-IsValid task (seen_at observed) file (λ u. (refl, refl, refl)) v)
          (find_ticket-updated task (seen_at observed) file t (λ u. (refl, refl, refl)) v e) w
          (has_moved-seen observed) in
      rw
        (resume-moved now task observed file t v e w
          (moved-moves t.last_observed_target_oid observed n))
        (refl, again, restarted),
)
