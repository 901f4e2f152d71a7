-- ===== src/Recovery/Detected.antt =====
-- What the scan for interrupted tasks finds, src/hubTaskInterruptedExecutionDetector.ts.
use arch_loop.Lease.Store.{LeaseRecord}
use mathlib.Core.Option.{some_inj}
use arch_loop.Prelude.{
  Option, none, some, List, [], ◌∷◌, Bool, true, false, ◌≡◌, refl, sym, ap, ◌∙◌, ◌↔◌, ◌⊎◌, In, inl,
  inr, subst,
}
use arch_loop.Recovery.{Task}
use arch_loop.Recovery.Detector.{
  Phase, phase_of, lease_is_active, interrupted_phase, Interrupted, lease_for_task, detect,
  phase_unless, add_found,
}

-- A task in the middle of an execution of that phase, without a live lease.
pub record IsStuck (leases : List LeaseRecord) (task : Task) (phase : Phase) : Type 0 where
  pub in_phase : phase_of task.hub_status ≡ some phase
  pub no_lease :
      (lease : LeaseRecord) → lease_for_task task leases ≡ some lease → lease.is_active ≡ false

phase_unless-some :
    (b : Bool) (o : Option Phase) (phase : Phase)
    → (phase_unless b o ≡ some phase) ↔ ((o ≡ some phase) × (b ≡ false))
unfolding phase_unless
phase_unless-some b none phase = (λ e. cc, λ (e, f). cc)
phase_unless-some true (some found) phase = (λ e. cc, λ (e, f). cc)
phase_unless-some false (some found) phase = (λ e. (e, refl), λ (e, f). e)

idle-no_lease :
    (o : Option LeaseRecord)
    → ((lease : LeaseRecord) → o ≡ some lease → lease.is_active ≡ false)
    → lease_is_active o ≡ false
idle-no_lease none f = refl
idle-no_lease (some lease) f = f lease refl

same_interrupted :
    (i j : Interrupted) → i.task_id ≡ j.task_id → i.task ≡ j.task → i.phase ≡ j.phase → i ≡ j
same_interrupted i j a b c = λ k. record { task_id = a k; task = b k; phase = c k }

add_found-In :
    (task : Task) (o : Option Phase) (rest : List Interrupted) (i : Interrupted)
    → In i (add_found task o rest)
      ↔ (((i.task ≡ task) × (i.task_id ≡ task.id) × (o ≡ some i.phase)) ⊎ In i rest)
unfolding add_found
add_found-In task none rest i = (λ m. inr m, λ h. elim h [ inl (a, b, c) ↦ cc | inr m ↦ m ])
add_found-In task (some phase) rest i = (
  λ m. elim m [
    | inl e ↦ inl (ap (λ x. x.task) e, ap (λ x. x.task_id) e, ap (λ x. some x.phase) (sym e))
    | inr n ↦ inr n
  ],
  λ h. elim h [
    | inl (a, b, c) ↦ inl (
        same_interrupted i (record { task_id = task.id; task = task; phase = phase }) b a
          (sym (some_inj.0 c)))
    | inr n ↦ inr n
  ],
)

module _ (leases : List LeaseRecord) where
  interrupted_phase-IsStuck :
      (task : Task) (phase : Phase)
      → (interrupted_phase task (lease_for_task task leases) ≡ some phase)
        ↔ IsStuck leases task phase
  unfolding interrupted_phase
  interrupted_phase-IsStuck task phase =
      let found = lease_for_task task leases in
      let split = phase_unless-some (lease_is_active found) (phase_of task.hub_status) phase in
      (
        λ e.
            let (c, idle) = split.0 e in
            record { in_phase = c; no_lease = λ lease f. sym (ap lease_is_active f) ∙ idle },
        λ s. split.1 (s.in_phase, idle-no_lease found s.no_lease),
      )

  -- The scan finds exactly the tasks of the board that are in the middle of an execution and whose
  -- lease, the first that matches, is missing or not active; it tells the phase.
  pub detect_iff :
      (tasks : List Task) (i : Interrupted)
      → In i (detect tasks leases)
        ↔ (In i.task tasks × (i.task_id ≡ i.task.id) × IsStuck leases i.task i.phase)
  unfolding detect
  detect_iff [] i = (λ m. elim m [ ], λ h. elim h.0 [ ])
  detect_iff (task ∷ tasks) i =
      let phase = interrupted_phase task (lease_for_task task leases) in
      let split = add_found-In task phase (detect tasks leases) i in
      let rest = detect_iff tasks i in
      (
        λ m. elim (split.0 m) [
          | inl (a, b, c) ↦ (
            inl a,
            b ∙ ap (λ t. t.id) (sym a),
            subst (λ t. IsStuck leases t i.phase) (sym a)
                ((interrupted_phase-IsStuck task i.phase).0 c),
          )
          | inr n ↦ let (x, y, z) = rest.0 n in (inr x, y, z)
        ],
        λ (m, same, stuck). elim m [
          | inl a ↦ split.1 (
              inl (
                a,
                same ∙ ap (λ t. t.id) a,
                (interrupted_phase-IsStuck task i.phase).1
                    (subst (λ t. IsStuck leases t i.phase) a stuck),
              ))
          | inr n ↦ split.1 (inr (rest.1 (n, same, stuck)))
        ],
      )
