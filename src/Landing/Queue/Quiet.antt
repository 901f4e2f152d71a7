-- ===== src/Landing/Queue/Quiet.antt =====
-- Target drift: rebuilds of one activation, the quiet wait, and its end.
use arch_loop.Prelude.{
  ℕ, ◌+◌, String, Option, none, some, Bool, true, false, if◌then◌else◌, ◌==◌, leb, or_else,
}
use arch_loop.Landing.Queue.{
  queued, target_quiet_wait, TicketStatus, Ticket, File, find_ticket, update_ticket,
}
use arch_loop.Landing.Queue.TicketId.{◌+text◌}

-- `HUB_LANDING_TARGET_DRIFT_REBUILD_LIMIT`
abbrev pub drift_rebuild_limit : ℕ
drift_rebuild_limit = 3

abbrev pub drifts : Option Ticket → ℕ
drifts none = 0
drifts (some t) = t.activation_drift_rebuilds

abbrev pub activation : Option Ticket → Option String
activation none = none
activation (some t) = t.activation_id

abbrev pub new_activation : String → String → String
new_activation task now = "act-" +text task +text "-" +text now

unfoldable pub record_drift_rebuild : String → String → String → File → File × Option Ticket
unfolding update_ticket find_ticket
record_drift_rebuild now task observed file =
    let current = find_ticket task file in
    update_ticket task
      (λ t. record t {
        activation_id = some (or_else (activation current) (new_activation task now));
        activation_drift_rebuilds = drifts current + 1;
        last_observed_target_oid = some observed;
        status = queued;
      })
      file

unfoldable pub should_enter_quiet_wait : String → File → Bool
unfolding find_ticket
should_enter_quiet_wait task file = leb drift_rebuild_limit (drifts (find_ticket task file))

unfoldable pub enter_quiet_wait : String → String → String → File → File × Option Ticket
unfolding update_ticket
enter_quiet_wait now task observed = update_ticket task (λ t. record t {
  status = target_quiet_wait;
  last_observed_target_oid = some observed;
  quiet_wait_entered_at = some now;
})

pub data Resume : Type 0 where
  resumed waiting not_waiting : Resume

abbrev pub is_waiting : TicketStatus → Bool
is_waiting target_quiet_wait = true
is_waiting _ = false

-- `last && last !== observed`
abbrev pub has_moved : Option String → String → Bool
has_moved none observed = false
has_moved (some last) observed =
    if last == "" then false else if last == observed then false else true

abbrev pub seen_at : String → Ticket → Ticket
seen_at observed t = record t { last_observed_target_oid = some observed }

abbrev pub restart : String → String → String → Ticket → Ticket
restart now task observed t = record t {
  status = queued;
  activation_id = some (new_activation task now);
  activation_drift_rebuilds = 0;
  quiet_wait_entered_at = none;
  last_observed_target_oid = some observed;
}

unfoldable pub resume_quiet_wait : String → String → String → File → File × Resume
unfolding update_ticket find_ticket
resume_quiet_wait now task observed file = elim (find_ticket task file) [
  | none ↦ (file, not_waiting)
  | some t ↦
      if is_waiting t.status
      then if has_moved t.last_observed_target_oid observed
        then ((update_ticket task (seen_at observed) file).0, waiting)
        else ((update_ticket task (restart now task observed) file).0, resumed)
      else (file, not_waiting)
]
