-- ===== src/Scheduler/Commands.antt =====
-- src/scheduler/services/scheduler.service.ts: the window of a task (`scheduleTaskWindow`), and
-- the commands on a row: `reschedule`, `pause`, `resume` and `cancel`.
-- Times lie after the first minute of the epoch.
use six_1_core_api.Prelude.{ℕ, suc, ◌+◌, ◌-◌, true, false, Option, none, some, List, max}
use six_1_core_api.Prelude.Tests.{ltb, if◌then◌else◌}
use six_1_core_api.Scheduler.{
  ScheduledTask, Status, Store, BlockReason, nothing, update_row, find_row, pause_until, resume,
}
use six_1_core_api.Scheduler.Planning.{Days, next_allowed_utc}
use six_1_core_api.Scheduler.Dependencies.{Dependency, earliest_gate_utc}
use six_1_core_api.Scheduler.Active.{is_admitted, created_row, create_active, snapshot}
use six_1_core_api.Scheduler.Shifts.{Services, or_zero, end_from}
use six_1_core_api.Scheduler.Scheduling.{draw_tokens}

-- The constraint of a task, where it has one with its time.
pub data Constraint : Type 0 where
  unconstrained asap no_later_than : Constraint
  no_earlier_than on must_start_on : (at : ℕ) → Constraint
  must_finish_on : (at : Option ℕ) → Constraint

pub record Window : Type 0 where
  pub start : ℕ
  pub finish : ℕ

pub record WindowRequest : Type 0 where
  pub task_id : ℕ
  pub requested_start_utc : ℕ
  pub requested_end_utc : ℕ
  pub priority : Option ℕ
  pub parent_scheduled_task_id : Option ℕ

abbrev pub later : ℕ → ℕ → ℕ
later t g = if ltb t g then g else t

-- The gate of the predecessors, applied to the request.
unfoldable pub apply_gate : Option ℕ → Window → Window
apply_gate none w = w
apply_gate (some g) w = record {
  start = later w.start g;
  finish = if ltb w.finish (later w.start g) then later w.start g + 60000 else w.finish;
}

abbrev pub time_or : Option ℕ → ℕ → ℕ
time_or none t = t
time_or (some u) t = u

-- The switch on the constraint, after the gate.
unfoldable pub apply_constraint : Constraint → Window → Window
apply_constraint (no_earlier_than c) w = record w { start = later w.start c }
apply_constraint (on c) w = record w { start = c }
apply_constraint (must_start_on c) w = record w { start = c }
apply_constraint (must_finish_on c) w =
    let finish = time_or c w.finish in
    record { start = if ltb finish w.start then finish - 60000 else w.start; finish = finish }
apply_constraint _ w = w

abbrev pub requested_window : WindowRequest → Window
requested_window q = record { start = q.requested_start_utc; finish = q.requested_end_utc }

-- The window asked for, as the gate and the constraint leave it.
unfoldable pub constrained_window : List Dependency → Constraint → WindowRequest → Store → Window
constrained_window deps c q st =
    apply_constraint c (apply_gate (earliest_gate_utc deps st.rows q.task_id) (requested_window q))

-- The window that the calendar of a tenant or a user allows.
unfoldable pub fitted_window : Days → Window → Window
fitted_window d w =
    let start = next_allowed_utc d w.start in
    record { start = start; finish = end_from d (w.finish - w.start) start }

abbrev pub tenant_days : Services → ℕ → Option ℕ → Days
tenant_days v tenant user = v.days tenant user (v.timezone tenant user)

abbrev pub window_draft : Services → WindowRequest → Option ℕ → Window → Window → ℕ → ScheduledTask
window_draft v q gate asked fitted drawn = record {
  scheduled_task_id = 0;
  parent_scheduled_task_id = q.parent_scheduled_task_id;
  tenant_id = (v.context q.task_id).tenant_id;
  tenant_user_id = none;
  task_id = q.task_id;
  task_status_id = (v.context q.task_id).task_status_id;
  is_active = true;
  status = Status.scheduled;
  start_job_token = some (v.uuid drawn);
  end_job_token = some (v.uuid (suc drawn));
  start_job_id = none;
  end_job_id = none;
  start_attempts = 0;
  end_attempts = 0;
  requested_start_utc = asked.start;
  requested_end_utc = asked.finish;
  effective_start_utc = fitted.start;
  effective_end_utc = fitted.finish;
  actual_start_utc = none;
  actual_end_utc = none;
  tz_used = v.timezone (v.context q.task_id).tenant_id none;
  dependency_gate_utc = gate;
  blocked_until_utc = none;
  block_reason = nothing;
  last_error = none;
  priority = or_zero q.priority;
  version = 0;
}

-- The row that a call made, if it has not thrown, and the store that it leaves.
abbrev pub window_outcome : ℕ → ScheduledTask → Store → Option Store → Option ScheduledTask × Store
window_outcome id draft drawn none = (none, drawn)
window_outcome id draft drawn (some created) =
    (some (created_row id draft), snapshot (created_row id draft) created)

-- `scheduleTaskWindow`, without the process that may be attached to the row.
unfoldable pub schedule_task_window :
    Services → List Dependency → Constraint → WindowRequest → Store → Option ScheduledTask × Store
schedule_task_window v deps c q st =
    let asked = constrained_window deps c q st in
    let fitted = fitted_window (tenant_days v (v.context q.task_id).tenant_id none) asked in
    let draft = window_draft v q (earliest_gate_utc deps st.rows q.task_id) asked fitted st.drawn in
    window_outcome st.next_id draft (draw_tokens st) (create_active draft (draw_tokens st))

-- A command that finds no row throws and changes nothing.
abbrev pub or_unchanged : (ScheduledTask → Store → Store) → Option ScheduledTask → Store → Store
or_unchanged f none st = st
or_unchanged f (some r) st = f r st

-- `save` of a row that has been read, with its new version in the history.
abbrev pub save_row : (ScheduledTask → ScheduledTask) → ScheduledTask → Store → Store
save_row f r st = snapshot (f r) (update_row f r.scheduled_task_id st)

-- Both ends of the window are moved to allowed times.
unfoldable pub moved_window : Days → Window → Window
moved_window d w =
    let start = next_allowed_utc d w.start in
    record { start = start; finish = max start (next_allowed_utc d w.finish) }

abbrev pub set_window : Window → Window → ScheduledTask → ScheduledTask
set_window asked fitted r = record r {
  requested_start_utc = asked.start;
  requested_end_utc = asked.finish;
  effective_start_utc = fitted.start;
  effective_end_utc = fitted.finish;
}

-- A window that a check of the table refuses makes `save` throw.
unfoldable pub reschedule_found : Services → Window → ScheduledTask → Store → Store
reschedule_found v asked r st =
    let set = set_window asked (moved_window (tenant_days v r.tenant_id r.tenant_user_id) asked) in
    if is_admitted (set r) then save_row set r st else st

-- `reschedule`
unfoldable pub reschedule : Services → ℕ → Window → Store → Store
reschedule v id asked st = or_unchanged (reschedule_found v asked) (find_row id st) st

-- `pause`
unfoldable pub pause : ℕ → ℕ → Store → Store
pause id until st =
    or_unchanged (λ (r : ScheduledTask). pause_until r.scheduled_task_id until BlockReason.calendar)
      (find_row id st) st

-- `resume`
unfoldable pub resume_found : ℕ → Store → Store
resume_found id st =
    or_unchanged (λ (r : ScheduledTask). resume r.scheduled_task_id) (find_row id st) st

abbrev pub set_cancelled : ScheduledTask → ScheduledTask
set_cancelled r = record r { status = Status.cancelled; is_active = false }

-- `cancel`
unfoldable pub cancel : ℕ → Store → Store
cancel id st = or_unchanged (save_row set_cancelled) (find_row id st) st
