-- ===== src/Scheduler.antt =====
-- src/scheduler: the rows of scheduled_tasks and the operations on them
-- (services/scheduled_tasks.service.ts), the worker of the queue `task-scheduler`
-- (processors/task.processor.ts, core/time_utils.ts). Times are milliseconds of UTC.
use six_1_core_api.Prelude.{
  ℕ, ◌+◌, ◌-◌, String, Bool, true, false, not, ◌&&◌, ◌||◌, Option, none, some, List, [], ◌∷◌, ◌++◌,
  map, max,
}
use six_1_core_api.Prelude.Tests.{◌==◌, ltb, leb, str_eq, if◌then◌else◌}
use six_1_core_api.Prelude.Lists.{any, filter, find}
pub mod Worker
pub mod Dependencies
pub mod Gate
pub mod Active
pub mod Shifts
pub mod Scheduling
pub mod Commands
pub mod Written
pub mod Serial
pub mod Clear
pub mod Free
pub mod Matched
pub mod Steps
pub mod Predecessors
pub mod Listing
pub mod Pages
pub mod ShiftsExamples
pub mod Jobs
pub mod Planning
pub mod Allowed
pub mod Working
pub mod Served
pub mod Durations
pub mod Added
pub mod PlanningExamples
pub mod Examples

pub data Status : Type 0 where
  scheduled queued running completed failed cancelled paused expired : Status

pub data BlockReason : Type 0 where
  nothing calendar dependency : BlockReason

-- scheduled_tasks
pub record ScheduledTask : Type 0 where
  pub scheduled_task_id : ℕ
  pub parent_scheduled_task_id : Option ℕ
  pub tenant_id : ℕ
  pub tenant_user_id : Option ℕ
  pub task_id : ℕ
  pub task_status_id : ℕ
  pub is_active : Bool
  pub status : Status
  pub start_job_token : Option String
  pub end_job_token : Option String
  pub start_job_id : Option String
  pub end_job_id : Option String
  pub start_attempts : ℕ
  pub end_attempts : ℕ
  pub requested_start_utc : ℕ
  pub requested_end_utc : ℕ
  pub effective_start_utc : ℕ
  pub effective_end_utc : ℕ
  pub actual_start_utc : Option ℕ
  pub actual_end_utc : Option ℕ
  pub tz_used : String
  pub dependency_gate_utc : Option ℕ
  pub blocked_until_utc : Option ℕ
  pub block_reason : BlockReason
  pub last_error : Option String
  pub priority : ℕ
  pub version : ℕ

-- resource_assignment_shifts, less the columns that nothing here sets.
pub record ShiftRow : Type 0 where
  pub shift_id : ℕ
  pub resource_assignment_id : ℕ
  pub tenant_user_id : ℕ
  pub sequence_no : ℕ
  pub planned_start_utc : ℕ
  pub planned_end_utc : ℕ
  pub scheduled_task_id : Option ℕ

pub data Event : Type 0 where
  deferred : (scheduled_task_id next_utc : ℕ) → Event
  run_start run_end failed : (scheduled_task_id : ℕ) → Event
  enqueued_start enqueued_end : (scheduled_task_id at : ℕ) (job_id : String) → Event

pub data JobKind : Type 0 where
  task_start task_end : JobKind

-- A job of the queue; its id there is its token.
pub record Job : Type 0 where
  pub scheduled_task_id : ℕ
  pub kind : JobKind
  pub token : String
  pub delay : ℕ
  pub priority : ℕ

-- The tables, what has been emitted and the jobs that have been added to the queue. The database
-- numbers the rows and the shifts; `drawn` counts the random tokens.
pub record Store : Type 0 where
  pub rows : List ScheduledTask
  pub shifts : List ShiftRow
  pub history : List ScheduledTask
  pub events : List Event
  pub queue : List Job
  pub next_id : ℕ
  pub next_shift : ℕ
  pub drawn : ℕ

unfoldable pub update_row : (ScheduledTask → ScheduledTask) → ℕ → Store → Store
update_row f id s = record s {
  rows = map (λ (r : ScheduledTask). if r.scheduled_task_id == id then f r else r) s.rows;
}

unfoldable pub find_row : ℕ → Store → Option ScheduledTask
find_row id s = find (λ (r : ScheduledTask). r.scheduled_task_id == id) s.rows

abbrev pub emit : Event → Store → Store
emit e s = record s { events = s.events ++ e ∷ [] }

abbrev pub set_running : ℕ → ScheduledTask → ScheduledTask
set_running when r = record r { actual_start_utc = some when; status = running }

abbrev pub set_completed : ℕ → ScheduledTask → ScheduledTask
set_completed when r = record r {
  actual_end_utc = some when;
  status = completed;
  is_active = false;
}

abbrev pub set_paused : ℕ → BlockReason → ScheduledTask → ScheduledTask
set_paused until reason r = record r {
  blocked_until_utc = some until;
  block_reason = reason;
  status = paused;
}

-- `markRunning`
unfoldable pub mark_running : ℕ → ℕ → Store → Store
mark_running id when = update_row (set_running when) id

-- `markCompleted`
unfoldable pub mark_completed : ℕ → ℕ → Store → Store
mark_completed id when = update_row (set_completed when) id

-- `pauseUntil`
unfoldable pub pause_until : ℕ → ℕ → BlockReason → Store → Store
pause_until id until reason = update_row (set_paused until reason) id

-- `resume`
unfoldable pub resume : ℕ → Store → Store
resume = update_row (λ (r : ScheduledTask). record r {
  blocked_until_utc = none;
  block_reason = nothing;
  status = scheduled;
})

pub record Interval : Type 0 where
  pub start : ℕ
  pub finish : ℕ

-- `Interval.contains`: the end is outside.
abbrev pub contains : ℕ → Interval → Bool
contains t i = leb i.start t && ltb t i.finish

-- `isWithinAnyInterval`
unfoldable pub is_within_any_interval : ℕ → List Interval → Bool
is_within_any_interval t = any (contains t)

abbrev pub earlier : ℕ → Option ℕ → ℕ
earlier a none = a
earlier a (some b) = if leb a b then a else b

-- `nextStartAfter`: the first of the later starts, in ascending order.
unfoldable pub next_start_after : ℕ → List Interval → Option ℕ
next_start_after t [] = none
next_start_after t (i ∷ is) =
    let rest = next_start_after t is in if ltb t i.start then some (earlier i.start rest) else rest
