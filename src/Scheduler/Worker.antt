-- ===== src/Scheduler/Worker.antt =====
-- The worker of the queue `task-scheduler` (src/scheduler/processors/task.processor.ts): the start
-- and the end of a row, and a job that fails.
use six_1_core_api.Prelude.{ℕ, ◌-◌, String, Bool, false, not, ◌&&◌, Option, none, some, List}
use six_1_core_api.Prelude.Tests.{◌==◌, str_eq, if◌then◌else◌}
use six_1_core_api.Scheduler.{
  ScheduledTask, Status, Store, Event, deferred, run_start, run_end, task_start, calendar, Interval,
  emit, update_row, find_row, pause_until, mark_running, mark_completed, is_within_any_interval,
  next_start_after,
}
use six_1_core_api.Scheduler.Active.{queue_add}

-- The calendar of a row: the working intervals (those that luxon finds valid) of the local day of a time, none on a day off, and
-- the start of the next local day. It stands for the provider and for luxon's time zones.
pub record Calendar : Type 0 where
  pub intervals : ScheduledTask → ℕ → List Interval
  pub next_day : ScheduledTask → ℕ → ℕ

abbrev pub token_eq : Option String → String → Bool
token_eq none t = false
token_eq (some s) t = str_eq s t

-- `if (row.tenantUserId)`
abbrev pub has_user : Option ℕ → Bool
has_user none = false
has_user (some u) = not (u == 0)

abbrev pub or_next_day : Option ℕ → ℕ → ℕ
or_next_day none d = d
or_next_day (some t) d = t

-- When a row that may not start now is tried again.
abbrev pub next_try : Calendar → ℕ → ScheduledTask → ℕ
next_try cal now r = or_next_day (next_start_after now (cal.intervals r now)) (cal.next_day r now)

-- The calendar holds the row back: it has a user, who does not work now.
abbrev pub held_back : Calendar → ℕ → ScheduledTask → Bool
held_back cal now r =
    has_user r.tenant_user_id && not (is_within_any_interval now (cal.intervals r now))

unfoldable pub defer : Calendar → ℕ → String → ScheduledTask → Store → Store
defer cal now token r s =
    let next = next_try cal now r in
    let s1 =
      emit (deferred r.scheduled_task_id next) (pause_until r.scheduled_task_id next calendar s) in
    record s1 {
      queue =
          queue_add
            (record {
              scheduled_task_id = r.scheduled_task_id;
              kind = task_start;
              token = token;
              delay = next - now;
              priority = 0;
            })
            s1.queue;
    }

unfoldable pub start_row : ℕ → ScheduledTask → Store → Store
start_row now r s = emit (run_start r.scheduled_task_id) (mark_running r.scheduled_task_id now s)

unfoldable pub start_found : Calendar → ℕ → String → Option ScheduledTask → Store → Store
start_found cal now token none s = s
start_found cal now token (some r) s =
    if r.is_active && token_eq r.start_job_token token
    then (if held_back cal now r then defer cal now token r s else start_row now r s)
    else s

-- `handleStart`
unfoldable pub handle_start : Calendar → ℕ → ℕ → String → Store → Store
handle_start cal now id token s = start_found cal now token (find_row id s) s

unfoldable pub end_found : ℕ → String → Option ScheduledTask → Store → Store
end_found now token none s = s
end_found now token (some r) s =
    if r.is_active && token_eq r.end_job_token token
    then emit (run_end r.scheduled_task_id) (mark_completed r.scheduled_task_id now s)
    else s

-- `handleEnd`
unfoldable pub handle_end : ℕ → ℕ → String → Store → Store
handle_end now id token s = end_found now token (find_row id s) s

abbrev pub message_or : Option String → String
message_or none = "failed"
message_or (some m) = m

-- `onFailed`
unfoldable pub on_failed : ℕ → Option String → Store → Store
on_failed id message s =
    if id == 0
    then s
    else emit (Event.failed id) (
        update_row
          (λ (r : ScheduledTask). record r {
            last_error = some (message_or message);
            status = Status.failed;
          })
          id s)
