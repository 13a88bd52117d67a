-- ===== src/Scheduler/Active.antt =====
-- The rows that the planner writes and asks for (src/scheduler/services/scheduled_tasks.service.ts,
-- history.service.ts) and the jobs that it adds to the queue.
use six_1_core_api.Prelude.{
  ℕ, suc, ◌+◌, ◌-◌, String, Bool, true, false, ◌&&◌, Option, none, some, List, [], ◌∷◌, ◌++◌, map,
}
use six_1_core_api.Prelude.Tests.{◌==◌, leb, ltb, str_eq, if◌then◌else◌}
use six_1_core_api.Prelude.Lists.{any, filter, find}
use six_1_core_api.Scheduler.{ScheduledTask, Status, Store, Job, JobKind, update_row}

abbrev pub same_user : ℕ → Option ℕ → Bool
same_user u none = false
same_user u (some v) = v == u

abbrev pub has_assignee : Option ℕ → Bool
has_assignee none = false
has_assignee (some u) = true

-- What the table holds of a new row: its number, and what `createActive` sets over the draft.
abbrev pub created_row : ℕ → ScheduledTask → ScheduledTask
created_row id draft = record draft {
  scheduled_task_id = id;
  is_active = true;
  status = Status.scheduled;
  version = draft.version + 1;
}

-- The checks of the table, `chk_requested_window` and `chk_effective_window`.
abbrev pub is_admitted : ScheduledTask → Bool
is_admitted r =
    leb r.requested_start_utc r.requested_end_utc && leb r.effective_start_utc r.effective_end_utc

-- The new row is `created_row` of the number drawn.
abbrev pub insert_row : ScheduledTask → Store → Store
insert_row draft s = record s {
  rows = s.rows ++ created_row s.next_id draft ∷ [];
  next_id = suc s.next_id;
}

-- `createActive`; a row that a check of the table refuses makes it throw.
unfoldable pub create_active : ScheduledTask → Store → Option Store
create_active draft s = if is_admitted draft then some (insert_row draft s) else none

-- `loadActive`
unfoldable pub load_active : ℕ → Store → Option ScheduledTask
load_active id s = find (λ (r : ScheduledTask). (r.scheduled_task_id == id) && r.is_active) s.rows

abbrev pub set_queued : String → String → ScheduledTask → ScheduledTask
set_queued start_job end_job r = record r {
  status = Status.queued;
  start_job_id = some start_job;
  end_job_id = some end_job;
}

-- `markQueued`
unfoldable pub mark_queued : ℕ → String → String → Store → Store
mark_queued id start_job end_job = update_row (set_queued start_job end_job) id

-- Some time of the row lies in [from, to).
abbrev pub overlaps : ℕ → ℕ → ScheduledTask → Bool
overlaps from to r = ltb r.effective_start_utc to && ltb from r.effective_end_utc

abbrev pub busy : ℕ → ℕ → ℕ → ScheduledTask → Bool
busy user from to r = same_user user r.tenant_user_id && (r.is_active && overlaps from to r)

abbrev pub child_of : ℕ → ℕ → ℕ → ScheduledTask → Bool
child_of task from to r =
    (r.task_id == task) && (has_assignee r.tenant_user_id && (r.is_active && overlaps from to r))

-- `findUserOverlaps`
unfoldable pub find_user_overlaps : ℕ → ℕ → ℕ → List ScheduledTask → List ScheduledTask
find_user_overlaps user from to = filter (busy user from to)

-- `findTaskChildOverlaps`
unfoldable pub find_task_child_overlaps : ℕ → ℕ → ℕ → List ScheduledTask → List ScheduledTask
find_task_child_overlaps task from to = filter (child_of task from to)

-- `snapshot`
abbrev pub snapshot : ScheduledTask → Store → Store
snapshot r s = record s { history = s.history ++ r ∷ [] }

-- A job that has this id, which is its token, is in the queue.
abbrev pub has_job : String → List Job → Bool
has_job id queue = any (λ (j : Job). str_eq j.token id) queue

-- `queue.add` ignores a job whose id the queue has.
abbrev pub queue_add : Job → List Job → List Job
queue_add j queue = if has_job j.token queue then queue else queue ++ j ∷ []

-- `queue.add` with the delay of `msUntil`.
abbrev pub add_job : JobKind → ℕ → ℕ → String → ℕ → ℕ → Store → Store
add_job kind now id token at priority s = record s {
  queue =
      queue_add
        (record {
          scheduled_task_id = id;
          kind = kind;
          token = token;
          delay = at - now;
          priority = priority;
        })
        s.queue;
}

-- `deactivateAllForTask`
unfoldable pub deactivate_all_for_task : ℕ → Store → Store
deactivate_all_for_task task s = record s {
  rows =
      map
        (λ (r : ScheduledTask).
          if (r.task_id == task) && r.is_active then record r { is_active = false } else r)
        s.rows;
}
