-- ===== src/Scheduler/Examples.antt =====
-- A shift from 9 to 17 (in hours), its jobs, and a task that waits for another.
use mathlib.Core.List.{Memᴰ}
use six_1_core_api.Prelude.{◌≡◌, ◌≢◌, refl, true, none, some, [], ◌∷◌}
use six_1_core_api.Scheduler.{
  ScheduledTask, Status, task_start, nothing, Store, find_row, is_within_any_interval, set_running,
}
use six_1_core_api.Scheduler.Worker.{Calendar, handle_start, handle_end}
use six_1_core_api.Scheduler.Dependencies.{
  Dependency, fs, ss, earliest_gate_utc, gates, gate_of, last_end,
}
use six_1_core_api.Scheduler.Gate.{NotBefore, earliest_gate_utc-after_ends}
use six_1_core_api.Scheduler.Jobs.{
  Deferred, handle_end-again, handle_start-again, handle_start-Deferred,
}

abbrev shift : ScheduledTask
shift = record {
  scheduled_task_id = 1;
  parent_scheduled_task_id = none;
  tenant_id = 6;
  tenant_user_id = some 2;
  task_id = 4;
  task_status_id = 1;
  is_active = true;
  status = Status.queued;
  start_job_token = some "s";
  end_job_token = some "e";
  start_job_id = some "s";
  end_job_id = some "e";
  start_attempts = 0;
  end_attempts = 0;
  requested_start_utc = 9;
  requested_end_utc = 17;
  effective_start_utc = 9;
  effective_end_utc = 17;
  actual_start_utc = none;
  actual_end_utc = none;
  tz_used = "UTC";
  dependency_gate_utc = none;
  blocked_until_utc = none;
  block_reason = nothing;
  last_error = none;
  priority = 0;
  version = 1;
}

abbrev store : Store
store = record {
  rows = shift ∷ [];
  shifts = [];
  history = [];
  events = [];
  queue = [];
  next_id = 2;
  next_shift = 1;
  drawn = 0;
}

abbrev office : Calendar
office = record { intervals = λ r t. record { start = 9; finish = 17 } ∷ []; next_day = λ r t. 24 }

abbrev after_shift : Dependency
after_shift = record { task_id = 5; depends_on_task_id = 4; dependency_type = fs }

-- Task 5 may start at 17, when task 4 ends.
gate_at_end : earliest_gate_utc (after_shift ∷ []) (shift ∷ []) 5 ≡ some 17
unfolding earliest_gate_utc gates gate_of last_end
gate_at_end = refl

fs-ne-ss : fs ≢ ss
fs-ne-ss e = cc

earliest_gate_utc-after_ends_example :
    NotBefore 17 (earliest_gate_utc (after_shift ∷ []) (shift ∷ []) 5)
earliest_gate_utc-after_ends_example =
    earliest_gate_utc-after_ends (after_shift ∷ []) (shift ∷ []) 5 after_shift shift
      (Memᴰ.head refl) refl fs-ne-ss (Memᴰ.head refl) refl refl

handle_end-again_example :
    handle_end 18 1 "e" (handle_end 17 1 "e" store) ≡ handle_end 17 1 "e" store
handle_end-again_example = handle_end-again 17 18 1 "e" store

handle_start-again_example :
    find_row 1 (handle_start office 10 1 "s" (handle_start office 9 1 "s" store))
    ≡ some (set_running 10 shift)
unfolding find_row is_within_any_interval
handle_start-again_example = handle_start-again office 9 10 1 "s" store shift refl refl refl refl

-- The start job is in the queue while it runs.
abbrev running_store : Store
running_store = record store {
  queue =
      record { scheduled_task_id = 1; kind = task_start; token = "s"; delay = 0; priority = 0 }
      ∷ [];
}

handle_start-Deferred_example :
    Deferred office 7 1 shift running_store (handle_start office 7 1 "s" running_store)
unfolding find_row is_within_any_interval
handle_start-Deferred_example =
    handle_start-Deferred office 7 1 "s" running_store shift refl refl refl refl
