-- ===== src/Scheduler/ShiftsExamples.antt =====
-- Two shifts of one task on the first day, in office hours, and the commands on their rows.
use mathlib.Core.List.{Memᴰ}
use six_1_core_api.Prelude.{◌≡◌, refl, none, some, List, [], ◌∷◌, arith}
use six_1_core_api.Prelude.Tests.{◌==◌, if◌then◌else◌}
use six_1_core_api.Scheduler.{ScheduledTask, Store, update_row, is_within_any_interval}
use six_1_core_api.Scheduler.Worker.{Calendar, handle_start, handle_end}
use six_1_core_api.Scheduler.Planning.{
  next_allowed_utc, allowed_on, next_allowed_from, serve, serve_all, add_from,
  add_duration_within_working_hours,
}
use six_1_core_api.Scheduler.PlanningExamples.{office, office-Sound}
use six_1_core_api.Scheduler.Dependencies.{Dependency, fs}
use six_1_core_api.Scheduler.Active.{create_active, created_row, mark_queued, find_user_overlaps}
use six_1_core_api.Scheduler.Shifts.{
  Services, Shift, Request, insert_shift, sort_shifts, after_previous, serialize_after, serialize,
  validate_existence, place_among, place,
}
use six_1_core_api.Scheduler.Scheduling.{
  Created, child_draft, write_child, schedule_all, schedule_from_shifts,
}
use six_1_core_api.Scheduler.Commands.{
  asap, WindowRequest, constrained_window, schedule_task_window, cancel,
}
use six_1_core_api.Scheduler.Serial.{Planned, schedule_from_shifts-Planned}
use six_1_core_api.Scheduler.Clear.{WellAmong, place-WellAmong}
use six_1_core_api.Scheduler.Matched.{Matched}
use six_1_core_api.Scheduler.Steps.{stay, next, plans, starts, store_of, Steps-Matched}
use six_1_core_api.Scheduler.Listing.{Filters, build_find_query}
use six_1_core_api.Scheduler.Pages.{Sorts, OnPage, find_all-OnPage}
use six_1_core_api.Scheduler.Predecessors.{
  AfterEnd, cancel-silences, schedule_task_window-after_predecessors,
}

abbrev services : Services
services = record {
  now = 0;
  uuid = λ n. if n == 0 then "a" else "b";
  timezone = λ t u. "UTC";
  days = λ t u z. office;
  context = λ t. record { tenant_id = 6; task_status_id = 1 };
  assignments = 11 ∷ 12 ∷ [];
}

-- The second shift, asked for first, is planned from half past nine.
abbrev second : Shift
second = record {
  resource_assignment_id = 12;
  tenant_user_id = 2;
  planned_start_utc = 34200000;
  planned_end_utc = 37800000;
  sequence_no = some 2;
}

-- The first shift, from nine to ten.
abbrev first : Shift
first = record {
  resource_assignment_id = 11;
  tenant_user_id = 2;
  planned_start_utc = 32400000;
  planned_end_utc = 36000000;
  sequence_no = none;
}

abbrev request : Request
request = record {
  task_id = 4;
  priority = none;
  parent_scheduled_task_id = none;
  shifts = second ∷ first ∷ [];
}

abbrev empty : Store
empty = record {
  rows = [];
  shifts = [];
  history = [];
  events = [];
  queue = [];
  next_id = 1;
  next_shift = 1;
  drawn = 0;
}

abbrev planned : List Created
planned =
    record {
      shift_id = 1;
      scheduled_task_id = 1;
      effective_start_utc = 32400000;
      effective_end_utc = 36000000;
    }
    ∷ record {
      shift_id = 2;
      scheduled_task_id = 2;
      effective_start_utc = 36000000;
      effective_end_utc = 37800000;
    }
    ∷ []

schedule_from_shifts-Planned_example : Planned request planned
unfolding schedule_from_shifts schedule_all place place_among find_user_overlaps next_allowed_utc
    next_allowed_from allowed_on is_within_any_interval add_duration_within_working_hours add_from
    serve_all serve write_child mark_queued update_row create_active sort_shifts insert_shift
    serialize serialize_after after_previous validate_existence
schedule_from_shifts-Planned_example =
    schedule_from_shifts-Planned services request (λ t u z. office-Sound) empty
      (store_of (schedule_from_shifts services request empty)) planned refl

-- What the first shift stands as.
abbrev standing : ScheduledTask
standing = created_row 1 (child_draft services request first 0 32400000 36000000)

abbrev before_store : Store
before_store = record {
  rows = standing ∷ [];
  shifts = [];
  history = [];
  events = [];
  queue = [];
  next_id = 2;
  next_shift = 2;
  drawn = 2;
}

place-WellAmong_example :
    WellAmong office
      (standing ∷ [])
      2
      5
      3600000
      32400000
      (place office (standing ∷ []) 2 5 3600000 32400000)
place-WellAmong_example = place-WellAmong office (standing ∷ []) 2 5 3600000 32400000 office-Sound

all_day : Calendar
all_day = record {
  intervals = λ r t. record { start = 0; finish = 86400000 } ∷ [];
  next_day = λ r t. 86400000;
}

empty-Matched : Matched empty
empty-Matched = record { numbered = tt; carried = λ j m. elim m [ ] }

before_store-Matched : Matched before_store
before_store-Matched = record { numbered = (omega arith, tt); carried = λ j m. elim m [ ] }

-- The first shift is planned and started.
abbrev planned_store : Store
planned_store = store_of (schedule_from_shifts services request empty)

Steps-Matched_example : Matched (handle_start all_day 32400000 1 "a" planned_store)
Steps-Matched_example =
    Steps-Matched empty (handle_start all_day 32400000 1 "a" planned_store)
      (next (plans services request empty) (
        next (starts all_day 32400000 1 "a" planned_store)
          (stay (handle_start all_day 32400000 1 "a" planned_store))))
      empty-Matched

cancel-silences_example :
    (handle_start all_day 32400000 1 "a" (cancel 1 before_store) ≡ cancel 1 before_store)
    × (handle_end 32400000 1 "a" (cancel 1 before_store) ≡ cancel 1 before_store)
cancel-silences_example = cancel-silences all_day 32400000 1 "a" before_store

abbrev after_first : Dependency
after_first = record { task_id = 5; depends_on_task_id = 4; dependency_type = fs }

abbrev window : WindowRequest
window = record {
  task_id = 5;
  requested_start_utc = 32400000;
  requested_end_utc = 36000000;
  priority = none;
  parent_scheduled_task_id = none;
}

schedule_task_window-after_predecessors_example :
    AfterEnd 36000000 2
      (constrained_window (after_first ∷ []) asap window before_store)
      (schedule_task_window services (after_first ∷ []) asap window before_store)
schedule_task_window-after_predecessors_example =
    schedule_task_window-after_predecessors services (after_first ∷ []) asap window before_store
      after_first standing (λ t u z. office-Sound) before_store-Matched refl (Memᴰ.head refl) refl
      (λ e. cc) (Memᴰ.head refl) refl refl

as_it_stands : Sorts (λ q rows. rows)
as_it_stands = record {
  kept = λ q rows m. m;
  as_many = λ q rows. refl;
  same_order = λ d q q' rows o o' h. refl;
}

abbrev tenant_six : Filters
tenant_six = record {
  tenant_id = some 6;
  task_id = none;
  page = none;
  limit = none;
  sort_by = some "scheduledTaskId";
  sort_order = none;
}

abbrev later : ScheduledTask
later = created_row 2 (child_draft services request second 2 36000000 37800000)

find_all-OnPage_example : OnPage (λ q rows. rows) tenant_six 1 (standing ∷ later ∷ []) standing
unfolding build_find_query
find_all-OnPage_example =
    find_all-OnPage (λ q rows. rows) as_it_stands tenant_six (standing ∷ later ∷ []) standing 0 refl
      ((λ (e : 2 ≡ 1). absurd (omega (arith, e)), tt), (tt, tt)) (Memᴰ.head refl) refl
