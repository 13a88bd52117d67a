-- ===== src/Scheduler/Shifts.antt =====
-- src/scheduler/services/scheduler.service.ts: `scheduleFromShifts`, which plans the shifts of a task
-- one after another: the order of the shifts, and the time that each of them gets.
use six_1_core_api.Prelude.{ℕ, ◌+◌, String, Bool, Option, none, some, List, [], ◌∷◌, max}
use six_1_core_api.Prelude.Tests.{◌==◌, ltb, leb, if◌then◌else◌}
use six_1_core_api.Prelude.Lists.{any, filter, length}
use six_1_core_api.Scheduler.{ScheduledTask}
use six_1_core_api.Scheduler.Planning.{Days, next_allowed_utc, add_duration_within_working_hours}
use six_1_core_api.Scheduler.Active.{find_user_overlaps, find_task_child_overlaps}

pub record TaskContext : Type 0 where
  pub tenant_id : ℕ
  pub task_status_id : ℕ

-- What the planner asks of others: the clock, random tokens, the calendars and their time zones,
-- the tasks, and the numbers of the resource assignments.
pub record Services : Type 0 where
  pub now : ℕ
  pub uuid : ℕ → String
  pub timezone : ℕ → Option ℕ → String
  pub days : ℕ → Option ℕ → String → Days
  pub context : ℕ → TaskContext
  pub assignments : List ℕ

pub record Shift : Type 0 where
  pub resource_assignment_id : ℕ
  pub tenant_user_id : ℕ
  pub planned_start_utc : ℕ
  pub planned_end_utc : ℕ
  pub sequence_no : Option ℕ

pub record Request : Type 0 where
  pub task_id : ℕ
  pub priority : Option ℕ
  pub parent_scheduled_task_id : Option ℕ
  pub shifts : List Shift

-- `validateExistence`: the rows found by an IN-list are compared by number with the list.
unfoldable pub validate_existence : List ℕ → List ℕ → Bool
validate_existence table ids =
    length (filter (λ (a : ℕ). any (λ (i : ℕ). i == a) ids) table) == length ids

abbrev pub or_zero : Option ℕ → ℕ
or_zero none = 0
or_zero (some p) = p

-- `s.sequenceNo ?? 1`
abbrev pub sequence_of : Shift → ℕ
sequence_of s = elim s.sequence_no [ none ↦ 1 | some n ↦ n ]

-- The sort is stable.
unfoldable pub insert_shift : Shift → List Shift → List Shift
insert_shift s [] = s ∷ []
insert_shift s (t ∷ ts) =
    let rest = insert_shift s ts in
    if leb (sequence_of s) (sequence_of t) then s ∷ t ∷ ts else t ∷ rest

unfoldable pub sort_shifts : List Shift → List Shift
sort_shifts [] = []
sort_shifts (s ∷ ss) = insert_shift s (sort_shifts ss)

-- A planned shift that would begin before the previous one ends begins there.
unfoldable pub after_previous : ℕ → Shift → Shift
after_previous previous s =
    if ltb s.planned_start_utc previous
    then record s {
      planned_start_utc = previous;
      planned_end_utc =
          if ltb s.planned_end_utc previous then previous + 60000 else s.planned_end_utc;
    }
    else s

unfoldable pub serialize_after : ℕ → List Shift → List Shift
serialize_after previous [] = []
serialize_after previous (s ∷ ss) =
    let t = after_previous previous s in t ∷ serialize_after t.planned_end_utc ss

unfoldable pub serialize : List Shift → List Shift
serialize [] = []
serialize (s ∷ ss) = s ∷ serialize_after s.planned_end_utc ss

-- The time that a shift gets.
pub data Placement : Type 0 where
  placed : (start finish : ℕ) → Placement
  clashing : Placement

abbrev pub serial_start : Option ℕ → Shift → ℕ
serial_start none s = s.planned_start_utc
serial_start (some previous) s =
    if ltb s.planned_start_utc previous then previous else s.planned_start_utc

-- The end of a duration from a start, never before the start.
abbrev pub end_from : Days → ℕ → ℕ → ℕ
end_from d duration start = max start (add_duration_within_working_hours d start duration)

-- `conflicts.reduce`
unfoldable pub latest_end : ℕ → List ScheduledTask → ℕ
latest_end m [] = m
latest_end m (r ∷ rs) = latest_end (if ltb m r.effective_end_utc then r.effective_end_utc else m) rs

-- The first allowed time one minute after the conflicts.
abbrev pub pushed_start : Days → ℕ → List ScheduledTask → ℕ
pushed_start d start conflicts = next_allowed_utc d (latest_end start conflicts + 60000)

abbrev pub unless_any : List ScheduledTask → Placement → Placement
unless_any [] p = p
unless_any (r ∷ rs) p = clashing

unfoldable pub place_among : Days → List ScheduledTask → ℕ → ℕ → ℕ → List ScheduledTask → Placement
place_among d rows task duration start [] = placed start (end_from d duration start)
place_among d rows task duration start (c ∷ cs) =
    let pushed = pushed_start d start (c ∷ cs) in
    let finish = end_from d duration pushed in
    unless_any (find_task_child_overlaps task pushed finish rows) (placed pushed finish)

unfoldable pub place : Days → List ScheduledTask → ℕ → ℕ → ℕ → ℕ → Placement
place d rows user task duration from =
    let start = next_allowed_utc d from in
    place_among d rows task duration start
      (find_user_overlaps user start (end_from d duration start) rows)
