-- ===== src/Scheduler/Scheduling.antt =====
-- src/scheduler/services/scheduler.service.ts: `scheduleFromShifts`, the rows, shifts, jobs and events
-- that it writes. The clock stands still during a call.
use mathlib.Core.Option
use six_1_core_api.Prelude.{ℕ, suc, ◌-◌, String, true, Option, none, some, List, [], ◌∷◌, ◌++◌, map}
use six_1_core_api.Prelude.Tests.{◌==◌, if◌then◌else◌}
use six_1_core_api.Scheduler.{
  ScheduledTask, Status, Store, ShiftRow, nothing, enqueued_start, enqueued_end, task_start,
  task_end, emit,
}
use six_1_core_api.Scheduler.Planning.{Days}
use six_1_core_api.Scheduler.Active.{created_row, create_active, mark_queued, snapshot, add_job}
use six_1_core_api.Scheduler.Shifts.{
  Services, Shift, Request, placed, clashing, Placement, sequence_of, validate_existence, or_zero,
  sort_shifts, serialize, serial_start, place,
}

pub record Created : Type 0 where
  pub shift_id : ℕ
  pub scheduled_task_id : ℕ
  pub effective_start_utc : ℕ
  pub effective_end_utc : ℕ

pub data Refusal : Type 0 where
  no_shifts assignments_not_found child_overlap row_rejected : Refusal

-- What has been written stays written when the call throws.
pub data Outcome : Type 0 where
  done : (store : Store) (created : List Created) → Outcome
  refused : (store : Store) (why : Refusal) → Outcome

-- The shift is saved before it has a time.
abbrev pub saved_shift : ℕ → Shift → ShiftRow
saved_shift id s = record {
  shift_id = id;
  resource_assignment_id = s.resource_assignment_id;
  tenant_user_id = s.tenant_user_id;
  sequence_no = sequence_of s;
  planned_start_utc = s.planned_start_utc;
  planned_end_utc = s.planned_end_utc;
  scheduled_task_id = none;
}

abbrev pub save_shift : Shift → Store → Store
save_shift s st = record st {
  shifts = st.shifts ++ saved_shift st.next_shift s ∷ [];
  next_shift = suc st.next_shift;
}

abbrev pub link_shift : ℕ → ℕ → Store → Store
link_shift shift_id id st = record st {
  shifts =
      map
        (λ (x : ShiftRow).
          if x.shift_id == shift_id then record x { scheduled_task_id = some id } else x)
        st.shifts;
}

abbrev pub draw_tokens : Store → Store
draw_tokens st = record st { drawn = suc (suc st.drawn) }

-- The draft of a child: its columns that are left out are null, or zero.
abbrev pub child_draft : Services → Request → Shift → ℕ → ℕ → ℕ → ScheduledTask
child_draft v q s drawn start finish = record {
  scheduled_task_id = 0;
  parent_scheduled_task_id = q.parent_scheduled_task_id;
  tenant_id = (v.context q.task_id).tenant_id;
  tenant_user_id = some s.tenant_user_id;
  task_id = q.task_id;
  task_status_id = (v.context q.task_id).task_status_id;
  is_active = true;
  status = Status.scheduled;
  start_job_token = some (v.uuid drawn);
  end_job_token = some (v.uuid (suc drawn));
  start_job_id = none;
  end_job_id = none;
  start_attempts = 0;
  end_attempts = 0;
  requested_start_utc = s.planned_start_utc;
  requested_end_utc = s.planned_end_utc;
  effective_start_utc = start;
  effective_end_utc = finish;
  actual_start_utc = none;
  actual_end_utc = none;
  tz_used = v.timezone (v.context q.task_id).tenant_id (some s.tenant_user_id);
  dependency_gate_utc = none;
  blocked_until_utc = none;
  block_reason = nothing;
  last_error = none;
  priority = or_zero q.priority;
  version = 0;
}

-- Both jobs of a row, which is then marked as queued, and their events.
abbrev pub enqueue : ℕ → ℕ → String → String → ℕ → ℕ → ℕ → Store → Store
enqueue now id start_token end_token start finish priority st =
    emit (enqueued_end id finish end_token) (
      emit (enqueued_start id start start_token) (
        mark_queued id start_token end_token (
          add_job task_end now id end_token finish priority
            (add_job task_start now id start_token start priority st))))

-- The rest of the loop's body after `createActive`, with the store before and after that.
abbrev pub finish_child : Services → Request → Shift → ℕ → ℕ → ℕ → Store → Store → Store
finish_child v q s shift_id start finish st created =
    let row = created_row st.next_id (child_draft v q s st.drawn start finish) in
    enqueue v.now st.next_id (v.uuid st.drawn) (v.uuid (suc st.drawn)) start finish
      (or_zero q.priority) (snapshot row (link_shift shift_id st.next_id created))

-- The rest of the loop's body, where the shift has been saved and has a time.
unfoldable pub write_child : Services → Request → Shift → ℕ → ℕ → ℕ → Store → Option Store
write_child v q s shift_id start finish st =
    Option.map (finish_child v q s shift_id start finish st)
      (create_active (child_draft v q s st.drawn start finish) (draw_tokens st))

abbrev pub calendar_of : Services → Request → Shift → Days
calendar_of v q s =
    let tenant = (v.context q.task_id).tenant_id in
    v.days tenant (some s.tenant_user_id) (v.timezone tenant (some s.tenant_user_id))

abbrev pub placement : Services → Request → Option ℕ → Shift → Store → Placement
placement v q previous s st =
    place (calendar_of v q s) st.rows s.tenant_user_id q.task_id
      (s.planned_end_utc - s.planned_start_utc) (serial_start previous s)

abbrev pub created_of : Store → ℕ → ℕ → Created
created_of st start finish = record {
  shift_id = st.next_shift;
  scheduled_task_id = st.next_id;
  effective_start_utc = start;
  effective_end_utc = finish;
}

abbrev pub with_first : Created → Outcome → Outcome
with_first c (done st cs) = done st (c ∷ cs)
with_first c (refused st why) = refused st why

-- The loop over the shifts, with the end of the previous child.
unfoldable pub schedule_all : Services → Request → Option ℕ → List Shift → Store → Outcome
schedule_all v q previous [] st = done st []
schedule_all v q previous (s ∷ ss) st = elim (placement v q previous s st) [
  | clashing ↦ refused (save_shift s st) child_overlap
  | placed start finish ↦ elim (write_child v q s st.next_shift start finish (save_shift s st)) [
    | none ↦ refused (draw_tokens (save_shift s st)) row_rejected
    | some written ↦
        with_first (created_of st start finish) (schedule_all v q (some finish) ss written)
  ]
]

-- `scheduleFromShifts`
unfoldable pub schedule_from_shifts : Services → Request → Store → Outcome
schedule_from_shifts v q st = elim q.shifts [
  | [] ↦ refused st no_shifts
  | (s ∷ ss) ↦
      if validate_existence v.assignments (map (λ (x : Shift). x.resource_assignment_id) (s ∷ ss))
      then schedule_all v q none (serialize (sort_shifts (s ∷ ss))) st
      else refused st assignments_not_found
]
