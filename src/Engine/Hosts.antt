-- ===== src/Engine/Hosts.antt =====
-- src/automation/process-host: the registry of host adapters by subject type, and what each
-- adapter does when a step changes its state and when a process is completed.
use six_1_core_api.Prelude.{ℕ, Bool, true, false, not, ◌&&◌, Option, none, some, [], ◌∷◌, ◌++◌, map}
use six_1_core_api.Prelude.Tests.{◌==◌, ltb, str_eq, if◌then◌else◌}
use six_1_core_api.Prelude.Lists.{filter, find}
use six_1_core_api.Engine.Rows.{
  EngineState, pending, ready, in_progress, blocked, SubjectType, Instance, Step, StatusControl,
  Task, StatusMapping, Project, ScheduledTaskStatus, ScheduledTask, Message, World, Options,
}
use six_1_core_api.Engine.Gates.{are_all_steps_completed}

-- The subject types with an adapter: `ProcessHostRegistry.has`.
pub data Adapter : Type 0 where
  project_host scheduled_task_host configurable_instance_host generic_workflow_host : Adapter

unfoldable pub registry : SubjectType → Option Adapter
registry SubjectType.project = some project_host
registry SubjectType.scheduled_task = some scheduled_task_host
registry SubjectType.config_custom_object_instance = some configurable_instance_host
registry SubjectType.workflow = some generic_workflow_host
registry _ = none

abbrev pub state_eq : EngineState → EngineState → Bool
state_eq pending pending = true
state_eq ready ready = true
state_eq in_progress in_progress = true
state_eq EngineState.completed EngineState.completed = true
state_eq blocked blocked = true
state_eq EngineState.canceled EngineState.canceled = true
state_eq _ _ = false

abbrev pub is_id : Option ℕ → ℕ → Bool
is_id none n = false
is_id (some m) n = m == n

-- Tier 1, project-host.adapter.ts

abbrev pub follows_process : StatusControl → Bool
follows_process StatusControl.manual = false
follows_process _ = true

-- ORDER BY m.step_instance_id IS NULL ASC LIMIT 1: a mapping of the step before a general one.
abbrev pub or_general : Option StatusMapping → Option StatusMapping → Option StatusMapping
or_general none g = g
or_general (some m) g = some m

abbrev pub is_general : Option ℕ → Bool
is_general none = true
is_general (some _) = false

unfoldable pub mapping_for : ℕ → EngineState → ℕ → World → Option StatusMapping
mapping_for project_id engine_state step w =
    let fitting =
      filter
        (λ (m : StatusMapping).
          m.project_id == project_id && state_eq m.step_engine_state engine_state)
        w.mappings in
    or_general (find (λ (m : StatusMapping). is_id m.step_instance_id step) fitting)
      (find (λ (m : StatusMapping). is_general m.step_instance_id) fitting)

unfoldable pub move_task : ℕ → ℕ → World → World
move_task task status w = record w {
  tasks =
      map (λ (t : Task). if t.task_id == task then record t { task_status_id = status } else t)
        w.tasks;
  outbox = w.outbox ++ Message.emitted "six1-event.notification.task_status_changed" task ∷ [];
}

-- `if (!map?.task_status_id) return;`
unfoldable pub apply_mapping : ℕ → Option StatusMapping → World → World
unfolding move_task
apply_mapping task none w = w
apply_mapping task (some m) w =
    if m.task_status_id == 0 then w else move_task task m.task_status_id w

-- `syncTaskColumn`
unfoldable pub sync_task_column : ℕ → EngineState → World → World
unfolding apply_mapping mapping_for
sync_task_column step engine_state w =
    elim (find (λ (t : Task). is_id t.step_instance_id step) w.tasks) [
      | none ↦ w
      | some t ↦
          if follows_process t.status_control
          then apply_mapping t.task_id (mapping_for t.project_id engine_state step w) w
          else w
    ]

-- `onProcessCompleted`: the project of the subject, of a row that names the process, or of a
-- task of one of its steps.
unfoldable pub is_step_of : ℕ → World → Option ℕ → Bool
is_step_of process w none = false
is_step_of process w (some step) =
    elim (find (λ (s : Step). s.step_instance_id == step) w.core.steps) [
      | none ↦ false
      | some s ↦ s.process_instance_id == process
    ]

abbrev pub project_of_task : Option Task → ℕ
project_of_task none = 0
project_of_task (some t) = t.project_id

abbrev pub id_of_project : Option Project → ℕ
id_of_project none = 0
id_of_project (some p) = p.project_id

abbrev pub is_project : SubjectType → Bool
is_project SubjectType.project = true
is_project _ = false

abbrev pub first_id : ℕ → ℕ → ℕ
first_id a b = if a == 0 then b else a

unfoldable pub resolve_project : Instance → World → ℕ
unfolding is_step_of
resolve_project p w =
    first_id
      (if is_project p.subject_type && ltb 0 p.subject_id
        then p.subject_id
        else id_of_project
            (find (λ (r : Project). is_id r.process_instance_id p.process_instance_id) w.projects))
      (project_of_task
        (find (λ (t : Task). is_step_of p.process_instance_id w t.step_instance_id) w.tasks))

abbrev pub coalesce : Option ℕ → ℕ → Option ℕ
coalesce none n = some n
coalesce (some m) n = some m

unfoldable pub complete_project : ℕ → World → World
complete_project id w = if id == 0 then w else record w {
  projects =
      map
        (λ (r : Project).
          if r.project_id == id && not (str_eq r.status "completed")
          then record r { status = "completed"; completed_at = coalesce r.completed_at w.clock }
          else r)
        w.projects;
  outbox = w.outbox ++ Message.emitted "six1-event.notification.project_status_changed" id ∷ [];
}

-- Tier 1, scheduled-task-host.adapter.ts and scheduled-task-engine-status.map.ts

unfoldable pub map_engine_state : EngineState → ScheduledTaskStatus
map_engine_state pending = ScheduledTaskStatus.scheduled
map_engine_state ready = ScheduledTaskStatus.queued
map_engine_state in_progress = ScheduledTaskStatus.running
map_engine_state EngineState.completed = ScheduledTaskStatus.completed
map_engine_state blocked = ScheduledTaskStatus.paused
map_engine_state EngineState.canceled = ScheduledTaskStatus.cancelled

unfoldable pub update_scheduled : (ScheduledTask → ScheduledTask) → ℕ → ℕ → World → World
update_scheduled f id tenant w = record w {
  scheduled_tasks =
      map
        (λ (r : ScheduledTask).
          if r.scheduled_task_id == id && r.tenant_id == tenant then f r else r)
        w.scheduled_tasks;
}

abbrev pub updated_by_of : Option ℕ → Option ℕ → Option ℕ
updated_by_of none old = old
updated_by_of (some u) old = some u

unfoldable pub sync_scheduled_task_status : Instance → EngineState → Options → World → World
unfolding update_scheduled
sync_scheduled_task_status p engine_state opts w =
    update_scheduled
      (λ (r : ScheduledTask). record r {
        status = map_engine_state engine_state;
        actual_start_utc =
            if state_eq engine_state in_progress
            then coalesce r.actual_start_utc w.clock
            else r.actual_start_utc;
        updated_by = updated_by_of opts.actor_tenant_user_id r.updated_by;
      })
      p.subject_id p.tenant_id w

abbrev pub id_of_scheduled : Option ScheduledTask → ℕ
id_of_scheduled none = 0
id_of_scheduled (some r) = r.scheduled_task_id

abbrev pub is_scheduled_task : SubjectType → Bool
is_scheduled_task SubjectType.scheduled_task = true
is_scheduled_task _ = false

unfoldable pub resolve_scheduled_task : Instance → World → ℕ
resolve_scheduled_task p w =
    if is_scheduled_task p.subject_type && ltb 0 p.subject_id
    then p.subject_id
    else id_of_scheduled (
        find
          (λ (r : ScheduledTask).
            is_id r.process_instance_id p.process_instance_id && r.tenant_id == p.tenant_id)
          w.scheduled_tasks)

unfoldable pub complete_scheduled_task : Instance → World → World
unfolding resolve_scheduled_task update_scheduled
complete_scheduled_task p w =
    let id = resolve_scheduled_task p w in
    if id == 0
    then w
    else update_scheduled
        (λ (r : ScheduledTask). record r {
          status = ScheduledTaskStatus.completed;
          actual_end_utc = coalesce r.actual_end_utc w.clock;
          is_active = false;
        })
        id p.tenant_id w

-- The hooks, by adapter; base-process-host.adapter.ts does nothing.

unfoldable pub on_step_state_changed :
    Adapter → Instance → ℕ → EngineState → Options → World → World
unfolding sync_task_column sync_scheduled_task_status
on_step_state_changed project_host p step s opts w = sync_task_column step s w
on_step_state_changed scheduled_task_host p step s opts w = sync_scheduled_task_status p s opts w
on_step_state_changed _ p step s opts w = w

-- `canCompleteJob`: all four adapters count the completed steps of the process.
unfoldable pub can_complete_job : Adapter → Instance → World → Bool
can_complete_job project_host p w = are_all_steps_completed p.process_instance_id w
can_complete_job scheduled_task_host p w = are_all_steps_completed p.process_instance_id w
can_complete_job configurable_instance_host p w = are_all_steps_completed p.process_instance_id w
can_complete_job generic_workflow_host p w = are_all_steps_completed p.process_instance_id w

unfoldable pub on_process_completed : Adapter → Instance → World → World
unfolding resolve_project complete_project complete_scheduled_task
on_process_completed project_host p w = complete_project (resolve_project p w) w
on_process_completed scheduled_task_host p w = complete_scheduled_task p w
on_process_completed _ p w = w
