-- ===== src/Scheduler/Dependencies.antt =====
-- The gate of a task's predecessors (src/scheduler/services/dependency_resolver.service.ts).
use six_1_core_api.Prelude.{ℕ, ◌&&◌, Option, none, some, List, [], ◌∷◌, max}
use six_1_core_api.Prelude.Tests.{◌==◌, ltb, if◌then◌else◌}
use six_1_core_api.Prelude.Lists.{filter}
use six_1_core_api.Scheduler.{ScheduledTask}

-- task_dependencies
pub data DependencyType : Type 0 where
  fs ss ff sf : DependencyType

pub record Dependency : Type 0 where
  pub task_id : ℕ
  pub depends_on_task_id : ℕ
  pub dependency_type : DependencyType

abbrev pub actual_or : Option ℕ → ℕ → ℕ
actual_or none t = t
actual_or (some t) u = t

abbrev pub start_of : ScheduledTask → ℕ
start_of r = actual_or r.actual_start_utc r.effective_start_utc

abbrev pub end_of : ScheduledTask → ℕ
end_of r = actual_or r.actual_end_utc r.effective_end_utc

abbrev pub least : Option ℕ → ℕ → Option ℕ
least none t = some t
least (some u) t = if ltb u t then some u else some t

abbrev pub greatest : Option ℕ → ℕ → Option ℕ
greatest none t = some t
greatest (some u) t = if ltb t u then some u else some t

-- The single start and end of a predecessor, over its active rows.
unfoldable pub first_start : Option ℕ → List ScheduledTask → Option ℕ
first_start acc [] = acc
first_start acc (r ∷ rs) = first_start (least acc (start_of r)) rs

unfoldable pub last_end : Option ℕ → List ScheduledTask → Option ℕ
last_end acc [] = acc
last_end acc (r ∷ rs) = last_end (greatest acc (end_of r)) rs

abbrev pub active_rows_of : ℕ → List ScheduledTask → List ScheduledTask
active_rows_of task = filter (λ (r : ScheduledTask). r.is_active && (r.task_id == task))

-- The switch on the type: a start-to-start dependency waits for the start, the others for the end.
unfoldable pub gate_of : DependencyType → List ScheduledTask → Option ℕ
gate_of ss rs = first_start none rs
gate_of _ rs = last_end none rs

-- `gate ? DateTime.max(gate, thisGate) : thisGate`, with `if (!thisGate) continue`.
abbrev pub join_gate : Option ℕ → Option ℕ → Option ℕ
join_gate gate none = gate
join_gate none (some t) = some t
join_gate (some g) (some t) = some (max g t)

unfoldable pub gates : List ScheduledTask → Option ℕ → List Dependency → Option ℕ
gates rows gate [] = gate
gates rows gate (d ∷ ds) =
    gates rows
      (join_gate gate (gate_of d.dependency_type (active_rows_of d.depends_on_task_id rows))) ds

-- `earliestGateUtc`
unfoldable pub earliest_gate_utc : List Dependency → List ScheduledTask → ℕ → Option ℕ
earliest_gate_utc deps rows task =
    gates rows none (filter (λ (d : Dependency). d.task_id == task) deps)
