-- ===== src/Engine/ChildEnd.antt =====
-- src/automation/child-process-orchestration.service.ts: the end of a child process, and what it
-- does to the step that waits for it.
use six_1_core_api.Prelude.{ℕ, Bool, true, false, not, ◌&&◌, ◌||◌, Option, none, some}
use six_1_core_api.Prelude.Tests.{◌==◌, if◌then◌else◌}
use six_1_core_api.Json.{str, Object, put, spread}
use six_1_core_api.Engine.Rows.{
  EngineState, OnChildFailure, ignore, pause_parent, fail_parent, none_given, child_failed,
  InstanceStatus, Instance, Step, Message, World, Env,
}
use six_1_core_api.Engine.Gates.{load_process, load_step, are_all_steps_completed}
use six_1_core_api.Engine.Hosts.{coalesce}
use six_1_core_api.Engine.Child.{or_empty, say, update_instance, update_step}

-- `markProcessCompletedIfEligible`
abbrev pub is_active : InstanceStatus → Bool
is_active InstanceStatus.active = true
is_active _ = false

-- UPDATE process_instances SET status = 'completed' … WHERE status = 'active'
unfoldable pub complete_instance : ℕ → World → World
complete_instance id w =
    update_instance
      (λ (i : Instance).
        if is_active i.status
        then record i { status = InstanceStatus.completed; completed_at = some w.clock }
        else i)
      id w

-- The row of a child: one with `parent_step_id IS NOT NULL`, and not 0 in the test that follows.
abbrev pub is_child : Option Instance → Bool
is_child none = false
is_child (some i) = elim i.parent_step_id [ none ↦ false | some s ↦ not (s == 0) ]

unfoldable pub mark_process_completed_if_eligible : ℕ → World → World
mark_process_completed_if_eligible id w =
    if is_child (load_process id w) && are_all_steps_completed id w
    then complete_instance id w
    else w

-- `mergeChildContextIntoParent`
unfoldable pub merge_child_context_into_parent : Env → ℕ → Option Object → World → World
merge_child_context_into_parent env parent context w =
    update_instance
      (λ (i : Instance). record i {
        context = some (
            put "childMergedAt" (str (env.iso_time w.clock))
              (spread (or_empty i.context) (or_empty context)));
      })
      parent w

-- `completeParentCallProcessStep`
abbrev pub closed : ℕ → Step → Step
closed now s = record s {
  status = EngineState.completed;
  blocked_reason = none_given;
  completed_at = coalesce s.completed_at now;
}

unfoldable pub complete_step : ℕ → World → World
complete_step id w = update_step (closed w.clock) id w

-- `if (stepRow) this.events.emit(…)`
abbrev pub say_completed : ℕ → Option Step → World → World
say_completed id none w = w
say_completed id (some _) w = say (Message.emitted "six1-event.process_step_completed" id) w

unfoldable pub complete_parent_call_process_step : ℕ → World → World
complete_parent_call_process_step id w =
    say_completed id (load_step id (complete_step id w)) (complete_step id w)

abbrev pub failed : ℕ → Step → Step
failed now s = record s {
  status = EngineState.canceled;
  blocked_reason = child_failed;
  canceled_at = some now;
}

-- The rows that `fail_parent` cancels.
unfoldable pub cancel_parent : ℕ → ℕ → World → World
cancel_parent parent step w = update_step (failed w.clock) step (
    update_instance
      (λ (i : Instance). record i { status = InstanceStatus.canceled; canceled_at = some w.clock })
      parent w)

pub data Terminal : Type 0 where
  completed canceled : Terminal

abbrev pub is_done : Terminal → Bool
is_done Terminal.completed = true
is_done Terminal.canceled = false

-- The branches on `on_child_failure`.
unfoldable pub finish_canceled : ℕ → ℕ → (Bool → Message) → OnChildFailure → World → World
finish_canceled parent step event pause_parent w = say (event false) w
finish_canceled parent step event fail_parent w = say (event false) (cancel_parent parent step w)
finish_canceled parent step event ignore w =
    say (event true) (complete_parent_call_process_step step w)

unfoldable pub finish_outcome : Instance → ℕ → (Bool → Message) → Terminal → World → World
finish_outcome p step event Terminal.completed w =
    say (event true) (complete_parent_call_process_step step w)
finish_outcome p step event Terminal.canceled w =
    finish_canceled p.process_instance_id step event p.on_child_failure w

-- The part of `handleChildTerminal` after the child and its parent are found.
unfoldable pub finish_child : Env → Instance → ℕ → Instance → Terminal → World → World
finish_child env child step parent outcome w =
    finish_outcome parent step
      (Message.child_event (is_done outcome) child.process_instance_id parent.process_instance_id
        (some step))
      outcome (merge_child_context_into_parent env parent.process_instance_id child.context w)

-- `!child?.parent_step_id || !child.parent_instance_id`
abbrev pub parent_link : Option Instance → Option (Instance × ℕ × ℕ)
parent_link none = none
parent_link (some child) = elim child.parent_step_id [
  | none ↦ none
  | some step ↦ elim child.parent_instance_id [
    | none ↦ none
    | some parent ↦ if step == 0 || parent == 0 then none else some (child, step, parent)
  ]
]

abbrev pub finish_under : Env → Instance → ℕ → Terminal → Option Instance → World → World
finish_under env child step outcome none w = w
finish_under env child step outcome (some p) w = finish_child env child step p outcome w

abbrev pub finish_linked : Env → Terminal → Option (Instance × ℕ × ℕ) → World → World
finish_linked env outcome none w = w
finish_linked env outcome (some (child, step, parent)) w =
    finish_under env child step outcome (load_process parent w) w

-- `handleChildTerminal`
unfoldable pub handle_child_terminal : Env → ℕ → Terminal → World → World
handle_child_terminal env id outcome w =
    if env.call_process_enabled
    then finish_linked env outcome (parent_link (load_process id w)) w
    else w
