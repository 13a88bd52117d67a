-- ===== src/Engine/Runs.antt =====
-- Any sequence of calls of the orchestrator.
use six_1_core_api.Prelude.{ℕ, refl, inl, inr, Option, none, some}
use six_1_core_api.Prelude.Tests.{Bool-cases, Option-cases}
use six_1_core_api.Engine.Rows.{Instance, Step, World, Env, Options}
use six_1_core_api.Engine.Gates.{load_process}
use six_1_core_api.Engine.Child.{update_step, update_instance, say}
use six_1_core_api.Engine.ChildEnd.{
  closed, complete_step, say_completed, complete_parent_call_process_step,
  merge_child_context_into_parent, Terminal, finish_outcome, finish_child, finish_linked,
  parent_link, handle_child_terminal,
}
use six_1_core_api.Engine.Orchestrator.{
  finalize, attempt_transaction, attempt_advance, mark_transaction, mark_completed,
  resume_transaction, resume_parent_after_child_call_process,
}
use six_1_core_api.Engine.Tables.{update_at-Rising}
use six_1_core_api.Engine.Touch.{Sound, bind-lem}
use six_1_core_api.Engine.Transactions.{
  attempt_transaction-Advances, mark_transaction-Advances, resume_transaction-Advances,
}
use six_1_core_api.Engine.Keeping.{
  IsDone, Advances-IsDone, finalize-IsDone, attempt_advance-keeps_completed,
  mark_completed-keeps_completed,
}

complete_step-Sound : (id : ℕ) (w : World) → Sound w → Sound (complete_step id w)
unfolding complete_step update_step
complete_step-Sound id w g =
    update_at-Rising (closed w.clock) id 0 w.core.steps w.core.next_step_id (λ t. refl) g

say_completed-Sound :
    (id : ℕ) (o : Option Step) (w : World) → Sound w → Sound (say_completed id o w)
unfolding say
say_completed-Sound id none w g = g
say_completed-Sound id (some t) w g = g

finish_child-Sound :
    (env : Env) (child : Instance) (step : ℕ) (p : Instance) (w : World)
    → Sound w
    → Sound (finish_child env child step p Terminal.completed w)
unfolding finish_child finish_outcome complete_parent_call_process_step say
    merge_child_context_into_parent update_instance
finish_child-Sound env child step p w g = say_completed-Sound step _ (complete_step step _) (
    complete_step-Sound step
      (merge_child_context_into_parent env p.process_instance_id child.context w) g)

finish_linked-Sound :
    (env : Env) (l : Option (Instance × ℕ × ℕ)) (w : World)
    → Sound w
    → Sound (finish_linked env Terminal.completed l w)
finish_linked-Sound env none w g = g
finish_linked-Sound env (some (child, step, parent)) w g =
    elim (Option-cases (load_process parent w)) [
      | inl e ↦ rw e g
      | inr (p, e) ↦ rw e (finish_child-Sound env child step p w g)
    ]

finalize-Sound :
    (env : Env) (child : Option ℕ) (w : World) → Sound w → Sound (finalize env child w).1
unfolding finalize handle_child_terminal
finalize-Sound env none w g = g
finalize-Sound env (some c) w g = elim (Bool-cases env.call_process_enabled) [
  | inl e ↦ simp e (finish_linked-Sound env (parent_link (load_process c w)) w g)
  | inr e ↦ rw e g
]

-- The calls that other code makes.
pub data Call : Type 0 where
  advance complete resume : (step_instance_id : ℕ) (opts : Options) → Call

unfoldable pub run : Env → Call → World → World
run env (advance id opts) w = (attempt_advance env id opts w).1
run env (complete id opts) w = (mark_completed env id opts w).1
run env (resume id opts) w = (resume_parent_after_child_call_process env id opts w).1

-- The worlds that calls lead to, in whatever order and with whatever result each of them has.
pub data Reaches (env : Env) (w : World) : World → Type 0 where
  at_once : Reaches env w w
  then_call : {v : World} (c : Call) → Reaches env w v → Reaches env w (run env c v)

run-Sound : (env : Env) (c : Call) (w : World) → Sound w → Sound (run env c w)
unfolding run attempt_advance mark_completed resume_parent_after_child_call_process
run-Sound env (advance id opts) w g =
    let a = (attempt_transaction-Advances env opts id w g).sound in
    bind-lem Sound (attempt_transaction env id opts) (finalize env) w a
      (λ c q. finalize-Sound env c _ a)
run-Sound env (complete id opts) w g =
    let a = (mark_transaction-Advances env opts id w g).sound in
    bind-lem Sound (mark_transaction env id opts) (finalize env) w a
      (λ c q. finalize-Sound env c _ a)
run-Sound env (resume id opts) w g =
    let a = (resume_transaction-Advances env opts id w g).sound in
    bind-lem Sound (resume_transaction env id opts) (finalize env) w a
      (λ c q. finalize-Sound env c _ a)

run-IsDone :
    (env : Env) (c : Call) (j : ℕ) (w : World) → Sound w → IsDone j w → IsDone j (run env c w)
unfolding run resume_parent_after_child_call_process
run-IsDone env (advance id opts) j w g d = attempt_advance-keeps_completed env opts id j w g d
run-IsDone env (complete id opts) j w g d = mark_completed-keeps_completed env opts id j w g d
run-IsDone env (resume id opts) j w g d =
    let a = Advances-IsDone j w _ (resume_transaction-Advances env opts id w g) d in
    bind-lem (IsDone j) (resume_transaction env id opts) (finalize env) w a
      (λ c q. finalize-IsDone j env c _ a)

-- However often and in whatever order `attemptAdvance`, `markCompleted` and
-- `resumeParentAfterChildCallProcess` are called, each with whatever result, a step that is
-- completed stays so, and the step ids go on rising; it is so from every world whose step ids
-- rise.
pub Reaches-IsDone :
    (env : Env) (j : ℕ) (w w' : World)
    → Sound w
    → IsDone j w
    → Reaches env w w'
    → Sound w' × IsDone j w'
Reaches-IsDone env j w w' g d at_once = (g, d)
Reaches-IsDone env j w w' g d (then_call {v} c r) =
    let (h, k) = Reaches-IsDone env j w v g d r in (run-Sound env c v h, run-IsDone env c j v h k)
