-- ===== src/Engine/Keeping.antt =====
-- The operations of the orchestrator whole, the end of a child after the commit included.
use six_1_core_api.Prelude.{ℕ, ◌≡◌, refl, sym, ◌∙◌, inl, inr, Option, none, some, arith}
use mathlib.Core.Path.{subst}
use six_1_core_api.Prelude.Tests.{◌==◌, ==_iff, Bool-cases, Option-cases}
use six_1_core_api.Engine.Rows.{EngineState, Instance, Step, World, Env, Options}
use six_1_core_api.Engine.Gates.{load_process, load_step}
use six_1_core_api.Engine.Child.{update_step, update_instance, say}
use six_1_core_api.Engine.ChildEnd.{
  merge_child_context_into_parent, closed, say_completed, complete_step, finish_linked,
  complete_parent_call_process_step, Terminal, finish_outcome, finish_child, parent_link,
  handle_child_terminal,
}
use six_1_core_api.Engine.Orchestrator.{
  finalize, attempt_transaction, attempt_advance, mark_transaction, mark_completed,
}
use six_1_core_api.Engine.Moves.{find_step, Evolves-find, stuck}
use six_1_core_api.Engine.Tables.{find-update_at_self, find-update_at_ne}
use six_1_core_api.Engine.Touch.{Sound, bind-lem}
use six_1_core_api.Engine.Enabling.{Advances}
use six_1_core_api.Engine.Transactions.{attempt_transaction-Advances, mark_transaction-Advances}

-- The step of this id is there and completed.
abbrev pub IsDone : ℕ → World → Type 0
IsDone j w = (s : Step) × (load_step j w ≡ some s) × (s.status ≡ EngineState.completed)

pub Advances-IsDone : (j : ℕ) (w w' : World) → Advances w w' → IsDone j w → IsDone j w'
unfolding load_step
Advances-IsDone j w w' a (s, e, d) =
    let (t, f, m) = Evolves-find j w.core.steps w'.core.steps s a.evolves e in
    (t, f, stuck m.moves d)

complete_step-IsDone : (j id : ℕ) (w : World) → IsDone j w → IsDone j (complete_step id w)
unfolding load_step complete_step update_step
complete_step-IsDone j id w (s, e, d) = elim (Bool-cases (j == id)) [
  | inl h ↦
      let q = (==_iff j id).0 h in
      (
        closed w.clock s,
        subst (λ k. find_step k (complete_step id w).core.steps ≡ some (closed w.clock s)) (sym q)
            (find-update_at_self (closed w.clock) id w.core.steps s (λ t. refl)
              (subst (λ k. find_step k w.core.steps ≡ some s) q e)),
        refl,
      )
  | inr h ↦
      (s, find-update_at_ne (closed w.clock) id j w.core.steps (λ t. refl) (ground arith) ∙ e, d)
]

-- The same table of steps.
pub IsDone-same : (j : ℕ) (w w' : World) → w'.core.steps ≡ w.core.steps → IsDone j w → IsDone j w'
unfolding load_step
IsDone-same j w w' q (s, e, d) = (s, rw q e, d)

say_completed-IsDone :
    (j id : ℕ) (o : Option Step) (w : World) → IsDone j w → IsDone j (say_completed id o w)
unfolding say
say_completed-IsDone j id none w h = h
say_completed-IsDone j id (some t) w h = IsDone-same j w _ refl h

complete_parent-IsDone :
    (j id : ℕ) (w : World) → IsDone j w → IsDone j (complete_parent_call_process_step id w)
unfolding complete_parent_call_process_step
complete_parent-IsDone j id w h =
    say_completed-IsDone j id (load_step id (complete_step id w)) (complete_step id w)
      (complete_step-IsDone j id w h)

finish_child-IsDone :
    (j : ℕ) (env : Env) (child : Instance) (step : ℕ) (p : Instance) (w : World)
    → IsDone j w
    → IsDone j (finish_child env child step p Terminal.completed w)
unfolding finish_child finish_outcome say merge_child_context_into_parent update_instance
finish_child-IsDone j env child step p w h = IsDone-same j _ _ refl (
    complete_parent-IsDone j step
      (merge_child_context_into_parent env p.process_instance_id child.context w)
      (IsDone-same j w _ refl h))

finish_linked-IsDone :
    (j : ℕ) (env : Env) (l : Option (Instance × ℕ × ℕ)) (w : World)
    → IsDone j w
    → IsDone j (finish_linked env Terminal.completed l w)
finish_linked-IsDone j env none w h = h
finish_linked-IsDone j env (some (child, step, parent)) w h =
    elim (Option-cases (load_process parent w)) [
      | inl e ↦ rw e h
      | inr (p, e) ↦ rw e (finish_child-IsDone j env child step p w h)
    ]

pub finalize-IsDone :
    (j : ℕ) (env : Env) (child : Option ℕ) (w : World)
    → IsDone j w
    → IsDone j (finalize env child w).1
unfolding finalize handle_child_terminal
finalize-IsDone j env none w h = h
finalize-IsDone j env (some c) w h = elim (Bool-cases env.call_process_enabled) [
  | inl e ↦ simp e (finish_linked-IsDone j env (parent_link (load_process c w)) w h)
  | inr e ↦ rw e h
]

-- A completed step stays completed through `attemptAdvance`, from a sound world.
pub attempt_advance-keeps_completed :
    (env : Env) (opts : Options) (id j : ℕ) (w : World)
    → Sound w
    → IsDone j w
    → IsDone j (attempt_advance env id opts w).1
unfolding attempt_advance
attempt_advance-keeps_completed env opts id j w g h =
    let a = Advances-IsDone j w _ (attempt_transaction-Advances env opts id w g) h in
    bind-lem (IsDone j) (attempt_transaction env id opts) (finalize env) w a
      (λ c q. finalize-IsDone j env c _ a)

-- A completed step stays completed through `markCompleted`, from a sound world.
pub mark_completed-keeps_completed :
    (env : Env) (opts : Options) (id j : ℕ) (w : World)
    → Sound w
    → IsDone j w
    → IsDone j (mark_completed env id opts w).1
unfolding mark_completed
mark_completed-keeps_completed env opts id j w g h =
    let a = Advances-IsDone j w _ (mark_transaction-Advances env opts id w g) h in
    bind-lem (IsDone j) (mark_transaction env id opts) (finalize env) w a
      (λ c q. finalize-IsDone j env c _ a)
