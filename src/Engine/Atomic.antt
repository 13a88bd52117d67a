-- ===== src/Engine/Atomic.antt =====
-- Results and rollback of `markCompleted`.
use six_1_core_api.Prelude.{
  String, ℕ, ◌≡◌, refl, inl, inr, ◌⊎◌, ◌&&◌, Bool, true, Option, none, some, arith,
}
use mathlib.Core.Path.{subst}
use six_1_core_api.Engine.Tables.{find_step-id}
use six_1_core_api.Engine.Rows.{EngineState, Step, World, Env, Options, Message}
use six_1_core_api.Engine.Exec.{
  Error, Result, ok, err, modify, rolled_back, transaction, continue, ◌>>◌,
}
use six_1_core_api.Engine.Gates.{load_step, check_step_gates}
use six_1_core_api.Engine.Child.{say}
use six_1_core_api.Engine.Stepping.{enter}
use six_1_core_api.Engine.Orchestrator.{
  proceed, complete_and_proceed, complete_open_step, mark_gated, mark_locked, mark_transaction,
  mark_completed, finalize, is_open,
}
use six_1_core_api.Engine.Closed.{completable}
use six_1_core_api.Engine.Touch.{Sound, HasStep, bind-lem}
use six_1_core_api.Engine.Evolution.{enter-Touches, enter-HasStep}
use six_1_core_api.Engine.Completing.{proceed-Advances}
use six_1_core_api.Engine.Transactions.{found, open_moves}
use six_1_core_api.Engine.Keeping.{IsDone, Advances-IsDone, finalize-IsDone}

complete_and_proceed-IsDone :
    (env : Env) (opts : Options) (event : String) (s : Step) (w : World)
    → Sound w
    → HasStep w s.step_instance_id s
    → is_open s.status ≡ true
    → IsDone s.step_instance_id (complete_and_proceed env opts event s w).1
unfolding complete_and_proceed say load_step
complete_and_proceed-IsDone env opts event s w g h o =
    let (t, k, d) =
      enter-HasStep s.process_instance_id s.step_instance_id EngineState.completed opts s w h in
    let a =
      enter-Touches s.process_instance_id s.step_instance_id EngineState.completed opts s w g h
        (open_moves s.status o) in
    bind-lem (IsDone s.step_instance_id)
      (enter s.process_instance_id s.step_instance_id EngineState.completed opts)
      (λ u. modify (say (Message.emitted event s.step_instance_id)) >> proceed env opts s) w
      (t, k, d)
      (λ u q.
        Advances-IsDone s.step_instance_id _ _ (proceed-Advances env opts s _ a.sound) (t, k, d))

and_true : (a b : Bool) → (a && b) ≡ true → (a ≡ true) × (b ≡ true)
and_true a b h = ground arith

finalize-ok : (env : Env) (c : Option ℕ) (w : World) → (finalize env c w).0 ≡ ok tt
unfolding finalize
finalize-ok env none w = refl
finalize-ok env (some c) w = refl

-- Done with the step completed, or thrown with every table as it was.
abbrev pub DoneOrUndone : ℕ → World → Result (Unit {0}) × World → Type 0
DoneOrUndone id w (r, w') =
    ((r ≡ ok tt) × IsDone id w')
    ⊎ ((e : Error) × (r ≡ err e) × (w' ≡ record w { outbox = w'.outbox }))

finalized :
    (env : Env) (id : ℕ) (r : Result (Option ℕ)) (w w' : World)
    → IsDone id w'
    → DoneOrUndone id w
        (continue (rolled_back w (r, w')).0 (finalize env) (rolled_back w (r, w')).1)
finalized env id (ok c) w w' d = inl (finalize-ok env c w', finalize-IsDone id env c w' d)
finalized env id (err e) w w' d = inr (e, refl, refl)

mark_locked-IsDone :
    (env : Env) (opts : Options) (id : ℕ) (o : Option Step) (w : World)
    → Sound w
    → load_step id w ≡ o
    → completable env o w ≡ true
    → IsDone id (mark_locked env opts o w).1
unfolding mark_locked mark_gated complete_open_step load_step
mark_locked-IsDone env opts id none w g e h = cc
mark_locked-IsDone env opts id (some s) w g e h =
    let (o, c) = and_true (is_open s.status) (check_step_gates env s.step_instance_id w) h in
    rw (o, c)
      (subst (λ j. IsDone j (complete_open_step env opts s w).1) (find_step-id id w.core.steps s e)
        (complete_and_proceed-IsDone env opts _ s w g (found id s w e) o))

-- `markCompleted` of a ready or running step that passes its requirements and bindings, in a
-- world whose step ids rise, ends with the step completed, or throws and leaves every table as
-- it was.
pub mark_completed-DoneOrUndone :
    (env : Env) (opts : Options) (id : ℕ) (w : World)
    → Sound w
    → completable env (load_step id w) w ≡ true
    → DoneOrUndone id w (mark_completed env id opts w)
unfolding mark_completed mark_transaction transaction
mark_completed-DoneOrUndone env opts id w g h =
    finalized env id (mark_locked env opts (load_step id w) w).0 w
      (mark_locked env opts (load_step id w) w).1
      (mark_locked-IsDone env opts id (load_step id w) w g refl h)
