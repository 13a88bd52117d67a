-- ===== src/Engine/Enabling.antt =====
-- Making a step ready, and `enableNextSteps`, as they change the table of steps.
use six_1_core_api.Prelude.{
  ℕ, suc, ◌≡◌, ◌<◌, sym, inl, inr, Bool, true, false, ◌&&◌, some, List, [], ◌∷◌, String, arith,
}
use mathlib.Core.Path.{subst}
use six_1_core_api.Prelude.Tests.{Bool-cases}
use six_1_core_api.Prelude.Lists.{All, Memᴰ→All, filter→Memᴰ}
use six_1_core_api.Engine.Rows.{
  EngineState, pending, ready, Step, Message, Core, World, Env, Options,
}
use six_1_core_api.Engine.Exec.{when, modify, pure, for_each, ◌>>◌}
use six_1_core_api.Engine.Gates.{steps_of, evaluate_triggers}
use six_1_core_api.Engine.Provision.{provision_bindings_on_step_ready}
use six_1_core_api.Engine.Hosts.{state_eq}
use six_1_core_api.Engine.Child.{say, is_call_process, spawn_child_and_block_parent}
use six_1_core_api.Engine.Stepping.{enter, make_ready, enable_step, next_rows, enable_next_steps}
use six_1_core_api.Engine.Frames.{evaluate_triggers-core, provision-core}
use six_1_core_api.Engine.Moves.{unlock, Evolves, Evolves-refl, Evolves-trans, find_step}
use six_1_core_api.Engine.Tables.{Rising, Rising-filter, Memᴰ→find_step}
use six_1_core_api.Engine.Touch.{
  Sound, HasStep, Touches, Touches-refl, Touches-trans, Touches-Same, bind-lem, core-Same,
}
use six_1_core_api.Engine.Evolution.{enter-Touches, spawn_child-Touches}

module _ (env : Env) (opts : Options) (s : Step) (w : World) (g : Sound w)
    (h : HasStep w s.step_instance_id s) (e : s.status ≡ pending) where
  abbrev Moves : World → Type 0
  Moves = Touches s.step_instance_id w

  made_ready :
      (event : String) → Moves (enter s.process_instance_id s.step_instance_id ready opts w).1
  made_ready event =
      enter-Touches s.process_instance_id s.step_instance_id ready opts s w g h (rw e unlock)

  pub make_ready-Touches : (event : String) → Moves (make_ready env opts event s w).1
  unfolding make_ready say
  make_ready-Touches event =
      elim (Bool-cases (env.call_process_enabled && is_call_process s.task_type)) [
        | inl c ↦ rw c (
            bind-lem Moves (spawn_child_and_block_parent env s opts) (λ b. pure tt) w
              (spawn_child-Touches env opts s w g h e)
              (λ b q. spawn_child-Touches env opts s w g h e))
        | inr c ↦ rw c (
            bind-lem Moves (enter s.process_instance_id s.step_instance_id ready opts)
              (λ u.
                modify (provision_bindings_on_step_ready env s.step_instance_id)
                >> modify (say (Message.emitted event s.step_instance_id)))
              w (made_ready event)
              (λ u q. Touches-trans (made_ready event) (
                Touches-Same s.step_instance_id _ _ (made_ready event).sound
                  (core-Same (provision-core env s.step_instance_id _)))))
      ]

  when-Touches : (b : Bool) (event : String) → Moves (when b (make_ready env opts event s) w).1
  when-Touches true event = make_ready-Touches event
  when-Touches false event = Touches-refl s.step_instance_id w g

-- The body of the loop, on a pending row that is still there as it was read.
enable_step-Touches :
    (env : Env) (opts : Options) (s : Step) (w : World)
    → Sound w
    → HasStep w s.step_instance_id s
    → s.status ≡ pending
    → Touches s.step_instance_id w (enable_step env opts s w).1
unfolding enable_step
enable_step-Touches env opts s w g h e =
    let c = evaluate_triggers-core env s.process_instance_id s.step_instance_id w in
    let w1 = (evaluate_triggers env s.process_instance_id s.step_instance_id w).1 in
    let t = Touches-Same s.step_instance_id w w1 g (core-Same c) in
    Touches-trans t (
      when-Touches env opts s w1 t.sound
        (subst (λ (k : Core). find_step s.step_instance_id k.steps ≡ some s) (sym c) h) e _
        "six1-event.process_step_task_created")

-- A row that waits to be enabled: it is there as it was read, and pending.
abbrev Waiting : World → Step → Type 0
Waiting w s = HasStep w s.step_instance_id s × (s.status ≡ pending)

-- What the loop leaves: the rows have moved along, and the world is sound.
pub record Advances (w w' : World) : Type 0 where
  pub evolves : Evolves w.core.steps w'.core.steps
  pub sound : Sound w'

Advances-touch : {id : ℕ} {w w' w'' : World} → Touches id w w' → Advances w' w'' → Advances w w''
Advances-touch {w} {w'} {w''} t a = record {
  evolves = Evolves-trans w.core.steps w'.core.steps w''.core.steps t.evolves a.evolves;
  sound = a.sound;
}

-- The rows of larger ids still wait when another one was touched.
rows-Waiting :
    (id : ℕ) (rows : List Step) (lo next : ℕ) (w w' : World)
    → id < lo
    → Rising lo rows next
    → Touches id w w'
    → All (Waiting w) rows
    → All (Waiting w') rows
rows-Waiting id [] lo next w w' l r t a = tt
rows-Waiting id (y ∷ rows) lo next w w' l r t a = (
  (t.others y.step_instance_id y (ground arith) a.0.0, a.0.1),
  rows-Waiting id rows (suc y.step_instance_id) next w w' (omega (arith, r.0)) r.1 t a.1,
)

loop-Advances :
    (env : Env) (opts : Options) (rows : List Step) (lo next : ℕ) (w : World)
    → Sound w
    → Rising lo rows next
    → All (Waiting w) rows
    → Advances w (for_each (enable_step env opts) rows w).1
unfolding for_each
loop-Advances env opts [] lo next w g r a = record {
  evolves = Evolves-refl w.core.steps;
  sound = g;
}
loop-Advances env opts (s ∷ rows) lo next w g r a =
    let t = enable_step-Touches env opts s w g a.0.0 a.0.1 in
    bind-lem (Advances w) (enable_step env opts s) (λ u. for_each (enable_step env opts) rows) w
      (record { evolves = t.evolves; sound = t.sound })
      (λ u q. Advances-touch t (
        loop-Advances env opts rows (suc s.step_instance_id) next _ t.sound r.1 (
          rows-Waiting s.step_instance_id rows (suc s.step_instance_id) next w _ (omega arith) r.1 t
            a.1)))

state_eq-pending : (s : EngineState) → state_eq s pending ≡ true → s ≡ pending
state_eq-pending s h = ground arith

next_rows-Waiting :
    (process order : ℕ) (w : World) → Sound w → All (Waiting w) (next_rows process order w)
next_rows-Waiting process order w g = Memᴰ→All (Waiting w) (next_rows process order w) (λ s m.
    let (m1, e1) = filter→Memᴰ _ (steps_of process w) m in
    let (m2, e2) = filter→Memᴰ _ w.core.steps m1 in
    (
      Memᴰ→find_step 0 w.core.steps w.core.next_step_id g m2,
      state_eq-pending s.status (ground arith),
    ))

pub enable_next_steps-Advances :
    (env : Env) (process order : ℕ) (opts : Options) (w : World)
    → Sound w
    → Advances w (enable_next_steps env process order opts w).1
unfolding enable_next_steps
enable_next_steps-Advances env process order opts w g =
    loop-Advances env opts (next_rows process order w) 0 w.core.next_step_id w g
      (Rising-filter _ 0 (steps_of process w) w.core.next_step_id
        (Rising-filter _ 0 w.core.steps w.core.next_step_id g))
      (next_rows-Waiting process order w g)
