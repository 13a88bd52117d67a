-- ===== src/Engine/Touch.antt =====
-- What an action of the engine may do to the table of steps: move the rows along, add rows behind
-- them, and change no row but one.
use six_1_core_api.Prelude.{
  ℕ, ◌≡◌, ◌≢◌, refl, sym, ◌∙◌, ap, Bool, true, false, Option, none, some, List, ◌++◌,
}
use mathlib.Core.Path.{subst}
use six_1_core_api.Engine.Rows.{Step, Core, World}
use six_1_core_api.Engine.Exec.{
  Error, require, Exec, Result, ok, err, continue, ◌>>=◌, when, modify,
}
use six_1_core_api.Engine.Child.{update_step}
use six_1_core_api.Engine.Moves.{
  Moved, Evolves, Evolves-refl, Evolves-trans, Evolves-append, find_step,
}
use six_1_core_api.Engine.Tables.{
  Rising, Rising-append, find-append, update_at-Evolves, update_at-Rising, find-update_at_self,
  find-update_at_ne,
}

-- The ids of the steps rise and stay below the next one that the table hands out.
abbrev pub Sound : World → Type 0
Sound w = Rising 0 w.core.steps w.core.next_step_id

abbrev pub HasStep : World → ℕ → Step → Type 0
HasStep w id s = find_step id w.core.steps ≡ some s

-- From a sound world to a sound one, with no change to a row but the one of this id.
pub record Touches (id : ℕ) (w w' : World) : Type 0 where
  pub evolves : Evolves w.core.steps w'.core.steps
  pub sound : Sound w'
  pub others : (j : ℕ) (s : Step) → j ≢ id → HasStep w j s → HasStep w' j s

-- The steps and their next id are as before.
pub record Same (w w' : World) : Type 0 where
  pub same_steps : w'.core.steps ≡ w.core.steps
  pub same_next : w'.core.next_step_id ≡ w.core.next_step_id

pub core-Same : {w w' : World} → w'.core ≡ w.core → Same w w'
core-Same e = record {
  same_steps = ap (λ (c : Core). c.steps) e;
  same_next = ap (λ (c : Core). c.next_step_id) e;
}

pub Same-trans : {w w' w'' : World} → Same w w' → Same w' w'' → Same w w''
Same-trans p q = record {
  same_steps = q.same_steps ∙ p.same_steps;
  same_next = q.same_next ∙ p.same_next;
}

pub Touches-Same : (id : ℕ) (w w' : World) → Sound w → Same w w' → Touches id w w'
Touches-Same id w w' g e = record {
  evolves = rw e.same_steps (Evolves-refl w.core.steps);
  sound = rw (e.same_steps, e.same_next) g;
  others = λ j s n h. rw e.same_steps h;
}

pub Touches-refl : (id : ℕ) (w : World) → Sound w → Touches id w w
Touches-refl id w g = Touches-Same id w w g (record { same_steps = refl; same_next = refl })

pub Touches-trans :
    {id : ℕ} {w w' w'' : World} → Touches id w w' → Touches id w' w'' → Touches id w w''
Touches-trans {id} {w} {w'} {w''} p q = record {
  evolves = Evolves-trans w.core.steps w'.core.steps w''.core.steps p.evolves q.evolves;
  sound = q.sound;
  others = λ j s n h. q.others j s n (p.others j s n h);
}

-- Rows that are added touch none.
pub Touches-append :
    (id : ℕ) (w w' : World) (new : List Step)
    → Sound w
    → w'.core.steps ≡ w.core.steps ++ new
    → Rising w.core.next_step_id new w'.core.next_step_id
    → Touches id w w'
Touches-append id w w' new g e r = record {
  evolves = rw e (Evolves-append w.core.steps new);
  sound = rw e (Rising-append 0 w.core.steps new w.core.next_step_id w'.core.next_step_id g r);
  others = λ j s n h. rw e (find-append j w.core.steps new s h);
}

-- An update of the row of this id, which has moved by it.
pub Touches-update :
    (f : Step → Step) (id : ℕ) (s : Step) (w : World)
    → ((s : Step) → (f s).step_instance_id ≡ s.step_instance_id)
    → Sound w
    → HasStep w id s
    → Moved s (f s)
    → Touches id w (update_step f id w)
unfolding update_step
Touches-update f id s w k g h m = record {
  evolves = update_at-Evolves f id 0 w.core.steps w.core.next_step_id s g h m;
  sound = update_at-Rising f id 0 w.core.steps w.core.next_step_id k g;
  others = λ j t n e. find-update_at_ne f id j w.core.steps k n ∙ e;
}

pub update_step-HasStep :
    (f : Step → Step) (id : ℕ) (s : Step) (w : World)
    → ((s : Step) → (f s).step_instance_id ≡ s.step_instance_id)
    → HasStep w id s
    → HasStep (update_step f id w) id (f s)
unfolding update_step
update_step-HasStep f id s w k h = find-update_at_self f id w.core.steps s k h

continue-lem :
    {A B : Type 0} (P : World → Type 0) (r : Result A) (f : A → Exec B) (w : World)
    → P w
    → ((a : A) → r ≡ ok a → P (f a w).1)
    → P (continue r f w).1
continue-lem P (ok a) f w p q = q a refl
continue-lem P (err e) f w p q = p

-- A predicate on the world that an action leaves, by the action's two parts.
pub bind-lem :
    {A B : Type 0} (P : World → Type 0) (m : Exec A) (f : A → Exec B) (w : World)
    → P (m w).1
    → ((a : A) → (m w).0 ≡ ok a → P (f a (m w).1).1)
    → P ((m >>= f) w).1
bind-lem P m f w p q = continue-lem P (m w).0 f (m w).1 p q

-- The same, where the first part leaves the world alone.
pub after-lem :
    {A B : Type 0} (P : World → Type 0) (m : Exec A) (f : A → Exec B) (w : World)
    → (m w).1 ≡ w
    → P w
    → ((a : A) → P (f a w).1)
    → P ((m >>= f) w).1
after-lem P m f w e p q = bind-lem P m f w (rw e p) (λ a r. subst (λ v. P (f a v).1) (sym e) (q a))

pub when-core :
    (b : Bool) (f : World → World) (w : World)
    → (f w).core ≡ w.core
    → (when b (modify f) w).1.core ≡ w.core
when-core true f w e = e
when-core false f w e = refl

pub require-world : {A : Type 0} (o : Option A) (e : Error) (w : World) → (require o e w).1 ≡ w
require-world none e w = refl
require-world (some a) e w = refl
