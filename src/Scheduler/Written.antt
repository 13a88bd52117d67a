-- ===== src/Scheduler/Written.antt =====
-- What the loop of `scheduleFromShifts` does with one shift: its row is written, refused by a check
-- of the table, or clashes.
use mathlib.Core.Option
use six_1_core_api.Prelude.{
  ℕ, ◌≡◌, refl, sym, ap, ◌∙◌, inl, inr, true, false, Option, none, some, List, ◌∷◌,
}
use six_1_core_api.Prelude.Tests.{Bool-cases, some_inj, some-none}
use six_1_core_api.Scheduler.{ScheduledTask, Store}
use six_1_core_api.Scheduler.Active.{is_admitted, insert_row, create_active}
use six_1_core_api.Scheduler.Shifts.{Services, Shift, Request, placed, clashing}
use six_1_core_api.Scheduler.Scheduling.{
  Refusal, refused, with_first, created_of, save_shift, draw_tokens, child_draft, finish_child,
  write_child, placement, schedule_all,
}

create_active-admitted :
    (draft : ScheduledTask) (st : Store)
    → is_admitted draft ≡ true
    → create_active draft st ≡ some (insert_row draft st)
unfolding create_active
create_active-admitted draft st h = rw h refl

create_active-refused :
    (draft : ScheduledTask) (st : Store) → is_admitted draft ≡ false → create_active draft st ≡ none
unfolding create_active
create_active-refused draft st h = rw h refl

-- The loop, by the time that its first shift gets.
module _ (v : Services) (q : Request) where
  pub schedule_all-placed :
      (o : Option ℕ) (s : Shift) (ss : List Shift) (st written : Store) (a b : ℕ)
      → placement v q o s st ≡ placed a b
      → write_child v q s st.next_shift a b (save_shift s st) ≡ some written
      → schedule_all v q o (s ∷ ss) st
        ≡ with_first (created_of st a b) (schedule_all v q (some b) ss written)
  unfolding schedule_all
  schedule_all-placed o s ss st written a b h w = rw (h, schedule_all) (rw w refl)

  pub schedule_all-rejected :
      (o : Option ℕ) (s : Shift) (ss : List Shift) (st : Store) (a b : ℕ)
      → placement v q o s st ≡ placed a b
      → write_child v q s st.next_shift a b (save_shift s st) ≡ none
      → schedule_all v q o (s ∷ ss) st
        ≡ refused (draw_tokens (save_shift s st)) Refusal.row_rejected
  unfolding schedule_all
  schedule_all-rejected o s ss st a b h w = rw (h, schedule_all) (rw w refl)

  -- What is written for a shift, where the table admits its row.
  abbrev pub written_child : Shift → ℕ → ℕ → ℕ → Store → Store
  written_child s i a b st =
      finish_child v q s i a b st (insert_row (child_draft v q s st.drawn a b) (draw_tokens st))

  pub write_child-admitted :
      (s : Shift) (i a b : ℕ) (st : Store)
      → is_admitted (child_draft v q s st.drawn a b) ≡ true
      → write_child v q s i a b st ≡ some (written_child s i a b st)
  unfolding write_child
  write_child-admitted s i a b st h =
      ap (Option.map (finish_child v q s i a b st))
        (create_active-admitted (child_draft v q s st.drawn a b) (draw_tokens st) h)

  pub write_child-some :
      (s : Shift) (i a b : ℕ) (st written : Store)
      → write_child v q s i a b st ≡ some written
      → written ≡ written_child s i a b st
  unfolding write_child
  write_child-some s i a b st written h =
      let draft = child_draft v q s st.drawn a b in
      elim (Bool-cases (is_admitted draft)) [
        | inl e ↦ some_inj (sym h ∙ write_child-admitted s i a b st e)
        | inr e ↦ absurd (
            some-none (
              sym h
              ∙ ap (Option.map (finish_child v q s i a b st))
                  (create_active-refused draft (draw_tokens st) e)))
      ]

  pub schedule_all-clashing :
      (o : Option ℕ) (s : Shift) (ss : List Shift) (st : Store)
      → placement v q o s st ≡ clashing
      → schedule_all v q o (s ∷ ss) st ≡ refused (save_shift s st) Refusal.child_overlap
  unfolding schedule_all
  schedule_all-clashing o s ss st h = rw (h, schedule_all) refl
