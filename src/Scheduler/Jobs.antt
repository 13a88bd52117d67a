-- ===== src/Scheduler/Jobs.antt =====
-- The jobs of the worker, delivered once, late, or more than once.
use mathlib.Core.List.{Memᴰ}
use mathlib.Core.Path.{subst}
use six_1_core_api.Prelude.{
  ℕ, String, ◌≡◌, ◌≤◌, ◌<◌, refl, sym, ◌∙◌, ap, ◌⊎◌, arith, inl, inr, Bool, true, false, ◌&&◌,
  Option, none, some, List, [], ◌∷◌, map,
}
use six_1_core_api.Prelude.Tests.{
  ltb, ltb→lt, ◌==◌, ==_iff, if◌then◌else◌, Bool-cases, Option-cases, some_inj, some-none,
}
use six_1_core_api.Prelude.Lists.{find, find-passes, All, Memᴰ→All}
use six_1_core_api.Scheduler.{
  ScheduledTask, calendar, run_end, Store, Interval, update_row, find_row, emit, set_running,
  set_completed, set_paused, mark_running, mark_completed, pause_until, next_start_after,
}
use six_1_core_api.Scheduler.Active.{has_job}
use six_1_core_api.Scheduler.Worker.{
  Calendar, token_eq, next_try, held_back, defer, start_row, start_found, handle_start, end_found,
  handle_end,
}
use six_1_core_api.Scheduler.Gate.{
  next_start_after-later, next_start_after-least, next_start_after-reaches,
  next_start_after-attained,
}

find_row-id :
    (id : ℕ) (s : Store) (r : ScheduledTask) → find_row id s ≡ some r → r.scheduled_task_id ≡ id
unfolding find_row
find_row-id id s r e = (==_iff _ _).0 (find-passes _ s.rows r e)

-- The row of an update is found again, updated.
find_row-update :
    (f : ScheduledTask → ScheduledTask) (id : ℕ) (s : Store) (r : ScheduledTask)
    → ((r : ScheduledTask) → (f r).scheduled_task_id ≡ r.scheduled_task_id)
    → find_row id s ≡ some r
    → find_row id (update_row f id s) ≡ some (f r)
unfolding find_row update_row
find_row-update f id s r k e = go s.rows e
  where
    go :
        (rows : List ScheduledTask)
        → find (λ (x : ScheduledTask). x.scheduled_task_id == id) rows ≡ some r
        → find
            (λ (x : ScheduledTask). x.scheduled_task_id == id)
            (map (λ (x : ScheduledTask). if x.scheduled_task_id == id then f x else x) rows)
          ≡ some (f r)
    go [] e = cc
    go (x ∷ rows) e = elim (Bool-cases (x.scheduled_task_id == id)) [
      | inl h ↦
          rw (h, (==_iff _ _).1 (k x ∙ (==_iff _ _).0 h))
            (ap (λ (z : ScheduledTask). some (f z)) (some_inj (rw h at e)))
      | inr h ↦ rw (h, h) (go rows (rw h at e))
    ]

-- Neither job does anything to a row that is not active.
start_found-inactive :
    (cal : Calendar) (now id : ℕ) (token : String) (s : Store) (r : ScheduledTask)
    → find_row id s ≡ some r
    → r.is_active ≡ false
    → handle_start cal now id token s ≡ s
unfolding handle_start start_found
start_found-inactive cal now id token s r e a = rw (e, a)

end_found-inactive :
    (now id : ℕ) (token : String) (s : Store) (r : ScheduledTask)
    → find_row id s ≡ some r
    → r.is_active ≡ false
    → handle_end now id token s ≡ s
unfolding handle_end end_found
end_found-inactive now id token s r e a = rw (e, a)

-- The update of a row by its own id.
own_row :
    (f : ScheduledTask → ScheduledTask) (id : ℕ) (s : Store) (r : ScheduledTask)
    → ((r : ScheduledTask) → (f r).scheduled_task_id ≡ r.scheduled_task_id)
    → find_row id s ≡ some r
    → find_row id (update_row f r.scheduled_task_id s) ≡ some (f r)
own_row f id s r k e =
    subst (λ j. find_row id (update_row f j s) ≡ some (f r)) (sym (find_row-id id s r e))
      (find_row-update f id s r k e)

ended_row :
    (now id : ℕ) (s : Store) (r : ScheduledTask)
    → find_row id s ≡ some r
    → find_row id (emit (run_end r.scheduled_task_id) (mark_completed r.scheduled_task_id now s))
      ≡ some (set_completed now r)
unfolding mark_completed find_row
ended_row now id s r e = own_row (set_completed now) id s r (λ x. refl) e

end_found-again :
    (now later id : ℕ) (token : String) (o : Option ScheduledTask) (s : Store)
    → find_row id s ≡ o
    → handle_end later id token (end_found now token o s) ≡ end_found now token o s
unfolding handle_end end_found
end_found-again now later id token none s e = rw e
end_found-again now later id token (some r) s e =
    elim (Bool-cases (r.is_active && token_eq r.end_job_token token)) [
      | inr g ↦ rw g (rw (e, g))
      | inl g ↦ rw g (rw (ended_row now id s r e))
    ]

-- An end job is idempotent: delivered again, whenever that is, it changes nothing.
pub handle_end-again :
    (now later id : ℕ) (token : String) (s : Store)
    → handle_end later id token (handle_end now id token s) ≡ handle_end now id token s
unfolding handle_end
handle_end-again now later id token s = end_found-again now later id token (find_row id s) s refl

-- The test that both jobs make before anything else.
abbrev pub current : Option String → String → ScheduledTask → Bool
current job token r = r.is_active && token_eq job token

handle_start-starts :
    (cal : Calendar) (now id : ℕ) (token : String) (s : Store) (r : ScheduledTask)
    → find_row id s ≡ some r
    → current r.start_job_token token r ≡ true
    → held_back cal now r ≡ false
    → handle_start cal now id token s ≡ start_row now r s
unfolding handle_start start_found
handle_start-starts cal now id token s r e g h = rw (e, g, h)

started_row :
    (now id : ℕ) (s : Store) (r : ScheduledTask)
    → find_row id s ≡ some r
    → find_row id (start_row now r s) ≡ some (set_running now r)
unfolding start_row mark_running find_row
started_row now id s r e = own_row (set_running now) id s r (λ x. refl) e

-- A start job is not idempotent: delivered again to a row that it has set running, it replaces
-- the actual start, where the calendar holds the row back neither time.
pub handle_start-again :
    (cal : Calendar) (now later id : ℕ) (token : String) (s : Store) (r : ScheduledTask)
    → find_row id s ≡ some r
    → current r.start_job_token token r ≡ true
    → held_back cal now r ≡ false
    → held_back cal later (set_running now r) ≡ false
    → find_row id (handle_start cal later id token (handle_start cal now id token s))
      ≡ some (set_running later r)
handle_start-again cal now later id token s r e g h l =
    let m = started_row now id s r e in
    rw
      (
        handle_start-starts cal now id token s r e g h,
        handle_start-starts cal later id token (start_row now r s) (set_running now r) m g l,
      )
      (started_row later id (start_row now r s) (set_running now r) m)

-- The time until which a row is held back: the first later start of the day or, if the day has
-- none, the next day.
abbrev pub TryTime : Calendar → ℕ → ScheduledTask → ℕ → Type 0
TryTime cal now r until =
    ((i : Interval) × Memᴰ i (cal.intervals r now)
      × (until ≡ i.start)
      × (now < until)
      × All (λ (j : Interval). (j.start ≤ now) ⊎ (until ≤ j.start)) (cal.intervals r now))
    ⊎ ((until ≡ cal.next_day r now) × All (λ (j : Interval). j.start ≤ now) (cal.intervals r now))

-- What a start that the calendar holds back leaves: a row that is paused, and the jobs as they
-- are.
pub record Deferred (cal : Calendar) (now id : ℕ) (r : ScheduledTask) (s s' : Store) : Type 0 where
  pub until : ℕ
  pub is_next : TryTime cal now r until
  pub paused_row : find_row id s' ≡ some (set_paused until calendar r)
  pub no_new_job : s'.queue ≡ s.queue

paused_at :
    (cal : Calendar) (now id : ℕ) (token : String) (s : Store) (r : ScheduledTask)
    → find_row id s ≡ some r
    → has_job token s.queue ≡ true
    → TryTime cal now r (next_try cal now r)
    → Deferred cal now id r s (defer cal now token r s)
unfolding defer pause_until update_row find_row
paused_at cal now id token s r e q l = record {
  until = next_try cal now r;
  is_next = l;
  paused_row = own_row (set_paused (next_try cal now r) calendar) id s r (λ x. refl) e;
  no_new_job = rw q refl;
}

next_try-TryTime :
    (cal : Calendar) (now : ℕ) (r : ScheduledTask) → TryTime cal now r (next_try cal now r)
next_try-TryTime cal now r =
    let is = cal.intervals r now in
    elim (Option-cases (next_start_after now is)) [
      | inl e ↦
          inr (rw e refl, Memᴰ→All (λ (j : Interval). j.start ≤ now) is (λ j m. none_later j m e))
      | inr (n, e) ↦
          let (i, m, q) = next_start_after-attained now n is e in
          inl (
            i,
            m,
            rw e q,
            rw e (next_start_after-later now n is e),
            Memᴰ→All (λ (j : Interval). (j.start ≤ now) ⊎ (next_try cal now r ≤ j.start)) is
                (λ j k. rw e (earlier_or n j k e)),
          )
    ]
  where
    is_later : (j : Interval) → (now < j.start) ⊎ (j.start ≤ now)
    is_later j = elim (Bool-cases (ltb now j.start)) [
      | inl h ↦ inl (ltb→lt now j.start h)
      | inr h ↦ inr (ground arith)
    ]

    none_later :
        (j : Interval)
        → Memᴰ j (cal.intervals r now)
        → next_start_after now (cal.intervals r now) ≡ none
        → j.start ≤ now
    none_later j m e = elim (is_later j) [
      | inr l ↦ l
      | inl l ↦
          let (g, q, b) = next_start_after-reaches now (cal.intervals r now) m l in
          absurd (some-none (sym q ∙ e))
    ]

    earlier_or :
        (n : ℕ) (j : Interval)
        → Memᴰ j (cal.intervals r now)
        → next_start_after now (cal.intervals r now) ≡ some n
        → (j.start ≤ now) ⊎ (n ≤ j.start)
    earlier_or n j m e = elim (is_later j) [
      | inr l ↦ inl l
      | inl l ↦ inr (next_start_after-least now n j (cal.intervals r now) e m l)
    ]

-- A start job whose row the calendar holds back, delivered while the queue has it: the row is
-- paused until the first later start of the day or, if the day has none, the next day, and the
-- queue stays as it is: no job is added to it.
pub handle_start-Deferred :
    (cal : Calendar) (now id : ℕ) (token : String) (s : Store) (r : ScheduledTask)
    → find_row id s ≡ some r
    → current r.start_job_token token r ≡ true
    → held_back cal now r ≡ true
    → has_job token s.queue ≡ true
    → Deferred cal now id r s (handle_start cal now id token s)
unfolding handle_start start_found
handle_start-Deferred cal now id token s r e g h q =
    rw (e, g, h) (paused_at cal now id token s r e q (next_try-TryTime cal now r))
