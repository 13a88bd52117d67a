-- ===== src/Scheduler/Steps.antt =====
-- The calls of the planner, the commands on a row and the jobs of the worker, in any order.
use mathlib.Core.Path.{subst}
use six_1_core_api.Prelude.{
  ℕ, suc, String, ◌≡◌, refl, sym, ap, ◌∙◌, inl, inr, true, ◌&&◌, Option, none, some, List, [], ◌∷◌,
}
use six_1_core_api.Prelude.Tests.{◌==◌, Bool-cases, Option-cases, and_true, ==_iff, str_eq_iff}
use six_1_core_api.Prelude.Lists.{find, find-map, find-passes}
use six_1_core_api.Scheduler.{
  ScheduledTask, Store, JobKind, BlockReason, task_start, task_end, update_row, find_row,
  set_paused, set_running, set_completed, mark_running, mark_completed, pause_until, resume,
}
use six_1_core_api.Scheduler.Worker.{
  Calendar, next_try, token_eq, held_back, defer, start_row, start_found, handle_start, end_found,
  handle_end, on_failed,
}
use six_1_core_api.Scheduler.Active.{
  is_admitted, created_row, create_active, mark_queued, set_queued,
}
use six_1_core_api.Scheduler.Dependencies.{Dependency}
use six_1_core_api.Scheduler.Shifts.{Services, Shift, Request, sort_shifts, serialize}
use six_1_core_api.Scheduler.Scheduling.{
  Outcome, Created, done, refused, with_first, created_of, save_shift, draw_tokens, child_draft,
  write_child, placement, schedule_all, schedule_from_shifts,
}
use six_1_core_api.Scheduler.Commands.{
  Constraint, Window, WindowRequest, set_window, moved_window, tenant_days, window_outcome,
  schedule_task_window, reschedule_found, reschedule, pause, resume_found, cancel, set_cancelled,
  or_unchanged,
}
use six_1_core_api.Scheduler.Serial.{Placement-cases, schedule_from_shifts-cases}
use six_1_core_api.Scheduler.Written.{
  schedule_all-placed, schedule_all-rejected, written_child, write_child-some,
  schedule_all-clashing,
}
use six_1_core_api.Scheduler.Matched.{
  Matched, Keeps, update-Keeps, Matches-map, Matches-new, Matches-queue_add, find-latest, token_of,
}

abbrev pub store_of : Outcome → Store
store_of (done st cs) = st
store_of (refused st w) = st

-- One call, at any time and with any calendars.
pub data Step : Store → Store → Type 0 where
  plans :
      (v : Services) (q : Request) (st : Store) → Step st (store_of (schedule_from_shifts v q st))
  opens :
      (v : Services) (deps : List Dependency) (c : Constraint) (q : WindowRequest) (st : Store)
      → Step st (schedule_task_window v deps c q st).1
  moves : (v : Services) (id : ℕ) (w : Window) (st : Store) → Step st (reschedule v id w st)
  pauses : (id until : ℕ) (st : Store) → Step st (pause id until st)
  resumes : (id : ℕ) (st : Store) → Step st (resume_found id st)
  cancels : (id : ℕ) (st : Store) → Step st (cancel id st)
  starts :
      (cal : Calendar) (now id : ℕ) (token : String) (st : Store)
      → Step st (handle_start cal now id token st)
  ends : (now id : ℕ) (token : String) (st : Store) → Step st (handle_end now id token st)
  fails : (id : ℕ) (message : Option String) (st : Store) → Step st (on_failed id message st)

-- Any number of calls.
pub data Steps : Store → Store → Type 0 where
  stay : (st : Store) → Steps st st
  next : {a b c : Store} → Step a b → Steps b c → Steps a c

update_row-Matched :
    (f : ScheduledTask → ScheduledTask) (id : ℕ) (st : Store)
    → Keeps f
    → Matched st
    → Matched (update_row f id st)
unfolding update_row
update_row-Matched f id st k m = Matches-map st.rows st.queue st.next_id m _ (update-Keeps f id k)

-- An update that sets other columns.
other_columns-Keeps :
    (f : ScheduledTask → ScheduledTask)
    → ((r : ScheduledTask) → (f r).scheduled_task_id ≡ r.scheduled_task_id)
    → ((r : ScheduledTask) → (f r).start_job_token ≡ r.start_job_token)
    → ((r : ScheduledTask) → (f r).end_job_token ≡ r.end_job_token)
    → Keeps f
other_columns-Keeps f n s e = record { number = n; tokens = tokens }
  where
    tokens : (k : JobKind) (r : ScheduledTask) → token_of k (f r) ≡ token_of k r
    tokens task_start r = s r
    tokens task_end r = e r

written_child-Matched :
    (v : Services) (q : Request) (s : Shift) (i a b : ℕ) (st : Store)
    → Matched st
    → Matched (written_child v q s i a b st)
unfolding mark_queued update_row
written_child-Matched v q s i a b st m =
    let new = created_row st.next_id (child_draft v q s st.drawn a b) in
    let m1 = Matches-new st.rows st.queue st.next_id m new refl in
    let found = find-latest st.rows st.queue st.next_id m new refl in
    let m2 = Matches-queue_add _ _ _ m1 _ (new, found, refl) in
    let m3 = Matches-queue_add _ _ _ m2 _ (new, found, refl) in
    Matches-map _ _ _ m3 _ (
      update-Keeps (set_queued (v.uuid st.drawn) (v.uuid (suc st.drawn))) st.next_id
        (other_columns-Keeps _ (λ r. refl) (λ r. refl) (λ r. refl)))

write_child-Matched :
    (v : Services) (q : Request) (s : Shift) (i a b : ℕ) (st written : Store)
    → write_child v q s i a b st ≡ some written
    → Matched st
    → Matched written
write_child-Matched v q s i a b st written w m =
    subst Matched (sym (write_child-some v q s i a b st written w))
      (written_child-Matched v q s i a b st m)

with_first-Matched :
    (c : Created) (o : Outcome) → Matched (store_of o) → Matched (store_of (with_first c o))
with_first-Matched c (done st cs) m = m
with_first-Matched c (refused st w) m = m

schedule_all-Matched :
    (v : Services) (q : Request) (o : Option ℕ) (ss : List Shift) (st : Store)
    → Matched st
    → Matched (store_of (schedule_all v q o ss st))
unfolding schedule_all
schedule_all-Matched v q o [] st m = m
schedule_all-Matched v q o (s ∷ ss) st m = elim (Placement-cases (placement v q o s st)) [
  | inr k ↦ rw (schedule_all-clashing v q o s ss st k) m
  | inl (a, b, k) ↦ elim (Option-cases (write_child v q s st.next_shift a b (save_shift s st))) [
    | inl w ↦ rw (schedule_all-rejected v q o s ss st a b k w) m
    | inr (written, w) ↦ rw (schedule_all-placed v q o s ss st written a b k w) (
        with_first-Matched (created_of st a b) (schedule_all v q (some b) ss written) (
          schedule_all-Matched v q (some b) ss written
            (write_child-Matched v q s st.next_shift a b (save_shift s st) written w m)))
  ]
]

schedule_from_shifts-Matched :
    (v : Services) (q : Request) (st : Store)
    → Matched st
    → Matched (store_of (schedule_from_shifts v q st))
schedule_from_shifts-Matched v q st m = elim (schedule_from_shifts-cases v q st) [
  | inl (w, e) ↦ rw e m
  | inr e ↦ rw e (schedule_all-Matched v q none (serialize (sort_shifts q.shifts)) st m)
]

or_unchanged-Matched :
    (f : ScheduledTask → Store → Store) (o : Option ScheduledTask) (st : Store)
    → ((r : ScheduledTask) → Matched (f r st))
    → Matched st
    → Matched (or_unchanged f o st)
or_unchanged-Matched f none st k m = m
or_unchanged-Matched f (some r) st k m = k r

token_eq-some : (o : Option String) (t : String) → token_eq o t ≡ true → o ≡ some t
token_eq-some none t h = cc
token_eq-some (some s) t h = ap some ((str_eq_iff s t).0 h)

defer-Matched :
    (cal : Calendar) (now id : ℕ) (token : String) (r : ScheduledTask) (st : Store)
    → find_row id st ≡ some r
    → r.start_job_token ≡ some token
    → Matched st
    → Matched (defer cal now token r st)
unfolding defer pause_until update_row find_row
defer-Matched cal now id token r st e t m =
    let same : r.scheduled_task_id ≡ id = (==_iff _ _).0 (find-passes _ st.rows r e) in
    let k =
      update-Keeps (set_paused (next_try cal now r) BlockReason.calendar) r.scheduled_task_id
        (other_columns-Keeps _ (λ x. refl) (λ x. refl) (λ x. refl)) in
    Matches-queue_add _ _ _ (Matches-map st.rows st.queue st.next_id m _ k) _ (
      _,
      find-map (λ (x : ScheduledTask). x.scheduled_task_id == r.scheduled_task_id) _ st.rows r
          (λ x. ap (λ n. n == r.scheduled_task_id) (k.number x))
          (subst (λ n. find (λ (x : ScheduledTask). x.scheduled_task_id == n) st.rows ≡ some r)
            (sym same) e),
      k.tokens task_start r ∙ t,
    )

start_found-Matched :
    (cal : Calendar) (now id : ℕ) (token : String) (o : Option ScheduledTask) (st : Store)
    → find_row id st ≡ o
    → Matched st
    → Matched (start_found cal now token o st)
unfolding start_found start_row mark_running
start_found-Matched cal now id token none st e m = m
start_found-Matched cal now id token (some r) st e m =
    elim (Bool-cases (r.is_active && token_eq r.start_job_token token)) [
      | inr h ↦ rw h m
      | inl h ↦
          let (a, t) = and_true r.is_active _ h in
          elim (Bool-cases (held_back cal now r)) [
            | inl l ↦
                rw (h, l)
                  (defer-Matched cal now id token r st e (token_eq-some r.start_job_token token t)
                    m)
            | inr l ↦
                rw (h, l)
                  (update_row-Matched (set_running now) r.scheduled_task_id st
                    (other_columns-Keeps _ (λ x. refl) (λ x. refl) (λ x. refl)) m)
          ]
    ]

end_found-Matched :
    (now : ℕ) (token : String) (o : Option ScheduledTask) (st : Store)
    → Matched st
    → Matched (end_found now token o st)
unfolding end_found mark_completed
end_found-Matched now token none st m = m
end_found-Matched now token (some r) st m =
    elim (Bool-cases (r.is_active && token_eq r.end_job_token token)) [
      | inr h ↦ rw h m
      | inl h ↦ rw h (
          update_row-Matched (set_completed now) r.scheduled_task_id st
            (other_columns-Keeps _ (λ x. refl) (λ x. refl) (λ x. refl)) m)
    ]

window_outcome-Matched :
    (draft : ScheduledTask) (st : Store)
    → Matched st
    → Matched
        (window_outcome st.next_id draft (draw_tokens st) (create_active draft (draw_tokens st))).1
unfolding create_active
window_outcome-Matched draft st m = elim (Bool-cases (is_admitted draft)) [
  | inl e ↦ rw e (Matches-new st.rows st.queue st.next_id m (created_row st.next_id draft) refl)
  | inr e ↦ rw e m
]

reschedule_found-Matched :
    (v : Services) (w : Window) (r : ScheduledTask) (st : Store)
    → Matched st
    → Matched (reschedule_found v w r st)
unfolding reschedule_found
reschedule_found-Matched v w r st m =
    let set = set_window w (moved_window (tenant_days v r.tenant_id r.tenant_user_id) w) in
    elim (Bool-cases (is_admitted (set r))) [
      | inl e ↦ rw e (
          update_row-Matched set r.scheduled_task_id st
            (other_columns-Keeps _ (λ x. refl) (λ x. refl) (λ x. refl)) m)
      | inr e ↦ rw e m
    ]

Step-Matched : {a b : Store} → Step a b → Matched a → Matched b
unfolding schedule_task_window reschedule pause pause_until resume_found resume cancel handle_start
    handle_end on_failed
Step-Matched (plans v q st) m = schedule_from_shifts-Matched v q st m
Step-Matched (opens v deps c q st) m = window_outcome-Matched _ st m
Step-Matched (moves v id w st) m =
    or_unchanged-Matched _ (find_row id st) st (λ r. reschedule_found-Matched v w r st m) m
Step-Matched (pauses id until st) m =
    or_unchanged-Matched _ (find_row id st) st
      (λ r.
        update_row-Matched (set_paused until BlockReason.calendar) r.scheduled_task_id st
          (other_columns-Keeps _ (λ x. refl) (λ x. refl) (λ x. refl)) m)
      m
Step-Matched (resumes id st) m =
    or_unchanged-Matched _ (find_row id st) st
      (λ r.
        update_row-Matched _ r.scheduled_task_id st
          (other_columns-Keeps _ (λ x. refl) (λ x. refl) (λ x. refl)) m)
      m
Step-Matched (cancels id st) m =
    or_unchanged-Matched _ (find_row id st) st
      (λ r.
        update_row-Matched set_cancelled r.scheduled_task_id st
          (other_columns-Keeps _ (λ x. refl) (λ x. refl) (λ x. refl)) m)
      m
Step-Matched (starts cal now id token st) m =
    start_found-Matched cal now id token (find_row id st) st refl m
Step-Matched (ends now id token st) m = end_found-Matched now token (find_row id st) st m
Step-Matched (fails id message st) m = elim (Bool-cases (id == 0)) [
  | inl h ↦ rw h m
  | inr h ↦
      rw h
        (update_row-Matched _ id st (other_columns-Keeps _ (λ x. refl) (λ x. refl) (λ x. refl)) m)
]

-- However the calls of the planner, the commands on a row and the jobs of the worker follow
-- each other, each job that has been added to the queue names a row that carries its token,
-- and the numbers of rows are below the next one; it is so from every store where it is so.
pub Steps-Matched : (a b : Store) → Steps a b → Matched a → Matched b
Steps-Matched a b (Steps.stay st) m = m
Steps-Matched a b (Steps.next s ss) m = Steps-Matched _ b ss (Step-Matched s m)
