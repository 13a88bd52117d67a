-- ===== src/Scheduler/Matched.antt =====
-- The planner, the commands and the worker in any order: what the jobs of the queue refer to.
use mathlib.Core.List.{Memᴰ}
use mathlib.Core.List.Memᴰ.{append_cases}
use six_1_core_api.Prelude.{
  ℕ, suc, String, ◌<◌, ◌≡◌, refl, ap, ◌∙◌, inl, inr, Bool, Option, none, some, List, [], ◌∷◌, ◌++◌,
  map, arith,
}
use six_1_core_api.Prelude.Tests.{◌==◌, Bool-cases, if◌then◌else◌, ==_iff, if_same}
use six_1_core_api.Prelude.Lists.{find, find-added, find-before, find-map, All}
use six_1_core_api.Scheduler.{ScheduledTask, Store, Job, JobKind, task_start, task_end}
use six_1_core_api.Scheduler.Active.{has_job, queue_add}

abbrev pub token_of : JobKind → ScheduledTask → Option String
token_of task_start r = r.start_job_token
token_of task_end r = r.end_job_token

abbrev numbered_as : ℕ → ScheduledTask → Bool
numbered_as id r = r.scheduled_task_id == id

-- The job names a row, which carries its token.
abbrev pub Carried : List ScheduledTask → Job → Type 0
Carried rows j =
    (r : ScheduledTask) × (find (λ (x : ScheduledTask). x.scheduled_task_id == j.scheduled_task_id)
        rows
      ≡ some r)
    × (token_of j.kind r ≡ some j.token)

-- Each job names a row that carries its token, and the numbers drawn for rows are new.
pub record Matches (rows : List ScheduledTask) (queue : List Job) (next : ℕ) : Type 0 where
  pub numbered : All (λ (r : ScheduledTask). r.scheduled_task_id < next) rows
  pub carried : (j : Job) → Memᴰ j queue → Carried rows j

abbrev pub Matched : Store → Type 0
Matched st = Matches st.rows st.queue st.next_id

-- An update that keeps the number and the tokens of a row.
pub record Keeps (f : ScheduledTask → ScheduledTask) : Type 0 where
  pub number : (r : ScheduledTask) → (f r).scheduled_task_id ≡ r.scheduled_task_id
  pub tokens : (k : JobKind) (r : ScheduledTask) → token_of k (f r) ≡ token_of k r

pub find-new :
    (rows : List ScheduledTask) (next : ℕ)
    → All (λ (r : ScheduledTask). r.scheduled_task_id < next) rows
    → find (numbered_as next) rows ≡ none
find-new [] next h = refl
find-new (x ∷ rows) next h = elim (Bool-cases (x.scheduled_task_id == next)) [
  | inl e ↦ absurd (omega (arith, h.0, (==_iff _ _).0 e))
  | inr e ↦ rw e (find-new rows next h.1)
]

All-map :
    (f : ScheduledTask → ScheduledTask) (next : ℕ) (rows : List ScheduledTask)
    → ((x : ScheduledTask) → (f x).scheduled_task_id ≡ x.scheduled_task_id)
    → All (λ (r : ScheduledTask). r.scheduled_task_id < next) rows
    → All (λ (r : ScheduledTask). r.scheduled_task_id < next) (map f rows)
All-map f next [] k h = tt
All-map f next (x ∷ rows) k h = (omega (arith, k x, h.0), All-map f next rows k h.1)

All-new :
    (next : ℕ) (rows : List ScheduledTask) (new : ScheduledTask)
    → new.scheduled_task_id ≡ next
    → All (λ (r : ScheduledTask). r.scheduled_task_id < next) rows
    → All (λ (r : ScheduledTask). r.scheduled_task_id < suc next) (rows ++ new ∷ [])
All-new next [] new e h = (omega (arith, e), tt)
All-new next (x ∷ rows) new e h = (omega (arith, h.0), All-new next rows new e h.1)

module _ (rows : List ScheduledTask) (queue : List Job) (next : ℕ)
    (m : Matches rows queue next) where
  pub Matches-map : (f : ScheduledTask → ScheduledTask) → Keeps f → Matches (map f rows) queue next
  Matches-map f k = record {
    numbered = All-map f next rows k.number m.numbered;
    carried = λ j i.
        let (r, e, t) = m.carried j i in
        (
          f r,
          find-map (numbered_as j.scheduled_task_id) f rows r
              (λ x. ap (λ n. n == j.scheduled_task_id) (k.number x)) e,
          k.tokens j.kind r ∙ t,
        );
  }

  pub Matches-new :
      (new : ScheduledTask)
      → new.scheduled_task_id ≡ next
      → Matches (rows ++ new ∷ []) queue (suc next)
  Matches-new new e = record {
    numbered = All-new next rows new e m.numbered;
    carried = λ j i.
        let (r, f, t) = m.carried j i in
        (r, find-before (numbered_as j.scheduled_task_id) rows new r f, t);
  }

  pub find-latest :
      (new : ScheduledTask)
      → new.scheduled_task_id ≡ next
      → find (numbered_as next) (rows ++ new ∷ []) ≡ some new
  find-latest new e =
      find-added (numbered_as next) rows new (find-new rows next m.numbered) ((==_iff _ _).1 e)

  Matches-job : (j : Job) → Carried rows j → Matches rows (queue ++ j ∷ []) next
  Matches-job j c = record {
    numbered = m.numbered;
    carried = λ k i. elim (append_cases queue i) [ inl i' ↦ m.carried k i' | inr i' ↦ last k i' ];
  }
    where
      last : (k : Job) → Memᴰ k (j ∷ []) → Carried rows k
      last k (Memᴰ.head e) = rw e c
      last k (Memᴰ.tail e) = elim e [ ]

  pub Matches-queue_add : (j : Job) → Carried rows j → Matches rows (queue_add j queue) next
  Matches-queue_add j c = elim (Bool-cases (has_job j.token queue)) [
    | inl h ↦ rw h m
    | inr h ↦ rw h (Matches-job j c)
  ]

-- An update of the row of a number.
pub update-Keeps :
    (f : ScheduledTask → ScheduledTask) (id : ℕ)
    → Keeps f
    → Keeps (λ (r : ScheduledTask). if r.scheduled_task_id == id then f r else r)
update-Keeps f id k = record {
  number = λ r.
      if_same (λ (x : ScheduledTask). x.scheduled_task_id) (r.scheduled_task_id == id) (f r) r
        (k.number r);
  tokens = λ j r. if_same (token_of j) (r.scheduled_task_id == id) (f r) r (k.tokens j r);
}
