-- ===== src/Scheduler/Added.antt =====
-- `addDurationWithinWorkingHours`, over the days.
use six_1_core_api.Prelude.{ℕ, zero, suc, ◌+◌, ◌≤◌, ◌<◌, ◌≡◌, ◌⊎◌, refl, inl, inr, false, [], arith}
use six_1_core_api.Prelude.Tests.{leb, leb→le, Bool-cases}
use six_1_core_api.Prelude.Lists.{Memᴰ→All}
use six_1_core_api.Scheduler.Planning.{
  Days, intervals_on, Progress, finished, going, serve_all, add_from,
  add_duration_within_working_hours,
}
use six_1_core_api.Scheduler.Allowed.{works, Sound, works_on, days_after}
use six_1_core_api.Scheduler.Working.{Apart, Worked, Worked-trans, Worked-none, Ended, Used, Served}
use six_1_core_api.Scheduler.Durations.{Progress-cases, serve_all-Served}

-- The n days from p on do not have the duration.
pub record Short (d : Days) (n p duration rest : ℕ) : Type 0 where
  pub used : ℕ
  pub is_worked : Worked (works d) p (days_after n d p) used
  pub sum : used + rest ≡ duration
  pub more : 0 < rest

abbrev Added : Days → ℕ → ℕ → ℕ → Progress → Type 0
Added d n p r (finished b) = Ended (works d) p r b
Added d n p r (going p' r') = Short d n p r r'

module _ (d : Days) (sound : Sound d) (apart : (t : ℕ) → Apart (intervals_on d t)) where
  day-Served :
      (p r : ℕ) → 0 < r → Served (works d) (d.next_day p) [] p r (serve_all (intervals_on d p) p r)
  day-Served p r m =
      serve_all-Served (works d) (d.next_day p) (intervals_on d p) p r (works_on d sound p)
        (apart p) (Memᴰ→All (λ i. i.finish ≤ d.next_day p) (intervals_on d p) (sound.inside p))
        (omega (arith, sound.rises p)) m

  -- A part has been used in the day, and the rest of the day is idle.
  day-then :
      (n p r p' r' : ℕ) (x : Progress)
      → Used (works d) (d.next_day p) [] p r p' r'
      → Added d n (d.next_day p) r' x
      → Added d (suc n) p r x
  day-then n p r p' r' x u a = go x a (
      Worked-trans (works d) p p' (d.next_day p) u.used 0 u.is_worked
        (Worked-none (works d) p' (d.next_day p) u.in_day u.to_come))
    where
      go :
          (x : Progress)
          → Added d n (d.next_day p) r' x
          → Worked (works d) p (d.next_day p) (u.used + 0)
          → Added d (suc n) p r x
      go (finished b) a k = record {
        is_worked =
            let all : u.used + 0 + r' ≡ r = omega (arith, u.sum) in
            rw all at (Worked-trans (works d) p (d.next_day p) b (u.used + 0) r' k a.is_worked);
        last_works = λ l. a.last_works u.more;
      }
      go (going q s) a k = record {
        used = u.used + 0 + a.used;
        is_worked =
            Worked-trans (works d) p (d.next_day p) (days_after n d (d.next_day p)) (u.used + 0)
              a.used k a.is_worked;
        sum = omega (arith, u.sum, a.sum);
        more = a.more;
      }

  from-finished :
      (n p r b : ℕ)
      → serve_all (intervals_on d p) p (suc r) ≡ finished b
      → add_from (suc n) d p (suc r) ≡ finished b
  unfolding add_from
  from-finished n p r b h = rw (h, add_from) refl

  from-going :
      (n p r p' r' : ℕ)
      → serve_all (intervals_on d p) p (suc r) ≡ going p' r'
      → add_from (suc n) d p (suc r) ≡ add_from n d (d.next_day p) r'
  unfolding add_from
  from-going n p r p' r' h = rw (h, add_from) refl

  add_from-Added : (n p r : ℕ) → 0 < r → Added d n p r (add_from n d p r)
  unfolding add_from
  add_from-Added zero p r m = record {
    used = 0;
    is_worked = Worked-none (works d) p p (omega arith) (λ t a b. absurd (omega (arith, a, b)));
    sum = omega arith;
    more = m;
  }
  add_from-Added (suc n) p zero m = absurd (omega (arith, m))
  add_from-Added (suc n) p (suc r) m =
      let s = day-Served p (suc r) m in
      elim (Progress-cases (serve_all (intervals_on d p) p (suc r))) [
        | inl (b, h) ↦ rw (from-finished n p r b h) (rw h at s)
        | inr (p', r', h) ↦
            let u : Used (works d) (d.next_day p) [] p (suc r) p' r' = rw h at s in
            rw (from-going n p r p' r' h) (
              day-then n p (suc r) p' r' (add_from n d (d.next_day p) r') u
                (add_from-Added n (d.next_day p) r' u.more))
      ]

  -- From the start to the time that `addDurationWithinWorkingHours` gives, the calendar works
  -- for exactly as many milliseconds as the duration has, and it works in the last one; or the
  -- 366 days from the start on work for less than the duration, and the time is the start plus
  -- the duration. It is so where the days follow each other, the times of a day have the same
  -- working intervals, and these are not empty, end by the end of the day, stand in order and
  -- do not overlap.
  pub add_duration_within_working_hours-Counts :
      (start duration : ℕ)
      → Ended (works d) start duration (add_duration_within_working_hours d start duration)
        ⊎ ((add_duration_within_working_hours d start duration ≡ start + duration)
            × ((rest : ℕ) × Short d 366 start duration rest))
  unfolding add_duration_within_working_hours
  add_duration_within_working_hours-Counts a n = elim (Bool-cases (leb n 0)) [
    | inl h ↦
        let none_left : n ≡ 0 = omega (arith, leb→le n 0 h) in
        rw (h, none_left)
          (inl (record {
            is_worked =
                Worked-none (works d) a a (omega arith) (λ t x y. absurd (omega (arith, x, y)));
            last_works = λ l. absurd (omega (arith, l));
          }))
    | inr h ↦
        let s = add_from-Added 366 a n (positive n h) in
        elim (Progress-cases (add_from 366 d a n)) [
          | inl (b, k) ↦ rw (h, k) (inl (rw k at s))
          | inr (p, r, k) ↦ rw (h, k) (inr (refl, (r, rw k at s)))
        ]
  ]
    where
      positive : (n : ℕ) → leb n 0 ≡ false → 0 < n
      positive n h = ground arith
