-- ===== src/Scheduler/Durations.antt =====
-- The inner loop of `addDurationWithinWorkingHours`, over the intervals of a day.
use six_1_core_api.Prelude.{ℕ, ◌+◌, ◌≤◌, ◌<◌, ◌≡◌, ◌⊎◌, refl, inl, inr, Bool, List, [], ◌∷◌, arith}
use six_1_core_api.Prelude.Tests.{ltb, ltb→lt, Bool-cases}
use six_1_core_api.Prelude.Lists.{All}
use six_1_core_api.Scheduler.{Interval}
use six_1_core_api.Scheduler.Planning.{Progress, finished, going, serve, serve_all}
use six_1_core_api.Scheduler.Allowed.{not_less}
use six_1_core_api.Scheduler.Working.{Apart, Worked-trans, Worked-none, Covered, Used, Served}
use six_1_core_api.Scheduler.Served.{used_from}

pub Progress-cases :
    (x : Progress) → ((b : ℕ) × (x ≡ finished b)) ⊎ ((p : ℕ) × (r : ℕ) × (x ≡ going p r))
Progress-cases (finished b) = inl (b, refl)
Progress-cases (going p r) = inr (p, r, refl)

module _ (w : ℕ → Bool) (e : ℕ) where
  serve-Served :
      (i : Interval) (is : List Interval) (p r : ℕ)
      → Covered w (i ∷ is) p e
      → Apart (i ∷ is)
      → p ≤ e
      → i.finish ≤ e
      → 0 < r
      → Served w e is p r (serve i p r)
  unfolding serve
  serve-Served i is p r c a l f m = elim (Bool-cases (ltb i.start p)) [
    | inl h ↦
        let b = ltb→lt i.start p h in
        rw h (
          used_from w e i is p p r
            (record {
              covered = c;
              apart = a.0;
              in_day = l;
              ends_in_day = f;
              from_pointer = omega arith;
              from_start = omega (arith, b);
              not_begun = λ t x y. absurd (omega (arith, x, y));
            })
            m)
    | inr h ↦
        let b = not_less i.start p h in
        rw h (
          used_from w e i is p i.start r
            (record {
              covered = c;
              apart = a.0;
              in_day = l;
              ends_in_day = f;
              from_pointer = b;
              from_start = omega arith;
              not_begun = λ t x y. y;
            })
            m)
  ]

  nothing-Used :
      (is : List Interval) (p r : ℕ) → Covered w is p e → p ≤ e → 0 < r → Used w e is p r p r
  nothing-Used is p r c l m = record {
    used = 0;
    is_worked = Worked-none w p p (omega arith) (λ t a b. absurd (omega (arith, a, b)));
    sum = omega arith;
    more = m;
    in_day = l;
    to_come = c;
  }

  -- What follows a part that has been used.
  Used-then :
      (is : List Interval) (p r p' r' : ℕ) (x : Progress)
      → Used w e is p r p' r'
      → Served w e [] p' r' x
      → Served w e [] p r x
  Used-then is p r p' r' (finished b) u s = record {
    is_worked = rw u.sum at (Worked-trans w p p' b u.used r' u.is_worked s.is_worked);
    last_works = λ l. s.last_works u.more;
  }
  Used-then is p r p' r' (going p'' r'') u s = record {
    used = u.used + s.used;
    is_worked = Worked-trans w p p' p'' u.used s.used u.is_worked s.is_worked;
    sum = omega (arith, u.sum, s.sum);
    more = s.more;
    in_day = s.in_day;
    to_come = s.to_come;
  }

  all-finished :
      (i : Interval) (is : List Interval) (p r b : ℕ)
      → serve i p r ≡ finished b
      → serve_all (i ∷ is) p r ≡ finished b
  unfolding serve_all
  all-finished i is p r b h = rw (h, serve_all) refl

  all-going :
      (i : Interval) (is : List Interval) (p r p' r' : ℕ)
      → serve i p r ≡ going p' r'
      → serve_all (i ∷ is) p r ≡ serve_all is p' r'
  unfolding serve_all
  all-going i is p r p' r' h = rw (h, serve_all) refl

  pub serve_all-Served :
      (is : List Interval) (p r : ℕ)
      → Covered w is p e
      → Apart is
      → All (λ (i : Interval). i.finish ≤ e) is
      → p ≤ e
      → 0 < r
      → Served w e [] p r (serve_all is p r)
  unfolding serve_all
  serve_all-Served [] p r c a f l m = nothing-Used [] p r c l m
  serve_all-Served (i ∷ is) p r c a f l m =
      let s = serve-Served i is p r c a l f.0 m in
      elim (Progress-cases (serve i p r)) [
        | inl (b, h) ↦ rw (all-finished i is p r b h) (rw h at s)
        | inr (p', r', h) ↦
            let u : Used w e is p r p' r' = rw h at s in
            rw (all-going i is p r p' r' h) (
              Used-then is p r p' r' (serve_all is p' r') u
                (serve_all-Served is p' r' u.to_come a.1 f.1 u.in_day u.more))
      ]
