-- ===== src/Scheduler/Pages.antt =====
-- The pages of a list of scheduled tasks: what is on them together.
use mathlib.Core.List.{Memᴰ}
use native.Mathlib.Nat.{le-div_iff_mul-le, zero-mul, suc-mul, suc-add}
use six_1_core_api.Prelude.{
  ℕ, zero, suc, ◌+◌, ◌-◌, ◌*◌, ◌/◌, ◌≤◌, ◌<◌, ◌≡◌, ◌≢◌, ◌⊎◌, refl, ap, ◌∙◌, inl, inr, String, Bool,
  true, some, List, [], ◌∷◌, arith,
}
use six_1_core_api.Prelude.Tests.{leb, Bool-cases, leb→le}
use six_1_core_api.Prelude.Lists.{All, length, filter, take, drop, Memᴰ→filter}
use six_1_core_api.Scheduler.{ScheduledTask}
use six_1_core_api.Scheduler.Listing.{
  Filters, Order, Query, order_of, direction_or, Sorting, at_most_ten, with_page, build_find_query,
  matching, found_items, found_total, Listed, Pagination, unless_empty,
  build_runtime_v2_list_pagination, find_all,
}

module _ {ℓ} {A : Type ℓ} where
  take_or_drop : (n : ℕ) {x : A} (xs : List A) → Memᴰ x xs → Memᴰ x (take n xs) ⊎ Memᴰ x (drop n xs)
  take_or_drop zero xs m = inr m
  take_or_drop (suc n) [] m = elim m [ ]
  take_or_drop (suc n) (y ∷ xs) (Memᴰ.head e) = inl (Memᴰ.head e)
  take_or_drop (suc n) (y ∷ xs) (Memᴰ.tail m) = elim (take_or_drop n xs m) [
    | inl k ↦ inl (Memᴰ.tail k)
    | inr k ↦ inr k
  ]

  length-drop : (n : ℕ) (xs : List A) → length (drop n xs) ≡ length xs - n
  length-drop zero xs = omega arith
  length-drop (suc n) [] = omega arith
  length-drop (suc n) (x ∷ xs) = omega (arith, length-drop n xs)

  drop-nil : (n : ℕ) → drop {A = A} n [] ≡ []
  drop-nil zero = refl
  drop-nil (suc n) = refl

  drop-drop : (m n : ℕ) (xs : List A) → drop n (drop m xs) ≡ drop (m + n) xs
  drop-drop zero n xs = ap (λ k. drop k xs) (omega arith)
  drop-drop (suc m) n [] = rw suc-add (drop-nil n)
  drop-drop (suc m) n (x ∷ xs) = rw suc-add (drop-drop m n xs)

  length-take : (n : ℕ) (xs : List A) → length (take n xs) ≤ n
  length-take zero xs = omega arith
  length-take (suc n) [] = omega arith
  length-take (suc n) (x ∷ xs) = omega (arith, length-take n xs)

  Memᴰ-length : {x : A} (xs : List A) → Memᴰ x xs → 0 < length xs
  Memᴰ-length [] m = elim m [ ]
  Memᴰ-length (y ∷ xs) m = omega arith

  -- Each element is on a page of l elements, which begins before the end.
  on_a_page :
      (fuel l : ℕ) {x : A} (xs : List A)
      → 0 < l
      → length xs ≤ fuel
      → Memᴰ x xs
      → (k : ℕ) × Memᴰ x (take l (drop (k * l) xs)) × (k * l < length xs)
  on_a_page zero l xs p h m = absurd (omega (arith, h, Memᴰ-length xs m))
  on_a_page (suc fuel) l xs p h m = elim (take_or_drop l xs m) [
    | inl k ↦ (0, rw zero-mul k, rw zero-mul (Memᴰ-length xs m))
    | inr k ↦
        let (j, i, b) =
          on_a_page fuel l (drop l xs) p (omega (arith, p, h, Memᴰ-length xs m, length-drop l xs))
            k in
        let here : suc j * l ≡ l + j * l = suc-mul j l ∙ omega arith in
        (
          suc j,
          rw here (rw (drop-drop l (j * l) xs) at i),
          omega (arith, here, b, length-drop l xs),
        )
  ]

-- The last page of a list that goes on past k pages comes after them.
pages_reach : (k l total : ℕ) → 0 < l → k * l < total → suc k ≤ (total + (l - 1)) / l
pages_reach k l total p h = (le-div_iff_mul-le p).1 (omega (arith, suc-mul k l, h, p))

-- No two rows have the same number, which is the key of their table.
abbrev pub Distinct : List ScheduledTask → Type 0
Distinct [] = Unit
Distinct (r ∷ rs) =
    All (λ (x : ScheduledTask). x.scheduled_task_id ≢ r.scheduled_task_id) rs × Distinct rs

filter-All :
    (P : ScheduledTask → Type 0) (p : ScheduledTask → Bool) (rs : List ScheduledTask)
    → All P rs
    → All P (filter p rs)
filter-All P p [] h = tt
filter-All P p (r ∷ rs) h = elim (Bool-cases (p r)) [
  | inl e ↦ rw e (h.0, filter-All P p rs h.1)
  | inr e ↦ rw e (filter-All P p rs h.1)
]

filter-Distinct :
    (p : ScheduledTask → Bool) (rs : List ScheduledTask) → Distinct rs → Distinct (filter p rs)
filter-Distinct p [] h = tt
filter-Distinct p (r ∷ rs) h = elim (Bool-cases (p r)) [
  | inl e ↦ rw e (filter-All _ p rs h.0, filter-Distinct p rs h.1)
  | inr e ↦ rw e (filter-Distinct p rs h.1)
]

abbrev pub by_id : String → Order
by_id d = record { column = "scheduledTaskId"; direction = d }

-- What a database promises of the order of the rows that it finds: they are those rows, and an
-- order by their key is the same for every query that asks for it.
pub record Sorts (sort : Sorting) : Type 0 where
  pub kept :
      (q : Query) {r : ScheduledTask} (rows : List ScheduledTask)
      → Memᴰ r rows
      → Memᴰ r (sort q rows)
  pub as_many : (q : Query) (rows : List ScheduledTask) → length (sort q rows) ≡ length rows
  pub same_order :
      (d : String) (q q' : Query) (rows : List ScheduledTask)
      → q.order ≡ some (by_id d)
      → q'.order ≡ some (by_id d)
      → Distinct rows
      → sort q rows ≡ sort q' rows

-- The filters that ask for a page of a limit.
abbrev pub page_of : ℕ → ℕ → Filters → Filters
page_of p l f = record f { page = some p; limit = some l }

-- The row is on a page of at most ten that the pagination counts.
pub record OnPage (sort : Sorting) (f : Filters) (l : ℕ) (rows : List ScheduledTask)
    (r : ScheduledTask) : Type 0 where
  pub page : ℕ
  pub listed : Listed
  pub is_listed : find_all sort (page_of page l f) rows ≡ some listed
  pub is_on_it : Memᴰ r listed.items
  pub is_page : listed.pagination.page ≡ page
  pub is_counted : page ≤ listed.pagination.total_pages
  pub at_most : length listed.items ≤ 10

at_most_ten-suc : (l : ℕ) → (t : ℕ) × (at_most_ten (suc l) ≡ suc t) × (suc t ≤ 10)
at_most_ten-suc l = elim (Bool-cases (leb (suc l) 10)) [
  | inl h ↦ (l, rw h refl, leb→le (suc l) 10 h)
  | inr h ↦ (9, rw h refl, omega arith)
]

-- A page that is reached is counted.
counted :
    (k l t total : ℕ)
    → at_most_ten (suc l) ≡ suc t
    → k * suc t < total
    → suc k
      ≤ (build_runtime_v2_list_pagination
          (some (suc k))
          (some (at_most_ten (suc l)))
          total
          10).total_pages
unfolding build_runtime_v2_list_pagination
counted k l t total e h = rw e (omega (arith, pages_reach k (suc t) total (omega arith) h))

unless_empty-some :
    (items : List ScheduledTask) (p : Pagination) {r : ScheduledTask}
    → Memᴰ r items
    → unless_empty items p ≡ some (record { items = items; pagination = p })
unless_empty-some [] p m = elim m [ ]
unless_empty-some (x ∷ items) p m = refl

module _ (sort : Sorting) (sorts : Sorts sort) (f : Filters) (rows : List ScheduledTask)
    (r : ScheduledTask) where
  matches : List ScheduledTask
  unfolding build_find_query
  matches = filter (matching (build_find_query f)) rows

  page_items :
      (k l t : ℕ)
      → f.sort_by ≡ some "scheduledTaskId"
      → Distinct rows
      → at_most_ten (suc l) ≡ suc t
      → found_items sort (build_find_query (page_of (suc k) (suc l) f)) rows
        ≡ take (suc t) (drop (k * suc t) (sort (build_find_query f) matches))
  unfolding build_find_query found_items matches
  page_items k l t by distinct e =
      let q = build_find_query (page_of (suc k) (suc l) f) in
      let q0 = build_find_query f in
      let ordered = ap (λ c. order_of c f.sort_order) by in
      let same : sort q matches ≡ sort q0 matches =
        sorts.same_order (direction_or f.sort_order) q q0 matches ordered ordered
          (filter-Distinct _ rows distinct) in
      let one_less : suc k - 1 ≡ k = omega arith in
      ap (λ n. take n (drop ((suc k - 1) * n) (sort q matches))) e
      ∙ (ap (λ n. take (suc t) (drop (n * suc t) (sort q matches))) one_less
          ∙ ap (λ xs. take (suc t) (drop (k * suc t) xs)) same)

  -- `findAll` with a limit, sorted by scheduledTaskId, loses no row by its pages: each active
  -- row of the tenant is on a page whose number the pagination counts among its total pages,
  -- and a page has ten items at most, whatever the limit is. The numbers of the rows differ,
  -- the database gives the rows that it finds and as many, and an order by that number is the
  -- same for every page.
  pub find_all-OnPage :
      (l : ℕ)
      → f.sort_by ≡ some "scheduledTaskId"
      → Distinct rows
      → Memᴰ r rows
      → matching (build_find_query f) r ≡ true
      → OnPage sort f (suc l) rows r
  unfolding build_find_query found_total build_runtime_v2_list_pagination find_all matches
  find_all-OnPage l by distinct m h =
      let q = build_find_query f in
      let (t, e, ten) = at_most_ten-suc l in
      let (k, i, b) =
        on_a_page (length (sort q matches)) (suc t) (sort q matches) (omega arith) (omega arith)
          (sorts.kept q matches (Memᴰ→filter (matching q) m h)) in
      let asked = page_of (suc k) (suc l) f in
      let items = found_items sort (build_find_query asked) rows in
      let same : items ≡ take (suc t) (drop (k * suc t) (sort q matches)) =
        page_items k l t by distinct e in
      let mem : Memᴰ r items = rw same i in
      record {
        page = suc k;
        listed = record {
          items = items;
          pagination =
              build_runtime_v2_list_pagination (with_page asked).page (with_page asked).limit
                (found_total (build_find_query asked) rows) 10;
        };
        is_listed = unless_empty-some items _ mem;
        is_on_it = mem;
        is_page = refl;
        is_counted = counted k l t _ e (rw (sorts.as_many q matches) at b);
        at_most =
            rw same (omega (arith, length-take (suc t) (drop (k * suc t) (sort q matches)), ten));
      }
