-- ===== src/Prelude/Lists.antt =====
-- Lists by Boolean tests: `some`, `every`, `filter`, `find` of JavaScript's arrays, and the
-- predicates that state their results.
use Prim.Native.Nat.{ℕ, zero, suc}
use mathlib.Core.Path.{◌≡◌, refl, sym, ap, subst}
use mathlib.Core.Logic.{◌⊎◌, inl, inr}
use mathlib.Core.Bool.{Bool, true, false, ◌&&◌, ◌||◌}
use mathlib.Core.Option.{Option, none, some}
use mathlib.Core.List.{List, [], ◌∷◌, ◌++◌, map, flat_map, Memᴰ}
use mathlib.Core.List.Memᴰ.{append_cases, append_left, append_right}
use native.Mathlib.Omega.{arith}
use six_1_core_api.Prelude.Tests.{if◌then◌else◌, Bool-cases, some_inj, some-none}

module _ {ℓ} {A : Type ℓ} where
  abbrev pub length : List A → ℕ
  length [] = 0
  length (x ∷ xs) = suc (length xs)

  abbrev pub any : (A → Bool) → List A → Bool
  any p [] = false
  any p (x ∷ xs) = p x || any p xs

  abbrev pub all : (A → Bool) → List A → Bool
  all p [] = true
  all p (x ∷ xs) = p x && all p xs

  abbrev pub filter : (A → Bool) → List A → List A
  filter p [] = []
  filter p (x ∷ xs) = let rest = filter p xs in if p x then x ∷ rest else rest

  -- The first element that passes: `LIMIT 1`, or `Array.find`.
  abbrev pub find : (A → Bool) → List A → Option A
  find p [] = none
  find p (x ∷ xs) = if p x then some x else find p xs

  abbrev pub take : ℕ → List A → List A
  take zero xs = []
  take (suc n) [] = []
  take (suc n) (x ∷ xs) = x ∷ take n xs

  abbrev pub drop : ℕ → List A → List A
  drop zero xs = xs
  drop (suc n) [] = []
  drop (suc n) (x ∷ xs) = drop n xs

  -- The first that passes is at the end where none did before.
  pub find-added :
      (p : A → Bool) (xs : List A) (x : A)
      → find p xs ≡ none
      → p x ≡ true
      → find p (xs ++ x ∷ []) ≡ some x
  find-added p [] x e h = rw h
  find-added p (y ∷ xs) x e h = elim (Bool-cases (p y)) [
    | inl k ↦ absurd (some-none (rw k at e))
    | inr k ↦ rw k (find-added p xs x (rw k at e) h)
  ]

  -- Adding to the end, or an update that the test does not see, keeps the first that passes.
  pub find-before :
      (p : A → Bool) (xs : List A) (y x : A) → find p xs ≡ some x → find p (xs ++ y ∷ []) ≡ some x
  find-before p [] y x e = absurd (some-none (sym e))
  find-before p (z ∷ xs) y x e = elim (Bool-cases (p z)) [
    | inl h ↦ rw h (rw h at e)
    | inr h ↦ rw h (find-before p xs y x (rw h at e))
  ]

  pub find-map :
      (p : A → Bool) (f : A → A) (xs : List A) (x : A)
      → ((y : A) → p (f y) ≡ p y)
      → find p xs ≡ some x
      → find p (map f xs) ≡ some (f x)
  find-map p f [] x k e = absurd (some-none (sym e))
  find-map p f (y ∷ xs) x k e = elim (Bool-cases (p y)) [
    | inl h ↦ rw (k y, h) (ap (λ (z : A). some (f z)) (some_inj (rw h at e)))
    | inr h ↦ rw (k y, h) (find-map p f xs x k (rw h at e))
  ]

  pub find-passes : (p : A → Bool) (xs : List A) (x : A) → find p xs ≡ some x → p x ≡ true
  find-passes p [] x e = absurd (some-none (sym e))
  find-passes p (y ∷ xs) x e = elim (Bool-cases (p y)) [
    | inl k ↦ subst (λ z. p z ≡ true) (some_inj (rw k at e)) k
    | inr k ↦ find-passes p xs x (rw k at e)
  ]

  pub find-Memᴰ : (p : A → Bool) (xs : List A) (x : A) → find p xs ≡ some x → Memᴰ x xs
  find-Memᴰ p [] x e = absurd (some-none (sym e))
  find-Memᴰ p (y ∷ xs) x e = elim (Bool-cases (p y)) [
    | inl k ↦ Memᴰ.head (sym (some_inj (rw k at e)))
    | inr k ↦ Memᴰ.tail (find-Memᴰ p xs x (rw k at e))
  ]

  -- Every element satisfies the predicate.
  abbrev pub All {κ} : (A → Type κ) → List A → Type κ
  All P [] = Unit
  All P (x ∷ xs) = P x × All P xs

  -- `any` finds exactly the elements that pass.
  pub any→Memᴰ : (p : A → Bool) (xs : List A) → any p xs ≡ true → (x : A) × Memᴰ x xs × (p x ≡ true)
  any→Memᴰ p [] h = cc
  any→Memᴰ p (x ∷ xs) h = elim (Bool-cases (p x)) [
    | inl e ↦ (x, Memᴰ.head refl, e)
    | inr e ↦ let (y, m, q) = any→Memᴰ p xs (ground arith) in (y, Memᴰ.tail m, q)
  ]

  pub Memᴰ→any : (p : A → Bool) {x : A} {xs : List A} → Memᴰ x xs → p x ≡ true → any p xs ≡ true
  Memᴰ→any p {xs = []} m h = elim m [ ]
  Memᴰ→any p {xs = y ∷ xs} (Memᴰ.head e) h = rw (← e, h)
  Memᴰ→any p {xs = y ∷ xs} (Memᴰ.tail m) h = let ih = Memᴰ→any p m h in ground arith

  pub all→Memᴰ : (p : A → Bool) (xs : List A) → all p xs ≡ true → {x : A} → Memᴰ x xs → p x ≡ true
  all→Memᴰ p [] h m = elim m [ ]
  all→Memᴰ p (y ∷ xs) h (Memᴰ.head e) = rw e (ground arith)
  all→Memᴰ p (y ∷ xs) h (Memᴰ.tail m) = all→Memᴰ p xs (ground arith) m

  pub Memᴰ→all : (p : A → Bool) (xs : List A) → ((x : A) → Memᴰ x xs → p x ≡ true) → all p xs ≡ true
  Memᴰ→all p [] h = refl
  Memᴰ→all p (x ∷ xs) h =
      let hd = h x (Memᴰ.head refl) in
      let tl = Memᴰ→all p xs (λ y m. h y (Memᴰ.tail m)) in ground arith

  pub Memᴰ→All {κ} : (P : A → Type κ) (xs : List A) → ((x : A) → Memᴰ x xs → P x) → All P xs
  Memᴰ→All P [] h = tt
  Memᴰ→All P (x ∷ xs) h = (h x (Memᴰ.head refl), Memᴰ→All P xs (λ y m. h y (Memᴰ.tail m)))

  pub All→Memᴰ {κ} : (P : A → Type κ) {x : A} (xs : List A) → All P xs → Memᴰ x xs → P x
  All→Memᴰ P [] h m = elim m [ ]
  All→Memᴰ P (y ∷ xs) h (Memᴰ.head e) = subst P (sym e) h.0
  All→Memᴰ P (y ∷ xs) h (Memᴰ.tail m) = All→Memᴰ P xs h.1 m

  -- What `filter` keeps.
  pub filter→Memᴰ :
      (p : A → Bool) {x : A} (xs : List A) → Memᴰ x (filter p xs) → Memᴰ x xs × (p x ≡ true)
  filter→Memᴰ p [] m = elim m [ ]
  filter→Memᴰ p {x} (y ∷ xs) m = elim (Bool-cases (p y)) [
    | inl e ↦ kept e (filter→Memᴰ p xs) (rw e at m)
    | inr e ↦ let (m', h) = filter→Memᴰ p xs (rw e at m) in (Memᴰ.tail m', h)
  ]
    where
      kept :
          p y ≡ true
          → (Memᴰ x (filter p xs) → Memᴰ x xs × (p x ≡ true))
          → Memᴰ x (y ∷ filter p xs)
          → Memᴰ x (y ∷ xs) × (p x ≡ true)
      kept e ih (Memᴰ.head q) = (Memᴰ.head q, rw q e)
      kept e ih (Memᴰ.tail m') = let (m'', h) = ih m' in (Memᴰ.tail m'', h)

  pub Memᴰ→filter :
      (p : A → Bool) {x : A} {xs : List A} → Memᴰ x xs → p x ≡ true → Memᴰ x (filter p xs)
  Memᴰ→filter p {xs = []} m h = elim m [ ]
  Memᴰ→filter p {xs = y ∷ xs} (Memᴰ.head e) h = rw (← e, h) (Memᴰ.head refl)
  Memᴰ→filter p {x} {xs = y ∷ xs} (Memᴰ.tail m) h = elim (Bool-cases (p y)) [
    | inl e ↦ rw e (Memᴰ.tail (Memᴰ→filter p m h))
    | inr e ↦ rw e (Memᴰ→filter p m h)
  ]

module _ {ℓ κ} {A : Type ℓ} {B : Type κ} (f : A → B) where
  pub map→Memᴰ : {y : B} (xs : List A) → Memᴰ y (map f xs) → (x : A) × Memᴰ x xs × (y ≡ f x)
  map→Memᴰ [] m = elim m [ ]
  map→Memᴰ (x ∷ xs) (Memᴰ.head e) = (x, Memᴰ.head refl, e)
  map→Memᴰ (x ∷ xs) (Memᴰ.tail m) = let (z, m', e) = map→Memᴰ xs m in (z, Memᴰ.tail m', e)

  pub Memᴰ→map : {x : A} {xs : List A} → Memᴰ x xs → Memᴰ (f x) (map f xs)
  Memᴰ→map {xs = []} m = elim m [ ]
  Memᴰ→map {xs = y ∷ xs} (Memᴰ.head e) = Memᴰ.head (ap f e)
  Memᴰ→map {xs = y ∷ xs} (Memᴰ.tail m) = Memᴰ.tail (Memᴰ→map m)

module _ {ℓ κ} {A : Type ℓ} {B : Type κ} (f : A → List B) where
  pub flat_map→Memᴰ :
      {y : B} (xs : List A) → Memᴰ y (flat_map f xs) → (x : A) × Memᴰ x xs × Memᴰ y (f x)
  unfolding flat_map
  flat_map→Memᴰ [] m = elim m [ ]
  flat_map→Memᴰ {y} (x ∷ xs) m = pick (flat_map→Memᴰ xs) (append_cases (f x) m)
    where
      pick :
          (Memᴰ y (flat_map f xs) → (z : A) × Memᴰ z xs × Memᴰ y (f z))
          → Memᴰ y (f x) ⊎ Memᴰ y (flat_map f xs)
          → (z : A) × Memᴰ z (x ∷ xs) × Memᴰ y (f z)
      pick ih (inl m') = (x, Memᴰ.head refl, m')
      pick ih (inr m') = let (z, k, l) = ih m' in (z, Memᴰ.tail k, l)

  pub Memᴰ→flat_map :
      {y : B} {x : A} {xs : List A} → Memᴰ x xs → Memᴰ y (f x) → Memᴰ y (flat_map f xs)
  unfolding flat_map
  Memᴰ→flat_map {xs = []} m k = elim m [ ]
  Memᴰ→flat_map {y} {xs = z ∷ xs} (Memᴰ.head e) k =
      append_left (flat_map f xs) (subst (λ w. Memᴰ y (f w)) e k)
  Memᴰ→flat_map {xs = z ∷ xs} (Memᴰ.tail m) k = append_right (f z) (Memᴰ→flat_map m k)
