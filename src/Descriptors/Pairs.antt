-- ===== src/Descriptors/Pairs.antt =====
-- What `map_each` gives, element by element.
use mathlib.Core.Path.{subst}
use six_1_core_api.Prelude.{◌≡◌, refl, sym, ap, Option, none, some, List, [], ◌∷◌, map}
use six_1_core_api.Prelude.Tests.{some_inj, some-none}
use six_1_core_api.Prelude.Lists.{All}
use six_1_core_api.Descriptors.Merging.{map_each}

module _ {A B : Type 0} where
  -- Each element gives the one that stands at its place.
  abbrev pub Pairs : (A → Option B) → List A → List B → Type 0
  Pairs f [] [] = Unit
  Pairs f [] (b ∷ bs) = ⊥
  Pairs f (a ∷ xs) [] = ⊥
  Pairs f (a ∷ xs) (b ∷ bs) = (f a ≡ some b) × Pairs f xs bs

  pub map_each-Pairs :
      (f : A → Option B) (xs : List A) (ys : List B) → map_each f xs ≡ some ys → Pairs f xs ys
  unfolding map_each
  map_each-Pairs f [] ys h = subst (Pairs f []) (some_inj h) tt
  map_each-Pairs f (x ∷ xs) ys h = go (f x) refl (map_each f xs) (map_each-Pairs f xs) h
    where
      go :
          (o : Option B)
          → f x ≡ o
          → (rest : Option (List B)) → ((bs : List B) → rest ≡ some bs → Pairs f xs bs)
          → elim o [ none ↦ none | some b ↦ elim rest [ none ↦ none | some bs ↦ some (b ∷ bs) ] ]
            ≡ some ys
          → Pairs f (x ∷ xs) ys
      go none e rest ih k = absurd (some-none (sym k))
      go (some b) e none ih k = absurd (some-none (sym k))
      go (some b) e (some bs) ih k = subst (Pairs f (x ∷ xs)) (some_inj k) (e, ih bs refl)

  pub Pairs-map :
      {C : Type 0} (f : A → Option B) (g : B → C) (h : A → C) (Q : A → Type 0) (xs : List A)
      (ys : List B)
      → ((x : A) (y : B) → Q x → f x ≡ some y → g y ≡ h x)
      → All Q xs
      → Pairs f xs ys
      → map g ys ≡ map h xs
  Pairs-map f g h Q [] [] k q p = refl
  Pairs-map f g h Q [] (y ∷ ys) k q p = absurd p
  Pairs-map f g h Q (x ∷ xs) [] k q p = absurd p
  Pairs-map f g h Q (x ∷ xs) (y ∷ ys) k (m, q) (e, p) =
      rw (k x y m e) (ap (λ cs. h x ∷ cs) (Pairs-map f g h Q xs ys k q p))

  pub Pairs-All :
      (f : A → Option B) (Q : A → Type 0) (P : B → Type 0) (xs : List A) (ys : List B)
      → ((x : A) (y : B) → Q x → f x ≡ some y → P y)
      → All Q xs
      → Pairs f xs ys
      → All P ys
  Pairs-All f Q P [] [] k q p = tt
  Pairs-All f Q P [] (y ∷ ys) k q p = absurd p
  Pairs-All f Q P (x ∷ xs) [] k q p = absurd p
  Pairs-All f Q P (x ∷ xs) (y ∷ ys) k (q, qs) (e, p) = (k x y q e, Pairs-All f Q P xs ys k qs p)
