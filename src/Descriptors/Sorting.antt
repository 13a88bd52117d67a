-- ===== src/Descriptors/Sorting.antt =====
-- The order in which the fields that only an author has are appended
-- (`sortFieldViewsForAppend` of src/config_objects/core-field-descriptor/core-field-descriptor.merge.ts).
use mathlib.Core.List.Permᴰ
use mathlib.Core.List.{Permᴰ}
use six_1_core_api.Prelude.{
  String, ◌≡◌, ◌≢◌, ◌⊎◌, refl, sym, inl, inr, true, false, List, [], ◌∷◌, arith,
}
use six_1_core_api.Prelude.Tests.{str_eq, str_eq_iff, Bool-cases}
use six_1_core_api.Descriptors.{
  Texts, Comparison, before, same, after, FieldView, ℤ, pos, negsuc, leℤ,
}
use six_1_core_api.Descriptors.Merging.{
  or_empty, not_after, in_order, insert_view, sort_field_views_for_append,
}

-- `localeCompare` does not say of two texts that each comes after the other.
pub record Consistent (js : Texts) : Type 0 where
  pub opposite : (s t : String) → js.locale_compare s t ≡ after → js.locale_compare t s ≢ after

abbrev pub section_of : FieldView → String
section_of v = or_empty v.section_key

-- Of two fields of one section the first has the lesser order index, or the same; of two fields of
-- different sections the section of the first does not come after that of the second.
abbrev pub Precedes : Texts → FieldView → FieldView → Type 0
Precedes js a b =
    ((section_of a ≡ section_of b) × (leℤ a.order_index b.order_index ≡ true))
    ⊎ ((section_of a ≢ section_of b) × (js.locale_compare (section_of a) (section_of b) ≢ after))

-- Each field precedes the next one.
abbrev pub ChainFrom : Texts → FieldView → List FieldView → Type 0
ChainFrom js v [] = Unit
ChainFrom js v (w ∷ ws) = Precedes js v w × ChainFrom js w ws

abbrev pub Sorted : Texts → List FieldView → Type 0
Sorted js [] = Unit
Sorted js (v ∷ vs) = ChainFrom js v vs

leℤ_total : (a b : ℤ) → leℤ a b ≡ false → leℤ b a ≡ true
unfolding leℤ
leℤ_total (pos m) (pos n) h = ground arith
leℤ_total (pos m) (negsuc n) h = refl
leℤ_total (negsuc m) (pos n) h = cc
leℤ_total (negsuc m) (negsuc n) h = ground arith

not_after-ne : (c : Comparison) → not_after c ≡ true → c ≢ after
not_after-ne before h = λ e. cc
not_after-ne same h = λ e. cc
not_after-ne after h = cc

not_after-after : (c : Comparison) → not_after c ≡ false → c ≡ after
not_after-after before h = cc
not_after-after same h = cc
not_after-after after h = refl

differ : (s t : String) → str_eq s t ≡ false → s ≢ t
differ s t h e = let k = (str_eq_iff s t).1 e in cc

module _ (js : Texts) (consistent : Consistent js) where
  in_order-Precedes : (a b : FieldView) → in_order js a b ≡ true → Precedes js a b
  unfolding in_order
  in_order-Precedes a b h = elim (Bool-cases (str_eq (section_of a) (section_of b))) [
    | inl e ↦ inl ((str_eq_iff _ _).0 e, rw e at h)
    | inr e ↦ inr (differ _ _ e, not_after-ne _ (rw e at h))
  ]

  out_of_order-Precedes : (a b : FieldView) → in_order js a b ≡ false → Precedes js b a
  unfolding in_order
  out_of_order-Precedes a b h = elim (Bool-cases (str_eq (section_of a) (section_of b))) [
    | inl e ↦ inl (sym ((str_eq_iff _ _).0 e), leℤ_total _ _ (rw e at h))
    | inr e ↦
        inr ((λ q. differ _ _ e (sym q)), consistent.opposite _ _ (not_after-after _ (rw e at h)))
  ]

  insert_view-ChainFrom :
      (x v : FieldView) (ws : List FieldView)
      → Precedes js x v
      → ChainFrom js x ws
      → ChainFrom js x (insert_view js v ws)
  unfolding insert_view
  insert_view-ChainFrom x v [] p c = (p, tt)
  insert_view-ChainFrom x v (w ∷ ws) p c = elim (Bool-cases (in_order js v w)) [
    | inl h ↦ rw h (p, (in_order-Precedes v w h, c.1))
    | inr h ↦ rw h (c.0, insert_view-ChainFrom w v ws (out_of_order-Precedes v w h) c.1)
  ]

  insert_view-Sorted :
      (v : FieldView) (ws : List FieldView) → Sorted js ws → Sorted js (insert_view js v ws)
  unfolding insert_view
  insert_view-Sorted v [] c = tt
  insert_view-Sorted v (w ∷ ws) c = elim (Bool-cases (in_order js v w)) [
    | inl h ↦ rw h (in_order-Precedes v w h, c)
    | inr h ↦ rw h (insert_view-ChainFrom w v ws (out_of_order-Precedes v w h) c)
  ]

  pub sort_field_views-Sorted :
      (vs : List FieldView) → Sorted js (sort_field_views_for_append js vs)
  unfolding sort_field_views_for_append
  sort_field_views-Sorted [] = tt
  sort_field_views-Sorted (v ∷ vs) = insert_view-Sorted v _ (sort_field_views-Sorted vs)

insert_view-Perm :
    (js : Texts) (v : FieldView) (ws : List FieldView) → Permᴰ (insert_view js v ws) (v ∷ ws)
unfolding insert_view
insert_view-Perm js v [] = Permᴰ.refl (v ∷ [])
insert_view-Perm js v (w ∷ ws) = elim (Bool-cases (in_order js v w)) [
  | inl h ↦ rw h (Permᴰ.refl (v ∷ w ∷ ws))
  | inr h ↦ rw h (Permᴰ.trans (Permᴰ.cons refl (insert_view-Perm js v ws)) (Permᴰ.swap refl refl))
]

pub sort_field_views-Perm :
    (js : Texts) (vs : List FieldView) → Permᴰ (sort_field_views_for_append js vs) vs
unfolding sort_field_views_for_append
sort_field_views-Perm js [] = Permᴰ.nil
sort_field_views-Perm js (v ∷ vs) =
    Permᴰ.trans (insert_view-Perm js v (sort_field_views_for_append js vs))
      (Permᴰ.cons refl (sort_field_views-Perm js vs))
