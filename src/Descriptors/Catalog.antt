-- ===== src/Descriptors/Catalog.antt =====
-- All the descriptors of a merge: which keys they have, and in which order.
use mathlib.Core.List.{Memᴰ, Permᴰ}
use mathlib.Core.List.Memᴰ.{append_left, append_right}
use mathlib.Core.Path.{subst}
use six_1_core_api.Prelude.{
  String, ◌≡◌, refl, sym, ap, ◌∙◌, inl, inr, true, false, not, Option, none, some, List, [], ◌∷◌,
  ◌++◌, map,
}
use six_1_core_api.Prelude.Tests.{str_eq, str_eq_iff, Bool-cases, some_inj, some-none}
use six_1_core_api.Prelude.Lists.{All, any→Memᴰ, Memᴰ→filter, Memᴰ→map, Memᴰ→All}
use six_1_core_api.Descriptors.{Texts, Descriptor, FieldType, FieldView}
use six_1_core_api.Descriptors.Merging.{
  descriptor_from_custom_field_view, insert_view, in_order, sort_field_views_for_append, map_each,
  merge_row, has_key, custom_only, merge_core_field_descriptors_with_field_views,
}
use six_1_core_api.Descriptors.Sorting.{
  Consistent, Sorted, sort_field_views-Sorted, sort_field_views-Perm,
}
use six_1_core_api.Descriptors.Pairs.{Pairs, map_each-Pairs, Pairs-map, Pairs-All}
use six_1_core_api.Descriptors.Merged.{ConfigsPass, merge_row-IsOf, custom-IsOf}

append-All :
    (P : Descriptor → Type 0) (xs ys : List Descriptor) → All P xs → All P ys → All P (xs ++ ys)
append-All P [] ys m n = n
append-All P (x ∷ xs) ys (p, m) n = (p, append-All P xs ys m n)

insert_view-Memᴰ :
    (js : Texts) {x : FieldView} (v : FieldView) (vs : List FieldView)
    → Memᴰ x (v ∷ vs)
    → Memᴰ x (insert_view js v vs)
unfolding insert_view
insert_view-Memᴰ js v [] m = m
insert_view-Memᴰ js {x} v (w ∷ ws) m = elim (Bool-cases (in_order js v w)) [
  | inl h ↦ rw h m
  | inr h ↦ rw h (later (insert_view-Memᴰ js v ws) m)
]
  where
    later :
        (Memᴰ x (v ∷ ws) → Memᴰ x (insert_view js v ws))
        → Memᴰ x (v ∷ w ∷ ws)
        → Memᴰ x (w ∷ insert_view js v ws)
    later ih (Memᴰ.head e) = Memᴰ.tail (ih (Memᴰ.head e))
    later ih (Memᴰ.tail (Memᴰ.head e)) = Memᴰ.head e
    later ih (Memᴰ.tail (Memᴰ.tail k)) = Memᴰ.tail (ih (Memᴰ.tail k))

sort-Memᴰ :
    (js : Texts) {x : FieldView} (vs : List FieldView)
    → Memᴰ x vs
    → Memᴰ x (sort_field_views_for_append js vs)
unfolding sort_field_views_for_append
sort-Memᴰ js [] m = elim m [ ]
sort-Memᴰ js (v ∷ vs) (Memᴰ.head e) = insert_view-Memᴰ js v _ (Memᴰ.head e)
sort-Memᴰ js (v ∷ vs) (Memᴰ.tail m) = insert_view-Memᴰ js v _ (Memᴰ.tail (sort-Memᴰ js vs m))

map-append : {A B : Type 0} (f : A → B) (xs ys : List A) → map f (xs ++ ys) ≡ map f xs ++ map f ys
map-append f [] ys = refl
map-append f (x ∷ xs) ys = ap (λ zs. f x ∷ zs) (map-append f xs ys)

abbrev pub keys_of : List Descriptor → List String
keys_of ds = map (λ (d : Descriptor). d.field_key) ds

abbrev pub types_of : List Descriptor → List FieldType
types_of ds = map (λ (d : Descriptor). d.field_type) ds

-- The rows of the base, with their keys and types, come first; then the fields that are custom
-- only, each before those that it precedes. Each field has a descriptor, and every configuration
-- passes its validation again.
pub record Catalog (js : Texts) (base : List Descriptor) (views : List FieldView)
    (out : List Descriptor) : Type 0 where
  pub rows : List Descriptor
  pub added : List Descriptor
  pub appended : List FieldView
  pub parts : out ≡ rows ++ added
  pub row_keys : keys_of rows ≡ keys_of base
  pub row_types : types_of rows ≡ types_of base
  pub all_custom : Permᴰ appended (custom_only base views)
  pub is_sorted : Sorted js appended
  pub added_keys : keys_of added ≡ map (λ (v : FieldView). v.field_key) appended
  pub all_fields : All (λ (v : FieldView). Memᴰ v.field_key (keys_of out)) views
  pub configs : All ConfigsPass out

module _ (js : Texts) (consistent : Consistent js) (base : List Descriptor)
    (views : List FieldView) where
  key_in_base : (v : FieldView) → has_key base v ≡ true → Memᴰ v.field_key (keys_of base)
  key_in_base v h =
      let (d, m, e) = any→Memᴰ (λ (d : Descriptor). str_eq d.field_key v.field_key) base h in
      subst (λ k. Memᴰ k (keys_of base)) ((str_eq_iff d.field_key v.field_key).0 e)
        (Memᴰ→map (λ (x : Descriptor). x.field_key) m)

  key_in_added :
      (v : FieldView)
      → Memᴰ v views
      → has_key base v ≡ false
      → Memᴰ v.field_key (
          map
            (λ (x : FieldView). x.field_key)
            (sort_field_views_for_append js (custom_only base views)))
  key_in_added v m h =
      Memᴰ→map (λ (x : FieldView). x.field_key)
        (sort-Memᴰ js _ (Memᴰ→filter (λ (x : FieldView). not (has_key base x)) m (rw h refl)))

  made :
      (rows added : List Descriptor)
      → All ConfigsPass base
      → Pairs (merge_row js views) base rows
      → Pairs
          (descriptor_from_custom_field_view js)
          (sort_field_views_for_append js (custom_only base views))
          added
      → Catalog js base views (rows ++ added)
  made rows added c p q =
      let sorted = sort_field_views_for_append js (custom_only base views) in
      let row_keys : keys_of rows ≡ keys_of base =
        Pairs-map _ _ _ ConfigsPass base rows
          (λ d d' k e. (merge_row-IsOf js views d d' k e).has_its_key) c p in
      let added_keys : keys_of added ≡ map (λ (v : FieldView). v.field_key) sorted =
        Pairs-map _ _ _ (λ v. Unit) sorted added (λ v d k e. (custom-IsOf js v d e).2.has_its_key)
          (Memᴰ→All _ sorted (λ v m. tt)) q in
      let both : keys_of (rows ++ added)
          ≡ keys_of base ++ map (λ (v : FieldView). v.field_key) sorted =
        map-append _ rows added ∙ rw (row_keys, added_keys) refl in
      record {
        rows = rows;
        added = added;
        appended = sorted;
        all_custom = sort_field_views-Perm js (custom_only base views);
        is_sorted = sort_field_views-Sorted js consistent (custom_only base views);
        parts = refl;
        row_keys = row_keys;
        row_types =
            Pairs-map _ _ _ ConfigsPass base rows
              (λ d d' k e. (merge_row-IsOf js views d d' k e).has_its_type) c p;
        added_keys = added_keys;
        all_fields = Memᴰ→All _ views (λ v m. elim (Bool-cases (has_key base v)) [
          | inl h ↦ rw both (append_left _ (key_in_base v h))
          | inr h ↦ rw both (append_right (keys_of base) (key_in_added v m h))
        ]);
        configs =
            append-All ConfigsPass rows added
              (Pairs-All _ ConfigsPass ConfigsPass base rows
                (λ d d' k e. (merge_row-IsOf js views d d' k e).configs) c p)
              (Pairs-All _ (λ v. Unit) ConfigsPass sorted added
                (λ v d k e. (custom-IsOf js v d e).2.configs) (Memᴰ→All _ sorted (λ v m. tt)) q);
      }

  -- A merge of the descriptors of the code with an author's fields, where it succeeds: the
  -- descriptors of the code come first, in their order, with their keys and types; then the
  -- fields that only the author has, all of them, in such an order that of two neighbours in
  -- one section the first has no greater order index, and the section of a field does not come
  -- after that of the next one; each field has a descriptor; and every lookup and derived
  -- configuration passes its validation again as it is, where those of the code do.
  -- `localeCompare` does not say of two texts that each comes after the other.
  pub merge_core_field_descriptors_with_field_views-Catalog :
      (out : List Descriptor)
      → All ConfigsPass base
      → merge_core_field_descriptors_with_field_views js base views ≡ some out
      → Catalog js base views out
  unfolding merge_core_field_descriptors_with_field_views
  merge_core_field_descriptors_with_field_views-Catalog out c h =
      let sorted = sort_field_views_for_append js (custom_only base views) in
      go (map_each (merge_row js views) base) refl
        (map_each (descriptor_from_custom_field_view js) sorted) refl h
    where
      go :
          (o : Option (List Descriptor))
          → map_each (merge_row js views) base ≡ o
          → (p : Option (List Descriptor))
          → map_each
              (descriptor_from_custom_field_view js)
              (sort_field_views_for_append js (custom_only base views))
            ≡ p
          → elim o [
            | none ↦ none
            | some rows ↦ elim p [ none ↦ none | some added ↦ some (rows ++ added) ]
          ]
            ≡ some out
          → Catalog js base views out
      go none e p f k = absurd (some-none (sym k))
      go (some rows) e none f k = absurd (some-none (sym k))
      go (some rows) e (some added) f k =
          subst (Catalog js base views) (some_inj k)
            (made rows added c (map_each-Pairs _ base rows e) (map_each-Pairs _ _ added f))
