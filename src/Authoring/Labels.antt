-- ===== src/Authoring/Labels.antt =====
-- The labels of fields, trimmed, are accepted again.
use mathlib.Core.List.{append_assoc, append-nil}
use mathlib.Core.Path.{subst}
use six_1_core_api.Prelude.{
  String, ◌≡◌, refl, sym, ap, ◌∙◌, inl, inr, Bool, false, some, [], ◌∷◌, ◌++◌,
}
use six_1_core_api.Prelude.Tests.{str_eq, str_eq_iff, Bool-cases, some_inj, if◌then◌else◌}
use six_1_core_api.Prelude.Lists.{any, All}
use six_1_core_api.Prelude.Texts.{has_text, has_text-trim, trim_idem}
use six_1_core_api.Json.{Json, str, obj, Object, put, fields}
use six_1_core_api.Authoring.{ok, failed, present, as_object, normal, unless_empty, not_text}
use six_1_core_api.Authoring.Rules.{ok_inj, >>=-passed, or_false, str_eq_sym}
use six_1_core_api.Authoring.Stable.{StableOn}
use six_1_core_api.Authoring.Objects.{entries-fields}
use six_1_core_api.Authoring.Panel.{label_of, normalize_labels, labels}

-- An entry that is trimmed to itself.
record Neat (e : String × Json) : Type 0 where
  pub label : String
  pub is_text : e.1 ≡ str label
  pub same : label_of e ≡ ok (e.0, label)

label_of-str :
    (k s : String) (l : String × String)
    → label_of (k, str s) ≡ ok l
    → label_of (l.0, str l.1) ≡ ok l
unfolding label_of
label_of-str k s l h = elim (Bool-cases (has_text k)) [
  | inr e ↦ let q : failed (not_text "layout.fieldLabelByKey keys") ≡ ok l = rw e at h in cc
  | inl e ↦ elim (Bool-cases (has_text s)) [
    | inr e' ↦ let q : failed (not_text "layout.fieldLabelByKey") ≡ ok l = rw (e, e') at h in cc
    | inl e' ↦
        subst (λ (z : String × String). label_of (z.0, str z.1) ≡ ok z) (ok_inj (rw (e, e') at h))
          (rw (has_text-trim k, e, has_text-trim s, e', trim_idem k, trim_idem s) refl)
  ]
]

label_of-other :
    (k : String) (l : String × String)
    → (if has_text k
        then failed (not_text "layout.fieldLabelByKey")
        else failed (not_text "layout.fieldLabelByKey keys"))
      ≡ ok l
    → ⊥
label_of-other k l h = elim (Bool-cases (has_text k)) [
  | inr e ↦ let q : failed (not_text "layout.fieldLabelByKey keys") ≡ ok l = rw e at h in cc
  | inl e ↦ let q : failed (not_text "layout.fieldLabelByKey") ≡ ok l = rw e at h in cc
]

label_of-again :
    (k : String) (j : Json) (l : String × String)
    → label_of (k, j) ≡ ok l
    → label_of (l.0, str l.1) ≡ ok l
unfolding label_of
label_of-again k (str s) l h = label_of-str k s l h
label_of-again k _ l h = absurd (label_of-other k l h)

abbrev has_key : String → Object → Bool
has_key k = any (λ (e : String × Json). str_eq e.0 k)

abbrev Distinct : Object → Type 0
Distinct [] = Unit
Distinct (e ∷ o) = (has_key e.0 o ≡ false) × Distinct o

has_key-append_mid :
    (j k : String) (v : Json) (a b : Object)
    → has_key j (a ++ (k, v) ∷ b) ≡ false
    → str_eq k j ≡ false
has_key-append_mid j k v [] b h = (or_false (str_eq k j) (has_key j b) h).0
has_key-append_mid j k v (e ∷ a) b h =
    has_key-append_mid j k v a b (or_false (str_eq e.0 j) (has_key j (a ++ (k, v) ∷ b)) h).1

Distinct-append_mid :
    (k : String) (v : Json) (a b : Object) → Distinct (a ++ (k, v) ∷ b) → has_key k a ≡ false
Distinct-append_mid k v [] b d = refl
Distinct-append_mid k v (e ∷ a) b d =
    let q = str_eq_sym k e.0 (has_key-append_mid e.0 k v a b d.0) in
    rw (q, Distinct-append_mid k v a b d.1) refl

put-append :
    (k : String) (v : Json) (o : Object) → has_key k o ≡ false → put k v o ≡ o ++ (k, v) ∷ []
unfolding put
put-append k v [] h = refl
put-append k v ((j, w) ∷ o) h =
    let (here, later) = or_false (str_eq j k) (has_key k o) h in
    rw here (ap (λ z. (j, w) ∷ z) (put-append k v o later))

put-has_key :
    (j k : String) (v : Json) (o : Object)
    → has_key j o ≡ false
    → str_eq k j ≡ false
    → has_key j (put k v o) ≡ false
unfolding put
put-has_key j k v [] h n = rw n refl
put-has_key j k v ((i, w) ∷ o) h n =
    let (here, later) = or_false (str_eq i j) (has_key j o) h in
    elim (Bool-cases (str_eq i k)) [
      | inl e ↦ rw e h
      | inr e ↦ rw (e, here) (put-has_key j k v o later n)
    ]

put-Distinct : (k : String) (v : Json) (o : Object) → Distinct o → Distinct (put k v o)
unfolding put
put-Distinct k v [] d = (refl, tt)
put-Distinct k v ((j, w) ∷ o) d = elim (Bool-cases (str_eq j k)) [
  | inl e ↦ rw e d
  | inr e ↦ rw e (put-has_key j k v o d.0 (str_eq_sym j k e), put-Distinct k v o d.1)
]

put-Neat : (k : String) (v : Json) (o : Object) → All Neat o → Neat (k, v) → All Neat (put k v o)
unfolding put
put-Neat k v [] a n = (n, tt)
put-Neat k v ((j, w) ∷ o) a n = elim (Bool-cases (str_eq j k)) [
  | inl e ↦ rw e (subst (λ z. Neat (z, v)) (sym ((str_eq_iff j k).0 e)) n, a.1)
  | inr e ↦ rw e (a.0, put-Neat k v o a.1 n)
]

normalize_labels-Neat :
    (acc o out : Object)
    → normalize_labels acc o ≡ ok out
    → All Neat acc
    → Distinct acc
    → All Neat out × Distinct out
unfolding normalize_labels
normalize_labels-Neat acc [] out h a d = subst (λ z. All Neat z × Distinct z) (ok_inj h) (a, d)
normalize_labels-Neat acc ((k, j) ∷ o) out h a d =
    let (l, e, h') = >>=-passed (label_of (k, j)) _ h in
    normalize_labels-Neat (put l.0 (str l.1) acc) o out h'
      (put-Neat l.0 (str l.1) acc a
        (record { label = l.1; is_text = refl; same = label_of-again k j l e }))
      (put-Distinct l.0 (str l.1) acc d)

normalize_labels-same :
    (acc xs : Object)
    → All Neat xs
    → Distinct (acc ++ xs)
    → normalize_labels acc xs ≡ ok (acc ++ xs)
unfolding normalize_labels
normalize_labels-same acc [] a d = rw append-nil refl
normalize_labels-same acc ((k, j) ∷ xs) a d =
    let n = a.0 in
    let fresh = put-append k j acc (Distinct-append_mid k j acc xs d) in
    let whole : (acc ++ (k, j) ∷ []) ++ xs ≡ acc ++ (k, j) ∷ xs =
      append_assoc acc ((k, j) ∷ []) xs in
    rw (n.same, ← n.is_text, fresh)
      (normalize_labels-same (acc ++ (k, j) ∷ []) xs a.1 (subst Distinct (sym whole) d)
        ∙ ap ok whole)

unless_empty-some :
    (o : Object) (w : Json)
    → unless_empty o ≡ ok (some w)
    → (w ≡ obj (fields o)) × (unless_empty o ≡ normal o)
unless_empty-some [] w h = cc
unless_empty-some (e ∷ o) w h = (sym (some_inj (ok_inj h)), refl)

labels-keeps :
    (j w : Json) → labels j ≡ ok (some w) → (labels w ≡ ok (some w)) × (present (some w) ≡ some w)
unfolding labels
labels-keeps j w h =
    let (o, e, h1) = >>=-passed (as_object "layout.fieldLabelByKey" j) _ h in
    let (out, r, n) = >>=-passed (normalize_labels [] o) unless_empty h1 in
    let (neat, distinct) = normalize_labels-Neat [] o out r tt tt in
    let (q, is_normal) = unless_empty-some out w n in
    subst (λ z. (labels z ≡ ok (some z)) × (present (some z) ≡ some z)) (sym q)
      (rw (entries-fields out, normalize_labels-same [] out neat distinct, is_normal) refl, refl)

pub labels-StableOn : StableOn labels
labels-StableOn = record {
  keeps = λ j w h. (labels-keeps j w h).0;
  is_present = λ j w h. (labels-keeps j w h).1;
}
