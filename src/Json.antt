-- ===== src/Json.antt =====
-- The values of JSON columns and of TypeScript's `Record<string, unknown>`. No code modelled here
-- computes with a number that is not natural: a negative integer is `negsuc n`, for -(n + 1), and any
-- other number stands with its text.
use Prim.Native.String.{String}
use mathlib.Core.Option.{Option, none, some}
use mathlib.Core.List.{List, [], ◌∷◌}
use six_1_core_api.Prelude.{ℕ, Bool}
use six_1_core_api.Prelude.Tests.{str_eq, if◌then◌else◌}

mutual
  pub data Json : Type 0 where
    null : Json
    bool : Bool → Json
    num : ℕ → Json
    negsuc : ℕ → Json
    fraction : String → Json
    str : String → Json
    arr : Items → Json
    obj : Fields → Json

  pub data Items : Type 0 where
    nil : Items
    cons : Json → Items → Items

  pub data Fields : Type 0 where
    end : Fields
    field : String → Json → Fields → Fields

-- An object by its own entries, in insertion order.
abbrev pub Object : Type 0
Object = List (String × Json)

-- `o[k]`; an absent key is `undefined`.
unfoldable pub get {ℓ} : {V : Type ℓ} → String → List (String × V) → Option V
get k [] = none
get k ((j, v) ∷ o) = if str_eq j k then some v else get k o

-- `o[k] = v`: a key that is there keeps its place.
unfoldable pub put {ℓ} : {V : Type ℓ} → String → V → List (String × V) → List (String × V)
put k v [] = (k, v) ∷ []
put k v ((j, w) ∷ o) = let rest = put k v o in if str_eq j k then (j, v) ∷ o else (j, w) ∷ rest

-- `{ ...a, ...b }`
unfoldable pub spread {ℓ} : {V : Type ℓ} → List (String × V) → List (String × V) → List (String × V)
unfolding put
spread a [] = a
spread a ((k, v) ∷ b) = spread (put k v a) b

-- The entries of an object, and the elements of an array, as lists and back.
abbrev pub entries : Fields → Object
entries end = []
entries (field k v fs) = (k, v) ∷ entries fs

abbrev pub fields : Object → Fields
fields [] = end
fields ((k, v) ∷ o) = field k v (fields o)

abbrev pub elements : Items → List Json
elements nil = []
elements (cons j js) = j ∷ elements js

abbrev pub items : List Json → Items
items [] = nil
items (j ∷ js) = cons j (items js)
