-- ===== src/Engine/Exec.antt =====
-- Actions of the engine: they read and write the world and may throw. What was written before a
-- throw stays written until a transaction rolls it back.
use six_1_core_api.Prelude.{Bool, true, false, Option, none, some, List, [], ◌∷◌}
use six_1_core_api.Engine.Rows.{World}

pub data Error : Type 0 where
  unsupported_subject_type no_host_adapter subject_type_disabled : Error
  parent_not_found child_template_missing child_instance_missing : Error

pub data Result {ℓ} (A : Type ℓ) : Type ℓ where
  ok : A → Result A
  err : Error → Result A

abbrev pub Exec : Type 0 → Type 0
Exec A = World → Result A × World

abbrev pub pure : {A : Type 0} → A → Exec A
pure a w = (ok a, w)

abbrev pub throw : {A : Type 0} → Error → Exec A
throw e w = (err e, w)

abbrev pub gets : {A : Type 0} → (World → A) → Exec A
gets f w = (ok (f w), w)

abbrev pub modify : (World → World) → Exec (Unit {0})
modify f w = (ok tt, f w)

abbrev pub state : {A : Type 0} → (World → A × World) → Exec A
state f w = let (a, w') = f w in (ok a, w')

abbrev pub continue : {A B : Type 0} → Result A → (A → Exec B) → Exec B
continue (ok a) f w = f a w
continue (err e) f w = (err e, w)

infixl 5 ◌>>=◌ ◌>>◌
abbrev pub ◌>>=◌ : {A B : Type 0} → Exec A → (A → Exec B) → Exec B
◌>>=◌ m f w = let (r, w') = m w in continue r f w'

abbrev pub ◌>>◌ : {A B : Type 0} → Exec A → Exec B → Exec B
m >> k = m >>= λ _. k

-- `if (!found) throw …`
abbrev pub require : {A : Type 0} → Option A → Error → Exec A
require none e = throw e
require (some a) e = pure a

-- `if (test) { … }`
abbrev pub when : Bool → Exec (Unit {0}) → Exec (Unit {0})
when true m = m
when false m = pure tt

-- `for (const row of rows) { … }`
unfoldable pub for_each : {A : Type 0} → (A → Exec (Unit {0})) → List A → Exec (Unit {0})
for_each f [] = pure tt
for_each f (x ∷ xs) = f x >> for_each f xs

-- A transaction: a throw restores the tables and leaves what has been emitted.
abbrev pub rolled_back : {A : Type 0} → World → Result A × World → Result A × World
rolled_back w (ok a, w') = (ok a, w')
rolled_back w (err e, w') = (err e, record w { outbox = w'.outbox })

unfoldable pub transaction : {A : Type 0} → Exec A → Exec A
transaction m w = rolled_back w (m w)
