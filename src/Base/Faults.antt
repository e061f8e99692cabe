-- ===== src/Base/Faults.antt =====
-- What a run of the program can end in besides a result.
use mathlib.Core.Path.{◌≡◌, refl, subst}
use mathlib.Core.Logic.{◌⊎◌, inl, inr}
use mathlib.Core.Bool.{Bool, true, false}
use ospfd_rfc.Base.Tests.{if◌then◌else◌}
use mathlib.Core.Option.{Option, none, some}

-- A failed `assert`, a null pointer read through, a downcast to the wrong class, an access outside
-- a buffer; the last three are undefined behaviour in C++. `endless` is a loop of the model that ran
-- out of fuel.
pub data Fault : Type 0 where
  assertion_failed null_dereference bad_cast out_of_bounds endless : Fault

pub data Result {ℓ} (A : Type ℓ) : Type ℓ where
  fault : Fault → Result A
  ok : A → Result A

-- `assert(condition)` of the source.
abbrev pub assert : Bool → Result (Unit {0})
assert false = fault assertion_failed
assert true = ok tt

-- A pointer that may be null, or a place that may be missing.
abbrev pub from_option {ℓ} : {A : Type ℓ} → Fault → Option A → Result A
from_option reason none = fault reason
from_option reason (some a) = ok a

module _ {ℓ κ} {A : Type ℓ} {B : Type κ} where
  infixl 5 ◌>>=◌
  -- The program goes on with a result and stops at a fault.
  abbrev pub ◌>>=◌ : Result A → (A → Result B) → Result B
  fault reason >>= next = fault reason
  ok a >>= next = next a

  -- A run of two steps that succeeds, taken apart where the steps stay shut.
  pub >>=-eq-ok :
      (first : Result A) (next : A → Result B) {b : B}
      → (first >>= next) ≡ ok b
      → (a : A) × (first ≡ ok a) × (next a ≡ ok b)
  >>=-eq-ok (fault reason) next h = cc
  >>=-eq-ok (ok a) next h = (a, refl, h)

module _ {ℓ} {A : Type ℓ} where
  infixl 5 ◌>>◌
  abbrev pub ◌>>◌ : Result (Unit {0}) → Result A → Result A
  fault reason >> next = fault reason
  ok _ >> next = next

  pub Result-cases : (r : Result A) → ((a : A) × (r ≡ ok a)) ⊎ ((x : Fault) × (r ≡ fault x))
  Result-cases (fault x) = inr (x, refl)
  Result-cases (ok a) = inl (a, refl)

  pub ok-injective : {a b : A} → ok a ≡ ok b → a ≡ b
  ok-injective h = cc

  pub from_option-ok : (x : Fault) (o : Option A) (a : A) → from_option x o ≡ ok a → o ≡ some a
  from_option-ok x none a h = cc
  from_option-ok x (some b) a h = cc

-- What holds of the result of a run, if it has one.
abbrev pub Holds {ℓ κ} : {A : Type ℓ} → (A → Type κ) → Result A → Type κ
Holds P (fault reason) = Unit
Holds P (ok a) = P a

module _ {ℓ κ} {A : Type ℓ} (P : A → Type κ) where
  pub Holds-ok : (r : Result A) (a : A) → Holds P r → r ≡ ok a → P a
  Holds-ok (fault reason) a h e = cc
  Holds-ok (ok b) a h e = subst P (ok-injective e) h

  pub Holds-from : (r : Result A) → ((a : A) → r ≡ ok a → P a) → Holds P r
  Holds-from (fault reason) h = tt
  Holds-from (ok a) h = h a refl

  pub Holds-if :
      (b : Bool) (x y : Result A)
      → (b ≡ true → Holds P x)
      → (b ≡ false → Holds P y)
      → Holds P (if b then x else y)
  Holds-if true x y hx hy = hx refl
  Holds-if false x y hx hy = hy refl

module _ {ℓ κ ι} {A : Type ℓ} {B : Type κ} (P : B → Type ι) where
  -- A step, and what follows it from each of its results.
  pub Holds->>= :
      (first : Result A) (next : A → Result B)
      → ((a : A) → first ≡ ok a → Holds P (next a))
      → Holds P (first >>= next)
  Holds->>= (fault reason) next h = tt
  Holds->>= (ok a) next h = h a refl

module _ {ℓ κ} {A : Type ℓ} (P : A → Type κ) where
  pub Holds->> : (check : Result (Unit {0})) (r : Result A) → Holds P r → Holds P (check >> r)
  Holds->> (fault reason) r h = tt
  Holds->> (ok _) r h = h
