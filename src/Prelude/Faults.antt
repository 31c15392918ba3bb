-- ===== src/Prelude/Faults.antt =====
-- What a call of the source can end in: a value, or one of the ways in which it stops the simulation.
use mathlib.Core.Path.{◌≡◌, refl}
use mathlib.Core.Bool.{Bool, true, false}
use mathlib.Core.Logic.{◌⊎◌, inl, inr}
use mathlib.Core.Option.{Option, none, some}

-- `assertion` is a failed `assert`; `fatal` is `Output::fatal`, which does not return;
-- `out_of_range` is an access past the end of an array, or `std::vector::at` out of range;
-- `null_pointer` is a call through a null pointer; `undefined` is what the language leaves
-- undefined, as a shift past the width of an `int`.
pub data Fault : Type 0 where
  assertion fatal out_of_range null_pointer undefined : Fault

pub data Outcome {ℓ} (A : Type ℓ) : Type ℓ where
  fault : Fault → Outcome A
  ok : A → Outcome A

abbrev pub of_option {ℓ} : {A : Type ℓ} → Fault → Option A → Outcome A
of_option why (some a) = ok a
of_option why none = fault why

-- A call after a call: the first that stops the simulation is the last.
infixl 5 ◌>>=◌
abbrev pub ◌>>=◌ {ℓ κ} : {A : Type ℓ} {B : Type κ} → Outcome A → (A → Outcome B) → Outcome B
fault why >>= rest = fault why
ok result >>= rest = rest result

-- `assert(b)` and its likes.
abbrev pub check : Bool → Fault → Outcome (Unit {0})
check false why = fault why
check true why = ok tt

infixl 5 ◌>>◌
abbrev pub ◌>>◌ {ℓ} : {B : Type ℓ} → Outcome (Unit {0}) → Outcome B → Outcome B
first >> second = first >>= λ _. second

abbrev pub Succeeds {ℓ} : {A : Type ℓ} → Outcome A → Type ℓ
Succeeds {A = A} m = (a : A) × (m ≡ ok a)

-- A chain that succeeds has a first call that succeeds.
pub >>=-eq-ok {ℓ κ} :
    {A : Type ℓ} {B : Type κ} (first : Outcome A) (rest : A → Outcome B) {result : B}
    → (first >>= rest) ≡ ok result
    → (a : A) × (first ≡ ok a) × (rest a ≡ ok result)
>>=-eq-ok (fault why) rest h = cc
>>=-eq-ok (ok a) rest h = (a, refl, h)

-- An outcome that is no fault is a success.
pub Succeeds-of_no_fault {ℓ} :
    {A : Type ℓ} (m : Outcome A) → ((e : Fault) → m ≡ fault e → ⊥) → Succeeds m
Succeeds-of_no_fault (ok a) h = (a, refl)
Succeeds-of_no_fault (fault e) h = absurd (h e refl)

-- To split on a computed outcome and keep the equation.
pub outcome_cases {ℓ} :
    {A : Type ℓ} (m : Outcome A) → ((a : A) × (m ≡ ok a)) ⊎ ((e : Fault) × (m ≡ fault e))
outcome_cases (ok a) = inl (a, refl)
outcome_cases (fault e) = inr (e, refl)
