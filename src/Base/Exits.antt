-- ===== src/Base/Exits.antt =====
-- What a C function does beside returning: it may end the process by `exit`, or it may have no
-- defined behaviour, such as an access outside an array.
use mojit_os.Base.Tests.{if◌then◌else◌}
use mathlib.Core.Path.{◌≡◌, refl}
use mathlib.Core.Bool.{Bool, true, false}
use Prim.Native.Nat.{ℕ}

pub data Outcome {ℓ} (A : Type ℓ) : Type ℓ where
  returns : A → Outcome A
  -- `exit(code)`
  exits : ℕ → Outcome A
  -- undefined behaviour
  faults : Outcome A

infixl 5 ◌>>=◌
abbrev pub ◌>>=◌ {ℓ κ} : {A : Type ℓ} {B : Type κ} → Outcome A → (A → Outcome B) → Outcome B
returns a >>= f = f a
exits c >>= f = exits c
faults >>= f = faults

-- The inversion of a run that returned.
pub >>=-eq-returns {ℓ κ} :
    {A : Type ℓ} {B : Type κ} (m : Outcome A) (f : A → Outcome B) {b : B}
    → (m >>= f) ≡ returns b
    → (a : A) × (m ≡ returns a) × (f a ≡ returns b)
>>=-eq-returns (returns a) f h = (a, refl, h)
>>=-eq-returns (exits c) f h = cc
>>=-eq-returns faults f h = cc

-- A run that returns what `P` says, or ends the process, and whose behaviour is defined.
abbrev pub Safely {ℓ} : {A : Type ℓ} → (A → Type 0) → Outcome A → Type 0
Safely P (returns a) = P a
Safely P (exits c) = Unit
Safely P faults = ⊥

pub Safely-bind {ℓ κ} :
    {A : Type ℓ} {B : Type κ} (P : B → Type 0) (Q : A → Type 0) (m : Outcome A) (f : A → Outcome B)
    → Safely Q m
    → ((a : A) → Q a → Safely P (f a))
    → Safely P (m >>= f)
Safely-bind P Q (returns a) f h k = k a h
Safely-bind P Q (exits c) f h k = tt
Safely-bind P Q faults f h k = h

pub Safely-mono {ℓ} :
    {A : Type ℓ} (P Q : A → Type 0) (m : Outcome A)
    → ((a : A) → P a → Q a)
    → Safely P m
    → Safely Q m
Safely-mono P Q (returns a) f h = f a h
Safely-mono P Q (exits c) f h = h
Safely-mono P Q faults f h = h

pub >>=_assoc {ℓ κ μ} :
    {A : Type ℓ} {B : Type κ} {C : Type μ} (m : Outcome A) (f : A → Outcome B) (g : B → Outcome C)
    → (m >>= f >>= g) ≡ (m >>= λ a. f a >>= g)
>>=_assoc (returns a) f g = refl
>>=_assoc (exits c) f g = refl
>>=_assoc faults f g = refl

-- What a run that returns does, whatever else may happen.
abbrev pub Ensures {ℓ} : {A : Type ℓ} → (A → Type 0) → Outcome A → Type 0
Ensures P (returns a) = P a
Ensures P (exits c) = Unit
Ensures P faults = Unit

pub Ensures-bind {ℓ κ} :
    {A : Type ℓ} {B : Type κ} (P : B → Type 0) (Q : A → Type 0) (m : Outcome A) (f : A → Outcome B)
    → Ensures Q m
    → ((a : A) → Q a → Ensures P (f a))
    → Ensures P (m >>= f)
Ensures-bind P Q (returns a) f h k = k a h
Ensures-bind P Q (exits c) f h k = tt
Ensures-bind P Q faults f h k = tt

pub Ensures-if {ℓ} :
    {A : Type ℓ} (P : A → Type 0) (b : Bool) (m n : Outcome A)
    → Ensures P m
    → Ensures P n
    → Ensures P (if b then m else n)
Ensures-if P true m n hm hn = hm
Ensures-if P false m n hm hn = hn

pub >>=-returns {ℓ} : {A : Type ℓ} (m : Outcome A) → (m >>= returns) ≡ m
>>=-returns (returns a) = refl
>>=-returns (exits c) = refl
>>=-returns faults = refl
