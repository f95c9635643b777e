-- ===== src/Prelude/Fault.antt =====
-- `none` is undefined behaviour of C, an access outside an allocation.
use mathlib.Core.Bool.{Bool, true, false}
use mathlib.Core.Option.{Option, none, some}

infixl 5 ◌>>=◌ ◌>>◌
abbrev pub ◌>>=◌ {ℓ κ} : {A : Type ℓ} {B : Type κ} → Option A → (A → Option B) → Option B
none >>= f = none
some a >>= f = f a

abbrev pub ◌>>◌ {ℓ} : {B : Type ℓ} → Option (Unit {0}) → Option B → Option B
m >> k = m >>= λ _. k

abbrev pub guard : Bool → Option (Unit {0})
guard true = some tt
guard false = none

-- A property of the result, if there is one.
abbrev pub SiHay : {A : Type 0} → (A → Type 0) → Option A → Type 0
SiHay P none = Unit
SiHay P (some x) = P x

-- What the result of a chain has, where each step keeps it.
pub SiHay-bind :
    {A B : Type 0} (P : A → Type 0) (Q : B → Type 0) (o : Option A) (f : A → Option B)
    → SiHay P o
    → ((x : A) → P x → SiHay Q (f x))
    → SiHay Q (o >>= f)
SiHay-bind P Q none f h k = tt
SiHay-bind P Q (some x) f h k = k x h

pub SiHay-mapear :
    {A : Type 0} (P Q : A → Type 0) (o : Option A) → ((x : A) → P x → Q x) → SiHay P o → SiHay Q o
SiHay-mapear P Q none k h = tt
SiHay-mapear P Q (some x) k h = k x h
