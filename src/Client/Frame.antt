-- ===== src/Client/Frame.antt =====
-- What holds of the value of a call, if it returns one.
use i_free_chat.Base.{◌≡◌, refl, Bool, true, false, if◌then◌else◌, Option, none, some}
use i_free_chat.MemPool.{Outcome, ret, deadlock, fault, ◌>>=◌}

abbrev pub Ensures {ℓ} : {A : Type ℓ} → (A → Type 0) → Outcome A → Type 0
Ensures P (ret a) = P a
Ensures P deadlock = Unit
Ensures P fault = Unit

pub Ensures-bind {ℓ κ} :
    {A : Type ℓ} {B : Type κ} (P : A → Type 0) (Q : B → Type 0) (o : Outcome A) (f : A → Outcome B)
    → Ensures P o
    → ((a : A) → P a → Ensures Q (f a))
    → Ensures Q (o >>= f)
Ensures-bind P Q (ret a) f h k = k a h
Ensures-bind P Q deadlock f h k = tt
Ensures-bind P Q fault f h k = tt

-- The value of a call that is known to return.
pub Ensures-any : {A : Type 0} (o : Outcome A) → Ensures (λ a. o ≡ ret a) o
Ensures-any (ret a) = refl
Ensures-any deadlock = tt
Ensures-any fault = tt

pub Ensures-if {ℓ} :
    {A : Type ℓ} (P : A → Type 0) (b : Bool) (o p : Outcome A)
    → Ensures P o
    → Ensures P p
    → Ensures P (if b then o else p)
Ensures-if P true o p h k = h
Ensures-if P false o p h k = k

pub Ensures-ret {ℓ} :
    {A : Type ℓ} (P : A → Type 0) (o : Outcome A) (a : A) → o ≡ ret a → Ensures P o → P a
Ensures-ret P o a e h = rw e at h

pub Ensures-unit {ℓ} : {A : Type ℓ} (o : Outcome A) → Ensures (λ a. Unit {0}) o
Ensures-unit (ret a) = tt
Ensures-unit deadlock = tt
Ensures-unit fault = tt

-- A bind whose continuation knows what the call has returned.
pub Ensures-bind_at {κ} :
    {A : Type 0} {B : Type κ} (P : A → Type 0) (Q : B → Type 0) (o : Outcome A) (f : A → Outcome B)
    → Ensures P o
    → ((a : A) → o ≡ ret a → P a → Ensures Q (f a))
    → Ensures Q (o >>= f)
Ensures-bind_at P Q (ret a) f h k = k a refl h
Ensures-bind_at P Q deadlock f h k = tt
Ensures-bind_at P Q fault f h k = tt

pub Ensures-option {ℓ κ} :
    {A : Type ℓ} {B : Type κ} (P : B → Type 0) (s : Option A) (o : Outcome B) (f : A → Outcome B)
    → Ensures P o
    → ((a : A) → s ≡ some a → Ensures P (f a))
    → Ensures P (elim s [ none ↦ o | some a ↦ f a ])
Ensures-option P none o f h k = h
Ensures-option P (some a) o f h k = k a refl

pub Ensures-weaken {ℓ} :
    {A : Type ℓ} (P Q : A → Type 0) (o : Outcome A)
    → ((a : A) → P a → Q a)
    → Ensures P o
    → Ensures Q o
Ensures-weaken P Q (ret a) k h = k a h
Ensures-weaken P Q deadlock k h = tt
Ensures-weaken P Q fault k h = tt
