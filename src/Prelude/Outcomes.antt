-- ===== src/Prelude/Outcomes.antt =====
-- What a function that follows pointers ends in: its result, a failed KERNEL_ASSERT, or an access
-- `outside` the arrays that it was given.
use mathlib.Core.Bool.{Bool, true, false}
use mathlib.Core.Option.{Option, none, some}

pub data Outcome {ℓ} (A : Type ℓ) : Type ℓ where
  ret : A → Outcome A
  failed : Outcome A
  outside : Outcome A

infixl 5 ◌>>=◌ ◌>>◌
abbrev pub ◌>>=◌ {ℓ κ} :
    {A : Type ℓ} {B : Type κ} (r : Outcome A) (next : A → Outcome B) → Outcome B
failed >>= next = failed
outside >>= next = outside
ret value >>= next = next value

abbrev pub ◌>>◌ {κ} : {B : Type κ} (r : Outcome (Unit {0})) (next : Outcome B) → Outcome B
r >> next = r >>= λ done. next

-- `KERNEL_ASSERT(b)`
abbrev pub require : Bool → Outcome (Unit {0})
require true = ret tt
require false = failed

-- an access that the model of lib/libc.c makes
abbrev pub accessed {ℓ} : {A : Type ℓ} → Option A → Outcome A
accessed none = outside
accessed (some a) = ret a
