-- ===== src/Prelude/Results.antt =====
-- What a kernel function ends in: its result, or a kernel panic (a failed KERNEL_ASSERT, or
-- KERNEL_PANIC), or an access `outside` an array. A loop on fuel that runs out of it `hang`s.
use mathlib.Core.Bool.{Bool, true, false}

pub data Result {ℓ} (A : Type ℓ) : Type ℓ where
  ok : A → Result A
  panic : Result A
  hang : Result A
  outside : Result A

infixl 5 ◌>>=◌ ◌>>◌
abbrev pub ◌>>=◌ {ℓ κ} : {A : Type ℓ} {B : Type κ} (r : Result A) (next : A → Result B) → Result B
hang >>= next = hang
outside >>= next = outside
panic >>= next = panic
ok value >>= next = next value

abbrev pub ◌>>◌ {κ} : {B : Type κ} (r : Result (Unit {0})) (next : Result B) → Result B
r >> next = r >>= λ done. next

-- `KERNEL_ASSERT(b)`
abbrev pub assert : Bool → Result (Unit {0})
assert true = ok tt
assert false = panic
