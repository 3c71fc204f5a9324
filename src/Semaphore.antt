-- ===== src/Semaphore.antt =====
-- kernel/semaphore.c: counting semaphores over the sleep queues. A semaphore's resource is its
-- address, which is not 0; `semaphore_P` is modelled up to the point where it gives up the
-- processor.
pub mod Values
use aalto_buenos.Prelude.{
  ℕ, zero, suc, ◌+◌, ◌-◌, ◌^◌, ◌%◌, Bool, true, false, not, if◌then◌else◌, ◌==◌, Option, none, some,
  Result, ok, assert, ◌>>=◌, ◌>>◌,
}
use aalto_buenos.Prelude.Int.{ℤ, pos, negsuc, none_id, is_negative, is_positive, eq_ℤ, incr, decr}
use aalto_buenos.Threads.{Kernel, update}
use aalto_buenos.Sleepq

-- CONFIG_MAX_SEMAPHORES
abbrev pub max_semaphores : ℕ
max_semaphores = 128

-- `semaphore_t`
pub record Semaphore : Type 0 where
  pub value : ℤ
  pub creator : ℤ

-- `for (i = i0; i < i0 + n; i++)` of `semaphore_init`
unfoldable pub init_from : ℕ → ℕ → (ℕ → Semaphore) → ℕ → Semaphore
init_from zero i table = table
init_from (suc n) i table =
    init_from n (i + 1) (update table i (record (table i) { creator = none_id }))

unfoldable pub init : (ℕ → Semaphore) → ℕ → Semaphore
unfolding init_from
init table = init_from max_semaphores 0 table

-- The search of `semaphore_create` with `n` rounds left: the semaphore found, and `next`.
unfoldable pub find_free : ℕ → (ℕ → Semaphore) → ℕ → Option ℕ × ℕ
find_free zero table next = (none, next)
find_free (suc n) table next =
    let rest = find_free n table ((next + 1) % max_semaphores) in
    if eq_ℤ (table next).creator none_id then (some next, (next + 1) % max_semaphores) else rest

-- `semaphore_create` by thread `tid`: the semaphore, or none where the function returns NULL; the
-- table, and the static `next`.
unfoldable pub create : (ℕ → Semaphore) → ℕ → ℕ → ℤ → Result (Option ℕ × (ℕ → Semaphore) × ℕ)
unfolding find_free
create table next tid value = do
  assert (not (is_negative value))
  let found = find_free max_semaphores table next
  ok (
    found.0,
    elim found.0 [
      | none ↦ table
      | some i ↦ update table i (record { value = value; creator = pos tid })
    ],
    found.1,
  )

unfoldable pub destroy : Semaphore → Semaphore
destroy sem = record sem { creator = none_id }

-- `semaphore_P` on processor `cpu`; the last component says whether the thread switches away.
unfoldable pub lower : Semaphore → Kernel → ℕ → ℕ → Result (Semaphore × Kernel × Bool)
lower sem k cpu address =
    let sem' = record sem { value = decr sem.value } in
    if is_negative sem'.value
    then (do k' ← Sleepq.add k true cpu address; ok (sem', k', true))
    else ok (sem', k, false)

-- `++` on an `int`, which wraps around at its largest value
abbrev pub incr_int : ℤ → ℤ
incr_int v = if eq_ℤ v (pos (2 ^ 31 - 1)) then negsuc (2 ^ 31 - 1) else incr v

-- `semaphore_V`
unfoldable pub raise : Semaphore → Kernel → ℕ → Result (Semaphore × Kernel)
raise sem k address =
    let sem' = record sem { value = incr_int sem.value } in
    if not (is_positive sem'.value)
    then (do k' ← Sleepq.wake k address; ok (sem', k'))
    else ok (sem', k)
