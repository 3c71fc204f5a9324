-- ===== src/Locks/Ownership.antt =====
-- Who holds a lock, and how many threads wait for it, under `lock_acquire` and `lock_release`.
use aalto_buenos.Prelude.{
  ℕ, ◌+◌, ◌^◌, ◌≤◌, ◌<◌, ◌≡◌, ◌≢◌, refl, sym, ap, ◌∙◌, arith, List, [], ◌∷◌, ◌++◌, Bool, true,
  false, if◌then◌else◌, length, dec_lt, ℕ_discrete, Bool-cases, inl, inr, ◌⊎◌, ==_iff, Result, ok,
}
use aalto_buenos.Prelude.Int.{ℤ, pos, negsuc, eq_ℤ}
use aalto_buenos.Threads.{Kernel, Thread, update, max_threads}
use aalto_buenos.Threads.Links.{All}
use aalto_buenos.Threads.Bounded.{length-le_of_Distinct}
use aalto_buenos.Sleepq.{hash}
use aalto_buenos.Sleepq.Queues.{Queues, Slot}
use aalto_buenos.Sleepq.Add.{IsRunner, add_lem}
use aalto_buenos.Sleepq.Wake.{Woken}
use aalto_buenos.Sleepq.WakeOne.{hash-lt, woke, nobody, wake_lem}
use aalto_buenos.Sleepq.Waiters.{waiters, waiters-none}
use aalto_buenos.Sleepq.Counting.{one_more, one_less}
use aalto_buenos.Locks.{
  Lock, no_thread, reserved_thread, succ32, pred32, lock_acquire, lock_resume, lock_release,
}

-- 1 where the lock has been handed to a thread that has not resumed yet
abbrev pub heirs : Lock → ℕ
heirs lock = if eq_ℤ lock.locked_id reserved_thread then 1 else 0

-- The count is that of the threads of the slot that wait for the lock, and of the heir; nobody waits
-- for an open lock.
pub record IsLock (lock : Lock) (threads : ℕ → Thread) (address : ℕ) (ts : List ℕ) : Type 0 where
  pub counted : lock.waiting_thread_count ≡ waiters threads address ts + heirs lock
  pub open_free : lock.locked_id ≡ no_thread → lock.waiting_thread_count ≡ 0

waiters-le-length :
    (threads : ℕ → Thread) (resource : ℕ) (ts : List ℕ) → waiters threads resource ts ≤ length ts
unfolding waiters
waiters-le-length threads resource [] = omega arith
waiters-le-length threads resource (t ∷ ts) = ground (arith, waiters-le-length threads resource ts)

few_waiters :
    {threads : ℕ → Thread} {head : ℤ} {h : ℕ} {ts : List ℕ} (resource : ℕ)
    → Slot threads head h ts
    → waiters threads resource ts ≤ max_threads
few_waiters {threads} {ts = ts} resource s = omega (
  arith,
  waiters-le-length threads resource ts,
  length-le_of_Distinct max_threads ts s.distinct s.below,
)

-- How `lock_release` by the thread `me` that holds the lock ends.
pub data ReleaseOutcome (lock : Lock) {k : Kernel} {ready_q : List ℕ} {waiting : ℕ → List ℕ}
    (q : Queues k ready_q waiting) (address : ℕ) (r : Result (Lock × Kernel)) : Type 0 where
  still_held :
      (lock' : Lock)
      → 1 < lock.nested_locking_count
      → r ≡ ok (lock', k)
      → lock'.locked_id ≡ lock.locked_id
      → lock'.nested_locking_count + 1 ≡ lock.nested_locking_count
      → IsLock lock' k.threads address (waiting (hash address))
      → ReleaseOutcome lock q address r
  handed_on :
      (lock' : Lock) (front : List ℕ) (w : ℕ) (ls : List ℕ)
      (eq : waiting (hash address) ≡ front ++ (w ∷ ls))
      → lock.nested_locking_count ≤ 1
      → All (λ t. (k.threads t).sleeps_on ≢ address) front
      → (k.threads w).sleeps_on ≡ address
      → (o : Woken q (hash address) front w ls (hash-lt address) eq) → r ≡ ok (lock', o.after)
      → lock'.locked_id ≡ reserved_thread
      → lock'.nested_locking_count ≡ 0
      → IsLock lock' o.after.threads address (front ++ ls)
      → ReleaseOutcome lock q address r
  opened :
      (lock' : Lock)
      → lock.nested_locking_count ≤ 1
      → waiters k.threads address (waiting (hash address)) ≡ 0
      → r ≡ ok (lock', k)
      → lock'.locked_id ≡ no_thread
      → lock'.nested_locking_count ≡ 0
      → IsLock lock' k.threads address (waiting (hash address))
      → ReleaseOutcome lock q address r

-- With well-formed queues and a lock whose nesting count fits 32 bits, whose waiting count is that
-- of the threads of its slot that wait for it and of an heir it was handed to, and for which nobody
-- waits while it is open, `lock_release` by its holder returns: exactly a lock that was taken more
-- than once stays held, nested one time less; otherwise the nesting count becomes 0, and if a
-- thread waits, the first one is woken and the lock is reserved for it, and if none waits the lock
-- is open; the waiting count is right in each case.
pub release_lem :
    {k : Kernel} {ready_q : List ℕ} {waiting : ℕ → List ℕ} (q : Queues k ready_q waiting)
    (lock : Lock) (cpu address : ℕ)
    → lock.locked_id ≡ pos (k.current cpu)
    → lock.nested_locking_count < 2 ^ 32
    → IsLock lock k.threads address (waiting (hash address))
    → ReleaseOutcome lock q address (lock_release lock k cpu address)
release_lem {k} {waiting = waiting} q lock cpu address mine small i =
    elim (dec_lt 1 lock.nested_locking_count) [
      | yes nested ↦
          still_held (record lock { nested_locking_count = pred32 lock.nested_locking_count })
            nested (unfold lock_release in ground (arith, mine, nested)) refl (omega arith)
            (record { counted = i.counted; open_free = i.open_free })
      | no outer ↦ elim (ℕ_discrete lock.waiting_thread_count 0) [
        | yes none ↦
            opened (record lock { nested_locking_count = 0; locked_id = no_thread }) (omega arith)
              (omega (arith, i.counted, none))
              (unfold lock_release in ground (arith, mine, outer, none)) refl refl
              (record { counted = ground (arith, i.counted, none); open_free = λ e. none })
        | no some ↦ elim (wake_lem q address) [
          | woke front w ls eq others waits o e ↦
              handed_on (record lock { nested_locking_count = 0; locked_id = reserved_thread })
                front w ls eq (omega arith) others waits o
                (unfold lock_release in ground (arith, mine, outer, some, e)) refl refl
                (record {
                  counted =
                      ground (arith, one_less q address front w ls eq waits o, i.counted, mine);
                  open_free = λ c. ground (arith, c);
                })
          | nobody out e ↦ absurd (
              ground (
                arith,
                waiters-none k.threads address (waiting (hash address)) out,
                i.counted,
                mine,
                some,
              ))
        ]
      ]
    ]

-- How `lock_acquire` by thread `t` ends, or where it sleeps.
pub data AcquireOutcome (lock : Lock) (k : Kernel) (t address : ℕ) (ready_q : List ℕ)
    (waiting : ℕ → List ℕ) (r : Result (Lock × Kernel × Bool)) : Type 0 where
  acquired :
      (lock' : Lock)
      → (lock.locked_id ≡ no_thread) ⊎ (lock.locked_id ≡ pos t)
      → r ≡ ok (lock', k, false)
      → lock'.locked_id ≡ pos t
      → IsLock lock' k.threads address (waiting (hash address))
      → AcquireOutcome lock k t address ready_q waiting r
  queued :
      (lock' : Lock) (k' : Kernel)
      → lock.locked_id ≢ no_thread
      → lock.locked_id ≢ pos t
      → r ≡ ok (lock', k', true)
      → lock'.locked_id ≡ lock.locked_id
      → Queues k' ready_q (update waiting (hash address) (waiting (hash address) ++ (t ∷ [])))
      → IsLock lock' k'.threads address (waiting (hash address) ++ (t ∷ []))
      → AcquireOutcome lock k t address ready_q waiting r

eq_ℤ-true : (a b : ℤ) → eq_ℤ a b ≡ true → a ≡ b
eq_ℤ-true (pos a) (pos b) e = ap pos ((==_iff a b).0 e)
eq_ℤ-true (pos a) (negsuc b) e = absurd (ground (arith, e))
eq_ℤ-true (negsuc a) (pos b) e = absurd (ground (arith, e))
eq_ℤ-true (negsuc a) (negsuc b) e = ap negsuc ((==_iff a b).0 e)

eq_ℤ-self : (a : ℤ) → eq_ℤ a a ≡ true
eq_ℤ-self (pos a) = ground arith
eq_ℤ-self (negsuc a) = ground arith

eq_ℤ-differ : (a b : ℤ) → eq_ℤ a b ≡ false → a ≢ b
eq_ℤ-differ a b e same = ground (arith, sym (ap (eq_ℤ a) same) ∙ eq_ℤ-self a, e)

-- With well-formed queues, a lock whose count is right, whose address is not 0, and a running
-- thread that is not the idle thread and waits for nothing, `lock_acquire` takes an open lock or
-- one that the thread holds already and goes on; any other lock, also one reserved for an heir,
-- keeps its holder, and the thread is counted and put at the end of the slot, with the queues well
-- formed.
pub acquire_lem :
    {k : Kernel} {ready_q : List ℕ} {waiting : ℕ → List ℕ} (q : Queues k ready_q waiting)
    (lock : Lock) (t cpu address : ℕ)
    → IsRunner k t
    → address ≢ 0
    → k.current cpu ≡ t
    → IsLock lock k.threads address (waiting (hash address))
    → AcquireOutcome lock k t address ready_q waiting (lock_acquire lock k cpu address)
acquire_lem {k} {waiting = waiting} q lock t cpu address run is_address here i =
    elim (Bool-cases (eq_ℤ lock.locked_id no_thread)) [
      | inl free ↦
          acquired (record lock { locked_id = pos t; nested_locking_count = 1 })
            (inl (eq_ℤ-true lock.locked_id no_thread free))
            (unfold lock_acquire in ground (arith, free, here)) refl
            (record {
              counted = ground (arith, eq_ℤ-true lock.locked_id no_thread free, i.counted);
              open_free = λ e. absurd (ground (arith, e));
            })
      | inr taken ↦ elim (Bool-cases (eq_ℤ lock.locked_id (pos t))) [
        | inl mine ↦
            acquired (record lock { nested_locking_count = succ32 lock.nested_locking_count })
              (inr (eq_ℤ-true lock.locked_id (pos t) mine))
              (unfold lock_acquire in ground (arith, taken, mine, here))
              (eq_ℤ-true lock.locked_id (pos t) mine)
              (record { counted = i.counted; open_free = i.open_free })
        | inr other ↦
            let (k', e, q') = add_lem q t run address is_address cpu here in
            queued (record lock { waiting_thread_count = succ32 lock.waiting_thread_count }) k'
              (eq_ℤ-differ lock.locked_id no_thread taken)
              (eq_ℤ-differ lock.locked_id (pos t) other)
              (unfold lock_acquire in ground (arith, taken, other, here, e)) refl q'
              (record {
                counted = ground (
                  arith,
                  one_more q t cpu address run is_address here k' e,
                  i.counted,
                  few_waiters address (q.slots (hash address) (hash-lt address)),
                );
                open_free = λ c. absurd (eq_ℤ-differ lock.locked_id no_thread taken c);
              })
      ]
    ]

-- The thread that resumes in `lock_acquire` when a lock has been handed to it holds the lock then,
-- and the count is right again, where the lock was reserved and the count below 2 ^ 32 was right
-- before.
pub resume_lem :
    {threads : ℕ → Thread} {address : ℕ} {ts : List ℕ} (lock : Lock) (me : ℕ)
    → lock.locked_id ≡ reserved_thread
    → lock.waiting_thread_count < 2 ^ 32
    → IsLock lock threads address ts
    → ((lock_resume lock me).locked_id ≡ pos me) × IsLock (lock_resume lock me) threads address ts
unfolding lock_resume
resume_lem lock me reserved small i = (
  refl,
  record {
    counted = ground (arith, reserved, i.counted);
    open_free = λ e. absurd (ground (arith, e));
  },
)
