-- ===== src/Sleepq/WakeAll.antt =====
-- The description of `sleepq_wake_all`: who stays in a slot, and in which order the others are readied.
use mathlib.Core.Path.{subst}
use aalto_buenos.Prelude.{
  ℕ, ◌≡◌, ◌≢◌, refl, sym, ap, ◌∙◌, arith, List, [], ◌∷◌, ◌++◌, append-nil, Bool, false, ◌&&◌,
  if◌then◌else◌, ◌==◌, Result, ok,
}
use aalto_buenos.Prelude.Int.{ℤ, pos}
use aalto_buenos.Threads.{Kernel, Thread, is_sleeping}
use aalto_buenos.Threads.Links.{All, All-map, All-append, last-append}
use aalto_buenos.Scheduler.Enqueue.{is_high, enqueue}
use aalto_buenos.Sleepq.{hash}
use aalto_buenos.Sleepq.Search.{last_or}
use aalto_buenos.Sleepq.Queues.{Queues}

abbrev pub waits_for : (ℕ → Thread) → ℕ → ℕ → Bool
waits_for threads resource t = (threads t).sleeps_on == resource

abbrev pub sleeps : (ℕ → Thread) → ℕ → Bool
sleeps threads t = is_sleeping (threads t).state

-- The threads of a slot that stay, and the ready list with the others put on it one by one.
unfoldable pub staying : (ℕ → Bool) → List ℕ → List ℕ
staying waits [] = []
staying waits (t ∷ ts) = if waits t then staying waits ts else t ∷ staying waits ts

unfoldable pub readying : (ℕ → Bool) → (ℕ → Bool) → (ℕ → Bool) → List ℕ → List ℕ → List ℕ
readying high sleeping waits [] ready_q = ready_q
readying high sleeping waits (t ∷ ts) ready_q =
    readying high sleeping waits ts
      (if waits t && sleeping t then enqueue high t ready_q else ready_q)

pub staying-append :
    (waits : ℕ → Bool) (front ts : List ℕ)
    → All (λ t. waits t ≡ false) front
    → staying waits (front ++ ts) ≡ front ++ staying waits ts
unfolding staying
staying-append waits [] ts a = refl
staying-append waits (t ∷ front) ts a = rw (a.0, staying-append waits front ts a.1)

pub readying-append :
    (high sleeping waits : ℕ → Bool) (front ts ready_q : List ℕ)
    → All (λ t. waits t ≡ false) front
    → readying high sleeping waits (front ++ ts) ready_q ≡ readying high sleeping waits ts ready_q
unfolding readying
readying-append high sleeping waits [] ts ready_q a = refl
readying-append high sleeping waits (t ∷ front) ts ready_q a =
    rw (a.0, readying) (readying-append high sleeping waits front ts ready_q a.1)

-- Only what is said of the threads of the list counts.
pub staying-agree :
    (waits waits' : ℕ → Bool) (ts : List ℕ)
    → All (λ t. waits' t ≡ waits t) ts
    → staying waits' ts ≡ staying waits ts
unfolding staying
staying-agree waits waits' [] a = refl
staying-agree waits waits' (t ∷ ts) a = rw (a.0, staying-agree waits waits' ts a.1)

pub readying-agree :
    (high sleeping sleeping' waits waits' : ℕ → Bool) (ts ready_q : List ℕ)
    → All (λ t. (waits' t ≡ waits t) × (sleeping' t ≡ sleeping t)) ts
    → readying high sleeping' waits' ts ready_q ≡ readying high sleeping waits ts ready_q
unfolding readying
readying-agree high sleeping sleeping' waits waits' [] ready_q a = refl
readying-agree high sleeping sleeping' waits waits' (t ∷ ts) ready_q a =
    rw (a.0.0, a.0.1) (readying-agree high sleeping sleeping' waits waits' ts _ a.1)

pub last_or-append : (d : ℤ) (xs ys : List ℕ) → last_or (last_or d xs) ys ≡ last_or d (xs ++ ys)
last_or-append d [] ys = refl
last_or-append d (x ∷ xs) [] = rw append-nil
last_or-append d (x ∷ xs) (y ∷ ys) = ap pos (sym (last-append x y xs ys))

-- The kernel that the loop leaves, started behind the threads `front`.
pub record WokenAll (k : Kernel) (ready_q : List ℕ) (waiting : ℕ → List ℕ) (resource : ℕ)
    (front rest : List ℕ) (r : Result Kernel) : Type 0 where
  pub after : Kernel
  pub returns : r ≡ ok after
  pub still : ℕ → List ℕ
  pub queued :
      Queues after
        (readying
          (is_high k.threads)
          (sleeps k.threads)
          (waits_for k.threads resource)
          rest
          ready_q)
        still
  pub slot_list : still (hash resource) ≡ front ++ staying (waits_for k.threads resource) rest
  pub other_slots : (h : ℕ) → hash resource ≢ h → still h ≡ waiting h
  pub none_left : All (λ t. (after.threads t).sleeps_on ≢ resource) (still (hash resource))

pub not_waiting :
    (threads : ℕ → Thread) (resource : ℕ) (ts : List ℕ)
    → All (λ t. (threads t).sleeps_on ≢ resource) ts
    → All (λ t. waits_for threads resource t ≡ false) ts
not_waiting threads resource ts a = All-map ts (λ t ne. ground arith) a

-- The search finds nobody: the loop ends.
pub finished :
    {k : Kernel} {ready_q : List ℕ} {waiting : ℕ → List ℕ} {r : Result Kernel}
    (q : Queues k ready_q waiting) (resource : ℕ) (front rest : List ℕ)
    → waiting (hash resource) ≡ front ++ rest
    → All (λ t. (k.threads t).sleeps_on ≢ resource) front
    → All (λ t. (k.threads t).sleeps_on ≢ resource) rest
    → r ≡ ok k
    → WokenAll k ready_q waiting resource front rest r
finished {k} {ready_q} {waiting} q resource front rest eq af ar ret = record {
  after = k;
  returns = ret;
  still = waiting;
  queued = subst (λ l. Queues k l waiting) (sym unchanged) q;
  slot_list = eq ∙ ap (◌++◌ front) (sym kept);
  other_slots = λ h ne. refl;
  none_left = rw eq (All-append _ front rest af ar);
}
  where
    out : All (λ t. waits_for k.threads resource t ≡ false) rest
    out = not_waiting k.threads resource rest ar

    unchanged :
        readying (is_high k.threads) (sleeps k.threads) (waits_for k.threads resource) rest ready_q
        ≡ ready_q
    unchanged =
        subst
          (λ l.
            readying (is_high k.threads) (sleeps k.threads) (waits_for k.threads resource) l ready_q
            ≡ ready_q)
          (append-nil rest)
          (readying-append (is_high k.threads) (sleeps k.threads) (waits_for k.threads resource)
              rest [] ready_q out
            ∙ (unfold readying in refl))

    kept : staying (waits_for k.threads resource) rest ≡ rest
    kept =
        subst (λ l. staying (waits_for k.threads resource) l ≡ l) (append-nil rest)
          (staying-append (waits_for k.threads resource) rest [] out ∙ (unfold staying in refl))
