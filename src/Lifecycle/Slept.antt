-- ===== src/Lifecycle/Slept.antt =====
-- The list of timed sleepers after each way to link a thread into it.
use mathlib.Core.Path.{subst}
use aalto_buenos.Prelude.{
  ℕ, ◌<◌, ◌≡◌, ◌≢◌, refl, sym, ap, ◌∙◌, arith, List, [], ◌∷◌, ◌++◌, append-nil, if◌then◌else◌, ◌==◌,
  Result, ok,
}
use aalto_buenos.Prelude.Int.{pos, none_id}
use aalto_buenos.Threads.{Kernel, update, max_threads}
use aalto_buenos.Threads.Links.{
  Chain, Chain-rest, Seg-agree, All, All-map, All-append_left, NotIn, NotIn-last, Distinct, last,
}
use aalto_buenos.Threads.Splice.{Chain-insert, Distinct-insert, All-insert}
use aalto_buenos.Scheduling.Sleepers.{
  Sleepers, Sleepers-agree, IsSorted, IsSorted-agree, sleeper_links, wakeup,
}
use aalto_buenos.Lifecycle.{set_next_sleeper}
use aalto_buenos.Lifecycle.Walk.{insert_sleeper}
use aalto_buenos.Lifecycle.Order.{insert_sleeper-IsSorted, insert_sleeper-agree}

-- The kernel when the thread has its wake-up time.
abbrev pub timed : Kernel → ℕ → ℕ → Kernel
timed k t at = record k { threads = update k.threads t (record (k.threads t) { wakeup_time = at }) }

module _ {k : Kernel} {ts : List ℕ} (t at : ℕ) (s : Sleepers k ts) (pt : 0 < t)
    (lt : t < max_threads) (new : NotIn t ts) where
  times : All (λ x. wakeup (timed k t at).threads x ≡ wakeup k.threads x) ts
  times = All-map ts (λ x ne. ground arith) new

  pub timed-Sleepers : Sleepers (timed k t at) ts
  timed-Sleepers =
      Sleepers-agree k (timed k t at) ts refl
        (All-map ts (λ x ne. (ground arith, ground arith)) new) s

  same_order :
      insert_sleeper (wakeup (timed k t at).threads) t at ts
      ≡ insert_sleeper (wakeup k.threads) t at ts
  same_order = insert_sleeper-agree (wakeup k.threads) _ t at ts times

  order-IsSorted :
      IsSorted
        (wakeup (timed k t at).threads)
        (insert_sleeper (wakeup (timed k t at).threads) t at ts)
  order-IsSorted =
      subst
        (λ a.
          IsSorted (wakeup (timed k t at).threads)
            (insert_sleeper (wakeup (timed k t at).threads) t a ts))
        {x = wakeup (timed k t at).threads t} {y = at} (ground arith)
        (insert_sleeper-IsSorted (wakeup (timed k t at).threads) t ts timed-Sleepers.sorted)

  -- Once the links hold the thread at its place, the list is well formed.
  placed :
      (k' : Kernel) (xs ys : List ℕ)
      → ts ≡ xs ++ ys
      → insert_sleeper (wakeup (timed k t at).threads) t at ts ≡ xs ++ (t ∷ ys)
      → Chain (sleeper_links k'.threads) k'.next_sleeper (xs ++ (t ∷ ys))
      → ((x : ℕ) → wakeup k'.threads x ≡ wakeup (timed k t at).threads x)
      → Sleepers k' (insert_sleeper (wakeup k.threads) t at ts)
  placed k' xs ys split ins chain same = subst (Sleepers k') (sym ins ∙ same_order) (record {
    chain = chain;
    distinct =
        Distinct-insert xs ys t (subst Distinct split s.distinct) (subst (NotIn t) split new);
    below = All-insert _ xs ys t lt (subst (All _) split s.below);
    sorted =
        IsSorted-agree (wakeup (timed k t at).threads) (wakeup k'.threads) (xs ++ (t ∷ ys))
          (everywhere (xs ++ (t ∷ ys)))
          (subst (IsSorted (wakeup (timed k t at).threads)) ins order-IsSorted);
  })
    where
      everywhere :
          (zs : List ℕ) → All (λ x. wakeup k'.threads x ≡ wakeup (timed k t at).threads x) zs
      everywhere [] = tt
      everywhere (z ∷ zs) = (same z, everywhere zs)

-- What `thread_sleep` does before it gives up the processor: thread `t` wakes up at `at`, behind
-- the sleepers that do so no later, and nothing but the list of sleepers changes.
pub record Slept (k : Kernel) (t at : ℕ) (ts : List ℕ) (r : Result Kernel) : Type 0 where
  pub after : Kernel
  pub returns : r ≡ ok after
  pub sleepers : Sleepers after (insert_sleeper (wakeup k.threads) t at ts)
  pub own_time : wakeup after.threads t ≡ at
  pub same_entries :
      (x : ℕ)
      → after.threads x ≡ record (k.threads x) {
        next_sleeper_id = (after.threads x).next_sleeper_id;
        wakeup_time = if t == x then at else (k.threads x).wakeup_time;
      }
  pub same_head : after.ready_head ≡ k.ready_head
  pub same_tail : after.ready_tail ≡ k.ready_tail
  pub same_sleepq : after.sleepq ≡ k.sleepq
  pub same_current : after.current ≡ k.current

abbrev pub alone : Kernel → ℕ → Kernel
alone k t = record k { next_sleeper = pos t; threads = set_next_sleeper k.threads t none_id }

abbrev pub on_top : Kernel → ℕ → Kernel
on_top k t = record k {
  threads = set_next_sleeper k.threads t k.next_sleeper;
  next_sleeper = pos t;
}

abbrev pub behind_last : Kernel → ℕ → ℕ → Kernel
behind_last k it t = record k {
  threads = set_next_sleeper (set_next_sleeper k.threads it (pos t)) t none_id;
}

abbrev pub between : Kernel → ℕ → ℕ → ℕ → Kernel
between k prev t it = record k {
  threads = set_next_sleeper (set_next_sleeper k.threads t (pos it)) prev (pos t);
}

pub Slept-alone :
    {k : Kernel} (t at : ℕ) (s : Sleepers k [])
    → 0 < t
    → t < max_threads
    → Slept k t at [] (ok (alone (timed k t at) t))
Slept-alone {k} t at s pt lt = record {
  after = alone (timed k t at) t;
  returns = refl;
  sleepers =
      placed t at s pt lt tt (alone (timed k t at) t) [] [] refl (unfold insert_sleeper in refl)
        (refl, pt, ground arith) (λ x. ground arith);
  own_time = ground arith;
  same_entries = λ x. ground arith;
  same_head = refl;
  same_tail = refl;
  same_sleepq = refl;
  same_current = refl;
}

module _ {k : Kernel} (x : ℕ) (xs : List ℕ) (t at : ℕ) (s : Sleepers k (x ∷ xs)) (pt : 0 < t)
    (lt : t < max_threads) (new : NotIn t (x ∷ xs)) where
  timed_list : Sleepers (timed k t at) (x ∷ xs)
  timed_list = timed-Sleepers t at s pt lt new

  pub Slept-on_top :
      insert_sleeper (wakeup (timed k t at).threads) t at (x ∷ xs) ≡ t ∷ x ∷ xs
      → Slept k t at (x ∷ xs) (ok (on_top (timed k t at) t))
  Slept-on_top ins = record {
    after = on_top (timed k t at) t;
    returns = refl;
    sleepers =
        placed t at s pt lt new (on_top (timed k t at) t) [] (x ∷ xs) refl ins chain
          (λ y. ground arith);
    own_time = ground arith;
    same_entries = λ y. ground arith;
    same_head = refl;
    same_tail = refl;
    same_sleepq = refl;
    same_current = refl;
  }
    where
      chain : Chain (sleeper_links (on_top (timed k t at) t).threads) (pos t) (t ∷ x ∷ xs)
      chain = (
        refl,
        pt,
        subst (λ h. Chain (sleeper_links (on_top (timed k t at) t).threads) h (x ∷ xs))
            {x = k.next_sleeper} (ground arith)
            (Seg-agree (sleeper_links k.threads) (sleeper_links (on_top (timed k t at) t).threads)
              k.next_sleeper none_id (x ∷ xs) (All-map (x ∷ xs) (λ y ne. ground arith) new)
              s.chain),
      )

  pub Slept-last :
      insert_sleeper (wakeup (timed k t at).threads) t at (x ∷ xs) ≡ (x ∷ xs) ++ (t ∷ [])
      → Slept k t at (x ∷ xs) (ok (behind_last (timed k t at) (last x xs) t))
  Slept-last ins = record {
    after = behind_last (timed k t at) (last x xs) t;
    returns = refl;
    sleepers =
        placed t at s pt lt new (behind_last (timed k t at) (last x xs) t) (x ∷ xs) []
          (sym (append-nil (x ∷ xs))) ins chain (λ y. ground arith);
    own_time = ground arith;
    same_entries = λ y. ground arith;
    same_head = refl;
    same_tail = refl;
    same_sleepq = refl;
    same_current = refl;
  }
    where
      all : x ∷ xs ≡ x ∷ (xs ++ [])
      all = sym (append-nil (x ∷ xs))

      end : sleeper_links k.threads (last x xs) ≡ none_id
      end =
          Chain-rest (sleeper_links k.threads) k.next_sleeper x xs []
            (subst (Chain _ _) all s.chain)

      last_ne : t ≢ last x xs
      last_ne = NotIn-last t x xs new.0 new.1

      chain :
          Chain
            (sleeper_links (behind_last (timed k t at) (last x xs) t).threads)
            k.next_sleeper
            ((x ∷ xs) ++ (t ∷ []))
      chain =
          Chain-insert (sleeper_links k.threads) _ k.next_sleeper x xs [] t pt
            (λ y a b. ground arith) (ground (arith, last_ne)) (ground (arith, last_ne, end))
            (subst Distinct all s.distinct) (subst (NotIn t) all new)
            (subst (Chain _ _) all s.chain)

  pub Slept-between :
      (front : List ℕ) (y : ℕ) (rest : List ℕ)
      → xs ≡ front ++ (y ∷ rest)
      → insert_sleeper (wakeup (timed k t at).threads) t at (x ∷ xs) ≡ (x ∷ front) ++ (t ∷ y ∷ rest)
      → Slept k t at (x ∷ xs) (ok (between (timed k t at) (last x front) t y))
  Slept-between front y rest split ins = record {
    after = between (timed k t at) (last x front) t y;
    returns = refl;
    sleepers =
        placed t at s pt lt new (between (timed k t at) (last x front) t y) (x ∷ front) (y ∷ rest)
          (ap (◌∷◌ x) split) ins chain (λ z. ground arith);
    own_time = ground arith;
    same_entries = λ z. ground arith;
    same_head = refl;
    same_tail = refl;
    same_sleepq = refl;
    same_current = refl;
  }
    where
      all : x ∷ xs ≡ x ∷ (front ++ (y ∷ rest))
      all = ap (◌∷◌ x) split

      onward : sleeper_links k.threads (last x front) ≡ pos y
      onward =
          (Chain-rest (sleeper_links k.threads) k.next_sleeper x front (y ∷ rest)
            (subst (Chain _ _) all s.chain)).0

      last_ne : t ≢ last x front
      last_ne =
          NotIn-last t x front new.0
            (All-append_left _ front (y ∷ rest) (subst (NotIn t) split new.1))

      chain :
          Chain
            (sleeper_links (between (timed k t at) (last x front) t y).threads)
            k.next_sleeper
            ((x ∷ front) ++ (t ∷ y ∷ rest))
      chain =
          Chain-insert (sleeper_links k.threads) _ k.next_sleeper x front (y ∷ rest) t pt
            (λ z a b. ground arith) (ground (arith, last_ne)) (ground (arith, last_ne, onward))
            (subst Distinct all s.distinct) (subst (NotIn t) all new)
            (subst (Chain _ _) all s.chain)
