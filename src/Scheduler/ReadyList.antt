-- ===== src/Scheduler/ReadyList.antt =====
-- `scheduler_add_to_ready_list`, against a list of thread numbers.
use mathlib.Core.Path.{subst}
use aalto_buenos.Prelude.{
  ℕ, ◌<◌, ◌≡◌, refl, sym, ap, ◌∙◌, arith, List, [], ◌∷◌, ◌++◌, append-nil, Bool, true, false,
  if◌then◌else◌, ok, Bool-cases, inl, inr,
}
use aalto_buenos.Prelude.Int.{ℤ, pos, none_id, is_negative, eq_ℤ}
use aalto_buenos.Threads.{Kernel, set_next, max_threads}
use aalto_buenos.Threads.Links.{Seg-frame, NotIn, last, last-append, Chain-rest}
use aalto_buenos.Threads.Bounded.{length-le_of_Distinct}
use aalto_buenos.Scheduler.{last_high, link_ready, add_to_ready_list}
use aalto_buenos.Scheduler.Enqueue.{
  links, is_high, IsTail, ReadyList, insert_high, enqueue, HighEnd, last_high-HighEnd,
}
use aalto_buenos.Scheduler.Splicing.{OnlyLinks, spliced, spliced-ReadyList, spliced-OnlyLinks}

-- What adding thread `t` to the ready list `ts` comes to.
pub record Added (k : Kernel) (t : ℕ) (ts : List ℕ) : Type 0 where
  pub after : Kernel
  pub returns : add_to_ready_list k (pos t) ≡ ok after
  pub queued : ReadyList after (enqueue (is_high k.threads) t ts)
  pub frame : OnlyLinks k after t ts

asserted :
    (k k' : Kernel) (t : ℕ)
    → 0 < t
    → t < max_threads
    → link_ready k t ≡ ok k'
    → add_to_ready_list k (pos t) ≡ ok k'
unfolding add_to_ready_list
asserted k k' t pt lt e = ground arith

alone : (high : ℕ → Bool) (t : ℕ) → enqueue high t [] ≡ t ∷ []
unfolding enqueue insert_high
alone high t = ground arith

-- The list is empty.
added_first : {k : Kernel} (t : ℕ) → ReadyList k [] → 0 < t → t < max_threads → Added k t []
unfolding link_ready
added_first {k} t r pt lt = record {
  after = record k {
    ready_head = pos t;
    ready_tail = pos t;
    threads = set_next k.threads t none_id;
  };
  returns = asserted k _ t pt lt (rw (r.tail, link_ready));
  queued = rw (alone (is_high k.threads) t) (record {
    chain = (refl, pt, ground arith);
    tail = refl;
    distinct = (tt, tt);
    below = (lt, tt);
  });
  frame = record {
    same_sleepq = refl;
    same_current = refl;
    same_next_sleeper = refl;
    same_fields = λ x. ground arith;
    same_links = λ x ne out. ground arith;
  };
}

link_ready_last :
    (k : Kernel) (t c : ℕ)
    → k.ready_tail ≡ pos c
    → is_high k.threads t ≡ false
    → links k.threads c ≡ none_id
    → link_ready k t ≡ ok (spliced k c t (pos t))
unfolding link_ready
link_ready_last k t c tail low end = ground arith

-- Where the new tail is: `t` if it is put behind the last thread, else where it was.
abbrev tail_after : Kernel → ℕ → ℕ → ℤ
tail_after k c t = if eq_ℤ (links k.threads c) none_id then pos t else k.ready_tail

link_ready_high :
    (k : Kernel) (t p c : ℕ)
    → k.ready_head ≡ pos p
    → is_negative k.ready_tail ≡ false
    → is_high k.threads t ≡ true
    → is_high k.threads p ≡ true
    → last_high max_threads k.threads p ≡ ok c
    → link_ready k t ≡ ok (spliced k c t (tail_after k c t))
unfolding link_ready
link_ready_high k t p c head tail ht hp walk = rw (tail, ht) (ground arith)

link_ready_front :
    (k : Kernel) (t p : ℕ)
    → k.ready_head ≡ pos p
    → is_negative k.ready_tail ≡ false
    → is_high k.threads t ≡ true
    → is_high k.threads p ≡ false
    → link_ready k t ≡ ok (record k { threads = set_next k.threads t (pos p); ready_head = pos t })
unfolding link_ready
link_ready_front k t p head tail ht hp = ground arith

module _ {k : Kernel} (p : ℕ) (ps : List ℕ) (r : ReadyList k (p ∷ ps)) (t : ℕ) (pt : 0 < t)
    (lt : t < max_threads) (new : NotIn t (p ∷ ps)) where
  -- A thread of normal priority goes to the end.
  added_last : is_high k.threads t ≡ false → Added k t (p ∷ ps)
  added_last low = record {
    after = spliced k (last p ps) t (pos t);
    returns = asserted k _ t pt lt linked;
    queued =
        rw at_end (
          spliced-ReadyList p ps [] r' t pt lt new' (pos t) (sym (ap pos (last-append p t ps []))));
    frame =
        rw (sym (ap (◌∷◌ p) (append-nil ps))) (spliced-OnlyLinks p ps [] r' t pt lt new' (pos t));
  }
    where
      r' : ReadyList k (p ∷ (ps ++ []))
      r' = rw (append-nil) r

      new' : NotIn t (p ∷ (ps ++ []))
      new' = rw (append-nil) new

      at_end : enqueue (is_high k.threads) t (p ∷ ps) ≡ p ∷ (ps ++ (t ∷ []))
      at_end = unfold enqueue in rw low

      linked : link_ready k t ≡ ok (spliced k (last p ps) t (pos t))
      linked =
          link_ready_last k t (last p ps) r.tail low
            (Chain-rest (links k.threads) k.ready_head p ps [] r'.chain)

  -- Before a list that begins with a thread of normal priority.
  added_front : is_high k.threads t ≡ true → is_high k.threads p ≡ false → Added k t (p ∷ ps)
  added_front ht hp = record {
    after = record k { threads = set_next k.threads t (pos p); ready_head = pos t };
    returns = asserted k _ t pt lt (link_ready_front k t p r.chain.0 (rw (r.tail)) ht hp);
    queued = rw at_front (record {
      chain = (
        refl,
        pt,
        rw (linked_t) (
            Seg-frame (links k.threads) (links (set_next k.threads t (pos p))) t (pos p) none_id
              (p ∷ ps) (λ x ne. ground arith) new (refl, r.chain.1, r.chain.2)),
      );
      tail = r.tail;
      distinct = (new, r.distinct);
      below = (lt, r.below);
    });
    frame = record {
      same_sleepq = refl;
      same_current = refl;
      same_next_sleeper = refl;
      same_fields = λ x. ground arith;
      same_links = λ x ne out. ground arith;
    };
  }
    where
      linked_t : links (set_next k.threads t (pos p)) t ≡ pos p
      linked_t = ground arith

      at_front : enqueue (is_high k.threads) t (p ∷ ps) ≡ t ∷ p ∷ ps
      at_front = unfold enqueue insert_high in rw (ht, hp)

  -- Behind the threads of high priority at the front.
  added_high : is_high k.threads t ≡ true → is_high k.threads p ≡ true → Added k t (p ∷ ps)
  added_high ht hp = record {
    after = spliced k (last p w.front) t (tail_after k (last p w.front) t);
    returns =
        asserted k _ t pt lt
          (link_ready_high k t p (last p w.front) r.chain.0 (rw (r.tail)) ht hp w.found);
    queued = rw behind (spliced-ReadyList p w.front w.rest r' t pt lt new' _ (is_tail w.rest r'));
    frame =
        subst (OnlyLinks k _ t) (ap (◌∷◌ p) (sym w.split))
          (spliced-OnlyLinks p w.front w.rest r' t pt lt new' _);
  }
    where
      w : HighEnd k.threads max_threads p ps
      w =
          last_high-HighEnd k.threads max_threads p ps
            (omega (arith, length-le_of_Distinct max_threads (p ∷ ps) r.distinct r.below)) r.chain.2

      r' : ReadyList k (p ∷ (w.front ++ w.rest))
      r' = rw (← w.split) r

      new' : NotIn t (p ∷ (w.front ++ w.rest))
      new' = rw (← w.split) new

      behind : enqueue (is_high k.threads) t (p ∷ ps) ≡ p ∷ (w.front ++ (t ∷ w.rest))
      behind = unfold enqueue insert_high in rw (ht, hp, w.place t)

      is_tail :
          (rest : List ℕ)
          → ReadyList k (p ∷ (w.front ++ rest))
          → IsTail (tail_after k (last p w.front) t) (p ∷ (w.front ++ (t ∷ rest)))
      is_tail [] q = rw (
        last-append p t w.front [],
        Chain-rest (links k.threads) k.ready_head p w.front [] q.chain,
      )
      is_tail (y ∷ ys) q =
          rw
            (
              last-append p t w.front (y ∷ ys),
              (Chain-rest (links k.threads) k.ready_head p w.front (y ∷ ys) q.chain).0,
            )
            (q.tail ∙ ap pos (last-append p y w.front ys))

-- `scheduler_add_to_ready_list` on a well-formed ready list and a thread of the table that is not
-- the idle thread and not in the list returns: the new list is the old one with the thread behind
-- the leading threads of high priority if its priority is high, and at the end otherwise, and only
-- links change.
pub add_to_ready_list_lem :
    (k : Kernel) (t : ℕ) (ts : List ℕ)
    → ReadyList k ts
    → 0 < t
    → t < max_threads
    → NotIn t ts
    → Added k t ts
add_to_ready_list_lem k t [] r pt lt new = added_first t r pt lt
add_to_ready_list_lem k t (p ∷ ps) r pt lt new = elim (Bool-cases (is_high k.threads t)) [
  | inl ht ↦ elim (Bool-cases (is_high k.threads p)) [
    | inl hp ↦ added_high p ps r t pt lt new ht hp
    | inr hp ↦ added_front p ps r t pt lt new ht hp
  ]
  | inr low ↦ added_last p ps r t pt lt new low
]
