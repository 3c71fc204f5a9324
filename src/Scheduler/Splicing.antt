-- ===== src/Scheduler/Splicing.antt =====
-- A thread spliced into the ready list behind one of its threads.
use aalto_buenos.Prelude.{ℕ, ◌<◌, ◌≡◌, ◌≢◌, refl, arith, List, ◌∷◌, ◌++◌}
use aalto_buenos.Prelude.Int.{ℤ, pos}
use aalto_buenos.Threads.{Kernel, set_next, max_threads}
use aalto_buenos.Threads.Links.{NotIn, NotIn-last, All-append_left, last}
use aalto_buenos.Threads.Splice.{Chain-insert, Distinct-insert, All-insert}
use aalto_buenos.Scheduler.Enqueue.{links, IsTail, ReadyList}

-- Only links change, and none of a thread that is neither in the list nor `t`.
pub record OnlyLinks (k k' : Kernel) (t : ℕ) (ts : List ℕ) : Type 0 where
  pub same_sleepq : k'.sleepq ≡ k.sleepq
  pub same_current : k'.current ≡ k.current
  pub same_next_sleeper : k'.next_sleeper ≡ k.next_sleeper
  pub same_fields : (x : ℕ) → k'.threads x ≡ record (k.threads x) { next = (k'.threads x).next }
  pub same_links : (x : ℕ) → x ≢ t → NotIn x ts → (k'.threads x).next ≡ (k.threads x).next

abbrev pub spliced : Kernel → ℕ → ℕ → ℤ → Kernel
spliced k curr t tail = record k {
  threads = set_next (set_next k.threads curr (pos t)) t (links k.threads curr);
  ready_tail = tail;
}

module _ {k : Kernel} (p : ℕ) (front rest : List ℕ) (r : ReadyList k (p ∷ (front ++ rest))) (t : ℕ)
    (pt : 0 < t) (lt : t < max_threads) (new : NotIn t (p ∷ (front ++ rest))) where
  pub curr_ne : t ≢ last p front
  curr_ne = NotIn-last t p front new.0 (All-append_left _ front rest new.1)

  pub spliced-ReadyList :
      (tail : ℤ)
      → IsTail tail (p ∷ (front ++ (t ∷ rest)))
      → ReadyList (spliced k (last p front) t tail) (p ∷ (front ++ (t ∷ rest)))
  spliced-ReadyList tail is_tail = record {
    chain =
        Chain-insert (links k.threads) _ k.ready_head p front rest t pt (λ x a b. ground arith)
          (ground (arith, curr_ne)) (ground (arith, curr_ne)) r.distinct new r.chain;
    tail = is_tail;
    distinct = Distinct-insert (p ∷ front) rest t r.distinct new;
    below = All-insert _ (p ∷ front) rest t lt r.below;
  }

  pub spliced-OnlyLinks :
      (tail : ℤ) → OnlyLinks k (spliced k (last p front) t tail) t (p ∷ (front ++ rest))
  spliced-OnlyLinks tail = record {
    same_sleepq = refl;
    same_current = refl;
    same_next_sleeper = refl;
    same_fields = λ x. ground arith;
    same_links =
        λ x ne out. ground (arith, NotIn-last x p front out.0 (All-append_left _ front rest out.1));
  }
