-- ===== src/Sleepq/WakeLoop.antt =====
-- `sleepq_wake_all`: the loop over the slot, a thread at a time.
use mathlib.Core.Path.{subst, fun_ext}
use aalto_buenos.Prelude.{
  ℕ, zero, suc, ◌+◌, ◌<◌, ◌≡◌, ◌≢◌, refl, sym, ap, ◌∙◌, arith, List, [], ◌∷◌, ◌++◌, append_assoc,
  true, false, if◌then◌else◌, ◌==◌, length, length-append, Result, ok,
}
use aalto_buenos.Prelude.Int.{ℤ, pos, none_id, is_positive}
use aalto_buenos.Threads.{Kernel, is_sleeping, max_threads, update}
use aalto_buenos.Threads.Links.{
  Chain, All, All-map, All-append, All-append_left, All-append_right, NotIn, Seg-positive,
  Chain-suffix, Chain-start,
}
use aalto_buenos.Threads.Splice.{NotIn-of_Distinct}
use aalto_buenos.Threads.Bounded.{length-le_of_Distinct}
use aalto_buenos.Scheduler.Enqueue.{links, is_high, enqueue}
use aalto_buenos.Sleepq.{hash, wake_all, wake_loop, find_waiter, wake_thread}
use aalto_buenos.Sleepq.Search.{last_or, Search, hit, miss, search_lem}
use aalto_buenos.Sleepq.Queues.{Slot, Queues, All-zip}
use aalto_buenos.Sleepq.Wake.{Woken, wake_thread_lem}
use aalto_buenos.Sleepq.WakeOne.{hash-lt}
use aalto_buenos.Sleepq.WakeAll.{
  WokenAll, finished, staying, readying, waits_for, sleeps, staying-append, readying-append,
  staying-agree, readying-agree, last_or-append, not_waiting,
}

loop_stops :
    (fuel : ℕ) (k : Kernel) (resource : ℕ) (prev : ℤ)
    → wake_loop (suc fuel) k resource prev none_id ≡ ok k
unfolding wake_loop
loop_stops fuel k resource prev = refl

loop_misses :
    (fuel : ℕ) (k : Kernel) (resource : ℕ) (prev prev' first : ℤ)
    → is_positive first ≡ true
    → find_waiter (max_threads + 1) k.threads resource prev first ≡ ok (prev', none_id)
    → wake_loop (suc fuel) k resource prev first ≡ ok k
unfolding wake_loop
loop_misses fuel k resource prev prev' first p f = rw (p, f)

loop_hits :
    (fuel : ℕ) (k k' : Kernel) (resource : ℕ) (prev prev' first : ℤ) (w : ℕ)
    → is_positive first ≡ true
    → 0 < w
    → find_waiter (max_threads + 1) k.threads resource prev first ≡ ok (prev', pos w)
    → wake_thread k (hash resource) prev' w ≡ ok k'
    → wake_loop (suc fuel) k resource prev first
      ≡ wake_loop fuel k' resource prev' (links k.threads w)
unfolding wake_loop
loop_hits fuel k k' resource prev prev' first w p pw f t =
    let e : is_positive (pos w) ≡ true = ground arith in rw (p, f, e, t)

-- A slot as it stands in the middle of the loop: `front` is behind, `rest` is to come.
record Position (k : Kernel) (ready_q : List ℕ) (waiting : ℕ → List ℕ) (resource : ℕ)
    (front rest : List ℕ) (first : ℤ) : Type 0 where
  q : Queues k ready_q waiting
  eq : waiting (hash resource) ≡ front ++ rest
  passed : All (λ t. (k.threads t).sleeps_on ≢ resource) front
  chain : Chain (links k.threads) first rest

module _ {k : Kernel} {ready_q : List ℕ} {waiting : ℕ → List ℕ} {resource : ℕ} {front rest : List ℕ}
    {first : ℤ} (p : Position k ready_q waiting resource front rest first) (f2 : List ℕ) (w : ℕ)
    (ls : List ℕ) (split : rest ≡ f2 ++ (w ∷ ls)) (waits : (k.threads w).sleeps_on ≡ resource)
    (others : All (λ t. (k.threads t).sleeps_on ≢ resource) f2) where
  at_w : waiting (hash resource) ≡ (front ++ f2) ++ (w ∷ ls)
  at_w = p.eq ∙ ap (◌++◌ front) split ∙ sym (append_assoc front f2 (w ∷ ls))

  here : Slot k.threads (k.sleepq (hash resource)) (hash resource) ((front ++ f2) ++ (w ∷ ls))
  here = rw (← at_w) (p.q.slots (hash resource) (hash-lt resource))

  w_out : NotIn w ((front ++ f2) ++ ls)
  w_out = NotIn-of_Distinct (front ++ f2) ls w here.distinct

  o : Woken p.q (hash resource) (front ++ f2) w ls (hash-lt resource) at_w
  o = wake_thread_lem p.q (hash resource) (front ++ f2) w ls (hash-lt resource) at_w

  ready_next : List ℕ
  ready_next = if sleeps k.threads w then enqueue (is_high k.threads) w ready_q else ready_q

  waiting_next : ℕ → List ℕ
  waiting_next = update waiting (hash resource) ((front ++ f2) ++ ls)

  next-Position :
      Position o.after ready_next waiting_next resource (front ++ f2) ls (links k.threads w)
  unfolding ready_next waiting_next
  next-Position = record {
    q = o.queued;
    eq = ground arith;
    passed =
        All-zip (front ++ f2) (λ x ne a. rw (o.others x ne).0 a)
          (All-append_left _ (front ++ f2) ls w_out) (All-append _ front f2 p.passed others);
    chain =
        Chain-start (links k.threads) (links o.after.threads) (links k.threads w) rest_after.0 ls
          rest_before.1.2 rest_after.1;
  }
    where
      rest_before : (m : ℤ) × Chain (links k.threads) m (w ∷ ls)
      rest_before =
          Chain-suffix (links k.threads) (k.sleepq (hash resource)) (front ++ f2) (w ∷ ls)
            here.chain

      slot_after :
          Slot o.after.threads
            (o.after.sleepq (hash resource))
            (hash resource)
            (waiting_next (hash resource))
      slot_after = o.queued.slots (hash resource) (hash-lt resource)

      same_list : waiting_next (hash resource) ≡ (front ++ f2) ++ ls
      same_list = ground arith

      rest_after : (m : ℤ) × Chain (links o.after.threads) m ls
      rest_after =
          Chain-suffix (links o.after.threads) (o.after.sleepq (hash resource)) (front ++ f2) ls
            (rw same_list at slot_after.chain)

  -- The threads to come are as they were.
  same_flags :
      All
        (λ t.
          (waits_for o.after.threads resource t ≡ waits_for k.threads resource t)
          × (sleeps o.after.threads t ≡ sleeps k.threads t))
        ls
  same_flags =
      All-map ls
        (λ x ne. (ap (λ n. n == resource) (o.others x ne).0, ap is_sleeping (o.others x ne).1))
        (All-append_right _ (front ++ f2) ls w_out)

  same_high : is_high o.after.threads ≡ is_high k.threads
  same_high = fun_ext λ x. ap (λ n. n == 0) (o.priorities x)

  f2_out : All (λ t. waits_for k.threads resource t ≡ false) f2
  f2_out = not_waiting k.threads resource f2 others

  w_in : waits_for k.threads resource w ≡ true
  w_in = ground arith

  same_staying :
      (front ++ f2) ++ staying (waits_for o.after.threads resource) ls
      ≡ front ++ staying (waits_for k.threads resource) rest
  same_staying =
      append_assoc front f2 _
      ∙ ap (λ l. front ++ (f2 ++ l))
          (staying-agree _ _ ls (All-map ls (λ x s. s.0) same_flags) ∙ sym head_goes)
      ∙ ap (◌++◌ front) (
          sym (staying-append (waits_for k.threads resource) f2 (w ∷ ls) f2_out)
          ∙ ap (staying (waits_for k.threads resource)) (sym split))
    where
      head_goes :
          staying (waits_for k.threads resource) (w ∷ ls)
          ≡ staying (waits_for k.threads resource) ls
      head_goes = unfold staying in rw w_in

  same_readying :
      readying
        (is_high o.after.threads)
        (sleeps o.after.threads)
        (waits_for o.after.threads resource)
        ls
        ready_next
      ≡ readying (is_high k.threads) (sleeps k.threads) (waits_for k.threads resource) rest ready_q
  unfolding ready_next
  same_readying =
      ap
        (λ h.
          readying h (sleeps o.after.threads) (waits_for o.after.threads resource) ls ready_next)
        same_high
      ∙ readying-agree (is_high k.threads) (sleeps k.threads) _ (waits_for k.threads resource) _ ls
          ready_next same_flags
      ∙ sym head_goes
      ∙ sym (
          readying-append (is_high k.threads) (sleeps k.threads) (waits_for k.threads resource) f2
            (w ∷ ls) ready_q f2_out)
      ∙ ap
          (λ l.
            readying (is_high k.threads) (sleeps k.threads) (waits_for k.threads resource) l
              ready_q)
          (sym split)
    where
      head_goes :
          readying
            (is_high k.threads)
            (sleeps k.threads)
            (waits_for k.threads resource)
            (w ∷ ls)
            ready_q
          ≡ readying
              (is_high k.threads)
              (sleeps k.threads)
              (waits_for k.threads resource)
              ls
              ready_next
      head_goes = unfold readying in rw (w_in, readying)

  merged :
      (r : Result Kernel)
      → WokenAll o.after ready_next waiting_next resource (front ++ f2) ls r
      → WokenAll k ready_q waiting resource front rest r
  merged r a = record {
    after = a.after;
    returns = a.returns;
    still = a.still;
    queued = subst (λ l. Queues a.after l a.still) same_readying a.queued;
    slot_list = a.slot_list ∙ same_staying;
    other_slots = λ h ne. a.other_slots h ne ∙ (unfold waiting_next in ground arith);
    none_left = a.none_left;
  }

-- What is to be proved of the loop with `fuel` rounds left.
abbrev LoopClaim : ℕ → Type 0
LoopClaim fuel =
    (k : Kernel) (ready_q : List ℕ) (waiting : ℕ → List ℕ) (resource : ℕ) (front rest : List ℕ)
    (first : ℤ)
    → length rest < fuel
    → Position k ready_q waiting resource front rest first
    → WokenAll k ready_q waiting resource front rest
        (wake_loop fuel k resource (last_or none_id front) first)

loop_round :
    (fuel : ℕ)
    → LoopClaim fuel
    → (k : Kernel) (ready_q : List ℕ) (waiting : ℕ → List ℕ) (resource : ℕ) (front : List ℕ) (t : ℕ)
      (ts : List ℕ) (first : ℤ)
    → length ts < fuel
    → Position k ready_q waiting resource front (t ∷ ts) first
    → WokenAll k ready_q waiting resource front
        (t ∷ ts)
        (wake_loop (suc fuel) k resource (last_or none_id front) first)
loop_round fuel rec k ready_q waiting resource front t ts first l p = found (
    search_lem k.threads resource (max_threads + 1) (last_or none_id front) first (t ∷ ts) short
      p.chain)
  where
    here : Slot k.threads (k.sleepq (hash resource)) (hash resource) (front ++ (t ∷ ts))
    here = rw (← p.eq) (p.q.slots (hash resource) (hash-lt resource))

    short : length (t ∷ ts) < max_threads + 1
    short = omega (
      arith,
      length-append front (t ∷ ts),
      length-le_of_Distinct max_threads (front ++ (t ∷ ts)) here.distinct here.below,
    )

    positive : is_positive first ≡ true
    positive = ground (arith, p.chain.0, p.chain.1)

    found :
        Search k.threads resource (max_threads + 1) (last_or none_id front) first (t ∷ ts)
        → WokenAll k ready_q waiting resource front
            (t ∷ ts)
            (wake_loop (suc fuel) k resource (last_or none_id front) first)
    found (miss a f) =
        finished p.q resource front (t ∷ ts) p.eq p.passed a
          (loop_misses fuel k resource (last_or none_id front) _ first positive f)
    found (hit f2 w ls split e a f) =
        let w_pos : 0 < w =
          (All-append_right _ f2 (w ∷ ls) (
            subst (All (λ x. 0 < x)) split
              (Seg-positive (links k.threads) first none_id (t ∷ ts) p.chain))).0 in
        let shorter : length ls < fuel =
          omega (arith, ap length split, length-append f2 (w ∷ ls)) in
        let step : wake_loop (suc fuel) k resource (last_or none_id front) first
            ≡ wake_loop fuel (o p f2 w ls split e a).after resource (last_or none_id (front ++ f2))
                (links k.threads w) =
          loop_hits fuel k (o p f2 w ls split e a).after resource (last_or none_id front)
            (last_or none_id (front ++ f2)) first w positive w_pos
            (f ∙ ap (λ d. ok (d, pos w)) (last_or-append none_id front f2))
            (o p f2 w ls split e a).returns in
        merged p f2 w ls split e a _ (
          subst (WokenAll _ _ _ resource (front ++ f2) ls) (sym step) (
            rec _ _ _ resource (front ++ f2) ls (links k.threads w) shorter
              (next-Position p f2 w ls split e a)))

loop_lem : (fuel : ℕ) → LoopClaim fuel
loop_lem zero k ready_q waiting resource front rest first l p = absurd (omega arith)
loop_lem (suc fuel) k ready_q waiting resource front [] first l p =
    finished p.q resource front [] p.eq p.passed tt (
      ap (wake_loop (suc fuel) k resource (last_or none_id front)) p.chain
      ∙ loop_stops fuel k resource (last_or none_id front))
loop_lem (suc fuel) k ready_q waiting resource front (t ∷ ts) first l p =
    loop_round fuel (loop_lem fuel) k ready_q waiting resource front t ts first (omega arith) p

-- With well-formed queues, `sleepq_wake_all` returns: the threads of the slot that wait for the
-- resource leave it and those of them that sleep join the ready list in order, the others of the
-- slot keep their order, and the queues are well formed.
pub wake_all_lem :
    {k : Kernel} {ready_q : List ℕ} {waiting : ℕ → List ℕ} (q : Queues k ready_q waiting)
    (resource : ℕ)
    → WokenAll k ready_q waiting resource [] (waiting (hash resource)) (wake_all k resource)
unfolding wake_all
wake_all_lem {k} {ready_q} {waiting} q resource =
    loop_lem (max_threads + 1) k ready_q waiting resource [] (waiting (hash resource))
      (k.sleepq (hash resource))
      (omega (
        arith,
        length-le_of_Distinct max_threads (waiting (hash resource)) here.distinct here.below,
      ))
      (record { q = q; eq = refl; passed = tt; chain = here.chain })
  where
    here : Slot k.threads (k.sleepq (hash resource)) (hash resource) (waiting (hash resource))
    here = q.slots (hash resource) (hash-lt resource)
