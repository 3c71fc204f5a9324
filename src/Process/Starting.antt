-- ===== src/Process/Starting.antt =====
-- process_start of proc/process.c: the row that it takes and the list of children that it joins.
use aalto_buenos.Prelude.{
  ℕ, ◌<◌, ◌≡◌, ◌≢◌, refl, sym, ap, ◌∙◌, List, ◌∷◌, Bool, true, false, if◌then◌else◌, not, arith,
  Option, none, some, ℕ_discrete,
}
use mathlib.Core.Path.{subst}
use aalto_buenos.Prelude.Int.{ℤ, pos, none_id, eq_ℤ}
use aalto_buenos.Threads.{update}
use aalto_buenos.Threads.Links.{NotIn, All-map}
use aalto_buenos.Process.{
  Proc, Table, max_processes, find_free, link_child, parent_id, claim_row, start,
}
use aalto_buenos.Process.Children.{
  Siblings, Siblings-agree, Children, next_of, IsFree, FreeOutcome, find_free-FreeOutcome,
  eq_ℤ-none_id,
}

-- The new process `i` of the thread `tid`: its own row, the list of children of its parent, and all
-- other rows.
pub record IsStarted (table t' : Table) (tid : ℤ) (parent : Option ℕ) (i : ℕ) : Type 0 where
  pub owner : (t' i).tid ≡ tid
  pub parent_of : (t' i).parent_pid ≡ parent_id parent
  pub unfinished : (t' i).retval ≡ none_id
  pub childless : parent ≢ some i → (t' i).last_child_pid ≡ none_id
  pub others : (j : ℕ) → j ≢ i → parent ≢ some j → t' j ≡ table j
  pub in_front :
      (p : ℕ)
      → parent ≡ some p
      → p ≢ i
      → ((t' p).last_child_pid ≡ pos i) × ((t' i).next ≡ (table p).last_child_pid)
  pub joins :
      (p : ℕ) (cs : List ℕ)
      → parent ≡ some p
      → p ≢ i
      → NotIn i cs
      → Children table p cs
      → Children t' p (i ∷ cs)

pub update_self : (table : Table) (i : ℕ) (p : Proc) → update table i p i ≡ p
update_self table i p = ground arith

pub update_ne : (table : Table) (i j : ℕ) (p : Proc) → i ≢ j → update table i p j ≡ table j
update_ne table i j p ne = ground (arith, ne)

-- with no parent
orphan-IsStarted :
    (table : Table) (tid : ℤ) (i : ℕ)
    → IsStarted table (link_child (claim_row table i tid none) i none) tid none i
unfolding link_child claim_row
orphan-IsStarted table tid i = record {
  owner = ap (λ (p : Proc). p.tid) (update_self table i _);
  parent_of = ap (λ (p : Proc). p.parent_pid) (update_self table i _);
  unfinished = ap (λ (p : Proc). p.retval) (update_self table i _);
  childless = λ ne. ap (λ (p : Proc). p.last_child_pid) (update_self table i _);
  others = λ j ne np. update_ne table i j _ (λ e. ne (sym e));
  in_front = λ p e. cc;
  joins = λ p cs e. cc;
}

-- with the parent `p`: the rows after each step of `link_child`
module _ (table : Table) (tid : ℤ) (i p : ℕ) (apart : p ≢ i) where
  claimed : Table
  claimed = claim_row table i tid (some p)

  claimed_self : claimed i ≡ record (table i) {
    tid = tid;
    parent_pid = pos p;
    next = none_id;
    last_child_pid = none_id;
    retval = none_id;
  }
  unfolding claimed claim_row
  claimed_self = update_self table i _

  claimed_ne : (j : ℕ) → j ≢ i → claimed j ≡ table j
  unfolding claimed claim_row
  claimed_ne j ne = update_ne table i j _ (λ e. ne (sym e))

  linked : Bool → Table
  linked b =
      if not b
      then update claimed i (record (claimed i) { next = (claimed p).last_child_pid })
      else claimed

  linked_ne : (b : Bool) (j : ℕ) → j ≢ i → linked b j ≡ table j
  unfolding linked
  linked_ne true j ne = claimed_ne j ne
  linked_ne false j ne = update_ne claimed i j _ (λ e. ne (sym e)) ∙ claimed_ne j ne

  linked_self :
      (b : Bool) → (linked b i).next ≡ (if not b then (table p).last_child_pid else none_id)
  unfolding linked
  linked_self true = ap (λ (r : Proc). r.next) claimed_self
  linked_self false =
      ap (λ (r : Proc). r.next) (update_self claimed i _)
      ∙ ap (λ (r : Proc). r.last_child_pid) (claimed_ne p apart)

  -- a field of the new row that the link leaves alone
  linked_field :
      (b : Bool)
      → ((linked b i).tid ≡ tid)
        × ((linked b i).parent_pid ≡ pos p)
        × ((linked b i).retval ≡ none_id)
        × ((linked b i).last_child_pid ≡ none_id)
  unfolding linked
  linked_field true = (
    ap (λ (r : Proc). r.tid) claimed_self,
    ap (λ (r : Proc). r.parent_pid) claimed_self,
    ap (λ (r : Proc). r.retval) claimed_self,
    ap (λ (r : Proc). r.last_child_pid) claimed_self,
  )
  linked_field false = (
    ap (λ (r : Proc). r.tid)
        (update_self claimed i _ ∙ λ k. record (claimed_self k) {
          next = (claimed p).last_child_pid;
        }),
    ap (λ (r : Proc). r.parent_pid)
        (update_self claimed i _ ∙ λ k. record (claimed_self k) {
          next = (claimed p).last_child_pid;
        }),
    ap (λ (r : Proc). r.retval)
        (update_self claimed i _ ∙ λ k. record (claimed_self k) {
          next = (claimed p).last_child_pid;
        }),
    ap (λ (r : Proc). r.last_child_pid)
        (update_self claimed i _ ∙ λ k. record (claimed_self k) {
          next = (claimed p).last_child_pid;
        }),
  )

  -- the table after `link_child`, where `b` tells whether the parent had no child
  adopted : Bool → Table
  adopted b = update (linked b) p (record (linked b p) { last_child_pid = pos i })

  adopted_ne : (b : Bool) (j : ℕ) → j ≢ p → adopted b j ≡ linked b j
  unfolding adopted
  adopted_ne b j ne = update_ne (linked b) p j _ (λ e. ne (sym e))

  adopted_self : (b : Bool) → adopted b p ≡ record (table p) { last_child_pid = pos i }
  unfolding adopted
  adopted_self b =
      update_self (linked b) p _ ∙ λ k. record (linked_ne b p apart k) { last_child_pid = pos i }

  adopted_next : (b : Bool) (j : ℕ) → j ≢ i → (adopted b j).next ≡ (table j).next
  adopted_next b j ne = elim (ℕ_discrete j p) [
    | yes e ↦
        subst (λ x. (adopted b x).next ≡ (table x).next) {x = p} (sym e)
          (ap (λ (r : Proc). r.next) (adopted_self b))
    | no other ↦ ap (λ (r : Proc). r.next) (adopted_ne b j other ∙ linked_ne b j ne)
  ]

  adopted-IsStarted :
      (b : Bool)
      → eq_ℤ (table p).last_child_pid none_id ≡ b
      → IsStarted table (adopted b) tid (some p) i
  adopted-IsStarted b e = record {
    owner = ap (λ (r : Proc). r.tid) row ∙ (linked_field b).0;
    parent_of = ap (λ (r : Proc). r.parent_pid) row ∙ (linked_field b).1;
    unfinished = ap (λ (r : Proc). r.retval) row ∙ (linked_field b).2;
    childless = λ ne. ap (λ (r : Proc). r.last_child_pid) row ∙ (linked_field b).3;
    others = λ j ne np. adopted_ne b j (λ e'. np (ap some (sym e'))) ∙ linked_ne b j ne;
    in_front = λ q e' ne. in_front q e';
    joins = λ q cs e' ne notin kids. joins q cs e' notin kids;
  }
    where
      row : adopted b i ≡ linked b i
      row = adopted_ne b i (λ e'. apart (sym e'))

      head :
          (b' : Bool)
          → eq_ℤ (table p).last_child_pid none_id ≡ b'
          → (if not b' then (table p).last_child_pid else none_id) ≡ (table p).last_child_pid
      head true e' = sym (eq_ℤ-none_id _ e')
      head false e' = refl

      next_sibling : (adopted b i).next ≡ (table p).last_child_pid
      next_sibling = ap (λ (r : Proc). r.next) row ∙ linked_self b ∙ head b e

      in_front :
          (q : ℕ)
          → some p ≡ some q
          → ((adopted b q).last_child_pid ≡ pos i) × ((adopted b i).next ≡ (table q).last_child_pid)
      in_front q e' =
          let same : p ≡ q = cc in
          subst
            (λ x.
              ((adopted b x).last_child_pid ≡ pos i)
              × ((adopted b i).next ≡ (table x).last_child_pid))
            same (ap (λ (r : Proc). r.last_child_pid) (adopted_self b), next_sibling)

      joins :
          (q : ℕ) (cs : List ℕ)
          → some p ≡ some q
          → NotIn i cs
          → Children table q cs
          → Children (adopted b) q (i ∷ cs)
      joins q cs e' notin kids =
          let same : p ≡ q = cc in
          subst (λ x. Children (adopted b) x (i ∷ cs)) same
            (
              ap (λ (r : Proc). r.last_child_pid) (adopted_self b),
              subst (λ h. Siblings (next_of (adopted b)) h cs) {x = (table p).last_child_pid}
                  (sym next_sibling)
                  (Siblings-agree (next_of table) (next_of (adopted b)) (table p).last_child_pid cs
                    (All-map cs (λ c ne. adopted_next b c (λ e''. ne (sym e''))) notin)
                    (subst (λ x. Children table x cs) {x = q} (sym same) kids)),
            )

pub child-IsStarted :
    (table : Table) (tid : ℤ) (i p : ℕ)
    → p ≢ i
    → IsStarted table (link_child (claim_row table i tid (some p)) i (some p)) tid (some p) i
unfolding link_child adopted linked claimed
child-IsStarted table tid i p apart =
    adopted-IsStarted table tid i p apart
      (eq_ℤ (claim_row table i tid (some p) p).last_child_pid none_id)
      (ap (λ (r : Proc). eq_ℤ r.last_child_pid none_id)
        (sym (claimed_ne table tid i p apart p apart)))

-- The ways in which the start of a process may end.
pub data StartOutcome (table : Table) (tid : ℤ) (parent : Option ℕ) (r : Option (ℕ × Table))
    : Type 0 where
  table_full :
      ((j : ℕ) → j < max_processes → ¬ IsFree (table j))
      → r ≡ none
      → StartOutcome table tid parent r
  started :
      (i : ℕ) (t' : Table)
      → i < max_processes
      → IsFree (table i)
      → ((j : ℕ) → j < i → ¬ IsFree (table j))
      → r ≡ some (i, t')
      → IsStarted table t' tid parent i
      → StartOutcome table tid parent r

-- With a parent whose row is not free, or no parent, the critical section of `process_start` finds
-- no free row and fails; or it takes the first free row for the thread, with its parent's number,
-- no return value and no child, changes no row but this one and the parent's, and puts the process
-- in front of its parent's list of children, provided the row is not in that list already.
pub start_lem :
    (table : Table) (tid : ℤ) (parent : Option ℕ)
    → ((p : ℕ) → parent ≡ some p → ¬ IsFree (table p))
    → StartOutcome table tid parent (start table tid parent)
unfolding start
start_lem table tid parent alive =
    go (find_free max_processes 0 table) (find_free-FreeOutcome max_processes 0 table) parent alive
  where
    go :
        (r : Option ℕ)
        → FreeOutcome max_processes 0 table r
        → (par : Option ℕ) → ((p : ℕ) → par ≡ some p → ¬ IsFree (table p))
        → StartOutcome table tid par (elim r [
          | none ↦ none
          | some i ↦ some (i, link_child (claim_row table i tid par) i par)
        ])
    go r (FreeOutcome.no_row e all) par al =
        rw e (table_full (λ j lt. all j (omega arith) (omega arith)) refl)
    go r (FreeOutcome.row i e lo hi free all) none al = rw e (
        started i _ (omega arith) free (λ j lt. all j (omega arith) lt) refl
          (orphan-IsStarted table tid i))
    go r (FreeOutcome.row i e lo hi free all) (some p) al = rw e (
        started i _ (omega arith) free (λ j lt. all j (omega arith) lt) refl
          (child-IsStarted table tid i p
            (λ same. al p refl (subst (λ x. IsFree (table x)) {x = i} (sym same) free))))
