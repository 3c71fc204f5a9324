-- ===== src/Threads/Splice.antt =====
-- Putting a thread into a linked list behind a given one, and taking one out.
use aalto_buenos.Prelude.{ℕ, ◌<◌, ◌≡◌, ◌≢◌, sym, List, [], ◌∷◌, ◌++◌}
use aalto_buenos.Prelude.Int.{ℤ, pos, none_id}
use aalto_buenos.Threads.Links.{
  Chain, All, All-append, All-append_left, All-append_right, NotIn, NotIn-last, Distinct, last,
  Seg-agree,
}

-- `next'` is `next` but at `i` and at `j`.
abbrev pub OnlyAt₂ : ℕ → ℕ → (ℕ → ℤ) → (ℕ → ℤ) → Type 0
OnlyAt₂ i j next next' = (t : ℕ) → i ≢ t → j ≢ t → next' t ≡ next t

NotIn-map₂ :
    (next next' : ℕ → ℤ) (i j : ℕ) (ts : List ℕ)
    → OnlyAt₂ i j next next'
    → NotIn i ts
    → NotIn j ts
    → All (λ t. next' t ≡ next t) ts
NotIn-map₂ next next' i j [] only a b = tt
NotIn-map₂ next next' i j (t ∷ ts) only a b =
    (only t a.0 b.0, NotIn-map₂ next next' i j ts only a.1 b.1)

pub Chain-insert :
    (next next' : ℕ → ℤ) (h : ℤ) (p : ℕ) (ps ls : List ℕ) (t : ℕ)
    → 0 < t
    → OnlyAt₂ (last p ps) t next next'
    → next' (last p ps) ≡ pos t
    → next' t ≡ next (last p ps)
    → Distinct (p ∷ ps ++ ls)
    → NotIn t (p ∷ ps ++ ls)
    → Chain next h (p ∷ ps ++ ls)
    → Chain next' h (p ∷ ps ++ (t ∷ ls))
Chain-insert next next' h p [] ls t pt only at_p at_t d n c = (
  c.0,
  c.1,
  (
    at_p,
    pt,
    rw at_t
        (Seg-agree next next' (next p) none_id ls (NotIn-map₂ next next' p t ls only d.0 n.1) c.2),
  ),
)
Chain-insert next next' h p (q ∷ qs) ls t pt only at_p at_t d n c = (
  c.0,
  c.1,
  rw (only p (λ e. NotIn-last p q qs d.0.0 (All-append_left _ qs ls d.0.1) (sym e)) n.0)
      (Chain-insert next next' (next p) q qs ls t pt only at_p at_t d.1 n.1 c.2),
)

-- Both the link that leads to `w` and the link of `w` may change.
pub Chain-remove :
    (next next' : ℕ → ℤ) (h : ℤ) (p : ℕ) (ps ls : List ℕ) (w : ℕ)
    → OnlyAt₂ (last p ps) w next next'
    → next' (last p ps) ≡ next w
    → Distinct (p ∷ ps ++ (w ∷ ls))
    → Chain next h (p ∷ ps ++ (w ∷ ls))
    → Chain next' h (p ∷ ps ++ ls)
Chain-remove next next' h p [] ls w only at_p d c = (
  c.0,
  c.1,
  rw at_p (
      Seg-agree next next' (next w) none_id ls (NotIn-map₂ next next' p w ls only d.0.1 d.1.0)
        c.2.2),
)
Chain-remove next next' h p (q ∷ qs) ls w only at_p d c = (
  c.0,
  c.1,
  rw
      (only p (λ e. NotIn-last p q qs d.0.0 (All-append_left _ qs (w ∷ ls) d.0.1) (sym e))
        (λ e. (All-append_right _ qs (w ∷ ls) d.0.1).0 (sym e)))
      (Chain-remove next next' (next p) q qs ls w only at_p d.1 c.2),
)

pub Distinct-insert :
    (xs ys : List ℕ) (t : ℕ) → Distinct (xs ++ ys) → NotIn t (xs ++ ys) → Distinct (xs ++ (t ∷ ys))
Distinct-insert [] ys t d n = (n, d)
Distinct-insert (x ∷ xs) ys t d n = (
  All-append _ xs (t ∷ ys) (All-append_left _ xs ys d.0)
      ((λ e. n.0 (sym e)), All-append_right _ xs ys d.0),
  Distinct-insert xs ys t d.1 n.1,
)

pub Distinct-remove : (xs ys : List ℕ) (w : ℕ) → Distinct (xs ++ (w ∷ ys)) → Distinct (xs ++ ys)
Distinct-remove [] ys w d = d.1
Distinct-remove (x ∷ xs) ys w d = (
  All-append _ xs ys (All-append_left _ xs (w ∷ ys) d.0) (All-append_right _ xs (w ∷ ys) d.0).1,
  Distinct-remove xs ys w d.1,
)

pub All-insert {ℓ} :
    (P : ℕ → Type ℓ) (xs ys : List ℕ) (t : ℕ) → P t → All P (xs ++ ys) → All P (xs ++ (t ∷ ys))
All-insert P xs ys t h a =
    All-append P xs (t ∷ ys) (All-append_left P xs ys a) (h, All-append_right P xs ys a)

pub All-remove {ℓ} :
    (P : ℕ → Type ℓ) (xs ys : List ℕ) (w : ℕ) → All P (xs ++ (w ∷ ys)) → All P (xs ++ ys)
All-remove P xs ys w a =
    All-append P xs ys (All-append_left P xs (w ∷ ys) a) (All-append_right P xs (w ∷ ys) a).1

pub NotIn-of_Distinct : (xs ys : List ℕ) (w : ℕ) → Distinct (xs ++ (w ∷ ys)) → NotIn w (xs ++ ys)
NotIn-of_Distinct [] ys w d = d.0
NotIn-of_Distinct (x ∷ xs) ys w d =
    ((λ e. (All-append_right _ xs (w ∷ ys) d.0).0 (sym e)), NotIn-of_Distinct xs ys w d.1)
