-- ===== src/Threads/Links.antt =====
-- Lists of threads linked through a field of the thread table: `next` is that field.
use aalto_buenos.Prelude.{ℕ, ◌<◌, ◌≡◌, ◌≢◌, refl, sym, List, [], ◌∷◌, ◌++◌}
use aalto_buenos.Prelude.Int.{ℤ, pos, none_id}

-- From `h` through the threads of the list, in order, to `e`. Thread 0 is in no list.
abbrev pub Seg : (ℕ → ℤ) → ℤ → List ℕ → ℤ → Type 0
Seg next h [] e = h ≡ e
Seg next h (t ∷ ts) e = (h ≡ pos t) × (0 < t) × Seg next (next t) ts e

-- A list that ends in -1.
abbrev pub Chain : (ℕ → ℤ) → ℤ → List ℕ → Type 0
Chain next h ts = Seg next h ts none_id

abbrev pub All {ℓ} : (ℕ → Type ℓ) → List ℕ → Type ℓ
All P [] = Unit
All P (t ∷ ts) = P t × All P ts

abbrev pub NotIn : ℕ → List ℕ → Type 0
NotIn i = All (λ t. i ≢ t)

abbrev pub Distinct : List ℕ → Type 0
Distinct [] = Unit
Distinct (t ∷ ts) = NotIn t ts × Distinct ts

-- The last of `p` and the list.
abbrev pub last : ℕ → List ℕ → ℕ
last p [] = p
last p (t ∷ ts) = last t ts

pub All-map {ℓ} : {P Q : ℕ → Type ℓ} (ts : List ℕ) → ((t : ℕ) → P t → Q t) → All P ts → All Q ts
All-map [] f a = tt
All-map (t ∷ ts) f a = (f t a.0, All-map ts f a.1)

pub All-append {ℓ} : (P : ℕ → Type ℓ) (xs ys : List ℕ) → All P xs → All P ys → All P (xs ++ ys)
All-append P [] ys a b = b
All-append P (x ∷ xs) ys a b = (a.0, All-append P xs ys a.1 b)

pub All-append_left {ℓ} : (P : ℕ → Type ℓ) (xs ys : List ℕ) → All P (xs ++ ys) → All P xs
All-append_left P [] ys a = tt
All-append_left P (x ∷ xs) ys a = (a.0, All-append_left P xs ys a.1)

pub All-append_right {ℓ} : (P : ℕ → Type ℓ) (xs ys : List ℕ) → All P (xs ++ ys) → All P ys
All-append_right P [] ys a = a
All-append_right P (x ∷ xs) ys a = All-append_right P xs ys a.1

pub NotIn-last : (i p : ℕ) (ts : List ℕ) → i ≢ p → NotIn i ts → i ≢ last p ts
NotIn-last i p [] ne a = ne
NotIn-last i p (t ∷ ts) ne a = NotIn-last i t ts a.0 a.1

pub Seg-append :
    (next : ℕ → ℤ) (h m e : ℤ) (xs ys : List ℕ)
    → Seg next h xs m
    → Seg next m ys e
    → Seg next h (xs ++ ys) e
Seg-append next h m e [] ys a b = rw a b
Seg-append next h m e (x ∷ xs) ys a b = (a.0, a.1, Seg-append next (next x) m e xs ys a.2 b)

-- A list sees only the links of its threads.
pub Seg-agree :
    (next next' : ℕ → ℤ) (h e : ℤ) (ts : List ℕ)
    → All (λ t. next' t ≡ next t) ts
    → Seg next h ts e
    → Seg next' h ts e
Seg-agree next next' h e [] a s = s
Seg-agree next next' h e (t ∷ ts) a s =
    (s.0, s.1, rw a.0 (Seg-agree next next' (next t) e ts a.1 s.2))

-- `next'` is `next` but at `i`.
abbrev pub OnlyAt : ℕ → (ℕ → ℤ) → (ℕ → ℤ) → Type 0
OnlyAt i next next' = (t : ℕ) → i ≢ t → next' t ≡ next t

pub Seg-frame :
    (next next' : ℕ → ℤ) (i : ℕ) (h e : ℤ) (ts : List ℕ)
    → OnlyAt i next next'
    → NotIn i ts
    → Seg next h ts e
    → Seg next' h ts e
Seg-frame next next' i h e ts only n s =
    Seg-agree next next' h e ts (All-map ts (λ t ne. only t ne) n) s

-- A write to the link of the last thread moves the end of the list.
pub Seg-redirect :
    (next next' : ℕ → ℤ) (h e e' : ℤ) (p : ℕ) (ps : List ℕ)
    → OnlyAt (last p ps) next next'
    → next' (last p ps) ≡ e'
    → Distinct (p ∷ ps)
    → Seg next h (p ∷ ps) e
    → Seg next' h (p ∷ ps) e'
Seg-redirect next next' h e e' p [] only w d s = (s.0, s.1, w)
Seg-redirect next next' h e e' p (q ∷ qs) only w d s = (
  s.0,
  s.1,
  rw (only p (λ eq. NotIn-last p q qs d.0.0 d.0.1 (sym eq)))
      (Seg-redirect next next' (next p) e e' q qs only w d.1 s.2),
)

pub last-append : (p y : ℕ) (xs ys : List ℕ) → last p (xs ++ (y ∷ ys)) ≡ last y ys
last-append p y [] ys = refl
last-append p y (x ∷ xs) ys = last-append x y xs ys

-- The link of the last thread of the front leads to the rest.
pub Chain-rest :
    (next : ℕ → ℤ) (h : ℤ) (p : ℕ) (ps rest : List ℕ)
    → Chain next h (p ∷ (ps ++ rest))
    → Chain next (next (last p ps)) rest
Chain-rest next h p [] rest c = c.2
Chain-rest next h p (q ∷ qs) rest c = Chain-rest next (next p) q qs rest c.2

pub Chain-head_empty : (next : ℕ → ℤ) (h : ℤ) → Chain next h [] → h ≡ none_id
Chain-head_empty next h c = c

pub All-last {ℓ} : (P : ℕ → Type ℓ) (p : ℕ) (ps : List ℕ) → All P (p ∷ ps) → P (last p ps)
All-last P p [] a = a.0
All-last P p (q ∷ qs) a = All-last P q qs a.1

pub Seg-positive : (next : ℕ → ℤ) (h e : ℤ) (ts : List ℕ) → Seg next h ts e → All (λ t. 0 < t) ts
Seg-positive next h e [] s = tt
Seg-positive next h e (t ∷ ts) s = (s.1, Seg-positive next (next t) e ts s.2)

pub Chain-suffix :
    (next : ℕ → ℤ) (h : ℤ) (xs ys : List ℕ) → Chain next h (xs ++ ys) → (m : ℤ) × Chain next m ys
Chain-suffix next h [] ys c = (h, c)
Chain-suffix next h (x ∷ xs) ys c = Chain-suffix next (next x) xs ys c.2

-- Where a list starts does not depend on the links.
pub Chain-start :
    (next next' : ℕ → ℤ) (h m : ℤ) (ts : List ℕ)
    → Chain next h ts
    → Chain next' m ts
    → Chain next' h ts
Chain-start next next' h m [] a b = a
Chain-start next next' h m (t ∷ ts) a b = (a.0, b.1, b.2)
