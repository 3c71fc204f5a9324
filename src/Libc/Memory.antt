-- ===== src/Libc/Memory.antt =====
-- memcopy and memoryset of lib/libc.c against the memory they should leave.
use aalto_buenos.Prelude.{
  ℕ, zero, suc, ◌+◌, ◌-◌, ◌*◌, ◌/◌, ◌%◌, ◌≤◌, ◌≡◌, refl, ◌∙◌, ap, ◌⊎◌, inl, inr, arith, List, [],
  ◌∷◌, ◌++◌, if◌then◌else◌, ltb, leb, ◌==◌, ◌&&◌, dec_lt, ℕ_discrete, ◌||◌, not, Bool-cases,
}
use aalto_buenos.Libc.{Memory, store, copy_bytes, copy_word, copy_words, memcopy, memoryset}

-- `m` with the `n` bytes at `t` replaced by those that stand at `s`
abbrev pub moved : ℕ → ℕ → ℕ → Memory → Memory
moved n t s m = λ x. if leb t x && ltb x (t + n) then m (s + (x - t)) else m x

abbrev pub IsApart : ℕ → ℕ → ℕ → Type 0
IsApart n t s = (s + n ≤ t) ⊎ (t + n ≤ s)

IsApart-tail : (k n total t s : ℕ) → total ≡ k + n → IsApart total t s → IsApart n (t + k) (s + k)
IsApart-tail k n total t s e (inl h) = inl (omega arith)
IsApart-tail k n total t s e (inr h) = inr (omega arith)

IsApart-front : (k n total t s : ℕ) → total ≡ k + n → IsApart total t s → IsApart n t s
IsApart-front k n total t s e (inl h) = inl (omega arith)
IsApart-front k n total t s e (inr h) = inr (omega arith)

-- One more unit of `k` bytes in front of what a copy has moved.
moved-front :
    (k n total t s : ℕ) (m m' : Memory)
    → total ≡ k + n
    → IsApart total t s
    → ((x : ℕ) → m' x ≡ moved k t s m x)
    → (x : ℕ) → moved n (t + k) (s + k) m' x ≡ moved total t s m x
moved-front k n total t s m m' e apart one x = elim (dec_lt x (t + k)) [
  | yes lt ↦ ground (arith, one x, e)
  | no ge ↦ elim (dec_lt x (t + total)) [
    | yes inside ↦
        let y = s + k + (x - (t + k)) in
        let source : moved k t s m y ≡ m y = ground (arith, apart) in
        let same : y ≡ s + (x - t) = omega arith in ground (arith, e, one y, source, ap m same)
    | no out ↦ ground (arith, one x, e)
  ]
]

copy_bytes_lem :
    (n t s : ℕ) (m : Memory) → IsApart n t s → (x : ℕ) → copy_bytes n t s m x ≡ moved n t s m x
unfolding copy_bytes
copy_bytes_lem zero t s m apart x = ground arith
copy_bytes_lem (suc n) t s m apart x =
    copy_bytes_lem n (t + 1) (s + 1) (store m t (m s))
      (IsApart-tail 1 n (suc n) t s (omega arith) apart) x
    ∙ moved-front 1 n (suc n) t s m (store m t (m s)) (omega arith) apart one_byte x
  where
    one_byte : (y : ℕ) → store m t (m s) y ≡ moved 1 t s m y
    one_byte y = elim (ℕ_discrete y t) [
      | yes e ↦ let same : s + (y - t) ≡ s = omega (arith, e) in ground (arith, ap m same)
      | no ne ↦ ground (arith, ne)
    ]

copy_words_lem :
    (n t s : ℕ) (m : Memory)
    → IsApart (n * 4) t s
    → (x : ℕ) → copy_words n t s m x ≡ moved (n * 4) t s m x
unfolding copy_words copy_word
copy_words_lem zero t s m apart x = ground arith
copy_words_lem (suc n) t s m apart x =
    copy_words_lem n (t + 4) (s + 4) (copy_word t s m)
      (IsApart-tail 4 (n * 4) (suc n * 4) t s (omega arith) apart) x
    ∙ moved-front 4 (n * 4) (suc n * 4) t s m (copy_word t s m) (omega arith) apart (λ y. refl) x

-- For two regions that do not overlap, `memcopy` leaves in the target region the bytes that stood
-- in the source and changes no other byte of memory, whether it copies by words or by bytes.
pub memcopy_lem :
    (n t s : ℕ) (m : Memory) → IsApart n t s → (x : ℕ) → memcopy n t s m x ≡ moved n t s m x
unfolding memcopy
memcopy_lem n t s m apart x = elim (Bool-cases (not (t % 4 == 0) || not (s % 4 == 0))) [
  | inl e ↦ rw e (copy_bytes_lem n t s m apart x)
  | inr e ↦ rw e (
      copy_bytes_lem (n % 4) (t + n / 4 * 4) (s + n / 4 * 4) (copy_words (n / 4) t s m)
        (IsApart-tail (n / 4 * 4) (n % 4) n t s (omega arith) apart) x
      ∙ moved-front (n / 4 * 4) (n % 4) n t s m (copy_words (n / 4) t s m) (omega arith) apart
          (copy_words_lem (n / 4) t s m
            (IsApart-front (n % 4) (n / 4 * 4) n t s (omega arith) apart))
          x)
]

pub memoryset_lem :
    (n t v : ℕ) (m : Memory)
    → (x : ℕ) → memoryset t v n m x ≡ (if leb t x && ltb x (t + n) then v else m x)
unfolding memoryset
memoryset_lem zero t v m x = ground arith
memoryset_lem (suc n) t v m x = ground (arith, memoryset_lem n (t + 1) v (store m t v) x)

-- the `n` bytes from the address `a` on
abbrev pub segment : Memory → ℕ → ℕ → List ℕ
segment memory a zero = []
segment memory a (suc n) = memory a ∷ segment memory (a + 1) n

pub segment-append :
    (memory : Memory) (a n k : ℕ)
    → segment memory a n ++ segment memory (a + n) k ≡ segment memory a (n + k)
segment-append memory a zero k =
    let here : a + 0 ≡ a = omega arith in
    let there : 0 + k ≡ k = omega arith in rw (here, there) refl
segment-append memory a (suc n) k =
    let shift : a + suc n ≡ a + 1 + n = omega arith in
    let total : suc (n + k) ≡ suc n + k = omega arith in
    ap (λ x. memory a ∷ (segment memory (a + 1) n ++ segment memory x k)) shift
    ∙ ap (λ s. memory a ∷ s) (segment-append memory (a + 1) n k)
    ∙ ap (segment memory a) total
