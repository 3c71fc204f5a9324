-- ===== src/Vfs/Operations.antt =====
-- fs/vfs.c: how vfs_start_op and vfs_end_op meet around the work of a call.
use aalto_buenos.Prelude.{ℕ, ◌≡◌, refl, ◌∙◌, ap, true, arith}
use aalto_buenos.Prelude.Int.{ℤ, pos, incr, decr}
use aalto_buenos.Prelude.Outcomes.{Outcome, ret}
use aalto_buenos.Vfs.{Vfs, start_op, end_op, with_op, end_with}

decr-incr : (n : ℕ) → decr (incr (pos n)) ≡ pos n
decr-incr n = ground arith

module _ {ℓ} {D : Type ℓ} where
  -- The VFS can be used, and a natural number of calls is in progress.
  pub record IsUsable (v : Vfs D) : Type 0 where
    pub usable : v.usable ≡ true
    pub count : ℕ
    pub ops : v.ops ≡ pos count

  -- a call in progress
  abbrev pub started : Vfs D → Vfs D
  started v = record v { ops = incr v.ops }

  pub with_op_lem :
      (v : Vfs D) (op : Vfs D → Outcome (ℤ × Vfs D)) → IsUsable v → with_op v op ≡ op (started v)
  unfolding start_op
  with_op_lem v op u = simp (u.usable) refl

  pub end_with_lem :
      (v w : Vfs D) (code : ℤ)
      → IsUsable v
      → w.usable ≡ true
      → w.ops ≡ incr v.ops
      → end_with code w ≡ ret (code, record w { ops = v.ops })
  unfolding end_op
  end_with_lem v w code u us e =
      let d : decr w.ops ≡ pos u.count =
        ap decr e ∙ ap (λ o. decr (incr o)) u.ops ∙ decr-incr u.count in
      simp (d, us, u.ops) refl
