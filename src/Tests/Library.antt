-- ===== src/Tests/Library.antt =====
-- lib/libc.c and lib/xprintf.c on short texts.
use aalto_buenos.Prelude.{length, ℕ, ◌≡◌, ◌≢◌, List, [], ◌∷◌, some, inl, arith, ◌+◌, ◌-◌}
use aalto_buenos.Prelude.Int.{pos}
use aalto_buenos.Libc.{stringcopy, Memory, memcopy, atoi}
use aalto_buenos.Libc.Strings.{stringcopy_lem}
use aalto_buenos.Libc.Memory.{memcopy_lem, moved}
use aalto_buenos.Xprintf.{done, hang, number, text, snprintf}
use aalto_buenos.Xprintf.Decimal.{snprintf-atoi}
use aalto_buenos.Xprintf.Termination.{snprintf-ends}

-- "bin" into a buffer that held sevens
stringcopy_example :
    stringcopy (7 ∷ 7 ∷ 7 ∷ 7 ∷ 7 ∷ 7 ∷ []) (98 ∷ 105 ∷ 110 ∷ 0 ∷ []) 6
    ≡ some (98 ∷ 105 ∷ 110 ∷ 0 ∷ 7 ∷ 7 ∷ [])
stringcopy_example =
    stringcopy_lem (7 ∷ 7 ∷ 7 ∷ 7 ∷ 7 ∷ 7 ∷ []) (98 ∷ 105 ∷ 110 ∷ []) [] 6 (omega arith)
      (omega arith) (omega arith)

-- bytes that tell their own address
abbrev numbered : Memory
numbered a = a + 1

memcopy_example : memcopy 7 100 40 numbered 105 ≡ moved 7 100 40 numbered 105
memcopy_example = memcopy_lem 7 100 40 numbered (inl (omega arith)) 105

-- "%d" of -7
snprintf-atoi_example :
    (shown : List ℕ) × (snprintf 20 (37 ∷ 100 ∷ 0 ∷ []) (number 4294967289 ∷ []) 3
      ≡ done (shown, pos (length shown - 1)))
    × (atoi shown ≡ some 4294967289)
snprintf-atoi_example = snprintf-atoi 20 4294967289 0 [] [] (omega arith) (omega arith)

-- "%5s!"
snprintf-ends_example :
    snprintf 30 (37 ∷ 53 ∷ 115 ∷ 33 ∷ 0 ∷ []) (text (104 ∷ 105 ∷ 0 ∷ []) ∷ []) 9 ≢ hang
snprintf-ends_example =
    snprintf-ends 30 9 (37 ∷ 53 ∷ 115 ∷ 33 ∷ 0 ∷ []) (text (104 ∷ 105 ∷ 0 ∷ []) ∷ []) (omega arith)
      (omega arith)
