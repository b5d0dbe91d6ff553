-- ===== src/WaitQueue/Writes.antt =====
-- What a write to the device of waitqueue/waitqueue.c leaves in memory.
use linux_labs.Prelude.{
  ℕ, ◌+◌, ◌%◌, ◌≤◌, ◌≡◌, refl, ap, ◌∙◌, inl, inr, true, List, [], ◌∷◌, ◌++◌, arith, ltb, length,
  ◌^◌, length-append,
}
use linux_labs.Memory.{Mem, poke, SameOutside}
use linux_labs.Memory.Copy.{bytes, bytes-Apart, bytes-append}
use linux_labs.WaitQueue.{
  Globals, all_copied, not_all, put_bytes, write_locked, raise_flag, globalvar_write, len_max,
  int_mod, efault,
}
use mathlib.Core.Path.{ap₂}

pub put_bytes_outside :
    (a : ℕ) (xs : List ℕ) (m : Mem) → SameOutside a (length xs) m (put_bytes a xs m)
unfolding put_bytes
put_bytes_outside a [] m x h = refl
put_bytes_outside a (v ∷ xs) m x h = ground (arith, put_bytes_outside (a + 1) xs (poke a v m) x)

pub bytes-put_bytes : (a : ℕ) (xs : List ℕ) (m : Mem) → bytes (length xs) a (put_bytes a xs m) ≡ xs
unfolding bytes put_bytes
bytes-put_bytes a [] m = refl
bytes-put_bytes a (v ∷ xs) m =
    ap₂ ◌∷◌ (put_bytes_outside (a + 1) xs (poke a v m) a (inl (omega arith)) ∙ ground arith)
      (bytes-put_bytes (a + 1) xs (poke a v m))

-- What was there in front of a row of bytes stays, and the row stands behind it.
pub bytes-put_bytes_behind :
    (n a : ℕ) (xs : List ℕ) (m : Mem)
    → bytes (n + length xs) a (put_bytes (a + n) xs m) ≡ bytes n a m ++ xs
bytes-put_bytes_behind n a xs m =
    bytes-append n (length xs) a (put_bytes (a + n) xs m)
    ∙ ap₂ ◌++◌
        (bytes-Apart n a (a + n) (length xs) m (put_bytes (a + n) xs m) (inl (omega arith))
          (put_bytes_outside (a + n) xs m))
        (bytes-put_bytes (a + n) xs m)

put_bytes_last :
    (a : ℕ) (xs : List ℕ) (v : ℕ) (m : Mem) → put_bytes a (xs ++ v ∷ []) m (a + length xs) ≡ v
unfolding put_bytes
put_bytes_last a [] v m = ground arith
put_bytes_last a (x ∷ xs) v m =
    ap (put_bytes (a + 1) (xs ++ v ∷ []) (poke a x m)) (omega arith)
    ∙ put_bytes_last (a + 1) xs v (poke a x m)

pub write_locked-fits :
    (xs : List ℕ) (g : Globals)
    → g.write_index + length xs ≤ len_max
    → write_locked (all_copied xs) g ≡ (
      inl (length xs),
      record g {
        mem = put_bytes (g.global_var + g.write_index) xs g.mem;
        write_index = g.write_index + length xs;
      },
    )
unfolding write_locked
write_locked-fits xs g fits =
    let small : ltb g.write_index (2 ^ 31) ≡ true = ground arith in
    let in_int : (g.write_index + length xs) % int_mod ≡ g.write_index + length xs = omega arith in
    rw (small, in_int)

pub write_locked-fails :
    (xs : List ℕ) (g : Globals)
    → g.write_index + length xs ≤ len_max
    → write_locked (not_all xs) g
      ≡ (inr efault, record g { mem = put_bytes (g.global_var + g.write_index) xs g.mem })
unfolding write_locked
write_locked-fails xs g fits =
    let small : ltb g.write_index (2 ^ 31) ≡ true = ground arith in rw small

-- A write is stored and counted whatever its length: one that reaches beyond the end of `global_var`
-- changes the byte behind it that its last byte falls on, and returns its length.
pub globalvar_write_overrun :
    (xs : List ℕ) (v : ℕ) (g : Globals)
    → g.write_index ≤ len_max
    → len_max ≤ g.write_index + length xs
    → let (r, g1) = globalvar_write (all_copied (xs ++ v ∷ [])) g in
      let x = g.global_var + g.write_index + length xs in
      (r ≡ inl (length xs + 1)) × (g.global_var + len_max ≤ x) × (g1.mem x ≡ v)
unfolding globalvar_write write_locked raise_flag
globalvar_write_overrun xs v g in_array long =
    let small : ltb g.write_index (2 ^ 31) ≡ true = ground arith in
    rw small (
      ap inl (length-append xs (v ∷ [])),
      omega arith,
      put_bytes_last (g.global_var + g.write_index) xs v g.mem,
    )
