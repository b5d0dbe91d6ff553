-- ===== src/ServiceManager/LogText.antt =====
-- `str8` of binder/service_manager.c: a name of 16-bit units as the bytes of a string for a log line.
use linux_labs.Prelude.{
  ℕ, zero, suc, ◌+◌, ◌*◌, ◌%◌, ◌≤◌, ◌≡◌, refl, ◌∙◌, inl, inr, Option, none, some, List, ◌∷◌, arith,
  ◌==◌, if◌then◌else◌, length, Bool-cases,
}
use linux_labs.ServiceManager.{low_bytes, max_units}
use linux_labs.Memory.{Mem, load, load_units, load_units-Agree, poke, SameOutside}
use linux_labs.Memory.Copy.{bytes, Apart}
use mathlib.Core.Path.{ap₂, subst}

-- The loop over at most `max` units from `x` on, which writes from `p` on, and the NUL.
unfoldable pub copy_low : (max x p : ℕ) → Mem → Mem
copy_low zero x p m = poke p 0 m
copy_low (suc max) x p m =
    let rest = copy_low max (x + 2) (p + 1) (poke p (load 2 x m % 256) m) in
    if load 2 x m == 0 then poke p 0 m else rest

-- The static array `buf` of 128 bytes stands at `buf`; the result is its address.
unfoldable pub str8 : (buf : ℕ) → (x : Option ℕ) → (x_len : ℕ) → Mem → ℕ × Mem
str8 buf none x_len m = (buf, poke buf 0 m)
str8 buf (some x) x_len m = (buf, copy_low (max_units x_len) x buf m)

copy_low_outside : (max x p : ℕ) (m : Mem) → SameOutside p (max + 1) m (copy_low max x p m)
unfolding copy_low
copy_low_outside zero x p m a h = ground arith
copy_low_outside (suc max) x p m a h = elim (Bool-cases (load 2 x m == 0)) [
  | inl nul ↦ rw nul (ground arith)
  | inr unit ↦
      rw unit (ground (arith, copy_low_outside max (x + 2) (p + 1) (poke p (load 2 x m % 256) m) a))
]

-- A byte behind the units, or in front of them, is none of theirs.
load_units_behind :
    (max x p v : ℕ) (m : Mem)
    → Apart x (2 * suc max) p (suc max + 1)
    → load_units max (x + 2) (poke p v m) ≡ load_units max (x + 2) m
load_units_behind max x p v m apart =
    load_units-Agree max (x + 2) (poke p v m) m (λ a low high. ground arith)

copy_low-bytes :
    (max x p : ℕ) (m : Mem)
    → Apart x (2 * max) p (max + 1)
    → let s = low_bytes (load_units max x m) in bytes (length s) p (copy_low max x p m) ≡ s
unfolding copy_low low_bytes load_units bytes
copy_low-bytes zero x p m apart = ground arith
copy_low-bytes (suc max) x p m apart = elim (Bool-cases (load 2 x m == 0)) [
  | inl nul ↦ rw nul (ground arith)
  | inr unit ↦
      let v = load 2 x m % 256 in
      let m1 = poke p v m in
      let units = load_units_behind max x p v m apart in
      let s = low_bytes (load_units max (x + 2) m) in
      let same : copy_low max (x + 2) (p + 1) m1 p ≡ v =
        copy_low_outside max (x + 2) (p + 1) m1 p (inl (omega arith)) ∙ ground arith in
      rw unit (
        ap₂ (λ (y : ℕ) (ys : List ℕ). y ∷ ys) same
          (subst
            (λ us.
              bytes (length (low_bytes us)) (p + 1) (copy_low max (x + 2) (p + 1) m1)
              ≡ low_bytes us)
            units (copy_low-bytes max (x + 2) (p + 1) m1 (ground arith))))
]

-- The string is the low bytes of the units in front of the first NUL, of 127 units at most, with a NUL
-- behind them; only the array is written, where the units do not stand in it.
pub str8_lem :
    (buf x x_len : ℕ) (m : Mem)
    → Apart x (2 * x_len) buf 128
    → let s = low_bytes (load_units (max_units x_len) x m) in
      let (p, m1) = str8 buf (some x) x_len m in
      (p ≡ buf) × (bytes (length s) p m1 ≡ s) × SameOutside buf 128 m m1
unfolding str8
str8_lem buf x x_len m apart =
    let few : max_units x_len ≤ 127 = ground arith in
    let less : max_units x_len ≤ x_len = ground arith in
    (
      refl,
      copy_low-bytes (max_units x_len) x buf m (ground (arith, few, less)),
      λ a out. copy_low_outside (max_units x_len) x buf m a (ground (arith, few)),
    )
