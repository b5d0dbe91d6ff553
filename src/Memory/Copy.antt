-- ===== src/Memory/Copy.antt =====
-- `memcpy` of bytes, and what stands in a row of addresses: for the block devices of ramdisk-lab/.
use linux_labs.Prelude.{
  ℕ, zero, suc, ◌+◌, ◌-◌, ◌≤◌, ◌<◌, ◌≡◌, refl, ap, ◌∙◌, ◌⊎◌, ◌&&◌, List, [], ◌∷◌, ◌++◌, arith, ltb,
  leb, if◌then◌else◌, length,
}
use linux_labs.Memory.{Mem, Agree, SameOutside, ap₂}
use mathlib.Core.Path.{ap₂, subst}
use native.Mathlib.Nat.{add_assoc, zero-add, add-zero, suc-add}

-- Every byte is read before one is written.
unfoldable pub memcpy : (dst src n : ℕ) → Mem → Mem
memcpy dst src n m x = if leb dst x && ltb x (dst + n) then m (src + (x - dst)) else m x

unfoldable pub memset : (dst v n : ℕ) → Mem → Mem
memset dst v n m x = if leb dst x && ltb x (dst + n) then v else m x

-- The bytes that stand at `a`.
unfoldable pub bytes : (n a : ℕ) → Mem → List ℕ
bytes zero a m = []
bytes (suc n) a m = m a ∷ bytes n (a + 1) m

-- Two areas have no byte in common.
abbrev pub Apart : (a n b k : ℕ) → Type 0
Apart a n b k = (a + n ≤ b) ⊎ (b + k ≤ a)

pub memcpy_outside : (dst src n : ℕ) (m : Mem) → SameOutside dst n m (memcpy dst src n m)
unfolding memcpy
memcpy_outside dst src n m x h = ground arith

memcpy_at : (dst src n i : ℕ) (m : Mem) → i < n → memcpy dst src n m (dst + i) ≡ m (src + i)
unfolding memcpy
memcpy_at dst src n i m h = ground arith

pub bytes-Agree : (n a : ℕ) (m m' : Mem) → Agree a n m m' → bytes n a m ≡ bytes n a m'
unfolding bytes
bytes-Agree zero a m m' h = refl
bytes-Agree (suc n) a m m' h =
    ap₂ ◌∷◌ (h a (omega arith) (omega arith))
      (bytes-Agree n (a + 1) m m' (λ x p q. h x (omega arith) (omega arith)))

pub bytes-Apart :
    (n a b k : ℕ) (m m' : Mem) → Apart a n b k → SameOutside b k m m' → bytes n a m' ≡ bytes n a m
bytes-Apart n a b k m m' apart same = bytes-Agree n a m' m (λ x p q. same x (omega arith))

bytes-memcpy_from :
    (k i dst src n : ℕ) (m : Mem)
    → i + k ≤ n
    → bytes k (dst + i) (memcpy dst src n m) ≡ bytes k (src + i) m
unfolding bytes
bytes-memcpy_from zero i dst src n m h = refl
bytes-memcpy_from (suc k) i dst src n m h = ap₂ ◌∷◌ (memcpy_at dst src n i m (omega arith)) (
    rw (add_assoc dst i 1, add_assoc src i 1)
      (bytes-memcpy_from k (i + 1) dst src n m (omega arith)))

pub bytes-memcpy : (dst src n : ℕ) (m : Mem) → bytes n dst (memcpy dst src n m) ≡ bytes n src m
bytes-memcpy dst src n m =
    let e : (a : ℕ) → a + 0 ≡ a = λ a. omega arith in
    subst (λ a. bytes n a (memcpy dst src n m) ≡ bytes n src m) (e dst)
      (subst (λ a. bytes n (dst + 0) (memcpy dst src n m) ≡ bytes n a m) (e src)
        (bytes-memcpy_from n 0 dst src n m (omega arith)))

pub bytes-append : (n k a : ℕ) (m : Mem) → bytes (n + k) a m ≡ bytes n a m ++ bytes k (a + n) m
unfolding bytes
bytes-append zero k a m = rw (zero-add k, add-zero a)
bytes-append (suc n) k a m = rw (suc-add n k) (
    ap (λ xs. m a ∷ xs)
      (bytes-append n k (a + 1) m ∙ ap (λ b. bytes n (a + 1) m ++ bytes k b m) (omega arith)))

pub length-bytes : (n a : ℕ) (m : Mem) → length (bytes n a m) ≡ n
unfolding bytes
length-bytes zero a m = refl
length-bytes (suc n) a m = ap suc (length-bytes n (a + 1) m)
