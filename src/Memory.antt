-- ===== src/Memory.antt =====
-- Byte-addressed memory, as the C code of binder/ sees it: little-endian words of `k` bytes and
-- arrays of 16-bit units. Addresses do not wrap.
pub mod Copy
use mathlib.Core.Path.{ap₂}
use native.Mathlib.Nat.{pow-succ'}
use linux_labs.Prelude.{
  ℕ, zero, suc, ◌+◌, ◌*◌, ◌/◌, ◌%◌, ◌^◌, ◌≤◌, ◌<◌, ◌≡◌, refl, ap, ◌∙◌, ◌⊎◌, inl, true, List, [],
  ◌∷◌, arith, ◌==◌, if◌then◌else◌, length,
}

abbrev pub Mem : Type 0
Mem = ℕ → ℕ

abbrev pub poke : ℕ → ℕ → Mem → Mem
poke a v m x = if a == x then v else m x

-- A load of `k` bytes at `a`, and a store of the low `k` bytes of `n`.
unfoldable pub load : ℕ → ℕ → Mem → ℕ
load zero a m = 0
load (suc k) a m = m a % 256 + 256 * load k (a + 1) m

unfoldable pub store : ℕ → ℕ → ℕ → Mem → Mem
store zero a n m = m
store (suc k) a n m = store k (a + 1) (n / 256) (poke a (n % 256) m)

-- `memcpy` of 16-bit units to and from memory.
unfoldable pub load_units : ℕ → ℕ → Mem → List ℕ
load_units zero a m = []
load_units (suc n) a m = load 2 a m ∷ load_units n (a + 2) m

unfoldable pub store_units : ℕ → List ℕ → Mem → Mem
store_units a [] m = m
store_units a (x ∷ xs) m = store_units (a + 2) xs (store 2 a x m)

-- Two memories agree on the `k` bytes from `a`.
abbrev pub Agree : ℕ → ℕ → Mem → Mem → Type 0
Agree a k m m' = (x : ℕ) → a ≤ x → x < a + k → m x ≡ m' x

-- A memory is changed on the `k` bytes from `a` at most.
abbrev pub SameOutside : ℕ → ℕ → Mem → Mem → Type 0
SameOutside a k m m' = (x : ℕ) → (x < a) ⊎ (a + k ≤ x) → m' x ≡ m x

pub store_outside : (k a n : ℕ) (m : Mem) → SameOutside a k m (store k a n m)
unfolding store
store_outside zero a n m x h = refl
store_outside (suc k) a n m x h =
    ground (arith, store_outside k (a + 1) (n / 256) (poke a (n % 256) m) x)

pub load-Agree : (k a : ℕ) (m m' : Mem) → Agree a k m m' → load k a m ≡ load k a m'
unfolding load
load-Agree zero a m m' h = refl
load-Agree (suc k) a m m' h = omega (
  arith,
  h a (omega arith) (omega arith),
  load-Agree k (a + 1) m m' (λ x p q. h x (omega arith) (omega arith)),
)

pub load-lt : (k a : ℕ) (m : Mem) → load k a m < 256 ^ k
unfolding load
load-lt zero a m = omega arith
load-lt (suc k) a m = omega (arith, load-lt k (a + 1) m, pow-succ' 256 k)

pub load-store : (k a n : ℕ) (m : Mem) → n < 256 ^ k → load k a (store k a n m) ≡ n
unfolding load store
load-store zero a n m h = omega arith
load-store (suc k) a n m h =
    let here = store_outside k (a + 1) (n / 256) (poke a (n % 256) m) a (inl (omega arith)) in
    let there : a == a ≡ true = ground arith in
    let rest =
      load-store k (a + 1) (n / 256) (poke a (n % 256) m) (omega (arith, pow-succ' 256 k)) in
    rw (here, there, rest) (omega arith)

-- A store that does not meet the loaded bytes is not seen.
pub load-store_disjoint :
    (k a j b n : ℕ) (m : Mem) → (a + k ≤ b) ⊎ (b + j ≤ a) → load k a (store j b n m) ≡ load k a m
load-store_disjoint k a j b n m h =
    load-Agree k a (store j b n m) m (λ x p q. store_outside j b n m x (ground arith))

-- Every unit is a `uint16_t`.
abbrev pub AreUnits : List ℕ → Type 0
AreUnits [] = Unit {0}
AreUnits (x ∷ xs) = (x < 65536) × AreUnits xs

pub store_units_outside :
    (a : ℕ) (xs : List ℕ) (m : Mem) → SameOutside a (2 * length xs) m (store_units a xs m)
unfolding store_units
store_units_outside a [] m x h = refl
store_units_outside a (u ∷ xs) m x h =
    store_units_outside (a + 2) xs (store 2 a u m) x (omega arith)
    ∙ store_outside 2 a u m x (omega arith)

pub load_units-Agree :
    (n a : ℕ) (m m' : Mem) → Agree a (2 * n) m m' → load_units n a m ≡ load_units n a m'
unfolding load_units
load_units-Agree zero a m m' h = refl
load_units-Agree (suc n) a m m' h =
    ap₂ ◌∷◌ (load-Agree 2 a m m' (λ x p q. h x p (omega arith)))
      (load_units-Agree n (a + 2) m m' (λ x p q. h x (omega arith) (omega arith)))

pub load_units-store_units :
    (a : ℕ) (xs : List ℕ) (m : Mem)
    → AreUnits xs
    → load_units (length xs) a (store_units a xs m) ≡ xs
unfolding load_units store_units
load_units-store_units a [] m h = refl
load_units-store_units a (u ∷ xs) m h =
    ap₂ ◌∷◌
      (load-Agree 2 a _ (store 2 a u m)
          (λ x p q. store_units_outside (a + 2) xs (store 2 a u m) x (omega arith))
        ∙ load-store 2 a u m (omega arith))
      (load_units-store_units (a + 2) xs (store 2 a u m) h.1)

pub length-load_units : (n a : ℕ) (m : Mem) → length (load_units n a m) ≡ n
unfolding load_units
length-load_units zero a m = refl
length-load_units (suc n) a m = ap suc (length-load_units n (a + 2) m)
