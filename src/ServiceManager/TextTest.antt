-- ===== src/ServiceManager/TextTest.antt =====
-- `str16eq` of binder/service_manager.c: whether a name of 16-bit units is the text of a string.
use linux_labs.Prelude.{
  ℕ, zero, suc, ◌+◌, ◌<◌, ◌≡◌, ◌≢◌, refl, inl, inr, Bool, true, false, Option, none, some, List, [],
  ◌∷◌, arith, ◌==◌, if◌then◌else◌, length, Bool-cases,
}
use mathlib.Core.Path.{ap₂}
use linux_labs.Memory.{Mem, load}

-- The loop with the fuel `n`, and the tests behind it; a `char` of 32-bit ARM has no sign. `none` is a
-- loop that goes on.
unfoldable pub str16eq : (n : ℕ) → (a b : ℕ) → Mem → Option Bool
str16eq zero a b m = none
str16eq (suc n) a b m =
    let rest = str16eq n (a + 2) (b + 1) m in
    if load 2 a m == 0
    then some (load 1 b m == 0)
    else if load 1 b m == 0
    then some false
    else if load 2 a m == load 1 b m
    then rest
    else some false

-- At `a` stand these elements of `w` bytes, none of them 0, and a 0.
unfoldable pub IsTextAt : (w : ℕ) → List ℕ → (a : ℕ) → Mem → Type 0
IsTextAt w [] a m = load w a m ≡ 0
IsTextAt w (x ∷ xs) a m = (load w a m ≡ x) × (x ≢ 0) × IsTextAt w xs (a + w) m

-- The answer to whether two texts are the same.
abbrev pub Decides : List ℕ → List ℕ → Option Bool → Type 0
Decides us bs r =
    (same : Bool) × (r ≡ some same) × (us ≡ bs → same ≡ true) × (same ≡ true → us ≡ bs)

-- With more fuel than there are units, the loop ends, and says whether the units are the bytes.
pub str16eq-Decides :
    (n : ℕ) (us bs : List ℕ) (a b : ℕ) (m : Mem)
    → IsTextAt 2 us a m
    → IsTextAt 1 bs b m
    → length us < n
    → Decides us bs (str16eq n a b m)
unfolding str16eq IsTextAt
str16eq-Decides zero us bs a b m hu hb few = absurd (omega (arith, few))
str16eq-Decides (suc n) [] [] a b m hu hb few = rw (hu, hb) (true, refl, λ e. refl, λ e. refl)
str16eq-Decides (suc n) [] (y ∷ bs) a b m hu (ey, hy, hb) few =
    let more : (load 1 b m == 0) ≡ false = ground arith in
    rw (hu, more) (false, refl, λ e. cc, λ e. cc)
str16eq-Decides (suc n) (x ∷ us) [] a b m (ex, hx, hu) hb few =
    let more : (load 2 a m == 0) ≡ false = ground arith in
    rw (more, hb) (false, refl, λ e. cc, λ e. cc)
str16eq-Decides (suc n) (x ∷ us) (y ∷ bs) a b m (ex, hx, hu) (ey, hy, hb) few =
    let more : (load 2 a m == 0) ≡ false = ground arith in
    let more_bytes : (load 1 b m == 0) ≡ false = ground arith in
    elim (Bool-cases (load 2 a m == load 1 b m)) [
      | inl equal ↦
          let (same, e, only, all) =
            str16eq-Decides n us bs (a + 2) (b + 1) m hu hb (omega (arith, few)) in
          let heads : x ≡ y = ground arith in
          rw (more, more_bytes, equal) (same, e, λ lists. only cc, λ yes. ap₂ ◌∷◌ heads (all yes))
      | inr differ ↦
          let other : x ≢ y = ground arith in
          rw (more, more_bytes, differ) (false, refl, λ lists. absurd (other cc), λ e. cc)
    ]
