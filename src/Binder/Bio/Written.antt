-- ===== src/Binder/Bio/Written.antt =====
-- A run of `bio_put_*` calls of binder/binder.c that fits lays its items out one after the other.
use linux_labs.Prelude.{
  ℕ, zero, suc, ◌+◌, ◌-◌, ◌*◌, ◌≤◌, ◌<◌, ◌≡◌, refl, sym, ◌∙◌, ◌⊎◌, true, List, [], ◌∷◌, arith,
  length,
}
use linux_labs.Memory.{Mem, Agree, load-Agree, load_units-Agree}
use linux_labs.Binder.Types.{BinderIo, word}
use linux_labs.Binder.Bio.{is_listed, List, true, ◌∷◌, word}
use linux_labs.Binder.Bio.Layout.{
  Item, IsSendable, HoldsItem, size, num, Holds, text, ref, sizes, all_slots,
}
use linux_labs.Binder.Bio.Write.{align4-bounds}

-- The offsets array lies below the data, and an offset fits its word.
pub record IsWriter (io : BinderIo) : Type 0 where
  pub slots_below : io.offs + 4 * io.offs_avail ≤ io.data0
  pub started : io.data0 ≤ io.cursor
  pub in_word : io.cursor + io.data_avail < io.data0 + word

-- From `io` and `m` the items were written, which led to `io'` and `m'`.
pub record Wrote (xs : List Item) (io : BinderIo) (m : Mem) (io' : BinderIo) (m' : Mem)
    : Type 0 where
  pub cursor : io'.cursor ≡ io.cursor + sizes xs
  pub data_avail : io'.data_avail + sizes xs ≡ io.data_avail
  pub offs : io'.offs ≡ io.offs + 4 * all_slots xs
  pub offs_avail : io'.offs_avail + all_slots xs ≡ io.offs_avail
  pub data0 : io'.data0 ≡ io.data0
  pub offs0 : io'.offs0 ≡ io.offs0
  pub flags : io'.flags ≡ io.flags
  pub same :
      (x : ℕ)
      → (x < io.offs) ⊎ (io.offs + 4 * all_slots xs ≤ x)
      → (x < io.cursor) ⊎ (io.cursor + sizes xs ≤ x)
      → m' x ≡ m x
  pub holds : Holds m' (all_slots xs) io.offs io.data0 io.cursor xs

pub is_listed-Agree :
    (n o off : ℕ) (m m' : Mem) → Agree o (4 * n) m m' → is_listed n o off m ≡ is_listed n o off m'
unfolding is_listed
is_listed-Agree zero o off m m' h = refl
is_listed-Agree (suc n) o off m m' h = rw (
  load-Agree 4 o m m' (λ x p q. h x p (omega arith)),
  is_listed-Agree n (o + 4) off m m' (λ x p q. h x (omega arith) (omega arith)),
)

pub HoldsItem-Agree :
    (x : Item) (n o base a : ℕ) (m m' : Mem)
    → IsSendable x
    → Agree a (size x) m m'
    → Agree o (4 * n) m m'
    → HoldsItem m n o base a x
    → HoldsItem m' n o base a x
HoldsItem-Agree (num v) n o base a m m' ok ag go h = sym (load-Agree 4 a m m' ag) ∙ h
HoldsItem-Agree (text s) n o base a m m' ok ag go h =
    let k = align4-bounds ((length s + 1) * 2) (omega arith) in
    (
      sym (load-Agree 4 a m m' (λ x p q. ag x p (omega arith))) ∙ h.0,
      sym (load_units-Agree (length s + 1) (a + 4) m m' (λ x p q. ag x (omega arith) (omega arith)))
          ∙ h.1,
    )
HoldsItem-Agree (ref v) n o base a m m' ok ag go h = (
  sym (load-Agree 4 a m m' (λ x p q. ag x p (omega arith))) ∙ h.0,
  sym (load-Agree 4 (a + 8) m m' (λ x p q. ag x (omega arith) (omega arith))) ∙ h.1,
  sym (is_listed-Agree n o (a - base) m m' go) ∙ h.2,
)

-- More offsets in front do no harm.
abbrev pub ListedIn : (n o n' o' : ℕ) → Mem → Type 0
ListedIn n o n' o' m = (off : ℕ) → is_listed n o off m ≡ true → is_listed n' o' off m ≡ true

pub HoldsItem-mono :
    (x : Item) (n o n' o' base a : ℕ) (m : Mem)
    → ListedIn n o n' o' m
    → HoldsItem m n o base a x
    → HoldsItem m n' o' base a x
HoldsItem-mono (num v) n o n' o' base a m more h = h
HoldsItem-mono (text s) n o n' o' base a m more h = h
HoldsItem-mono (ref v) n o n' o' base a m more h = (h.0, h.1, more (a - base) h.2)

pub Holds-mono :
    (xs : List Item) (n o n' o' base a : ℕ) (m : Mem)
    → ListedIn n o n' o' m
    → Holds m n o base a xs
    → Holds m n' o' base a xs
Holds-mono [] n o n' o' base a m more h = tt
Holds-mono (x ∷ xs) n o n' o' base a m more h = (
  HoldsItem-mono x n o n' o' base a m more h.0,
  Holds-mono xs n o n' o' base (a + size x) m more h.1,
)
