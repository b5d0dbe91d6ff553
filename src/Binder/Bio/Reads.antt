-- ===== src/Binder/Bio/Reads.antt =====
-- The `bio_get_*` calls of binder/binder.c read back the items that the memory holds.
use linux_labs.Prelude.{
  ℕ, suc, ◌+◌, ◌-◌, ◌*◌, ◌%◌, ◌≤◌, ◌<◌, ◌≡◌, refl, true, some, List, [], ◌∷◌, ◌++◌, arith, length,
  ltb-eq-false, map, lt→ltb,
}
use linux_labs.Memory.{Mem, load_units, load}
use linux_labs.Binder.Types.{BinderIo, max_units, size_of_object, word, binder_type_handle}
use linux_labs.Binder.Bio.{
  is_listed, advance, bio_get, bio_get_uint32, bio_get_string16, bio_get_ref, align4, load,
  bio_get_obj, max_units, size_of_object, word, binder_type_handle, set_overflow,
}
use linux_labs.Binder.Bio.Layout.{
  get_item, get_items, Item, IsSendable, AreSendable, size, sizes, HoldsItem, Holds, kind, kinds,
  num, text, ref,
}
use linux_labs.Binder.Bio.Write.{align4_four, align4_object}
use mathlib.Core.Path.{ap₂, subst}

pub bio_get-fits :
    (io : BinderIo) (n : ℕ)
    → align4 n ≤ io.data_avail
    → bio_get io n ≡ (some io.cursor, advance (align4 n) io)
unfolding bio_get
bio_get-fits io n h = rw (ltb-eq-false io.data_avail (align4 n) h)

pub bio_get_uint32-fits :
    (io : BinderIo) (m : Mem)
    → 4 ≤ io.data_avail
    → bio_get_uint32 io m ≡ (load 4 io.cursor m, advance 4 io)
unfolding bio_get_uint32
bio_get_uint32-fits io m h = rw (bio_get-fits io 4 (omega (arith, align4_four)), align4_four)

-- A word that is missing reads as 0.
pub bio_get_uint32-short :
    (io : BinderIo) (m : Mem)
    → io.data_avail < 4
    → bio_get_uint32 io m ≡ (0, set_overflow (record io { data_avail = 0 }))
unfolding bio_get_uint32 bio_get
bio_get_uint32-short io m h = rw (align4_four, lt→ltb io.data_avail 4 h)

pub bio_get_string16-fits :
    (io : BinderIo) (m : Mem) (len : ℕ)
    → load 4 io.cursor m ≡ len
    → len < max_units
    → 4 + align4 ((len + 1) * 2) ≤ io.data_avail
    → bio_get_string16 io m
      ≡ (some (io.cursor + 4), len, advance (align4 ((len + 1) * 2)) (advance 4 io))
unfolding bio_get_string16 advance
bio_get_string16-fits io m len e short h =
    let f : (len + 1) % word * 2 % word ≡ (len + 1) * 2 = omega arith in
    rw (
      bio_get_uint32-fits io m (omega arith),
      e,
      f,
      bio_get-fits (advance 4 io) ((len + 1) * 2) (omega arith),
    )

pub bio_get_ref-fits :
    (io : BinderIo) (m : Mem)
    → size_of_object ≤ io.data_avail
    → is_listed io.offs_avail io.offs (io.cursor - io.data0) m ≡ true
    → load 4 io.cursor m ≡ binder_type_handle
    → bio_get_ref io m ≡ (load 4 (io.cursor + 8) m, advance size_of_object io)
unfolding bio_get_ref bio_get_obj
bio_get_ref-fits io m h listed typed =
    rw (listed, bio_get-fits io size_of_object (omega (arith, align4_object)), align4_object, typed)

load_units-init :
    (s : List ℕ) (a x : ℕ) (m : Mem)
    → load_units (length s + 1) a m ≡ s ++ x ∷ []
    → load_units (length s) a m ≡ s
unfolding load_units
load_units-init [] a x m h = refl
load_units-init (y ∷ ys) a x m h =
    let e : suc (length ys) + 1 ≡ suc (length ys + 1) = omega arith in
    let h' : (load 2 a m ∷ load_units (length ys + 1) (a + 2) m) ≡ y ∷ (ys ++ x ∷ []) =
      subst (λ k. load_units k a m ≡ y ∷ (ys ++ x ∷ [])) e h in
    ap₂ ◌∷◌ (cc) (load_units-init ys (a + 2) x m (cc))

pub advance-advance : (a b : ℕ) (io : BinderIo) → advance b (advance a io) ≡ advance (a + b) io
unfolding advance
advance-advance a b io = ground arith

get_item-HoldsItem :
    (x : Item) (io : BinderIo) (m : Mem)
    → IsSendable x
    → size x ≤ io.data_avail
    → HoldsItem m io.offs_avail io.offs io.data0 io.cursor x
    → get_item (kind x) io m ≡ (some x, advance (size x) io)
unfolding get_item
get_item-HoldsItem (num n) io m ok room h = rw (bio_get_uint32-fits io m room, h)
get_item-HoldsItem (text s) io m ok room h = rw (
  bio_get_string16-fits io m (length s) h.0 ok.2 room,
  load_units-init s (io.cursor + 4) 0 m h.1,
  advance-advance,
)
get_item-HoldsItem (ref v) io m ok room h = rw (bio_get_ref-fits io m room h.2 h.0, h.1)

-- A message that holds the items is read back item by item, to the byte behind the last one.
pub get_items-Holds :
    (xs : List Item) (io : BinderIo) (m : Mem)
    → AreSendable xs
    → sizes xs ≤ io.data_avail
    → Holds m io.offs_avail io.offs io.data0 io.cursor xs
    → get_items (kinds xs) io m ≡ (map some xs, advance (sizes xs) io)
unfolding get_items advance
get_items-Holds [] io m ok room h = ground arith
get_items-Holds (x ∷ xs) io m ok room h = rw (
  get_item-HoldsItem x io m ok.0 (omega arith) h.0,
  get_items-Holds xs (advance (size x) io) m ok.1 (omega arith) h.1,
  advance-advance (size x) (sizes xs) io,
)
