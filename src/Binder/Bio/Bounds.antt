-- ===== src/Binder/Bio/Bounds.antt =====
-- The `bio_put_*` functions of binder/binder.c write inside the free part of the buffer only,
-- whether or not the items fit.
use linux_labs.Prelude.{
  ℕ, ◌+◌, ◌-◌, ◌*◌, ◌%◌, ◌≤◌, ◌<◌, ◌≡◌, refl, ◌∙◌, ◌⊎◌, inl, inr, none, some, List, [], ◌∷◌, ◌++◌,
  arith, ltb, leb, ◌==◌, length, Bool-cases, ltb→lt,
}
use linux_labs.Memory.{Mem, SameOutside, store_outside, store, store_units_outside}
use linux_labs.Binder.Types.{
  BinderIo, max_units, size_of_size, word, null_string, size_of_object, binder_type_handle,
  binder_type_binder,
}
use linux_labs.Binder.Bio.{
  advance, align4, set_overflow, bio_put_uint32, put_units, bio_put_string16, bio_put_ref,
  bio_alloc, store, max_units, size_of_size, word, c_str, null_string, bio_alloc_obj, put_object,
  bio_put_obj, claim_slot, size_of_object, binder_type_handle, binder_type_binder,
}
use linux_labs.Binder.Bio.Write.{
  align4_four, bio_alloc-fits, align4-bounds, length-terminated, align4_object,
}
use linux_labs.Binder.Bio.Layout.{put_item, put_items, Item, num, text, ref}
use linux_labs.Binder.Bio.Puts.{write_object_outside}

-- A call keeps the ends of the buffer, moves its pointers up, and writes nowhere else.
pub record Kept (io : BinderIo) (m : Mem) (io' : BinderIo) (m' : Mem) : Type 0 where
  pub data_end : io'.cursor + io'.data_avail ≡ io.cursor + io.data_avail
  pub data_up : io.cursor ≤ io'.cursor
  pub offs_end : io'.offs + 4 * io'.offs_avail ≡ io.offs + 4 * io.offs_avail
  pub offs_up : io.offs ≤ io'.offs
  pub same :
      (x : ℕ)
      → (x < io.offs) ⊎ (io.offs + 4 * io.offs_avail ≤ x)
      → (x < io.cursor) ⊎ (io.cursor + io.data_avail ≤ x)
      → m' x ≡ m x

pub Kept-trans :
    {io io1 io2 : BinderIo} {m m1 m2 : Mem}
    → Kept io m io1 m1
    → Kept io1 m1 io2 m2
    → Kept io m io2 m2
Kept-trans k j = record {
  data_end = omega (arith, k.data_end, j.data_end);
  data_up = omega (arith, k.data_up, j.data_up);
  offs_end = omega (arith, k.offs_end, j.offs_end);
  offs_up = omega (arith, k.offs_up, j.offs_up);
  same = λ x p q.
      j.same x (omega (arith, k.offs_end, k.offs_up)) (omega (arith, k.data_end, k.data_up))
      ∙ k.same x p q;
}

-- What `bio_alloc` returns: NULL with the overflow flag, or the bytes at the cursor.
pub bio_alloc_cases :
    (io : BinderIo) (n : ℕ)
    → ((io.data_avail < align4 n) × (bio_alloc io n ≡ (none, set_overflow io)))
      ⊎ ((align4 n ≤ io.data_avail) × (bio_alloc io n ≡ (some io.cursor, advance (align4 n) io)))
unfolding bio_alloc set_overflow
bio_alloc_cases io n = elim (Bool-cases (ltb io.data_avail (align4 n))) [
  | inl short ↦ inl (ltb→lt _ _ short, rw short)
  | inr room ↦
      let fits : align4 n ≤ io.data_avail = ground arith in inr (fits, bio_alloc-fits io n fits)
]

module _ (io : BinderIo) (m : Mem) where
  Kept-set_overflow : Kept io m (set_overflow io) m
  unfolding set_overflow
  Kept-set_overflow = record {
    data_end = refl;
    data_up = omega arith;
    offs_end = refl;
    offs_up = omega arith;
    same = λ x p q. refl;
  }

  Kept-advance :
      (n : ℕ) (m' : Mem)
      → n ≤ io.data_avail
      → SameOutside io.cursor n m m'
      → Kept io m (advance n io) m'
  unfolding advance
  Kept-advance n m' fits same = record {
    data_end = omega arith;
    data_up = omega arith;
    offs_end = refl;
    offs_up = omega arith;
    same = λ x p q. same x (omega arith);
  }

  Kept-slot :
      (n v : ℕ) (m' : Mem)
      → n ≤ io.data_avail
      → 0 < io.offs_avail
      → SameOutside io.cursor n (store 4 io.offs v m) m'
      → Kept io m
          (record (advance n io) { offs_avail = io.offs_avail - 1; offs = io.offs + size_of_size })
          m'
  unfolding advance
  Kept-slot n v m' fits slot same = record {
    data_end = omega arith;
    data_up = omega arith;
    offs_end = omega arith;
    offs_up = omega arith;
    same = λ x p q. same x (omega arith) ∙ store_outside 4 io.offs v m x (omega arith);
  }

abbrev pub Keeps : (BinderIo × Mem → BinderIo × Mem) → Type 0
Keeps f = (io : BinderIo) (m : Mem) → let (io', m') = f (io, m) in Kept io m io' m'

pub bio_put_uint32-Kept : (n : ℕ) → Keeps (bio_put_uint32 n)
unfolding bio_put_uint32
bio_put_uint32-Kept n io m = elim (bio_alloc_cases io 4) [
  | inl (short, e) ↦ rw e (Kept-set_overflow io m)
  | inr (fits, e) ↦ rw e (
      Kept-advance io m (align4 4) _ fits
        λ x p. store_outside 4 io.cursor n m x (omega (arith, align4_four)))
]

put_units-Kept : (xs : List ℕ) → length xs ≤ max_units → Keeps (put_units xs)
unfolding put_units
put_units-Kept xs short io m =
    let k : length xs * 2 % word ≡ length xs * 2 = omega arith in
    let b = align4-bounds (length xs * 2) (omega arith) in
    rw k (elim (bio_alloc_cases io (length xs * 2)) [
      | inl (full, e) ↦ rw e (Kept-set_overflow io m)
      | inr (fits, e) ↦ rw e (
          Kept-advance io m (align4 (length xs * 2)) _ fits
            λ x p. store_units_outside io.cursor xs m x (omega arith))
    ])

pub bio_put_string16-Kept : (s : List ℕ) → Keeps (bio_put_string16 (some s))
unfolding bio_put_string16
bio_put_string16-Kept s io m = elim (Bool-cases (leb max_units (length (c_str s)))) [
  | inl long ↦ rw long (bio_put_uint32-Kept null_string io m)
  | inr fine ↦
      let small : length (c_str s ++ 0 ∷ []) ≤ max_units =
        ground (arith, length-terminated (c_str s)) in
      let (io1, m1) = bio_put_uint32 (length (c_str s)) (io, m) in
      rw fine (
        Kept-trans (bio_put_uint32-Kept (length (c_str s)) io m)
          (put_units-Kept (c_str s ++ 0 ∷ []) small io1 m1))
]

-- What `bio_alloc_obj` returns: NULL for want of bytes, NULL for want of a slot, or the object.
pub bio_alloc_obj_cases :
    (io : BinderIo) (m : Mem)
    → ((io.data_avail < size_of_object) × (bio_alloc_obj io m ≡ (none, set_overflow io, m)))
      ⊎ ((size_of_object ≤ io.data_avail)
          × (io.offs_avail ≡ 0)
          × (bio_alloc_obj io m ≡ (none, set_overflow (advance size_of_object io), m)))
      ⊎ ((size_of_object ≤ io.data_avail)
          × (0 < io.offs_avail)
          × (bio_alloc_obj io m ≡ (
            some io.cursor,
            record (advance size_of_object io) {
              offs_avail = io.offs_avail - 1;
              offs = io.offs + size_of_size;
            },
            store size_of_size io.offs (io.cursor - io.data0) m,
          )))
unfolding bio_alloc_obj claim_slot advance set_overflow
bio_alloc_obj_cases io m = elim (bio_alloc_cases io size_of_object) [
  | inl (short, e) ↦ inl (omega (arith, align4_object), rw e)
  | inr (fits, e) ↦ elim (Bool-cases (io.offs_avail == 0)) [
    | inl full ↦ inr (inl (omega (arith, align4_object), ground arith, rw (e, align4_object, full)))
    | inr free ↦ inr (inr (omega (arith, align4_object), ground arith, rw (e, align4_object, free)))
  ]
]

put_object-Kept :
    (type v : ℕ) (io : BinderIo) (m : Mem)
    → let (io', m') = put_object type v (bio_alloc_obj io m) in Kept io m io' m'
unfolding put_object
put_object-Kept type v io m = elim (bio_alloc_obj_cases io m) [
  | inl (short, e) ↦ rw e (Kept-set_overflow io m)
  | inr (inl (fits, full, e)) ↦ rw e (
      Kept-trans (Kept-advance io m size_of_object m fits (λ x p. refl))
        (Kept-set_overflow (advance size_of_object io) m))
  | inr (inr (fits, free, e)) ↦ rw e (
      Kept-slot io m size_of_object (io.cursor - io.data0) _ fits free
        (write_object_outside io.cursor type v _))
]

pub bio_put_ref-Kept : (v : ℕ) → Keeps (bio_put_ref v)
unfolding bio_put_ref put_object
bio_put_ref-Kept v io m = elim (Bool-cases (v == 0)) [
  | inr real ↦ rw real (put_object-Kept binder_type_handle v io m)
  | inl null ↦ rw null (elim (bio_alloc_cases io size_of_object) [
    | inl (short, e) ↦ rw e (Kept-set_overflow io m)
    | inr (fits, e) ↦
        rw (e, align4_object)
          (Kept-advance io m size_of_object _ (omega (arith, align4_object))
            (write_object_outside io.cursor binder_type_handle v m))
  ])
]

put_item-Kept : (x : Item) → Keeps (put_item x)
unfolding put_item
put_item-Kept (num n) = bio_put_uint32-Kept n
put_item-Kept (text s) = bio_put_string16-Kept s
put_item-Kept (ref v) = bio_put_ref-Kept v

-- However many items are put, and whatever they are, only the bytes from the cursor to the end of
-- the data and the free offset slots may change. The ends of the data and of the offsets stay, and
-- the cursors only move up.
pub put_items-Kept : (xs : List Item) → Keeps (put_items xs)
unfolding put_items
put_items-Kept [] io m = record {
  data_end = refl;
  data_up = omega arith;
  offs_end = refl;
  offs_up = omega arith;
  same = λ x p q. refl;
}
put_items-Kept (x ∷ xs) io m =
    let (io1, m1) = put_item x (io, m) in
    Kept-trans (put_item-Kept x io m) (put_items-Kept xs io1 m1)

-- `bio_put_obj` keeps the bounds too.
pub bio_put_obj-Kept : (ptr : ℕ) → Keeps (bio_put_obj ptr)
unfolding bio_put_obj
bio_put_obj-Kept ptr io m = put_object-Kept binder_type_binder ptr io m
