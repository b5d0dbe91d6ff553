-- ===== src/Binder/Bio/Write.antt =====
-- What the `bio_put_*` functions of binder/binder.c write: each item that fits, and nothing else.
use linux_labs.Prelude.{
  ℕ, ◌+◌, ◌-◌, ◌*◌, ◌%◌, ◌≢◌, ◌≤◌, ◌<◌, ◌≡◌, refl, some, List, [], ◌∷◌, ◌++◌, arith, ltb-eq-false,
  leb-eq-false, ==-eq-false, length, length-append,
}
use linux_labs.Memory.{Mem, store, store_units}
use linux_labs.Binder.Types.{
  word, max_units, size_of_size, size_of_object, binder_type_handle, BinderIo,
}
use linux_labs.Binder.Bio.{
  align4, c_str, advance, bio_alloc, bio_alloc_obj, claim_slot, put_object, put_units,
  bio_put_uint32, bio_put_string16, bio_put_ref,
}

pub align4_four : align4 4 ≡ 4
unfolding align4
align4_four = refl

pub align4_object : align4 size_of_object ≡ size_of_object
unfolding align4
align4_object = refl

pub align4-bounds : (n : ℕ) → n + 3 < word → (n ≤ align4 n) × (align4 n ≤ n + 3)
unfolding align4
align4-bounds n h = omega arith

pub bio_alloc-fits :
    (io : BinderIo) (n : ℕ)
    → align4 n ≤ io.data_avail
    → bio_alloc io n ≡ (some io.cursor, advance (align4 n) io)
unfolding bio_alloc
bio_alloc-fits io n h = rw (ltb-eq-false io.data_avail (align4 n) h)

pub bio_put_uint32-fits :
    (io : BinderIo) (m : Mem) (n : ℕ)
    → 4 ≤ io.data_avail
    → bio_put_uint32 n (io, m) ≡ (advance 4 io, store 4 io.cursor n m)
unfolding bio_put_uint32
bio_put_uint32-fits io m n h = rw (bio_alloc-fits io 4 (omega (arith, align4_four)), align4_four)

pub put_units-fits :
    (io : BinderIo) (m : Mem) (xs : List ℕ)
    → length xs ≤ max_units
    → align4 (length xs * 2) ≤ io.data_avail
    → put_units xs (io, m) ≡ (advance (align4 (length xs * 2)) io, store_units io.cursor xs m)
unfolding put_units
put_units-fits io m xs short h =
    let e : length xs * 2 % word ≡ length xs * 2 = omega arith in
    rw (e, bio_alloc-fits io (length xs * 2) h)

pub length-terminated : (s : List ℕ) → length (s ++ 0 ∷ []) ≡ length s + 1
length-terminated s = length-append s (0 ∷ [])

pub bio_put_string16-fits :
    (io : BinderIo) (m : Mem) (s : List ℕ)
    → c_str s ≡ s
    → length s < max_units
    → 4 + align4 ((length s + 1) * 2) ≤ io.data_avail
    → bio_put_string16 (some s) (io, m) ≡ (
      advance (align4 ((length s + 1) * 2)) (advance 4 io),
      store_units (io.cursor + 4) (s ++ 0 ∷ []) (store 4 io.cursor (length s) m),
    )
unfolding bio_put_string16 advance
bio_put_string16-fits io m s clean short h =
    let k = length-terminated s in
    let room : align4 (length (s ++ 0 ∷ []) * 2) ≤ io.data_avail - 4 = rw k (omega arith) in
    let fits : length (s ++ 0 ∷ []) ≤ max_units = omega (arith, k) in
    rw (
      clean,
      leb-eq-false max_units (length s) short,
      bio_put_uint32-fits io m (length s) (omega arith),
      put_units-fits (advance 4 io) (store 4 io.cursor (length s) m) (s ++ 0 ∷ []) fits room,
      k,
    )

pub bio_put_ref-fits :
    (io : BinderIo) (m : Mem) (v : ℕ)
    → v ≢ 0
    → size_of_object ≤ io.data_avail
    → 0 < io.offs_avail
    → bio_put_ref v (io, m)
      ≡ put_object binder_type_handle v (
        some io.cursor,
        record (advance size_of_object io) {
          offs_avail = io.offs_avail - 1;
          offs = io.offs + size_of_size;
        },
        store size_of_size io.offs (io.cursor - io.data0) m,
      )
unfolding bio_put_ref bio_alloc_obj claim_slot advance
bio_put_ref-fits io m v ne h room = rw (
  ==-eq-false v 0 ne,
  bio_alloc-fits io size_of_object (omega (arith, align4_object)),
  align4_object,
  ==-eq-false io.offs_avail 0 (omega arith),
)
