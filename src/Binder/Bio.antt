-- ===== src/Binder/Bio.antt =====
-- The `bio_*` functions of binder/binder.c: allocation in a `binder_io`, and putting and getting
-- words, 16-bit strings and object references. A put returns the new `binder_io` and memory, a get
-- its value and the new `binder_io`.
pub mod Layout
pub mod Write
pub mod Written
pub mod Append
pub mod Puts
pub mod Reads
pub mod RoundTrip
pub mod Bounds
pub mod Overflow
use linux_labs.Prelude.{
  ℕ, zero, suc, ◌+◌, ◌-◌, ◌*◌, ◌/◌, ◌%◌, Bool, true, false, ◌||◌, Option, none, some, List, [], ◌∷◌,
  ◌++◌, ltb, leb, ◌==◌, if◌then◌else◌, length,
}
use linux_labs.Memory.{Mem, load, store, store_units}
use linux_labs.Binder.Types.{
  word, null_string, max_units, size_of_size, size_of_object, binder_type_binder,
  binder_type_handle, object_flags, no_flags, BinderIo, Transaction,
}

-- `(size + 3) & (~3)` on a 32-bit `size_t`.
unfoldable pub align4 : ℕ → ℕ
align4 size = (size + 3) % word / 4 * 4

unfoldable pub set_overflow : BinderIo → BinderIo
set_overflow io = record io { flags = record (io.flags) { overflow = true } }

unfoldable pub advance : ℕ → BinderIo → BinderIo
advance n io = record io { cursor = io.cursor + n; data_avail = io.data_avail - n }

unfoldable pub bio_init_from_txn : Transaction → BinderIo
bio_init_from_txn txn = record {
  cursor = txn.buffer;
  offs = txn.offsets;
  data_avail = txn.data_size;
  offs_avail = txn.offsets_size / size_of_size;
  data0 = txn.buffer;
  offs0 = txn.offsets;
  flags = record no_flags { shared = true };
}

-- The sizes and pointers that `binder_call` and `binder_send_reply` put into a transaction.
unfoldable pub message_txn : BinderIo → Transaction → Transaction
message_txn io txn = record txn {
  flags = 0;
  data_size = io.cursor - io.data0;
  offsets_size = io.offs - io.offs0;
  buffer = io.data0;
  offsets = io.offs0;
}

-- The pointers keep what they held where the offsets do not fit.
unfoldable pub bio_init : (base maxdata maxoffs : ℕ) → BinderIo → BinderIo
bio_init base maxdata maxoffs io =
    let n = maxoffs * size_of_size % word in
    if ltb maxdata n
    then record io { flags = record no_flags { overflow = true }; data_avail = 0; offs_avail = 0 }
    else record {
      cursor = base + n;
      offs = base;
      data_avail = maxdata - n;
      offs_avail = maxoffs;
      data0 = base + n;
      offs0 = base;
      flags = no_flags;
    }

unfoldable pub bio_alloc : BinderIo → ℕ → Option ℕ × BinderIo
unfolding align4 set_overflow advance
bio_alloc io size =
    if ltb io.data_avail (align4 size)
    then (none, set_overflow io)
    else (some io.cursor, advance (align4 size) io)

-- The test of `bio_alloc_obj` on its pointer and on `offs_avail`.
unfoldable pub claim_slot : Option ℕ × BinderIo → Mem → Option ℕ × BinderIo × Mem
unfolding set_overflow
claim_slot (none, io) m = (none, set_overflow io, m)
claim_slot (some p, io) m = if io.offs_avail == 0 then (none, set_overflow io, m) else (
  some p,
  record io { offs_avail = io.offs_avail - 1; offs = io.offs + size_of_size },
  store size_of_size io.offs (p - io.data0) m,
)

unfoldable pub bio_alloc_obj : BinderIo → Mem → Option ℕ × BinderIo × Mem
bio_alloc_obj io m = claim_slot (bio_alloc io size_of_object) m

abbrev pub put_word : ℕ → Option ℕ × BinderIo → Mem → BinderIo × Mem
put_word n (none, io) m = (io, m)
put_word n (some p, io) m = (io, store 4 p n m)

unfoldable pub bio_put_uint32 : ℕ → BinderIo × Mem → BinderIo × Mem
bio_put_uint32 n (io, m) = put_word n (bio_alloc io 4) m

-- The four words of a `flat_binder_object`, written where its pointer is not null.
unfoldable pub write_object : ℕ → ℕ → ℕ → Mem → Mem
write_object p type value m =
    store 4 (p + 12) 0 (store 4 (p + 8) value (store 4 p type (store 4 (p + 4) object_flags m)))

unfoldable pub put_object : ℕ → ℕ → Option ℕ × BinderIo × Mem → BinderIo × Mem
put_object type value (none, io, m) = (io, m)
put_object type value (some p, io, m) = (io, write_object p type value m)

unfoldable pub bio_put_obj : ℕ → BinderIo × Mem → BinderIo × Mem
bio_put_obj ptr (io, m) = put_object binder_type_binder ptr (bio_alloc_obj io m)

abbrev pub with_memory : Mem → Option ℕ × BinderIo → Option ℕ × BinderIo × Mem
with_memory m (p, io) = (p, io, m)

unfoldable pub bio_put_ref : ℕ → BinderIo × Mem → BinderIo × Mem
bio_put_ref handle (io, m) =
    put_object binder_type_handle handle
      (if handle == 0 then with_memory m (bio_alloc io size_of_object) else bio_alloc_obj io m)

-- A C string: what stands before the first NUL.
unfoldable pub c_str : List ℕ → List ℕ
c_str [] = []
c_str (x ∷ xs) = if x == 0 then [] else x ∷ c_str xs

abbrev pub put_payload : List ℕ → Option ℕ × BinderIo → Mem → BinderIo × Mem
put_payload xs (none, io) m = (io, m)
put_payload xs (some p, io) m = (io, store_units p xs m)

unfoldable pub put_units : List ℕ → BinderIo × Mem → BinderIo × Mem
put_units xs (io, m) = put_payload xs (bio_alloc io (length xs * 2 % word)) m

-- `bio_put_string16`, and `bio_put_string16_x` on a string of bytes, which it widens. `none` is NULL.
unfoldable pub bio_put_string16 : Option (List ℕ) → BinderIo × Mem → BinderIo × Mem
bio_put_string16 none w = bio_put_uint32 null_string w
bio_put_string16 (some str) w =
    let s = c_str str in
    if leb max_units (length s)
    then bio_put_uint32 null_string w
    else put_units (s ++ 0 ∷ []) (bio_put_uint32 (length s) w)

unfoldable pub bio_put_string16_x : Option (List ℕ) → BinderIo × Mem → BinderIo × Mem
bio_put_string16_x none w = bio_put_uint32 null_string w
bio_put_string16_x (some str) w =
    let s = c_str str in
    if leb max_units (length s)
    then bio_put_uint32 null_string w
    else put_units (s ++ 0 ∷ []) (bio_put_uint32 (length s) w)

unfoldable pub bio_get : BinderIo → ℕ → Option ℕ × BinderIo
unfolding align4 set_overflow advance
bio_get io size =
    if ltb io.data_avail (align4 size)
    then (none, set_overflow (record io { data_avail = 0 }))
    else (some io.cursor, advance (align4 size) io)

abbrev pub read_word : Mem → Option ℕ × BinderIo → ℕ × BinderIo
read_word m (none, io) = (0, io)
read_word m (some p, io) = (load 4 p m, io)

unfoldable pub bio_get_uint32 : BinderIo → Mem → ℕ × BinderIo
bio_get_uint32 io m = read_word m (bio_get io 4)

-- The string's pointer, its length in units, and the new `binder_io`.
unfoldable pub bio_get_string16 : BinderIo → Mem → Option ℕ × ℕ × BinderIo
bio_get_string16 io m =
    let (len, io1) = bio_get_uint32 io m in
    let (p, io2) = bio_get io1 ((len + 1) % word * 2 % word) in (p, len, io2)

-- The loop of `_bio_get_obj`: does one of the `n` offsets from `offs` equal `off`?
unfoldable pub is_listed : (n offs off : ℕ) → Mem → Bool
is_listed zero offs off m = false
is_listed (suc n) offs off m =
    (load size_of_size offs m == off) || is_listed n (offs + size_of_size) off m

unfoldable pub bio_get_obj : BinderIo → Mem → Option ℕ × BinderIo
bio_get_obj io m =
    if is_listed io.offs_avail io.offs (io.cursor - io.data0) m
    then bio_get io size_of_object
    else (none, set_overflow (record io { data_avail = 0 }))

abbrev pub read_handle : Mem → Option ℕ × BinderIo → ℕ × BinderIo
read_handle m (none, io) = (0, io)
read_handle m (some p, io) =
    if load 4 p m == binder_type_handle then (load 4 (p + 8) m, io) else (0, io)

unfoldable pub bio_get_ref : BinderIo → Mem → ℕ × BinderIo
bio_get_ref io m = read_handle m (bio_get_obj io m)
