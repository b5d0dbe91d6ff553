-- ===== src/Binder/Types.antt =====
-- The structures and constants of binder/binder.h, binder/binder.c and
-- binder/include/linux/binder.h, as the Makefile builds them: 32-bit ARM with BINDER_IPC_32BIT, so
-- `size_t`, `uintptr_t`, `binder_size_t` and `binder_uintptr_t` are 32 bits wide.
use linux_labs.Prelude.{ℕ, ◌+◌, ◌*◌, ◌/◌, ◌^◌, Bool, false}

-- The number of values of a 32-bit word.
abbrev pub word : ℕ
word = 2 ^ 32

abbrev pub null_string : ℕ
null_string = 0xffff_ffff

-- `MAX_BIO_SIZE / sizeof(uint16_t)`
abbrev pub max_units : ℕ
max_units = 2 ^ 30 / 2

abbrev pub size_of_size : ℕ
size_of_size = 4

-- `sizeof(struct flat_binder_object)`: type, flags, handle or binder, cookie.
abbrev pub size_of_object : ℕ
size_of_object = 16

-- `sizeof(struct binder_transaction_data)`
abbrev pub size_of_txn : ℕ
size_of_txn = 40

-- `sizeof(struct binder_ptr_cookie)`
abbrev pub size_of_ptr_cookie : ℕ
size_of_ptr_cookie = 8

abbrev pub b_pack_chars : ℕ → ℕ → ℕ → ℕ → ℕ
b_pack_chars c1 c2 c3 c4 = c1 * 2 ^ 24 + c2 * 2 ^ 16 + c3 * 2 ^ 8 + c4

abbrev pub binder_type_binder : ℕ
binder_type_binder = b_pack_chars b's' b'b' b'*' 0x85

abbrev pub binder_type_handle : ℕ
binder_type_handle = b_pack_chars b's' b'h' b'*' 0x85

-- `0x7f | FLAT_BINDER_FLAG_ACCEPTS_FDS`
abbrev pub object_flags : ℕ
object_flags = 0x17f

-- `binder_io.flags`, one field for each of the BIO_F_ bits.
pub record Flags : Type 0 where
  pub shared : Bool
  pub overflow : Bool
  pub io_error : Bool
  pub malloced : Bool

abbrev pub no_flags : Flags
no_flags = record { shared = false; overflow = false; io_error = false; malloced = false }

-- `struct binder_io`: the pointers are addresses. `cursor` is the field `data` of the source.
pub record BinderIo : Type 0 where
  pub cursor : ℕ
  pub offs : ℕ
  pub data_avail : ℕ
  pub offs_avail : ℕ
  pub data0 : ℕ
  pub offs0 : ℕ
  pub flags : Flags

-- `struct binder_transaction_data`: the unions are the words that they hold.
pub record Transaction : Type 0 where
  pub target : ℕ
  pub cookie : ℕ
  pub code : ℕ
  pub flags : ℕ
  pub sender_pid : ℕ
  pub sender_euid : ℕ
  pub data_size : ℕ
  pub offsets_size : ℕ
  pub buffer : ℕ
  pub offsets : ℕ
