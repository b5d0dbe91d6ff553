-- ===== src/Tests/BioTests.antt =====
-- The `binder_io` of binder/binder.c at concrete messages.
use linux_labs.Prelude.{◌+◌, ◌*◌, ◌≤◌, ◌<◌, ◌≡◌, refl, false, some, List, [], ◌∷◌, arith, ◌↔◌, map}
use linux_labs.Binder.Types.{BinderIo, Transaction, no_flags}
use linux_labs.Binder.Bio.Layout.{
  num, text, ref, Item, put_items, AreSendable, get_items, sizes, kinds, all_slots,
}
use linux_labs.Memory.{Mem, store, load}
use linux_labs.Binder.Bio.{
  c_str, align4, bio_init, bio_get_string16, bio_init_from_txn, message_txn,
}
use linux_labs.Binder.Bio.Bounds.{Kept, put_items-Kept}
use linux_labs.Binder.Bio.Overflow.{bio_get_string16_wraps, put_items-overflow_iff}
use linux_labs.Binder.Bio.RoundTrip.{message_round_trip}

abbrev zeros : Mem
zeros x = 0

abbrev junk : BinderIo
junk = record {
  cursor = 0;
  offs = 0;
  data_avail = 0;
  offs_avail = 0;
  data0 = 0;
  offs0 = 0;
  flags = no_flags;
}

abbrev blank_txn : Transaction
blank_txn = record {
  target = 0;
  cookie = 0;
  code = 1;
  flags = 0;
  sender_pid = 10;
  sender_euid = 1000;
  data_size = 0;
  offsets_size = 0;
  buffer = 0;
  offsets = 0;
}

-- A word, the string "hi" and a reference.
abbrev greeting : List Item
greeting = num 7 ∷ text (104 ∷ 105 ∷ []) ∷ ref 5 ∷ []

abbrev buffer : BinderIo
buffer = record {
  cursor = 1016;
  offs = 1000;
  data_avail = 112;
  offs_avail = 4;
  data0 = 1016;
  offs0 = 1000;
  flags = no_flags;
}

greeting-AreSendable : AreSendable greeting
unfolding c_str
greeting-AreSendable = (
  omega arith,
  (((omega arith, (omega arith, tt)), refl, omega arith), ((omega arith, omega arith), tt)),
)

message_round_trip_example :
    let (io, m') = put_items greeting (bio_init 1000 128 4 junk, zeros) in
    let (got, rest) =
      get_items (kinds greeting) (bio_init_from_txn (message_txn io blank_txn)) m' in
    (got ≡ map some greeting)
    × (rest.data_avail ≡ 0)
    × (rest.flags.overflow ≡ false)
    × (io.flags.overflow ≡ false)
unfolding align4
message_round_trip_example =
    message_round_trip 1000 128 4 junk (omega arith) greeting zeros blank_txn greeting-AreSendable
      (omega arith) (omega arith)

put_items-Kept_example :
    let (io', m') = put_items greeting (buffer, zeros) in Kept buffer zeros io' m'
put_items-Kept_example = put_items-Kept greeting buffer zeros

put_items-overflow_iff_example :
    ((put_items greeting (buffer, zeros)).0.flags.overflow ≡ false)
    ↔ ((sizes greeting ≤ buffer.data_avail) × (all_slots greeting ≤ buffer.offs_avail))
put_items-overflow_iff_example =
    put_items-overflow_iff greeting buffer zeros (omega arith) greeting-AreSendable refl

-- The message that `bio_put_string16` makes of NULL.
abbrev null_message : Mem
null_message = store 4 1016 0xffff_ffff zeros

bio_get_string16_wraps_example :
    ((bio_get_string16 buffer null_message).0 ≡ some 1020)
    × ((bio_get_string16 buffer null_message).1 ≡ 0xffff_ffff)
    × (1016 + 112 < 1016 + 4 + (0xffff_ffff + 1) * 2)
unfolding align4 load store
bio_get_string16_wraps_example =
    bio_get_string16_wraps buffer null_message 0xffff_ffff refl (omega arith) (omega arith)
      (omega arith) (omega arith)
