-- ===== src/Binder/Bio/RoundTrip.antt =====
-- A message from `bio_init` to the receiver's `bio_get_*` calls (binder/binder.c).
use linux_labs.Prelude.{
  ℕ, ◌+◌, ◌-◌, ◌*◌, ◌/◌, ◌%◌, ◌≤◌, ◌<◌, ◌≡◌, refl, sym, ap, false, some, List, arith, ltb-eq-false,
  map,
}
use linux_labs.Memory.{Mem}
use linux_labs.Binder.Types.{BinderIo, size_of_size, word, no_flags, Transaction, Flags}
use linux_labs.Binder.Bio.{
  advance, size_of_size, bio_init, word, no_flags, Transaction, bio_init_from_txn, message_txn,
}
use linux_labs.Binder.Bio.Written.{IsWriter, Wrote}
use linux_labs.Binder.Bio.Layout.{
  Item, AreSendable, sizes, all_slots, put_items, get_items, kinds, Holds,
}
use linux_labs.Binder.Bio.Puts.{Wrote-put_items}
use mathlib.Core.Path.{subst}
use linux_labs.Binder.Bio.Reads.{get_items-Holds}

-- A working buffer that `bio_init` takes: the offsets fit, and no size leaves a 32-bit word.
pub record IsBuffer (maxdata maxoffs : ℕ) : Type 0 where
  pub offsets_fit : maxoffs * size_of_size ≤ maxdata
  pub in_word : maxdata < word

-- What was written from the start of a message is what the receiver's `binder_io` stands before,
-- and all of it.
pub received :
    (xs : List Item) (io io1 : BinderIo) (m m1 : Mem) (txn : Transaction)
    → io.cursor ≡ io.data0
    → io.offs ≡ io.offs0
    → Wrote xs io m io1 m1
    → let rx = bio_init_from_txn (message_txn io1 txn) in
      (sizes xs ≡ rx.data_avail) × Holds m1 rx.offs_avail rx.offs rx.data0 rx.cursor xs
unfolding bio_init_from_txn message_txn
received xs io io1 m m1 txn at_start no_slots r =
    let n : all_slots xs ≡ (io1.offs - io1.offs0) / size_of_size =
      omega (arith, r.offs, r.offs0, no_slots) in
    let o : io.offs ≡ io1.offs0 = omega (arith, r.offs0, no_slots) in
    let base : io.data0 ≡ io1.data0 = sym r.data0 in
    let start : io.cursor ≡ io1.data0 = omega (arith, r.data0, at_start) in
    let held : Holds m1 ((io1.offs - io1.offs0) / size_of_size) io1.offs0 io1.data0 io1.data0 xs =
      subst (λ a. Holds m1 ((io1.offs - io1.offs0) / size_of_size) io1.offs0 io1.data0 a xs) start
        (subst (λ a. Holds m1 ((io1.offs - io1.offs0) / size_of_size) io1.offs0 a io.cursor xs) base
          (subst (λ a. Holds m1 ((io1.offs - io1.offs0) / size_of_size) a io.data0 io.cursor xs) o
            (subst (λ a. Holds m1 a io.offs io.data0 io.cursor xs) n r.holds))) in
    (omega (arith, r.cursor, r.data0, at_start), held)

-- A receiver gets what was written from the start of a message.
get_items-Wrote :
    (xs : List Item) (io io1 : BinderIo) (m m1 : Mem) (txn : Transaction)
    → AreSendable xs
    → io.cursor ≡ io.data0
    → io.offs ≡ io.offs0
    → Wrote xs io m io1 m1
    → get_items (kinds xs) (bio_init_from_txn (message_txn io1 txn)) m1
      ≡ (map some xs, advance (sizes xs) (bio_init_from_txn (message_txn io1 txn)))
get_items-Wrote xs io io1 m m1 txn ok at_start no_slots r =
    let (room, held) = received xs io io1 m m1 txn at_start no_slots r in
    get_items-Holds xs (bio_init_from_txn (message_txn io1 txn)) m1 ok (omega (arith, room)) held

module _ (base maxdata maxoffs : ℕ) (junk : BinderIo) (b : IsBuffer maxdata maxoffs) where
  abbrev pub fresh : BinderIo
  fresh = record {
    cursor = base + maxoffs * size_of_size;
    offs = base;
    data_avail = maxdata - maxoffs * size_of_size;
    offs_avail = maxoffs;
    data0 = base + maxoffs * size_of_size;
    offs0 = base;
    flags = no_flags;
  }

  pub bio_init-fresh : bio_init base maxdata maxoffs junk ≡ fresh
  unfolding bio_init
  bio_init-fresh =
      let e : maxoffs * size_of_size % word ≡ maxoffs * size_of_size =
        omega (arith, b.offsets_fit, b.in_word) in
      rw (e, ltb-eq-false maxdata (maxoffs * size_of_size) b.offsets_fit)

  fresh-IsWriter : IsWriter fresh
  fresh-IsWriter = omega (arith, b.offsets_fit, b.in_word)

  module _ (xs : List Item) (m : Mem) (txn : Transaction) (ok : AreSendable xs)
      (room : sizes xs + maxoffs * size_of_size ≤ maxdata) (free : all_slots xs ≤ maxoffs) where
    wrote : let (io, m') = put_items xs (fresh, m) in Wrote xs fresh m io m'
    wrote = Wrote-put_items xs fresh m fresh-IsWriter ok (omega arith) free

    -- Sendable items that are put into a buffer fresh from `bio_init`, with room for them and for
    -- their offsets, and sent are what the receiver gets, in order, and no byte of the message is
    -- left over. Neither side raises the overflow flag. The buffer is shorter than 2 ^ 32 bytes and
    -- the offsets array fits it.
    pub message_round_trip :
        let (io, m') = put_items xs (bio_init base maxdata maxoffs junk, m) in
        let (got, rest) = get_items (kinds xs) (bio_init_from_txn (message_txn io txn)) m' in
        (got ≡ map some xs)
        × (rest.data_avail ≡ 0)
        × (rest.flags.overflow ≡ false)
        × (io.flags.overflow ≡ false)
    unfolding bio_init_from_txn message_txn advance
    message_round_trip = rw bio_init-fresh (
        let (io, m') = put_items xs (fresh, m) in
        rw (get_items-Wrote xs fresh io m m' txn ok refl refl wrote) (
          refl,
          omega (arith, wrote.cursor, wrote.data0),
          refl,
          ap (λ (f : Flags). f.overflow) wrote.flags,
        ))
