-- ===== src/Binder/Bio/Overflow.antt =====
-- `BIO_F_OVERFLOW` of binder/binder.c is raised exactly when the items do not fit, and what a
-- 32-bit length does to `bio_get_string16`.
use mathlib.Core.Bool.{false≢true}
use linux_labs.Prelude.{
  ◌↔◌, ℕ, ◌+◌, ◌-◌, ◌*◌, ◌/◌, ◌%◌, ◌≤◌, ◌<◌, ◌≡◌, refl, sym, ap, ◌∙◌, ◌⊎◌, inl, inr, true, false,
  Option, none, some, List, [], ◌∷◌, ◌++◌, arith, leb, ◌==◌, length, Bool-cases, leb-eq-false,
  ==-eq-false,
}
use linux_labs.Memory.{Mem, load}
use linux_labs.Binder.Types.{
  BinderIo, word, max_units, binder_type_handle, null_string, size_of_object, Flags,
}
use linux_labs.Binder.Bio.{
  advance, bio_alloc, put_word, put_payload, put_object, claim_slot, bio_put_uint32, put_units,
  bio_put_string16, bio_put_ref, set_overflow, word, max_units, bio_alloc_obj, align4, c_str,
  binder_type_handle, null_string, with_memory, size_of_object, bio_get_string16, load,
}
use linux_labs.Binder.Bio.Layout.{
  put_item, put_items, Item, IsSendable, num, text, size, ref, slots, AreSendable, sizes, all_slots,
}
use linux_labs.Binder.Bio.Write.{length-terminated, align4_four, bio_put_uint32-fits}
use linux_labs.Binder.Bio.Bounds.{bio_alloc_cases, bio_alloc_obj_cases}
use linux_labs.Binder.Bio.Written.{IsWriter}
use linux_labs.Binder.Bio.Reads.{bio_get_uint32-fits, bio_get-fits}
use linux_labs.Binder.Bio.Puts.{Wrote-put_item, Wrote-put_items}
use linux_labs.Binder.Bio.Append.{IsWriter-Wrote}

abbrev pub Overflowed : BinderIo → Type 0
Overflowed io = io.flags.overflow ≡ true

Overflowed-alloc : (io : BinderIo) (n : ℕ) → Overflowed io → Overflowed (bio_alloc io n).1
unfolding bio_alloc set_overflow advance
Overflowed-alloc io n h = ground arith

alloc-Overflowed :
    (io : BinderIo) (n : ℕ) → io.data_avail < align4 n → Overflowed (bio_alloc io n).1
unfolding bio_alloc set_overflow advance
alloc-Overflowed io n h = ground arith

put_word-io : (n : ℕ) (r : Option ℕ × BinderIo) (m : Mem) → (put_word n r m).0 ≡ r.1
put_word-io n (none, io) m = refl
put_word-io n (some p, io) m = refl

put_payload-io : (xs : List ℕ) (r : Option ℕ × BinderIo) (m : Mem) → (put_payload xs r m).0 ≡ r.1
put_payload-io xs (none, io) m = refl
put_payload-io xs (some p, io) m = refl

put_object-io : (type v : ℕ) (r : Option ℕ × BinderIo × Mem) → (put_object type v r).0 ≡ r.1
unfolding put_object
put_object-io type v (none, io, m) = refl
put_object-io type v (some p, io, m) = refl

Overflowed-slot :
    (r : Option ℕ × BinderIo) (m : Mem) → Overflowed r.1 → Overflowed (claim_slot r m).1
unfolding claim_slot set_overflow
Overflowed-slot (none, io) m h = refl
Overflowed-slot (some p, io) m h = ground arith

-- The flag is never taken back.
Overflowed-put_word :
    (n : ℕ) (io : BinderIo) (m : Mem) → Overflowed io → Overflowed (bio_put_uint32 n (io, m)).0
unfolding bio_put_uint32
Overflowed-put_word n io m h = rw (put_word-io n (bio_alloc io 4) m) (Overflowed-alloc io 4 h)

Overflowed-put_units :
    (xs : List ℕ) (io : BinderIo) (m : Mem) → Overflowed io → Overflowed (put_units xs (io, m)).0
unfolding put_units
Overflowed-put_units xs io m h =
    rw (put_payload-io xs (bio_alloc io (length xs * 2 % word)) m) (Overflowed-alloc io _ h)

Overflowed-put_text :
    (s : List ℕ) (io : BinderIo) (m : Mem)
    → Overflowed io
    → Overflowed (bio_put_string16 (some s) (io, m)).0
unfolding bio_put_string16
Overflowed-put_text s io m h = elim (Bool-cases (leb max_units (length (c_str s)))) [
  | inl long ↦ rw long (Overflowed-put_word null_string io m h)
  | inr fine ↦
      let (io1, m1) = bio_put_uint32 (length (c_str s)) (io, m) in
      rw fine (Overflowed-put_units (c_str s ++ 0 ∷ []) io1 m1 (Overflowed-put_word _ io m h))
]

Overflowed-put_ref :
    (v : ℕ) (io : BinderIo) (m : Mem) → Overflowed io → Overflowed (bio_put_ref v (io, m)).0
unfolding bio_put_ref bio_alloc_obj
Overflowed-put_ref v io m h = elim (Bool-cases (v == 0)) [
  | inl null ↦
      rw (null, put_object-io binder_type_handle v (with_memory m (bio_alloc io size_of_object)))
        (Overflowed-alloc io size_of_object h)
  | inr real ↦
      rw (real, put_object-io binder_type_handle v (claim_slot (bio_alloc io size_of_object) m))
        (Overflowed-slot (bio_alloc io size_of_object) m (Overflowed-alloc io size_of_object h))
]

pub Overflowed-put_item :
    (x : Item) (io : BinderIo) (m : Mem) → Overflowed io → Overflowed (put_item x (io, m)).0
unfolding put_item
Overflowed-put_item (num n) = Overflowed-put_word n
Overflowed-put_item (text s) = Overflowed-put_text s
Overflowed-put_item (ref v) = Overflowed-put_ref v

pub Overflowed-put_items :
    (xs : List Item) (io : BinderIo) (m : Mem) → Overflowed io → Overflowed (put_items xs (io, m)).0
unfolding put_items
Overflowed-put_items [] io m h = h
Overflowed-put_items (x ∷ xs) io m h =
    let (io1, m1) = put_item x (io, m) in
    Overflowed-put_items xs io1 m1 (Overflowed-put_item x io m h)

-- An item that does not fit raises it.
abbrev Exceeds : ℕ → ℕ → BinderIo → Type 0
Exceeds bytes refs io = (io.data_avail < bytes) ⊎ (io.offs_avail < refs)

put_units-Overflowed :
    (xs : List ℕ) (io : BinderIo) (m : Mem)
    → length xs ≤ max_units
    → io.data_avail < align4 (length xs * 2)
    → Overflowed (put_units xs (io, m)).0
unfolding put_units
put_units-Overflowed xs io m short full =
    let e : length xs * 2 % word ≡ length xs * 2 = omega arith in
    rw (put_payload-io xs (bio_alloc io (length xs * 2 % word)) m, e)
      (alloc-Overflowed io (length xs * 2) full)

fits_or_Exceeds :
    (bytes refs : ℕ) (io : BinderIo)
    → ((bytes ≤ io.data_avail) × (refs ≤ io.offs_avail)) ⊎ Exceeds bytes refs io
fits_or_Exceeds bytes refs io = ground arith

put_text-Overflowed :
    (s : List ℕ) (io : BinderIo) (m : Mem)
    → IsSendable (text s)
    → io.data_avail < size (text s)
    → Overflowed (bio_put_string16 (some s) (io, m)).0
unfolding bio_put_string16 advance
put_text-Overflowed s io m ok short =
    let k = length-terminated s in
    rw (ok.1, leb-eq-false max_units (length s) ok.2)
      (elim (bio_alloc_cases io 4) [
        | inl (full, e) ↦
            let (io1, m1) = bio_put_uint32 (length s) (io, m) in
            Overflowed-put_units (s ++ 0 ∷ []) io1 m1 (
              unfold bio_put_uint32 in
              rw (put_word-io (length s) (bio_alloc io 4) m) (alloc-Overflowed io 4 full))
        | inr (fits, e) ↦
            let room : 4 ≤ io.data_avail = omega (arith, align4_four) in
            let full : io.data_avail - 4 < align4 (length (s ++ 0 ∷ []) * 2) = rw k (omega arith) in
            rw (bio_put_uint32-fits io m (length s) room)
              (put_units-Overflowed (s ++ 0 ∷ []) (advance 4 io) _ (omega (arith, k, ok.2)) full)
      ])

put_item-Overflowed :
    (x : Item) (io : BinderIo) (m : Mem)
    → IsSendable x
    → Exceeds (size x) (slots x) io
    → Overflowed (put_item x (io, m)).0
unfolding put_item bio_put_uint32 bio_put_ref set_overflow
put_item-Overflowed (num n) io m ok h =
    rw (put_word-io n (bio_alloc io 4) m) (alloc-Overflowed io 4 (omega (arith, align4_four)))
put_item-Overflowed (text s) io m ok h = put_text-Overflowed s io m ok (omega arith)
put_item-Overflowed (ref v) io m ok h =
    rw (==-eq-false v 0 ok.1, put_object-io binder_type_handle v (bio_alloc_obj io m))
      (elim (bio_alloc_obj_cases io m) [
        | inl (short, e) ↦ rw e
        | inr (inl (fits, full, e)) ↦ rw e
        | inr (inr (fits, free, e)) ↦ absurd (omega arith)
      ])

pub put_items-Overflowed :
    (xs : List Item) (io : BinderIo) (m : Mem)
    → IsWriter io
    → AreSendable xs
    → Exceeds (sizes xs) (all_slots xs) io
    → Overflowed (put_items xs (io, m)).0
unfolding put_items
put_items-Overflowed [] io m w ok h = absurd (omega arith)
put_items-Overflowed (x ∷ xs) io m w ok h =
    let (io1, m1) = put_item x (io, m) in
    elim (fits_or_Exceeds (size x) (slots x) io) [
      | inr more ↦ Overflowed-put_items xs io1 m1 (put_item-Overflowed x io m ok.0 more)
      | inl (room, free) ↦
          let head = Wrote-put_item io m w x ok.0 room free in
          put_items-Overflowed xs io1 m1 (IsWriter-Wrote w head) ok.1
            (omega (arith, head.data_avail, head.offs_avail))
    ]

-- Where sendable items are put into a buffer whose flag is clear, and whose free part does not leave
-- the 32-bit words, the flag stays clear exactly when the items fit the data and the offsets.
pub put_items-overflow_iff :
    (xs : List Item) (io : BinderIo) (m : Mem)
    → IsWriter io
    → AreSendable xs
    → io.flags.overflow ≡ false
    → ((put_items xs (io, m)).0.flags.overflow ≡ false)
      ↔ ((sizes xs ≤ io.data_avail) × (all_slots xs ≤ io.offs_avail))
put_items-overflow_iff xs io m w ok clear = (
  λ kept. elim (fits_or_Exceeds (sizes xs) (all_slots xs) io) [
    | inl fits ↦ fits
    | inr more ↦ absurd (false≢true (sym kept ∙ put_items-Overflowed xs io m w ok more))
  ],
  λ fits. ap (λ (f : Flags). f.overflow) (Wrote-put_items xs io m w ok fits.0 fits.1).flags ∙ clear,
)

-- A length of 2 ^ 31 - 1 or more, that of a NULL string among them, is read with a pointer that is
-- not NULL, though the string does not fit the message: its size wraps. The message is shorter than
-- 2 ^ 32 bytes and has room for the length and for the size that is left of the string.
pub bio_get_string16_wraps :
    (io : BinderIo) (m : Mem) (len : ℕ)
    → load 4 io.cursor m ≡ len
    → word / 2 ≤ len + 1
    → len < word
    → io.data_avail < word
    → 4 + align4 ((len + 1) % word * 2 % word) ≤ io.data_avail
    → ((bio_get_string16 io m).0 ≡ some (io.cursor + 4))
      × ((bio_get_string16 io m).1 ≡ len)
      × (io.cursor + io.data_avail < io.cursor + 4 + (len + 1) * 2)
unfolding bio_get_string16 advance
bio_get_string16_wraps io m len e long small avail room =
    let n = (len + 1) % word * 2 % word in
    (
      rw (bio_get_uint32-fits io m (omega arith), e, bio_get-fits (advance 4 io) n (omega arith)),
      rw (bio_get_uint32-fits io m (omega arith), e),
      omega arith,
    )
