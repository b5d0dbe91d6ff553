-- ===== src/Binder/Bio/Layout.antt =====
-- Messages as lists of items: how the `bio_put_*` and `bio_get_*` calls of binder/binder.c are
-- used in a row, and what the memory of a message holds.
use linux_labs.Prelude.{
  ℕ, ◌+◌, ◌-◌, ◌*◌, ◌<◌, ◌≡◌, true, ◌≢◌, Option, none, some, List, [], ◌∷◌, ◌++◌, length,
}
use linux_labs.Memory.{Mem, load, load_units, AreUnits}
use linux_labs.Binder.Types.{word, max_units, size_of_object, binder_type_handle, BinderIo}
use linux_labs.Binder.Bio.{
  align4, c_str, is_listed, bio_put_uint32, bio_put_string16, bio_put_ref, bio_get_uint32,
  bio_get_string16, bio_get_ref,
}

pub data Item : Type 0 where
  num : ℕ → Item
  text : List ℕ → Item
  ref : ℕ → Item

pub data Kind : Type 0 where
  a_num a_text a_ref : Kind

abbrev pub kind : Item → Kind
kind (num n) = a_num
kind (text s) = a_text
kind (ref h) = a_ref

abbrev pub kinds : List Item → List Kind
kinds [] = []
kinds (x ∷ xs) = kind x ∷ kinds xs

-- The bytes of data that an item takes, and its slots in the offsets array.
abbrev pub size : Item → ℕ
size (num n) = 4
size (text s) = 4 + align4 ((length s + 1) * 2)
size (ref h) = size_of_object

abbrev pub slots : Item → ℕ
slots (num n) = 0
slots (text s) = 0
slots (ref h) = 1

abbrev pub sizes : List Item → ℕ
sizes [] = 0
sizes (x ∷ xs) = size x + sizes xs

abbrev pub all_slots : List Item → ℕ
all_slots [] = 0
all_slots (x ∷ xs) = slots x + all_slots xs

-- What can be sent: words, strings without NUL that are short enough, references but the null one.
abbrev pub IsSendable : Item → Type 0
IsSendable (num n) = n < word
IsSendable (text s) = AreUnits s × (c_str s ≡ s) × (length s < max_units)
IsSendable (ref h) = (h < word) × (h ≢ 0)

abbrev pub AreSendable : List Item → Type 0
AreSendable [] = Unit {0}
AreSendable (x ∷ xs) = IsSendable x × AreSendable xs

unfoldable pub put_item : Item → BinderIo × Mem → BinderIo × Mem
put_item (num n) w = bio_put_uint32 n w
put_item (text s) w = bio_put_string16 (some s) w
put_item (ref h) w = bio_put_ref h w

unfoldable pub put_items : List Item → BinderIo × Mem → BinderIo × Mem
put_items [] w = w
put_items (x ∷ xs) w = put_items xs (put_item x w)

-- A string is read through its pointer: none where that is NULL.
abbrev pub read_text : Mem → Option ℕ × ℕ × BinderIo → Option Item × BinderIo
read_text m (none, len, io) = (none, io)
read_text m (some p, len, io) = (some (text (load_units len p m)), io)

unfoldable pub get_item : Kind → BinderIo → Mem → Option Item × BinderIo
get_item a_num io m = let (n, io1) = bio_get_uint32 io m in (some (num n), io1)
get_item a_text io m = read_text m (bio_get_string16 io m)
get_item a_ref io m = let (h, io1) = bio_get_ref io m in (some (ref h), io1)

unfoldable pub get_items : List Kind → BinderIo → Mem → List (Option Item) × BinderIo
get_items [] io m = ([], io)
get_items (k ∷ ks) io m =
    let (x, io1) = get_item k io m in let (xs, io2) = get_items ks io1 m in (x ∷ xs, io2)

-- The memory holds the items from address `a` on; `n` offsets stand from `o` on, relative to `base`.
module _ (m : Mem) (n o base : ℕ) where
  abbrev pub HoldsItem : ℕ → Item → Type 0
  HoldsItem a (num v) = load 4 a m ≡ v
  HoldsItem a (text s) =
      (load 4 a m ≡ length s) × (load_units (length s + 1) (a + 4) m ≡ s ++ 0 ∷ [])
  HoldsItem a (ref h) =
      (load 4 a m ≡ binder_type_handle)
      × (load 4 (a + 8) m ≡ h)
      × (is_listed n o (a - base) m ≡ true)

  abbrev pub Holds : ℕ → List Item → Type 0
  Holds a [] = Unit {0}
  Holds a (x ∷ xs) = HoldsItem a x × Holds (a + size x) xs
