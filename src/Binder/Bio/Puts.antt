-- ===== src/Binder/Bio/Puts.antt =====
-- Each `bio_put_*` call of binder/binder.c writes its item, and a run of them writes all.
use linux_labs.Prelude.{
  ℕ, ◌+◌, ◌-◌, ◌*◌, ◌≤◌, ◌<◌, ◌≡◌, refl, ◌∙◌, true, List, [], ◌∷◌, ◌++◌, arith, length, ==-refl,
}
use linux_labs.Memory.{
  Mem, store, store_outside, store_units, load-store, AreUnits, SameOutside, load,
  load-store_disjoint, store_units_outside, load-Agree, load_units, load_units-store_units,
}
use linux_labs.Binder.Types.{
  BinderIo, word, size_of_object, binder_type_handle, object_flags, size_of_size,
}
use linux_labs.Binder.Bio.{
  is_listed, advance, word, put_object, store, align4, size_of_object, store_units, bio_put_ref,
  write_object, binder_type_handle, load, object_flags, size_of_size,
}
use linux_labs.Binder.Bio.Written.{IsWriter, Wrote}
use linux_labs.Binder.Bio.Layout.{
  Item, IsSendable, all_slots, text, size, num, ref, put_item, put_items, slots, AreSendable, sizes,
}
use mathlib.Core.Path.{subst}
use linux_labs.Binder.Bio.Write.{
  bio_put_ref-fits, length-terminated, align4-bounds, bio_put_uint32-fits, bio_put_string16-fits,
}
use linux_labs.Binder.Bio.Append.{Wrote-cons, IsWriter-Wrote}

AreUnits-terminated : (s : List ℕ) → AreUnits s → AreUnits (s ++ 0 ∷ [])
AreUnits-terminated [] h = (omega arith, tt)
AreUnits-terminated (x ∷ xs) h = (h.0, AreUnits-terminated xs h.1)

pub write_object_outside :
    (p type value : ℕ) (m : Mem) → SameOutside p size_of_object m (write_object p type value m)
unfolding write_object
write_object_outside p type value m x h =
    store_outside 4 (p + 12) 0 _ x (omega arith)
    ∙ store_outside 4 (p + 8) value _ x (omega arith)
    ∙ store_outside 4 p type _ x (omega arith)
    ∙ store_outside 4 (p + 4) object_flags m x (omega arith)

load-write_object :
    (p type value : ℕ) (m : Mem)
    → type < word
    → value < word
    → (load 4 p (write_object p type value m) ≡ type)
      × (load 4 (p + 8) (write_object p type value m) ≡ value)
unfolding write_object
load-write_object p type value m ht hv = (
  load-store_disjoint 4 p 4 (p + 12) 0 _ (omega arith)
      ∙ load-store_disjoint 4 p 4 (p + 8) value _ (omega arith)
      ∙ load-store 4 p type _ (omega arith),
  load-store_disjoint 4 (p + 8) 4 (p + 12) 0 _ (omega arith)
      ∙ load-store 4 (p + 8) value _ (omega arith),
)

-- Item by item.
module _ (io : BinderIo) (m : Mem) (w : IsWriter io) where
  Wrote-num :
      (n : ℕ)
      → n < word
      → 4 ≤ io.data_avail
      → Wrote (num n ∷ []) io m (advance 4 io) (store 4 io.cursor n m)
  unfolding advance
  Wrote-num n small room = record {
    cursor = omega arith;
    data_avail = omega arith;
    offs = omega arith;
    offs_avail = omega arith;
    data0 = refl;
    offs0 = refl;
    flags = refl;
    same = λ x p q. store_outside 4 io.cursor n m x (omega arith);
    holds = (load-store 4 io.cursor n m (omega arith), tt);
  }

  Wrote-text :
      (s : List ℕ)
      → IsSendable (text s)
      → size (text s) ≤ io.data_avail
      → Wrote
          (text s ∷ [])
          io
          m
          (advance (align4 ((length s + 1) * 2)) (advance 4 io))
          (store_units (io.cursor + 4) (s ++ 0 ∷ []) (store 4 io.cursor (length s) m))
  unfolding advance
  Wrote-text s ok room =
      let k = length-terminated s in
      let b = align4-bounds ((length s + 1) * 2) (omega (arith, ok.2)) in
      record {
        cursor = omega arith;
        data_avail = omega arith;
        offs = omega arith;
        offs_avail = omega arith;
        data0 = refl;
        offs0 = refl;
        flags = refl;
        same = λ x p q.
            store_units_outside (io.cursor + 4) (s ++ 0 ∷ []) _ x (omega (arith, k, b.0))
            ∙ store_outside 4 io.cursor (length s) m x (omega arith);
        holds = (
          (
            load-Agree 4 io.cursor _ _
                  (λ x p q. store_units_outside (io.cursor + 4) (s ++ 0 ∷ []) _ x (omega arith))
                ∙ load-store 4 io.cursor (length s) m (omega (arith, ok.2)),
            subst
                (λ n.
                  load_units n (io.cursor + 4)
                    (store_units (io.cursor + 4) (s ++ 0 ∷ []) (store 4 io.cursor (length s) m))
                  ≡ s ++ 0 ∷ [])
                k
                (load_units-store_units (io.cursor + 4) (s ++ 0 ∷ [])
                  (store 4 io.cursor (length s) m) (AreUnits-terminated s ok.0)),
          ),
          tt,
        );
      }

  -- The offset that `bio_alloc_obj` stored is still there after the object.
  listed_now :
      {v : ℕ}
      → v < word
      → size_of_object ≤ io.data_avail
      → 0 < io.offs_avail
      → is_listed 1 io.offs (io.cursor - io.data0) (
          write_object io.cursor binder_type_handle v
            (store size_of_size io.offs (io.cursor - io.data0) m))
        ≡ true
  unfolding is_listed
  listed_now {v} small room slot =
      let m1 = store size_of_size io.offs (io.cursor - io.data0) m in
      let e : load 4 io.offs (write_object io.cursor binder_type_handle v m1)
          ≡ io.cursor - io.data0 =
        load-Agree 4 io.offs _ m1 (λ x p q.
          write_object_outside io.cursor binder_type_handle v m1 x
            (omega (arith, w.slots_below, w.started)))
        ∙ load-store 4 io.offs (io.cursor - io.data0) m (omega (arith, w.in_word)) in
      rw (e, ==-refl (io.cursor - io.data0))

  Wrote-ref :
      (v : ℕ)
      → IsSendable (ref v)
      → size_of_object ≤ io.data_avail
      → 0 < io.offs_avail
      → let (io1, m1) = bio_put_ref v (io, m) in Wrote (ref v ∷ []) io m io1 m1
  unfolding advance put_object
  Wrote-ref v ok room slot = rw (bio_put_ref-fits io m v ok.1 room slot) (record {
    cursor = omega arith;
    data_avail = omega arith;
    offs = omega arith;
    offs_avail = omega arith;
    data0 = refl;
    offs0 = refl;
    flags = refl;
    same = λ x p q.
        write_object_outside io.cursor binder_type_handle v _ x (omega arith)
        ∙ store_outside 4 io.offs (io.cursor - io.data0) m x (omega arith);
    holds = (
      (
        (load-write_object io.cursor binder_type_handle v _ (omega arith) ok.0).0,
        (load-write_object io.cursor binder_type_handle v _ (omega arith) ok.0).1,
        listed_now ok.0 room slot,
      ),
      tt,
    );
  })

  pub Wrote-put_item :
      (x : Item)
      → IsSendable x
      → size x ≤ io.data_avail
      → slots x ≤ io.offs_avail
      → let (io1, m1) = put_item x (io, m) in Wrote (x ∷ []) io m io1 m1
  unfolding put_item
  Wrote-put_item (num n) ok room free = rw (bio_put_uint32-fits io m n room) (Wrote-num n ok room)
  Wrote-put_item (text s) ok room free =
      rw (bio_put_string16-fits io m s ok.1 ok.2 room) (Wrote-text s ok room)
  Wrote-put_item (ref v) ok room free = Wrote-ref v ok room free

-- Items that fit, in bytes and in references, are all written.
pub Wrote-put_items :
    (xs : List Item) (io : BinderIo) (m : Mem)
    → IsWriter io
    → AreSendable xs
    → sizes xs ≤ io.data_avail
    → all_slots xs ≤ io.offs_avail
    → let (io', m') = put_items xs (io, m) in Wrote xs io m io' m'
unfolding put_items
Wrote-put_items [] io m w ok room free = record {
  cursor = omega arith;
  data_avail = omega arith;
  offs = omega arith;
  offs_avail = omega arith;
  data0 = refl;
  offs0 = refl;
  flags = refl;
  same = λ x p q. refl;
  holds = tt;
}
Wrote-put_items (x ∷ xs) io m w ok room free =
    let head = Wrote-put_item io m w x ok.0 (omega arith) (omega arith) in
    let (io1, m1) = put_item x (io, m) in
    Wrote-cons w ok.0 head
      (Wrote-put_items xs io1 m1 (IsWriter-Wrote w head) ok.1 (omega (arith, head.data_avail))
        (omega (arith, head.offs_avail)))
      free
