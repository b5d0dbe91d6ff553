-- ===== src/Binder/Bio/Append.antt =====
-- Runs of `bio_put_*` calls of binder/binder.c, put together: a first item and then the others.
use linux_labs.Prelude.{
  ℕ, zero, suc, ◌+◌, ◌*◌, ◌≤◌, ◌<◌, ◌≡◌, sym, ◌∙◌, ◌⊎◌, inl, inr, List, [], ◌∷◌, arith,
}
use linux_labs.Memory.{Mem}
use linux_labs.Binder.Types.{BinderIo}
use linux_labs.Binder.Bio.{is_listed}
use linux_labs.Binder.Bio.Written.{
  ListedIn, IsWriter, Wrote, HoldsItem-Agree, HoldsItem-mono, Holds-mono,
}
use linux_labs.Binder.Bio.Layout.{Item, IsSendable, all_slots, HoldsItem, Holds, size}
use mathlib.Core.Path.{subst}

ListedIn-append : (k n o : ℕ) (m : Mem) → ListedIn n (o + 4 * k) (k + n) o m
unfolding is_listed
ListedIn-append zero n o m off h =
    let e : o + 4 * 0 ≡ o = omega arith in let f : 0 + n ≡ n = omega arith in rw f (rw e at h)
ListedIn-append (suc k) n o m off h =
    let e : o + 4 * suc k ≡ o + 4 + 4 * k = omega arith in
    let f : suc k + n ≡ suc (k + n) = omega arith in
    let rest = ListedIn-append k n (o + 4) m off (rw e at h) in rw f (ground arith)

ListedIn-more : (n k o : ℕ) (m : Mem) → ListedIn n o (n + k) o m
unfolding is_listed
ListedIn-more zero k o m off h = cc
ListedIn-more (suc n) k o m off h =
    let f : suc n + k ≡ suc (n + k) = omega arith in
    rw f (ground (arith, ListedIn-more n k (o + 4) m off))

-- An item and then the others.
module _ {x : Item} {xs : List Item} {io io1 io2 : BinderIo} {m m1 m2 : Mem} (w : IsWriter io)
    (ok : IsSendable x) (head : Wrote (x ∷ []) io m io1 m1) (rest : Wrote xs io1 m1 io2 m2) where
  head_kept :
      all_slots (x ∷ xs) ≤ io.offs_avail
      → (y : ℕ) → (y < io1.cursor)
      → (y < io1.offs) ⊎ (io.data0 ≤ y)
      → m1 y ≡ m2 y
  head_kept room y below clear = sym (
      rest.same y (omega (arith, head.offs, rest.offs_avail, head.offs_avail, w.slots_below))
        (inl below))

  holds_head :
      all_slots (x ∷ xs) ≤ io.offs_avail
      → HoldsItem m2 (all_slots (x ∷ xs)) io.offs io.data0 io.cursor x
  holds_head room =
      let kept = head_kept room in
      let n = all_slots (x ∷ []) in
      let there : HoldsItem m2 n io.offs io.data0 io.cursor x =
        HoldsItem-Agree x n io.offs io.data0 io.cursor m1 m2 ok
          (λ y p q. kept y (omega (arith, head.cursor)) (inr (omega (arith, w.started))))
          (λ y p q.
            kept y (omega (arith, head.cursor, w.started, w.slots_below))
              (inl (omega (arith, head.offs))))
          head.holds.0 in
      let e : n + all_slots xs ≡ all_slots (x ∷ xs) = omega arith in
      rw (← e) (
        HoldsItem-mono x n io.offs (n + all_slots xs) io.offs io.data0 io.cursor m2
          (ListedIn-more n (all_slots xs) io.offs m2) there)

  Holds-all :
      all_slots (x ∷ xs) ≤ io.offs_avail
      → Holds m2 (all_slots (x ∷ xs)) io.offs io.data0 io.cursor (x ∷ xs)
  Holds-all room =
      let n = all_slots (x ∷ []) in
      let e : n + all_slots xs ≡ all_slots (x ∷ xs) = omega arith in
      let f : io1.offs ≡ io.offs + 4 * n = head.offs in
      let g : io1.cursor ≡ io.cursor + size x = omega (arith, head.cursor) in
      let there : Holds m2 (all_slots xs) (io.offs + 4 * n) io.data0 (io.cursor + size x) xs =
        subst (λ a. Holds m2 (all_slots xs) (io.offs + 4 * n) io.data0 a xs) g
          (subst (λ b. Holds m2 (all_slots xs) (io.offs + 4 * n) b io1.cursor xs) head.data0
            (subst (λ o. Holds m2 (all_slots xs) o io1.data0 io1.cursor xs) f rest.holds)) in
      let more =
        subst (λ k. ListedIn (all_slots xs) (io.offs + 4 * n) k io.offs m2) e
          (ListedIn-append n (all_slots xs) io.offs m2) in
      (
        holds_head room,
        Holds-mono xs (all_slots xs) (io.offs + 4 * n) (all_slots (x ∷ xs)) io.offs io.data0
            (io.cursor + size x) m2 more there,
      )

  pub Wrote-cons : all_slots (x ∷ xs) ≤ io.offs_avail → Wrote (x ∷ xs) io m io2 m2
  Wrote-cons room = record {
    cursor = omega (arith, head.cursor, rest.cursor);
    data_avail = omega (arith, head.data_avail, rest.data_avail);
    offs = omega (arith, head.offs, rest.offs);
    offs_avail = omega (arith, head.offs_avail, rest.offs_avail);
    data0 = rest.data0 ∙ head.data0;
    offs0 = rest.offs0 ∙ head.offs0;
    flags = rest.flags ∙ head.flags;
    same = λ y p q.
        rest.same y (omega (arith, head.offs)) (omega (arith, head.cursor))
        ∙ head.same y (omega arith) (omega arith);
    holds = Holds-all room;
  }

pub IsWriter-Wrote :
    {xs : List Item} {io io1 : BinderIo} {m m1 : Mem}
    → IsWriter io
    → Wrote xs io m io1 m1
    → IsWriter io1
IsWriter-Wrote w r = record {
  slots_below = omega (arith, r.offs, r.offs_avail, r.data0, w.slots_below);
  started = omega (arith, r.cursor, r.data0, w.started);
  in_word = omega (arith, r.cursor, r.data_avail, r.data0, w.in_word);
}
