-- ===== src/Ramdisk/Transfer.antt =====
-- What the loops over the segments of a request do to memory: the part that the drivers of
-- ramdisk-lab/ share.
use linux_labs.Prelude.{ℕ, ◌+◌, ◌≤◌, ◌≡◌, refl, sym, ap, ◌∙◌, inl, List, [], ◌∷◌, ◌++◌, arith}
use linux_labs.Memory.{Mem, SameOutside}
use linux_labs.Memory.Copy.{
  memcpy, bytes, Apart, memcpy_outside, bytes-Apart, bytes-memcpy, bytes-append,
}
use mathlib.Core.Path.{ap₂}

-- A `bio_vec`: where `kmap` puts its page, and the part of the page that it is.
pub record Segment : Type 0 where
  pub kaddr : ℕ
  pub offset : ℕ
  pub len : ℕ

-- Where the bytes of a segment stand.
abbrev pub buffer : Segment → ℕ
buffer s = s.kaddr + s.offset

abbrev pub total : List Segment → ℕ
total [] = 0
total (s ∷ ss) = s.len + total ss

-- The bytes of the segments, in order.
abbrev pub gather : List Segment → Mem → List ℕ
gather [] m = []
gather (s ∷ ss) m = bytes s.len (buffer s) m ++ gather ss m

-- From the segments to the device at `c`, and back.
unfoldable pub write_segments : ℕ → List Segment → Mem → Mem
write_segments c [] m = m
write_segments c (s ∷ ss) m = write_segments (c + s.len) ss (memcpy c (buffer s) s.len m)

unfoldable pub read_segments : ℕ → List Segment → Mem → Mem
read_segments c [] m = m
read_segments c (s ∷ ss) m = read_segments (c + s.len) ss (memcpy (buffer s) c s.len m)

-- No segment meets the `k` bytes at `b`.
abbrev pub AreApart : (b k : ℕ) → List Segment → Type 0
AreApart b k [] = Unit {0}
AreApart b k (s ∷ ss) = Apart (buffer s) s.len b k × AreApart b k ss

-- No two segments meet.
abbrev pub AreDisjoint : List Segment → Type 0
AreDisjoint [] = Unit {0}
AreDisjoint (s ∷ ss) = AreApart (buffer s) s.len ss × AreDisjoint ss

AreApart-part :
    (b k b' k' : ℕ) (ss : List Segment)
    → b ≤ b'
    → b' + k' ≤ b + k
    → AreApart b k ss
    → AreApart b' k' ss
AreApart-part b k b' k' [] p q h = tt
AreApart-part b k b' k' (s ∷ ss) p q h = (omega (arith, h.0), AreApart-part b k b' k' ss p q h.1)

pub gather-apart :
    (b k : ℕ) (ss : List Segment) (m m' : Mem)
    → AreApart b k ss
    → SameOutside b k m m'
    → gather ss m' ≡ gather ss m
gather-apart b k [] m m' h same = refl
gather-apart b k (s ∷ ss) m m' h same =
    ap₂ ◌++◌ (bytes-Apart s.len (buffer s) b k m m' h.0 same) (gather-apart b k ss m m' h.1 same)

-- A write changes the bytes of the device from `c` on, as many as the segments have.
pub write_segments_outside :
    (c : ℕ) (ss : List Segment) (m : Mem) → SameOutside c (total ss) m (write_segments c ss m)
unfolding write_segments
write_segments_outside c [] m x h = refl
write_segments_outside c (s ∷ ss) m x h =
    write_segments_outside (c + s.len) ss (memcpy c (buffer s) s.len m) x (omega arith)
    ∙ memcpy_outside c (buffer s) s.len m x (omega arith)

pub write_segments_lem :
    (c : ℕ) (ss : List Segment) (m : Mem)
    → AreApart c (total ss) ss
    → bytes (total ss) c (write_segments c ss m) ≡ gather ss m
unfolding write_segments bytes
write_segments_lem c [] m h = refl
write_segments_lem c (s ∷ ss) m h =
    let m1 = memcpy c (buffer s) s.len m in
    let m2 = write_segments (c + s.len) ss m1 in
    bytes-append s.len (total ss) c m2
    ∙ ap₂ ◌++◌
        (bytes-Apart s.len c (c + s.len) (total ss) m1 m2 (inl (omega arith))
            (write_segments_outside (c + s.len) ss m1)
          ∙ bytes-memcpy c (buffer s) s.len m)
        (write_segments_lem (c + s.len) ss m1 (
            AreApart-part c (s.len + total ss) (c + s.len) (total ss) ss (omega arith) (omega arith)
              h.1)
          ∙ gather-apart c (s.len + total ss) ss m m1 h.1
              (λ x p. memcpy_outside c (buffer s) s.len m x (omega arith)))

-- A read changes the segments only.
pub read_segments_outside :
    (b k c : ℕ) (ss : List Segment) (m : Mem)
    → AreApart b k ss
    → bytes k b (read_segments c ss m) ≡ bytes k b m
unfolding read_segments
read_segments_outside b k c [] m h = refl
read_segments_outside b k c (s ∷ ss) m h =
    let m1 = memcpy (buffer s) c s.len m in
    read_segments_outside b k (c + s.len) ss m1 h.1
    ∙ bytes-Apart k b (buffer s) s.len m m1 (omega (arith, h.0))
        (memcpy_outside (buffer s) c s.len m)

pub read_segments_same :
    (x c : ℕ) (ss : List Segment) (m : Mem) → AreApart x 1 ss → read_segments c ss m x ≡ m x
unfolding read_segments
read_segments_same x c [] m h = refl
read_segments_same x c (s ∷ ss) m h =
    read_segments_same x (c + s.len) ss (memcpy (buffer s) c s.len m) h.1
    ∙ memcpy_outside (buffer s) c s.len m x (omega (arith, h.0))

pub read_segments_lem :
    (c : ℕ) (ss : List Segment) (m : Mem)
    → AreApart c (total ss) ss
    → AreDisjoint ss
    → gather ss (read_segments c ss m) ≡ bytes (total ss) c m
unfolding read_segments bytes
read_segments_lem c [] m h d = refl
read_segments_lem c (s ∷ ss) m h d =
    let m1 = memcpy (buffer s) c s.len m in
    ap₂ ◌++◌
      (read_segments_outside (buffer s) s.len (c + s.len) ss m1 d.0
        ∙ bytes-memcpy (buffer s) c s.len m)
      (read_segments_lem (c + s.len) ss m1
          (AreApart-part c (s.len + total ss) (c + s.len) (total ss) ss (omega arith) (omega arith)
            h.1)
          d.1
        ∙ bytes-Apart (total ss) (c + s.len) (buffer s) s.len m m1 (omega (arith, h.0))
            (memcpy_outside (buffer s) c s.len m))
    ∙ sym (bytes-append s.len (total ss) c m)

-- What was written to the device is what is read from there.
pub read-write :
    (c : ℕ) (ss ts : List Segment) (m : Mem)
    → total ts ≡ total ss
    → AreApart c (total ss) ss
    → AreApart c (total ts) ts
    → AreDisjoint ts
    → gather ts (read_segments c ts (write_segments c ss m)) ≡ gather ss m
read-write c ss ts m e h k d =
    read_segments_lem c ts (write_segments c ss m) k d
    ∙ ap (λ n. bytes n c (write_segments c ss m)) e
    ∙ write_segments_lem c ss m h
