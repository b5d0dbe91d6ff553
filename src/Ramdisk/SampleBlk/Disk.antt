-- ===== src/Ramdisk/SampleBlk/Disk.antt =====
-- A queue of requests, served by `sampleblk_request` of ramdisk-lab/sample_blk.c.
use linux_labs.Prelude.{
  ℕ, ◌+◌, ◌≤◌, ◌<◌, ◌≡◌, refl, sym, ap, ◌∙◌, ◌≢◌, ◌⊎◌, inl, inr, Bool, true, false, Option, some,
  List, [], ◌∷◌, ◌++◌, arith, ltb, ◌==◌, if◌then◌else◌, Bool-cases, map, ltb-eq-false,
}
use linux_labs.Memory.{Mem}
use linux_labs.Ramdisk.Transfer.{
  Segment, total, gather, AreApart, AreDisjoint, read-write, write_segments_outside,
  read_segments_same,
}
use linux_labs.Resources.{Rv, success, eio}
use linux_labs.Ramdisk.SampleBlk.{Dev, Request, Io, one_request, each_request, sampleblk_request}
use linux_labs.Ramdisk.SampleBlk.Requests.{
  IsRequest, start, spec, one_request-spec, after_segments, transfer,
}
use mathlib.Core.List.{append-nil, append_assoc}
use mathlib.Core.Path.{subst}

-- Every request is one, and has a segment: it reads or writes.
abbrev pub AreRequests : Dev → List Request → Type 0
AreRequests dev [] = Unit {0}
AreRequests dev (rq ∷ rqs) = (IsRequest dev rq × (rq.segments ≢ [])) × AreRequests dev rqs

abbrev pub is_beyond : Dev → Request → Bool
is_beyond dev rq = ltb dev.size (start rq + rq.nbytes)

-- The result that a request deserves.
abbrev pub status : Dev → Request → Rv
status dev rq = if is_beyond dev rq then eio else success

-- The byte at `x` belongs to no segment of a request.
abbrev pub AreApartAll : ℕ → List Request → Type 0
AreApartAll x [] = Unit {0}
AreApartAll x (rq ∷ rqs) = AreApart x 1 rq.segments × AreApartAll x rqs

transfer_same :
    (w : Bool) (x c : ℕ) (ss : List Segment) (m : Mem)
    → AreApart x 1 ss
    → (x < c) ⊎ (c + total ss ≤ x)
    → transfer w c ss m x ≡ m x
transfer_same true x c ss m h out = write_segments_outside c ss m x out
transfer_same false x c ss m h out = read_segments_same x c ss m h

after_some : (ss : List Segment) (rv : Rv) → ss ≢ [] → after_segments ss rv ≡ success
after_some [] rv ne = absurd (ne refl)
after_some (s ∷ ss) rv ne = refl

-- What one request of its own does.
record Done (dev : Dev) (rq : Request) (io io' : Io) : Type 0 where
  ended : io'.ended ≡ io.ended ++ status dev rq ∷ []
  mapped : io'.kmapped ≡ io.kmapped
  same :
      (x : ℕ)
      → AreApart x 1 rq.segments
      → (x < dev.area_ptr) ⊎ (dev.area_ptr + dev.size ≤ x)
      → io'.mem x ≡ io.mem x

spec-Done :
    (dev : Dev) (rq : Request) (rv : Rv) (io : Io)
    → IsRequest dev rq
    → rq.segments ≢ []
    → Done dev rq io (spec dev rq (rv, io)).1
spec-Done dev rq rv io r ne = elim (Bool-cases (is_beyond dev rq)) [
  | inl beyond ↦ rw beyond (record { ended = rw beyond; mapped = refl; same = λ x p q. refl })
  | inr within ↦ rw within (record {
    ended = rw (within, after_some rq.segments rv ne);
    mapped = refl;
    same = λ x p q.
        transfer_same rq.is_write x (dev.area_ptr + start rq) rq.segments io.mem p
          (ground (arith, r.counted));
  })
]

-- What the loop over a queue does.
abbrev pub IsServed : Dev → List Request → Io → Option (Rv × Io) → Type 0
IsServed dev rqs io o =
    (rv : Rv) × (io' : Io) × (o ≡ some (rv, io'))
    × (io'.ended ≡ io.ended ++ map (status dev) rqs)
    × (io'.kmapped ≡ io.kmapped)
    × ((x : ℕ)
        → AreApartAll x rqs
        → (x < dev.area_ptr) ⊎ (dev.area_ptr + dev.size ≤ x)
        → io'.mem x ≡ io.mem x)

each_request-IsServed :
    (dev : Dev) (rqs : List Request) (rv : Rv) (io : Io)
    → AreRequests dev rqs
    → IsServed dev rqs io (each_request dev rqs (rv, io))
unfolding each_request
each_request-IsServed dev [] rv io h =
    (rv, io, refl, sym (append-nil io.ended), refl, λ x p q. refl)
each_request-IsServed dev (rq ∷ rqs) rv io h =
    let (rv1, io1) = spec dev rq (rv, io) in
    let d : Done dev rq io io1 = spec-Done dev rq rv io h.0.0 h.0.1 in
    let (rv2, io2, e, ends, maps, same) = each_request-IsServed dev rqs rv1 io1 h.1 in
    let owned : (rq.owner == dev.ptr) ≡ true = ground (arith, h.0.0.owned) in
    (
      rv2,
      io2,
      rw (owned, one_request-spec dev rq rv io h.0.0) e,
      ends
          ∙ ap (λ rs. rs ++ map (status dev) rqs) d.ended
          ∙ append_assoc io.ended (status dev rq ∷ []) (map (status dev) rqs),
      maps ∙ d.mapped,
      λ x p q. same x p.1 q ∙ d.same x p.0 q,
    )

-- A queue whose requests each have a segment is served to its end: every request is ended once, in
-- order, with -EIO exactly where it reaches beyond the end of the device; every page that was mapped
-- is unmapped; and no byte changes outside the device's area and the segments of the requests.
pub sampleblk_request-IsServed :
    (dev : Dev) (rqs : List Request) (io : Io)
    → AreRequests dev rqs
    → IsServed dev rqs io (sampleblk_request dev rqs io)
unfolding sampleblk_request
sampleblk_request-IsServed dev rqs io h = each_request-IsServed dev rqs success io h

-- A request without segments that follows one beyond the end is ended with -EIO too, though it lies
-- within the device.
pub sampleblk_request_stale :
    (dev : Dev) (bad flush : Request) (io : Io)
    → IsRequest dev bad
    → is_beyond dev bad ≡ true
    → IsRequest dev flush
    → flush.segments ≡ []
    → is_beyond dev flush ≡ false
    → (io' : Io) × (sampleblk_request dev (bad ∷ flush ∷ []) io ≡ some (eio, io'))
      × (io'.ended ≡ (io.ended ++ eio ∷ []) ++ eio ∷ [])
unfolding sampleblk_request each_request
sampleblk_request_stale dev bad flush io r beyond f no_segments within =
    let owned : (bad.owner == dev.ptr) ≡ true = ground (arith, r.owned) in
    let owned2 : (flush.owner == dev.ptr) ≡ true = ground (arith, f.owned) in
    let io1 : Io = record io { ended = io.ended ++ eio ∷ []; is_locked = true } in
    let first : one_request dev bad (success, io) ≡ (eio, io1) =
      one_request-spec dev bad success io r ∙ rw beyond in
    (
      (spec dev flush (eio, io1)).1,
      rw (owned, owned2, first, one_request-spec dev flush eio io1 f, within, no_segments),
      rw (within, no_segments),
    )

-- What a request within the device leaves.
abbrev moved : Dev → Request → Io → Io
moved dev rq io = record io {
  mem = transfer rq.is_write (dev.area_ptr + start rq) rq.segments io.mem;
  ended = io.ended ++ success ∷ [];
  is_locked = true;
}

one_request-moved :
    (dev : Dev) (rq : Request) (rv : Rv) (io : Io)
    → IsRequest dev rq
    → rq.segments ≢ []
    → start rq + rq.nbytes ≤ dev.size
    → one_request dev rq (rv, io) ≡ (success, moved dev rq io)
one_request-moved dev rq rv io r ne fits =
    one_request-spec dev rq rv io r
    ∙ rw (ltb-eq-false dev.size (start rq + rq.nbytes) fits, after_some rq.segments rv ne)

module _ (dev : Dev) (wr rd : Request) (io : Io) (w : IsRequest dev wr) (r : IsRequest dev rd)
    (writes : wr.is_write ≡ true) (reads : rd.is_write ≡ false) (sector : rd.sector ≡ wr.sector)
    (nbytes : rd.nbytes ≡ wr.nbytes) where
  gather-moved :
      AreApart (dev.area_ptr + start wr) wr.nbytes wr.segments
      → AreApart (dev.area_ptr + start wr) wr.nbytes rd.segments
      → AreDisjoint rd.segments
      → gather rd.segments (moved dev rd (moved dev wr io)).mem ≡ gather wr.segments io.mem
  gather-moved apart apart2 disjoint =
      let c = dev.area_ptr + start wr in
      let n : wr.nbytes ≡ total wr.segments = w.counted in
      let k : wr.nbytes ≡ total rd.segments = sym nbytes ∙ r.counted in
      rw (reads, writes, sector)
        (read-write c wr.segments rd.segments io.mem (sym k ∙ n)
          (subst (λ t. AreApart c t wr.segments) n apart)
          (subst (λ t. AreApart c t rd.segments) k apart2) disjoint)

  -- What was written is what is read: after a write within the device and a read of as many bytes
  -- from the same sector, both with segments, the read's segments hold what those of the write held,
  -- and both requests ended with 0. No segment meets the part of the device, and those of the read do
  -- not meet one another.
  pub read_back :
      wr.segments ≢ []
      → rd.segments ≢ []
      → start wr + wr.nbytes ≤ dev.size
      → AreApart (dev.area_ptr + start wr) wr.nbytes wr.segments
      → AreApart (dev.area_ptr + start wr) wr.nbytes rd.segments
      → AreDisjoint rd.segments
      → (io' : Io) × (sampleblk_request dev (wr ∷ rd ∷ []) io ≡ some (success, io'))
        × (io'.ended ≡ (io.ended ++ success ∷ []) ++ success ∷ [])
        × (gather rd.segments io'.mem ≡ gather wr.segments io.mem)
  unfolding sampleblk_request each_request
  read_back ne ne2 fits apart apart2 disjoint =
      let owned : (wr.owner == dev.ptr) ≡ true = ground (arith, w.owned) in
      let owned2 : (rd.owner == dev.ptr) ≡ true = ground (arith, r.owned) in
      let fits2 : start rd + rd.nbytes ≤ dev.size = omega (arith, sector, nbytes, fits) in
      (
        moved dev rd (moved dev wr io),
        rw (
          owned,
          owned2,
          one_request-moved dev wr success io w ne fits,
          one_request-moved dev rd success (moved dev wr io) r ne2 fits2,
        ),
        refl,
        gather-moved apart apart2 disjoint,
      )
