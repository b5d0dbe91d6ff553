-- ===== src/Ramdisk/MkReq/Requests.antt =====
-- What `ramhd_make_request` of ramdisk-lab/ramhd_mkreq.c does with one `bio`.
use linux_labs.Prelude.{
  ℕ, ◌+◌, ◌*◌, ◌%◌, ◌≤◌, ◌<◌, ◌≡◌, refl, sym, ap, ◌∙◌, ◌⊎◌, inl, inr, false, List, [], ◌∷◌, ◌++◌,
  arith, ltb, ◌==◌, if◌then◌else◌, Bool-cases, ltb-eq-false,
}
use linux_labs.Memory.{Mem}
use linux_labs.Memory.Copy.{memcpy}
use linux_labs.Ramdisk.Transfer.{
  Segment, buffer, total, gather, AreApart, AreDisjoint, write_segments, read_segments, read-write,
  write_segments_outside, read_segments_same,
}
use linux_labs.Resources.{success, eio}
use linux_labs.Ramdisk.MkReq.{
  Bio, Io, with_mem, each_segment, bio_endio, ramhd_make_request, ramhd_sector_size, ramhd_size,
  sector_mod, dir_read, dir_write,
}
use mathlib.Core.Path.{subst}

-- The transfer of a direction; a direction that is none moves nothing.
abbrev pub transfer : ℕ → ℕ → List Segment → Mem → Mem
transfer dir c ss m =
    if dir == dir_read
    then read_segments c ss m
    else if dir == dir_write
    then write_segments c ss m
    else m

each_read :
    (ss : List Segment) (c : ℕ) (io : Io)
    → each_segment dir_read ss c io ≡ with_mem (read_segments c ss io.mem) io
unfolding each_segment read_segments
each_read [] c io = refl
each_read (s ∷ ss) c io =
    let m = memcpy (buffer s) c s.len io.mem in
    ap (λ k. each_segment dir_read ss (c + s.len) (record io { mem = m; kmapped = k }))
      (omega arith)
    ∙ each_read ss (c + s.len) (with_mem m io)

each_write :
    (ss : List Segment) (c : ℕ) (io : Io)
    → each_segment dir_write ss c io ≡ with_mem (write_segments c ss io.mem) io
unfolding each_segment write_segments
each_write [] c io = refl
each_write (s ∷ ss) c io =
    let m = memcpy c (buffer s) s.len io.mem in
    ap (λ k. each_segment dir_write ss (c + s.len) (record io { mem = m; kmapped = k }))
      (omega arith)
    ∙ each_write ss (c + s.len) (with_mem m io)

each_none :
    (dir : ℕ) (ss : List Segment) (c : ℕ) (io : Io)
    → (dir == dir_read) ≡ false
    → (dir == dir_write) ≡ false
    → each_segment dir ss c io ≡ io
unfolding each_segment
each_none dir [] c io p q = refl
each_none dir (s ∷ ss) c io p q = rw (p, q) (ap (λ k. record io { kmapped = k }) (omega arith))

each_segment_lem :
    (dir : ℕ) (ss : List Segment) (c : ℕ) (io : Io)
    → each_segment dir ss c io ≡ with_mem (transfer dir c ss io.mem) io
each_segment_lem dir ss c io = elim (Bool-cases (dir == dir_read)) [
  | inl reads ↦
      let d : dir_read ≡ dir = ground arith in
      subst (λ e. each_segment e ss c io ≡ with_mem (transfer e c ss io.mem) io) d
        (each_read ss c io)
  | inr p ↦ elim (Bool-cases (dir == dir_write)) [
    | inl writes ↦
        let d : dir_write ≡ dir = ground arith in
        subst (λ e. each_segment e ss c io ≡ with_mem (transfer e c ss io.mem) io) d
          (each_write ss c io)
    | inr q ↦ rw (p, q) (each_none dir ss c io p q)
  ]
]

-- The positions of the block layer stay in a word, and it counts the bytes of the segments.
pub record IsBio (bio : Bio) : Type 0 where
  pub counted : bio.bi_size ≡ total bio.segments
  pub in_word : bio.bi_sector * ramhd_sector_size + bio.bi_size < sector_mod

abbrev pub start : Bio → ℕ
start bio = bio.bi_sector * ramhd_sector_size

-- A `bio` beyond the end of the device is ended with -EIO, and nothing is moved. Any other is ended
-- with 0 after one transfer in its direction, and every page that was mapped is unmapped.
pub ramhd_make_request_lem :
    (bio : Bio) (io : Io)
    → IsBio bio
    → ramhd_make_request bio io ≡ (
        if ltb ramhd_size (start bio + bio.bi_size)
        then bio_endio eio io
        else bio_endio success
            (with_mem (transfer bio.dir (bio.area_ptr + start bio) bio.segments io.mem) io))
unfolding ramhd_make_request
ramhd_make_request_lem bio io b =
    let n : start bio % sector_mod ≡ start bio = omega (arith, b.in_word) in
    let e : (start bio + bio.bi_size) % sector_mod ≡ start bio + bio.bi_size =
      omega (arith, b.in_word) in
    rw (n, e, each_segment_lem)

transfer_same :
    (dir x c : ℕ) (ss : List Segment) (m : Mem)
    → AreApart x 1 ss
    → (x < c) ⊎ (c + total ss ≤ x)
    → transfer dir c ss m x ≡ m x
transfer_same dir x c ss m h out = elim (Bool-cases (dir == dir_read)) [
  | inl reads ↦ rw reads (read_segments_same x c ss m h)
  | inr p ↦ elim (Bool-cases (dir == dir_write)) [
    | inl writes ↦ rw (p, writes) (write_segments_outside c ss m x out)
    | inr q ↦ rw (p, q)
  ]
]

-- Whatever its direction, a `bio` whose end, in bytes, fits a 64-bit word, and whose size is that of its
-- segments, keeps every byte that is outside the area of its
-- device and outside its own segments, and leaves no page mapped.
pub ramhd_make_request_bounds :
    (bio : Bio) (io : Io) (x : ℕ)
    → IsBio bio
    → AreApart x 1 bio.segments
    → (x < bio.area_ptr) ⊎ (bio.area_ptr + ramhd_size ≤ x)
    → ((ramhd_make_request bio io).mem x ≡ io.mem x)
      × ((ramhd_make_request bio io).kmapped ≡ io.kmapped)
ramhd_make_request_bounds bio io x b p q =
    rw (ramhd_make_request_lem bio io b)
      (elim (Bool-cases (ltb ramhd_size (start bio + bio.bi_size))) [
        | inl beyond ↦ rw beyond (refl, refl)
        | inr within ↦ rw within (
          transfer_same bio.dir x (bio.area_ptr + start bio) bio.segments io.mem p
              (ground (arith, b.counted)),
          refl,
        )
      ])

-- A write of a `bio` within the device, and then a read of as many bytes from the same sector of the
-- same device: the read's segments hold what those of the write held, and both ended with 0. No
-- segment meets the part of the device, and those of the read do not meet one another.
pub ramhd_read_back :
    (wr rd : Bio) (io : Io)
    → IsBio wr
    → IsBio rd
    → wr.dir ≡ dir_write
    → rd.dir ≡ dir_read
    → rd.area_ptr ≡ wr.area_ptr
    → rd.bi_sector ≡ wr.bi_sector
    → rd.bi_size ≡ wr.bi_size
    → start wr + wr.bi_size ≤ ramhd_size
    → AreApart (wr.area_ptr + start wr) (total wr.segments) wr.segments
    → AreApart (wr.area_ptr + start wr) (total rd.segments) rd.segments
    → AreDisjoint rd.segments
    → let io' = ramhd_make_request rd (ramhd_make_request wr io) in
      (gather rd.segments io'.mem ≡ gather wr.segments io.mem)
      × (io'.ended ≡ (io.ended ++ success ∷ []) ++ success ∷ [])
ramhd_read_back wr rd io w r writes reads device sector size fits apart apart2 disjoint =
    let fits2 : start rd + rd.bi_size ≤ ramhd_size = omega (arith, sector, size, fits) in
    rw
      (
        ramhd_make_request_lem wr io w,
        ltb-eq-false ramhd_size (start wr + wr.bi_size) fits,
        ramhd_make_request_lem rd _ r,
        ltb-eq-false ramhd_size (start rd + rd.bi_size) fits2,
        writes,
        reads,
        device,
        sector,
      )
      (
        read-write (wr.area_ptr + start wr) wr.segments rd.segments io.mem
            (sym r.counted ∙ size ∙ w.counted) apart apart2 disjoint,
        refl,
      )
