-- ===== src/Ramdisk/SampleBlk/Requests.antt =====
-- What `sampleblk_request` of ramdisk-lab/sample_blk.c does to the disk and to its callers.
use linux_labs.Prelude.{
  ℕ, ◌+◌, ◌*◌, ◌%◌, ◌<◌, ◌≡◌, refl, sym, ap, ◌∙◌, inl, inr, Bool, true, false, List, [], ◌∷◌, ◌++◌,
  arith, ltb, if◌then◌else◌, Bool-cases,
}
use linux_labs.Memory.{Mem}
use linux_labs.Memory.Copy.{memcpy}
use linux_labs.Ramdisk.Transfer.{Segment, buffer, total, write_segments, read_segments}
use linux_labs.Resources.{Rv, success, eio}
use linux_labs.Ramdisk.SampleBlk.{
  Dev, Request, Io, each_segment, sampleblk_handle_io, one_request, sampleblk_sect_size, word64,
  end_request,
}
use mathlib.Core.Path.{ap₂}

-- The result that a request without segments leaves alone.
abbrev pub after_segments : List Segment → Rv → Rv
after_segments [] rv = rv
after_segments (s ∷ ss) rv = success

-- The loop over the segments is one transfer, and unmaps every page that it mapped.
abbrev pub transfer : Bool → ℕ → List Segment → Mem → Mem
transfer true c ss m = write_segments c ss m
transfer false c ss m = read_segments c ss m

after_segments_success : (ss : List Segment) → after_segments ss success ≡ success
after_segments_success [] = refl
after_segments_success (s ∷ ss) = refl

one_segment : Bool → ℕ → Segment → Mem → Mem
one_segment true c s m = memcpy c (buffer s) s.len m
one_segment false c s m = memcpy (buffer s) c s.len m

each_segment-cons :
    (dev : Dev) (w : Bool) (s : Segment) (ss : List Segment) (pos : ℕ) (rv : Rv) (io : Io)
    → pos + s.len < word64
    → each_segment dev w (s ∷ ss) pos rv io
      ≡ each_segment dev w ss
          (pos + s.len)
          success
          (record io { mem = one_segment w (dev.area_ptr + pos) s io.mem })
unfolding each_segment sampleblk_handle_io one_segment
each_segment-cons dev true s ss pos rv io h =
    ap₂
      (λ p k.
        each_segment dev true ss p success
          (record io { mem = memcpy (dev.area_ptr + pos) (buffer s) s.len io.mem; kmapped = k }))
      (omega arith) (omega arith)
each_segment-cons dev false s ss pos rv io h =
    ap₂
      (λ p k.
        each_segment dev false ss p success
          (record io { mem = memcpy (buffer s) (dev.area_ptr + pos) s.len io.mem; kmapped = k }))
      (omega arith) (omega arith)

transfer-cons :
    (w : Bool) (a pos : ℕ) (s : Segment) (ss : List Segment) (m : Mem)
    → transfer w (a + (pos + s.len)) ss (one_segment w (a + pos) s m)
      ≡ transfer w (a + pos) (s ∷ ss) m
unfolding write_segments read_segments one_segment
transfer-cons true a pos s ss m =
    ap (λ c. write_segments c ss (memcpy (a + pos) (buffer s) s.len m)) (omega arith)
transfer-cons false a pos s ss m =
    ap (λ c. read_segments c ss (memcpy (buffer s) (a + pos) s.len m)) (omega arith)

transfer-nil : (w : Bool) (c : ℕ) (m : Mem) → transfer w c [] m ≡ m
unfolding write_segments read_segments
transfer-nil true c m = refl
transfer-nil false c m = refl

-- The loop over the segments is one transfer, and unmaps every page that it mapped.
each_segment_lem :
    (dev : Dev) (w : Bool) (ss : List Segment) (pos : ℕ) (rv : Rv) (io : Io)
    → pos + total ss < word64
    → each_segment dev w ss pos rv io
      ≡ (after_segments ss rv, record io { mem = transfer w (dev.area_ptr + pos) ss io.mem })
unfolding each_segment
each_segment_lem dev w [] pos rv io h =
    ap (λ m. (rv, record io { mem = m })) (sym (transfer-nil w (dev.area_ptr + pos) io.mem))
each_segment_lem dev w (s ∷ ss) pos rv io h =
    let m1 = one_segment w (dev.area_ptr + pos) s io.mem in
    each_segment-cons dev w s ss pos rv io (omega arith)
    ∙ each_segment_lem dev w ss (pos + s.len) success (record io { mem = m1 }) (omega arith)
    ∙ ap₂ (λ r m. (r, record io { mem = m })) (after_segments_success ss)
        (transfer-cons w dev.area_ptr pos s ss io.mem)

-- The block layer counts the bytes of the segments, and its positions stay in a 64-bit word.
pub record IsRequest (dev : Dev) (rq : Request) : Type 0 where
  pub owned : rq.owner ≡ dev.ptr
  pub counted : rq.nbytes ≡ total rq.segments
  pub in_word : rq.sector * sampleblk_sect_size + rq.nbytes < word64

abbrev pub start : Request → ℕ
start rq = rq.sector * sampleblk_sect_size

-- One request ends with `eio` and no byte moved where it reaches beyond the end, and is one transfer
-- where it does not.
abbrev pub spec : Dev → Request → Rv × Io → Rv × Io
spec dev rq (rv, io) =
    if ltb dev.size (start rq + rq.nbytes)
    then (eio, record io { ended = io.ended ++ eio ∷ []; is_locked = true })
    else (
      after_segments rq.segments rv,
      record io {
        mem = transfer rq.is_write (dev.area_ptr + start rq) rq.segments io.mem;
        ended = io.ended ++ after_segments rq.segments rv ∷ [];
        is_locked = true;
      },
    )

pub one_request-spec :
    (dev : Dev) (rq : Request) (rv : Rv) (io : Io)
    → IsRequest dev rq
    → one_request dev rq (rv, io) ≡ spec dev rq (rv, io)
unfolding one_request
one_request-spec dev rq rv io r =
    let n : start rq % word64 ≡ start rq = omega (arith, r.in_word) in
    let e : (start rq + rq.nbytes) % word64 ≡ start rq + rq.nbytes = omega (arith, r.in_word) in
    rw (n, e)
      (elim (Bool-cases (ltb dev.size (start rq + rq.nbytes))) [
        | inl beyond ↦ rw beyond
        | inr within ↦ rw within (
            ap end_request (
              each_segment_lem dev rq.is_write rq.segments (start rq) rv
                (record io { is_locked = false }) (omega (arith, r.in_word, r.counted))))
      ])
