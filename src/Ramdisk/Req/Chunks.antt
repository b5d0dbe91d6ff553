-- ===== src/Ramdisk/Req/Chunks.antt =====
-- What `ramhd_req_func` of ramdisk-lab/ramhd_req.c does with a request whose chunks lie in a row.
use linux_labs.Prelude.{
  ℕ, ◌+◌, ◌*◌, ◌≤◌, ◌<◌, ◌≡◌, refl, sym, ap, ◌∙◌, Bool, true, false, List, [], ◌∷◌, arith, map,
}
use linux_labs.Memory.{Mem}
use linux_labs.Memory.Copy.{memcpy}
use linux_labs.Ramdisk.Transfer.{
  Segment, total, gather, AreApart, AreDisjoint, write_segments, read_segments, read-write,
}
use linux_labs.Ramdisk.Req.{
  Chunk, Request, one_chunk, each_chunk, ramhd_req_func, sector_bytes, word,
}
use mathlib.Core.Path.{ap₂, subst}

-- The part of memory that a chunk reads or writes.
abbrev pub segment : Chunk → Segment
segment c = record { kaddr = c.buf; offset = 0; len = c.nbytes }

abbrev pub segments : Request → List Segment
segments r = segment r.first ∷ map segment r.more

-- Each chunk starts where the one before it ends.
abbrev pub AreInRow : ℕ → List Chunk → Type 0
AreInRow pos [] = Unit {0}
AreInRow pos (c ∷ cs) = (c.sector * sector_bytes ≡ pos) × AreInRow (pos + c.nbytes) cs

abbrev pub start : Request → ℕ
start r = r.first.sector * sector_bytes

-- The block layer's requests: the chunks lie in a row, and within the capacity of the device, which
-- stands in the address space.
pub record IsRequest (capacity : ℕ) (r : Request) : Type 0 where
  pub in_row : AreInRow (start r + r.first.nbytes) r.more
  pub within : start r + total (segments r) ≤ capacity
  pub in_space : r.area_ptr + capacity < word

abbrev pub transfer : Bool → ℕ → List Segment → Mem → Mem
transfer true c ss m = read_segments c ss m
transfer false c ss m = write_segments c ss m

one_chunk_lem :
    (area_ptr : ℕ) (is_read : Bool) (c : Chunk) (m : Mem)
    → area_ptr + c.sector * sector_bytes < word
    → one_chunk area_ptr is_read c m
      ≡ transfer is_read (area_ptr + c.sector * sector_bytes) (segment c ∷ []) m
unfolding one_chunk read_segments write_segments
one_chunk_lem area_ptr true c m h = ap₂ (λ b a. memcpy b a c.nbytes m) (omega arith) (omega arith)
one_chunk_lem area_ptr false c m h = ap₂ (λ b a. memcpy a b c.nbytes m) (omega arith) (omega arith)

transfer-cons :
    (is_read : Bool) (a : ℕ) (s : Segment) (ss : List Segment) (m : Mem)
    → transfer is_read (a + s.len) ss (transfer is_read a (s ∷ []) m)
      ≡ transfer is_read a (s ∷ ss) m
unfolding read_segments write_segments
transfer-cons true a s ss m = refl
transfer-cons false a s ss m = refl

each_chunk_lem :
    (area_ptr : ℕ) (is_read : Bool) (c : Chunk) (cs : List Chunk) (m : Mem)
    → AreInRow (c.sector * sector_bytes + c.nbytes) cs
    → area_ptr + (c.sector * sector_bytes + total (map segment (c ∷ cs))) < word
    → each_chunk area_ptr is_read c cs m
      ≡ transfer is_read (area_ptr + c.sector * sector_bytes) (map segment (c ∷ cs)) m
unfolding each_chunk
each_chunk_lem area_ptr is_read c [] m row h = one_chunk_lem area_ptr is_read c m (omega arith)
each_chunk_lem area_ptr is_read c (d ∷ ds) m row h =
    let a = area_ptr + c.sector * sector_bytes in
    let m1 = transfer is_read a (segment c ∷ []) m in
    let next : area_ptr + d.sector * sector_bytes ≡ a + c.nbytes = omega (arith, row.0) in
    ap (each_chunk area_ptr is_read d ds) (one_chunk_lem area_ptr is_read c m (omega arith))
    ∙ each_chunk_lem area_ptr is_read d ds m1
        (subst (λ p. AreInRow (p + d.nbytes) ds) (sym row.0) row.1) (omega (arith, row.0))
    ∙ ap (λ x. transfer is_read x (map segment (d ∷ ds)) m1) next
    ∙ transfer-cons is_read a (segment c) (map segment (d ∷ ds)) m

-- Served chunk by chunk, a request within the capacity of its device is one transfer between its
-- buffers and the part of the device's area from its first sector on.
pub ramhd_req_func_lem :
    (capacity : ℕ) (r : Request) (rs : List Request) (m : Mem)
    → IsRequest capacity r
    → ramhd_req_func (r ∷ rs) m
      ≡ ramhd_req_func rs (transfer r.is_read (r.area_ptr + start r) (segments r) m)
unfolding ramhd_req_func
ramhd_req_func_lem capacity r rs m q = ap (ramhd_req_func rs) (
    each_chunk_lem r.area_ptr r.is_read r.first r.more m q.in_row
      (omega (arith, q.within, q.in_space)))

-- A write and then a read of as many bytes from the same sector of the same device, both within its
-- capacity: the buffers of the read hold what those of the write held. No buffer meets the part of
-- the device, and those of the read do not meet one another.
pub ramhd_req_read_back :
    (capacity : ℕ) (wr rd : Request) (m : Mem)
    → IsRequest capacity wr
    → IsRequest capacity rd
    → wr.is_read ≡ false
    → rd.is_read ≡ true
    → rd.area_ptr ≡ wr.area_ptr
    → start rd ≡ start wr
    → total (segments rd) ≡ total (segments wr)
    → AreApart (wr.area_ptr + start wr) (total (segments wr)) (segments wr)
    → AreApart (wr.area_ptr + start wr) (total (segments rd)) (segments rd)
    → AreDisjoint (segments rd)
    → gather (segments rd) (ramhd_req_func (wr ∷ rd ∷ []) m) ≡ gather (segments wr) m
unfolding ramhd_req_func
ramhd_req_read_back capacity wr rd m w r writes reads device sector size apart apart2 disjoint =
    rw
      (
        ramhd_req_func_lem capacity wr (rd ∷ []) m w,
        ramhd_req_func_lem capacity rd [] _ r,
        writes,
        reads,
        device,
        sector,
      )
      (read-write (wr.area_ptr + start wr) (segments wr) (segments rd) m size apart apart2 disjoint)
