-- ===== src/Ramdisk/Req.antt =====
-- ramdisk-lab/ramhd_req.c: the request function, chunk by chunk. The paths that take and give back
-- devices are those of ramdisk-lab/ramhd_mkreq.c but for the results that `ramhd_init` ignores.
pub mod Chunks
use linux_labs.Prelude.{ℕ, ◌+◌, ◌*◌, ◌%◌, Bool, List, [], ◌∷◌, if◌then◌else◌, ◌^◌}
use linux_labs.Memory.{Mem}
use linux_labs.Memory.Copy.{memcpy}

abbrev pub sector_bytes : ℕ
sector_bytes = 512

-- The values of `unsigned long`.
abbrev pub word : ℕ
word = 2 ^ 64

-- What the block layer says of a request while a chunk is current: `blk_rq_pos`, `blk_rq_cur_bytes`
-- and `req->buffer`.
pub record Chunk : Type 0 where
  pub sector : ℕ
  pub nbytes : ℕ
  pub buf : ℕ

-- A request of a device whose area stands at `area_ptr`, as its chunks: `__blk_end_request_cur` ends
-- the current one and tells whether another is left. A request that is fetched has one.
pub record Request : Type 0 where
  pub area_ptr : ℕ
  pub is_read : Bool
  pub first : Chunk
  pub more : List Chunk

unfoldable pub one_chunk : (area_ptr : ℕ) → (is_read : Bool) → Chunk → Mem → Mem
one_chunk area_ptr is_read c m =
    let addr = (area_ptr + c.sector * sector_bytes) % word in
    if is_read then memcpy c.buf addr c.nbytes m else memcpy addr c.buf c.nbytes m

-- The rounds of the loop in which `__blk_end_request_cur` says that the request goes on, and the one
-- that ends it.
unfoldable pub each_chunk : (area_ptr : ℕ) → (is_read : Bool) → Chunk → List Chunk → Mem → Mem
each_chunk area_ptr is_read c [] m = one_chunk area_ptr is_read c m
each_chunk area_ptr is_read c (d ∷ ds) m =
    each_chunk area_ptr is_read d ds (one_chunk area_ptr is_read c m)

-- The loop over what `blk_fetch_request` returns.
unfoldable pub ramhd_req_func : List Request → Mem → Mem
ramhd_req_func [] m = m
ramhd_req_func (r ∷ rs) m = ramhd_req_func rs (each_chunk r.area_ptr r.is_read r.first r.more m)
